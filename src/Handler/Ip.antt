-- ===== src/Handler/Ip.antt =====
-- parseIPv4Params, parseIPv6Params and compileIP of src/compiler/instructionparser.cpp.
use tcppump.Common.{
  ℕ, ◌+◌, Bool, true, false, ◌||◌, not, [], ◌∷◌, Option, none, some, ◌==◌, Bytes, Result, err, ok,
}
use tcppump.Syntax.Net.{
  par_ip_dscp, par_ip_ecn, par_ip_ttl, par_ip4_df, par_ip_dip, par_ip_sip, par_ip4_id,
  par_ip4_chksum, par_ip6_fl, par_ip_payload, par_ip_protocol,
}
use tcppump.Checksum.{Region}
use tcppump.Address.{is_multicast_ipv6}
use tcppump.Ethernet.{EthernetPacket, new_packet, mac_header_size, set_type_length}
use tcppump.Ip.Packet.{IpPacket, set_identification, set_header_chksum, is_multicast}
use tcppump.Ip.Fragments.{v4compile}
use tcppump.Ip.Six.{Ip6Packet, v6compile}
use tcppump.Handler.{
  Env, Handler, ◌>>=◌, pure, lift, required, given_or, given, as_integer, as_any, as_ipv4, as_ipv6,
  stream, parameter_or_own_ipv4, parameter_or_own_ipv6,
}
use tcppump.Handler.Mac.{compile_mac_header, compile_vlan_tags}

-- What a call with the identification of the next datagram comes to.
abbrev pub send : {A : Type 0} → (ℕ → Result (A × ℕ)) → Handler A
send f w = elim (f w.next_id) [
  | err cause ↦ err cause
  | ok r ↦ ok (r.0, record w { next_id = r.1 })
]

module _ (e : Env) where
  -- The data behind a pointer into the instruction.
  abbrev pub region_of : Bytes → Region
  region_of bytes = record { odd_address = e.is_odd bytes; bytes = bytes }

  -- The constructor of cIPPacket.
  unfoldable pub new_ip : Handler IpPacket
  new_ip = do
    p ← lift (new_packet (e.settings.my_mtu + mac_header_size + 4) e.memory)
    pure (record {
      mtu = e.settings.my_mtu;
      first = set_type_length p 0x0800;
      others = [];
      dscp = 0;
      ecn = 0;
      ttl = 1;
      src_ip = 0 ∷ 0 ∷ 0 ∷ 0 ∷ [];
      dst_ip = 0 ∷ 0 ∷ 0 ∷ 0 ∷ [];
      dont_fragment = false;
      identification = 0;
      has_id = false;
      has_router_alert_option = false;
      has_chksum = false;
      chksum = 0;
    })

  abbrev pub destined : IpPacket → Bool → Handler (IpPacket × Bool)
  destined ip true = pure (ip, false)
  destined ip false = do
    dip ← required par_ip_dip (as_ipv4 e)
    pure (record ip { dst_ip = dip }, is_multicast dip)

  abbrev pub identified : IpPacket → Option ℕ → IpPacket
  identified ip none = ip
  identified ip (some id) = set_identification ip id

  abbrev pub with_chksum : IpPacket → Option ℕ → IpPacket
  with_chksum ip none = ip
  with_chksum ip (some chksum) = set_header_chksum ip chksum

  -- The packet, and whether its destination is a multicast address.
  unfoldable pub parse_ipv4_params : IpPacket → Bool → Handler (IpPacket × Bool)
  parse_ipv4_params ip no_destination_ip = do
    dscp ← given_or par_ip_dscp 0 (as_integer e 8 0 0x3f)
    ecn ← given_or par_ip_ecn 0 (as_integer e 8 0 3)
    ttl ← given_or par_ip_ttl 64 (as_any e 8)
    df ← given_or par_ip4_df 0 (as_integer e 8 0 1)
    to ←
        destined (record ip { dscp = dscp; ecn = ecn; ttl = ttl; dont_fragment = not (df == 0) })
          no_destination_ip
    sip ← parameter_or_own_ipv4 e par_ip_sip
    id ← given par_ip4_id (as_any e 16)
    chksum ← given par_ip4_chksum (as_any e 16)
    pure (with_chksum (identified (record to.0 { src_ip = sip }) id) chksum, to.1)

  -- The Ethernet header of a packet. An address of the frame is not needed where it follows from a
  -- multicast address, or where the settings say so.
  abbrev pub with_header : Bool → Bool → Bool → EthernetPacket → Handler EthernetPacket
  with_header true no_destination is_optional p = pure p
  with_header false no_destination is_optional p = do
    q ← compile_mac_header e p no_destination is_optional
    compile_vlan_tags e q.0

  -- How the handlers over IPv4 begin.
  unfoldable pub begin_ipv4 : Bool → Handler IpPacket
  begin_ipv4 no_eth_header = do
    new ← new_ip
    ip ← parse_ipv4_params new false
    first ← with_header no_eth_header false (e.ip_optional_dest_mac || ip.1) ip.0.first
    pure (record ip.0 { first = first })

  unfoldable pub compile_ipv4 : Bool → Handler IpPacket
  compile_ipv4 no_eth_header = do
    ip ← begin_ipv4 no_eth_header
    payload ← required par_ip_payload (stream e)
    protocol ← required par_ip_protocol (as_any e 8)
    send (λ next. v4compile e.fresh next ip protocol [] payload)

  unfoldable pub new_ip6 : Handler Ip6Packet
  new_ip6 = do
    p ← lift (new_packet (e.settings.my_mtu + mac_header_size + 4) e.memory)
    let zeros = 0 ∷ 0 ∷ 0 ∷ 0 ∷ 0 ∷ 0 ∷ 0 ∷ 0 ∷ 0 ∷ 0 ∷ 0 ∷ 0 ∷ 0 ∷ 0 ∷ 0 ∷ 0 ∷ []
    pure (record {
      mtu = e.settings.my_mtu;
      first = set_type_length p 0x86dd;
      others = [];
      dscp = 0;
      ecn = 0;
      ttl = 1;
      src_ip = zeros;
      dst_ip = zeros;
      flowlabel = 0;
    })

  abbrev pub labelled : Ip6Packet → Option ℕ → Ip6Packet
  labelled ip none = ip
  labelled ip (some label) = record ip { flowlabel = label }

  -- No handler calls it without a destination address.
  unfoldable pub parse_ipv6_params : Ip6Packet → Handler (Ip6Packet × Bool)
  parse_ipv6_params ip = do
    dscp ← given_or par_ip_dscp 0 (as_integer e 8 0 0x3f)
    ecn ← given_or par_ip_ecn 0 (as_integer e 8 0 3)
    ttl ← given_or par_ip_ttl 64 (as_any e 8)
    dip ← required par_ip_dip (as_ipv6 e)
    sip ← parameter_or_own_ipv6 e par_ip_sip
    label ← given par_ip6_fl (as_integer e 32 0 0xfffff)
    pure (
      labelled (record ip { dscp = dscp; ecn = ecn; ttl = ttl; dst_ip = dip; src_ip = sip }) label,
      is_multicast_ipv6 dip,
    )

  unfoldable pub compile_ipv6 : Bool → Handler Ip6Packet
  compile_ipv6 no_eth_header = do
    new ← new_ip6
    ip ← parse_ipv6_params new
    first ← with_header no_eth_header false (e.ip_optional_dest_mac || ip.1) ip.0.first
    payload ← required par_ip_payload (stream e)
    protocol ← required par_ip_protocol (as_any e 8)
    lift (v6compile (record ip.0 { first = first }) protocol [] payload)

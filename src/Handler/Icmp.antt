-- ===== src/Handler/Icmp.antt =====
-- compileICMP, compileICMPWithEmbedded, compileICMPRedirect, compileICMPPing and compileVRRP of
-- src/compiler/instructionparser.cpp.
use tcppump.Common.{
  ℕ, zero, suc, Bool, true, false, Option, none, some, ◌==◌, if◌then◌else◌, Bytes, Result, ok,
}
use tcppump.Syntax.Net.{
  par_icmp4_type, par_icmp4_code, par_icmp4_payload, par_icmp4_chksum, par_icmp4_gw, par_icmp4_id,
  par_icmp4_seq, par_vrrp_vrip, par_vrrp_vrid, par_vrrp_vrprio, par_vrrp_type, par_vrrp_aint,
  par_vrrp_chksum,
}
use tcppump.Checksum.{Region}
use tcppump.Params.{Parameter}
use tcppump.Ip.Packet.{IpPacket}
use tcppump.Transport.Icmp.{
  compile_raw, compile_raw_with_checksum, compile_with_embedded_inet, compile_redirect,
  compile_ping,
}
use tcppump.Transport.Vrrp
use tcppump.Transport.Vrrp.{
  VrrpPacket, VrrpHeader, zeroed, set_version, set_vrid, set_prio, set_type, set_interval,
  set_checksum, add_virtual_ip,
}
use tcppump.Handler.{
  Env, Handler, ◌>>=◌, pure, find_from, read_found, required, given_or, given, as_integer, as_any,
  as_ipv4, stream,
}
use tcppump.Handler.Ip.{send, region_of, new_ip, parse_ipv4_params, with_header, begin_ipv4}
use tcppump.Handler.Udp.{payload_of}
use tcppump.Handler.Tcp.{is_none}

module _ (e : Env) where
  abbrev pub region : Option Bytes → Option Region
  region none = none
  region (some bytes) = some (region_of e bytes)

  abbrev pub raw_message : IpPacket → ℕ → ℕ → Option Region → Option ℕ → ℕ → Result (IpPacket × ℕ)
  raw_message ip type code payload none next = compile_raw e.fresh next ip type code payload
  raw_message ip type code payload (some chksum) next =
      compile_raw_with_checksum e.fresh next ip type code chksum payload

  unfoldable pub compile_icmp : Bool → Handler IpPacket
  compile_icmp no_eth_header = do
    ip ← begin_ipv4 e no_eth_header
    type ← required par_icmp4_type (as_any e 8)
    code ← required par_icmp4_code (as_any e 8)
    payload ← given par_icmp4_payload (stream e)
    chksum ← given par_icmp4_chksum (as_any e 16)
    send (raw_message ip type code (region payload) chksum)

  module _ (compile_embedded : Parameter → Bool → Handler Bytes) where
    unfoldable pub compile_icmp_with_embedded : Bool → ℕ → Handler IpPacket
    compile_icmp_with_embedded no_eth_header type = do
      ip ← begin_ipv4 e no_eth_header
      code ← given_or par_icmp4_code 0 (as_any e 8)
      payload ← payload_of e compile_embedded par_icmp4_payload true
      send (λ next. compile_with_embedded_inet e.fresh next ip type code payload)

    unfoldable pub compile_icmp_redirect : Bool → Handler IpPacket
    compile_icmp_redirect no_eth_header = do
      ip ← begin_ipv4 e no_eth_header
      code ← given_or par_icmp4_code 0 (as_any e 8)
      gw ← required par_icmp4_gw (as_ipv4 e)
      payload ← payload_of e compile_embedded par_icmp4_payload true
      send (λ next. compile_redirect e.fresh next ip code gw payload)

    unfoldable pub compile_icmp_ping : Bool → Bool → Handler IpPacket
    compile_icmp_ping no_eth_header reply = do
      ip ← begin_ipv4 e no_eth_header
      id ← given_or par_icmp4_id 0 (as_any e 16)
      seq ← given_or par_icmp4_seq 0 (as_any e 16)
      payload ← payload_of e compile_embedded par_icmp4_payload true
      send (λ next. compile_ping e.fresh next ip reply id seq payload)

  -- The further addresses, at most `rounds` of them, from behind the parameter `start`.
  unfoldable pub more_vrips : ℕ → Option Parameter → VrrpPacket → Handler VrrpPacket
  more_vrips zero start p w = ok (p, w)
  more_vrips (suc rounds) start p w =
      (find_from start none par_vrrp_vrip true >>= λ found. elim found [
        | none ↦ pure p
        | some v ↦ as_ipv4 e v.value >>= λ ip. more_vrips rounds (some v) (add_virtual_ip p ip)
      ])
        w

  abbrev pub interval_of : ℕ → Handler ℕ
  interval_of version =
      if version == 2
      then given_or par_vrrp_aint 1 (as_any e 8)
      else given_or par_vrrp_aint 100 (as_integer e 16 0 4095)

  abbrev pub with_chksum : VrrpHeader → Option ℕ → VrrpHeader
  with_chksum h none = h
  with_chksum h (some chksum) = set_checksum h chksum

  abbrev pub first_vrip : IpPacket → ℕ → Option Parameter → Handler IpPacket
  first_vrip ip version first = do
    let p = zeroed
    vrid ← required par_vrrp_vrid (as_integer e 8 1 255)
    vrip ← read_found (as_ipv4 e) first
    prio ← given_or par_vrrp_vrprio 100 (as_any e 8)
    type ← given_or par_vrrp_type 1 (as_integer e 8 0 15)
    let h = set_type (set_prio (set_vrid (set_version p.header version) vrid) prio) type
    interval ← interval_of version
    chksum ← given par_vrrp_chksum (as_any e 16)
    let one =
        add_virtual_ip (record p { header = with_chksum (set_interval h interval) chksum }) vrip
    all ← more_vrips 254 first one
    send (λ next. Vrrp.compile e.fresh next ip all (is_none chksum))

  unfoldable pub compile_vrrp : Bool → ℕ → Handler IpPacket
  compile_vrrp no_eth_header version = do
    new ← new_ip e
    ip ← parse_ipv4_params e new true
    first ← with_header e no_eth_header true false ip.0.first
    vrip ← find_from none none par_vrrp_vrip false
    first_vrip (record ip.0 { first = first }) version vrip

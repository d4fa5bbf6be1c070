-- ===== src/Handler/Eth.antt =====
-- compileETH and compileARP of src/compiler/instructionparser.cpp on the parameter list.
use tcppump.Common.{ℕ, ◌+◌, Bool, false, not, Option, none, some, ◌==◌, if◌then◌else◌}
use tcppump.Syntax.Link.{
  par_eth_smac, par_eth_dmac, par_eth_dsap, par_eth_ssap, par_eth_control, par_eth_oui,
  par_eth_protocol, par_eth_payload, par_eth_ethertype, par_arp_op,
}
use tcppump.Syntax.Net.{par_ip_dip, par_ip_sip}
use tcppump.Ethernet.{
  EthernetPacket, new_packet, mac_header_size, add_llc_header, add_snap_header, set_payload,
  set_length, set_type_length,
}
use tcppump.Ethernet.Arp.{set_all, probe, announce, null_mac}
use tcppump.Handler.{
  Env, Handler, ◌>>=◌, pure, lift, required, given_or, given, own, as_integer, as_any, as_mac,
  as_ipv4, stream, parameter_or_own_mac, parameter_or_own_ipv4,
}
use tcppump.Handler.Mac.{compile_mac_header, compile_vlan_tags}

module _ (e : Env) where
  -- The default constructor of cEthernetPacket.
  abbrev pub new_ethernet : Handler EthernetPacket
  new_ethernet = lift (new_packet (e.settings.my_mtu + mac_header_size + 4) e.memory)

  abbrev pub compile_snap : EthernetPacket → Option ℕ → Handler EthernetPacket
  compile_snap p none = pure p
  compile_snap p (some oui) = do
    protocol ← required par_eth_protocol (as_any e 16)
    lift (add_snap_header p oui protocol)

  -- SSAP has to be there if DSAP is; without DSAP there may be a SNAP header.
  abbrev pub compile_llc : EthernetPacket → Option ℕ → Handler EthernetPacket
  compile_llc p none = given par_eth_oui (as_integer e 32 0 0x00ffffff) >>= compile_snap p
  compile_llc p (some dsap) = do
    ssap ← required par_eth_ssap (as_any e 8)
    control ← given_or par_eth_control 3 (as_any e 16)
    lift (add_llc_header p dsap ssap control)

  abbrev pub typed : EthernetPacket → Option ℕ → EthernetPacket
  typed p none = set_length p
  typed p (some kind) = set_type_length p kind

  -- With an LLC header the type is not looked up.
  abbrev pub compile_type : EthernetPacket → Handler EthernetPacket
  compile_type p =
      if not (p.llc_header_length == 0)
      then pure (set_length p)
      else (given par_eth_ethertype (as_any e 16) >>= λ kind. pure (typed p kind))

  unfoldable pub compile_eth : Handler EthernetPacket
  compile_eth = do
    eth ← new_ethernet
    addressed ← compile_mac_header e eth false false
    tagged ← compile_vlan_tags e addressed.0
    dsap ← given par_eth_dsap (as_any e 8)
    headed ← compile_llc tagged dsap
    payload ← required par_eth_payload (stream e)
    filled ← lift (set_payload headed payload)
    compile_type filled

  abbrev pub compile_request : EthernetPacket → Handler EthernetPacket
  compile_request arp = do
    target ← given_or par_eth_dmac null_mac (as_mac e)
    op ← given_or par_arp_op 1 (as_any e 16)
    smac ← parameter_or_own_mac e par_eth_smac
    sip ← parameter_or_own_ipv4 e par_ip_sip
    dip ← required par_ip_dip (as_ipv4 e)
    lift (set_all arp op smac sip target dip)

  abbrev pub compile_probe : EthernetPacket → Handler EthernetPacket
  compile_probe arp = do
    mine ← own e.settings.my_mac
    dip ← required par_ip_dip (as_ipv4 e)
    lift (probe arp mine dip)

  abbrev pub compile_announce : EthernetPacket → Handler EthernetPacket
  compile_announce arp = do
    mine ← own e.settings.my_mac
    dip ← parameter_or_own_ipv4 e par_ip_dip
    lift (announce arp mine dip)

  unfoldable pub compile_arp : Bool → Bool → Handler EthernetPacket
  compile_arp is_probe is_gratuitous = do
    arp ← new_ethernet
    sent ←
        if is_probe
        then compile_probe arp
        else if is_gratuitous
        then compile_announce arp
        else compile_request arp
    compile_vlan_tags e sent

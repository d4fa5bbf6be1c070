-- ===== src/Handler/Udp.antt =====
-- compileUDP and compileVXLAN of src/compiler/instructionparser.cpp over IPv4. `compile_embedded` is that
-- of the instruction parser.
use tcppump.Common.{ℕ, Bool, false, Option, none, some, Bytes, Result, err, ok}
use tcppump.Syntax.Net.{
  par_udp_sport, par_udp_dport, par_udp_payload, par_udp_chksum, par_vxlan_vni, par_vxlan_payload,
}
use tcppump.Checksum.{Region}
use tcppump.Checksum.Verify.{part_bytes}
use tcppump.Params.{Parameter}
use tcppump.Ip.Packet.{IpPacket}
use tcppump.Transport.Udp
use tcppump.Transport.Udp.{UdpHeader, zeroed, set_source_port, set_destination_port}
use tcppump.Transport.Vxlan
use tcppump.Transport.Vxlan.{new_header, set_vni}
use tcppump.Handler.{
  Env, Handler, ◌>>=◌, pure, lift, find_optional, required, given_or, given, as_integer, as_any,
}
use tcppump.Handler.Ip.{region_of, begin_ipv4}

-- A packet, what a layer 4 class keeps beside it, and the next identification.
abbrev pub send_with : {A B : Type 0} → (ℕ → Result (A × (B × ℕ))) → Handler (A × B)
send_with f w = elim (f w.next_id) [
  | err cause ↦ err cause
  | ok (a, (b, next)) ↦ ok ((a, b), record w { next_id = next })
]

module _ (e : Env) (compile_embedded : Parameter → Bool → Handler Bytes) where
  abbrev pub embedded_in : Bool → Option Parameter → Handler (Option Region)
  embedded_in no_eth_header none = pure none
  embedded_in no_eth_header (some v) =
      compile_embedded v no_eth_header >>= λ bytes. pure (some (region_of e bytes))

  -- Optional payload, which may be an embedded instruction.
  abbrev pub payload_of : Bytes → Bool → Handler (Option Region)
  payload_of name no_eth_header = find_optional name >>= embedded_in no_eth_header

  abbrev pub overwritten : IpPacket × UdpHeader → Option ℕ → Handler IpPacket
  overwritten sent none = pure sent.0
  overwritten sent (some chksum) = lift (Udp.set_checksum sent.0 sent.1 chksum) >>= λ r. pure r.0

  unfoldable pub compile_udp : Bool → Handler IpPacket
  compile_udp no_eth_header = do
    ip ← begin_ipv4 e no_eth_header
    sport ← required par_udp_sport (as_any e 16)
    dport ← required par_udp_dport (as_any e 16)
    let header = set_destination_port (set_source_port zeroed sport) dport
    payload ← payload_of par_udp_payload false
    sent ← send_with (λ next. Udp.compile e.fresh next ip header payload)
    chksum ← given par_udp_chksum (as_any e 16)
    overwritten sent chksum

  unfoldable pub compile_vxlan : Bool → Handler IpPacket
  compile_vxlan no_eth_header = do
    ip ← begin_ipv4 e no_eth_header
    sport ← required par_udp_sport (as_any e 16)
    dport ← given_or par_udp_dport 4789 (as_any e 16)
    vni ← given_or par_vxlan_vni 0 (as_integer e 32 0 0x00ffffff)
    let header = set_destination_port (set_source_port zeroed sport) dport
    payload ← payload_of par_vxlan_payload false
    sent ←
        send_with (λ next.
          Vxlan.compile e.fresh next ip header (set_vni new_header vni) (part_bytes payload))
    pure sent.0

-- ===== src/Handler/Tcp.antt =====
-- compileTCP and compileGRE of src/compiler/instructionparser.cpp over IPv4.
use tcppump.Common.{ℕ, Bool, true, false, not, Option, none, some, ◌==◌, Bytes, Result, err, ok}
use tcppump.Params.{Parameter}
use tcppump.Syntax.Net.{
  par_tcp_sport, par_tcp_dport, par_tcp_seq, par_tcp_ack, par_tcp_win, par_tcp_urgptr, par_tcp_fin,
  par_tcp_syn, par_tcp_reset, par_tcp_push, par_tcp_ackflag, par_tcp_urgent, par_tcp_ecn,
  par_tcp_cwr, par_tcp_nonce, par_tcp_payload, par_tcp_chksum, par_gre_protocol, par_gre_key,
  par_gre_seq, par_gre_chksum, par_gre_payload,
}
use tcppump.Ip.Packet.{IpPacket}
use tcppump.Transport.Tcp
use tcppump.Transport.Tcp.{
  TcpHeader, new_header, set_source_port, set_destination_port, set_seq_number, set_ack_number,
  set_window, set_urgent_pointer, set_flag_fin, set_flag_syn, set_flag_rst, set_flag_psh,
  set_flag_ack, set_flag_urg, set_flag_ece, set_flag_cwr, set_flag_non, set_checksum,
}
use tcppump.Transport.Gre
use tcppump.Transport.Gre.{GrePacket, new_packet, set_protocol_type, set_key, set_sequence}
use tcppump.Handler.{Env, Handler, ◌>>=◌, pure, required, given_or, given, as_integer, as_any}
use tcppump.Handler.Ip.{begin_ipv4}
use tcppump.Handler.Udp.{send_with, payload_of}

-- The constructor and `setSeqNumber`, with the static sequence number.
abbrev pub new_tcp : Handler TcpHeader
new_tcp w = let r = new_header w.sequence in ok (r.0, record w { sequence = r.1 })

abbrev pub numbered : TcpHeader → ℕ → Handler TcpHeader
numbered h seq w = let r = set_seq_number h seq in ok (r.0, record w { sequence = r.1 })

abbrev pub send_tcp : (ℕ → ℕ → Result (IpPacket × (TcpHeader × (ℕ × ℕ)))) → Handler IpPacket
send_tcp f w = elim (f w.next_id w.sequence) [
  | err cause ↦ err cause
  | ok (ip, (h, (next, sequence))) ↦ ok (ip, record w { next_id = next; sequence = sequence })
]

abbrev pub with_checksum : TcpHeader → Option ℕ → TcpHeader
with_checksum h none = h
with_checksum h (some chksum) = set_checksum h chksum

abbrev pub is_none : Option ℕ → Bool
is_none none = true
is_none (some n) = false

module _ (e : Env) (compile_embedded : Parameter → Bool → Handler Bytes) where
  abbrev pub flag : Bytes → Handler Bool
  flag name = given_or name 0 (as_integer e 8 0 1) >>= λ n. pure (not (n == 0))

  unfoldable pub flags_of : TcpHeader → Handler TcpHeader
  flags_of h = do
    fin ← flag par_tcp_fin
    syn ← flag par_tcp_syn
    rst ← flag par_tcp_reset
    psh ← flag par_tcp_push
    ack ← flag par_tcp_ackflag
    urg ← flag par_tcp_urgent
    ece ← flag par_tcp_ecn
    cwr ← flag par_tcp_cwr
    non ← flag par_tcp_nonce
    let low = set_flag_psh (set_flag_rst (set_flag_syn (set_flag_fin h fin) syn) rst) psh
    let high = set_flag_cwr (set_flag_ece (set_flag_urg (set_flag_ack low ack) urg) ece) cwr
    pure (set_flag_non high non)

  unfoldable pub compile_tcp : Bool → Handler IpPacket
  compile_tcp no_eth_header = do
    new ← new_tcp
    ip ← begin_ipv4 e no_eth_header
    sport ← required par_tcp_sport (as_any e 16)
    dport ← required par_tcp_dport (as_any e 16)
    seq ← required par_tcp_seq (as_any e 32)
    h ← numbered (set_destination_port (set_source_port new sport) dport) seq
    ack ← required par_tcp_ack (as_any e 32)
    win ← given_or par_tcp_win 1024 (as_any e 16)
    urgptr ← given_or par_tcp_urgptr 0 (as_any e 16)
    flagged ← flags_of (set_urgent_pointer (set_window (set_ack_number h ack) win) urgptr)
    payload ← payload_of e compile_embedded par_tcp_payload false
    chksum ← given par_tcp_chksum (as_any e 16)
    send_tcp (λ next sequence.
        Tcp.compile e.fresh next sequence ip (with_checksum flagged chksum) payload
          (is_none chksum))

  abbrev pub keyed : GrePacket → Option ℕ → GrePacket
  keyed g none = g
  keyed g (some key) = set_key g key

  abbrev pub sequenced : GrePacket → Option ℕ → GrePacket
  sequenced g none = g
  sequenced g (some seq) = set_sequence g seq

  abbrev pub summed : GrePacket → Option ℕ → GrePacket
  summed g none = g
  summed g (some chksum) = Gre.set_checksum g chksum

  -- A checksum of 0 is one to be computed.
  abbrev pub is_computed : Option ℕ → Bool
  is_computed none = false
  is_computed (some chksum) = chksum == 0

  unfoldable pub compile_gre : Bool → Handler IpPacket
  compile_gre no_eth_header = do
    ip ← begin_ipv4 e no_eth_header
    protocol ← required par_gre_protocol (as_any e 16)
    key ← given par_gre_key (as_any e 32)
    seq ← given par_gre_seq (as_any e 32)
    chksum ← given par_gre_chksum (as_any e 16)
    let g = summed (sequenced (keyed (set_protocol_type new_packet protocol) key) seq) chksum
    payload ← payload_of e compile_embedded par_gre_payload true
    sent ← send_with (λ next. Gre.compile e.fresh next ip g payload (is_computed chksum))
    pure sent.0

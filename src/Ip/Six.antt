-- ===== src/Ip/Six.antt =====
-- IPv6 in src/packets/ippacket.hpp and src/packets/ippacket.cpp: the header, and `v6compile`.
pub mod Format
pub mod Carries
use native.Mathlib.Nat.{div-eq_of_lt}
use tcppump.Common.{
  ℕ, zero, suc, ◌+◌, ◌-◌, ◌*◌, ◌/◌, ◌%◌, ◌^◌, ◌≤◌, ◌<◌, ◌≡◌, refl, ap, ◌∙◌, sym, arith, bit_and,
  bit_or, List, [], ◌∷◌, ◌++◌, ltb, le→ltb_false, lt→ltb, ltb→lt, Bool-cases, inl, inr, Bool, true,
  false, ◌==◌, if◌then◌else◌, append_assoc, length, length-append, length-take, take, take_all,
  drop, Bytes, be16, Result, ok, err, bug, ex_par_range, ◌>>=◌,
}
use tcppump.Ethernet.{EthernetPacket, set_payload, append_payload, payload_bytes}
use tcppump.Ethernet.Layout.{Parts, HasParts, header_length}
use tcppump.Ethernet.Layout.Payload.{set_payload-parts}
use tcppump.Ip.Fragments.{append_some, fragment_count}
use tcppump.Ip.Fragments.Count.{fragment_count-div, count_upper}
use tcppump.Ip.Fragments.Room.{
  TakesMtu, payload_bytes-parts, append_some-parts, set_payload-max, append_some-max,
}

-- The fields of cIPPacket that IPv6 uses.
pub record Ip6Packet : Type 0 where
  pub mtu : ℕ
  pub first : EthernetPacket
  pub others : List EthernetPacket
  pub dscp : ℕ
  pub ecn : ℕ
  pub ttl : ℕ
  pub src_ip : Bytes
  pub dst_ip : Bytes
  pub flowlabel : ℕ

unfoldable pub vers_tc : ℕ → ℕ
vers_tc dscp = bit_or (6 * 2 ^ 4) (bit_and dscp 0x3f / 2 ^ 2)

unfoldable pub tc_fl : ℕ → ℕ → ℕ → ℕ
tc_fl dscp ecn flowlabel =
    bit_or (bit_or (bit_and dscp 3 * 2 ^ 6) (bit_and ecn 3 * 2 ^ 4))
      (bit_and flowlabel 0x0f0000 / 2 ^ 16 % 256)

-- `ipv6_header_t::compile`, for `payload_len` bytes behind the header.
unfoldable pub header6 : Ip6Packet → ℕ → ℕ → Bytes
header6 ip proto payload_len =
    vers_tc ip.dscp
    ∷ tc_fl ip.dscp ip.ecn ip.flowlabel
    ∷ (be16 (bit_and ip.flowlabel 0xffff)
        ++ (be16 (payload_len % 2 ^ 16) ++ (proto ∷ ip.ttl % 256 ∷ ip.src_ip ++ ip.dst_ip)))

-- `fragLen`, with `remaining` bytes to go, in packet `n` of `packet_count`.
unfoldable pub fragment_length6 : Ip6Packet → ℕ → ℕ → ℕ → ℕ
fragment_length6 ip packet_count n remaining =
    let room = (ip.mtu + 2 ^ 64 - 40) % 2 ^ 64 in
    let fits = if ltb ip.mtu (remaining + 40) then room else remaining in
    if n + 1 == packet_count then fits else fits / 8 * 8

-- The data of the first packet, behind its IP header.
unfoldable pub put_first6 : Bytes → Bytes → ℕ → EthernetPacket → Result EthernetPacket
put_first6 l4_header payload frag_len p =
    if ltb frag_len (length l4_header)
    then err bug
    else append_some p l4_header (length l4_header) l4_header >>= λ q.
        append_some q payload (frag_len - length l4_header) payload

-- The first round of the loop over `m_packets`.
unfoldable pub first_packet6 : Ip6Packet → ℕ → ℕ → Bytes → Bytes → Result EthernetPacket
first_packet6 ip packet_count protocol l4_header payload = do
  let frag_len = fragment_length6 ip packet_count 0 (length l4_header + length payload)
  p ← set_payload ip.first (header6 ip protocol frag_len)
  put_first6 l4_header payload frag_len p

-- The further rounds. With a single fragment there are none, unless the packet was compiled before.
unfoldable pub other_packets6 :
    Ip6Packet → ℕ → ℕ → ℕ → Bytes → List EthernetPacket → Result (List EthernetPacket)
other_packets6 ip packet_count protocol n payload [] = ok []
other_packets6 ip packet_count protocol n payload (p ∷ ps) =
    let frag_len = fragment_length6 ip packet_count n (length payload) in
    set_payload p (header6 ip protocol frag_len) >>= λ q.
    append_payload q (take frag_len payload) >>= λ r.
    other_packets6 ip packet_count protocol (n + 1) (drop frag_len payload) ps >>= λ rs. ok (r ∷ rs)

-- Data that needs more than one fragment ends the program.
unfoldable pub v6compile : Ip6Packet → ℕ → Bytes → Bytes → Result Ip6Packet
v6compile ip protocol l4_header payload =
    let total = length l4_header + length payload in
    let packet_count = suc (length ip.others) in
    let used = fragment_length6 ip packet_count 0 total - length l4_header in
    if ltb 65535 (total + 40)
    then err ex_par_range
    else if ltb 1 (fragment_count ip.mtu 40 total)
    then err bug
    else if ltb ((ip.mtu + 2 ^ 64 - 40) % 2 ^ 64) (length l4_header)
    then err bug
    else (do
      p ← first_packet6 ip packet_count protocol l4_header payload
      ps ← other_packets6 ip packet_count protocol 1 (drop used payload) ip.others
      ok (record ip { first = p; others = ps }))

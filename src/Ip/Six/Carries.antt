-- ===== src/Ip/Six/Carries.antt =====
-- What `v6compile` sends, and what it refuses.
use native.Mathlib.Nat.{div-eq_of_lt}
use tcppump.Common.{
  ℕ, zero, suc, ◌+◌, ◌-◌, ◌*◌, ◌/◌, ◌%◌, ◌^◌, ◌≤◌, ◌<◌, ◌≡◌, refl, ap, ◌∙◌, arith, List, [], ◌++◌,
  ltb, le→ltb_false, lt→ltb, Bool-cases, inl, inr, if◌then◌else◌, append_assoc, length,
  length-append, length-take, take, take_all, drop, Bytes, Result, ok, err, bug, ex_par_range,
  ◌>>=◌,
}
use tcppump.Ethernet.{EthernetPacket, set_payload, payload_bytes}
use tcppump.Ethernet.Layout.Payload.{set_payload-parts}
use tcppump.Ip.Fragments.{append_some, fragment_count}
use tcppump.Ip.Fragments.Count.{fragment_count-div, count_upper}
use tcppump.Ip.Fragments.Room.{
  TakesMtu, payload_bytes-parts, append_some-parts, set_payload-max, append_some-max,
}
use tcppump.Ip.Six.Format.{format, header6-format}
use tcppump.Ip.Six.{
  Ip6Packet, header6, fragment_length6, put_first6, first_packet6, other_packets6, v6compile,
}

length-header6 :
    (ip : Ip6Packet) (proto len : ℕ)
    → length ip.src_ip ≡ 16
    → length ip.dst_ip ≡ 16
    → length (header6 ip proto len) ≡ 40
unfolding header6
length-header6 ip proto len s d = omega (arith, length-append ip.src_ip ip.dst_ip, s, d)

only_length :
    (ip : Ip6Packet) (total : ℕ) → total + 40 ≤ ip.mtu → fragment_length6 ip 1 0 total ≡ total
unfolding fragment_length6
only_length ip total fits = ground arith

first_packet6-header :
    (ip : Ip6Packet) (protocol frag_len : ℕ) (l4_header payload : Bytes) {q : EthernetPacket}
    → fragment_length6 ip 1 0 (length l4_header + length payload) ≡ frag_len
    → set_payload ip.first (header6 ip protocol frag_len) ≡ ok q
    → first_packet6 ip 1 protocol l4_header payload ≡ put_first6 l4_header payload frag_len q
unfolding first_packet6
first_packet6-header ip protocol frag_len l4_header payload e f = rw (e, f)

put_first6-payload :
    (l4_header payload : Bytes) (frag_len : ℕ) (q : EthernetPacket) {r : EthernetPacket}
    → length l4_header ≤ frag_len
    → append_some q l4_header (length l4_header) l4_header ≡ ok r
    → put_first6 l4_header payload frag_len q
      ≡ append_some r payload (frag_len - length l4_header) payload
unfolding put_first6
put_first6-payload l4_header payload frag_len q room e =
    rw (le→ltb_false frag_len (length l4_header) room, e)

-- The packet of a datagram that fits, with header and data behind one another.
first_packet6-carries :
    (ip : Ip6Packet) (protocol : ℕ) (l4_header payload : Bytes)
    → TakesMtu ip.mtu ip.first
    → length ip.src_ip ≡ 16
    → length ip.dst_ip ≡ 16
    → length l4_header + length payload + 40 ≤ ip.mtu
    → (q : EthernetPacket) × (first_packet6 ip 1 protocol l4_header payload ≡ ok q)
      × (payload_bytes q
          ≡ header6 ip protocol (length l4_header + length payload) ++ (l4_header ++ payload))
first_packet6-carries ip protocol l4_header payload t s d fits =
    let total = length l4_header + length payload in
    let header = header6 ip protocol total in
    let header_size = length-header6 ip protocol total s d in
    let all = only_length ip total fits in
    let head = set_payload-parts t.has header (omega (arith, header_size, t.room)) in
    let head-max = set_payload-max ip.first header head.returned in
    let l4_size = length-take (length l4_header) l4_header in
    let l4_whole = take_all (length l4_header) l4_header (omega arith) in
    let four =
      append_some-parts head.parts l4_header (length l4_header)
        (omega (arith, t.room, header_size, l4_size, head-max)) in
    let four-max = append_some-max head.result l4_header (length l4_header) four.returned in
    let count = total - length l4_header in
    let both = length-append header (take (length l4_header) l4_header) in
    let put = append_some-parts four.parts payload count (
      omega (
        arith,
        t.room,
        header_size,
        l4_size,
        both,
        head-max,
        four-max,
        length-take count payload,
      )) in
    let whole = take_all count payload (omega arith) in
    (
      put.result,
      first_packet6-header ip protocol total l4_header payload all head.returned
          ∙ put_first6-payload l4_header payload total head.result (omega arith) four.returned
          ∙ put.returned,
      payload_bytes-parts put.parts
          ∙ append_assoc header (take (length l4_header) l4_header) (take count payload)
          ∙ ap (λ l. header ++ (l ++ take count payload)) l4_whole
          ∙ ap (λ l. header ++ (l4_header ++ l)) whole,
    )

-- What `v6compile` does behind its guards, for the packets `os` behind the first.
abbrev sent6 : Ip6Packet → ℕ → Bytes → Bytes → List EthernetPacket → Result Ip6Packet
sent6 ip protocol l4_header payload os =
    let packet_count = suc (length os) in
    let used =
      fragment_length6 ip packet_count 0 (length l4_header + length payload) - length l4_header in
    first_packet6 ip packet_count protocol l4_header payload >>= λ p.
    other_packets6 ip packet_count protocol 1 (drop used payload) os >>= λ ps.
    ok (record ip { first = p; others = ps })

single6 :
    (mtu total : ℕ)
    → 40 < mtu
    → mtu < 2 ^ 32
    → 0 < total
    → total + 40 ≤ mtu
    → total < 65536
    → fragment_count mtu 40 total ≡ 1
single6 mtu total room small some_data fits short =
    fragment_count-div mtu 40 total room small some_data short
    ∙ omega (arith, div-eq_of_lt {n = total - 1} {m = mtu - 40} (omega arith))

v6compile-sent6 :
    (ip : Ip6Packet) (protocol : ℕ) (l4_header payload : Bytes)
    → length l4_header + length payload + 40 ≤ 65535
    → fragment_count ip.mtu 40 (length l4_header + length payload) ≡ 1
    → length l4_header ≤ (ip.mtu + 2 ^ 64 - 40) % 2 ^ 64
    → v6compile ip protocol l4_header payload ≡ sent6 ip protocol l4_header payload ip.others
unfolding v6compile
v6compile-sent6 ip protocol l4_header payload short one room = rw (
  le→ltb_false 65535 (length l4_header + length payload + 40) short,
  one,
  le→ltb_false ((ip.mtu + 2 ^ 64 - 40) % 2 ^ 64) (length l4_header) room,
)

-- A datagram with data that fits the MTU with its header, compiled into a single packet with room for
-- the MTU: there is no other packet, and this one carries the IPv6 header byte by byte, with the length
-- of the data, the layer 4 header, and the payload.
pub v6compile_carries :
    (ip : Ip6Packet) (protocol : ℕ) (l4_header payload : Bytes)
    → TakesMtu ip.mtu ip.first
    → ip.others ≡ []
    → length ip.src_ip ≡ 16
    → length ip.dst_ip ≡ 16
    → ip.mtu < 2 ^ 32
    → 0 < length l4_header + length payload
    → length l4_header + length payload + 40 ≤ ip.mtu
    → length l4_header + length payload + 40 ≤ 65535
    → (q : Ip6Packet) × (v6compile ip protocol l4_header payload ≡ ok q)
      × (q.others ≡ [])
      × (payload_bytes q.first
          ≡ format ip protocol (length l4_header + length payload) ++ (l4_header ++ payload))
unfolding other_packets6
v6compile_carries ip protocol l4_header payload t alone s d small some_data fits short =
    let (p, returned, carries) = first_packet6-carries ip protocol l4_header payload t s d fits in
    (
      record ip { first = p; others = [] },
      v6compile-sent6 ip protocol l4_header payload short
            (single6 ip.mtu (length l4_header + length payload) (omega arith) small some_data fits
              (omega arith))
            (omega arith)
          ∙ ap (sent6 ip protocol l4_header payload) alone
          ∙ rw returned,
      refl,
      carries
          ∙ ap (λ h. h ++ (l4_header ++ payload))
              (header6-format ip protocol (length l4_header + length payload)),
    )

several : (k m total : ℕ) → m < total → total ≤ k * m + m → 0 < k
several zero m total more upper = absurd (omega arith)
several (suc k) m total more upper = omega arith

-- Data that does not fit one packet with the IPv6 header is never sent: beyond 65535 bytes with the
-- header it is refused as out of range, and else the program stops.
pub v6compile_refuses :
    (ip : Ip6Packet) (protocol : ℕ) (l4_header payload : Bytes)
    → 40 < ip.mtu
    → ip.mtu < 2 ^ 32
    → ip.mtu < length l4_header + length payload + 40
    → v6compile ip protocol l4_header payload
      ≡ err (if ltb 65535 (length l4_header + length payload + 40) then ex_par_range else bug)
unfolding v6compile
v6compile_refuses ip protocol l4_header payload room small over =
    let total = length l4_header + length payload in
    elim (Bool-cases (ltb 65535 (total + 40))) [
      | inl long ↦ rw long refl
      | inr fits ↦
          let short : total + 40 ≤ 65535 = ground (arith, fits) in
          let count = fragment_count-div ip.mtu 40 total room small (omega arith) (omega arith) in
          let more = several ((total - 1) / (ip.mtu - 40)) (ip.mtu - 40) total (omega arith) (
            count_upper ((total - 1) / (ip.mtu - 40)) (ip.mtu - 40) total (omega arith)
              (omega arith) refl) in
          rw (fits, lt→ltb 1 (fragment_count ip.mtu 40 total) (omega (arith, count, more))) refl
    ]

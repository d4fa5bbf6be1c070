-- ===== src/Ip/Fragments/Delivery.antt =====
-- `v4compile` as a whole, against a receiver that joins its packets.
use tcppump.Common.{
  ℕ, ◌+◌, ◌-◌, ◌*◌, ◌/◌, ◌%◌, ◌^◌, ◌≤◌, ◌<◌, ◌≡◌, refl, ap, ◌∙◌, sym, subst, arith, List, [], ◌∷◌,
  ◌++◌, some, length, length-append, length-take, take, take_all, Bytes, Result, ok, map,
  le→ltb_false, ◌>>=◌,
}
use tcppump.Ethernet.{EthernetPacket, payload_bytes}
use tcppump.Ip.Packet.{IpPacket, get_header_length, address_multicast}
use tcppump.Ip.Receiver.{reassemble}
use tcppump.Ip.Fragments.{Job, fragment_count, fragment_loop, copies, store, identify, v4compile}
use tcppump.Ip.Fragments.Count.{fragment_count-div, count_lower, count_upper}
use tcppump.Ip.Fragments.One.{IsReady}
use tcppump.Ip.Fragments.Room.{TakesMtu}
use tcppump.Ip.Fragments.Rest.{Sends, data_room, data_units, IsCounted}
use tcppump.Ip.Fragments.Packets.{
  address_multicast-TakesMtu, address_multicast-max, copies-TakesMtu, length-copies,
  fragment_loop-Sends,
}

-- What a call of `v4compile` comes to: packets from which a receiver joins `bytes`.
pub record Delivers (r : Result (IpPacket × ℕ)) (bytes : Bytes) : Type 0 where
  pub sent : IpPacket
  pub next_id : ℕ
  pub returned : r ≡ ok (sent, next_id)
  pub joined : reassemble (map payload_bytes (sent.first ∷ sent.others)) 0 ≡ some bytes

stored :
    (ip : IpPacket) (ps : List EthernetPacket) {bytes : Bytes}
    → reassemble (map payload_bytes ps) 0 ≡ some bytes
    → reassemble (map payload_bytes ((store ip ps).first ∷ (store ip ps).others)) 0 ≡ some bytes
unfolding reassemble
stored ip [] e = absurd (ground (arith, e))
stored ip (p ∷ ps) e = e

-- The job that `v4compile` hands to its loop, with `frag_cnt` as the number of fragments.
abbrev pub job_of : (ℕ → Bytes) → ℕ → IpPacket → ℕ → Bytes → ℕ → Job
job_of fresh next ip protocol l4_header frag_cnt = record {
  ip = ip;
  protocol = protocol;
  id = (identify ip frag_cnt next).0;
  frag_cnt = frag_cnt;
  packet_count =
      length
        (address_multicast ip ∷ (ip.others ++ copies fresh (frag_cnt - 1) (address_multicast ip)));
  l4_header = l4_header;
}

v4compile-loop :
    (fresh : ℕ → Bytes) (next : ℕ) (ip : IpPacket) (protocol : ℕ) (l4_header payload : Bytes)
    (frag_cnt : ℕ)
    → IsReady ip
    → fragment_count ip.mtu (get_header_length ip) (length l4_header + length payload) ≡ frag_cnt
    → get_header_length ip + (length l4_header + length payload) ≤ 65535
    → length l4_header ≤ data_room ip
    → let first = address_multicast ip in
      v4compile fresh next ip protocol l4_header payload ≡ (
        fragment_loop
          (job_of fresh next ip protocol l4_header frag_cnt)
          0
          0
          payload
          (first ∷ (ip.others ++ copies fresh (frag_cnt - 1) first))
        >>= λ done. ok (store ip done, (identify ip frag_cnt next).1))
unfolding v4compile
v4compile-loop fresh next ip protocol l4_header payload frag_cnt r e short l4 = rw (
  e,
  le→ltb_false 65535 (length l4_header + length payload + get_header_length ip) (omega arith),
  le→ltb_false ((ip.mtu + 2 ^ 64 - get_header_length ip) % 2 ^ 64) (length l4_header)
      (omega (arith, r.mtu_small, r.has_room)),
)

module _ (fresh : ℕ → Bytes) (next : ℕ) (ip : IpPacket) (protocol : ℕ) (l4_header payload : Bytes)
    (ready : IsReady ip) (takes : TakesMtu ip.mtu ip.first) (alone : ip.others ≡ [])
    (memory : (i : ℕ) → ip.first.packet_max_length ≤ length (fresh i))
    (small_id : ip.identification < 65536) (small_next : next < 65536)
    (some_data : 0 < length l4_header + length payload)
    (short : get_header_length ip + (length l4_header + length payload) ≤ 65535)
    (l4_fits : length l4_header ≤ data_units ip) where
  -- The fragments in front of the last one.
  abbrev before_last : ℕ
  before_last = (length l4_header + length payload - 1) / data_room ip

  -- How much of the data they all carry.
  abbrev carried : ℕ
  carried = before_last * data_units ip + data_room ip

  abbrev first_packet : EthernetPacket
  first_packet = address_multicast ip

  abbrev job : Job
  job = job_of fresh next ip protocol l4_header (before_last + 1)

  other_packets :
      ip.others ++ copies fresh (before_last + 1 - 1) first_packet
      ≡ copies fresh before_last first_packet
  other_packets =
      ap (λ l. l ++ copies fresh (before_last + 1 - 1) first_packet) alone
      ∙ ap (λ k. copies fresh k first_packet) (omega arith)

  IsCounted-job : IsCounted job
  IsCounted-job = record {
    ready = ready;
    counted = omega (arith, ap length other_packets, length-copies fresh before_last first_packet);
    id_small = ground arith;
  }

  sends :
      Sends
        (fragment_loop job 0 0 payload
          (first_packet ∷ (ip.others ++ copies fresh (before_last + 1 - 1) first_packet)))
        0
        (take carried (l4_header ++ payload))
  sends =
      subst
        (λ ps.
          Sends (fragment_loop job 0 0 payload (first_packet ∷ ps)) 0
            (take carried (l4_header ++ payload)))
        (sym other_packets)
        (fragment_loop-Sends job before_last payload first_packet
          (copies fresh before_last first_packet) IsCounted-job
          (address_multicast-TakesMtu ip takes)
          (copies-TakesMtu fresh before_last (address_multicast-TakesMtu ip takes)
            (λ i. omega (arith, memory i, address_multicast-max ip)))
          (length-copies fresh before_last first_packet) (omega arith) l4_fits
          (count_lower before_last (data_room ip) (length l4_header + length payload) some_data
            refl)
          short)

  pub v4compile-Delivers :
      Delivers
        (v4compile fresh next ip protocol l4_header payload)
        (take carried (l4_header ++ payload))
  v4compile-Delivers =
      let next_id = (identify ip (before_last + 1) next).1 in
      record {
        sent = store ip sends.packets;
        next_id = next_id;
        returned =
            v4compile-loop fresh next ip protocol l4_header payload (before_last + 1) ready
              (fragment_count-div ip.mtu (get_header_length ip) (length l4_header + length payload)
                ready.has_room ready.mtu_small some_data (omega arith))
              short (omega arith)
            ∙ ap (λ s. s >>= λ done. ok (store ip done, next_id)) sends.returned;
        joined = stored ip sends.packets sends.joined;
      }

  -- For a datagram of at least one byte and at most 65535 bytes with its header, sent from a single
  -- packet with room for the MTU, whose layer 4 header fits into the first fragment: if the MTU less
  -- the header is a multiple of 8, then `v4compile` returns, and from its packets a receiver joins
  -- the layer 4 header and the payload, complete and in order.
  pub v4compile_whole :
      data_room ip % 8 ≡ 0
      → Delivers (v4compile fresh next ip protocol l4_header payload) (l4_header ++ payload)
  v4compile_whole units =
      let total = length l4_header + length payload in
      let upper =
        count_upper before_last (data_room ip) total (omega (arith, ready.has_room)) some_data
          refl in
      let same : data_units ip ≡ data_room ip = omega (arith, units) in
      let all : length (l4_header ++ payload) ≤ carried =
        omega (arith, length-append l4_header payload, upper, ap (λ u. before_last * u) same) in
      subst (Delivers (v4compile fresh next ip protocol l4_header payload))
        (take_all carried (l4_header ++ payload) all) v4compile-Delivers

  -- For a datagram of at least one byte and at most 65535 bytes with its header, sent from a single
  -- packet with room for the MTU, whose layer 4 header fits into the first fragment: if the data exceeds what the fragments in
  -- front of the last one carry in whole units of 8 bytes and the last one carries without rounding,
  -- then no receiver joins the whole data from the packets of `v4compile`.
  pub v4compile_loses :
      carried < length l4_header + length payload
      → ¬ Delivers (v4compile fresh next ip protocol l4_header payload) (l4_header ++ payload)
  v4compile_loses more whole =
      let cut = v4compile-Delivers in
      let same : cut.sent ≡ whole.sent = ground (arith, cut.returned, whole.returned) in
      let bytes : some (take carried (l4_header ++ payload)) ≡ some (l4_header ++ payload) =
        sym cut.joined
        ∙ ap (λ (sent : IpPacket). reassemble (map payload_bytes (sent.first ∷ sent.others)) 0) same
        ∙ whole.joined in
      let short_front : take carried (l4_header ++ payload) ≡ l4_header ++ payload = cc in
      absurd (
        omega (
          arith,
          ap length short_front,
          length-take carried (l4_header ++ payload),
          length-append l4_header payload,
        ))

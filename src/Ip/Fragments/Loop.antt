-- ===== src/Ip/Fragments/Loop.antt =====
-- The loop over all packets behind the first.
use tcppump.Common.{
  ℕ, zero, suc, ◌+◌, ◌*◌, ◌%◌, ◌≤◌, ◌<◌, ◌≡◌, ◌≢◌, refl, ap, ◌∙◌, sym, arith, ◌==◌, if◌then◌else◌,
  true, false, not, List, [], ◌∷◌, ◌++◌, some, length, length-take, length-drop, take, drop, All,
  Bytes, map, min,
}
use tcppump.Ethernet.{EthernetPacket, payload_bytes}
use tcppump.Ip.Packet.{get_header_length}
use tcppump.Ip.Receiver.{reassemble, prepend, finish}
use tcppump.Ip.Fragments.{Job, header_args, fragment_loop}
use tcppump.Ip.Fragments.One.{header_args-HasAddresses, put_fragment-behind}
use tcppump.Ip.Fragments.Room.{TakesMtu}
use tcppump.Ip.Fragments.Rest.{
  reassemble-packet, take-take-drop, Sends, fragment_loop-cons, fragment_loop-behind, data_room,
  data_units, IsCounted, header_args-IsSound, last_length, inner_length, take-min,
}

-- The packet of a fragment, in front of packets from which a receiver joins `later`.
pub joined_by :
    (j : Job) (n offset frag_len : ℕ) (part : Bytes) (later : List Bytes)
    → IsCounted j
    → offset % 8 ≡ 0
    → get_header_length j.ip + offset + frag_len ≤ 65535
    → frag_len ≡ length part
    → (field : Bytes) → length field ≡ 2
    → reassemble
        ((tcppump.Ip.Header.header_with (header_args j n offset frag_len) field ++ part) ∷ later)
        offset
      ≡ (if not (n + 1 == j.frag_cnt)
          then prepend part (reassemble later (offset + length part))
          else finish part later)
joined_by j n offset frag_len part later c units small e field size =
    reassemble-packet (header_args j n offset frag_len) field part later
      (header_args-IsSound j n offset frag_len c.id_small units (omega arith))
      (header_args-HasAddresses j n offset frag_len c.ready) size (omega (arith, e))

pub no_units : (c m : ℕ) → m ≡ 0 * c + m
no_units c m = omega arith

pub one_more : (k c m : ℕ) → c + (k * c + m) ≡ suc k * c + m
one_more k c m = omega arith

pub loop_rest :
    (ps : List EthernetPacket) (j : Job) (k n offset : ℕ) (payload : Bytes)
    → IsCounted j
    → All (TakesMtu j.ip.mtu) ps
    → length ps ≡ suc k
    → n ≢ 0
    → n + suc k ≡ j.frag_cnt
    → k * data_room j.ip < length payload
    → offset % 8 ≡ 0
    → get_header_length j.ip + offset + length payload ≤ 65535
    → Sends
        (fragment_loop j n offset payload ps)
        offset
        (take (k * data_units j.ip + data_room j.ip) payload)
loop_rest [] j k n offset payload c t count later at more units small = absurd (omega arith)
loop_rest (p ∷ []) j zero n offset payload c t count later at more units small =
    let frag_len = min (length payload) (data_room j.ip) in
    let put =
      put_fragment-behind j n offset frag_len payload c.ready t.0 units later
        (last_length j n payload c.ready later (omega (arith, c.counted))) in
    let part_size : frag_len ≡ length (take frag_len payload) =
      omega (arith, length-take frag_len payload) in
    let ends : (n + 1 == j.frag_cnt) ≡ true = ground arith in
    record {
      packets = put.result ∷ [];
      returned =
          fragment_loop-cons j n offset frag_len payload p []
            (last_length j n payload c.ready later (omega (arith, c.counted))) put.returned
            (unfold fragment_loop in refl);
      joined =
          ap (λ b. reassemble (b ∷ []) offset) put.carries
          ∙ joined_by j n offset frag_len (take frag_len payload) [] c units (omega arith) part_size
              put.field put.field_size
          ∙ rw ends (
              ap some (
                take-min (data_room j.ip) payload
                ∙ ap (λ l. take l payload) (no_units (data_units j.ip) (data_room j.ip))));
    }
loop_rest (p ∷ ps) j (suc k) n offset payload c t count later at more units small =
    let frag_len = data_units j.ip in
    let enough : data_room j.ip < length payload = omega (arith, more) in
    let inner : n + 1 ≢ j.packet_count = λ e. absurd (omega (arith, c.counted)) in
    let size = inner_length j n payload c.ready later inner enough in
    let put = put_fragment-behind j n offset frag_len payload c.ready t.0 units later size in
    let part = take frag_len payload in
    let part_size : frag_len ≡ length part = omega (arith, length-take frag_len payload) in
    let rest =
      loop_rest ps j k (n + 1) (offset + frag_len) (drop frag_len payload) c t.1 (omega arith)
        (λ e. absurd (omega arith)) (omega arith)
        (omega (arith, length-drop frag_len payload, more)) (omega arith)
        (omega (arith, length-drop frag_len payload)) in
    let goes_on : (n + 1 == j.frag_cnt) ≡ false = ground (arith, inner, c.counted) in
    let behind = map payload_bytes rest.packets in
    record {
      packets = put.result ∷ rest.packets;
      returned =
          fragment_loop-behind j n offset frag_len payload p ps later size put.returned
            rest.returned;
      joined =
          ap (λ b. reassemble (b ∷ behind) offset) put.carries
          ∙ joined_by j n offset frag_len part behind c units (omega arith) part_size put.field
              put.field_size
          ∙ rw goes_on (
              ap (λ l. prepend part (reassemble behind (offset + l))) (sym part_size)
              ∙ ap (prepend part) rest.joined
              ∙ ap some (take-take-drop frag_len (k * data_units j.ip + data_room j.ip) payload)
              ∙ ap (λ l. some (take l payload)) (one_more k (data_units j.ip) (data_room j.ip)));
    }
loop_rest (p ∷ q ∷ ps) j zero n offset payload c t count later at more units small =
    absurd (omega arith)

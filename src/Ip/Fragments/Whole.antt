-- ===== src/Ip/Fragments/Whole.antt =====
-- The whole datagram: what a receiver joins from the packets of `v4compile`.
use tcppump.Common.{
  ℕ, suc, ◌+◌, ◌-◌, ◌*◌, ◌≤◌, ◌<◌, ◌≡◌, ◌≢◌, refl, ap, ◌∙◌, sym, subst, arith, ◌==◌, true, false,
  List, [], ◌∷◌, ◌++◌, some, length, length-append, length-take, length-drop, take, drop, All,
  Bytes, map, min,
}
use tcppump.Ethernet.{EthernetPacket, payload_bytes}
use tcppump.Ethernet.Buffer.{take-append_more, drop-append_more}
use tcppump.Ip.Packet.{get_header_length}
use tcppump.Ip.Receiver.{reassemble, prepend}
use tcppump.Ip.Fragments.{Job, header_args, fragment_length, put_fragment, fragment_loop}
use tcppump.Ip.Fragments.One.{IsReady, Puts, put_fragment-first}
use tcppump.Ip.Fragments.Room.{TakesMtu}
use tcppump.Ip.Fragments.Rest.{
  take-take-drop, Sends, fragment_loop-cons, data_room, data_units, IsCounted, take-min,
}
use tcppump.Ip.Fragments.Loop.{joined_by, loop_rest, no_units, one_more}

single_length :
    (j : Job) (rest : ℕ)
    → IsReady j.ip
    → 1 ≡ j.packet_count
    → fragment_length j 0 rest ≡ min rest (data_room j.ip)
unfolding fragment_length
single_length j rest r last = ground (arith, r.has_room, r.mtu_small)

opening_length :
    (j : Job) (rest : ℕ)
    → IsReady j.ip
    → 1 ≢ j.packet_count
    → data_room j.ip < rest
    → fragment_length j 0 rest ≡ data_units j.ip
unfolding fragment_length
opening_length j rest r inner more = ground (arith, r.has_room, r.mtu_small)

-- The data that the datagram carries, and its pieces in the first fragment and behind it.
abbrev pub datagram : Job → Bytes → Bytes
datagram j payload = j.l4_header ++ payload

front :
    (j : Job) (payload : Bytes) (n : ℕ)
    → length j.l4_header ≤ n
    → j.l4_header ++ take (n - length j.l4_header) payload ≡ take n (datagram j payload)
front j payload n h =
    sym (take-append_more j.l4_header payload n (n - length j.l4_header) (omega arith))

behind :
    (j : Job) (payload : Bytes) (n : ℕ)
    → length j.l4_header ≤ n
    → drop n (datagram j payload) ≡ drop (n - length j.l4_header) payload
behind j payload n h = drop-append_more j.l4_header payload n (n - length j.l4_header) (omega arith)

-- `put_fragment-first` with the length of the fragment as a number of its own.
put_opening :
    (j : Job) (frag_len : ℕ) (payload : Bytes) {p : EthernetPacket}
    → IsReady j.ip
    → TakesMtu j.ip.mtu p
    → fragment_length j 0 (length j.l4_header + length payload) ≡ frag_len
    → length j.l4_header ≤ frag_len
    → Puts
        (put_fragment j 0 0 payload p)
        (header_args j 0 0 frag_len)
        (take frag_len (datagram j payload))
put_opening j frag_len payload {p} r t e room =
    subst (λ part. Puts (put_fragment j 0 0 payload p) (header_args j 0 0 frag_len) part)
      (front j payload frag_len room)
      (subst
        (λ l.
          Puts (put_fragment j 0 0 payload p) (header_args j 0 0 l)
            (j.l4_header ++ take (l - length j.l4_header) payload))
        e (put_fragment-first j 0 payload r t refl (omega (arith, e))))

pub loop_single :
    (j : Job) (payload : Bytes) (p : EthernetPacket)
    → IsCounted j
    → TakesMtu j.ip.mtu p
    → 1 ≡ j.frag_cnt
    → length j.l4_header ≤ data_room j.ip
    → get_header_length j.ip + (length j.l4_header + length payload) ≤ 65535
    → Sends
        (fragment_loop j 0 0 payload (p ∷ []))
        0
        (take (0 * data_units j.ip + data_room j.ip) (datagram j payload))
loop_single j payload p c t alone l4 small =
    let total = length j.l4_header + length payload in
    let frag_len = min total (data_room j.ip) in
    let size = single_length j total c.ready (omega (arith, c.counted)) in
    let put = put_opening j frag_len payload c.ready t size (omega arith) in
    let whole = length-append j.l4_header payload in
    let part_size : frag_len ≡ length (take frag_len (datagram j payload)) =
      omega (arith, whole, length-take frag_len (datagram j payload)) in
    let ends : (0 + 1 == j.frag_cnt) ≡ true = ground (arith, alone) in
    record {
      packets = put.result ∷ [];
      returned =
          fragment_loop-cons j 0 0 frag_len payload p [] size put.returned
            (unfold fragment_loop in refl);
      joined =
          ap (λ b. reassemble (b ∷ []) 0) put.carries
          ∙ joined_by j 0 0 frag_len (take frag_len (datagram j payload)) [] c refl (omega arith)
              part_size put.field put.field_size
          ∙ rw ends (
              ap some (
                ap (λ l. take (min l (data_room j.ip)) (datagram j payload)) (sym whole)
                ∙ take-min (data_room j.ip) (datagram j payload)
                ∙ ap (λ l. take l (datagram j payload))
                    (no_units (data_units j.ip) (data_room j.ip))));
    }

pub loop_several :
    (j : Job) (k : ℕ) (payload : Bytes) (p : EthernetPacket) (ps : List EthernetPacket)
    → IsCounted j
    → TakesMtu j.ip.mtu p
    → All (TakesMtu j.ip.mtu) ps
    → length ps ≡ suc k
    → suc (suc k) ≡ j.frag_cnt
    → length j.l4_header ≤ data_units j.ip
    → suc k * data_room j.ip < length j.l4_header + length payload
    → get_header_length j.ip + (length j.l4_header + length payload) ≤ 65535
    → Sends
        (fragment_loop j 0 0 payload (p ∷ ps))
        0
        (take (suc k * data_units j.ip + data_room j.ip) (datagram j payload))
loop_several j k payload p ps c t ts count at l4 more small =
    let total = length j.l4_header + length payload in
    let frag_len = data_units j.ip in
    let inner : 1 ≢ j.packet_count = λ e. absurd (omega (arith, c.counted)) in
    let size = opening_length j total c.ready inner (omega (arith, more)) in
    let put = put_opening j frag_len payload c.ready t size l4 in
    let part = take frag_len (datagram j payload) in
    let whole = length-append j.l4_header payload in
    let part_size : frag_len ≡ length part =
      omega (arith, whole, length-take frag_len (datagram j payload), more) in
    let used = frag_len - length j.l4_header in
    let rest =
      loop_rest ps j k (0 + 1) (0 + frag_len) (drop used payload) c ts count
        (λ e. absurd (omega arith)) (omega arith) (omega (arith, length-drop used payload, more))
        (omega arith) (omega (arith, length-drop used payload)) in
    let later = map payload_bytes rest.packets in
    let place : 0 + length part ≡ 0 + frag_len = omega (arith, part_size) in
    let goes_on : (0 + 1 == j.frag_cnt) ≡ false = ground (arith, inner, c.counted) in
    record {
      packets = put.result ∷ rest.packets;
      returned = fragment_loop-cons j 0 0 frag_len payload p ps size put.returned rest.returned;
      joined =
          ap (λ b. reassemble (b ∷ later) 0) put.carries
          ∙ joined_by j 0 0 frag_len part later c refl (omega arith) part_size put.field
              put.field_size
          ∙ rw goes_on (
              ap (λ l. prepend part (reassemble later l)) place
              ∙ ap (prepend part) rest.joined
              ∙ ap (λ d. some (part ++ take (k * data_units j.ip + data_room j.ip) d))
                  (sym (behind j payload frag_len l4))
              ∙ ap some (
                  take-take-drop frag_len (k * data_units j.ip + data_room j.ip)
                    (datagram j payload))
              ∙ ap (λ l. some (take l (datagram j payload)))
                  (one_more k (data_units j.ip) (data_room j.ip)));
    }

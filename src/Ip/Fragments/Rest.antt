-- ===== src/Ip/Fragments/Rest.antt =====
-- The loop over the packets behind the first, against the receiver that joins them.
use mathlib.Core.Logic.{◌⊎◌}
use tcppump.Common.{
  ℕ, zero, suc, ◌+◌, ◌-◌, ◌*◌, ◌/◌, ◌%◌, ◌<◌, ◌≡◌, ◌≢◌, refl, ap, ◌∙◌, sym, arith, if◌then◌else◌,
  List, [], ◌∷◌, ◌++◌, append_assoc, some, length, length-append, take, drop, drop-append, Bytes,
  Result, ok, map, min,
}
use tcppump.Ethernet.{EthernetPacket, payload_bytes}
use tcppump.Ip.Packet.{IpPacket, get_header_length}
use tcppump.Ip.Header.{HeaderArgs, header_with, before_chksum, after_chksum}
use tcppump.Ip.Header.Fields.{IsSound, read_header-header}
use tcppump.Ip.Header.Checked.{HasAddresses, length-header_with}
use tcppump.Ip.Receiver.{read_header, reassemble, accept, prepend, finish}
use tcppump.Ip.Fragments.{
  Job, fragment_length, remaining, header_args, consumed, put_fragment, fragment_loop,
}
use tcppump.Ip.Fragments.One.{IsReady}

-- A receiver takes a packet of the sender at its place: header fields, data, and what follows.
pub reassemble-packet :
    (a : HeaderArgs) (field part : Bytes) (ps : List Bytes)
    → IsSound a
    → HasAddresses a
    → length field ≡ 2
    → a.total_len ≡ a.hdr_len + length part
    → reassemble ((header_with a field ++ part) ∷ ps) a.offset
      ≡ (if a.mf then prepend part (reassemble ps (a.offset + length part)) else finish part ps)
unfolding reassemble
reassemble-packet a field part ps s h size total =
    let whole = header_with a field ++ part in
    let read =
      ap read_header (append_assoc (before_chksum a) (field ++ after_chksum a) part)
      ∙ read_header-header a ((field ++ after_chksum a) ++ part) s in
    let cut : drop a.hdr_len whole ≡ part =
      drop-append a.hdr_len (header_with a field) part (sym (length-header_with a h field size)) in
    ap (λ f. accept f whole ps a.offset (reassemble ps)) read
    ∙ ground
        (arith, cut, length-append (header_with a field) part, length-header_with a h field size)

take-nil : (n : ℕ) → take {A = ℕ} n [] ≡ []
take-nil zero = refl
take-nil (suc n) = refl

min_zero : (a : ℕ) → min a 0 ≡ 0
min_zero a = omega arith

min-suc : (a b : ℕ) → min (suc a) (suc b) ≡ suc (min a b)
min-suc a b = omega arith

suc_add : (c n : ℕ) → suc (c + n) ≡ suc c + n
suc_add c n = omega arith

-- The parts of data that are cut off one after the other make up a front of the data.
pub take-take-drop :
    (c n : ℕ) (bytes : Bytes) → take c bytes ++ take n (drop c bytes) ≡ take (c + n) bytes
take-take-drop zero n bytes = ap (λ k. take k bytes) (omega arith)
take-take-drop (suc c) n [] = take-nil n ∙ sym (take-nil (suc c + n))
take-take-drop (suc c) n (b ∷ bytes) =
    ap (λ t. b ∷ t) (take-take-drop c n bytes) ∙ ap (λ k. take k (b ∷ bytes)) (suc_add c n)

-- What a call of the loop comes to: packets from which a receiver joins `bytes`.
pub record Sends (r : Result (List EthernetPacket)) (at : ℕ) (bytes : Bytes) : Type 0 where
  pub packets : List EthernetPacket
  pub returned : r ≡ ok packets
  pub joined : reassemble (map payload_bytes packets) at ≡ some bytes

pub fragment_loop-cons :
    (j : Job) (n offset frag_len : ℕ) (payload : Bytes) (p : EthernetPacket)
    (ps : List EthernetPacket) {q : EthernetPacket} {qs : List EthernetPacket}
    → fragment_length j n (remaining j n payload) ≡ frag_len
    → put_fragment j n offset payload p ≡ ok q
    → fragment_loop j (n + 1) (offset + frag_len) (drop (consumed j n frag_len) payload) ps ≡ ok qs
    → fragment_loop j n offset payload (p ∷ ps) ≡ ok (q ∷ qs)
unfolding fragment_loop
fragment_loop-cons j n offset frag_len payload p ps e f g = rw (e, f, g)

consumed_behind : (j : Job) (n frag_len : ℕ) → n ≢ 0 → consumed j n frag_len ≡ frag_len
consumed_behind j n frag_len later = ground (arith, later)

pub fragment_loop-behind :
    (j : Job) (n offset frag_len : ℕ) (payload : Bytes) (p : EthernetPacket)
    (ps : List EthernetPacket) {q : EthernetPacket} {qs : List EthernetPacket}
    → n ≢ 0
    → fragment_length j n (remaining j n payload) ≡ frag_len
    → put_fragment j n offset payload p ≡ ok q
    → fragment_loop j (n + 1) (offset + frag_len) (drop frag_len payload) ps ≡ ok qs
    → fragment_loop j n offset payload (p ∷ ps) ≡ ok (q ∷ qs)
fragment_loop-behind j n offset frag_len payload p ps later e f g =
    fragment_loop-cons j n offset frag_len payload p ps e f (
      ap (λ l. fragment_loop j (n + 1) (offset + frag_len) (drop l payload) ps)
        (consumed_behind j n frag_len later)
      ∙ g)

-- The room for data in a packet, and the part of it that a fragment which is not the last one uses.
abbrev pub data_room : IpPacket → ℕ
data_room ip = ip.mtu - get_header_length ip

abbrev pub data_units : IpPacket → ℕ
data_units ip = data_room ip / 8 * 8

pub get_header_length-cases :
    (ip : IpPacket) → (get_header_length ip ≡ 20) ⊎ (get_header_length ip ≡ 24)
get_header_length-cases ip = ground arith

-- What the loop knows of its job.
pub record IsCounted (j : Job) : Type 0 where
  pub ready : IsReady j.ip
  pub counted : j.packet_count ≡ j.frag_cnt
  pub id_small : j.id < 65536

pub header_args-IsSound :
    (j : Job) (n offset frag_len : ℕ)
    → j.id < 65536
    → offset % 8 ≡ 0
    → offset < 65536
    → IsSound (header_args j n offset frag_len)
header_args-IsSound j n offset frag_len id units small = record {
  hdr_len_units = ground arith;
  hdr_len_small = ground arith;
  total_small = omega arith;
  id_small = id;
  offset_units = units;
  offset_small = small;
}

pub last_length :
    (j : Job) (n : ℕ) (payload : Bytes)
    → IsReady j.ip
    → n ≢ 0
    → n + 1 ≡ j.packet_count
    → fragment_length j n (remaining j n payload) ≡ min (length payload) (data_room j.ip)
unfolding fragment_length
last_length j n payload r later last = ground (arith, later, r.has_room, r.mtu_small)

pub inner_length :
    (j : Job) (n : ℕ) (payload : Bytes)
    → IsReady j.ip
    → n ≢ 0
    → n + 1 ≢ j.packet_count
    → data_room j.ip < length payload
    → fragment_length j n (remaining j n payload) ≡ data_units j.ip
unfolding fragment_length
inner_length j n payload r later inner more = ground (arith, later, r.has_room, r.mtu_small)

pub take-min : (n : ℕ) (bytes : Bytes) → take (min (length bytes) n) bytes ≡ take n bytes
take-min zero bytes = ap (λ k. take k bytes) (min_zero (length bytes))
take-min (suc n) [] = take-nil (min 0 (suc n)) ∙ refl
take-min (suc n) (b ∷ bytes) =
    ap (λ k. take k (b ∷ bytes)) (min-suc (length bytes) n) ∙ ap (λ t. b ∷ t) (take-min n bytes)

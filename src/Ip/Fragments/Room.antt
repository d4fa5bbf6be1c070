-- ===== src/Ip/Fragments/Room.antt =====
-- Packets with room for the MTU, and data that is put into them.
use tcppump.Common.{
  ℕ, zero, suc, ◌+◌, ◌≤◌, ◌≡◌, refl, ap, ◌∙◌, sym, subst, arith, [], ◌∷◌, ◌++◌, append-nil, length,
  take, drop, Bytes, slice, slice-middle, ok,
}
use tcppump.Ethernet.{EthernetPacket, set_payload, append_payload, payload_bytes}
use tcppump.Ethernet.Layout.{
  Parts, HasParts, header_length, before_payload, memory-payload, length-before_payload,
}
use tcppump.Ethernet.Layout.Payload.{Returns, append_payload-parts}
use tcppump.Ip.Fragments.{append_some}

-- A packet whose buffer has room for the MTU.
pub record TakesMtu (mtu : ℕ) (p : EthernetPacket) : Type 0 where
  pub parts : Parts
  pub has : HasParts p parts
  pub room : header_length parts + mtu ≤ p.packet_max_length

pub payload_bytes-parts :
    {p : EthernetPacket} {f : Parts} → HasParts p f → payload_bytes p ≡ f.payload
unfolding payload_bytes
payload_bytes-parts {p} {f} h =
    ap (λ m. slice m p.p_payload p.payload_length) (h.in_memory ∙ memory-payload f)
    ∙ slice-middle (before_payload f) f.payload f.slack p.p_payload p.payload_length
        (length-before_payload h) h.payload_size

pub set_payload-max :
    (p : EthernetPacket) (bytes : Bytes) {q : EthernetPacket}
    → set_payload p bytes ≡ ok q
    → q.packet_max_length ≡ p.packet_max_length
unfolding set_payload
set_payload-max p bytes e = ground arith

pub append_payload-max :
    (p : EthernetPacket) (bytes : Bytes) {q : EthernetPacket}
    → append_payload p bytes ≡ ok q
    → q.packet_max_length ≡ p.packet_max_length
unfolding append_payload
append_payload-max p bytes e = ground arith

pub append_some-parts :
    {p : EthernetPacket} {f : Parts}
    → HasParts p f
    → (bytes : Bytes) (count : ℕ)
    → header_length f + length f.payload + length (take count bytes) ≤ p.packet_max_length
    → Returns (append_some p bytes count bytes) (record f {
      payload = f.payload ++ take count bytes;
      slack = drop (length (take count bytes)) f.slack;
    })
append_some-parts {p} {f} h [] zero room = record {
  result = p;
  returned = refl;
  parts = subst (λ x. HasParts p (record f { payload = x })) (sym (append-nil f.payload)) h;
}
append_some-parts {p} {f} h [] (suc count) room = record {
  result = p;
  returned = refl;
  parts = subst (λ x. HasParts p (record f { payload = x })) (sym (append-nil f.payload)) h;
}
append_some-parts {p} {f} h (b ∷ bytes) count room =
    let put = append_payload-parts h (take count (b ∷ bytes)) room in
    record { result = put.result; returned = ground (arith, put.returned); parts = put.parts }

pub append_some-max :
    (p : EthernetPacket) (bytes : Bytes) (count : ℕ) {q : EthernetPacket}
    → append_some p bytes count bytes ≡ ok q
    → q.packet_max_length ≡ p.packet_max_length
unfolding append_payload
append_some-max p [] count e = cc
append_some-max p (b ∷ bytes) count e = ground arith

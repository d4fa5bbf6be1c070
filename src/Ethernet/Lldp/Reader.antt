-- ===== src/Ethernet/Lldp/Reader.antt =====
-- A receiver of the frames of src/packets/lldppacket.cpp: it takes the elements apart by their lengths (IEEE
-- 802.1AB, 8.4).
use tcppump.Common.{
  ℕ, zero, suc, ◌+◌, ◌*◌, ◌/◌, ◌%◌, ◌≤◌, ◌<◌, ◌≡◌, refl, ap, ◌∙◌, sym, subst, arith, Bool, true,
  false, [], ◌∷◌, ◌++◌, append_assoc, append-nil, Option, none, some, ltb, le→ltb_false, ◌==◌,
  if◌then◌else◌, length, length-append, take, take-append, drop, drop-append, All, Bytes, be16, ok,
  ◌>>=◌,
}
use tcppump.Ethernet.{EthernetPacket, frame, set_dest_mac, set_type_length, append_payload}
use tcppump.Ethernet.Layout.{Parts, HasParts, header_length, frame-content}
use tcppump.Ethernet.Layout.Headers.{set_dest_mac-parts, set_type_length-parts}
use tcppump.Ethernet.Layout.Growth.{Grown, append_payload-Grown, Grown-append}
use tcppump.Ethernet.Lldp.{Tlvs, type_len, append_tlvs, compile, lldp_mac}

abbrev pub found : ℕ → Bytes → Option Tlvs → Option Tlvs
found type value none = none
found type value (some tlvs) = some ((type, value) ∷ tlvs)

-- The elements up to the one that ends them, of which there are less than `n`.
unfoldable pub read : ℕ → Bytes → Option Tlvs
read zero p = none
read (suc n) [] = none
read (suc n) (a ∷ []) = none
read (suc n) (a ∷ b ∷ p) =
    let len = a % 2 * 256 + b in
    let rest = read n (drop len p) in
    if a / 2 == 0
    then some []
    else if ltb (length p) len
    then none
    else found (a / 2) (take len p) rest

abbrev pub lldpdu : Tlvs → Bytes
lldpdu [] = []
lldpdu (tlv ∷ tlvs) = be16 (type_len tlv) ++ (tlv.1 ++ lldpdu tlvs)

-- An element that a receiver can take apart: the type has 7 bits and does not end the list, and the length
-- has 9 bits.
abbrev pub IsTlv : ℕ × Bytes → Type 0
IsTlv tlv = (0 < tlv.0) × (tlv.0 < 128) × (length tlv.1 < 512)

read-step :
    (n type : ℕ) (value rest : Bytes)
    → IsTlv (type, value)
    → read (suc n) (be16 (type_len (type, value)) ++ (value ++ rest))
      ≡ found type value (read n rest)
unfolding read
read-step n type value rest h =
    let t = type_len (type, value) in
    let a = t / 256 % 256 in
    let b = t % 256 in
    let is_type : a / 2 ≡ type = omega (arith, h.0, h.1, h.2) in
    let is_len : a % 2 * 256 + b ≡ length value = omega (arith, h.0, h.1, h.2) in
    rw
      (
        is_len,
        is_type,
        le→ltb_false (length (value ++ rest)) (length value)
            (omega (arith, length-append value rest)),
        take-append (length value) value rest refl,
        drop-append (length value) value rest refl,
      )
      (ground (arith, h.0))

read_end : (n : ℕ) (rest : Bytes) → read (suc n) (0 ∷ 0 ∷ rest) ≡ some []
unfolding read
read_end n rest = refl

read-lldpdu :
    (n : ℕ) (tlvs : Tlvs) (rest : Bytes)
    → length tlvs < n
    → All IsTlv tlvs
    → read n (lldpdu tlvs ++ 0 ∷ 0 ∷ rest) ≡ some tlvs
read-lldpdu zero tlvs rest h k = absurd (omega arith)
read-lldpdu (suc n) [] rest h k = read_end n rest
read-lldpdu (suc n) (tlv ∷ tlvs) rest h k =
    ap (read (suc n))
      (ap (λ p. be16 (type_len tlv) ++ p) (append_assoc tlv.1 (lldpdu tlvs) (0 ∷ 0 ∷ rest)))
    ∙ read-step n tlv.0 tlv.1 (lldpdu tlvs ++ 0 ∷ 0 ∷ rest) k.0
    ∙ ap (found tlv.0 tlv.1) (read-lldpdu n tlvs rest (omega arith) k.1)

append_tlvs-Grown :
    (tlvs : Tlvs) {p : EthernetPacket} {f : Parts} (h : HasParts p f)
    → header_length f + length f.payload + length (lldpdu tlvs) ≤ p.packet_max_length
    → Grown p.packet_max_length (append_tlvs p tlvs) f (lldpdu tlvs)
unfolding append_tlvs
append_tlvs-Grown [] {p} {f} h room = record {
  result = p;
  slack = f.slack;
  returned = refl;
  max_is = refl;
  parts = subst (λ b. HasParts p (record f { payload = b })) (sym (append-nil f.payload)) h;
}
append_tlvs-Grown (tlv ∷ tlvs) {p} {f} h room =
    let head = be16 (type_len tlv) in
    let long = length-append tlv.1 (lldpdu tlvs) in
    Grown-append head (tlv.1 ++ lldpdu tlvs)
      (λ q. append_payload q tlv.1 >>= λ r. append_tlvs r tlvs)
      (append_payload-Grown h head (omega (arith, room)))
      (λ q slack max k.
        subst
          (λ m.
            Grown m (append_payload q tlv.1 >>= λ r. append_tlvs r tlvs)
              (record f { payload = f.payload ++ head; slack = slack }) (tlv.1 ++ lldpdu tlvs))
          max
          (Grown-append tlv.1 (lldpdu tlvs) (λ r. append_tlvs r tlvs)
            (append_payload-Grown k tlv.1
              (omega (arith, room, max, long, length-append f.payload head)))
            (λ r slack2 max2 k2.
              subst
                (λ m.
                  Grown m (append_tlvs r tlvs)
                    (record f { payload = (f.payload ++ head) ++ tlv.1; slack = slack2 })
                    (lldpdu tlvs))
                max2
                (append_tlvs-Grown tlvs {p = r} k2 (
                  omega (
                    arith,
                    room,
                    max,
                    max2,
                    long,
                    length-append (f.payload ++ head) tlv.1,
                    length-append f.payload head,
                  ))))))

-- The address that a receiver finds: the one that was set, or the multicast address of the protocol.
abbrev pub lldp_dest : Bool → Bytes → Bytes
lldp_dest has_dmac dest = if has_dmac then dest else lldp_mac

addressed-parts :
    {p : EthernetPacket} {f : Parts}
    → HasParts p f
    → (b : Bool)
    → HasParts (if b then p else set_dest_mac p lldp_mac) (record f { dest = lldp_dest b f.dest })
addressed-parts h true = h
addressed-parts h false = set_dest_mac-parts h lldp_mac refl

addressed-max :
    (p : EthernetPacket) (b : Bool)
    → (if b then p else set_dest_mac p lldp_mac).packet_max_length ≡ p.packet_max_length
unfolding set_dest_mac
addressed-max p true = refl
addressed-max p false = refl

set_type_length-max :
    (p : EthernetPacket) (kind : ℕ)
    → (set_type_length p kind).packet_max_length ≡ p.packet_max_length
unfolding set_type_length
set_type_length-max p kind = refl

length-lldpdu : (tlvs : Tlvs) → length tlvs ≤ length (lldpdu tlvs)
length-lldpdu [] = omega arith
length-lldpdu (tlv ∷ tlvs) = omega (arith, length-lldpdu tlvs, length-append tlv.1 (lldpdu tlvs))

-- A well-formed packet without tags, LLC header and payload, with room for the elements, is compiled to a
-- frame for the address that was set, or else for the multicast address of the protocol, with its type,
-- and a receiver gets all elements back from the frame, types and values, in their order. The elements
-- have types from 1 to 127 and at most 511 bytes.
pub compile-read :
    {p : EthernetPacket} {f : Parts}
    → HasParts p f
    → f.tags ≡ []
    → f.llc ≡ []
    → f.payload ≡ []
    → (tlvs : Tlvs) → All IsTlv tlvs
    → 16 + length (lldpdu tlvs) ≤ p.packet_max_length
    → (q : EthernetPacket) × (body : Bytes) × (compile p tlvs true ≡ ok q)
      × (frame q ≡ lldp_dest p.has_dmac f.dest ++ (f.src ++ (0x88 ∷ 0xcc ∷ body)))
      × (read (length body) body ≡ some tlvs)
unfolding compile
compile-read {p} {f} h no_tags bare empty tlvs well room =
    let addressed = if p.has_dmac then p else set_dest_mac p lldp_mac in
    let typed = set_type_length-parts (addressed-parts h p.has_dmac) 0x88cc in
    let max : (set_type_length addressed 0x88cc).packet_max_length ≡ p.packet_max_length =
      set_type_length-max addressed 0x88cc ∙ addressed-max p p.has_dmac in
    let body = lldpdu tlvs ++ 0 ∷ 0 ∷ [] in
    let all =
      Grown-append (lldpdu tlvs) (0 ∷ 0 ∷ []) (λ q. append_payload q (0 ∷ 0 ∷ []))
        (append_tlvs-Grown tlvs typed
          (omega (arith, room, max, ap length no_tags, ap length bare, ap length empty)))
        (λ q slack e k.
          subst
            (λ m.
              Grown m (append_payload q (0 ∷ 0 ∷ []))
                (record f {
                  dest = lldp_dest p.has_dmac f.dest;
                  kind = be16 0x88cc;
                  payload = f.payload ++ lldpdu tlvs;
                  slack = slack;
                })
                (0 ∷ 0 ∷ []))
            e
            (append_payload-Grown k (0 ∷ 0 ∷ []) (
              omega (
                arith,
                room,
                max,
                e,
                ap length no_tags,
                ap length bare,
                ap length empty,
                length-append f.payload (lldpdu tlvs),
              )))) in
    (
      all.result,
      body,
      all.returned,
      frame-content all.parts ∙ rw (no_tags, bare, empty) refl,
      read-lldpdu (length body) tlvs []
          (omega (arith, length-append (lldpdu tlvs) (0 ∷ 0 ∷ []), length-lldpdu tlvs)) well,
    )

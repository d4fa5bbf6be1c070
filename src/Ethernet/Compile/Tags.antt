-- ===== src/Ethernet/Compile/Tags.antt =====
-- The VLAN tags of an `eth` instruction: what is put into the frame, and what is refused.
use tcppump.Common.{
  ℕ, ◌+◌, ◌*◌, ◌/◌, ◌%◌, ◌^◌, ◌≤◌, ◌<◌, ◌≡◌, refl, ap, sym, subst, arith, List, [], ◌∷◌, ◌++◌,
  append_assoc, append-nil, length, length-append, Bytes, be16, bit_and_low, ok, err, ex_par_range,
}
use tcppump.Ethernet.{EthernetPacket, add_vlan_tag, insert_tag, llc_bytes, llc_size, snap_bytes}
use native.Mathlib.Decide.{dec_le}
use tcppump.Ethernet.Tag.{vlan_bytes}
use tcppump.Ethernet.Layout.{Parts, HasParts, header_length}
use tcppump.Ethernet.Layout.Headers.{too_long_not, too_long_too, insert_tag-parts}
use tcppump.Ethernet.Compile.{VlanParams, compile_vlan_tags}
use tcppump.Ethernet.Compile.Spec.{tag_bytes, Builds}

pub snap_bytes-order :
    (oui protocol : ℕ)
    → oui < 2 ^ 24
    → snap_bytes oui protocol ≡ oui / 2 ^ 16 % 256 ∷ oui / 2 ^ 8 % 256 ∷ oui % 256 ∷ be16 protocol
snap_bytes-order oui protocol h = rw (bit_and_low 8, bit_and_low 8, bit_and_low 8) (ground arith)

pub length-tag_bytes : (ts : List VlanParams) → length (tag_bytes ts) ≡ 4 * length ts
length-tag_bytes [] = omega arith
length-tag_bytes (t ∷ ts) = omega (
  arith,
  length-append (vlan_bytes t.is_ctag t.vid t.prio t.dei) (tag_bytes ts),
  length-tag_bytes ts,
)

pub length-llc_bytes :
    (dsap ssap control : ℕ) → llc_size control ≡ length (llc_bytes dsap ssap control)
length-llc_bytes dsap ssap control = ground arith

pub llc_size-lt : (control : ℕ) → llc_size control < 2 ^ 63
llc_size-lt control = ground arith

pub bare_header : (f : Parts) → f.llc ≡ [] → header_length f ≡ 14 + length f.tags
bare_header f bare = omega (arith, ap length bare)

pub add_vlan_tag-eq :
    {p : EthernetPacket} {f : Parts}
    → HasParts p f
    → (t : VlanParams) → header_length f + length f.payload + 4 ≤ p.packet_max_length
    → add_vlan_tag p t.is_ctag t.vid t.prio t.dei
      ≡ ok (insert_tag p (vlan_bytes t.is_ctag t.vid t.prio t.dei))
unfolding add_vlan_tag
add_vlan_tag-eq h t room = rw (too_long_not h 4 room)

pub add_vlan_tag_full :
    {p : EthernetPacket} {f : Parts}
    → HasParts p f
    → (t : VlanParams) → ¬ (header_length f + length f.payload + 4 ≤ p.packet_max_length)
    → add_vlan_tag p t.is_ctag t.vid t.prio t.dei ≡ err ex_par_range
unfolding add_vlan_tag
add_vlan_tag_full h t full = rw (too_long_too h 4 (omega arith) (omega arith))

pub retag :
    {p : EthernetPacket} (f : Parts) (ts tag rest kind slack : Bytes)
    → HasParts p (record f { tags = (ts ++ tag) ++ rest; kind = kind; slack = slack })
    → HasParts p (record f { tags = ts ++ (tag ++ rest); kind = kind; slack = slack })
retag {p} f ts tag rest kind slack h =
    subst (λ t. HasParts p (record f { tags = t; kind = kind; slack = slack }))
      (append_assoc ts tag rest) h

pub compile_vlan_tags-Builds :
    (ts : List VlanParams) {p : EthernetPacket} {f : Parts}
    → HasParts p f
    → f.llc ≡ []
    → header_length f + length f.payload + 4 * length ts ≤ p.packet_max_length
    → Builds p.packet_max_length
        (compile_vlan_tags ts p)
        (record f { tags = f.tags ++ tag_bytes ts })
unfolding compile_vlan_tags insert_tag
compile_vlan_tags-Builds [] {p} {f} h bare room = record {
  result = p;
  slack = f.slack;
  kind = f.kind;
  returned = refl;
  max_is = refl;
  parts = subst (λ t. HasParts p (record f { tags = t })) (sym (append-nil f.tags)) h;
}
compile_vlan_tags-Builds (t ∷ ts) {p} {f} h bare room =
    let tag = vlan_bytes t.is_ctag t.vid t.prio t.dei in
    let fits : header_length f + length f.payload + 4 ≤ p.packet_max_length = omega arith in
    let tagged = insert_tag-parts h tag refl bare fits in
    let rest = compile_vlan_tags-Builds ts tagged bare (omega (arith, length-append f.tags tag)) in
    record {
      result = rest.result;
      slack = rest.slack;
      kind = rest.kind;
      returned = rw (add_vlan_tag-eq h t fits) rest.returned;
      max_is = rest.max_is;
      parts = retag f f.tags tag (tag_bytes ts) rest.kind rest.slack rest.parts;
    }

-- Too many tags are refused at the first one that does not fit.
pub compile_vlan_tags-err :
    (ts : List VlanParams) {p : EthernetPacket} {f : Parts}
    → HasParts p f
    → f.llc ≡ []
    → p.packet_max_length < header_length f + length f.payload + 4 * length ts
    → compile_vlan_tags ts p ≡ err ex_par_range
unfolding compile_vlan_tags insert_tag
compile_vlan_tags-err [] h bare over = absurd (omega (arith, h.fits))
compile_vlan_tags-err (t ∷ ts) {p} {f} h bare over =
    let tag = vlan_bytes t.is_ctag t.vid t.prio t.dei in
    elim (dec_le (header_length f + length f.payload + 4) p.packet_max_length) [
      | yes fits ↦ rw (add_vlan_tag-eq h t fits) (
          compile_vlan_tags-err ts (insert_tag-parts h tag refl bare fits) bare
            (omega (arith, length-append f.tags tag)))
      | no full ↦ rw (add_vlan_tag_full h t full)
    ]

-- ===== src/Ethernet/Compile/Llc.antt =====
-- The LLC and SNAP headers and the type field of an `eth` instruction.
use tcppump.Common.{
  ℕ, ◌+◌, ◌%◌, ◌^◌, ◌≤◌, ◌<◌, ◌≡◌, refl, ap, ◌∙◌, sym, subst, arith, true, false, [], ◌∷◌, ◌++◌,
  Option, none, some, length, drop, Bytes, be16, Result, ok, err, ex_par_range, ◌==◌, inl, inr,
  Bool-cases,
}
use tcppump.Ethernet.{
  EthernetPacket, add_llc_header, add_snap_header, extend_by_snap, set_length, set_type_length,
  insert_header, llc_bytes, llc_size, snap_bytes,
}
use native.Mathlib.Decide.{dec_le}
use tcppump.Ethernet.Layout.{Parts, HasParts, header_length}
use tcppump.Ethernet.Layout.Headers.{
  set_type_length-parts, set_length-parts, too_long_not, too_long_too, insert_header-parts,
}
use tcppump.Ethernet.Compile.{LlcParams, llc, snap, no_llc, compile_llc, compile_type}
use tcppump.Ethernet.Compile.Tags.{bare_header, llc_size-lt, length-llc_bytes, snap_bytes-order}
use tcppump.Ethernet.Compile.Spec.{llc_content, type_content, OuiFits, Builds}

pub set_length-max : (p : EthernetPacket) → (set_length p).packet_max_length ≡ p.packet_max_length
unfolding set_length set_type_length
set_length-max p = refl

-- A header and the length field for it.
pub put_header-Builds :
    {p : EthernetPacket} {f : Parts}
    → HasParts p f
    → (header : Bytes) (size total : ℕ) → size ≡ length header
    → total ≡ length f.llc + size
    → header_length f + length f.payload + size ≤ p.packet_max_length
    → Builds p.packet_max_length
        (ok (set_length (insert_header p header size total)))
        (record f { llc = f.llc ++ header })
unfolding insert_header
put_header-Builds {p} {f} h header size total e sum room = record {
  result = set_length (insert_header p header size total);
  slack = drop size f.slack;
  kind = be16 ((length f.payload + length (f.llc ++ header)) % 2 ^ 16);
  returned = refl;
  max_is = set_length-max _;
  parts = set_length-parts (insert_header-parts h header size total e sum room);
}

-- The LLC part, where the frame has none before.
pub first_llc :
    {max : ℕ} {r : Result EthernetPacket} (f : Parts) (header : Bytes)
    → f.llc ≡ []
    → Builds max r (record f { llc = f.llc ++ header })
    → Builds max r (record f { llc = header })
first_llc {max} {r} f header bare b =
    subst (λ l. Builds max r (record f { llc = l })) (ap (λ l. l ++ header) bare) b

pub returned_by :
    {max : ℕ} {r s : Result EthernetPacket} {f : Parts} → r ≡ s → Builds max s f → Builds max r f
returned_by {max} {r} {s} {f} e b = subst (λ t. Builds max t f) (sym e) b

pub extend_by_snap-Builds :
    {p : EthernetPacket} {f : Parts}
    → HasParts p f
    → (oui protocol : ℕ) → header_length f + length f.payload + 5 ≤ p.packet_max_length
    → Builds p.packet_max_length
        (extend_by_snap p oui protocol)
        (record f { llc = f.llc ++ snap_bytes oui protocol })
unfolding extend_by_snap
extend_by_snap-Builds {p} {f} h oui protocol room =
    let built =
      put_header-Builds h (snap_bytes oui protocol) 5 (p.llc_header_length + 5) refl
        (omega (arith, h.llc_size)) room in
    returned_by
      {s = ok (set_length (insert_header p (snap_bytes oui protocol) 5 (p.llc_header_length + 5)))}
      (rw (too_long_not h 5 room)) built

pub extend_by_snap-err :
    {p : EthernetPacket} {f : Parts}
    → HasParts p f
    → (oui protocol : ℕ) → p.packet_max_length < header_length f + length f.payload + 5
    → extend_by_snap p oui protocol ≡ err ex_par_range
unfolding extend_by_snap
extend_by_snap-err h oui protocol over = rw (too_long_too h 5 (omega arith) over)

module _ {p : EthernetPacket} {f : Parts} (h : HasParts p f) (bare : f.llc ≡ []) where
  pub add_llc_header-Builds :
      (dsap ssap control : ℕ)
      → header_length f + length f.payload + llc_size control ≤ p.packet_max_length
      → Builds p.packet_max_length
          (add_llc_header p dsap ssap control)
          (record f { llc = llc_bytes dsap ssap control })
  unfolding add_llc_header
  add_llc_header-Builds dsap ssap control room =
      let header = llc_bytes dsap ssap control in
      first_llc f header bare (
        returned_by (rw (too_long_not h (llc_size control) room)) (
          put_header-Builds h header (llc_size control) (llc_size control)
            (length-llc_bytes dsap ssap control) (rw bare (omega arith)) room))

  pub add_llc_header-err :
      (dsap ssap control : ℕ)
      → p.packet_max_length < header_length f + length f.payload + llc_size control
      → add_llc_header p dsap ssap control ≡ err ex_par_range
  unfolding add_llc_header
  add_llc_header-err dsap ssap control over =
      rw (too_long_too h (llc_size control) (llc_size-lt control) over)

  pub add_snap_header-Builds :
      (oui protocol : ℕ)
      → oui < 2 ^ 24
      → header_length f + length f.payload + 8 ≤ p.packet_max_length
      → Builds p.packet_max_length
          (add_snap_header p oui protocol)
          (record f { llc = llc_content (snap oui protocol) })
  unfolding add_snap_header
  add_snap_header-Builds oui protocol small room =
      let first = add_llc_header-Builds 0xaa 0xaa 3 (omega arith) in
      let second =
        extend_by_snap-Builds first.parts oui protocol
          (omega (arith, first.max_is, bare_header f bare, room)) in
      record {
        result = second.result;
        slack = second.slack;
        kind = second.kind;
        returned = rw first.returned second.returned;
        max_is = second.max_is ∙ first.max_is;
        parts =
            subst
              (λ l.
                HasParts second.result (record f {
                  llc = 0xaa ∷ 0xaa ∷ 3 ∷ l;
                  kind = second.kind;
                  slack = second.slack;
                }))
              (snap_bytes-order oui protocol small) second.parts;
      }

  pub add_snap_header-err :
      (oui protocol : ℕ)
      → p.packet_max_length < header_length f + length f.payload + 8
      → add_snap_header p oui protocol ≡ err ex_par_range
  unfolding add_snap_header
  add_snap_header-err oui protocol over =
      elim (dec_le (header_length f + length f.payload + 3) p.packet_max_length) [
        | yes fits ↦
            let first = add_llc_header-Builds 0xaa 0xaa 3 fits in
            rw first.returned (
              extend_by_snap-err first.parts oui protocol
                (omega (arith, first.max_is, bare_header f bare, over)))
        | no full ↦ rw (add_llc_header-err 0xaa 0xaa 3 (omega (arith, full)))
      ]

  pub compile_llc-Builds :
      (l : LlcParams)
      → OuiFits l
      → header_length f + length f.payload + length (llc_content l) ≤ p.packet_max_length
      → Builds p.packet_max_length (compile_llc l p) (record f { llc = llc_content l })
  unfolding compile_llc
  compile_llc-Builds (llc dsap ssap control) small room =
      add_llc_header-Builds dsap ssap control (omega (arith, length-llc_bytes dsap ssap control))
  compile_llc-Builds (snap oui protocol) small room = add_snap_header-Builds oui protocol small room
  compile_llc-Builds no_llc small room = record {
    result = p;
    slack = f.slack;
    kind = f.kind;
    returned = refl;
    max_is = refl;
    parts = subst (λ l. HasParts p (record f { llc = l })) bare h;
  }

  pub compile_llc-err :
      (l : LlcParams)
      → p.packet_max_length < header_length f + length f.payload + length (llc_content l)
      → compile_llc l p ≡ err ex_par_range
  unfolding compile_llc
  compile_llc-err (llc dsap ssap control) over =
      add_llc_header-err dsap ssap control (omega (arith, length-llc_bytes dsap ssap control))
  compile_llc-err (snap oui protocol) over = add_snap_header-err oui protocol over
  compile_llc-err no_llc over = absurd (omega (arith, h.fits))

pub compile_type-parts :
    (e : Option ℕ) {p : EthernetPacket} {f : Parts}
    → HasParts p f
    → HasParts
        (compile_type e p)
        (record f { kind = type_content e (length f.llc) (length f.payload) })
unfolding compile_type
compile_type-parts none h = set_length-parts h
compile_type-parts (some kind) {p} {f} h = elim (Bool-cases (p.llc_header_length == 0)) [
  | inl without ↦
      let bare : (length f.llc == 0) ≡ true = ground (arith, h.llc_size) in
      rw (without, bare) (set_type_length-parts h kind)
  | inr headed ↦
      let some_llc : (length f.llc == 0) ≡ false = ground (arith, h.llc_size) in
      rw (headed, some_llc) (set_length-parts h)
]

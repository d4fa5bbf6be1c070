-- ===== src/Ethernet/Layout/Headers.antt =====
-- The operations that write a header, on the parts of a frame.
use tcppump.Common.{
  ℕ, ◌+◌, ◌%◌, ◌^◌, ◌≤◌, ◌<◌, ◌≡◌, refl, ap, ◌∙◌, sym, arith, true, false, [], ◌++◌, append_assoc,
  length, length-append, drop, length-drop, Bytes, write, slice, write-middle, be16, le→ltb_false,
  lt→ltb, subst, Bool-cases, ==_iff, inl, inr, ◌==◌,
}
use tcppump.Ethernet.{
  EthernetPacket, set_dest_mac, set_src_mac, set_type_length, set_length, insert_tag, insert_header,
  too_long, move_payload,
}
use tcppump.Ethernet.Buffer.{write-insert, write-nil, slice-empty}
use tcppump.Ethernet.Layout.{
  Parts, HasParts, memory, header_length, before_kind, before_payload, memory-kind, memory-payload,
  length-before_kind, length-before_payload,
}

module _ {p : EthernetPacket} {f : Parts} (h : HasParts p f) where
  pub set_dest_mac-parts :
      (mac : Bytes) → length mac ≡ 6 → HasParts (set_dest_mac p mac) (record f { dest = mac })
  unfolding set_dest_mac
  set_dest_mac-parts mac size = record {
    in_memory =
        ap (λ m. write m 0 mac) h.in_memory
        ∙ write-middle [] f.dest _ mac 0 refl (size ∙ sym h.dest_size);
    dest_size = size;
    src_size = h.src_size;
    kind_size = h.kind_size;
    kind_at = h.kind_at;
    payload_at = h.payload_at;
    payload_size = h.payload_size;
    llc_size = h.llc_size;
    fits = h.fits;
    allocated = h.allocated;
    addressable = h.addressable;
  }

  pub set_src_mac-parts :
      (mac : Bytes) → length mac ≡ 6 → HasParts (set_src_mac p mac) (record f { src = mac })
  unfolding set_src_mac
  set_src_mac-parts mac size = record {
    in_memory =
        ap (λ m. write m 6 mac) h.in_memory
        ∙ write-middle f.dest f.src _ mac 6 (sym h.dest_size) (size ∙ sym h.src_size);
    dest_size = h.dest_size;
    src_size = size;
    kind_size = h.kind_size;
    kind_at = h.kind_at;
    payload_at = h.payload_at;
    payload_size = h.payload_size;
    llc_size = h.llc_size;
    fits = h.fits;
    allocated = h.allocated;
    addressable = h.addressable;
  }

  write_kind :
      (bytes : Bytes)
      → length bytes ≡ 2
      → write p.packet p.p_ethertype_length bytes ≡ memory (record f { kind = bytes })
  write_kind bytes size =
      ap (λ m. write m p.p_ethertype_length bytes) (h.in_memory ∙ memory-kind f)
      ∙ write-middle (before_kind f) f.kind (f.llc ++ (f.payload ++ f.slack)) bytes
          p.p_ethertype_length (length-before_kind h) (size ∙ sym h.kind_size)
      ∙ sym (memory-kind (record f { kind = bytes }))

  pub set_type_length-parts :
      (kind : ℕ) → HasParts (set_type_length p kind) (record f { kind = be16 kind })
  unfolding set_type_length
  set_type_length-parts kind = record {
    in_memory = write_kind (be16 kind) refl;
    dest_size = h.dest_size;
    src_size = h.src_size;
    kind_size = refl;
    kind_at = h.kind_at;
    payload_at = h.payload_at;
    payload_size = h.payload_size;
    llc_size = h.llc_size;
    fits = h.fits;
    allocated = h.allocated;
    addressable = h.addressable;
  }

  -- The length field counts the LLC header and the payload.
  pub set_length-parts :
      HasParts
        (set_length p)
        (record f { kind = be16 ((length f.payload + length f.llc) % 2 ^ 16) })
  unfolding set_length
  set_length-parts =
      let count : (p.payload_length + p.llc_header_length) % 2 ^ 16
          ≡ (length f.payload + length f.llc) % 2 ^ 16 =
        omega (arith, h.payload_size, h.llc_size) in
      subst (λ k. HasParts (set_length p) (record f { kind = be16 k })) count
        (set_type_length-parts ((p.payload_length + p.llc_header_length) % 2 ^ 16))

  -- `checkPacketLength` lets through what fits, and nothing else.
  pub too_long_not :
      (added : ℕ)
      → header_length f + length f.payload + added ≤ p.packet_max_length
      → too_long p added ≡ false
  too_long_not added room =
      le→ltb_false _ _ (omega (arith, h.payload_at, h.payload_size, h.addressable))

  pub too_long_too :
      (added : ℕ)
      → added < 2 ^ 63
      → p.packet_max_length < header_length f + length f.payload + added
      → too_long p added ≡ true
  too_long_too added small over =
      lt→ltb _ _ (omega (arith, h.payload_at, h.payload_size, h.addressable, h.fits))

  tag_in_memory :
      (tag : Bytes)
      → length tag ≡ 4
      → f.llc ≡ []
      → 4 ≤ length f.slack
      → (insert_tag p tag).packet
        ≡ memory (record f { tags = f.tags ++ tag; slack = drop 4 f.slack })
  unfolding insert_tag
  tag_in_memory tag size bare room =
      write-insert p.packet (before_kind f) (f.kind ++ f.payload) f.slack tag p.p_ethertype_length
        (p.p_ethertype_length + 4) (2 + p.payload_length)
        (h.in_memory ∙ memory-kind f ∙ rw bare (simp append_assoc)) (length-before_kind h)
        (omega (arith, size))
        (omega (arith, length-append f.kind f.payload, h.kind_size, h.payload_size))
        (omega (arith, size))
      ∙ rw (size, bare) (simp append_assoc)

  -- A tag is put behind the tags that are there, and the frame grows by its four bytes.
  pub insert_tag-parts :
      (tag : Bytes)
      → length tag ≡ 4
      → f.llc ≡ []
      → header_length f + length f.payload + 4 ≤ p.packet_max_length
      → HasParts (insert_tag p tag) (record f { tags = f.tags ++ tag; slack = drop 4 f.slack })
  unfolding insert_tag
  insert_tag-parts tag size bare room =
      let slack : 4 ≤ length f.slack = omega (arith, h.allocated, room) in
      let longer : length (f.tags ++ tag) ≡ length f.tags + 4 =
        omega (arith, length-append f.tags tag, size) in
      let shorter : length (drop 4 f.slack) + 4 ≡ length f.slack =
        omega (arith, length-drop 4 f.slack, slack) in
      record {
        in_memory = tag_in_memory tag size bare slack;
        dest_size = h.dest_size;
        src_size = h.src_size;
        kind_size = h.kind_size;
        kind_at = omega (arith, longer, h.kind_at);
        payload_at = omega (arith, longer, h.payload_at);
        payload_size = h.payload_size;
        llc_size = h.llc_size;
        fits = omega (arith, longer, room);
        allocated = omega (arith, longer, shorter, h.allocated);
        addressable = h.addressable;
      }

  move_payload-write :
      (size : ℕ)
      → move_payload p size
        ≡ write p.packet (p.p_payload + size) (slice p.packet p.p_payload p.payload_length)
  move_payload-write size = elim (Bool-cases (p.payload_length == 0)) [
    | inl empty ↦
        let none : p.payload_length ≡ 0 = (==_iff p.payload_length 0).0 empty in
        let nothing : slice p.packet p.p_payload p.payload_length ≡ [] =
          ap (slice p.packet p.p_payload) none ∙ slice-empty p.packet p.p_payload in
        rw empty (sym (ap (write p.packet (p.p_payload + size)) nothing ∙ write-nil p.packet _))
    | inr full ↦ rw full
  ]

  header_in_memory :
      (header : Bytes) (size llc_length : ℕ)
      → size ≡ length header
      → size ≤ length f.slack
      → (insert_header p header size llc_length).packet
        ≡ memory (record f { llc = f.llc ++ header; slack = drop size f.slack })
  unfolding insert_header
  header_in_memory header size llc_length e room =
      ap (λ m. write m p.p_payload header) (move_payload-write size)
      ∙ write-insert p.packet (before_payload f) f.payload f.slack header p.p_payload
          (p.p_payload + size) p.payload_length (h.in_memory ∙ memory-payload f)
          (length-before_payload h) (omega (arith, e)) h.payload_size (omega (arith, e, room))
      ∙ rw (← e) (simp append_assoc)

  -- An LLC or SNAP header is put behind those that are there, in front of the payload.
  pub insert_header-parts :
      (header : Bytes) (size llc_length : ℕ)
      → size ≡ length header
      → llc_length ≡ length f.llc + size
      → header_length f + length f.payload + size ≤ p.packet_max_length
      → HasParts
          (insert_header p header size llc_length)
          (record f { llc = f.llc ++ header; slack = drop size f.slack })
  unfolding insert_header
  insert_header-parts header size llc_length e total room =
      let slack : size ≤ length f.slack = omega (arith, h.allocated, room) in
      let longer : length (f.llc ++ header) ≡ length f.llc + size =
        omega (arith, length-append f.llc header, e) in
      let shorter : length (drop size f.slack) + size ≡ length f.slack =
        omega (arith, length-drop size f.slack, slack) in
      record {
        in_memory = header_in_memory header size llc_length e slack;
        dest_size = h.dest_size;
        src_size = h.src_size;
        kind_size = h.kind_size;
        kind_at = h.kind_at;
        payload_at = omega (arith, longer, h.payload_at);
        payload_size = h.payload_size;
        llc_size = omega (arith, longer, total);
        fits = omega (arith, longer, room);
        allocated = omega (arith, longer, shorter, h.allocated);
        addressable = h.addressable;
      }

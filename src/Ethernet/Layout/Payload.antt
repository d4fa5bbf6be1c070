-- ===== src/Ethernet/Layout/Payload.antt =====
-- The operations that write payload, on the parts of a frame.
use tcppump.Common.{
  ℕ, ◌+◌, ◌^◌, ◌≤◌, ◌<◌, ◌≡◌, refl, ap, ◌∙◌, sym, arith, false, [], ◌∷◌, ◌++◌, append_assoc, length,
  length-append, drop, length-drop, Bytes, write, write-middle, length-write, Result, ok, err,
  ex_par_range,
}
use tcppump.Ethernet.{
  EthernetPacket, new_packet, append_payload, set_payload, update_payload_at, zeroed_header,
}
use tcppump.Ethernet.Buffer.{write-behind, write-skip, write-start, write-append_left}
use tcppump.Ethernet.Layout.{
  Parts, HasParts, memory, header_length, before_payload, memory-payload, length-before_payload,
}
use tcppump.Ethernet.Layout.Headers.{too_long_not}

-- The packet that a call returns, with the parts that it has.
pub record Returns (r : Result EthernetPacket) (f : Parts) : Type 0 where
  pub result : EthernetPacket
  pub returned : r ≡ ok result
  pub parts : HasParts result f

module _ {p : EthernetPacket} {f : Parts} (h : HasParts p f) where
  payload_behind :
      (payload : Bytes)
      → write p.packet p.p_payload payload
        ≡ memory
            (record f { payload = payload; slack = drop (length payload) (f.payload ++ f.slack) })
  payload_behind payload =
      ap (λ m. write m p.p_payload payload) (h.in_memory ∙ memory-payload f)
      ∙ write-behind (before_payload f) (f.payload ++ f.slack) payload p.p_payload
          (length-before_payload h)
      ∙ simp append_assoc

  -- `setPayload` replaces the payload by bytes that fit the buffer, and changes nothing else.
  pub set_payload-parts :
      (payload : Bytes)
      → header_length f + length payload ≤ p.packet_max_length
      → Returns
          (set_payload p payload)
          (record f { payload = payload; slack = drop (length payload) (f.payload ++ f.slack) })
  unfolding set_payload
  set_payload-parts payload room =
      let kept : length (drop (length payload) (f.payload ++ f.slack)) + length payload
          ≡ length f.payload + length f.slack =
        omega (
          arith,
          length-drop (length payload) (f.payload ++ f.slack),
          length-append f.payload f.slack,
          room,
          h.allocated,
        ) in
      record {
        result = record p {
          packet = write p.packet p.p_payload payload;
          payload_length = length payload;
        };
        returned = ground (arith, h.payload_at, h.addressable, room);
        parts = record {
          in_memory = payload_behind payload;
          dest_size = h.dest_size;
          src_size = h.src_size;
          kind_size = h.kind_size;
          kind_at = h.kind_at;
          payload_at = h.payload_at;
          payload_size = refl;
          llc_size = h.llc_size;
          fits = room;
          allocated = omega (arith, kept, h.allocated);
          addressable = h.addressable;
        };
      }

  pub set_payload-err :
      (payload : Bytes)
      → length payload < 2 ^ 63
      → p.packet_max_length < header_length f + length payload
      → set_payload p payload ≡ err ex_par_range
  unfolding set_payload
  set_payload-err payload small over = ground (arith, h.payload_at, h.addressable, h.fits)

  append_in_memory :
      (payload : Bytes)
      → write p.packet (p.p_payload + p.payload_length) payload
        ≡ memory
            (record f { payload = f.payload ++ payload; slack = drop (length payload) f.slack })
  append_in_memory payload =
      ap (λ m. write m (p.p_payload + p.payload_length) payload)
        (h.in_memory ∙ memory-payload f ∙ simp append_assoc)
      ∙ write-behind (before_payload f ++ f.payload) f.slack payload _ (
          omega (
            arith,
            length-append (before_payload f) f.payload,
            length-before_payload h,
            h.payload_size,
          ))
      ∙ simp append_assoc

  -- `appendPayload` puts bytes that fit the buffer behind the payload.
  pub append_payload-parts :
      (payload : Bytes)
      → header_length f + length f.payload + length payload ≤ p.packet_max_length
      → Returns
          (append_payload p payload)
          (record f { payload = f.payload ++ payload; slack = drop (length payload) f.slack })
  unfolding append_payload
  append_payload-parts payload room =
      let longer = length-append f.payload payload in
      let shorter : length (drop (length payload) f.slack) + length payload ≡ length f.slack =
        omega (arith, length-drop (length payload) f.slack, h.allocated, room) in
      record {
        result = record p {
          packet = write p.packet (p.p_payload + p.payload_length) payload;
          payload_length = p.payload_length + length payload;
        };
        returned = rw (too_long_not h (length payload) room);
        parts = record {
          in_memory = append_in_memory payload;
          dest_size = h.dest_size;
          src_size = h.src_size;
          kind_size = h.kind_size;
          kind_at = h.kind_at;
          payload_at = h.payload_at;
          payload_size = omega (arith, longer, h.payload_size);
          llc_size = h.llc_size;
          fits = omega (arith, longer, room);
          allocated = omega (arith, longer, shorter, h.allocated);
          addressable = h.addressable;
        };
      }

  updated_in_memory :
      (offset : ℕ) (bytes : Bytes)
      → offset + length bytes ≤ length f.payload
      → write p.packet (p.p_payload + offset) bytes
        ≡ memory (record f { payload = write f.payload offset bytes })
  updated_in_memory offset bytes inside =
      ap (λ m. write m (p.p_payload + offset) bytes) (h.in_memory ∙ memory-payload f)
      ∙ write-skip (before_payload f) (f.payload ++ f.slack) bytes _ offset
          (omega (arith, length-before_payload h))
      ∙ ap (λ t. before_payload f ++ t) (write-append_left f.payload f.slack bytes offset inside)
      ∙ sym (memory-payload (record f { payload = write f.payload offset bytes }))

  -- `updatePayloadAt` overwrites bytes inside the payload.
  pub update_payload_at-parts :
      (offset : ℕ) (bytes : Bytes)
      → offset + length bytes ≤ length f.payload
      → Returns
          (update_payload_at p offset bytes)
          (record f { payload = write f.payload offset bytes })
  unfolding update_payload_at
  update_payload_at-parts offset bytes inside =
      let same = length-write f.payload offset bytes inside in
      record {
        result = record p { packet = write p.packet (p.p_payload + offset) bytes };
        returned = ground (arith, h.payload_size, inside);
        parts = record {
          in_memory = updated_in_memory offset bytes inside;
          dest_size = h.dest_size;
          src_size = h.src_size;
          kind_size = h.kind_size;
          kind_at = h.kind_at;
          payload_at = h.payload_at;
          payload_size = omega (arith, same, h.payload_size);
          llc_size = h.llc_size;
          fits = omega (arith, same, h.fits);
          allocated = omega (arith, same, h.allocated);
          addressable = h.addressable;
        };
      }

abbrev zeros6 : Bytes
zeros6 = 0 ∷ 0 ∷ 0 ∷ 0 ∷ 0 ∷ 0 ∷ []

-- A frame with no payload and no addresses, in memory that holds `rest` behind the header.
abbrev pub blank : Bytes → Parts
blank rest = record {
  dest = zeros6;
  src = zeros6;
  tags = [];
  kind = 0 ∷ 0 ∷ [];
  llc = [];
  payload = [];
  slack = rest;
}

-- The constructor leaves a zeroed header, whatever the memory held.
pub new_packet-parts :
    (max_length : ℕ) (mem : Bytes)
    → 14 ≤ max_length
    → max_length ≤ length mem
    → max_length < 2 ^ 63
    → Returns (new_packet max_length mem) (blank (drop 14 mem))
unfolding new_packet
new_packet-parts max_length mem header room small = record {
  result = record {
    packet = write (write mem 0 zeroed_header) 12 (0 ∷ 0 ∷ []);
    packet_max_length = max_length;
    p_payload = 14;
    p_ethertype_length = 12;
    payload_length = 0;
    llc_header_length = 0;
    has_dmac = false;
  };
  returned = ground arith;
  parts = record {
    in_memory =
        ap (λ m. write m 12 (0 ∷ 0 ∷ [])) (write-start mem zeroed_header)
        ∙ write-middle (zeros6 ++ zeros6) (0 ∷ 0 ∷ []) (drop 14 mem) (0 ∷ 0 ∷ []) 12 refl refl;
    dest_size = refl;
    src_size = refl;
    kind_size = refl;
    kind_at = refl;
    payload_at = refl;
    payload_size = refl;
    llc_size = refl;
    fits = header;
    allocated = omega (arith, length-drop 14 mem, room, header);
    addressable = small;
  };
}

-- ===== src/Ethernet/Layout/Copy.antt =====
-- The copy constructor, on the parts of a frame.
use tcppump.Common.{
  ◌≤◌, ◌≡◌, ap, ◌∙◌, sym, arith, [], ◌∷◌, length, length-drop, length-write, drop, Bytes, write,
}
use tcppump.Ethernet.{EthernetPacket, frame, copy_packet, constructed}
use tcppump.Ethernet.Buffer.{write-start}
use tcppump.Ethernet.Layout.{
  Parts, HasParts, content, memory-content, length-content, frame-content,
}

-- A copy has the parts of the original, in memory of its own.
pub copy_packet-parts :
    {p : EthernetPacket} {f : Parts} (mem : Bytes)
    → HasParts p f
    → p.packet_max_length ≤ length mem
    → HasParts (copy_packet mem p) (record f {
      slack = drop (length (content f)) (constructed p.packet_max_length mem).packet;
    })
unfolding copy_packet frame
copy_packet-parts {p} {f} mem h room =
    let whole = length-content f h.dest_size h.src_size h.kind_size in
    let fresh = (constructed p.packet_max_length mem).packet in
    let fresh_size : length fresh ≡ length mem = omega (
      arith,
      h.fits,
      length-write mem 0 (0 ∷ 0 ∷ 0 ∷ 0 ∷ 0 ∷ 0 ∷ 0 ∷ 0 ∷ 0 ∷ 0 ∷ 0 ∷ 0 ∷ 0 ∷ 0 ∷ []),
      length-write (write mem 0 (0 ∷ 0 ∷ 0 ∷ 0 ∷ 0 ∷ 0 ∷ 0 ∷ 0 ∷ 0 ∷ 0 ∷ 0 ∷ 0 ∷ 0 ∷ 0 ∷ [])) 12
          (0 ∷ 0 ∷ []),
    ) in
    record {
      in_memory =
          ap (write fresh 0) (frame-content h)
          ∙ write-start fresh (content f)
          ∙ sym (memory-content (record f { slack = drop (length (content f)) fresh }));
      dest_size = h.dest_size;
      src_size = h.src_size;
      kind_size = h.kind_size;
      kind_at = h.kind_at;
      payload_at = h.payload_at;
      payload_size = h.payload_size;
      llc_size = h.llc_size;
      fits = h.fits;
      allocated =
          omega (arith, whole, fresh_size, length-drop (length (content f)) fresh, h.fits, room);
      addressable = h.addressable;
    }

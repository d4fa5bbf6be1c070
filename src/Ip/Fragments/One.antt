-- ===== src/Ip/Fragments/One.antt =====
-- One fragment: the IP header and the data that `put_fragment` leaves in an Ethernet packet.
use tcppump.Common.{
  ℕ, ◌+◌, ◌-◌, ◌%◌, ◌^◌, ◌≤◌, ◌<◌, ◌≡◌, ◌≢◌, refl, ap, ◌∙◌, subst, arith, ◌++◌, append_assoc,
  Option, none, some, length, length-append, length-take, take, take_all, drop, All, Bytes, IsByte,
  be16, le16, Result, ok, le→ltb_false,
}
use tcppump.Ethernet.{EthernetPacket, set_payload, append_payload, payload_bytes}
use tcppump.Ethernet.Layout.Payload.{Returns, set_payload-parts, append_payload-parts}
use tcppump.Ip.Packet.{IpPacket, get_header_length}
use tcppump.Ip.Header.{HeaderArgs, compile_header, compile_chksum, header_with}
use tcppump.Ip.Header.Checked.{HasAddresses, compile_chksum-computed, chksum, length-header_with}
use tcppump.Ip.Fragments.{
  Job, fragment_length, remaining, header_args, append_some, put_first, put_data, put_fragment,
}
use tcppump.Ip.Fragments.Room.{
  TakesMtu, payload_bytes-parts, set_payload-max, append_some-parts, append_some-max,
}

-- The addresses of the datagram, its identification, and an MTU with room for data.
pub record IsReady (ip : IpPacket) : Type 0 where
  pub src_size : length ip.src_ip ≡ 4
  pub dst_size : length ip.dst_ip ≡ 4
  pub src_bytes : All IsByte ip.src_ip
  pub dst_bytes : All IsByte ip.dst_ip
  pub has_room : get_header_length ip < ip.mtu
  pub mtu_small : ip.mtu < 2 ^ 32

compile_chksum_total :
    (manual : Option ℕ) (a : HeaderArgs)
    → HasAddresses a
    → (field : Bytes) × (compile_chksum manual a ≡ ok field) × (length field ≡ 2)
compile_chksum_total none a h = (le16 (chksum a h), compile_chksum-computed a h, refl)
compile_chksum_total (some value) a h = (be16 value, unfold compile_chksum in refl, refl)

pub compile_header_total :
    (a : HeaderArgs)
    → HasAddresses a
    → a.offset % 8 ≡ 0
    → (field : Bytes) × (compile_header a ≡ ok (header_with a field)) × (length field ≡ 2)
unfolding compile_header
compile_header_total a h units =
    let (field, e, size) = compile_chksum_total a.manual_chksum a h in
    (field, ground (arith, e), size)

pub header_args-HasAddresses :
    (j : Job) (n offset frag_len : ℕ)
    → IsReady j.ip
    → HasAddresses (header_args j n offset frag_len)
header_args-HasAddresses j n offset frag_len r = record {
  src_size = r.src_size;
  dst_size = r.dst_size;
  src_bytes = r.src_bytes;
  dst_bytes = r.dst_bytes;
  hdr_len_is = ground arith;
}

-- A fragment carries no more than what is left, and fits the MTU with its header.
pub fragment_length-le :
    (j : Job) (n rest : ℕ)
    → get_header_length j.ip < j.ip.mtu
    → j.ip.mtu < 2 ^ 32
    → (fragment_length j n rest ≤ rest)
      × (get_header_length j.ip + fragment_length j n rest ≤ j.ip.mtu)
unfolding fragment_length
fragment_length-le j n rest room small = ground arith

put_fragment-steps :
    (j : Job) (n offset : ℕ) (payload : Bytes) (p : EthernetPacket) {header : Bytes}
    {q : EthernetPacket}
    → compile_header (header_args j n offset (fragment_length j n (remaining j n payload)))
      ≡ ok header
    → set_payload p header ≡ ok q
    → put_fragment j n offset payload p
      ≡ put_data j n (fragment_length j n (remaining j n payload)) payload q
unfolding put_fragment
put_fragment-steps j n offset payload p e f = rw (e, f)

put_data-next :
    (j : Job) (n frag_len : ℕ) (payload : Bytes) (q : EthernetPacket)
    → n ≢ 0
    → put_data j n frag_len payload q ≡ append_payload q (take frag_len payload)
unfolding put_data
put_data-next j n frag_len payload q later = ground (arith, later)

put_data-first :
    (j : Job) (frag_len : ℕ) (payload : Bytes) (q : EthernetPacket) {r : EthernetPacket}
    → length j.l4_header ≤ frag_len
    → append_some q j.l4_header (length j.l4_header) j.l4_header ≡ ok r
    → put_data j 0 frag_len payload q
      ≡ append_some r payload (frag_len - length j.l4_header) payload
unfolding put_data put_first
put_data-first j frag_len payload q room e = rw (le→ltb_false frag_len (length j.l4_header) room, e)

-- What `put_fragment` comes to: a packet with header and data behind one another.
pub record Puts (r : Result EthernetPacket) (a : HeaderArgs) (part : Bytes) : Type 0 where
  pub result : EthernetPacket
  pub field : Bytes
  pub returned : r ≡ ok result
  pub carries : payload_bytes result ≡ header_with a field ++ part
  pub field_size : length field ≡ 2

module _ (j : Job) (n offset : ℕ) (payload : Bytes) {p : EthernetPacket} (r : IsReady j.ip)
    (t : TakesMtu j.ip.mtu p) (units : offset % 8 ≡ 0) where
  pub length_here : ℕ
  length_here = fragment_length j n (remaining j n payload)

  abbrev args_here : HeaderArgs
  args_here = header_args j n offset length_here

  -- The packet with the header alone.
  with_header :
      (field : Bytes)
      → length field ≡ 2
      → Returns (set_payload p (header_with args_here field)) (record t.parts {
        payload = header_with args_here field;
        slack = drop (length (header_with args_here field)) (t.parts.payload ++ t.parts.slack);
      })
  with_header field size =
      let fits =
        length-header_with args_here (header_args-HasAddresses j n offset length_here r) field
          size in
      set_payload-parts t.has (header_with args_here field)
        (omega (arith, fits, t.room, r.has_room))

  header_fits :
      (field : Bytes)
      → length field ≡ 2
      → length (header_with args_here field) ≡ get_header_length j.ip
  header_fits field size =
      length-header_with args_here (header_args-HasAddresses j n offset length_here r) field size

  length_here-le :
      (length_here ≤ remaining j n payload) × (get_header_length j.ip + length_here ≤ j.ip.mtu)
  unfolding length_here
  length_here-le = fragment_length-le j n (remaining j n payload) r.has_room r.mtu_small

  -- A fragment behind the first: the IP header and the next bytes of the payload.
  pub put_fragment-next :
      n ≢ 0 → Puts (put_fragment j n offset payload p) args_here (take length_here payload)
  unfolding length_here
  put_fragment-next later =
      let (field, header, size) =
        compile_header_total args_here (header_args-HasAddresses j n offset length_here r) units in
      let head = with_header field size in
      let put = append_payload-parts head.parts (take length_here payload) (
        omega (
          arith,
          t.room,
          header_fits field size,
          length_here-le,
          length-take length_here payload,
          set_payload-max p (header_with args_here field) head.returned,
        )) in
      record {
        result = put.result;
        field = field;
        returned =
            put_fragment-steps j n offset payload p header head.returned
            ∙ put_data-next j n length_here payload head.result later
            ∙ put.returned;
        carries = payload_bytes-parts put.parts;
        field_size = size;
      }

-- The first fragment: the IP header, the layer 4 header, and the first bytes of the payload.
pub put_fragment-first :
    (j : Job) (offset : ℕ) (payload : Bytes) {p : EthernetPacket}
    → IsReady j.ip
    → TakesMtu j.ip.mtu p
    → offset % 8 ≡ 0
    → length j.l4_header ≤ fragment_length j 0 (length j.l4_header + length payload)
    → Puts
        (put_fragment j 0 offset payload p)
        (header_args j 0 offset (fragment_length j 0 (length j.l4_header + length payload)))
        (j.l4_header
          ++ take
              (fragment_length j 0 (length j.l4_header + length payload) - length j.l4_header)
              payload)
unfolding length_here
put_fragment-first j offset payload {p} r t units room =
    let frag_len = fragment_length j 0 (length j.l4_header + length payload) in
    let args = header_args j 0 offset frag_len in
    let own = header_args-HasAddresses j 0 offset frag_len r in
    let (field, header, size) = compile_header_total args own units in
    let head = with_header j 0 offset payload r t units field size in
    let header_size = length-header_with args own field size in
    let limits =
      fragment_length-le j 0 (length j.l4_header + length payload) r.has_room r.mtu_small in
    let l4_size = length-take (length j.l4_header) j.l4_header in
    let head-max = set_payload-max p (header_with args field) head.returned in
    let four =
      append_some-parts head.parts j.l4_header (length j.l4_header)
        (omega (arith, t.room, header_size, limits, l4_size, head-max, room)) in
    let both = length-append (header_with args field) (take (length j.l4_header) j.l4_header) in
    let four-max = append_some-max head.result j.l4_header (length j.l4_header) four.returned in
    let count = frag_len - length j.l4_header in
    let put = append_some-parts four.parts payload count (
      omega (
        arith,
        t.room,
        header_size,
        limits,
        l4_size,
        both,
        head-max,
        four-max,
        room,
        length-take count payload,
      )) in
    record {
      result = put.result;
      field = field;
      returned =
          put_fragment-steps j 0 offset payload p header head.returned
          ∙ put_data-first j frag_len payload head.result room four.returned
          ∙ put.returned;
      carries =
          payload_bytes-parts put.parts
          ∙ append_assoc (header_with args field) _ (take count payload)
          ∙ ap (λ x. header_with args field ++ (x ++ take count payload))
              (take_all (length j.l4_header) j.l4_header (omega arith));
      field_size = size;
    }

-- `put_fragment-next` with the length of the fragment as a number of its own.
pub put_fragment-behind :
    (j : Job) (n offset frag_len : ℕ) (payload : Bytes) {p : EthernetPacket}
    → IsReady j.ip
    → TakesMtu j.ip.mtu p
    → offset % 8 ≡ 0
    → n ≢ 0
    → fragment_length j n (remaining j n payload) ≡ frag_len
    → Puts
        (put_fragment j n offset payload p)
        (header_args j n offset frag_len)
        (take frag_len payload)
unfolding length_here
put_fragment-behind j n offset frag_len payload {p} r t units later e =
    subst
      (λ l. Puts (put_fragment j n offset payload p) (header_args j n offset l) (take l payload)) e
      (put_fragment-next j n offset payload r t units later)

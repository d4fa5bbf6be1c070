-- ===== src/Transport/Accepted.antt =====
-- The checksums of the layer 4 packets, against a receiver that sums pseudo header, header and
-- payload.
use tcppump.Common.{
  ℕ, ◌+◌, ◌/◌, ◌%◌, ◌^◌, ◌≤◌, ◌<◌, ◌≡◌, refl, ap, ◌∙◌, sym, arith, [], ◌∷◌, ◌++◌, ◌==◌,
  if◌then◌else◌, length, length-append, All, All-append, Bytes, IsByte, be16, be32, le16, Option,
  ok,
}
use tcppump.Checksum.{Region, rfc1071, rfc1071_finalize}
use tcppump.Checksum.Verify.{part_bytes, max_length}
use tcppump.Checksum.Field.{at_even, rest_sum, field_computed, field_replaced}
use tcppump.Transport.{Endpoints, ip4, ip6, pseudo_header, calc_checksum}
use tcppump.Transport.Udp.{UdpHeader, proto_udp}
use tcppump.Transport.Tcp.{TcpHeader, proto_tcp}

-- Addresses of the right size.
abbrev pub HasSize : Endpoints → Type 0
HasSize (ip4 src dst) = (length src ≡ 4) × (length dst ≡ 4) × All IsByte src × All IsByte dst
HasSize (ip6 src dst) = (length src ≡ 16) × (length dst ≡ 16) × All IsByte src × All IsByte dst

pub length-pseudo_header :
    (e : Endpoints) (protocol len : ℕ)
    → HasSize e
    → (length (pseudo_header e protocol len) % 2 ≡ 0) × (length (pseudo_header e protocol len) ≤ 40)
unfolding pseudo_header
length-pseudo_header (ip4 src dst) protocol len h = omega (
  arith,
  length-append src (dst ++ (0 ∷ protocol ∷ be16 (len % 2 ^ 16))),
  length-append dst (0 ∷ protocol ∷ be16 (len % 2 ^ 16)),
)
length-pseudo_header (ip6 src dst) protocol len h = omega (
  arith,
  length-append src (dst ++ (be32 (len % 2 ^ 32) ++ (0 ∷ 0 ∷ 0 ∷ protocol ∷ []))),
  length-append dst (be32 (len % 2 ^ 32) ++ (0 ∷ 0 ∷ 0 ∷ protocol ∷ [])),
)

pub pseudo_header-IsByte :
    (e : Endpoints) (protocol len : ℕ)
    → HasSize e
    → protocol < 256
    → All IsByte (pseudo_header e protocol len)
unfolding pseudo_header
pseudo_header-IsByte (ip4 src dst) protocol len h p =
    All-append IsByte src _ h.2 (All-append IsByte dst _ h.3 (omega (arith, p)))
pseudo_header-IsByte (ip6 src dst) protocol len h p =
    All-append IsByte src _ h.2 (All-append IsByte dst _ h.3 (omega (arith, p)))

-- The pseudo header that a receiver puts in front of a datagram of `len` bytes (RFC 768; RFC 8200, 8.1):
-- the addresses, then over IPv4 a zero, the protocol and two bytes of length, and over IPv6 four bytes of
-- length, three zeros and the protocol.
abbrev pub received_pseudo : Endpoints → ℕ → ℕ → Bytes
received_pseudo (ip4 src dst) protocol len =
    src ++ (dst ++ (0 ∷ protocol ∷ len / 256 % 256 ∷ len % 256 ∷ []))
received_pseudo (ip6 src dst) protocol len =
    src
    ++ (dst
        ++ (len / 16777216 % 256
            ∷ len / 65536 % 256
            ∷ len / 256 % 256
            ∷ len % 256
            ∷ 0
            ∷ 0
            ∷ 0
            ∷ protocol
            ∷ []))

pub pseudo_header-received :
    (e : Endpoints) (protocol len : ℕ)
    → len < 2 ^ 32
    → pseudo_header e protocol len ≡ received_pseudo e protocol len
unfolding pseudo_header
pseudo_header-received (ip4 src dst) protocol len h =
    let hi : len % 2 ^ 16 / 256 % 256 ≡ len / 256 % 256 = omega arith in
    let lo : len % 2 ^ 16 % 256 ≡ len % 256 = omega arith in rw (hi, lo) refl
pseudo_header-received (ip6 src dst) protocol len h =
    let whole : len % 2 ^ 32 ≡ len = omega (arith, h) in rw whole refl

-- The checksum that `calc_checksum` gives for a header with a zero in its field at an even offset is
-- a number of 16 bits other than 0, and a receiver's sum over pseudo header, header with this
-- checksum, and payload gives 0.
pub calc_checksum_accepted :
    (e : Endpoints) (protocol len : ℕ) (before after : Bytes) (payload : Option Region) {c : ℕ}
    → HasSize e
    → protocol < 256
    → length before % 2 ≡ 0
    → length after % 2 ≡ 0
    → All IsByte before
    → All IsByte after
    → All IsByte (part_bytes payload)
    → 42 + length before + length after + length (part_bytes payload) ≤ max_length
    → calc_checksum e protocol len (before ++ (le16 0 ++ after)) payload ≡ ok c
    → (0 < c)
      × (c < 65536)
      × (rfc1071
            (at_even (pseudo_header e protocol len))
            (at_even (before ++ (le16 c ++ after)))
            payload
          ≡ ok 0)
unfolding calc_checksum
calc_checksum_accepted e protocol len before after payload {c} size small even_before even_after
      b_before b_after b_payload short computed =
    let pseudo = pseudo_header e protocol len in
    let (even, fits) = length-pseudo_header e protocol len size in
    let b = pseudo_header-IsByte e protocol len size small in
    let room : length pseudo + length before + 2 + length after + length (part_bytes payload)
        ≤ max_length =
      omega (arith, fits, short) in
    let value =
      field_computed pseudo before after payload even even_before even_after b b_before b_after
        b_payload room in
    let is : c ≡ (
        if rfc1071_finalize (rest_sum pseudo before after payload) == 0
        then 0xffff
        else rfc1071_finalize (rest_sum pseudo before after payload)) =
      ground (arith, computed, value) in
    rw is (
      field_replaced pseudo before after payload even even_before even_after b b_before b_after
        b_payload room)

-- A UDP checksum that is computed over a header with a zero in its checksum field, with the length of
-- header and payload, is not 0, fits 16 bits, and a receiver gets 0 that sums its own pseudo header with
-- the addresses, protocol 17 and this length, the header with the checksum, and the payload. This holds over
-- IPv4 and IPv6, for payloads of at most 65535 bytes anywhere in memory.
pub udp_accepted :
    (e : Endpoints) (h : UdpHeader) (payload : Option Region) {c : ℕ}
    → HasSize e
    → h.checksum ≡ 0
    → All IsByte (part_bytes payload)
    → length (part_bytes payload) ≤ 65535
    → calc_checksum e proto_udp
        (8 + length (part_bytes payload))
        (tcppump.Transport.Udp.header_bytes h)
        payload
      ≡ ok c
    → (0 < c)
      × (c < 65536)
      × (rfc1071
            (at_even (received_pseudo e 17 (8 + length (part_bytes payload))))
            (at_even (tcppump.Transport.Udp.header_bytes (record h { checksum = c })))
            payload
          ≡ ok 0)
unfolding tcppump.Transport.Udp.header_bytes
udp_accepted e h payload size zeroed b short computed =
    let before = tcppump.Transport.Udp.before_checksum h in
    let len = 8 + length (part_bytes payload) in
    rw (sym (pseudo_header-received e 17 len (omega (arith, short)))) (
      calc_checksum_accepted e proto_udp len before [] payload size (omega arith) refl refl
        (omega arith) tt b (omega (arith, short))
        (ap (λ (f : ℕ). calc_checksum e proto_udp len (before ++ (le16 f ++ [])) payload)
            (sym zeroed)
          ∙ computed))

-- A TCP checksum that is computed over a header with a zero in its checksum field and bytes in its
-- one-byte fields, with the length of header and payload, is not 0, fits 16 bits, and a receiver gets 0
-- that sums its own pseudo header with the addresses, protocol 6 and this length, the header with the
-- checksum, and the payload. This holds over IPv4 and IPv6, for payloads of at most 65535 bytes anywhere in
-- memory.
pub tcp_accepted :
    (e : Endpoints) (h : TcpHeader) (payload : Option Region) {c : ℕ}
    → HasSize e
    → h.checksum ≡ 0
    → h.data_offset < 256
    → h.flags < 256
    → All IsByte (part_bytes payload)
    → length (part_bytes payload) ≤ 65535
    → calc_checksum e proto_tcp
        (20 + length (part_bytes payload))
        (tcppump.Transport.Tcp.header_bytes h)
        payload
      ≡ ok c
    → (0 < c)
      × (c < 65536)
      × (rfc1071
            (at_even (received_pseudo e 6 (20 + length (part_bytes payload))))
            (at_even (tcppump.Transport.Tcp.header_bytes (record h { checksum = c })))
            payload
          ≡ ok 0)
unfolding tcppump.Transport.Tcp.header_bytes
tcp_accepted e h payload size zeroed offset flags b short computed =
    let before = tcppump.Transport.Tcp.before_checksum h in
    let after = le16 h.urgent_ptr in
    let len = 20 + length (part_bytes payload) in
    rw (sym (pseudo_header-received e 6 len (omega (arith, short)))) (
      calc_checksum_accepted e proto_tcp len before after payload size (omega arith) refl refl
        (omega (arith, offset, flags)) (omega arith) b (omega (arith, short))
        (ap (λ (f : ℕ). calc_checksum e proto_tcp len (before ++ (le16 f ++ after)) payload)
            (sym zeroed)
          ∙ computed))

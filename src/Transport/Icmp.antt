-- ===== src/Transport/Icmp.antt =====
-- src/packets/icmppacket.hpp and src/packets/icmppacket.cpp.
use tcppump.Common.{
  ℕ, ◌/◌, ◌%◌, ◌⊎◌, inl, inr, ◌≤◌, ◌<◌, ◌≡◌, refl, arith, Bool, false, if◌then◌else◌, ◌==◌, [], ◌∷◌,
  ◌++◌, length, All, Bytes, IsByte, be16, le16, Option, none, some, Result, ok, err, bug, ◌>>=◌,
}
use tcppump.Checksum.{Region, rfc1071_pair, rfc1071_single}
use tcppump.Checksum.Field.{pair_accepted}
use tcppump.Checksum.Verify.{part_bytes}
use tcppump.Ip.Packet.{IpPacket}
use tcppump.Ip.Fragments.{v4compile}
use tcppump.Ip.Update.{update_l4_header}

abbrev pub proto_icmp : ℕ
proto_icmp = 1

-- `type`, `code` and `checksum` of icmp_header_t, and what follows them in the header.
abbrev pub header_bytes : ℕ → ℕ → ℕ → Bytes → Bytes
header_bytes type code checksum rest = type ∷ code ∷ le16 checksum ++ rest

-- The header on the stack, completed with the checksum over it and the data.
unfoldable pub checked_header : ℕ → ℕ → Bytes → Option Region → Result Bytes
checked_header type code rest datum =
    rfc1071_pair (record { odd_address = false; bytes = header_bytes type code 0 rest }) datum
    >>= λ checksum. ok (header_bytes type code checksum rest)

-- A message with its checksum, handed to cIPPacket::compile. `rest` is the header behind the checksum.
unfoldable pub send :
    (ℕ → Bytes) → ℕ → IpPacket → ℕ → ℕ → Bytes → Option Region → Result (IpPacket × ℕ)
send fresh next ip type code rest datum = do
  header ← checked_header type code rest datum
  v4compile fresh next ip proto_icmp header (part_bytes datum)

-- `compileRaw` needs a payload.
unfoldable pub compile_raw :
    (ℕ → Bytes) → ℕ → IpPacket → ℕ → ℕ → Option Region → Result (IpPacket × ℕ)
compile_raw fresh next ip type code none = err bug
compile_raw fresh next ip type code (some payload) =
    if length payload.bytes == 0 then err bug else send fresh next ip type code [] (some payload)

-- `compileRaw` with a checksum by hand, which is stored without htons.
unfoldable pub compile_raw_with_checksum :
    (ℕ → Bytes) → ℕ → IpPacket → ℕ → ℕ → ℕ → Option Region → Result (IpPacket × ℕ)
compile_raw_with_checksum fresh next ip type code checksum payload = do
  (sent, next_id) ← compile_raw fresh next ip type code payload
  updated ← update_l4_header sent (header_bytes type code checksum [])
  ok (updated, next_id)

-- The IPv4 header of `compileGenericInetHeader`, with what is in its checksum field.
abbrev pub generic_ip_header : Bytes → Bytes → Bytes → Bytes
generic_ip_header src dst chksum =
    0x45 ∷ 0 ∷ be16 28 ++ (0 ∷ 0 ∷ 0 ∷ 0 ∷ 64 ∷ 17 ∷ chksum ++ (src ++ dst))

-- IPv4 header and UDP header of a datagram that an error message refers to.
unfoldable pub compile_generic_inet_header : Bytes → Bytes → Result Bytes
compile_generic_inet_header src dst =
    rfc1071_single (record { odd_address = false; bytes = generic_ip_header src dst (0 ∷ 0 ∷ []) })
    >>= λ chksum. ok (
        generic_ip_header src dst (le16 chksum)
        ++ (be16 42 ++ (be16 4242 ++ (be16 8 ++ (0 ∷ 0 ∷ [])))))

-- The given embedded header, or the generic one.
unfoldable pub inet_header : IpPacket → Option Region → Result Region
inet_header ip (some inetheader) = ok inetheader
inet_header ip none = compile_generic_inet_header ip.src_ip ip.dst_ip >>= λ bytes.
    ok (record { odd_address = false; bytes = bytes })

unfoldable pub compile_with_embedded_inet :
    (ℕ → Bytes) → ℕ → IpPacket → ℕ → ℕ → Option Region → Result (IpPacket × ℕ)
compile_with_embedded_inet fresh next ip type code inetheader = do
  embedded ← inet_header ip inetheader
  send fresh next ip type code (0 ∷ 0 ∷ 0 ∷ 0 ∷ []) (some embedded)

unfoldable pub compile_redirect :
    (ℕ → Bytes) → ℕ → IpPacket → ℕ → Bytes → Option Region → Result (IpPacket × ℕ)
compile_redirect fresh next ip code gw inetheader = do
  embedded ← inet_header ip inetheader
  send fresh next ip 5 code gw (some embedded)

unfoldable pub compile_ping :
    (ℕ → Bytes) → ℕ → IpPacket → Bool → ℕ → ℕ → Option Region → Result (IpPacket × ℕ)
compile_ping fresh next ip reply id seq datum =
    send fresh next ip (if reply then 0 else 8) 0 (be16 id ++ be16 seq) datum

-- The header that `checked_header` completes has a checksum, with which that over header and data is 0.
checked_header_accepted :
    (type code : ℕ) (rest : Bytes) (datum : Option Region)
    → type < 256
    → code < 256
    → length rest % 2 ≡ 0
    → length rest ≤ 100
    → All IsByte rest
    → All IsByte (part_bytes datum)
    → length (part_bytes datum) ≤ 65535
    → (checksum : ℕ) × (checked_header type code rest datum
        ≡ ok (header_bytes type code checksum rest))
      × (rfc1071_pair
            (record { odd_address = false; bytes = header_bytes type code checksum rest })
            datum
          ≡ ok 0)
unfolding checked_header
checked_header_accepted type code rest datum t c even few b b_data short =
    let (checksum, computed, accepted) =
      pair_accepted (type ∷ code ∷ []) rest datum refl even (t, (c, tt)) b b_data
        (omega (arith, few, short)) in
    (checksum, rw computed, accepted)

-- The call hands a message to `v4compile`, with protocol 1, that a receiver accepts: type, code, two bytes
-- of checksum, the rest of the header and the data, over which the receiver's checksum is 0.
abbrev pub IsAccepted :
    (ℕ → Bytes) → ℕ → IpPacket → ℕ → ℕ → Bytes → Option Region → Result (IpPacket × ℕ) → Type 0
IsAccepted fresh next ip type code rest datum r =
    (header : Bytes) × (checksum : ℕ) × (header
      ≡ type ∷ code ∷ checksum % 256 ∷ checksum / 256 % 256 ∷ rest)
    × (r ≡ v4compile fresh next ip 1 header (part_bytes datum))
    × (rfc1071_pair (record { odd_address = false; bytes = header }) datum ≡ ok 0)

module _ (fresh : ℕ → Bytes) (next : ℕ) (ip : IpPacket) where
  send-IsAccepted :
      (type code : ℕ) (rest : Bytes) (datum : Option Region)
      → type < 256
      → code < 256
      → length rest ≡ 4 ⊎ length rest ≡ 0
      → All IsByte rest
      → All IsByte (part_bytes datum)
      → length (part_bytes datum) ≤ 65535
      → IsAccepted fresh next ip type code rest datum (send fresh next ip type code rest datum)
  unfolding send
  send-IsAccepted type code rest datum t c size b b_data short =
      let (checksum, computed, accepted) =
        checked_header_accepted type code rest datum t c (ground (arith, size))
          (ground (arith, size)) b b_data short in
      (header_bytes type code checksum rest, checksum, refl, rw computed refl, accepted)

  -- With data of at most 65535 bytes anywhere in memory, every message without a checksum by hand is
  -- accepted by a receiver: the raw message of any type and code with a payload that is not empty, echo
  -- request and reply with identifier and sequence number in network order, and with a given embedded
  -- header the error messages of any type and code, with four zeros, and the redirect, with the gateway.
  pub messages-IsAccepted :
      (type code : ℕ) (payload : Region) (gw : Bytes) (reply : Bool) (id seq : ℕ)
      → type < 256
      → code < 256
      → All IsByte payload.bytes
      → 0 < length payload.bytes
      → length payload.bytes ≤ 65535
      → length gw ≡ 4
      → All IsByte gw
      → IsAccepted fresh next ip type code []
          (some payload)
          (compile_raw fresh next ip type code (some payload))
        × IsAccepted fresh next ip
            (if reply then 0 else 8)
            0
            (id / 256 % 256 ∷ id % 256 ∷ seq / 256 % 256 ∷ seq % 256 ∷ [])
            (some payload)
            (compile_ping fresh next ip reply id seq (some payload))
        × IsAccepted fresh next ip type code
            (0 ∷ 0 ∷ 0 ∷ 0 ∷ [])
            (some payload)
            (compile_with_embedded_inet fresh next ip type code (some payload))
        × IsAccepted fresh next ip 5 code gw
            (some payload)
            (compile_redirect fresh next ip code gw (some payload))
  unfolding compile_raw compile_ping compile_with_embedded_inet compile_redirect inet_header
  messages-IsAccepted type code payload gw reply id seq t c b some_data short size b_gw =
      let some_length : (length payload.bytes == 0) ≡ false = ground (arith, some_data) in
      (
        rw some_length (send-IsAccepted type code [] (some payload) t c (inr refl) tt b short),
        send-IsAccepted (if reply then 0 else 8) 0 (be16 id ++ be16 seq) (some payload)
            (ground arith) (omega arith) (inl refl) (omega arith) b short,
        send-IsAccepted type code (0 ∷ 0 ∷ 0 ∷ 0 ∷ []) (some payload) t c (inl refl) (omega arith) b
            short,
        send-IsAccepted 5 code gw (some payload) (omega arith) c (inl size) b_gw b short,
      )

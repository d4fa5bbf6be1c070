-- ===== src/Transport/Gre.antt =====
-- src/packets/grepacket.hpp and src/packets/grepacket.cpp.
use tcppump.Common.{
  ℕ, bit_or, Bool, true, false, if◌then◌else◌, [], ◌∷◌, ◌++◌, Bytes, be16, be32, le16, Option,
  Result, ok, ◌>>=◌,
}
use tcppump.Checksum.{Region, rfc1071_pair}
use tcppump.Checksum.Verify.{part_bytes}
use tcppump.Ip.Packet.{IpPacket}
use tcppump.Ip.Fragments.{v4compile}
use tcppump.Ip.Update.{update_l4_header}

-- `flags` and `protocol` of the basic header, whose version is 0, and the optional words.
pub record GrePacket : Type 0 where
  pub flags : ℕ
  pub protocol : ℕ
  pub has_checksum : Bool
  pub has_key : Bool
  pub has_seq : Bool
  pub checksum : ℕ
  pub key : ℕ
  pub seq : ℕ

abbrev pub new_packet : GrePacket
new_packet = record {
  flags = 0;
  protocol = 0;
  has_checksum = false;
  has_key = false;
  has_seq = false;
  checksum = 0;
  key = 0;
  seq = 0;
}

abbrev pub set_protocol_type : GrePacket → ℕ → GrePacket
set_protocol_type g proto = record g { protocol = proto }

unfoldable pub set_key : GrePacket → ℕ → GrePacket
set_key g key = record g { key = key; has_key = true; flags = bit_or g.flags 0x20 }

unfoldable pub set_sequence : GrePacket → ℕ → GrePacket
set_sequence g seq = record g { seq = seq; has_seq = true; flags = bit_or g.flags 0x10 }

unfoldable pub set_checksum : GrePacket → ℕ → GrePacket
set_checksum g checksum = record g {
  checksum = checksum;
  has_checksum = true;
  flags = bit_or g.flags 0x80;
}

abbrev pub basic_header : GrePacket → Bytes
basic_header g = g.flags ∷ 0 ∷ be16 g.protocol

-- The words behind the checksum.
abbrev pub options : GrePacket → Bytes
options g = (if g.has_key then be32 g.key else []) ++ (if g.has_seq then be32 g.seq else [])

-- The header as it is put together, with the bytes of the checksum field.
abbrev pub header_with : GrePacket → Bytes → Bytes
header_with g field =
    basic_header g ++ ((if g.has_checksum then field ++ (0 ∷ 0 ∷ []) else []) ++ options g)

abbrev pub proto_gre : ℕ
proto_gre = 47

-- With a computed checksum the field is zero first, and is overwritten behind `cIPPacket::compile`.
unfoldable pub compile :
    (ℕ → Bytes)
    → ℕ
    → IpPacket
    → GrePacket
    → Option Region
    → Bool
    → Result (IpPacket × (GrePacket × ℕ))
compile fresh next ip g payload false = do
  (sent, next_id) ←
      v4compile fresh next ip proto_gre (header_with g (be16 g.checksum)) (part_bytes payload)
  ok (sent, (g, next_id))
compile fresh next ip g payload true =
    let zeroed = set_checksum g 0 in
    let header = header_with zeroed (be16 zeroed.checksum) in
    do
      (sent, next_id) ← v4compile fresh next ip proto_gre header (part_bytes payload)
      chksum ← rfc1071_pair (record { odd_address = false; bytes = header }) payload
      updated ← update_l4_header sent (header_with zeroed (le16 chksum))
      ok (updated, (zeroed, next_id))

-- ===== src/Transport/Vxlan.antt =====
-- src/packets/vxlanpacket.hpp and src/packets/vxlanpacket.cpp.
use tcppump.Common.{
  ℕ, ◌*◌, ◌/◌, ◌%◌, ◌^◌, ◌<◌, ◌≡◌, arith, bit_and, bit_and_low, false, [], ◌∷◌, ◌++◌, Bytes, le32,
  some, Result,
}
use tcppump.Ethernet.{htonl}
use tcppump.Ip.Packet.{IpPacket}
use tcppump.Transport.Udp.{UdpHeader}

pub record VxlanHeader : Type 0 where
  pub flags : ℕ
  pub reserved : Bytes
  pub vni : ℕ

-- The constructor sets the flag for a valid VNI.
abbrev pub new_header : VxlanHeader
new_header = record { flags = 0x08; reserved = 0 ∷ 0 ∷ 0 ∷ []; vni = 0 }

unfoldable pub set_vni : VxlanHeader → ℕ → VxlanHeader
set_vni h vni = record h { vni = htonl (bit_and vni 0x00ffffff * 2 ^ 8 % 2 ^ 32) }

unfoldable pub header_bytes : VxlanHeader → Bytes
header_bytes h = h.flags ∷ h.reserved ++ le32 h.vni

-- `compile` puts header and payload into memory of their own, which is aligned.
unfoldable pub compile :
    (ℕ → Bytes)
    → ℕ
    → IpPacket
    → UdpHeader
    → VxlanHeader
    → Bytes
    → Result (IpPacket × (UdpHeader × ℕ))
compile fresh next ip udp header payload =
    tcppump.Transport.Udp.compile fresh next ip udp
      (some (record { odd_address = false; bytes = header_bytes header ++ payload }))

-- The header of a VXLAN packet with a VNI of 24 bits has the bytes of RFC 7348: the flag, three zero
-- bytes, the VNI with its highest byte first, and a zero byte.
pub set_vni-bytes :
    (vni : ℕ)
    → vni < 2 ^ 24
    → header_bytes (set_vni new_header vni)
      ≡ 8 ∷ 0 ∷ 0 ∷ 0 ∷ vni / 2 ^ 16 ∷ vni / 2 ^ 8 % 256 ∷ vni % 256 ∷ 0 ∷ []
unfolding header_bytes set_vni
set_vni-bytes vni small = rw (bit_and_low 24) (ground arith)

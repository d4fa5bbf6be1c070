-- ===== src/Ethernet/Lldp.antt =====
-- src/packets/lldppacket.hpp and src/packets/lldppacket.cpp.
pub mod Values
pub mod Reader
use tcppump.Common.{
  ℕ, ◌+◌, ◌*◌, ◌%◌, ◌^◌, Bool, true, false, List, [], ◌∷◌, ◌++◌, Option, none, some, if◌then◌else◌,
  length, Bytes, be16, Result, ok, ◌>>=◌,
}
use tcppump.Ethernet.{EthernetPacket, set_dest_mac, set_type_length, append_payload}
use tcppump.Ethernet.Tlv.{Tlv, bug_on, type_of, tlv_len, pieces, fill}

-- `m_tlvs`, beside the cEthernetPacket that a cLldpPacket is.
abbrev pub Tlvs : Type 0
Tlvs = List (ℕ × Bytes)

abbrev pub pushed : Tlvs → ℕ → Option Bytes → Option Tlvs
pushed tlvs type none = none
pushed tlvs type (some value) = some (tlvs ++ (type, value) ∷ [])

-- The `add` functions. There is no result where a BUG_ON fires or the array is too small.
unfoldable pub add : Tlvs → Tlv → Option Tlvs
add tlvs t = if bug_on t then none else pushed tlvs (type_of t) (fill (tlv_len t) [] (pieces t))

abbrev pub lldp_mac : Bytes
lldp_mac = 1 ∷ 0x80 ∷ 0xc2 ∷ 0 ∷ 0 ∷ 0x0e ∷ []

abbrev pub type_len : ℕ × Bytes → ℕ
type_len tlv = tlv.0 % 128 * 2 ^ 9 + length tlv.1 % 2 ^ 9

-- The loop of `compile`.
unfoldable pub append_tlvs : EthernetPacket → Tlvs → Result EthernetPacket
append_tlvs p [] = ok p
append_tlvs p (tlv ∷ tlvs) = append_payload p (be16 (type_len tlv)) >>= λ q.
    append_payload q tlv.1 >>= λ r. append_tlvs r tlvs

unfoldable pub compile : EthernetPacket → Tlvs → Bool → Result EthernetPacket
compile p tlvs with_end_tlv =
    let addressed = if p.has_dmac then p else set_dest_mac p lldp_mac in
    append_tlvs (set_type_length addressed 0x88cc) tlvs >>= λ q.
    if with_end_tlv then append_payload q (0 ∷ 0 ∷ []) else ok q

-- ===== src/Ethernet/Tag.antt =====
-- `vlan_t` of src/packets/ethernetpacket.hpp: the bytes of a VLAN tag and what is read back from them.
use tcppump.Common.{
  ℕ, ◌+◌, ◌*◌, ◌/◌, ◌%◌, ◌^◌, ◌<◌, ◌≡◌, ap, ◌∙◌, bit_and, bit_or, bit_or_low, bit_and_low, Bool,
  ◌++◌, if◌then◌else◌, Bytes, be16, arith,
}

abbrev pub ethertype_cvlan : ℕ
ethertype_cvlan = 0x8100

abbrev pub ethertype_svlan : ℕ
ethertype_svlan = 0x88a8

-- The value that `setTci` hands to htons.
unfoldable pub tci : ℕ → ℕ → ℕ → ℕ
tci vid prio dei =
    bit_or (bit_or (bit_and vid 0x0fff) (bit_and dei 1 * 2 ^ 12)) (bit_and prio 7 * 2 ^ 13)

-- `setCTag` or `setSTag`.
abbrev pub vlan_bytes : Bool → ℕ → ℕ → ℕ → Bytes
vlan_bytes is_ctag id prio dei =
    be16 (if is_ctag then ethertype_cvlan else ethertype_svlan) ++ be16 (tci id prio dei)

-- `getId`, `getPrio` and `getDEI` on the value that ntohs gives.
pub get_id : ℕ → ℕ
get_id tag = bit_and tag 0x03ff

pub get_prio : ℕ → ℕ
get_prio tag = bit_and (tag / 2 ^ 13) 0x0007

pub get_dei : ℕ → ℕ
get_dei tag = bit_and (tag / 2 ^ 12) 0x0001

-- The tag control information is the VLAN id, the DEI bit and the priority in their bit fields.
tci-sum : (vid prio dei : ℕ) → tci vid prio dei ≡ vid % 4096 + dei % 2 * 4096 + prio % 8 * 8192
unfolding tci
tci-sum vid prio dei =
    rw (bit_and_low 12, bit_and_low 1, bit_and_low 3)
      (ap (λ t. bit_or t (prio % 8 * 2 ^ 13)) (bit_or_low 12 (vid % 4096) (dei % 2) (omega arith))
        ∙ bit_or_low 13 (vid % 4096 + dei % 2 * 4096) (prio % 8) (omega arith))

-- A tag gives back its priority and its DEI bit, and of the VLAN id only the ten lowest bits of
-- twelve.
pub tci_read :
    (vid prio dei : ℕ)
    → vid < 4096
    → prio < 8
    → dei < 2
    → (get_id (tci vid prio dei) ≡ vid % 1024)
      × (get_prio (tci vid prio dei) ≡ prio)
      × (get_dei (tci vid prio dei) ≡ dei)
unfolding get_id get_prio get_dei
tci_read vid prio dei hv hp hd = (
  rw (bit_and_low 10) (omega (arith, tci-sum vid prio dei)),
  rw (bit_and_low 3) (omega (arith, tci-sum vid prio dei)),
  rw (bit_and_low 1) (omega (arith, tci-sum vid prio dei)),
)

pub tci-lt : (vid prio dei : ℕ) → tci vid prio dei < 65536
tci-lt vid prio dei = omega (arith, tci-sum vid prio dei)

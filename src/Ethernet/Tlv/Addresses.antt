-- ===== src/Ethernet/Tlv/Addresses.antt =====
-- The `add` functions of src/packets/lldppacket.cpp and src/packets/lldppacket.hpp that take an address:
-- each passes its bytes on, with the number that its kind of address has in the element.
use tcppump.Common.{ℕ, ◌∷◌, Bytes}
use tcppump.Ethernet.Tlv.Elements.{
  Basic, chassis_id, port_id, management_address, Pno, pn_nme_management_addr,
}

pub data Address : Type 0 where
  mac ipv4 ipv6 : Bytes → Address

-- The address families that IANA numbers.
abbrev pub chassis_id_of : Address → Basic
chassis_id_of (mac a) = chassis_id 4 a
chassis_id_of (ipv4 a) = chassis_id 5 (1 ∷ a)
chassis_id_of (ipv6 a) = chassis_id 5 (2 ∷ a)

abbrev pub port_id_of : Address → Basic
port_id_of (mac a) = port_id 3 a
port_id_of (ipv4 a) = port_id 4 (1 ∷ a)
port_id_of (ipv6 a) = port_id 4 (2 ∷ a)

abbrev pub management_address_of : Address → ℕ → ℕ → Bytes → Basic
management_address_of (mac a) if_subtype if_number oid =
    management_address 6 a if_subtype if_number oid
management_address_of (ipv4 a) if_subtype if_number oid =
    management_address 1 a if_subtype if_number oid
management_address_of (ipv6 a) if_subtype if_number oid =
    management_address 2 a if_subtype if_number oid

abbrev pub nme_management_addr_of : Address → Pno
nme_management_addr_of (mac a) = pn_nme_management_addr 6 a
nme_management_addr_of (ipv4 a) = pn_nme_management_addr 1 a
nme_management_addr_of (ipv6 a) = pn_nme_management_addr 2 a

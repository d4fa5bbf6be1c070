-- ===== src/Ethernet/Tlv/Elements.antt =====
-- The arguments of the `add` functions of src/packets/lldppacket.hpp, and the types of their elements.
use tcppump.Common.{ℕ, Bool, List, Bytes}

-- The arguments of the `add` functions, bytes with their length: the elements of IEEE 802.1AB itself. A
-- length that is a uint8_t is below 256.
pub data Basic : Type 0 where
  chassis_id port_id : ℕ → Bytes → Basic
  ttl : ℕ → Basic
  port_description system_name system_description : Bytes → Basic
  system_capabilities : ℕ → ℕ → Basic
  management_address : ℕ → Bytes → ℕ → ℕ → Bytes → Basic

-- Those of IEEE 802.1.
pub data Dot1 : Type 0 where
  port_vid : ℕ → Dot1
  protocol_vid : ℕ → Bool → Bool → Dot1
  vlan_name : ℕ → Bytes → Dot1
  protocol_identity : Bytes → Dot1
  vid_usage_digest management_vid : ℕ → Dot1
  link_aggregation : Bool → Bool → ℕ → ℕ → Dot1
  congestion_notification : ℕ → ℕ → Dot1
  ets_config : Bool → Bool → ℕ → ℕ → ℕ → ℕ → Dot1
  ets_recommendation : ℕ → ℕ → ℕ → Dot1
  pfc_ctrl_config : Bool → Bool → ℕ → ℕ → Dot1
  application_priority : Bytes → Bytes → List ℕ → Dot1
  evb : ℕ → ℕ → ℕ → ℕ → ℕ → Bool → ℕ → Bool → ℕ → Dot1
  cdcp : Bool → Bool → ℕ → List (ℕ × ℕ) → Dot1
  application_vlan : List ℕ → Bytes → List ℕ → Dot1

-- Those of IEEE 802.3. The powers of the extended element are results of `doubleToPowerValue`.
pub data Dot3 : Type 0 where
  mac_phy_status : Bool → Bool → ℕ → ℕ → Dot3
  basic_power_via_mdi : Bool → Bool → Bool → Bool → ℕ → ℕ → Dot3
  dll_ext_power_via_mdi : Bool → Bool → Bool → Bool → ℕ → ℕ → ℕ → ℕ → ℕ → ℕ → ℕ → ℕ → Dot3
  max_frame_size : ℕ → Dot3
  eee : ℕ → ℕ → ℕ → ℕ → ℕ → Dot3
  eee_fast_wake : ℕ → ℕ → ℕ → ℕ → Dot3

-- Those of PROFINET.
pub data Pno : Type 0 where
  pn_delay : ℕ → ℕ → ℕ → ℕ → ℕ → Pno
  pn_port_status : ℕ → ℕ → Bool → Bool → Bool → Pno
  pn_alias : Bytes → Pno
  pn_mrp_port_status : Bytes → ℕ → Pno
  pn_chassis_mac : Bytes → Pno
  pn_ptcp_status : Bytes → Bytes → Bytes → ℕ × Bool → ℕ × Bool → ℕ × Bool → ℕ × Bool → Pno
  pn_mautype_extension : ℕ → Pno
  pn_mrp_interconnect_port_status : ℕ → ℕ → ℕ → Pno
  pn_nme_domain_uuid pn_nme_name_uuid pn_nme_parameter_uuid : Bytes → Pno
  pn_nme_management_addr : ℕ → Bytes → Pno

pub data Tlv : Type 0 where
  basic : Basic → Tlv
  dot1 : Dot1 → Tlv
  dot3 : Dot3 → Tlv
  pno : Pno → Tlv
  raw : ℕ → Bytes → Tlv
  oui : Bytes → ℕ → Bytes → Tlv
  end : Tlv

-- The types of the elements.
abbrev pub basic_type : Basic → ℕ
basic_type (chassis_id subtype id) = 1
basic_type (port_id subtype id) = 2
basic_type (ttl t) = 3
basic_type (port_description d) = 4
basic_type (system_name n) = 5
basic_type (system_description d) = 6
basic_type (system_capabilities system enabled) = 7
basic_type (management_address subtype address if_subtype if_number oid) = 8

abbrev pub type_of : Tlv → ℕ
type_of (basic t) = basic_type t
type_of (raw type value) = type
type_of end = 0
type_of _ = 127

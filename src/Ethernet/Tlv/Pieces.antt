-- ===== src/Ethernet/Tlv/Pieces.antt =====
-- What the `add` functions of src/packets/lldppacket.cpp append to the fixed arrays of
-- src/common/bytearray.hpp. The fields of bits do not overlap, so their `|` is a sum.
use tcppump.Common.{
  ℕ, ◌+◌, ◌*◌, ◌/◌, ◌%◌, ◌^◌, Bool, List, [], ◌∷◌, ◌++◌, Option, none, some, ltb, if◌then◌else◌,
  length, Bytes, be16, be32,
}
use tcppump.Ethernet.Tlv.Elements.{
  Basic, Dot1, Dot3, Pno, Tlv, chassis_id, port_id, ttl, port_description, system_name,
  system_description, system_capabilities, management_address, port_vid, protocol_vid, vlan_name,
  protocol_identity, vid_usage_digest, management_vid, link_aggregation, congestion_notification,
  ets_config, ets_recommendation, pfc_ctrl_config, application_priority, evb, cdcp,
  application_vlan, mac_phy_status, basic_power_via_mdi, dll_ext_power_via_mdi, max_frame_size, eee,
  eee_fast_wake, pn_delay, pn_port_status, pn_alias, pn_mrp_port_status, pn_chassis_mac,
  pn_ptcp_status, pn_mautype_extension, pn_mrp_interconnect_port_status, pn_nme_domain_uuid,
  pn_nme_name_uuid, pn_nme_parameter_uuid, pn_nme_management_addr, basic, dot1, dot3, pno, raw, oui,
  end,
}

-- The capacity is given at first, and an `append` that exceeds it is the exception std::out_of_range.
unfoldable pub fill : ℕ → Bytes → List Bytes → Option Bytes
fill capacity bytes [] = some bytes
fill capacity bytes (p ∷ ps) =
    let rest = fill capacity (bytes ++ p) ps in
    if ltb capacity (length bytes + length p) then none else rest

abbrev pub be64 : ℕ → Bytes
be64 n = be32 (n / 2 ^ 32 % 2 ^ 32) ++ be32 (n % 2 ^ 32)

abbrev pub bit : Bool → ℕ → ℕ
bit b weight = if b then weight else 0

abbrev pub oid_802_1 : Bytes
oid_802_1 = 0x00 ∷ 0x80 ∷ 0xc2 ∷ []

abbrev pub oid_802_3 : Bytes
oid_802_3 = 0x00 ∷ 0x12 ∷ 0x0f ∷ []

abbrev pub oid_pno : Bytes
oid_pno = 0x00 ∷ 0x0e ∷ 0xcf ∷ []

-- What is appended, in order; a number of one byte is a piece of its own.
abbrev pub basic_pieces : Basic → List Bytes
basic_pieces (chassis_id subtype id) = (subtype ∷ []) ∷ id ∷ []
basic_pieces (port_id subtype id) = (subtype ∷ []) ∷ id ∷ []
basic_pieces (ttl t) = be16 t ∷ []
basic_pieces (port_description d) = d ∷ []
basic_pieces (system_name n) = n ∷ []
basic_pieces (system_description d) = d ∷ []
basic_pieces (system_capabilities system enabled) = be16 system ∷ be16 enabled ∷ []
basic_pieces (management_address subtype address if_subtype if_number oid) =
    ((length address + 1) % 256 ∷ [])
    ∷ (subtype ∷ [])
    ∷ address
    ∷ (if_subtype ∷ [])
    ∷ be32 if_number
    ∷ (length oid ∷ [])
    ∷ oid
    ∷ []

abbrev pub application_priorities : Bytes → Bytes → List ℕ → List Bytes
application_priorities (p ∷ prio) (s ∷ sel) (t ∷ proto) =
    ((p % 8 * 32 + s % 8) ∷ []) ∷ be16 t ∷ application_priorities prio sel proto
application_priorities _ _ _ = []

abbrev pub channels : List (ℕ × ℕ) → List Bytes
channels [] = []
channels ((scid, svid) ∷ rest) =
    (scid / 16 % 256 ∷ [])
    ∷ ((scid % 16 * 16 + svid / 256 % 16) ∷ [])
    ∷ (svid % 256 ∷ [])
    ∷ channels rest

abbrev pub application_vlans : List ℕ → Bytes → List ℕ → List Bytes
application_vlans (v ∷ vid) (s ∷ sel) (t ∷ proto) =
    be32 (v % 2 ^ 12 * 2 ^ 20 + s % 8 * 2 ^ 16 + t) ∷ application_vlans vid sel proto
application_vlans _ _ _ = []

abbrev pub dot1_pieces : Dot1 → List Bytes
dot1_pieces (port_vid pvid) = oid_802_1 ∷ (1 ∷ []) ∷ be16 pvid ∷ []
dot1_pieces (protocol_vid ppvid supported enabled) =
    oid_802_1 ∷ (2 ∷ []) ∷ ((bit supported 2 + bit enabled 4) ∷ []) ∷ be16 ppvid ∷ []
dot1_pieces (vlan_name vid name) = oid_802_1 ∷ (3 ∷ []) ∷ be16 vid ∷ (length name ∷ []) ∷ name ∷ []
dot1_pieces (protocol_identity protocol) =
    oid_802_1 ∷ (4 ∷ []) ∷ (length protocol ∷ []) ∷ protocol ∷ []
dot1_pieces (vid_usage_digest digest) = oid_802_1 ∷ (5 ∷ []) ∷ be32 digest ∷ []
dot1_pieces (management_vid vid) = oid_802_1 ∷ (6 ∷ []) ∷ be16 vid ∷ []
dot1_pieces (link_aggregation capability status port_type port) =
    oid_802_1
    ∷ (7 ∷ [])
    ∷ ((bit capability 1 + bit status 2 + port_type % 4 * 4) ∷ [])
    ∷ be32 port
    ∷ []
dot1_pieces (congestion_notification cnpv ready) =
    oid_802_1 ∷ (8 ∷ []) ∷ (cnpv ∷ []) ∷ (ready ∷ []) ∷ []
dot1_pieces (ets_config willing cbs max_tcs prio_table bandwidth assignment) =
    oid_802_1
    ∷ (9 ∷ [])
    ∷ ((bit willing 0x80 + bit cbs 0x40 + max_tcs % 8) ∷ [])
    ∷ be32 prio_table
    ∷ be64 bandwidth
    ∷ be64 assignment
    ∷ []
dot1_pieces (ets_recommendation prio_table bandwidth assignment) =
    oid_802_1 ∷ (10 ∷ []) ∷ (0 ∷ []) ∷ be32 prio_table ∷ be64 bandwidth ∷ be64 assignment ∷ []
dot1_pieces (pfc_ctrl_config willing mbc classes enable) =
    oid_802_1
    ∷ (11 ∷ [])
    ∷ ((bit willing 0x80 + bit mbc 0x40 + classes % 16) ∷ [])
    ∷ (enable ∷ [])
    ∷ []
dot1_pieces (application_priority prio sel proto) =
    oid_802_1 ∷ (12 ∷ []) ∷ (0 ∷ []) ∷ application_priorities prio sel proto
dot1_pieces (evb bridge station r rte mode rol_rwd rwd rol_rka rka) =
    oid_802_1
    ∷ (13 ∷ [])
    ∷ (bridge ∷ [])
    ∷ (station ∷ [])
    ∷ ((r % 8 * 32 + rte % 32) ∷ [])
    ∷ ((mode % 4 * 64 + bit rol_rwd 0x20 + rwd % 32) ∷ [])
    ∷ ((bit rol_rka 0x20 + rka % 32) ∷ [])
    ∷ []
dot1_pieces (cdcp role s_comp chn_cap scid_svid) =
    oid_802_1
    ∷ (14 ∷ [])
    ∷ ((bit role 0x80 + bit s_comp 8) ∷ [])
    ∷ (0 ∷ [])
    ∷ (chn_cap / 256 % 16 ∷ [])
    ∷ (chn_cap % 256 ∷ [])
    ∷ channels scid_svid
dot1_pieces (application_vlan vid sel proto) =
    oid_802_1 ∷ (16 ∷ []) ∷ application_vlans vid sel proto

abbrev pub dot3_pieces : Dot3 → List Bytes
dot3_pieces (mac_phy_status sup status adv_cap mau_type) =
    oid_802_3 ∷ (1 ∷ []) ∷ ((bit sup 1 + bit status 2) ∷ []) ∷ be16 adv_cap ∷ be16 mau_type ∷ []
dot3_pieces (basic_power_via_mdi port_class supported state pairs pair power_class) =
    oid_802_3
    ∷ (2 ∷ [])
    ∷ ((bit port_class 1 + bit supported 2 + bit state 4 + bit pairs 8) ∷ [])
    ∷ (pair ∷ [])
    ∷ (power_class ∷ [])
    ∷ []
dot3_pieces
      (dll_ext_power_via_mdi port_class supported state pairs pair power_class type source pd4pid
        prio requested allocated) =
    oid_802_3
    ∷ (2 ∷ [])
    ∷ ((bit port_class 1 + bit supported 2 + bit state 4 + bit pairs 8) ∷ [])
    ∷ (pair ∷ [])
    ∷ (power_class ∷ [])
    ∷ ((type % 4 * 64 + source % 4 * 16 + pd4pid % 2 * 4 + prio % 4) ∷ [])
    ∷ be16 requested
    ∷ be16 allocated
    ∷ []
dot3_pieces (max_frame_size size) = oid_802_3 ∷ (4 ∷ []) ∷ be16 size ∷ []
dot3_pieces (eee tx rx fb echo_tx echo_rx) =
    oid_802_3 ∷ (5 ∷ []) ∷ be16 tx ∷ be16 rx ∷ be16 fb ∷ be16 echo_tx ∷ be16 echo_rx ∷ []
dot3_pieces (eee_fast_wake tx rx echo_tx echo_rx) =
    oid_802_3 ∷ (6 ∷ []) ∷ (tx ∷ []) ∷ (rx ∷ []) ∷ (echo_tx ∷ []) ∷ (echo_rx ∷ []) ∷ []

abbrev pub with_valid : ℕ × Bool → ℕ
with_valid (begin, valid) = if valid then 2 ^ 31 + begin % 2 ^ 31 else begin

abbrev pub pno_pieces : Pno → List Bytes
pno_pieces (pn_delay rx_local rx_remote tx_local tx_remote cable) =
    oid_pno
    ∷ (1 ∷ [])
    ∷ be32 rx_local
    ∷ be32 rx_remote
    ∷ be32 tx_local
    ∷ be32 tx_remote
    ∷ be32 cable
    ∷ []
pno_pieces (pn_port_status rtc2 rtc3 frag short_preamp optimized) =
    oid_pno
    ∷ (2 ∷ [])
    ∷ be16 rtc2
    ∷ be16 (rtc3 % 8 + bit frag 0x1000 + bit short_preamp 0x2000 + bit optimized 0x8000)
    ∷ []
pno_pieces (pn_alias name) = oid_pno ∷ (3 ∷ []) ∷ name ∷ []
pno_pieces (pn_mrp_port_status uuid state) = oid_pno ∷ (4 ∷ []) ∷ uuid ∷ be16 (state % 4) ∷ []
pno_pieces (pn_chassis_mac mac) = oid_pno ∷ (5 ∷ []) ∷ mac ∷ []
pno_pieces (pn_ptcp_status mac subdomain irdata period red orange green) =
    oid_pno
    ∷ (6 ∷ [])
    ∷ mac
    ∷ subdomain
    ∷ irdata
    ∷ be32 (with_valid period)
    ∷ be32 (with_valid red)
    ∷ be32 (with_valid orange)
    ∷ be32 (with_valid green)
    ∷ []
pno_pieces (pn_mautype_extension mautype) = oid_pno ∷ (7 ∷ []) ∷ be16 mautype ∷ []
pno_pieces (pn_mrp_interconnect_port_status domain role position) =
    oid_pno ∷ (8 ∷ []) ∷ be16 domain ∷ be16 role ∷ be16 position ∷ []
pno_pieces (pn_nme_domain_uuid uuid) = oid_pno ∷ (9 ∷ []) ∷ uuid ∷ []
pno_pieces (pn_nme_name_uuid uuid) = oid_pno ∷ (11 ∷ []) ∷ uuid ∷ []
pno_pieces (pn_nme_parameter_uuid uuid) = oid_pno ∷ (12 ∷ []) ∷ uuid ∷ []
pno_pieces (pn_nme_management_addr subtype address) =
    (length address ∷ []) ∷ (subtype ∷ []) ∷ address ∷ []

abbrev pub pieces : Tlv → List Bytes
pieces (basic t) = basic_pieces t
pieces (dot1 t) = dot1_pieces t
pieces (dot3 t) = dot3_pieces t
pieces (pno t) = pno_pieces t
pieces (raw type value) = value ∷ []
pieces (oui oid subtype value) = oid ∷ (subtype ∷ []) ∷ value ∷ []
pieces end = (0 ∷ []) ∷ []

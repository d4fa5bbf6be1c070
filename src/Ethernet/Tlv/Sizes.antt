-- ===== src/Ethernet/Tlv/Sizes.antt =====
-- The sizes of the arrays that the `add` functions of src/packets/lldppacket.cpp make, and their guards.
use tcppump.Common.{ℕ, ◌+◌, ◌*◌, Bool, not, ◌||◌, ◌==◌, false, ltb, length}
use tcppump.Ethernet.Tlv.Elements.{
  Basic, Dot1, Dot3, Pno, Tlv, chassis_id, port_id, ttl, port_description, system_name,
  system_description, system_capabilities, management_address, port_vid, protocol_vid, vlan_name,
  protocol_identity, vid_usage_digest, management_vid, link_aggregation, congestion_notification,
  ets_config, ets_recommendation, pfc_ctrl_config, application_priority, evb, cdcp,
  application_vlan, mac_phy_status, basic_power_via_mdi, dll_ext_power_via_mdi, max_frame_size, eee,
  eee_fast_wake, pn_delay, pn_port_status, pn_alias, pn_mrp_port_status, pn_chassis_mac,
  pn_ptcp_status, pn_mautype_extension, pn_mrp_interconnect_port_status, pn_nme_domain_uuid,
  pn_nme_name_uuid, pn_nme_parameter_uuid, pn_nme_management_addr, basic, dot1, dot3, pno, raw, oui,
  end,
}

-- The BUG_ON that the `add` functions begin with.
abbrev pub bug_on : Tlv → Bool
bug_on (dot1 (application_priority prio sel proto)) =
    not (length prio == length sel) || not (length prio == length proto)
bug_on (dot1 (application_vlan vid sel proto)) =
    not (length vid == length sel) || not (length sel == length proto)
bug_on (raw type value) = ltb 511 (length value)
bug_on (oui oid subtype value) = ltb 507 (length value)
bug_on _ = false

-- `tlvLen`, the capacity of the array. A UUID has 16 bytes, a MAC address 6.
abbrev pub basic_tlv_len : Basic → ℕ
basic_tlv_len (chassis_id subtype id) = length id + 1
basic_tlv_len (port_id subtype id) = length id + 1
basic_tlv_len (ttl t) = 2
basic_tlv_len (port_description d) = length d
basic_tlv_len (system_name n) = length n
basic_tlv_len (system_description d) = length d
basic_tlv_len (system_capabilities system enabled) = 4
basic_tlv_len (management_address subtype address if_subtype if_number oid) =
    1 + 1 + length address + 1 + 4 + 1 + length oid

abbrev pub dot1_tlv_len : Dot1 → ℕ
dot1_tlv_len (port_vid pvid) = 2 + 3 + 1
dot1_tlv_len (protocol_vid ppvid supported enabled) = 3 + 1 + 1 + 2
dot1_tlv_len (vlan_name vid name) = 3 + 1 + 2 + 1 + length name
dot1_tlv_len (protocol_identity protocol) = 3 + 1 + 1 + length protocol
dot1_tlv_len (vid_usage_digest digest) = 3 + 1 + 4
dot1_tlv_len (management_vid vid) = 2 + 3 + 1
dot1_tlv_len (link_aggregation capability status port_type port) = 1 + 4 + 3 + 1
dot1_tlv_len (congestion_notification cnpv ready) = 1 + 1 + 3 + 1
dot1_tlv_len (ets_config willing cbs max_tcs prio_table bandwidth assignment) =
    3 + 1 + 1 + 4 + 8 + 8
dot1_tlv_len (ets_recommendation prio_table bandwidth assignment) = 3 + 1 + 1 + 4 + 8 + 8
dot1_tlv_len (pfc_ctrl_config willing mbc classes enable) = 3 + 1 + 1 + 1
dot1_tlv_len (application_priority prio sel proto) = 3 + 1 + 1 + length prio * 3
dot1_tlv_len (evb bridge station r rte mode rol_rwd rwd rol_rka rka) = 3 + 1 + 5
dot1_tlv_len (cdcp role s_comp chn_cap scid_svid) = 3 + 1 + 4 + length scid_svid * 3
dot1_tlv_len (application_vlan vid sel proto) = 3 + 1 + length vid * 4

abbrev pub dot3_tlv_len : Dot3 → ℕ
dot3_tlv_len (mac_phy_status sup status adv_cap mau_type) = 3 + 1 + 1 + 2 + 2
dot3_tlv_len (basic_power_via_mdi port_class supported state pairs pair power_class) = 3 + 1 + 3
dot3_tlv_len
      (dll_ext_power_via_mdi port_class supported state pairs pair power_class type source pd4pid
        prio requested allocated) =
    3 + 1 + 3 + 5
dot3_tlv_len (max_frame_size size) = 3 + 1 + 2
dot3_tlv_len (eee tx rx fb echo_tx echo_rx) = 3 + 1 + 2 + 2 + 2 + 2 + 2
dot3_tlv_len (eee_fast_wake tx rx echo_tx echo_rx) = 3 + 1 + 4

abbrev pub pno_tlv_len : Pno → ℕ
pno_tlv_len (pn_delay rx_local rx_remote tx_local tx_remote cable) = 3 + 1 + 4 + 4 + 4 + 4 + 4
pno_tlv_len (pn_port_status rtc2 rtc3 frag short_preamp optimized) = 3 + 1 + 2 + 2
pno_tlv_len (pn_alias name) = 3 + 1 + length name
pno_tlv_len (pn_mrp_port_status uuid state) = 3 + 1 + 16 + 2
pno_tlv_len (pn_chassis_mac mac) = 3 + 1 + 6
pno_tlv_len (pn_ptcp_status mac subdomain irdata period red orange green) =
    3 + 1 + 6 + 2 * 16 + 4 * 4
pno_tlv_len (pn_mautype_extension mautype) = 3 + 1 + 2
pno_tlv_len (pn_mrp_interconnect_port_status domain role position) = 3 + 1 + 2 + 2 + 2
pno_tlv_len (pn_nme_domain_uuid uuid) = 3 + 1 + 16
pno_tlv_len (pn_nme_name_uuid uuid) = 3 + 1 + 16
pno_tlv_len (pn_nme_parameter_uuid uuid) = 3 + 1 + 16
pno_tlv_len (pn_nme_management_addr subtype address) = 3 + 1 + length address

abbrev pub tlv_len : Tlv → ℕ
tlv_len (basic t) = basic_tlv_len t
tlv_len (dot1 t) = dot1_tlv_len t
tlv_len (dot3 t) = dot3_tlv_len t
tlv_len (pno t) = pno_tlv_len t
tlv_len (raw type value) = length value
tlv_len (oui oid subtype value) = length value + 3 + 1
tlv_len end = 1

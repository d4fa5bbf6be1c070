-- ===== src/Ethernet/Lldp/Values.antt =====
-- The arrays of the elements have room for what is appended to them.
use tcppump.Common.{
  ◌*◌, not, ◌||◌, ◌==◌, ==_iff, ℕ, ◌+◌, ◌%◌, ◌≤◌, ◌≡◌, refl, ap, ◌∙◌, sym, arith, false, List, [],
  ◌∷◌, ◌++◌, append_assoc, append-nil, some, be16, be32, le→ltb_false, length, length-append, Bytes,
}
use tcppump.Ethernet.Lldp.{Tlvs, add, pushed}
use tcppump.Ethernet.Tlv.{
  fill, bug_on, type_of, tlv_len, pieces, basic_pieces, basic_tlv_len, dot1_pieces, dot1_tlv_len,
  dot3_pieces, dot3_tlv_len, pno_pieces, pno_tlv_len, application_priorities, channels,
  application_vlans, with_valid, Basic, Dot1, Dot3, Pno, Tlv, chassis_id, port_id, ttl,
  port_description, system_name, system_description, system_capabilities, management_address,
  port_vid, protocol_vid, vlan_name, protocol_identity, vid_usage_digest, management_vid,
  link_aggregation, congestion_notification, ets_config, ets_recommendation, pfc_ctrl_config,
  application_priority, evb, cdcp, application_vlan, mac_phy_status, basic_power_via_mdi,
  dll_ext_power_via_mdi, max_frame_size, eee, eee_fast_wake, pn_delay, pn_port_status, pn_alias,
  pn_mrp_port_status, pn_chassis_mac, pn_ptcp_status, pn_mautype_extension,
  pn_mrp_interconnect_port_status, pn_nme_domain_uuid, pn_nme_name_uuid, pn_nme_parameter_uuid,
  pn_nme_management_addr, basic, dot1, dot3, pno, raw, oui, end,
}

abbrev pub concat : List Bytes → Bytes
concat [] = []
concat (p ∷ ps) = p ++ concat ps

fill-concat :
    (capacity : ℕ) (bytes : Bytes) (ps : List Bytes)
    → length bytes + length (concat ps) ≤ capacity
    → fill capacity bytes ps ≡ some (bytes ++ concat ps)
unfolding fill
fill-concat capacity bytes [] h = ap some (sym (append-nil bytes))
fill-concat capacity bytes (p ∷ ps) h =
    rw
      (le→ltb_false capacity (length bytes + length p)
        (omega (arith, h, length-append p (concat ps))))
      (fill-concat capacity (bytes ++ p) ps
          (omega (arith, h, length-append bytes p, length-append p (concat ps)))
        ∙ ap some (append_assoc bytes p (concat ps)))

-- UUIDs and MAC addresses have their sizes.
abbrev pub HasUuids : Pno → Type 0
HasUuids (pn_mrp_port_status uuid state) = length uuid ≡ 16
HasUuids (pn_chassis_mac mac) = length mac ≡ 6
HasUuids (pn_ptcp_status mac subdomain irdata period red orange green) =
    (length mac ≡ 6) × (length subdomain ≡ 16) × (length irdata ≡ 16)
HasUuids (pn_nme_domain_uuid uuid) = length uuid ≡ 16
HasUuids (pn_nme_name_uuid uuid) = length uuid ≡ 16
HasUuids (pn_nme_parameter_uuid uuid) = length uuid ≡ 16
HasUuids _ = Unit

-- The lists of one table have the same length.
abbrev pub HasLengths : Dot1 → Type 0
HasLengths (application_priority prio sel proto) =
    (length prio ≡ length sel) × (length prio ≡ length proto)
HasLengths (application_vlan vid sel proto) =
    (length vid ≡ length sel) × (length sel ≡ length proto)
HasLengths _ = Unit

-- An organisation has three bytes, and the element at most 511.
abbrev pub HasSizes : Tlv → Type 0
HasSizes (dot1 t) = HasLengths t
HasSizes (pno t) = HasUuids t
HasSizes (raw type value) = length value ≤ 511
HasSizes (oui oid subtype value) = (length oid ≡ 3) × (length value ≤ 507)
HasSizes _ = Unit

basic-le : (t : Basic) → length (concat (basic_pieces t)) ≤ basic_tlv_len t
basic-le (chassis_id subtype id) = omega (arith, length-append id [])
basic-le (port_id subtype id) = omega (arith, length-append id [])
basic-le (ttl t) = omega arith
basic-le (port_description d) = omega (arith, length-append d [])
basic-le (system_name n) = omega (arith, length-append n [])
basic-le (system_description d) = omega (arith, length-append d [])
basic-le (system_capabilities system enabled) = omega arith
basic-le (management_address subtype address if_subtype if_number oid) = omega (
  arith,
  length-append address (if_subtype ∷ be32 if_number ++ (length oid ∷ oid ++ [])),
  length-append oid [],
)

priorities-le :
    (prio sel : Bytes) (proto : List ℕ)
    → length (concat (application_priorities prio sel proto)) ≤ length prio * 3
priorities-le [] sel proto = omega arith
priorities-le (p ∷ prio) [] proto = omega arith
priorities-le (p ∷ prio) (s ∷ sel) [] = omega arith
priorities-le (p ∷ prio) (s ∷ sel) (t ∷ proto) = omega (arith, priorities-le prio sel proto)

channels-le : (l : List (ℕ × ℕ)) → length (concat (channels l)) ≤ length l * 3
channels-le [] = omega arith
channels-le ((scid, svid) ∷ l) = omega (arith, channels-le l)

vlans-le :
    (vid : List ℕ) (sel : Bytes) (proto : List ℕ)
    → length (concat (application_vlans vid sel proto)) ≤ length vid * 4
vlans-le [] sel proto = omega arith
vlans-le (v ∷ vid) [] proto = omega arith
vlans-le (v ∷ vid) (s ∷ sel) [] = omega arith
vlans-le (v ∷ vid) (s ∷ sel) (t ∷ proto) = omega (arith, vlans-le vid sel proto)

dot1-le : (t : Dot1) → length (concat (dot1_pieces t)) ≤ dot1_tlv_len t
dot1-le (port_vid pvid) = omega arith
dot1-le (protocol_vid ppvid supported enabled) = omega arith
dot1-le (vlan_name vid name) = omega (arith, length-append name [])
dot1-le (protocol_identity protocol) = omega (arith, length-append protocol [])
dot1-le (vid_usage_digest digest) = omega arith
dot1-le (management_vid vid) = omega arith
dot1-le (link_aggregation capability status port_type port) = omega arith
dot1-le (congestion_notification cnpv ready) = omega arith
dot1-le (ets_config willing cbs max_tcs prio_table bandwidth assignment) = omega arith
dot1-le (ets_recommendation prio_table bandwidth assignment) = omega arith
dot1-le (pfc_ctrl_config willing mbc classes enable) = omega arith
dot1-le (application_priority prio sel proto) = omega (arith, priorities-le prio sel proto)
dot1-le (evb bridge station r rte mode rol_rwd rwd rol_rka rka) = omega arith
dot1-le (cdcp role s_comp chn_cap scid_svid) = omega (arith, channels-le scid_svid)
dot1-le (application_vlan vid sel proto) = omega (arith, vlans-le vid sel proto)

dot3-le : (t : Dot3) → length (concat (dot3_pieces t)) ≤ dot3_tlv_len t
dot3-le (mac_phy_status sup status adv_cap mau_type) = omega arith
dot3-le (basic_power_via_mdi port_class supported state pairs pair power_class) = omega arith
dot3-le
      (dll_ext_power_via_mdi port_class supported state pairs pair power_class type source pd4pid
        prio requested allocated) =
    omega arith
dot3-le (max_frame_size size) = omega arith
dot3-le (eee tx rx fb echo_tx echo_rx) = omega arith
dot3-le (eee_fast_wake tx rx echo_tx echo_rx) = omega arith

pno-le : (t : Pno) → HasUuids t → length (concat (pno_pieces t)) ≤ pno_tlv_len t
pno-le (pn_delay rx_local rx_remote tx_local tx_remote cable) h = omega arith
pno-le (pn_port_status rtc2 rtc3 frag short_preamp optimized) h = omega arith
pno-le (pn_alias name) h = omega (arith, length-append name [])
pno-le (pn_mrp_port_status uuid state) h =
    omega (arith, length-append uuid (be16 (state % 4) ++ []), h)
pno-le (pn_chassis_mac mac) h = omega (arith, length-append mac [], h)
pno-le (pn_ptcp_status mac subdomain irdata period red orange green) h =
    let tail = concat (
      be32 (with_valid period)
      ∷ be32 (with_valid red)
      ∷ be32 (with_valid orange)
      ∷ be32 (with_valid green)
      ∷ []) in
    omega (
      arith,
      length-append mac (subdomain ++ (irdata ++ tail)),
      length-append subdomain (irdata ++ tail),
      length-append irdata tail,
      h.0,
      h.1,
      h.2,
    )
pno-le (pn_mautype_extension mautype) h = omega arith
pno-le (pn_mrp_interconnect_port_status domain role position) h = omega arith
pno-le (pn_nme_domain_uuid uuid) h = omega (arith, length-append uuid [], h)
pno-le (pn_nme_name_uuid uuid) h = omega (arith, length-append uuid [], h)
pno-le (pn_nme_parameter_uuid uuid) h = omega (arith, length-append uuid [], h)
pno-le (pn_nme_management_addr subtype address) h = omega (arith, length-append address [])

pieces-le : (t : Tlv) → HasSizes t → length (concat (pieces t)) ≤ tlv_len t
pieces-le (basic t) h = basic-le t
pieces-le (dot1 t) h = dot1-le t
pieces-le (dot3 t) h = dot3-le t
pieces-le (pno t) h = pno-le t h
pieces-le (raw type value) h = omega (arith, length-append value [])
pieces-le (oui oid subtype value) h =
    omega (arith, length-append oid (subtype ∷ value ++ []), length-append value [], h.0)
pieces-le end h = omega arith

same-lengths : (a b c d : ℕ) → a ≡ b → c ≡ d → (not (a == b) || not (c == d)) ≡ false
same-lengths a b c d h k = rw ((==_iff a b).1 h, (==_iff c d).1 k) refl

dot1-false : (t : Dot1) → HasLengths t → bug_on (dot1 t) ≡ false
dot1-false (port_vid pvid) h = refl
dot1-false (protocol_vid ppvid supported enabled) h = refl
dot1-false (vlan_name vid name) h = refl
dot1-false (protocol_identity protocol) h = refl
dot1-false (vid_usage_digest digest) h = refl
dot1-false (management_vid vid) h = refl
dot1-false (link_aggregation capability status port_type port) h = refl
dot1-false (congestion_notification cnpv ready) h = refl
dot1-false (ets_config willing cbs max_tcs prio_table bandwidth assignment) h = refl
dot1-false (ets_recommendation prio_table bandwidth assignment) h = refl
dot1-false (pfc_ctrl_config willing mbc classes enable) h = refl
dot1-false (application_priority prio sel proto) h =
    same-lengths (length prio) (length sel) (length prio) (length proto) h.0 h.1
dot1-false (evb bridge station r rte mode rol_rwd rwd rol_rka rka) h = refl
dot1-false (cdcp role s_comp chn_cap scid_svid) h = refl
dot1-false (application_vlan vid sel proto) h =
    same-lengths (length vid) (length sel) (length sel) (length proto) h.0 h.1

bug_on-false : (t : Tlv) → HasSizes t → bug_on t ≡ false
bug_on-false (basic t) h = refl
bug_on-false (dot1 t) h = dot1-false t h
bug_on-false (dot3 t) h = refl
bug_on-false (pno t) h = refl
bug_on-false (raw type value) h = le→ltb_false 511 (length value) h
bug_on-false (oui oid subtype value) h = le→ltb_false 507 (length value) h.1
bug_on-false end h = refl

-- No `add` function exceeds the array that it makes: the element is put behind the others, with its type
-- and all that is appended to its value, where UUIDs, MAC addresses and organisations have their sizes,
-- raw elements are not longer than the BUG_ON allows, and the columns of a table have the same length.
pub add-appends :
    (tlvs : Tlvs) (t : Tlv)
    → HasSizes t
    → add tlvs t ≡ some (tlvs ++ (type_of t, concat (pieces t)) ∷ [])
unfolding add
add-appends tlvs t h = rw (bug_on-false t h) (
    ap (pushed tlvs (type_of t))
      (fill-concat (tlv_len t) [] (pieces t) (omega (arith, pieces-le t h))))

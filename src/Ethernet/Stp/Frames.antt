-- ===== src/Ethernet/Stp/Frames.antt =====
-- The frames of the spanning tree protocols, byte by byte.
use tcppump.Common.{
  ℕ, ◌+◌, ◌*◌, ◌/◌, ◌%◌, ◌^◌, ◌≤◌, ◌<◌, ◌≡◌, refl, ap, ◌∙◌, arith, [], ◌∷◌, ◌++◌, Bytes, be16, be32,
  length, length-append, ok,
}
use tcppump.Ethernet.{EthernetPacket, frame, set_dest_mac, set_length}
use tcppump.Ethernet.Layout.{Parts, HasParts, frame-content}
use tcppump.Ethernet.Layout.Headers.{set_dest_mac-parts, set_length-parts}
use tcppump.Ethernet.Layout.Payload.{set_payload-parts}
use tcppump.Ethernet.Compile.Llc.{add_llc_header-Builds}
use tcppump.Ethernet.Stp.Message.{
  message, config_flags, rapid_flags, bpdu_bytes-message, stp_flags-config, rstp_flags-rapid,
}
use tcppump.Ethernet.Stp.{
  ConfigPdu, bridge_id, port_id, to_time, bpdu_bytes, stp_flags, rstp_flags, stp_mac,
  prepare_mac_header, emit, compile_config_pdu, compile_config_pdu_rstp, compile_tcn_pdu,
}

-- The frame around a message: the multicast address, the length, and the LLC header of the protocol.
abbrev pub stp_frame : Bytes → Bytes → Bytes
stp_frame src bpdu =
    stp_mac ++ (src ++ (be16 ((length bpdu + 3) % 2 ^ 16) ++ (0x42 ∷ 0x42 ∷ 3 ∷ [] ++ bpdu)))

-- The size of a message in the length field.
sized :
    (src bpdu : Bytes) (n : ℕ)
    → length bpdu ≡ n
    → stp_frame src bpdu
      ≡ stp_mac ++ (src ++ (be16 ((n + 3) % 2 ^ 16) ++ (0x42 ∷ 0x42 ∷ 3 ∷ [] ++ bpdu)))
sized src bpdu n e =
    ap (λ m. stp_mac ++ (src ++ (be16 ((m + 3) % 2 ^ 16) ++ (0x42 ∷ 0x42 ∷ 3 ∷ [] ++ bpdu)))) e

length-bpdu_bytes :
    (c : ConfigPdu) (version type flags : ℕ)
    → length c.root_bridge_mac ≡ 6
    → length c.bridge_mac ≡ 6
    → length (bpdu_bytes c version type flags) ≡ 35
unfolding bpdu_bytes
length-bpdu_bytes c version type flags r b = omega (
  arith,
  r,
  b,
  length-append c.root_bridge_mac (
      be32 (c.path_cost % 2 ^ 32)
      ++ (bridge_id c.bridge_prio c.bridge_id_ext c.bridge_mac
          ++ (port_id c.port_prio c.port_number
              ++ (to_time c.msg_age
                  ++ (to_time c.max_age ++ (to_time c.hello_time ++ to_time c.forward_delay)))))),
  length-append c.bridge_mac (
      port_id c.port_prio c.port_number
      ++ (to_time c.msg_age
          ++ (to_time c.max_age ++ (to_time c.hello_time ++ to_time c.forward_delay)))),
)

module _ {p : EthernetPacket} {f : Parts} (h : HasParts p f) (no_tags : f.tags ≡ [])
    (bare : f.llc ≡ []) (empty : f.payload ≡ []) where
  emit-frame :
      (bpdu : Bytes)
      → 17 + length bpdu ≤ p.packet_max_length
      → (q : EthernetPacket) × (emit p bpdu ≡ ok q) × (frame q ≡ stp_frame f.src bpdu)
  unfolding emit prepare_mac_header set_dest_mac
  emit-frame bpdu room =
      let addressed = set_dest_mac-parts h stp_mac refl in
      let built =
        add_llc_header-Builds addressed bare 0x42 0x42 3
          (omega (arith, room, ap length no_tags, ap length bare, ap length empty)) in
      let put =
        set_payload-parts built.parts bpdu (omega (arith, room, ap length no_tags, built.max_is)) in
      let done = set_length-parts put.parts in
      (
        set_length put.result,
        rw (built.returned, put.returned) refl,
        frame-content done ∙ rw no_tags,
      )

  -- On a well-formed packet without VLAN tags, LLC header and payload, whose buffer has room for 53 bytes,
  -- the three messages give their frames, byte by byte: to 01:80:c2:00:00:00, with the length of LLC header
  -- and message in the length field, the LLC header 42 42 03 and the message of IEEE 802.1D. The RSTP
  -- message has version and type 2 and a zero behind it.
  pub stp-frames :
      (c : ConfigPdu) (port_role : ℕ)
      → length c.root_bridge_mac ≡ 6
      → length c.bridge_mac ≡ 6
      → 53 ≤ p.packet_max_length
      → ((q : EthernetPacket) × (compile_config_pdu p c ≡ ok q)
          × (frame q
              ≡ 1 ∷ 0x80 ∷ 0xc2 ∷ 0 ∷ 0 ∷ 0 ∷ []
                ++ (f.src ++ (0 ∷ 38 ∷ 0x42 ∷ 0x42 ∷ 3 ∷ message c 0 0 (config_flags c.flags)))))
        × ((q : EthernetPacket) × (compile_config_pdu_rstp p c port_role ≡ ok q)
            × (frame q
                ≡ 1 ∷ 0x80 ∷ 0xc2 ∷ 0 ∷ 0 ∷ 0 ∷ []
                  ++ (f.src
                      ++ (0
                          ∷ 39
                          ∷ 0x42
                          ∷ 0x42
                          ∷ 3
                          ∷ (message c 2 2 (rapid_flags c.flags port_role) ++ 0 ∷ [])))))
        × ((q : EthernetPacket) × (compile_tcn_pdu p ≡ ok q)
            × (frame q
                ≡ 1 ∷ 0x80 ∷ 0xc2 ∷ 0 ∷ 0 ∷ 0 ∷ []
                  ++ (f.src ++ (0 ∷ 7 ∷ 0x42 ∷ 0x42 ∷ 3 ∷ 0 ∷ 0 ∷ 0 ∷ 0x80 ∷ []))))
  unfolding compile_config_pdu compile_config_pdu_rstp compile_tcn_pdu
  stp-frames c port_role r b room =
      let config = bpdu_bytes c 0 0 (stp_flags c.flags) in
      let rstp = bpdu_bytes c 2 2 (rstp_flags c.flags port_role) in
      let config_is : config ≡ message c 0 0 (config_flags c.flags) =
        bpdu_bytes-message c 0 0 (stp_flags c.flags)
        ∙ ap (message c 0 0) (stp_flags-config c.flags) in
      let rstp_is : rstp ≡ message c 2 2 (rapid_flags c.flags port_role) =
        bpdu_bytes-message c 2 2 (rstp_flags c.flags port_role)
        ∙ ap (message c 2 2) (rstp_flags-rapid c.flags port_role) in
      let config_size : length config ≡ 35 = length-bpdu_bytes c 0 0 (stp_flags c.flags) r b in
      let rstp_size : length (rstp ++ 0 ∷ []) ≡ 36 = omega (
        arith,
        length-append rstp (0 ∷ []),
        length-bpdu_bytes c 2 2 (rstp_flags c.flags port_role) r b,
      ) in
      let (q1, e1, f1) = emit-frame config (omega (arith, config_size, room)) in
      let (q2, e2, f2) = emit-frame (rstp ++ 0 ∷ []) (omega (arith, rstp_size, room)) in
      let (q3, e3, f3) = emit-frame (0 ∷ 0 ∷ 0 ∷ 0x80 ∷ []) (omega (arith, room)) in
      (
        (
          q1,
          e1,
          f1
              ∙ sized f.src config 35 config_size
              ∙ ap (λ m. stp_mac ++ (f.src ++ (0 ∷ 38 ∷ 0x42 ∷ 0x42 ∷ 3 ∷ m))) config_is,
        ),
        (
          q2,
          e2,
          f2
              ∙ sized f.src (rstp ++ 0 ∷ []) 36 rstp_size
              ∙ ap (λ m. stp_mac ++ (f.src ++ (0 ∷ 39 ∷ 0x42 ∷ 0x42 ∷ 3 ∷ (m ++ 0 ∷ [])))) rstp_is,
        ),
        (q3, e3, f3),
      )

-- A receiver gets back from the flags of an RSTP message what `flags` and the role say: the six bits in
-- their places (IEEE 802.1D, 9.3.3), and the role of two bits.
pub rstp_flags-read :
    (flags role : ℕ)
    → flags < 64
    → role < 4
    → (rstp_flags flags role < 256)
      × (rstp_flags flags role / 2 ^ 2 % 4 ≡ role)
      × (rstp_flags flags role % 2
            + rstp_flags flags role / 2 % 2 * 2
            + rstp_flags flags role / 2 ^ 4 % 2 * 4
            + rstp_flags flags role / 2 ^ 5 % 2 * 8
            + rstp_flags flags role / 2 ^ 6 % 2 * 16
            + rstp_flags flags role / 2 ^ 7 % 2 * 32
          ≡ flags)
unfolding rstp_flags stp_flags
rstp_flags-read flags role h k = (omega arith, omega arith, omega arith)

-- ===== src/Ethernet/Stp.antt =====
-- src/packets/stppacket.hpp and src/packets/stppacket.cpp: BPDUs of the spanning tree protocols. Times are in
-- units of 1/256 seconds, as `toTime` has them before the cast.
pub mod Message
pub mod Frames
use tcppump.Common.{ℕ, ◌+◌, ◌*◌, ◌/◌, ◌%◌, ◌^◌, [], ◌∷◌, ◌++◌, Bytes, be16, be32, Result, ok, ◌>>=◌}
use tcppump.Ethernet.{EthernetPacket, set_dest_mac, add_llc_header, set_payload, set_length}

-- The fields of nibbles and bits do not overlap, so their `|` is a sum.
abbrev pub bridge_id : ℕ → ℕ → Bytes → Bytes
bridge_id prio ext mac = be16 (prio % 16 * 2 ^ 12 + ext % 2 ^ 12) ++ mac

abbrev pub port_id : ℕ → ℕ → Bytes
port_id prio number = be16 (prio % 16 * 2 ^ 12 + number % 2 ^ 16 % 2 ^ 12)

-- Whether a bit of `flags` is set, as 0 or 1.
abbrev pub topo_change : ℕ → ℕ
topo_change flags = flags % 2

abbrev pub proposal : ℕ → ℕ
proposal flags = flags / 2 % 2

abbrev pub learning : ℕ → ℕ
learning flags = flags / 4 % 2

abbrev pub forwarding : ℕ → ℕ
forwarding flags = flags / 8 % 2

abbrev pub agreement : ℕ → ℕ
agreement flags = flags / 16 % 2

abbrev pub topo_change_ack : ℕ → ℕ
topo_change_ack flags = flags / 32 % 2

-- `setStpFlags` on a field of zeros, and `setRstpFlags` on what it leaves.
unfoldable pub stp_flags : ℕ → ℕ
stp_flags flags = topo_change_ack flags * 2 ^ 7 + topo_change flags

unfoldable pub rstp_flags : ℕ → ℕ → ℕ
rstp_flags flags role =
    stp_flags flags
    + (agreement flags * 2 ^ 6
        + forwarding flags * 2 ^ 5
        + learning flags * 2 ^ 4
        + role % 4 * 2 ^ 2
        + proposal flags * 2)

-- The arguments that the two configuration messages share.
pub record ConfigPdu : Type 0 where
  pub root_bridge_prio : ℕ
  pub root_bridge_id : ℕ
  pub root_bridge_mac : Bytes
  pub path_cost : ℕ
  pub bridge_prio : ℕ
  pub bridge_id_ext : ℕ
  pub bridge_mac : Bytes
  pub port_prio : ℕ
  pub port_number : ℕ
  pub msg_age : ℕ
  pub max_age : ℕ
  pub hello_time : ℕ
  pub forward_delay : ℕ
  pub flags : ℕ

abbrev pub to_time : ℕ → Bytes
to_time t = be16 (t % 2 ^ 16)

-- The bytes of stp_bpdu_t, with its version, type and flags.
unfoldable pub bpdu_bytes : ConfigPdu → ℕ → ℕ → ℕ → Bytes
bpdu_bytes c version type flags =
    0
    ∷ 0
    ∷ version
    ∷ type
    ∷ flags
    ∷ (bridge_id c.root_bridge_prio c.root_bridge_id c.root_bridge_mac
        ++ (be32 (c.path_cost % 2 ^ 32)
            ++ (bridge_id c.bridge_prio c.bridge_id_ext c.bridge_mac
                ++ (port_id c.port_prio c.port_number
                    ++ (to_time c.msg_age
                        ++ (to_time c.max_age
                            ++ (to_time c.hello_time ++ to_time c.forward_delay)))))))

abbrev pub stp_mac : Bytes
stp_mac = 1 ∷ 0x80 ∷ 0xc2 ∷ 0 ∷ 0 ∷ 0 ∷ []

unfoldable pub prepare_mac_header : EthernetPacket → Result EthernetPacket
prepare_mac_header p = add_llc_header (set_dest_mac p stp_mac) 0x42 0x42 3

-- The steps that the three messages share around their bytes.
unfoldable pub emit : EthernetPacket → Bytes → Result EthernetPacket
emit p bpdu = prepare_mac_header p >>= λ q. set_payload q bpdu >>= λ r. ok (set_length r)

unfoldable pub compile_config_pdu : EthernetPacket → ConfigPdu → Result EthernetPacket
compile_config_pdu p c = emit p (bpdu_bytes c 0 0 (stp_flags c.flags))

-- Behind the message stands `version1Len`, which is 0.
unfoldable pub compile_config_pdu_rstp : EthernetPacket → ConfigPdu → ℕ → Result EthernetPacket
compile_config_pdu_rstp p c port_role =
    emit p (bpdu_bytes c 2 2 (rstp_flags c.flags port_role) ++ 0 ∷ [])

unfoldable pub compile_tcn_pdu : EthernetPacket → Result EthernetPacket
compile_tcn_pdu p = emit p (0 ∷ 0 ∷ 0 ∷ 0x80 ∷ [])

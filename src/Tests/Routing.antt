-- ===== src/Tests/Routing.antt =====
-- Packets of VRRP, IGMP and the spanning tree protocols (src/packets/vrrppacket.cpp,
-- src/packets/igmppacket.cpp, src/packets/stppacket.cpp) on concrete data.
use tcppump.Common.{
  none, length, some, ℕ, ◌+◌, ◌*◌, ◌/◌, ◌%◌, ◌^◌, ◌<◌, ◌≡◌, ◌≢◌, refl, arith, true, false, [], ◌∷◌,
  ◌++◌, zero, suc, Bytes, ok, write,
}
use tcppump.Ethernet.{EthernetPacket, constructed, frame}
use tcppump.Ethernet.Layout.{Parts, HasParts}
use tcppump.Ethernet.Stp.{
  ConfigPdu, rstp_flags, stp_mac, compile_config_pdu, compile_config_pdu_rstp, compile_tcn_pdu,
}
use tcppump.Ethernet.Stp.Message.{message}
use tcppump.Ethernet.Stp.Frames.{stp-frames, rstp_flags-read}
use tcppump.Ethernet.Lldp.{add, compile}
use tcppump.Ethernet.Lldp.Values.{add-appends}
use tcppump.Ethernet.Lldp.Reader.{read, compile-read}
use tcppump.Ethernet.Tlv.{
  basic, ipv4, chassis_id_of, management_address_of, nme_management_addr_of, port_id_of, cdcp,
  application_priority, dot1, pno, port_vid,
}
use tcppump.Checksum.{rfc1071, rfc1071_pair}
use tcppump.Checksum.Field.{at_even}
use tcppump.Ip.Packet.{IpPacket}
use tcppump.Transport.Igmp.{Double, float_to_time, normalise}
use tcppump.Transport.Igmp.Time.{Rounds, time_of, float_to_time-Rounds}
use tcppump.Transport.Vrrp.{VrrpPacket, set_version, set_type, addresses, summed}
use tcppump.Transport.Vrrp.Accepted.{received, with_chksum, summed_accepted}

-- 1000.5 tenths of a second: the code 0xaf, 992 for a receiver.
abbrev half_more : Double
half_more = record { numerator = 2001; denominator = 2 }

float_to_time-Rounds_example : Rounds half_more (float_to_time half_more)
float_to_time-Rounds_example = float_to_time-Rounds half_more (omega arith) (omega arith)

float_to_time_1000 : time_of (float_to_time half_more) ≡ 992
unfolding float_to_time normalise time_of
float_to_time_1000 = refl

rstp_flags-read_run :
    (rstp_flags 45 3 < 256)
    × (rstp_flags 45 3 / 2 ^ 2 % 4 ≡ 3)
    × (rstp_flags 45 3 % 2
          + rstp_flags 45 3 / 2 % 2 * 2
          + rstp_flags 45 3 / 2 ^ 4 % 2 * 4
          + rstp_flags 45 3 / 2 ^ 5 % 2 * 8
          + rstp_flags 45 3 / 2 ^ 6 % 2 * 16
          + rstp_flags 45 3 / 2 ^ 7 % 2 * 32
        ≡ 45)
rstp_flags-read_run = rstp_flags-read 45 3 (omega arith) (omega arith)

abbrev bytes_of : ℕ → ℕ → Bytes
bytes_of zero b = []
bytes_of (suc n) b = b ∷ bytes_of n b

abbrev blank_packet : EthernetPacket
blank_packet = constructed 60 (bytes_of 60 7)

abbrev blank_parts : Parts
blank_parts = record {
  dest = bytes_of 6 0;
  src = bytes_of 6 0;
  tags = [];
  kind = bytes_of 2 0;
  llc = [];
  payload = [];
  slack = bytes_of 46 7;
}

blank_packet-HasParts : HasParts blank_packet blank_parts
unfolding write
blank_packet-HasParts = record {
  in_memory = refl;
  dest_size = refl;
  src_size = refl;
  kind_size = refl;
  kind_at = refl;
  payload_at = refl;
  payload_size = refl;
  llc_size = refl;
  fits = omega arith;
  allocated = omega arith;
  addressable = omega arith;
}

abbrev config : ConfigPdu
config = record {
  root_bridge_prio = 8;
  root_bridge_id = 1;
  root_bridge_mac = bytes_of 6 2;
  path_cost = 20000;
  bridge_prio = 8;
  bridge_id_ext = 1;
  bridge_mac = bytes_of 6 4;
  port_prio = 8;
  port_number = 3;
  msg_age = 256;
  max_age = 5120;
  hello_time = 512;
  forward_delay = 3840;
  flags = 33;
}

stp-frames_example :
    ((q : EthernetPacket) × (compile_config_pdu blank_packet config ≡ ok q)
      × (frame q
          ≡ stp_mac ++ (bytes_of 6 0 ++ (0 ∷ 38 ∷ 0x42 ∷ 0x42 ∷ 3 ∷ message config 0 0 0x81))))
    × ((q : EthernetPacket) × (compile_config_pdu_rstp blank_packet config 2 ≡ ok q)
        × (frame q
            ≡ stp_mac
              ++ (bytes_of 6 0
                  ++ (0 ∷ 39 ∷ 0x42 ∷ 0x42 ∷ 3 ∷ (message config 2 2 0x89 ++ 0 ∷ [])))))
    × ((q : EthernetPacket) × (compile_tcn_pdu blank_packet ≡ ok q)
        × (frame q
            ≡ stp_mac ++ (bytes_of 6 0 ++ (0 ∷ 7 ∷ 0x42 ∷ 0x42 ∷ 3 ∷ 0 ∷ 0 ∷ 0 ∷ 0x80 ∷ []))))
stp-frames_example =
    stp-frames blank_packet-HasParts refl refl refl config 2 refl refl (omega arith)

abbrev ip : IpPacket
ip = record {
  mtu = 1500;
  first = blank_packet;
  others = [];
  dscp = 0;
  ecn = 0;
  ttl = 255;
  src_ip = 192 ∷ 168 ∷ 0 ∷ 1 ∷ [];
  dst_ip = 224 ∷ 0 ∷ 0 ∷ 18 ∷ [];
  dont_fragment = false;
  identification = 0;
  has_id = false;
  has_router_alert_option = false;
  has_chksum = false;
  chksum = 0;
}

-- Version 3, type 1.
abbrev router : VrrpPacket
router = record {
  header = record {
    vers_type = 0x31;
    vrid = 7;
    prio = 100;
    count_ip_addr = 1;
    v2v3_0 = 0;
    v2v3_1 = 100;
    chksum = 0;
  };
  vr_ips = (192 ∷ 168 ∷ 0 ∷ 254 ∷ []) ∷ [];
}

router_lem : set_type (set_version (record router.header { vers_type = 0 }) 3) 1 ≡ router.header
unfolding set_type set_version
router_lem = refl

summed_accepted_example :
    (c : ℕ) × (summed ip router true ≡ ok (with_chksum router c))
    × (0x31 / 16 % 16 ≡ 2
        → rfc1071_pair (received router.header c) (at_even (addresses router.vr_ips)) ≡ ok 0)
    × (0x31 / 16 % 16 ≢ 2
        → rfc1071
            (at_even (192 ∷ 168 ∷ 0 ∷ 1 ∷ 224 ∷ 0 ∷ 0 ∷ 18 ∷ 0 ∷ 112 ∷ 0 ∷ 12 ∷ []))
            (some (received router.header c))
            (at_even (addresses router.vr_ips))
          ≡ ok 0)
summed_accepted_example =
    summed_accepted ip router refl (ground arith) (ground arith) (omega arith) (ground arith)
      (ground arith)

abbrev chassis : ℕ × Bytes
chassis = (1, 7 ∷ 65 ∷ 66 ∷ [])

abbrev vlan : ℕ × Bytes
vlan = (127, 0x00 ∷ 0x80 ∷ 0xc2 ∷ 1 ∷ 0 ∷ 12 ∷ [])

add-appends_example : add (chassis ∷ []) (dot1 (port_vid 12)) ≡ some (chassis ∷ vlan ∷ [])
add-appends_example = add-appends (chassis ∷ []) (dot1 (port_vid 12)) tt

-- The element has no organisation and no subtype, unlike the others of its kind.
management_addr_bare :
    add [] (pno (nme_management_addr_of (ipv4 (192 ∷ 168 ∷ 0 ∷ 1 ∷ []))))
    ≡ some ((127, 4 ∷ 1 ∷ 192 ∷ 168 ∷ 0 ∷ 1 ∷ []) ∷ [])
management_addr_bare =
    add-appends [] (pno (nme_management_addr_of (ipv4 (192 ∷ 168 ∷ 0 ∷ 1 ∷ [])))) tt

compile-read_example :
    (q : EthernetPacket) × (body : Bytes) × (compile blank_packet (chassis ∷ vlan ∷ []) true ≡ ok q)
    × (frame q ≡ (1 ∷ 0x80 ∷ 0xc2 ∷ 0 ∷ 0 ∷ 0x0e ∷ []) ++ (bytes_of 6 0 ++ (0x88 ∷ 0xcc ∷ body)))
    × (read (length body) body ≡ some (chassis ∷ vlan ∷ []))
compile-read_example =
    compile-read blank_packet-HasParts refl refl refl (chassis ∷ vlan ∷ []) (ground arith)
      (omega arith)

channels_packed :
    add [] (dot1 (cdcp true false 0x167 ((0xabc, 0x123) ∷ [])))
    ≡ some ((127, 0x00 ∷ 0x80 ∷ 0xc2 ∷ 14 ∷ 0x80 ∷ 0 ∷ 1 ∷ 0x67 ∷ 0xab ∷ 0xc1 ∷ 0x23 ∷ []) ∷ [])
channels_packed = add-appends [] (dot1 (cdcp true false 0x167 ((0xabc, 0x123) ∷ []))) tt

-- A table whose columns differ in length is a BUG_ON.
uneven_priorities : add [] (dot1 (application_priority (1 ∷ []) [] (5 ∷ []))) ≡ none
unfolding add
uneven_priorities = refl

management_of_ipv4 :
    add [] (basic (management_address_of (ipv4 (10 ∷ 0 ∷ 0 ∷ 1 ∷ [])) 2 7 []))
    ≡ some ((8, 5 ∷ 1 ∷ 10 ∷ 0 ∷ 0 ∷ 1 ∷ 2 ∷ 0 ∷ 0 ∷ 0 ∷ 7 ∷ 0 ∷ []) ∷ [])
management_of_ipv4 =
    add-appends [] (basic (management_address_of (ipv4 (10 ∷ 0 ∷ 0 ∷ 1 ∷ [])) 2 7 [])) tt

chassis_of_ipv4 :
    add [] (basic (chassis_id_of (ipv4 (10 ∷ 0 ∷ 0 ∷ 1 ∷ []))))
    ≡ some ((1, 5 ∷ 1 ∷ 10 ∷ 0 ∷ 0 ∷ 1 ∷ []) ∷ [])
chassis_of_ipv4 = add-appends [] (basic (chassis_id_of (ipv4 (10 ∷ 0 ∷ 0 ∷ 1 ∷ [])))) tt

port_of_ipv4 :
    add [] (basic (port_id_of (ipv4 (10 ∷ 0 ∷ 0 ∷ 1 ∷ []))))
    ≡ some ((2, 4 ∷ 1 ∷ 10 ∷ 0 ∷ 0 ∷ 1 ∷ []) ∷ [])
port_of_ipv4 = add-appends [] (basic (port_id_of (ipv4 (10 ∷ 0 ∷ 0 ∷ 1 ∷ [])))) tt

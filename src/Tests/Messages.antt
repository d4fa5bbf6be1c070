-- ===== src/Tests/Messages.antt =====
-- Layer 4 packets (src/packets/udppacket.cpp, src/packets/tcppacket.cpp, src/packets/icmppacket.cpp,
-- src/packets/grepacket.cpp, src/packets/vxlanpacket.cpp) on concrete data.
use tcppump.Common.{
  ℕ, ◌*◌, ◌/◌, ◌%◌, ◌^◌, ◌<◌, ◌≡◌, refl, arith, true, false, [], ◌∷◌, ◌++◌, be16, none, some, ok,
}
use tcppump.Checksum.{
  Region, rfc1071, rfc1071_calc, rfc1071_finalize, calc_part, calc_bytewise, calc_wordwise,
}
use tcppump.Checksum.Field.{at_even}
use tcppump.Transport.{Endpoints, ip4, ip6, pseudo_header, calc_checksum}
use tcppump.Transport.Udp.{UdpHeader, proto_udp}
use tcppump.Transport.Tcp.{TcpHeader, proto_tcp}
use tcppump.Transport.Icmp.{
  IsAccepted, compile_raw, compile_ping, compile_with_embedded_inet, compile_redirect,
  messages-IsAccepted,
}
use tcppump.Ip.Packet.{IpPacket}
use tcppump.Ethernet.{constructed}
use tcppump.Common.{Bytes}
use tcppump.Transport.Gre.{GrePacket, new_packet, header_with}
use tcppump.Transport.GreReader.{
  with_key, with_checksum, with_protocol_type, apply_all, IsFlagged, read_gre, new_packet-IsFlagged,
  read_gre-header,
}
use tcppump.Transport.Vxlan.{new_header, set_vni, set_vni-bytes}
use tcppump.Transport.Accepted.{received_pseudo, udp_accepted, tcp_accepted}

abbrev ends : Endpoints
ends = ip4 (192 ∷ 168 ∷ 0 ∷ 1 ∷ []) (192 ∷ 168 ∷ 0 ∷ 2 ∷ [])

abbrev odd_data : Region
odd_data = record { odd_address = true; bytes = 1 ∷ 2 ∷ 3 ∷ [] }

abbrev udp_header : UdpHeader
udp_header = record { src_port = 0x0100; dst_port = 0x3500; length = 0x0b00; checksum = 0 }

abbrev tcp_header : TcpHeader
tcp_header = record {
  src_port = 0x0100;
  dst_port = 0x5000;
  seq_number = 42;
  ack_number = 0;
  data_offset = 0x50;
  flags = 2;
  window = 4;
  checksum = 0;
  urgent_ptr = 0;
}

udp_accepted_example :
    let c : ℕ = 0x4c7a in
    (0 < c)
    × (c < 65536)
    × (rfc1071
          (at_even (received_pseudo ends 17 11))
          (at_even (tcppump.Transport.Udp.header_bytes (record udp_header { checksum = c })))
          (some odd_data)
        ≡ ok 0)
unfolding calc_checksum pseudo_header tcppump.Transport.Udp.header_bytes rfc1071 calc_part
    rfc1071_calc calc_bytewise calc_wordwise rfc1071_finalize
udp_accepted_example =
    udp_accepted ends udp_header (some odd_data) (omega arith) refl (omega arith) (omega arith) refl

tcp_accepted_example :
    let c : ℕ = 0x38fc in
    (0 < c)
    × (c < 65536)
    × (rfc1071
          (at_even (received_pseudo ends 6 23))
          (at_even (tcppump.Transport.Tcp.header_bytes (record tcp_header { checksum = c })))
          (some odd_data)
        ≡ ok 0)
unfolding calc_checksum pseudo_header tcppump.Transport.Tcp.header_bytes rfc1071 calc_part
    rfc1071_calc calc_bytewise calc_wordwise rfc1071_finalize
tcp_accepted_example =
    tcp_accepted ends tcp_header (some odd_data) (omega arith) refl (omega arith) (omega arith)
      (omega arith) (omega arith) refl

abbrev ip : IpPacket
ip = record {
  mtu = 1500;
  first = constructed 60 [];
  others = [];
  dscp = 0;
  ecn = 0;
  ttl = 64;
  src_ip = 192 ∷ 168 ∷ 0 ∷ 1 ∷ [];
  dst_ip = 192 ∷ 168 ∷ 0 ∷ 2 ∷ [];
  dont_fragment = false;
  identification = 0;
  has_id = false;
  has_router_alert_option = false;
  has_chksum = false;
  chksum = 0;
}

abbrev gateway : Bytes
gateway = 192 ∷ 168 ∷ 0 ∷ 1 ∷ []

messages-IsAccepted_example :
    IsAccepted
      (λ i. [])
      0
      ip
      3
      1
      []
      (some odd_data)
      (compile_raw (λ i. []) 0 ip 3 1 (some odd_data))
    × IsAccepted
        (λ i. [])
        0
        ip
        8
        0
        (0x12 ∷ 0x34 ∷ 0 ∷ 7 ∷ [])
        (some odd_data)
        (compile_ping (λ i. []) 0 ip false 0x1234 7 (some odd_data))
    × IsAccepted
        (λ i. [])
        0
        ip
        3
        1
        (0 ∷ 0 ∷ 0 ∷ 0 ∷ [])
        (some odd_data)
        (compile_with_embedded_inet (λ i. []) 0 ip 3 1 (some odd_data))
    × IsAccepted
        (λ i. [])
        0
        ip
        5
        1
        gateway
        (some odd_data)
        (compile_redirect (λ i. []) 0 ip 1 gateway (some odd_data))
messages-IsAccepted_example =
    messages-IsAccepted (λ i. []) 0 ip 3 1 odd_data gateway false 0x1234 7 (omega arith)
      (omega arith) (omega arith) (omega arith) (omega arith) refl (omega arith)

abbrev keyed : GrePacket
keyed = record {
  flags = 0xa0;
  protocol = 0x0800;
  has_checksum = true;
  has_key = true;
  has_seq = false;
  checksum = 7;
  key = 70000;
  seq = 0;
}

read_gre-header_example :
    read_gre (header_with keyed (be16 7) ++ (1 ∷ 2 ∷ []))
    ≡ some (record {
      protocol = 0x0800;
      checksum_word = some (7 * 65536);
      key_word = some 70000;
      seq_word = none;
      content = 1 ∷ 2 ∷ [];
    })
read_gre-header_example =
    read_gre-header keyed (1 ∷ 2 ∷ []) refl (omega arith) (omega arith) (omega arith) (omega arith)

new_packet-IsFlagged_run : IsFlagged (
    apply_all new_packet
      (with_key 1 ∷ with_protocol_type 0x0800 ∷ with_checksum 2 ∷ with_key 3 ∷ []))
new_packet-IsFlagged_run =
    new_packet-IsFlagged
      (with_key 1 ∷ with_protocol_type 0x0800 ∷ with_checksum 2 ∷ with_key 3 ∷ [])

set_vni-bytes_run :
    tcppump.Transport.Vxlan.header_bytes (set_vni new_header 0x123456)
    ≡ 8 ∷ 0 ∷ 0 ∷ 0 ∷ 0x123456 / 2 ^ 16 ∷ 0x123456 / 2 ^ 8 % 256 ∷ 0x123456 % 256 ∷ 0 ∷ []
set_vni-bytes_run = set_vni-bytes 0x123456 (omega arith)

-- ===== src/Transport/Udp.antt =====
-- src/packets/udppacket.hpp and src/packets/udppacket.cpp.
use tcppump.Common.{ℕ, ◌+◌, ◌%◌, ◌^◌, ◌++◌, length, Bytes, le16, Option, Result, ok, ◌>>=◌}
use tcppump.Checksum.{Region}
use tcppump.Checksum.Verify.{part_bytes}
use tcppump.Transport.{htons, ip4, calc_checksum}
use tcppump.Ip.Packet.{IpPacket}
use tcppump.Ip.Fragments.{v4compile}
use tcppump.Ip.Update.{get_payload_length, update_l4_header}

-- The fields hold what lies in memory: a uint16_t that was assigned `htons (x)` holds that value.
pub record UdpHeader : Type 0 where
  pub src_port : ℕ
  pub dst_port : ℕ
  pub length : ℕ
  pub checksum : ℕ

abbrev pub zeroed : UdpHeader
zeroed = record { src_port = 0; dst_port = 0; length = 0; checksum = 0 }

pub set_source_port : UdpHeader → ℕ → UdpHeader
set_source_port h port = record h { src_port = htons port }

pub set_destination_port : UdpHeader → ℕ → UdpHeader
set_destination_port h port = record h { dst_port = htons port }

abbrev pub before_checksum : UdpHeader → Bytes
before_checksum h = le16 h.src_port ++ (le16 h.dst_port ++ le16 h.length)

unfoldable pub header_bytes : UdpHeader → Bytes
header_bytes h = before_checksum h ++ le16 h.checksum

abbrev pub proto_udp : ℕ
proto_udp = 17

-- `cUdpPacket::compile` over IPv4. `len` of the program is the length of the payload's region.
unfoldable pub compile :
    (ℕ → Bytes) → ℕ → IpPacket → UdpHeader → Option Region → Result (IpPacket × (UdpHeader × ℕ))
compile fresh next ip header payload =
    let bytes = part_bytes payload in
    let sized : UdpHeader = record header { length = htons ((8 + length bytes) % 2 ^ 16) } in
    do
      (sent, next_id) ← v4compile fresh next ip proto_udp (header_bytes sized) bytes
      len ← get_payload_length sent
      chksum ←
          calc_checksum (ip4 sent.src_ip sent.dst_ip) proto_udp len (header_bytes sized) payload
      let done : UdpHeader = record sized { checksum = chksum }
      updated ← update_l4_header sent (header_bytes done)
      ok (updated, (done, next_id))

-- `setChecksum` on a compiled packet.
unfoldable pub set_checksum : IpPacket → UdpHeader → ℕ → Result (IpPacket × UdpHeader)
set_checksum ip header checksum =
    let done : UdpHeader = record header { checksum = htons checksum } in
    update_l4_header ip (header_bytes done) >>= λ updated. ok (updated, done)

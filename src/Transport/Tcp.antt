-- ===== src/Transport/Tcp.antt =====
-- src/packets/tcppacket.hpp and src/packets/tcppacket.cpp.
use tcppump.Common.{
  ℕ, ◌+◌, ◌-◌, ◌*◌, ◌%◌, ◌^◌, bit_and, bit_or, Bool, true, false, not, if◌then◌else◌, ◌==◌, ◌∷◌,
  ◌++◌, length, Bytes, le16, le32, Option, Result, ok, ◌>>=◌,
}
use tcppump.Checksum.{Region}
use tcppump.Checksum.Verify.{part_bytes}
use tcppump.Ethernet.{htonl}
use tcppump.Transport.{htons, ip4, calc_checksum}
use tcppump.Ip.Packet.{IpPacket}
use tcppump.Ip.Fragments.{v4compile}
use tcppump.Ip.Update.{get_payload_length, update_l4_header}

-- The fields hold what lies in memory, after htons and htonl.
pub record TcpHeader : Type 0 where
  pub src_port : ℕ
  pub dst_port : ℕ
  pub seq_number : ℕ
  pub ack_number : ℕ
  pub data_offset : ℕ
  pub flags : ℕ
  pub window : ℕ
  pub checksum : ℕ
  pub urgent_ptr : ℕ

-- `init`: five words of header, and a window of 1024 bytes.
unfoldable pub init : TcpHeader
init = record {
  src_port = 0;
  dst_port = 0;
  seq_number = 0;
  ack_number = 0;
  data_offset = 5 * 2 ^ 4 % 256;
  flags = 0;
  window = htons 1024;
  checksum = 0;
  urgent_ptr = 0;
}

pub set_source_port : TcpHeader → ℕ → TcpHeader
set_source_port h port = record h { src_port = htons port }

pub set_destination_port : TcpHeader → ℕ → TcpHeader
set_destination_port h port = record h { dst_port = htons port }

pub set_checksum : TcpHeader → ℕ → TcpHeader
set_checksum h checksum = record h { checksum = htons checksum }

pub set_window : TcpHeader → ℕ → TcpHeader
set_window h window = record h { window = htons window }

pub set_urgent_pointer : TcpHeader → ℕ → TcpHeader
set_urgent_pointer h urgent_ptr = record h { urgent_ptr = htons urgent_ptr }

pub set_ack_number : TcpHeader → ℕ → TcpHeader
set_ack_number h ack = record h { ack_number = htonl ack }

-- The header, and the static `sequence` that follows it.
unfoldable pub set_seq_number : TcpHeader → ℕ → TcpHeader × ℕ
set_seq_number h seq = (record h { seq_number = htonl seq }, seq)

-- The constructor, from the static `sequence` of the packets before it.
unfoldable pub new_header : ℕ → TcpHeader × ℕ
new_header sequence = set_seq_number init sequence

-- `flags = f ? flags | mask : flags & ~mask` on a uint8_t.
unfoldable pub put_flag : ℕ → ℕ → Bool → ℕ
put_flag mask flags flag = if flag then bit_or flags mask else bit_and flags (255 - mask)

pub set_flag_fin : TcpHeader → Bool → TcpHeader
set_flag_fin h flag = record h { flags = put_flag 1 h.flags flag }

pub set_flag_syn : TcpHeader → Bool → TcpHeader
set_flag_syn h flag = record h { flags = put_flag 2 h.flags flag }

pub set_flag_rst : TcpHeader → Bool → TcpHeader
set_flag_rst h flag = record h { flags = put_flag 4 h.flags flag }

pub set_flag_psh : TcpHeader → Bool → TcpHeader
set_flag_psh h flag = record h { flags = put_flag 8 h.flags flag }

pub set_flag_ack : TcpHeader → Bool → TcpHeader
set_flag_ack h flag = record h { flags = put_flag 16 h.flags flag }

pub set_flag_urg : TcpHeader → Bool → TcpHeader
set_flag_urg h flag = record h { flags = put_flag 32 h.flags flag }

pub set_flag_ece : TcpHeader → Bool → TcpHeader
set_flag_ece h flag = record h { flags = put_flag 64 h.flags flag }

pub set_flag_cwr : TcpHeader → Bool → TcpHeader
set_flag_cwr h flag = record h { flags = put_flag 128 h.flags flag }

pub set_flag_non : TcpHeader → Bool → TcpHeader
set_flag_non h flag = record h { data_offset = put_flag 1 h.data_offset flag }

unfoldable pub is_syn : TcpHeader → Bool
is_syn h = not (bit_and h.flags 2 == 0)

abbrev pub before_checksum : TcpHeader → Bytes
before_checksum h =
    le16 h.src_port
    ++ (le16 h.dst_port
        ++ (le32 h.seq_number ++ (le32 h.ack_number ++ (h.data_offset ∷ h.flags ∷ le16 h.window))))

unfoldable pub header_bytes : TcpHeader → Bytes
header_bytes h = before_checksum h ++ (le16 h.checksum ++ le16 h.urgent_ptr)

abbrev pub proto_tcp : ℕ
proto_tcp = 6

abbrev pub syn_count : TcpHeader → ℕ
syn_count h = if is_syn h then 1 else 0

-- The checksum of the header, over a packet that carries it.
abbrev pub checked : Bool → IpPacket → TcpHeader → Option Region → Result TcpHeader
checked true sent header payload = do
  len ← get_payload_length sent
  chksum ← calc_checksum (ip4 sent.src_ip sent.dst_ip) proto_tcp len (header_bytes header) payload
  ok (record header { checksum = chksum })
checked false sent header payload = ok header

-- `cTcpPacket::compile` over IPv4, with the static `sequence`.
unfoldable pub compile :
    (ℕ → Bytes)
    → ℕ
    → ℕ
    → IpPacket
    → TcpHeader
    → Option Region
    → Bool
    → Result (IpPacket × (TcpHeader × (ℕ × ℕ)))
compile fresh next sequence ip header payload calc_chksum =
    let bytes = part_bytes payload in
    do
      (sent, next_id) ← v4compile fresh next ip proto_tcp (header_bytes header) bytes
      done ← checked calc_chksum sent header payload
      updated ← update_l4_header sent (header_bytes done)
      ok (updated, (done, (next_id, (sequence + length bytes + syn_count header) % 2 ^ 32)))

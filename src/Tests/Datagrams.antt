-- ===== src/Tests/Datagrams.antt =====
-- IPv4 datagrams (src/packets/ippacket.hpp, src/packets/ippacket.cpp) on concrete data.
use tcppump.Common.{
  ℕ, zero, suc, ◌+◌, ◌-◌, ◌/◌, ◌≡◌, refl, arith, true, false, [], ◌∷◌, ◌++◌, Bytes, none, some, ok,
  length, write,
}
use tcppump.Checksum.{rfc1071_single}
use tcppump.Ethernet.{EthernetPacket, constructed}
use tcppump.Ethernet.Layout.{Parts}
use tcppump.Ip.Receiver.{read_header}
use tcppump.Ip.Header.{HeaderArgs, compile_header, before_chksum}
use tcppump.Ip.Header.Fields.{IsSound, read_header-header}
use tcppump.Ip.Header.Checked.{HasAddresses, compile_header_verifies}
use tcppump.Ip.Packet.{IpPacket}
use tcppump.Ip.Six.{Ip6Packet, v6compile}
use tcppump.Ip.Six.Carries.{v6compile_carries, v6compile_refuses}
use tcppump.Common.{err, bug, ltb, if◌then◌else◌, ex_par_range}
use tcppump.Ethernet.{payload_bytes}
use tcppump.Ip.Fragments.{fragment_count, v4compile}
use tcppump.Ip.Fragments.Count.{fragment_count-div}
use tcppump.Ip.Fragments.One.{IsReady}
use tcppump.Ip.Fragments.Room.{TakesMtu}
use tcppump.Ip.Fragments.Delivery.{Delivers, v4compile_whole, v4compile_loses}

abbrev repeat : ℕ → ℕ → Bytes
repeat zero b = []
repeat (suc n) b = b ∷ repeat n b

abbrev args : HeaderArgs
args = record {
  src = 10 ∷ 0 ∷ 0 ∷ 1 ∷ [];
  dst = 10 ∷ 0 ∷ 0 ∷ 2 ∷ [];
  time_to_live = 64;
  proto = 17;
  dscp = 10;
  ecn = 1;
  df = false;
  mf = true;
  offset = 1480;
  hdr_len = 24;
  total_len = 1500;
  id = 4711;
  with_router_alert = true;
  manual_chksum = none;
}

args-IsSound : IsSound args
args-IsSound = record {
  hdr_len_units = refl;
  hdr_len_small = omega arith;
  total_small = omega arith;
  id_small = omega arith;
  offset_units = refl;
  offset_small = omega arith;
}

args-HasAddresses : HasAddresses args
args-HasAddresses = record {
  src_size = refl;
  dst_size = refl;
  src_bytes = omega arith;
  dst_bytes = omega arith;
  hdr_len_is = refl;
}

read_header-header_example :
    read_header (before_chksum args ++ (0 ∷ []))
    ≡ some (record {
      version = 4;
      header_length = 24;
      total_length = 1500;
      identification = 4711;
      dont_fragment = false;
      more_fragments = true;
      offset = 1480;
    })
read_header-header_example = read_header-header args (0 ∷ []) args-IsSound

compile_header_verifies_example :
    (bytes : Bytes) × (compile_header args ≡ ok bytes)
    × (length bytes ≡ 24)
    × (rfc1071_single (record { odd_address = false; bytes = bytes }) ≡ ok 0)
compile_header_verifies_example = compile_header_verifies args args-HasAddresses refl refl

fragment_count-div_run : fragment_count 1500 20 4000 ≡ (4000 - 1) / (1500 - 20) + 1
fragment_count-div_run =
    fragment_count-div 1500 20 4000 (omega arith) (omega arith) (omega arith) (omega arith)

-- A packet in a buffer for an MTU of `mtu` bytes.
abbrev packet : ℕ → EthernetPacket
packet mtu = constructed (mtu + 18) (repeat (mtu + 18) 7)

abbrev ip : ℕ → IpPacket
ip mtu = record {
  mtu = mtu;
  first = packet mtu;
  others = [];
  dscp = 0;
  ecn = 0;
  ttl = 64;
  src_ip = 10 ∷ 0 ∷ 0 ∷ 1 ∷ [];
  dst_ip = 10 ∷ 0 ∷ 0 ∷ 2 ∷ [];
  dont_fragment = false;
  identification = 0;
  has_id = false;
  has_router_alert_option = false;
  has_chksum = false;
  chksum = 0;
}

abbrev parts : ℕ → Parts
parts slack = record {
  dest = repeat 6 0;
  src = repeat 6 0;
  tags = [];
  kind = repeat 2 0;
  llc = [];
  payload = [];
  slack = repeat slack 7;
}

-- 16 bytes of room for data, which are two units, and 20 bytes of room, which are two and a half.
ip_36-IsReady : IsReady (ip 36)
ip_36-IsReady = record {
  src_size = refl;
  dst_size = refl;
  src_bytes = omega arith;
  dst_bytes = omega arith;
  has_room = omega arith;
  mtu_small = omega arith;
}

ip_40-IsReady : IsReady (ip 40)
ip_40-IsReady = record {
  src_size = refl;
  dst_size = refl;
  src_bytes = omega arith;
  dst_bytes = omega arith;
  has_room = omega arith;
  mtu_small = omega arith;
}

packet_36-TakesMtu : TakesMtu 36 (packet 36)
unfolding write
packet_36-TakesMtu = record {
  parts = parts 40;
  has = record {
    in_memory = refl;
    dest_size = refl;
    src_size = refl;
    kind_size = refl;
    kind_at = refl;
    payload_at = refl;
    payload_size = refl;
    llc_size = refl;
    fits = omega arith;
    allocated = omega arith;
    addressable = omega arith;
  };
  room = omega arith;
}

packet_40-TakesMtu : TakesMtu 40 (packet 40)
unfolding write
packet_40-TakesMtu = record {
  parts = parts 44;
  has = record {
    in_memory = refl;
    dest_size = refl;
    src_size = refl;
    kind_size = refl;
    kind_at = refl;
    payload_at = refl;
    payload_size = refl;
    llc_size = refl;
    fits = omega arith;
    allocated = omega arith;
    addressable = omega arith;
  };
  room = omega arith;
}

v4compile_whole_example :
    Delivers
      (v4compile (λ i. repeat 60 i) 7 (ip 36) 17 (repeat 8 1) (repeat 30 2))
      (repeat 8 1 ++ repeat 30 2)
v4compile_whole_example =
    v4compile_whole (λ i. repeat 60 i) 7 (ip 36) 17 (repeat 8 1) (repeat 30 2) ip_36-IsReady
      packet_36-TakesMtu refl (λ i. omega arith) (omega arith) (omega arith) (omega arith)
      (omega arith) (omega arith) refl

v4compile_loses_example :
    ¬ Delivers
      (v4compile (λ i. repeat 60 i) 7 (ip 40) 17 (repeat 8 1) (repeat 32 2))
      (repeat 8 1 ++ repeat 32 2)
v4compile_loses_example =
    v4compile_loses (λ i. repeat 60 i) 7 (ip 40) 17 (repeat 8 1) (repeat 32 2) ip_40-IsReady
      packet_40-TakesMtu refl (λ i. omega arith) (omega arith) (omega arith) (omega arith)
      (omega arith) (omega arith) (omega arith)

-- Ten bytes of room behind the IPv6 header.
abbrev ip6 : Ip6Packet
ip6 = record {
  mtu = 50;
  first = packet 50;
  others = [];
  dscp = 46;
  ecn = 1;
  ttl = 64;
  src_ip = repeat 16 1;
  dst_ip = repeat 16 2;
  flowlabel = 0xabcde;
}

packet_50-TakesMtu : TakesMtu 50 (packet 50)
unfolding write
packet_50-TakesMtu = record {
  parts = parts 54;
  has = record {
    in_memory = refl;
    dest_size = refl;
    src_size = refl;
    kind_size = refl;
    kind_at = refl;
    payload_at = refl;
    payload_size = refl;
    llc_size = refl;
    fits = omega arith;
    allocated = omega arith;
    addressable = omega arith;
  };
  room = omega arith;
}

v6compile_carries_example :
    (q : Ip6Packet) × (v6compile ip6 17 (repeat 8 3) (4 ∷ []) ≡ ok q)
    × (q.others ≡ [])
    × (payload_bytes q.first
        ≡ 0x6b ∷ 0x9a ∷ 0xbc ∷ 0xde ∷ 0 ∷ 9 ∷ 17 ∷ 64 ∷ repeat 16 1
          ++ repeat 16 2
          ++ (repeat 8 3 ++ (4 ∷ [])))
v6compile_carries_example =
    v6compile_carries ip6 17 (repeat 8 3) (4 ∷ []) packet_50-TakesMtu refl refl refl (omega arith)
      (omega arith) (omega arith) (omega arith)

v6compile_refuses_example :
    v6compile ip6 17 (repeat 8 3) (repeat 3 4)
    ≡ err (if ltb 65535 (8 + 3 + 40) then ex_par_range else bug)
v6compile_refuses_example =
    v6compile_refuses ip6 17 (repeat 8 3) (repeat 3 4) (omega arith) (omega arith) (omega arith)

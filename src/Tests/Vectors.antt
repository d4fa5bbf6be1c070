-- ===== src/Tests/Vectors.antt =====
-- The packets that the unit test of src/compiler/instructionparser.cpp expects.
use Prim.Native.String.{String}
use tcppump.Common.{
  ℕ, zero, suc, ◌≡◌, refl, true, false, [], ◌∷◌, Option, none, some, Bytes, err, bug, write, slice,
}
use tcppump.Text.{codes}
use tcppump.Handler.Eth.{compile_eth, compile_arp}
use tcppump.Handler.Raw.{compile_raw, raw_payload}
use tcppump.Handler.Ip.{compile_ipv4, compile_ipv6, new_ip, parse_ipv4_params, begin_ipv4}
use tcppump.Handler.Mac.{compile_mac_header, vlan_tags, compile_vlan_tags}
use tcppump.Params.Values.{
  as_int, as_stream, strtoull, range, is_random_integer, rand, is_random, hex_pairs,
  hex_char_to_int,
}
use tcppump.Address.{
  set_mac, set_ipv4, set_ipv6, hex_to_uint8, dec_to_uint8, random_ipv4, random_ipv6,
}
use tcppump.Ethernet.Tag.{vlan_bytes, tci}
use tcppump.Params.{parse_parameters, parse_from, parse_parameter}
use tcppump.Instruction.Keyword.{select, is_prefix}
use tcppump.Ip.Packet.{
  set_identification, set_header_chksum, is_multicast, multicast_mac, address_multicast,
}
use tcppump.Ip.Fragments.{
  v4compile, fragment_count, fragment_length, put_first, put_data, put_fragment, fragment_loop,
  copies,
}
use tcppump.Ip.Header.{
  compile_header, compile_chksum, before_chksum, after_chksum, vers_ihl, tos, flags_offset,
}
use tcppump.Ethernet.Arp.{set_all, arp_bytes, probe, announce}
use tcppump.Checksum.{rfc1071_single, rfc1071, rfc1071_finalize, calc_part, rfc1071_calc}
use tcppump.Params.Find.{
  fresh, find_parameter, search_from, same_text, mark, set_parameter_used,
  check_for_unused_parameters,
}
use tcppump.Ethernet.{
  frame, new_packet, set_src_mac, set_dest_mac, set_mac_header, add_vlan_tag, insert_tag,
  add_llc_header, add_snap_header, insert_header, extend_by_snap, set_payload, set_raw,
  append_payload, set_length, set_type_length, payload_bytes,
}
use tcppump.Instruction.{
  parse, parse_timestamp, parse_protocoll_identifier, Outcome, packets, refused, stopped,
}
use tcppump.Handler.{Env, World}
use tcppump.Handler.Compile.{
  instruction, handler_of, Linkable, first_packet, unstamped, parse_instruction,
}

abbrev pub bytes_of : ℕ → ℕ → Bytes
bytes_of zero b = []
bytes_of (suc n) b = b ∷ bytes_of n b

-- The settings of the test; the memory is not zero, and the one IPv6 address is that of the test.
abbrev pub test_env : Env
test_env = record {
  settings = record {
    my_mac = some (bytes_of 6 0xba);
    my_ipv4 = some (bytes_of 4 10);
    my_ipv6 = none;
    my_mtu = 90;
  };
  ip_optional_dest_mac = false;
  memory = bytes_of 110 0x77;
  fresh = λ n. bytes_of 110 0x66;
  random = λ n. n;
  random_bytes = λ n len. bytes_of len 0;
  is_odd = λ bytes. true;
  inet_pton = λ s. some (
      0x10 ∷ 0x02 ∷ 0x30 ∷ 0x04 ∷ 0x50 ∷ 0x06 ∷ 0x70 ∷ 0x08 ∷ 0x90 ∷ 0x0a ∷ 0xb0 ∷ 0x0c ∷ 0xd0
      ∷ 0x0e ∷ 0xf0 ∷ 0x01 ∷ []);
}

abbrev pub start : World
start = record { params = fresh []; called = 0; next_id = 1; sequence = 0 }

abbrev frame_of : Outcome (Linkable × World) → Option Bytes
frame_of (packets made stamp) = some (frame (first_packet made.0))
frame_of (refused m) = none
frame_of stopped = none

compiled : String → Option Bytes
unfolding parse_instruction instruction handler_of compile_eth compile_arp compile_raw compile_ipv4
    compile_ipv6 raw_payload compile_mac_header vlan_tags compile_vlan_tags find_parameter
    search_from same_text mark set_parameter_used check_for_unused_parameters as_int as_stream
    strtoull range is_random_integer rand is_random hex_pairs hex_char_to_int set_mac set_ipv4
    set_ipv6 hex_to_uint8 dec_to_uint8 random_ipv4 random_ipv6 new_packet set_src_mac set_dest_mac
    set_mac_header add_vlan_tag insert_tag vlan_bytes tci add_llc_header add_snap_header
    insert_header extend_by_snap set_payload set_raw append_payload set_length set_type_length write
    slice frame payload_bytes parse parse_timestamp parse_protocoll_identifier parse_parameters
    parse_from parse_parameter select is_prefix new_ip parse_ipv4_params begin_ipv4
    set_identification set_header_chksum is_multicast multicast_mac address_multicast v4compile
    fragment_count fragment_length put_first put_data put_fragment fragment_loop copies
    compile_header set_all arp_bytes probe announce compile_chksum rfc1071_single rfc1071
    before_chksum after_chksum vers_ihl tos flags_offset rfc1071_finalize calc_part rfc1071_calc
compiled s =
    frame_of
      (parse_instruction (λ e embedding no_eth p w. err bug) test_env unstamped (codes s) start)

vector_0 :
    compiled
      "eth( dmac=11:22:33:44:55:66, smac=aa:bb:cc:dd:ee:ff, ethertype=0x8123, payload=1234567890abcdef)"
    ≡ some (
        0x11 ∷ 0x22 ∷ 0x33 ∷ 0x44 ∷ 0x55 ∷ 0x66 ∷ 0xaa ∷ 0xbb ∷ 0xcc ∷ 0xdd ∷ 0xee ∷ 0xff ∷ 0x81
        ∷ 0x23 ∷ 0x12 ∷ 0x34 ∷ 0x56 ∷ 0x78 ∷ 0x90 ∷ 0xab ∷ 0xcd ∷ 0xef ∷ [])
unfolding compiled
vector_0 = refl

vector_1 :
    compiled "eth(dmac=11:22:33:44:55:66, ethertype=0x8123, payload=1234567890abcdef)"
    ≡ some (
        0x11 ∷ 0x22 ∷ 0x33 ∷ 0x44 ∷ 0x55 ∷ 0x66 ∷ 0xba ∷ 0xba ∷ 0xba ∷ 0xba ∷ 0xba ∷ 0xba ∷ 0x81
        ∷ 0x23 ∷ 0x12 ∷ 0x34 ∷ 0x56 ∷ 0x78 ∷ 0x90 ∷ 0xab ∷ 0xcd ∷ 0xef ∷ [])
unfolding compiled
vector_1 = refl

vector_2 :
    compiled "eth(dmac=11:22:33:44:55:66, smac=aa:bb:cc:dd:ee:ff, payload=1234567890abcdef)"
    ≡ some (
        0x11 ∷ 0x22 ∷ 0x33 ∷ 0x44 ∷ 0x55 ∷ 0x66 ∷ 0xaa ∷ 0xbb ∷ 0xcc ∷ 0xdd ∷ 0xee ∷ 0xff ∷ 0x00
        ∷ 0x08 ∷ 0x12 ∷ 0x34 ∷ 0x56 ∷ 0x78 ∷ 0x90 ∷ 0xab ∷ 0xcd ∷ 0xef ∷ [])
unfolding compiled
vector_2 = refl

vector_3 :
    compiled "eth(dmac=11:22:33:44:55:66, payload=1234567890abcdef)"
    ≡ some (
        0x11 ∷ 0x22 ∷ 0x33 ∷ 0x44 ∷ 0x55 ∷ 0x66 ∷ 0xba ∷ 0xba ∷ 0xba ∷ 0xba ∷ 0xba ∷ 0xba ∷ 0x00
        ∷ 0x08 ∷ 0x12 ∷ 0x34 ∷ 0x56 ∷ 0x78 ∷ 0x90 ∷ 0xab ∷ 0xcd ∷ 0xef ∷ [])
unfolding compiled
vector_3 = refl

vector_4 :
    compiled "raw(stream = 112233445566aabbccddeeff81231234567890abcdef)"
    ≡ some (
        0x11 ∷ 0x22 ∷ 0x33 ∷ 0x44 ∷ 0x55 ∷ 0x66 ∷ 0xaa ∷ 0xbb ∷ 0xcc ∷ 0xdd ∷ 0xee ∷ 0xff ∷ 0x81
        ∷ 0x23 ∷ 0x12 ∷ 0x34 ∷ 0x56 ∷ 0x78 ∷ 0x90 ∷ 0xab ∷ 0xcd ∷ 0xef ∷ [])
unfolding compiled
vector_4 = refl

vector_5 :
    compiled
      "eth(dmac=11:22:33:44:55:66, smac=aa:bb:cc:dd:ee:ff, vid=1, ethertype=0x8123, payload=1234567890abcdef)"
    ≡ some (
        0x11 ∷ 0x22 ∷ 0x33 ∷ 0x44 ∷ 0x55 ∷ 0x66 ∷ 0xaa ∷ 0xbb ∷ 0xcc ∷ 0xdd ∷ 0xee ∷ 0xff ∷ 0x81
        ∷ 0x00 ∷ 0x00 ∷ 0x01 ∷ 0x81 ∷ 0x23 ∷ 0x12 ∷ 0x34 ∷ 0x56 ∷ 0x78 ∷ 0x90 ∷ 0xab ∷ 0xcd ∷ 0xef
        ∷ [])
unfolding compiled
vector_5 = refl

vector_6 :
    compiled
      "eth(dmac=11:22:33:44:55:66, smac=aa:bb:cc:dd:ee:ff, vid=42, prio=3, ethertype=0x8123, payload=1234567890abcdef)"
    ≡ some (
        0x11 ∷ 0x22 ∷ 0x33 ∷ 0x44 ∷ 0x55 ∷ 0x66 ∷ 0xaa ∷ 0xbb ∷ 0xcc ∷ 0xdd ∷ 0xee ∷ 0xff ∷ 0x81
        ∷ 0x00 ∷ 0x60 ∷ 0x2a ∷ 0x81 ∷ 0x23 ∷ 0x12 ∷ 0x34 ∷ 0x56 ∷ 0x78 ∷ 0x90 ∷ 0xab ∷ 0xcd ∷ 0xef
        ∷ [])
unfolding compiled
vector_6 = refl

vector_7 :
    compiled
      "eth(dmac=11:22:33:44:55:66, smac=aa:bb:cc:dd:ee:ff, dsap = 0x12, ssap = 0x34, control = 0x11, payload = 1122)"
    ≡ some (
        0x11 ∷ 0x22 ∷ 0x33 ∷ 0x44 ∷ 0x55 ∷ 0x66 ∷ 0xaa ∷ 0xbb ∷ 0xcc ∷ 0xdd ∷ 0xee ∷ 0xff ∷ 0x00
        ∷ 0x06 ∷ 0x12 ∷ 0x34 ∷ 0x00 ∷ 0x11 ∷ 0x11 ∷ 0x22 ∷ [])
unfolding compiled
vector_7 = refl

vector_8 :
    compiled
      "eth(dmac=11:22:33:44:55:66, smac=aa:bb:cc:dd:ee:ff, vid=42, vtype=1, prio=3, dsap = 0x12, ssap = 0x34, control = 0x11, payload = 1122)"
    ≡ some (
        0x11 ∷ 0x22 ∷ 0x33 ∷ 0x44 ∷ 0x55 ∷ 0x66 ∷ 0xaa ∷ 0xbb ∷ 0xcc ∷ 0xdd ∷ 0xee ∷ 0xff ∷ 0x81
        ∷ 0x00 ∷ 0x60 ∷ 0x2a ∷ 0x00 ∷ 0x06 ∷ 0x12 ∷ 0x34 ∷ 0x00 ∷ 0x11 ∷ 0x11 ∷ 0x22 ∷ [])
unfolding compiled
vector_8 = refl

vector_9 :
    compiled
      "eth(dmac=11:22:33:44:55:66, smac=aa:bb:cc:dd:ee:ff, oui = 0x808182, protocol = 0x34, payload = 1234567890abcdef)"
    ≡ some (
        0x11 ∷ 0x22 ∷ 0x33 ∷ 0x44 ∷ 0x55 ∷ 0x66 ∷ 0xaa ∷ 0xbb ∷ 0xcc ∷ 0xdd ∷ 0xee ∷ 0xff ∷ 0x00
        ∷ 0x10 ∷ 0xaa ∷ 0xaa ∷ 0x03 ∷ 0x80 ∷ 0x81 ∷ 0x82 ∷ 0x00 ∷ 0x34 ∷ 0x12 ∷ 0x34 ∷ 0x56 ∷ 0x78
        ∷ 0x90 ∷ 0xab ∷ 0xcd ∷ 0xef ∷ [])
unfolding compiled
vector_9 = refl

vector_10 :
    compiled
      "eth(dmac=11:22:33:44:55:66, smac=aa:bb:cc:dd:ee:ff, vid=100, vtype=2, vid=42, prio=3, ethertype=0x8123, payload=1234567890abcdef)"
    ≡ some (
        0x11 ∷ 0x22 ∷ 0x33 ∷ 0x44 ∷ 0x55 ∷ 0x66 ∷ 0xaa ∷ 0xbb ∷ 0xcc ∷ 0xdd ∷ 0xee ∷ 0xff ∷ 0x88
        ∷ 0xa8 ∷ 0x00 ∷ 0x64 ∷ 0x81 ∷ 0x00 ∷ 0x60 ∷ 0x2a ∷ 0x81 ∷ 0x23 ∷ 0x12 ∷ 0x34 ∷ 0x56 ∷ 0x78
        ∷ 0x90 ∷ 0xab ∷ 0xcd ∷ 0xef ∷ [])
unfolding compiled
vector_10 = refl

vector_11 :
    compiled
      "arp(op=1, smac=10:22:33:44:55:66, sip=192.168.0.166, dmac=01:02:03:04:05:06, dip=1.2.3.4)"
    ≡ some (
        0x01 ∷ 0x02 ∷ 0x03 ∷ 0x04 ∷ 0x05 ∷ 0x06 ∷ 0x10 ∷ 0x22 ∷ 0x33 ∷ 0x44 ∷ 0x55 ∷ 0x66 ∷ 0x08
        ∷ 0x06 ∷ 0x00 ∷ 0x01 ∷ 0x08 ∷ 0x00 ∷ 0x06 ∷ 0x04 ∷ 0x00 ∷ 0x01 ∷ 0x10 ∷ 0x22 ∷ 0x33 ∷ 0x44
        ∷ 0x55 ∷ 0x66 ∷ 0xc0 ∷ 0xa8 ∷ 0x00 ∷ 0xa6 ∷ 0x01 ∷ 0x02 ∷ 0x03 ∷ 0x04 ∷ 0x05 ∷ 0x06 ∷ 0x01
        ∷ 0x02 ∷ 0x03 ∷ 0x04 ∷ [])
unfolding compiled
vector_11 = refl

vector_12 :
    compiled "arp(op=1, smac=10:22:33:44:55:66, sip=192.168.0.166, dip=1.2.3.4)"
    ≡ some (
        0xff ∷ 0xff ∷ 0xff ∷ 0xff ∷ 0xff ∷ 0xff ∷ 0x10 ∷ 0x22 ∷ 0x33 ∷ 0x44 ∷ 0x55 ∷ 0x66 ∷ 0x08
        ∷ 0x06 ∷ 0x00 ∷ 0x01 ∷ 0x08 ∷ 0x00 ∷ 0x06 ∷ 0x04 ∷ 0x00 ∷ 0x01 ∷ 0x10 ∷ 0x22 ∷ 0x33 ∷ 0x44
        ∷ 0x55 ∷ 0x66 ∷ 0xc0 ∷ 0xa8 ∷ 0x00 ∷ 0xa6 ∷ 0x00 ∷ 0x00 ∷ 0x00 ∷ 0x00 ∷ 0x00 ∷ 0x00 ∷ 0x01
        ∷ 0x02 ∷ 0x03 ∷ 0x04 ∷ [])
unfolding compiled
vector_12 = refl

vector_13 :
    compiled "arp(dip=11.22.33.44)"
    ≡ some (
        0xff ∷ 0xff ∷ 0xff ∷ 0xff ∷ 0xff ∷ 0xff ∷ 0xba ∷ 0xba ∷ 0xba ∷ 0xba ∷ 0xba ∷ 0xba ∷ 0x08
        ∷ 0x06 ∷ 0x00 ∷ 0x01 ∷ 0x08 ∷ 0x00 ∷ 0x06 ∷ 0x04 ∷ 0x00 ∷ 0x01 ∷ 0xba ∷ 0xba ∷ 0xba ∷ 0xba
        ∷ 0xba ∷ 0xba ∷ 0x0a ∷ 0x0a ∷ 0x0a ∷ 0x0a ∷ 0x00 ∷ 0x00 ∷ 0x00 ∷ 0x00 ∷ 0x00 ∷ 0x00 ∷ 0x0b
        ∷ 0x16 ∷ 0x21 ∷ 0x2c ∷ [])
unfolding compiled
vector_13 = refl

vector_14 :
    compiled "arp(op=2, dip=11.22.33.44)"
    ≡ some (
        0xff ∷ 0xff ∷ 0xff ∷ 0xff ∷ 0xff ∷ 0xff ∷ 0xba ∷ 0xba ∷ 0xba ∷ 0xba ∷ 0xba ∷ 0xba ∷ 0x08
        ∷ 0x06 ∷ 0x00 ∷ 0x01 ∷ 0x08 ∷ 0x00 ∷ 0x06 ∷ 0x04 ∷ 0x00 ∷ 0x02 ∷ 0xba ∷ 0xba ∷ 0xba ∷ 0xba
        ∷ 0xba ∷ 0xba ∷ 0x0a ∷ 0x0a ∷ 0x0a ∷ 0x0a ∷ 0x00 ∷ 0x00 ∷ 0x00 ∷ 0x00 ∷ 0x00 ∷ 0x00 ∷ 0x0b
        ∷ 0x16 ∷ 0x21 ∷ 0x2c ∷ [])
unfolding compiled
vector_14 = refl

vector_15 :
    compiled "arp(vid=12, dip=11.22.33.44)"
    ≡ some (
        0xff ∷ 0xff ∷ 0xff ∷ 0xff ∷ 0xff ∷ 0xff ∷ 0xba ∷ 0xba ∷ 0xba ∷ 0xba ∷ 0xba ∷ 0xba ∷ 0x81
        ∷ 0x00 ∷ 0x00 ∷ 0x0c ∷ 0x08 ∷ 0x06 ∷ 0x00 ∷ 0x01 ∷ 0x08 ∷ 0x00 ∷ 0x06 ∷ 0x04 ∷ 0x00 ∷ 0x01
        ∷ 0xba ∷ 0xba ∷ 0xba ∷ 0xba ∷ 0xba ∷ 0xba ∷ 0x0a ∷ 0x0a ∷ 0x0a ∷ 0x0a ∷ 0x00 ∷ 0x00 ∷ 0x00
        ∷ 0x00 ∷ 0x00 ∷ 0x00 ∷ 0x0b ∷ 0x16 ∷ 0x21 ∷ 0x2c ∷ [])
unfolding compiled
vector_15 = refl

vector_16 :
    compiled "arp-probe(dip=11.22.33.44)"
    ≡ some (
        0xff ∷ 0xff ∷ 0xff ∷ 0xff ∷ 0xff ∷ 0xff ∷ 0xba ∷ 0xba ∷ 0xba ∷ 0xba ∷ 0xba ∷ 0xba ∷ 0x08
        ∷ 0x06 ∷ 0x00 ∷ 0x01 ∷ 0x08 ∷ 0x00 ∷ 0x06 ∷ 0x04 ∷ 0x00 ∷ 0x01 ∷ 0xba ∷ 0xba ∷ 0xba ∷ 0xba
        ∷ 0xba ∷ 0xba ∷ 0x00 ∷ 0x00 ∷ 0x00 ∷ 0x00 ∷ 0x00 ∷ 0x00 ∷ 0x00 ∷ 0x00 ∷ 0x00 ∷ 0x00 ∷ 0x0b
        ∷ 0x16 ∷ 0x21 ∷ 0x2c ∷ [])
unfolding compiled
vector_16 = refl

vector_17 :
    compiled "arp-announce(dip=11.22.33.44)"
    ≡ some (
        0xff ∷ 0xff ∷ 0xff ∷ 0xff ∷ 0xff ∷ 0xff ∷ 0xba ∷ 0xba ∷ 0xba ∷ 0xba ∷ 0xba ∷ 0xba ∷ 0x08
        ∷ 0x06 ∷ 0x00 ∷ 0x01 ∷ 0x08 ∷ 0x00 ∷ 0x06 ∷ 0x04 ∷ 0x00 ∷ 0x01 ∷ 0xba ∷ 0xba ∷ 0xba ∷ 0xba
        ∷ 0xba ∷ 0xba ∷ 0x0b ∷ 0x16 ∷ 0x21 ∷ 0x2c ∷ 0x00 ∷ 0x00 ∷ 0x00 ∷ 0x00 ∷ 0x00 ∷ 0x00 ∷ 0x0b
        ∷ 0x16 ∷ 0x21 ∷ 0x2c ∷ [])
unfolding compiled
vector_17 = refl

vector_18 :
    compiled "arp-announce()"
    ≡ some (
        0xff ∷ 0xff ∷ 0xff ∷ 0xff ∷ 0xff ∷ 0xff ∷ 0xba ∷ 0xba ∷ 0xba ∷ 0xba ∷ 0xba ∷ 0xba ∷ 0x08
        ∷ 0x06 ∷ 0x00 ∷ 0x01 ∷ 0x08 ∷ 0x00 ∷ 0x06 ∷ 0x04 ∷ 0x00 ∷ 0x01 ∷ 0xba ∷ 0xba ∷ 0xba ∷ 0xba
        ∷ 0xba ∷ 0xba ∷ 0x0a ∷ 0x0a ∷ 0x0a ∷ 0x0a ∷ 0x00 ∷ 0x00 ∷ 0x00 ∷ 0x00 ∷ 0x00 ∷ 0x00 ∷ 0x0a
        ∷ 0x0a ∷ 0x0a ∷ 0x0a ∷ [])
unfolding compiled
vector_18 = refl

vector_19 :
    compiled "ipv4(dmac = 11:22:33:44:55:66, dip=1.2.3.4, protocol=254, payload=12345678)"
    ≡ some (
        0x11 ∷ 0x22 ∷ 0x33 ∷ 0x44 ∷ 0x55 ∷ 0x66 ∷ 0xba ∷ 0xba ∷ 0xba ∷ 0xba ∷ 0xba ∷ 0xba ∷ 0x08
        ∷ 0x00 ∷ 0x45 ∷ 0x00 ∷ 0x00 ∷ 0x18 ∷ 0x00 ∷ 0x00 ∷ 0x00 ∷ 0x00 ∷ 0x40 ∷ 0xfe ∷ 0x61 ∷ 0xcf
        ∷ 0x0a ∷ 0x0a ∷ 0x0a ∷ 0x0a ∷ 0x01 ∷ 0x02 ∷ 0x03 ∷ 0x04 ∷ 0x12 ∷ 0x34 ∷ 0x56 ∷ 0x78 ∷ [])
unfolding compiled
vector_19 = refl

vector_20 :
    compiled "ipv4(vid=42, dmac = 11:22:33:44:55:66, dip=1.2.3.4, protocol=254, payload=12345678)"
    ≡ some (
        0x11 ∷ 0x22 ∷ 0x33 ∷ 0x44 ∷ 0x55 ∷ 0x66 ∷ 0xba ∷ 0xba ∷ 0xba ∷ 0xba ∷ 0xba ∷ 0xba ∷ 0x81
        ∷ 0x00 ∷ 0x00 ∷ 0x2a ∷ 0x08 ∷ 0x00 ∷ 0x45 ∷ 0x00 ∷ 0x00 ∷ 0x18 ∷ 0x00 ∷ 0x00 ∷ 0x00 ∷ 0x00
        ∷ 0x40 ∷ 0xfe ∷ 0x61 ∷ 0xcf ∷ 0x0a ∷ 0x0a ∷ 0x0a ∷ 0x0a ∷ 0x01 ∷ 0x02 ∷ 0x03 ∷ 0x04 ∷ 0x12
        ∷ 0x34 ∷ 0x56 ∷ 0x78 ∷ [])
unfolding compiled
vector_20 = refl

vector_21 :
    compiled
      "ipv4(smac=80:12:34:45:67:89, dmac = 11:22:33:44:55:66, sip=192.168.0.1, dip=172.16.1.2, ttl=200, dscp=16, ecn=1, df=1, protocol=254, payload=12345678)"
    ≡ some (
        0x11 ∷ 0x22 ∷ 0x33 ∷ 0x44 ∷ 0x55 ∷ 0x66 ∷ 0x80 ∷ 0x12 ∷ 0x34 ∷ 0x45 ∷ 0x67 ∷ 0x89 ∷ 0x08
        ∷ 0x00 ∷ 0x45 ∷ 0x41 ∷ 0x00 ∷ 0x18 ∷ 0x00 ∷ 0x00 ∷ 0x40 ∷ 0x00 ∷ 0xc8 ∷ 0xfe ∷ 0x43 ∷ 0xeb
        ∷ 0xc0 ∷ 0xa8 ∷ 0x00 ∷ 0x01 ∷ 0xac ∷ 0x10 ∷ 0x01 ∷ 0x02 ∷ 0x12 ∷ 0x34 ∷ 0x56 ∷ 0x78 ∷ [])
unfolding compiled
vector_21 = refl

vector_22 :
    compiled "raw(be16=0x1234, be16=0x1234, le16=0x1234)"
    ≡ some (0x12 ∷ 0x34 ∷ 0x12 ∷ 0x34 ∷ 0x34 ∷ 0x12 ∷ [])
unfolding compiled
vector_22 = refl

vector_23 :
    compiled
      "raw(byte=0x55, be16=0x1234, le16=0x1234, be32=0x11223344, le32=0x11223344, be64=0x0123456789abcdef, le64=0x0123456789abcdef, ip4=1.2.3.4, ip6=1002:3004:5006:7008:900A:B00C:D00E:F001, mac=10:20:30:40:50:60, stream=\"Hello World\")"
    ≡ some (
        0x55 ∷ 0x12 ∷ 0x34 ∷ 0x34 ∷ 0x12 ∷ 0x11 ∷ 0x22 ∷ 0x33 ∷ 0x44 ∷ 0x44 ∷ 0x33 ∷ 0x22 ∷ 0x11
        ∷ 0x01 ∷ 0x23 ∷ 0x45 ∷ 0x67 ∷ 0x89 ∷ 0xab ∷ 0xcd ∷ 0xef ∷ 0xef ∷ 0xcd ∷ 0xab ∷ 0x89 ∷ 0x67
        ∷ 0x45 ∷ 0x23 ∷ 0x01 ∷ 0x01 ∷ 0x02 ∷ 0x03 ∷ 0x04 ∷ 0x10 ∷ 0x02 ∷ 0x30 ∷ 0x04 ∷ 0x50 ∷ 0x06
        ∷ 0x70 ∷ 0x08 ∷ 0x90 ∷ 0x0a ∷ 0xb0 ∷ 0x0c ∷ 0xd0 ∷ 0x0e ∷ 0xf0 ∷ 0x01 ∷ 0x10 ∷ 0x20 ∷ 0x30
        ∷ 0x40 ∷ 0x50 ∷ 0x60 ∷ 0x48 ∷ 0x65 ∷ 0x6c ∷ 0x6c ∷ 0x6f ∷ 0x20 ∷ 0x57 ∷ 0x6f ∷ 0x72 ∷ 0x6c
        ∷ 0x64 ∷ [])
unfolding compiled
vector_23 = refl

-- ===== src/Ethernet.antt =====
-- src/packets/ethernetpacket.hpp and src/packets/ethernetpacket.cpp: a frame in its buffer. Pointers into the
-- buffer are offsets from `packet`; a size_t wraps at 2^64. A FormatException ends the instruction
-- that builds the packet, so `err` carries no state.
pub mod Tag
pub mod Buffer
pub mod Layout
pub mod Compile
pub mod Arp
pub mod Lldp
pub mod Tlv
pub mod Stp
use tcppump.Common.{
  ℕ, ◌+◌, ◌-◌, ◌*◌, ◌/◌, ◌%◌, ◌^◌, bit_and, bit_or, Bool, true, false, List, [], ◌∷◌, ◌++◌, ltb,
  ◌==◌, if◌then◌else◌, length, Bytes, be16, write, slice, Result, ok, err, bug, ex_par_range, ◌>>=◌,
}
use Tag.{vlan_bytes}

pub record EthernetPacket : Type 0 where
  -- The memory behind `data` and `packet`.
  pub packet : Bytes
  pub packet_max_length : ℕ
  pub p_payload : ℕ
  pub p_ethertype_length : ℕ
  pub payload_length : ℕ
  pub llc_header_length : ℕ
  pub has_dmac : Bool

-- sizeof (mac_header_t) and the offset of its `ethertypeLength`.
abbrev pub mac_header_size : ℕ
mac_header_size = 14

abbrev pub get_length : EthernetPacket → ℕ
get_length p = (p.p_payload + p.payload_length) % 2 ^ 64

-- The bytes that `get` and `getLength` hand to a backend.
unfoldable pub frame : EthernetPacket → Bytes
frame p = slice p.packet 0 (get_length p)

-- `true` where `checkPacketLength` throws.
abbrev pub too_long : EthernetPacket → ℕ → Bool
too_long p added = ltb p.packet_max_length ((get_length p + added) % 2 ^ 64)

abbrev pub reset : EthernetPacket → EthernetPacket
reset p = record p {
  packet = write p.packet 12 (0 ∷ 0 ∷ []);
  p_payload = mac_header_size;
  p_ethertype_length = 12;
  payload_length = 0;
  llc_header_length = 0;
  has_dmac = false;
}

abbrev pub zeroed_header : Bytes
zeroed_header = 0 ∷ 0 ∷ 0 ∷ 0 ∷ 0 ∷ 0 ∷ 0 ∷ 0 ∷ 0 ∷ 0 ∷ 0 ∷ 0 ∷ 0 ∷ 0 ∷ []

-- What the constructor leaves; `memory` is what `new uint32_t[]` returns.
abbrev pub constructed : ℕ → Bytes → EthernetPacket
constructed max_length memory = reset (record {
  packet = write memory 0 zeroed_header;
  packet_max_length = max_length;
  p_payload = mac_header_size;
  p_ethertype_length = 12;
  payload_length = 0;
  llc_header_length = 0;
  has_dmac = false;
})

unfoldable pub new_packet : ℕ → Bytes → Result EthernetPacket
new_packet max_length memory =
    if ltb max_length mac_header_size then err bug else ok (constructed max_length memory)

-- The copy constructor: a buffer of its own, with the bytes of the frame.
unfoldable pub copy_packet : Bytes → EthernetPacket → EthernetPacket
copy_packet memory p =
    let new = constructed p.packet_max_length memory in
    record new {
      packet = write new.packet 0 (slice p.packet 0 (get_length p));
      p_payload = p.p_payload;
      p_ethertype_length = p.p_ethertype_length;
      payload_length = p.payload_length;
      llc_header_length = p.llc_header_length;
      has_dmac = p.has_dmac;
    }

-- The bytes that `getPayload` and `getPayloadLength` name.
unfoldable pub payload_bytes : EthernetPacket → Bytes
payload_bytes p = slice p.packet p.p_payload p.payload_length

abbrev pub update_position : EthernetPacket → ℕ → EthernetPacket
update_position p len = record p {
  p_payload = p.p_payload + len;
  p_ethertype_length = p.p_ethertype_length + len;
}

unfoldable pub set_type_length : EthernetPacket → ℕ → EthernetPacket
set_type_length p ethertype_length = record p {
  packet = write p.packet p.p_ethertype_length (be16 ethertype_length);
}

unfoldable pub set_length : EthernetPacket → EthernetPacket
set_length p = set_type_length p ((p.payload_length + p.llc_header_length) % 2 ^ 16)

unfoldable pub set_dest_mac : EthernetPacket → Bytes → EthernetPacket
set_dest_mac p dest = record p { packet = write p.packet 0 dest; has_dmac = true }

unfoldable pub set_src_mac : EthernetPacket → Bytes → EthernetPacket
set_src_mac p src = record p { packet = write p.packet 6 src }

unfoldable pub set_mac_header : EthernetPacket → Bytes → Bytes → EthernetPacket
set_mac_header p src dest = set_dest_mac (set_src_mac p src) dest

-- Where there is payload, it is moved `len` bytes up to make room for a header.
abbrev pub move_payload : EthernetPacket → ℕ → Bytes
move_payload p len =
    if p.payload_length == 0
    then p.packet
    else write p.packet (p.p_payload + len) (slice p.packet p.p_payload p.payload_length)

-- The header of `llc_t`: the control word takes one byte if its two lowest bits are set.
abbrev pub llc_bytes : ℕ → ℕ → ℕ → Bytes
llc_bytes dsap ssap control =
    dsap ∷ ssap ∷ (if bit_and control 0x0003 == 3 then control % 256 ∷ [] else be16 control)

abbrev pub llc_size : ℕ → ℕ
llc_size control = if bit_and control 0x0003 == 3 then 3 else 4

-- The header is put before the payload, and the pointer to the payload is moved behind it.
unfoldable pub insert_header : EthernetPacket → Bytes → ℕ → ℕ → EthernetPacket
insert_header p header size llc_header_length = record p {
  packet = write (move_payload p size) p.p_payload header;
  p_payload = p.p_payload + size;
  llc_header_length = llc_header_length;
}

unfoldable pub add_llc_header : EthernetPacket → ℕ → ℕ → ℕ → Result EthernetPacket
add_llc_header p dsap ssap control =
    if too_long p (llc_size control)
    then err ex_par_range
    else ok (
        set_length
          (insert_header p (llc_bytes dsap ssap control) (llc_size control) (llc_size control)))

-- `htonl` on a little-endian host.
abbrev pub htonl : ℕ → ℕ
htonl x = x % 256 * 2 ^ 24 + x / 2 ^ 8 % 256 * 2 ^ 16 + x / 2 ^ 16 % 256 * 2 ^ 8 + x / 2 ^ 24 % 256

abbrev pub snap_bytes : ℕ → ℕ → Bytes
snap_bytes oui protocol =
    bit_and (htonl oui / 2 ^ 8) 0xff
    ∷ bit_and (htonl oui / 2 ^ 16) 0xff
    ∷ bit_and (htonl oui / 2 ^ 24) 0xff
    ∷ be16 protocol

-- What `addSnapHeader` does behind its call of `addLlcHeader`.
unfoldable pub extend_by_snap : EthernetPacket → ℕ → ℕ → Result EthernetPacket
extend_by_snap p oui protocol =
    if too_long p 5
    then err ex_par_range
    else ok (set_length (insert_header p (snap_bytes oui protocol) 5 (p.llc_header_length + 5)))

unfoldable pub add_snap_header : EthernetPacket → ℕ → ℕ → Result EthernetPacket
add_snap_header p oui protocol = do q ← add_llc_header p 0xaa 0xaa 3; extend_by_snap q oui protocol

-- The type field and the payload are moved up by the size of a tag, which takes their place.
unfoldable pub insert_tag : EthernetPacket → Bytes → EthernetPacket
insert_tag p tag =
    let moved =
      write p.packet (p.p_ethertype_length + 4)
        (slice p.packet p.p_ethertype_length (2 + p.payload_length)) in
    update_position (record p { packet = write moved p.p_ethertype_length tag }) 4

unfoldable pub add_vlan_tag : EthernetPacket → Bool → ℕ → ℕ → ℕ → Result EthernetPacket
add_vlan_tag p is_ctag id prio dei =
    if too_long p 4 then err ex_par_range else ok (insert_tag p (vlan_bytes is_ctag id prio dei))

unfoldable pub append_payload : EthernetPacket → Bytes → Result EthernetPacket
append_payload p payload =
    if too_long p (length payload)
    then err ex_par_range
    else ok (record p {
      packet = write p.packet (p.p_payload + p.payload_length) payload;
      payload_length = p.payload_length + length payload;
    })

unfoldable pub set_payload : EthernetPacket → Bytes → Result EthernetPacket
set_payload p payload =
    let empty : EthernetPacket = record p { payload_length = 0 } in
    if too_long empty (length payload)
    then err ex_par_range
    else ok
        (record p { packet = write p.packet p.p_payload payload; payload_length = length payload })

-- The payload length of a raw frame below 14 bytes wraps; `get_length` wraps it back.
unfoldable pub set_raw : EthernetPacket → Bytes → Result EthernetPacket
set_raw p payload =
    let q : EthernetPacket = reset p in
    if ltb p.packet_max_length (length payload)
    then err ex_par_range
    else ok (record q {
      packet = write q.packet 0 payload;
      payload_length = (length payload + 2 ^ 64 - mac_header_size) % 2 ^ 64;
      has_dmac = true;
    })

unfoldable pub update_payload_at : EthernetPacket → ℕ → Bytes → Result EthernetPacket
update_payload_at p offset payload =
    if ltb p.payload_length (offset + length payload)
    then err ex_par_range
    else ok (record p { packet = write p.packet (p.p_payload + offset) payload })

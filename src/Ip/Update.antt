-- ===== src/Ip/Update.antt =====
-- What the layer 4 packets use of a compiled cIPPacket: `getPayloadLength` and `updateL4Header` of
-- src/packets/ippacket.cpp.
use tcppump.Common.{
  ℕ, ◌+◌, ◌-◌, List, [], ◌∷◌, Bytes, ltb, if◌then◌else◌, Result, ok, err, bug, ◌>>=◌,
}
use tcppump.Ethernet.{EthernetPacket, update_payload_at}
use tcppump.Ip.Packet.{IpPacket, get_header_length}

-- The loop of `getPayloadLength` over the packets.
unfoldable pub payload_lengths : ℕ → List EthernetPacket → ℕ → Result ℕ
payload_lengths header [] len = ok len
payload_lengths header (p ∷ ps) len =
    let rest = payload_lengths header ps (len + (p.payload_length - header)) in
    if ltb header p.payload_length then rest else err bug

unfoldable pub get_payload_length : IpPacket → Result ℕ
get_payload_length ip = payload_lengths (get_header_length ip) (ip.first ∷ ip.others) 0

unfoldable pub update_l4_header : IpPacket → Bytes → Result IpPacket
update_l4_header ip l4_header =
    if ltb (get_header_length ip) ip.first.payload_length
    then (update_payload_at ip.first (get_header_length ip) l4_header >>= λ p.
        ok (record ip { first = p }))
    else err bug

-- ===== src/Ip/Packet.antt =====
-- The state of `cIPPacket` (src/packets/ippacket.hpp) for IPv4, and its setters.
use tcppump.Common.{
  ℕ, ◌+◌, ◌*◌, ◌^◌, bit_and, Bool, true, List, [], ◌∷◌, if◌then◌else◌, ◌==◌, Bytes,
}
use tcppump.Ethernet.{EthernetPacket, set_dest_mac}

-- `m_packets` is never empty: the packet of the constructor, and those that `v4compile` adds.
pub record IpPacket : Type 0 where
  pub mtu : ℕ
  pub first : EthernetPacket
  pub others : List EthernetPacket
  pub dscp : ℕ
  pub ecn : ℕ
  pub ttl : ℕ
  pub src_ip : Bytes
  pub dst_ip : Bytes
  pub dont_fragment : Bool
  pub identification : ℕ
  pub has_id : Bool
  pub has_router_alert_option : Bool
  pub has_chksum : Bool
  pub chksum : ℕ

-- sizeof (ipv4_header_with_router_alert_t) or sizeof (ipv4_header_t).
abbrev pub get_header_length : IpPacket → ℕ
get_header_length ip = if ip.has_router_alert_option then 24 else 20

unfoldable pub set_identification : IpPacket → ℕ → IpPacket
set_identification ip id = record ip { identification = id; has_id = true }

unfoldable pub set_header_chksum : IpPacket → ℕ → IpPacket
set_header_chksum ip cksum = record ip { has_chksum = true; chksum = cksum }

pub add_router_alert_option : IpPacket → IpPacket
add_router_alert_option ip = record ip { has_router_alert_option = true }

abbrev pub ntohl : Bytes → ℕ
ntohl (a ∷ b ∷ c ∷ d ∷ []) = a * 2 ^ 24 + b * 2 ^ 16 + c * 2 ^ 8 + d
ntohl _ = 0

-- `cIPv4::isMulticast` of src/common/ipaddress.hpp.
unfoldable pub is_multicast : Bytes → Bool
is_multicast ip = bit_and (ntohl ip) 0xF0000000 == 0xE0000000

-- The MAC address of an IPv4 multicast address.
unfoldable pub multicast_mac : Bytes → Bytes
multicast_mac (a ∷ b ∷ c ∷ d ∷ []) = 1 ∷ 0 ∷ 0x5e ∷ bit_and b 0x7f ∷ c ∷ d ∷ []
multicast_mac _ = 0 ∷ 0 ∷ 0 ∷ 0 ∷ 0 ∷ 0 ∷ []

-- Without a destination MAC address a packet to a multicast address gets the one that belongs to it.
unfoldable pub address_multicast : IpPacket → EthernetPacket
address_multicast ip =
    if ip.first.has_dmac
    then ip.first
    else if is_multicast ip.dst_ip
    then set_dest_mac ip.first (multicast_mac ip.dst_ip)
    else ip.first

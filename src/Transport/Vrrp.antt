-- ===== src/Transport/Vrrp.antt =====
-- src/packets/vrrppacket.hpp and src/packets/vrrppacket.cpp.
pub mod Accepted
use tcppump.Common.{
  ℕ, ◌+◌, ◌*◌, ◌/◌, ◌%◌, ◌^◌, ◌≤◌, ◌<◌, ◌≡◌, refl, arith, Bool, false, true, List, [], ◌∷◌, ◌++◌,
  ◌==◌, if◌then◌else◌, Bytes, IsByte, All, All-append, be16, le16, Option, none, some, Result, ok,
  ◌>>=◌, length, length-append,
}
use tcppump.Checksum.{Region, rfc1071, rfc1071_pair}
use tcppump.Checksum.Field.{at_even, pair_accepted}
use tcppump.Ethernet.{set_dest_mac}
use tcppump.Ip.Packet.{IpPacket}
use tcppump.Ip.Fragments.{v4compile}
use tcppump.Transport.{htons, ip4, pseudo_header}

abbrev pub proto_vrrp : ℕ
proto_vrrp = 112

-- vrrp_header_t: `v2v3` is the two bytes of the union, and `chksum` the value in memory.
pub record VrrpHeader : Type 0 where
  pub vers_type : ℕ
  pub vrid : ℕ
  pub prio : ℕ
  pub count_ip_addr : ℕ
  pub v2v3_0 : ℕ
  pub v2v3_1 : ℕ
  pub chksum : ℕ

-- The members of cVrrpPacket beside the cIPPacket that it is.
pub record VrrpPacket : Type 0 where
  pub header : VrrpHeader
  pub vr_ips : List Bytes

abbrev pub zeroed : VrrpPacket
zeroed = record {
  header = record {
    vers_type = 0;
    vrid = 0;
    prio = 0;
    count_ip_addr = 0;
    v2v3_0 = 0;
    v2v3_1 = 0;
    chksum = 0;
  };
  vr_ips = [];
}

-- The masks of the nibbles as remainders and quotients.
abbrev pub get_version : VrrpHeader → ℕ
get_version h = h.vers_type / 16 % 16

unfoldable pub set_version : VrrpHeader → ℕ → VrrpHeader
set_version h version = record h { vers_type = version % 16 * 16 + h.vers_type % 16 }

unfoldable pub set_type : VrrpHeader → ℕ → VrrpHeader
set_type h type = record h { vers_type = type % 16 + h.vers_type / 16 % 16 * 16 }

unfoldable pub set_vrid : VrrpHeader → ℕ → VrrpHeader
set_vrid h vrid = record h { vrid = vrid }

unfoldable pub set_prio : VrrpHeader → ℕ → VrrpHeader
set_prio h prio = record h { prio = prio }

-- Version 2 has one byte for the interval, behind the authentication type.
unfoldable pub set_interval : VrrpHeader → ℕ → VrrpHeader
set_interval h interval =
    if get_version h == 2
    then record h { v2v3_1 = interval % 256 }
    else record h { v2v3_0 = interval / 256 % 256; v2v3_1 = interval % 256 }

unfoldable pub set_checksum : VrrpHeader → ℕ → VrrpHeader
set_checksum h checksum = record h { chksum = htons checksum }

unfoldable pub add_virtual_ip : VrrpPacket → Bytes → VrrpPacket
add_virtual_ip p vip = record p { vr_ips = p.vr_ips ++ vip ∷ [] }

abbrev pub front : VrrpHeader → Bytes
front h = h.vers_type ∷ h.vrid ∷ h.prio ∷ h.count_ip_addr ∷ h.v2v3_0 ∷ h.v2v3_1 ∷ []

abbrev pub packed : VrrpHeader → Bytes
packed h = front h ++ (le16 h.chksum ++ [])

abbrev pub addresses : List Bytes → Bytes
addresses [] = []
addresses (a ∷ ips) = a ++ addresses ips

-- The count, and the obsolete authentication data of version 2: two addresses of zeros.
unfoldable pub completed : VrrpPacket → VrrpPacket
completed p =
    let counted = record p { header = record p.header { count_ip_addr = length p.vr_ips % 256 } } in
    let zeros = 0 ∷ 0 ∷ 0 ∷ 0 ∷ [] in
    if get_version p.header == 2
    then add_virtual_ip (add_virtual_ip counted zeros) zeros
    else counted

-- The sum over the header as it is, with whatever is in its checksum field.
unfoldable pub calc_chksum : IpPacket → VrrpPacket → Result ℕ
calc_chksum ip p =
    let ips = addresses p.vr_ips in
    let region : Region = record { odd_address = false; bytes = packed p.header } in
    if get_version p.header == 2
    then rfc1071_pair region (at_even ips)
    else rfc1071
        (at_even (pseudo_header (ip4 ip.src_ip ip.dst_ip) proto_vrrp (8 + 4 * length p.vr_ips)))
        (some region) (at_even ips)

unfoldable pub summed : IpPacket → VrrpPacket → Bool → Result VrrpPacket
summed ip p true =
    calc_chksum ip p >>= λ c. ok (record p { header = record p.header { chksum = c } })
summed ip p false = ok p

-- The address 224.0.0.18, and the MAC address 00:00:5e:00:01:VRID as the destination.
unfoldable pub directed : IpPacket → VrrpPacket → IpPacket
directed ip p = record ip {
  first = set_dest_mac ip.first (0 ∷ 0 ∷ 0x5e ∷ 0 ∷ 1 ∷ p.header.vrid ∷ []);
  ttl = 255;
  dst_ip = 224 ∷ 0 ∷ 0 ∷ 18 ∷ [];
}

unfoldable pub compile : (ℕ → Bytes) → ℕ → IpPacket → VrrpPacket → Bool → Result (IpPacket × ℕ)
compile fresh next ip p calc_checksum = do
  done ← summed (directed ip p) (completed p) calc_checksum
  v4compile fresh next (directed ip p) proto_vrrp (packed done.header) (addresses done.vr_ips)

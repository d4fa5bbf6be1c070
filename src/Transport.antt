-- ===== src/Transport.antt =====
-- The layer 4 packets of src/packets that stand on cIPPacket: pseudo headers and checksums.
pub mod Udp
pub mod Vrrp
pub mod Tcp
pub mod Icmp
pub mod Gre
pub mod Igmp
pub mod Vxlan
pub mod GreReader
pub mod Accepted
use tcppump.Common.{
  ℕ, ◌+◌, ◌*◌, ◌/◌, ◌%◌, ◌^◌, false, [], ◌∷◌, ◌++◌, ◌==◌, if◌then◌else◌, Bytes, be16, be32, Option,
  some, Result, ok, ◌>>=◌,
}
use tcppump.Checksum.{Region, rfc1071}

-- What `field = x` for a uint16_t means if x is `htons (value)`, on a little-endian host.
abbrev pub htons : ℕ → ℕ
htons value = value % 256 * 256 + value / 256 % 256

-- `getSource` and `getDestination`, of either IP version, as in_addr or in6_addr in memory.
pub data Endpoints : Type 0 where
  ip4 : Bytes → Bytes → Endpoints
  ip6 : Bytes → Bytes → Endpoints

-- ipv4_pseudo_header_t or ipv6_pseudo_header_t, for `len` bytes of IP payload.
unfoldable pub pseudo_header : Endpoints → ℕ → ℕ → Bytes
pseudo_header (ip4 src dst) protocol len = src ++ (dst ++ (0 ∷ protocol ∷ be16 (len % 2 ^ 16)))
pseudo_header (ip6 src dst) protocol len =
    src ++ (dst ++ (be32 (len % 2 ^ 32) ++ (0 ∷ 0 ∷ 0 ∷ protocol ∷ [])))

-- `calcChecksum`: a checksum of zero is sent as 0xffff.
unfoldable pub calc_checksum : Endpoints → ℕ → ℕ → Bytes → Option Region → Result ℕ
calc_checksum ends protocol len header payload =
    rfc1071 (some (record { odd_address = false; bytes = pseudo_header ends protocol len }))
      (some (record { odd_address = false; bytes = header })) payload
    >>= λ chksum. ok (if chksum == 0 then 0xffff else chksum)

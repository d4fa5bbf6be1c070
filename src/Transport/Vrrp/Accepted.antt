-- ===== src/Transport/Vrrp/Accepted.antt =====
-- The checksum of src/packets/vrrppacket.cpp against a receiver that sums what it gets.
use tcppump.Common.{
  ℕ, ◌+◌, ◌*◌, ◌/◌, ◌%◌, ◌≤◌, ◌≡◌, ◌≢◌, refl, sym, false, some, arith, Bool-cases, inl, inr, true,
  List, [], ◌∷◌, ◌==◌, Bytes, IsByte, All, All-append, ok, length, length-append,
}
use tcppump.Checksum.{Region, rfc1071, rfc1071_pair}
use tcppump.Checksum.Field.{at_even, pair_accepted, computed_accepted}
use tcppump.Ip.Packet.{IpPacket}
use tcppump.Transport.{ip4, pseudo_header}
use tcppump.Transport.Accepted.{
  HasSize, received_pseudo, pseudo_header-received, length-pseudo_header, pseudo_header-IsByte,
}
use tcppump.Transport.Vrrp.{
  VrrpHeader, VrrpPacket, get_version, front, addresses, calc_chksum, summed, proto_vrrp,
}

abbrev pub IsAddress : Bytes → Type 0
IsAddress a = (length a ≡ 4) × All IsByte a

abbrev pub HasBytes : VrrpHeader → Type 0
HasBytes h = All IsByte (front h)

addresses-IsByte : (ips : List Bytes) → All IsAddress ips → All IsByte (addresses ips)
addresses-IsByte [] h = tt
addresses-IsByte (a ∷ ips) h = All-append IsByte a (addresses ips) h.0.1 (addresses-IsByte ips h.1)

length-addresses : (ips : List Bytes) → All IsAddress ips → length (addresses ips) ≡ 4 * length ips
length-addresses [] h = omega arith
length-addresses (a ∷ ips) h =
    omega (arith, length-append a (addresses ips), h.0.0, length-addresses ips h.1)

abbrev pub with_chksum : VrrpPacket → ℕ → VrrpPacket
with_chksum p c = record p { header = record p.header { chksum = c } }

-- The VRRP packet that a receiver gets: eight bytes of header with the checksum `c` in the last two, and
-- the addresses.
abbrev pub received : VrrpHeader → ℕ → Region
received h c = record {
  odd_address = false;
  bytes =
      h.vers_type
      ∷ h.vrid
      ∷ h.prio
      ∷ h.count_ip_addr
      ∷ h.v2v3_0
      ∷ h.v2v3_1
      ∷ c % 256
      ∷ c / 256 % 256
      ∷ [];
}

-- A VRRP packet of either version gets a checksum that a receiver accepts. In version 2 it sums the
-- packet alone, and in any other a pseudo header too, with the addresses, protocol 112 and the length of the
-- packet: the sum is 0. The checksum field is 0 before, the fields are bytes, and there are at most 1000
-- addresses of four bytes.
pub summed_accepted :
    (ip : IpPacket) (p : VrrpPacket)
    → p.header.chksum ≡ 0
    → HasBytes p.header
    → All IsAddress p.vr_ips
    → length p.vr_ips ≤ 1000
    → IsAddress ip.src_ip
    → IsAddress ip.dst_ip
    → (c : ℕ) × (summed ip p true ≡ ok (with_chksum p c))
      × (p.header.vers_type / 16 % 16 ≡ 2
          → rfc1071_pair (received p.header c) (at_even (addresses p.vr_ips)) ≡ ok 0)
      × (p.header.vers_type / 16 % 16 ≢ 2
          → rfc1071
              (at_even (received_pseudo (ip4 ip.src_ip ip.dst_ip) 112 (8 + 4 * length p.vr_ips)))
              (some (received p.header c))
              (at_even (addresses p.vr_ips))
            ≡ ok 0)
unfolding summed calc_chksum
summed_accepted ip p zero b b_ips few src dst = elim (Bool-cases (get_version p.header == 2)) [
  | inl k ↦
      let (c, computed, accepted) =
        pair_accepted (front p.header) [] (at_even (addresses p.vr_ips)) refl refl b tt
          (addresses-IsByte p.vr_ips b_ips) (omega (arith, few, length-addresses p.vr_ips b_ips)) in
      (c, rw (k, zero, computed) refl, λ v. accepted, λ other. absurd (ground (arith, k, other)))
  | inr k ↦
      let ends = ip4 ip.src_ip ip.dst_ip in
      let len = 8 + 4 * length p.vr_ips in
      let size : HasSize ends = (src.0, dst.0, src.1, dst.1) in
      let pseudo = length-pseudo_header ends proto_vrrp len size in
      let (c, computed, accepted) =
        computed_accepted (pseudo_header ends proto_vrrp len) (front p.header) []
          (at_even (addresses p.vr_ips)) pseudo.0 refl refl
          (pseudo_header-IsByte ends proto_vrrp len size (omega arith)) b tt
          (addresses-IsByte p.vr_ips b_ips)
          (omega (arith, few, length-addresses p.vr_ips b_ips, pseudo.1)) in
      (
        c,
        rw (k, zero, computed) refl,
        λ v. absurd (ground (arith, k, v)),
        λ other. rw (sym (pseudo_header-received ends 112 len (omega (arith, few)))) accepted,
      )
]

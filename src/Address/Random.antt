-- ===== src/Address/Random.antt =====
-- Random addresses are addresses of a single receiver.
use tcppump.Common.{
  ℕ, ◌/◌, ◌%◌, ◌^◌, ◌<◌, ◌≡◌, ◌≢◌, arith, true, false, Bool-cases, inl, inr, [], ◌∷◌, ◌==◌,
  if◌then◌else◌, Bytes, ok, Result,
}
use tcppump.Address.{random_ipv4, random_ipv6, rand32, set_random_mac}

-- The bit that makes a MAC address one of a group, and the first bytes of multicast addresses of IPv4,
-- 224 to 239, and of IPv6.
abbrev pub IsUnicastMac : Result (Bytes × ℕ) → Type 0
IsUnicastMac (ok (a ∷ mac, k)) = a % 2 ≡ 0
IsUnicastMac _ = ⊥

abbrev pub IsUnicastIpv4 : Bytes → Type 0
IsUnicastIpv4 [] = ⊥
IsUnicastIpv4 (a ∷ ip) = a / 16 ≢ 14

abbrev pub IsUnicastIpv6 : Bytes → Type 0
IsUnicastIpv6 [] = ⊥
IsUnicastIpv6 (a ∷ ip) = a ≢ 0xff

head_of_ipv4 :
    (ip : ℕ)
    → ip < 2 ^ 32
    → (if ip / 2 ^ 28 == 14 then ip % 2 ^ 31 else ip) / 2 ^ 24 % 256 / 16 ≢ 14
head_of_ipv4 ip h = elim (Bool-cases (ip / 2 ^ 28 == 14)) [
  | inl k ↦ rw k (λ e. absurd (omega arith))
  | inr k ↦ rw k (λ e. ground arith)
]

head_of_ipv6 : (a : ℕ) → (if a == 0xff then 0x3f else a) ≢ 0xff
head_of_ipv6 a = elim (Bool-cases (a == 0xff)) [
  | inl k ↦ rw k (λ e. absurd (omega arith))
  | inr k ↦ rw k (λ e. ground arith)
]

-- Whatever numbers the random generator gives, `*` never becomes a multicast address: neither a MAC
-- address that is to be unicast, nor an IPv4 or an IPv6 address.
pub random-IsUnicast :
    (random : ℕ → ℕ) (k : ℕ)
    → IsUnicastMac (set_random_mac true false random k)
      × IsUnicastIpv4 (random_ipv4 (random k))
      × IsUnicastIpv6 (random_ipv6 random k)
unfolding set_random_mac random_ipv4 random_ipv6
random-IsUnicast random k = (
  omega arith,
  head_of_ipv4 (rand32 (random k)) (omega arith),
  head_of_ipv6 (rand32 (random k) % 256),
)

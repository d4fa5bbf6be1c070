-- ===== src/Tests/Addresses.antt =====
-- Addresses (src/common/macaddress.hpp, src/common/ipaddress.hpp) on concrete texts.
use tcppump.Common.{ℕ, ◌+◌, ◌*◌, ◌≡◌, refl, arith, true, false, [], ◌∷◌, Bytes, none, some}
use tcppump.Text.{codes}
use tcppump.Params.Values.{rand}
use tcppump.Address.{dec_to_uint8, set_mac, set_ipv4, set_random_mac, random_ipv4, random_ipv6}
use tcppump.Address.Sizes.{HasBytes, set-HasBytes}
use tcppump.Address.Written.{
  hex1, hex2, any_hex, dec1, dec2, dec3, any_dec, set_mac-print, set_ipv4-print,
}
use tcppump.Address.Random.{IsUnicastMac, IsUnicastIpv4, IsUnicastIpv6, random-IsUnicast}

-- A generator whose n-th number is 1000 * n + 77.
abbrev random : ℕ → ℕ
random n = 1000 * n + 77

abbrev written_mac : Bytes
written_mac = codes "00:1b:*:F:0e:*"

set_mac-print_example : set_mac random 3 written_mac ≡ some (0 ∷ 0x1b ∷ 5 ∷ 15 ∷ 14 ∷ 237 ∷ [], 5)
unfolding rand
set_mac-print_example =
    set_mac-print random 3 (hex2 false 0 0)
      (hex2 false 1 11 ∷ any_hex ∷ hex1 true 15 ∷ hex2 false 0 14 ∷ any_hex ∷ []) refl
      (
        (omega arith, omega arith),
        ((omega arith, omega arith), (tt, (omega arith, ((omega arith, omega arith), (tt, tt))))),
      )

set_ipv4-print_example : set_ipv4 random 0 (codes "10.1.*.255") ≡ some (10 ∷ 1 ∷ 77 ∷ 255 ∷ [], 1)
unfolding rand
set_ipv4-print_example =
    set_ipv4-print random 0 (dec2 1 0) (dec1 1 ∷ any_dec ∷ dec3 2 5 5 ∷ []) refl (
      (omega arith, omega arith),
      (omega arith, (tt, ((omega arith, omega arith, omega arith, omega arith), tt))),
    )

set-HasBytes_example :
    HasBytes 6 (set_mac random 0 written_mac) × HasBytes 4 (set_ipv4 random 0 written_mac)
set-HasBytes_example = set-HasBytes random 0 written_mac

random-IsUnicast_example :
    IsUnicastMac (set_random_mac true false random 0)
    × IsUnicastIpv4 (random_ipv4 (random 0))
    × IsUnicastIpv6 (random_ipv6 random 0)
random-IsUnicast_example = random-IsUnicast random 0

-- Texts that are no addresses: too few fields, a number above 255, and a separator at the end.
not_addresses :
    (set_mac random 0 (codes "00:11:22:33:44") ≡ none)
    × (set_ipv4 random 0 (codes "1.2.3.256") ≡ none)
    × (set_ipv4 random 0 (codes "1.2.3.4.") ≡ none)
unfolding set_mac set_ipv4 dec_to_uint8
not_addresses = (refl, refl, refl)

-- ===== src/Checksum/Sum.antt =====
-- What the loops of `rfc1071_calc` add up: the little-endian 16-bit words of their bytes.
use tcppump.Common.{
  ℕ, ◌+◌, ◌*◌, ◌/◌, ◌%◌, ◌^◌, ◌≤◌, ◌<◌, ◌≡◌, refl, arith, [], ◌∷◌, ◌++◌, bit_or_low, length, All,
  Bytes, IsByte, Bool, true, false,
}
use tcppump.Checksum.{Region, calc_bytewise, calc_wordwise, rfc1071_calc}

-- The sum of the words as a number that does not wrap; a last single byte is a word of its own.
abbrev pub word_sum : Bytes → ℕ
word_sum [] = 0
word_sum (a ∷ []) = a
word_sum (a ∷ b ∷ rest) = a + b * 256 + word_sum rest

pub word_sum-append : (p q : Bytes) → length p % 2 ≡ 0 → word_sum (p ++ q) ≡ word_sum p + word_sum q
word_sum-append [] q h = omega arith
word_sum-append (a ∷ []) q h = absurd (omega arith)
word_sum-append (a ∷ b ∷ rest) q h = omega (arith, word_sum-append rest q (omega arith))

-- Each word is below 2^16.
pub word_sum-le : (p : Bytes) → All IsByte p → word_sum p ≤ 65535 * ((length p + 1) / 2)
word_sum-le [] h = omega arith
word_sum-le (a ∷ []) h = omega arith
word_sum-le (a ∷ b ∷ rest) h = omega (arith, word_sum-le rest h.1.1)

calc_wordwise-word_sum :
    (p : Bytes) (sum : ℕ) → sum < 2 ^ 32 → calc_wordwise p sum ≡ (sum + word_sum p) % 2 ^ 32
unfolding calc_wordwise
calc_wordwise-word_sum [] sum h = omega arith
calc_wordwise-word_sum (a ∷ []) sum h = refl
calc_wordwise-word_sum (a ∷ b ∷ rest) sum h =
    omega (arith, calc_wordwise-word_sum rest ((sum + (a + b * 256)) % 2 ^ 32) (omega arith))

calc_bytewise-wordwise :
    (p : Bytes) (sum : ℕ) → All IsByte p → calc_bytewise p sum ≡ calc_wordwise p sum
unfolding calc_bytewise calc_wordwise
calc_bytewise-wordwise [] sum h = refl
calc_bytewise-wordwise (a ∷ []) sum h = refl
calc_bytewise-wordwise (a ∷ b ∷ rest) sum h =
    rw (bit_or_low 8 a b h.0) (calc_bytewise-wordwise rest ((sum + (a + b * 256)) % 2 ^ 32) h.1.1)

calc_of :
    (odd : Bool) (p : Bytes) (sum : ℕ)
    → All IsByte p
    → sum < 2 ^ 32
    → rfc1071_calc (record { odd_address = odd; bytes = p }) sum ≡ (sum + word_sum p) % 2 ^ 32
unfolding rfc1071_calc
calc_of odd [] sum b h = omega arith
calc_of true (a ∷ rest) sum b h =
    ground (arith, calc_bytewise-wordwise (a ∷ rest) sum b, calc_wordwise-word_sum (a ∷ rest) sum h)
calc_of false (a ∷ rest) sum b h = ground (arith, calc_wordwise-word_sum (a ∷ rest) sum h)

pub rfc1071_calc-word_sum :
    (p : Region) (sum : ℕ)
    → All IsByte p.bytes
    → sum < 2 ^ 32
    → rfc1071_calc p sum ≡ (sum + word_sum p.bytes) % 2 ^ 32
rfc1071_calc-word_sum p sum b h = calc_of p.odd_address p.bytes sum b h

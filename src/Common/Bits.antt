-- ===== src/Common/Bits.antt =====
-- `|` of disjoint bit fields is `+`, and `&` with a mask of ones is `%`, at every width.
use Prim.Native.Nat.{
  ℕ, zero, suc, ◌+◌, ◌-◌, ◌*◌, ◌/◌, ◌%◌, ◌^◌, ◌≤◌, ◌<◌, min, max, bit_and, bit_or, digits,
  bit_and-bitwise, bit_or-bitwise,
}
use mathlib.Core.Path.{◌≡◌, refl, ap, ◌∙◌}
use native.Mathlib.Nat.{
  pow-suc, one-le-pow, zero-mod, mod-eq_of_lt, mod-lt, add-mul-mod_self_left, div-add-mod,
}
use native.Mathlib.Omega.{arith}

-- A product with a power of two, one digit at a time.
double : (t k : ℕ) → t * 2 ^ suc k ≡ 2 * (t * 2 ^ k)
double t k = omega (arith, ap (λ (p : ℕ). t * p) (pow-suc 2 k))

or_fuel-zero : (n y : ℕ) → y ≤ n → digits (λ b. b) max n y 0 ≡ y
or_fuel-zero zero y h = omega arith
or_fuel-zero (suc n) zero h = refl
or_fuel-zero (suc n) (suc a) h = omega (arith, or_fuel-zero n (suc a / 2) (omega arith))

or_low_high :
    (k n x t : ℕ) → x ≤ n → x < 2 ^ k → digits (λ b. b) max n x (t * 2 ^ k) ≡ x + t * 2 ^ k
or_low_high k zero x t h lt = omega arith
or_low_high k (suc n) zero t h lt = omega arith
or_low_high zero (suc n) (suc a) t h lt = absurd (omega arith)
or_low_high (suc k) (suc n) (suc a) t h lt =
    let halves : t * 2 ^ suc k / 2 ≡ t * 2 ^ k = omega (arith, double t k) in
    let rest = or_low_high k n (suc a / 2) t (omega arith) (omega (arith, pow-suc 2 k)) in
    omega (arith, ap (λ (y : ℕ). digits (λ b. b) max n (suc a / 2) y) halves, rest, double t k)

or_high_low :
    (k n y x t : ℕ) → y ≤ n → y ≡ t * 2 ^ k → x < 2 ^ k → digits (λ b. b) max n y x ≡ y + x
or_high_low k zero y x t h e lt = omega arith
or_high_low k (suc n) zero x t h e lt = omega arith
or_high_low zero (suc n) (suc a) x t h e lt =
    let none : x ≡ 0 = omega arith in
    omega (
      arith,
      ap (λ (b : ℕ). digits (λ b. b) max (suc n) (suc a) b) none,
      or_fuel-zero (suc n) (suc a) h,
    )
or_high_low (suc k) (suc n) (suc a) x t h e lt =
    let half : suc a / 2 ≡ t * 2 ^ k = omega (arith, double t k) in
    let rest =
      or_high_low k n (suc a / 2) (x / 2) t (omega arith) half (omega (arith, pow-suc 2 k)) in
    omega (arith, rest, double t k)

-- `x | t << k` and `t << k | x` for a field `x` of `k` bits.
pub bit_or_low : (k x t : ℕ) → x < 2 ^ k → bit_or x (t * 2 ^ k) ≡ x + t * 2 ^ k
bit_or_low k x t h = simp bit_or-bitwise (or_low_high k x x t (omega arith) h)

pub bit_or_high : (k x t : ℕ) → x < 2 ^ k → bit_or (t * 2 ^ k) x ≡ t * 2 ^ k + x
bit_or_high k x t h =
    simp bit_or-bitwise (or_high_low k (t * 2 ^ k) (t * 2 ^ k) x t (omega arith) refl h)

le_zero : (x : ℕ) → x ≤ 0 → x ≡ 0
le_zero x h = omega arith

twice : (p : ℕ) → p * 2 ≡ 2 * p
twice p = omega arith

and_fuel-zero : (n x : ℕ) → digits (λ b. zero) min n x 0 ≡ 0
and_fuel-zero zero x = refl
and_fuel-zero (suc n) zero = refl
and_fuel-zero (suc n) (suc a) = omega (arith, and_fuel-zero n (suc a / 2))

-- The remainder by twice `p`, with the lowest digit split off.
mod_double : (x p : ℕ) → 0 < p → x % (2 * p) ≡ x / 2 % p * 2 + x % 2
mod_double x p h =
    let low : ℕ = x / 2 % p * 2 + x % 2 in
    let split : x ≡ low + 2 * p * (x / 2 / p) =
      omega (arith, div-add-mod (x / 2) p, ap (λ (t : ℕ). 2 * t) (div-add-mod (x / 2) p)) in
    ap (λ (t : ℕ). t % (2 * p)) split
    ∙ add-mul-mod_self_left low (2 * p) (x / 2 / p)
    ∙ mod-eq_of_lt (omega (arith, mod-lt (x / 2) h))

and_ones : (k n x : ℕ) → x ≤ n → digits (λ b. zero) min n x (2 ^ k - 1) ≡ x % 2 ^ k
and_ones zero n x h = omega (arith, and_fuel-zero n x)
and_ones (suc k) zero x h = rw (le_zero x h) (omega (arith, zero-mod (2 ^ suc k)))
and_ones (suc k) (suc n) zero h = omega (arith, zero-mod (2 ^ suc k))
and_ones (suc k) (suc n) (suc a) h =
    let mask : (2 ^ suc k - 1) / 2 ≡ 2 ^ k - 1 =
      omega (arith, pow-suc 2 k, one-le-pow k 2 (omega arith)) in
    omega (
      arith,
      ap (λ (m : ℕ). digits (λ b. zero) min n (suc a / 2) m) mask,
      and_ones k n (suc a / 2) (omega arith),
      mod_double (suc a) (2 ^ k) (one-le-pow k 2 (omega arith)),
      ap (λ (m : ℕ). suc a % m) (pow-suc 2 k),
      ap (λ (m : ℕ). suc a % m) (twice (2 ^ k)),
      pow-suc 2 k,
      one-le-pow k 2 (omega arith),
    )

-- `x & (2^k - 1)`.
pub bit_and_low : (k x : ℕ) → bit_and x (2 ^ k - 1) ≡ x % 2 ^ k
bit_and_low k x = simp bit_and-bitwise (and_ones k x x (omega arith))

-- Half of `x`, `k` times.
abbrev pub halve : ℕ → ℕ → ℕ
halve zero x = x
halve (suc k) x = halve k (x / 2)

halve-zero : (k : ℕ) → halve k 0 ≡ 0
halve-zero zero = refl
halve-zero (suc k) = halve-zero k

and_field :
    (j k n x : ℕ)
    → x ≤ n
    → digits (λ b. zero) min n x ((2 ^ j - 1) * 2 ^ k) ≡ halve k x % 2 ^ j * 2 ^ k
and_field j zero n x h =
    let mask : (2 ^ j - 1) * 2 ^ 0 ≡ 2 ^ j - 1 = omega arith in
    omega (arith, ap (λ (m : ℕ). digits (λ b. zero) min n x m) mask, and_ones j n x h)
and_field j (suc k) zero x h = rw (le_zero x h, halve-zero k, zero-mod (2 ^ j)) (omega arith)
and_field j (suc k) (suc n) zero h = rw (halve-zero k, zero-mod (2 ^ j)) (omega arith)
and_field j (suc k) (suc n) (suc a) h =
    let mask : (2 ^ j - 1) * 2 ^ suc k / 2 ≡ (2 ^ j - 1) * 2 ^ k =
      omega (arith, double (2 ^ j - 1) k) in
    omega (
      arith,
      ap (λ (m : ℕ). digits (λ b. zero) min n (suc a / 2) m) mask,
      and_field j k n (suc a / 2) (omega arith),
      double (2 ^ j - 1) k,
      double (halve k (suc a / 2) % 2 ^ j) k,
    )

-- `x & mask << k` for a mask of `j` ones.
pub bit_and_field : (j k x : ℕ) → bit_and x ((2 ^ j - 1) * 2 ^ k) ≡ halve k x % 2 ^ j * 2 ^ k
bit_and_field j k x = simp bit_and-bitwise (and_field j k x x (omega arith))

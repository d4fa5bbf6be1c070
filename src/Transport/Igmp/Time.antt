-- ===== src/Transport/Igmp/Time.antt =====
-- `floatToTime` of src/packets/igmppacket.cpp against a receiver that reads the code (RFC 3376, 4.1.1).
use tcppump.Common.{
  ℕ, zero, suc, ◌+◌, ◌-◌, ◌*◌, ◌/◌, ◌%◌, ◌^◌, ◌≤◌, ◌<◌, ◌≡◌, refl, ap, ◌∙◌, sym, subst, arith,
  false, Bool-cases, inl, inr, ltb, ltb→lt, le→ltb_false, if◌then◌else◌,
}
use native.Mathlib.Omega.{pow_step}
use native.Mathlib.Nat.{mul-le-mul_right, le-div_iff_mul-le, div-lt_iff_lt-mul}
use tcppump.Transport.Igmp.{Double, below, truncated, normalise, encoded, float_to_time}

-- The time that a receiver reads.
unfoldable pub time_of : ℕ → ℕ
time_of code = if ltb code 128 then code else (code % 16 + 16) * 2 ^ (code / 16 % 8 + 3)

abbrev Lies : ℕ → ℕ → ℕ → Type 0
Lies d unit mant = (mant * unit ≤ d) × (d < (mant + 1) * unit)

-- Half the mantissa, in a unit twice as large.
half_le : (h r unit d : ℕ) → (2 * h + r) * unit ≤ d → h * (2 * unit) ≤ d
half_le h r unit d k = grind arith

half_lt : (h r unit d : ℕ) → r < 2 → d < (2 * h + r + 1) * unit → d < (h + 1) * (2 * unit)
half_lt h r unit d small k = grind arith

Lies-half : (d unit mant : ℕ) → Lies d unit mant → Lies d (2 * unit) (mant / 2)
Lies-half d unit mant h =
    let r : mant ≡ 2 * (mant / 2) + mant % 2 = omega arith in
    let small : mant % 2 < 2 = omega arith in
    (
      half_le (mant / 2) (mant % 2) unit d (subst (λ m. m * unit ≤ d) r h.0),
      half_lt (mant / 2) (mant % 2) unit d small (subst (λ m. d < (m + 1) * unit) r h.1),
    )

abbrev unit_of : ℕ → ℕ
unit_of exp = 2 ^ (exp + 3)

unit-suc : (exp : ℕ) → 2 * unit_of exp ≡ unit_of (exp + 1)
unit-suc exp = sym (ap (λ n. 2 ^ n) e ∙ pow_step 2 (exp + 3))
  where
    e : exp + 1 + 3 ≡ suc (exp + 3)
    e = omega arith

abbrev IsNormal : ℕ → ℕ × ℕ → Type 0
IsNormal d r = (r.0 ≤ 7) × (16 ≤ r.1) × (r.1 < 32) × Lies d (unit_of r.0) r.1

normalise-IsNormal :
    (d fuel exp mant : ℕ)
    → exp + fuel ≤ 7
    → 16 ≤ mant
    → mant < 32 * 2 ^ fuel
    → Lies d (unit_of exp) mant
    → IsNormal d (normalise fuel exp mant)
unfolding normalise
normalise-IsNormal d zero exp mant e low high h = (omega arith, low, omega arith, h)
normalise-IsNormal d (suc fuel) exp mant e low high h = elim (Bool-cases (ltb 31 mant)) [
  | inl k ↦ rw k (
      normalise-IsNormal d fuel (exp + 1) (mant / 2) (omega arith) (ground arith)
        (omega (arith, high, pow_step 2 fuel))
        (subst (λ u. Lies d u (mant / 2)) (unit-suc exp) (Lies-half d (unit_of exp) mant h)))
  | inr k ↦ rw k (omega arith, low, ground arith, h)
]

time_of-encoded : (d : ℕ) (r : ℕ × ℕ) → IsNormal d r → time_of (encoded r) ≡ r.1 * unit_of r.0
unfolding time_of
time_of-encoded d r n =
    let code = encoded r in
    let large : ltb code 128 ≡ false = le→ltb_false code 128 (omega arith) in
    let mant : code % 16 + 16 ≡ r.1 = omega (arith, n.1, n.2) in
    let exp : code / 16 % 8 ≡ r.0 = omega (arith, n.0) in rw (large, mant, exp) refl

-- A whole time of 128 or more: even one more falls short by a sixteenth at most.
abbrev RoundsWhole : ℕ → ℕ → Type 0
RoundsWhole t code =
    (code < 256) × (time_of code ≤ t) × ((t + 1 - time_of code) * 16 ≤ time_of code)

unit_small :
    (t unit mant : ℕ) → 16 ≤ mant → Lies t unit mant → (t + 1 - mant * unit) * 16 ≤ mant * unit
unit_small t unit mant low h = grind arith

normal-RoundsWhole : (t : ℕ) (r : ℕ × ℕ) → IsNormal t r → RoundsWhole t (encoded r)
normal-RoundsWhole t r n =
    rw (time_of-encoded t r n) (omega arith, n.3.0, unit_small t (unit_of r.0) r.1 n.1 n.3)

middle-RoundsWhole : (t : ℕ) → 128 ≤ t → t < 31744 → RoundsWhole t (encoded (normalise 7 0 (t / 8)))
middle-RoundsWhole t low high = normal-RoundsWhole t (normalise 7 0 (t / 8)) (
    normalise-IsNormal t 7 0 (t / 8) (omega arith) (omega arith) (omega arith)
      (omega arith, omega arith))

largest-RoundsWhole : (t : ℕ) → 31744 ≤ t → t < 32768 → RoundsWhole t 255
unfolding time_of
largest-RoundsWhole t h k = (omega arith, omega arith, omega arith)

-- A time `d` against its code: the code is a byte, the receiver's time is not longer, and it falls short
-- by less than one below 128, and by a sixteenth of itself at most from there on.
abbrev pub Rounds : Double → ℕ → Type 0
Rounds d code =
    (code < 256)
    × (time_of code * d.denominator ≤ d.numerator)
    × (d.numerator < 128 * d.denominator → d.numerator < (time_of code + 1) * d.denominator)
    × (128 * d.denominator ≤ d.numerator
        → (d.numerator - time_of code * d.denominator) * 16 ≤ time_of code * d.denominator)

module _ (d : Double) (positive : 0 < d.denominator) where
  truncated_le : truncated d * d.denominator ≤ d.numerator
  truncated_le = (le-div_iff_mul-le positive).0 (omega arith)

  lt_truncated : d.numerator < (truncated d + 1) * d.denominator
  lt_truncated = (div-lt_iff_lt-mul positive).0 (omega arith)

  truncated-lt : (n : ℕ) → d.numerator < n * d.denominator → truncated d < n
  truncated-lt n h = (div-lt_iff_lt-mul positive).1 h

  le-truncated : (n : ℕ) → n * d.denominator ≤ d.numerator → n ≤ truncated d
  le-truncated n h = (le-div_iff_mul-le positive).1 h

below_small : (n m : ℕ) (h : n < 128 * m) → 128 * m ≤ n → ⊥
below_small n m h k = omega (arith, h, k)

-- From whole numbers to fractions.
scaled_le : (t time n m : ℕ) → time ≤ t → t * m ≤ n → time * m ≤ n
scaled_le t time n m h k = grind arith

scaled_sum : (s time n m : ℕ) → s * 16 ≤ time → n < (s + time) * m → (n - time * m) * 16 ≤ time * m
scaled_sum s time n m h k = grind (arith, mul-le-mul_right m h)

scaled_short :
    (t time n m : ℕ)
    → time ≤ t
    → (t + 1 - time) * 16 ≤ time
    → n < (t + 1) * m
    → (n - time * m) * 16 ≤ time * m
scaled_short t time n m h k l =
    let split : t + 1 ≡ t + 1 - time + time = omega arith in
    scaled_sum (t + 1 - time) time n m k (subst (λ x. n < x * m) split l)

whole-Rounds :
    (d : Double) (code : ℕ)
    → 0 < d.denominator
    → 128 * d.denominator ≤ d.numerator
    → RoundsWhole (truncated d) code
    → Rounds d code
whole-Rounds d code positive large h = (
  h.0,
  scaled_le (truncated d) (time_of code) d.numerator d.denominator h.1 (truncated_le d positive),
  λ small. absurd (below_small d.numerator d.denominator small large),
  λ l.
      scaled_short (truncated d) (time_of code) d.numerator d.denominator h.1 h.2
        (lt_truncated d positive),
)

time_of_small : (t : ℕ) → t < 128 → time_of t ≡ t
unfolding time_of
time_of_small t h = ground (arith, h)

small-Rounds :
    (d : Double)
    → 0 < d.denominator
    → d.numerator < 128 * d.denominator
    → Rounds d (truncated d % 256)
small-Rounds d positive h =
    let small : truncated d < 128 = truncated-lt d positive 128 h in
    let code : truncated d % 256 ≡ truncated d = omega (arith, small) in
    rw (code, time_of_small (truncated d) small)
      (
        omega (arith, small),
        truncated_le d positive,
        λ k. lt_truncated d positive,
        λ k. absurd (below_small d.numerator d.denominator h k),
      )

-- A response time below 32768 that is finite and not negative, with or without a part behind the point,
-- has a code of one byte, from which a receiver reads a time that is never longer. It falls short by less
-- than one unit if the response time is below 128, and else by a sixteenth at most of what is read.
pub float_to_time-Rounds :
    (d : Double)
    → 0 < d.denominator
    → d.numerator < 32768 * d.denominator
    → Rounds d (float_to_time d)
unfolding float_to_time
float_to_time-Rounds d positive h = elim (Bool-cases (below d 128)) [
  | inl k ↦ rw k (small-Rounds d positive (ltb→lt d.numerator (128 * d.denominator) k))
  | inr k ↦
      let large : 128 * d.denominator ≤ d.numerator = ground (arith, k) in
      elim (Bool-cases (below d 31744)) [
        | inl l ↦
            let lt = ltb→lt d.numerator (31744 * d.denominator) l in
            rw (k, l)
              (whole-Rounds d (encoded (normalise 7 0 (truncated d / 8))) positive large (
                middle-RoundsWhole (truncated d) (le-truncated d positive 128 large)
                  (truncated-lt d positive 31744 lt)))
        | inr l ↦
            let most : 31744 * d.denominator ≤ d.numerator = ground (arith, l) in
            rw (k, l)
              (whole-Rounds d 255 positive large (
                largest-RoundsWhole (truncated d) (le-truncated d positive 31744 most)
                  (truncated-lt d positive 32768 h)))
      ]
]

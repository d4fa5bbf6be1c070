-- ===== src/Checksum/Complement.antt =====
-- `rfc1071_finalize`: two folds of the carries are enough for every uint32_t sum.
use tcppump.Common.{ℕ, ◌+◌, ◌-◌, ◌/◌, ◌%◌, ◌^◌, ◌<◌, ◌≡◌, arith, bit_and_low, ◌↔◌}
use tcppump.Checksum.{rfc1071_finalize}

-- The same folds in plain arithmetic.
abbrev fold : ℕ → ℕ
fold s = s % 65536 + s / 65536

finalize-fold : (s : ℕ) → s < 2 ^ 32 → rfc1071_finalize s ≡ 65535 - fold (fold s)
unfolding rfc1071_finalize
finalize-fold s h = rw (bit_and_low 16, bit_and_low 16) (omega arith)

-- The checksum is the one's complement of the sum: together they are a multiple of 65535.
pub finalize-complements :
    (s : ℕ) → s < 2 ^ 32 → (rfc1071_finalize s < 65536) × ((rfc1071_finalize s + s) % 65535 ≡ 0)
finalize-complements s h = (omega (arith, finalize-fold s h), omega (arith, finalize-fold s h))

pub finalize_ones : (s : ℕ) → s < 2 ^ 32 → (rfc1071_finalize s ≡ 65535) ↔ (s ≡ 0)
finalize_ones s h = (λ e. omega (arith, finalize-fold s h), λ e. omega (arith, finalize-fold s h))

pub finalize_zero : (s : ℕ) → s < 2 ^ 32 → (rfc1071_finalize s ≡ 0) ↔ ((0 < s) × (s % 65535 ≡ 0))
finalize_zero s h = (
  λ e. (omega (arith, finalize-fold s h), omega (arith, finalize-fold s h)),
  λ e. omega (arith, finalize-fold s h, e.0, e.1),
)

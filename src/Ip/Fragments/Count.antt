-- ===== src/Ip/Fragments/Count.antt =====
-- The number of fragments, and what each of them carries.
use tcppump.Common.{ℕ, ◌+◌, ◌-◌, ◌*◌, ◌/◌, ◌%◌, ◌^◌, ◌≤◌, ◌<◌, ◌≡◌, ap, ap₂, arith}
use tcppump.Ip.Fragments.{fragment_count}
use native.Mathlib.Nat.{div-le_self, div-add-mod', mod-lt}

-- The wrapping arithmetic of `fragCnt` is the rounded up quotient, if there is data, at most 65535
-- bytes, and the MTU exceeds the header.
pub fragment_count-div :
    (mtu header total : ℕ)
    → header < mtu
    → mtu < 2 ^ 32
    → 0 < total
    → total < 65536
    → fragment_count mtu header total ≡ (total - 1) / (mtu - header) + 1
unfolding fragment_count
fragment_count-div mtu header total room small some_data short =
    let top : (total + 2 ^ 64 - 1) % 2 ^ 64 ≡ total - 1 = omega arith in
    let bottom : (mtu + 2 ^ 64 - header) % 2 ^ 64 ≡ mtu - header = omega arith in
    omega (arith, ap₂ (λ (a b : ℕ). a / b) top bottom, div-le_self (total - 1) (mtu - header))

-- With `k` as the number of fragments before the last, each of at most `m` bytes, there is data left
-- for the last one.
pub count_lower : (k m total : ℕ) → 0 < total → k ≡ (total - 1) / m → k * m < total
count_lower k m total some_data e =
    omega (arith, div-add-mod' (total - 1) m, ap (λ (q : ℕ). q * m) e)

pub count_upper : (k m total : ℕ) → 0 < m → 0 < total → k ≡ (total - 1) / m → total ≤ k * m + m
count_upper k m total room some_data e =
    omega (arith, div-add-mod' (total - 1) m, ap (λ (q : ℕ). q * m) e, mod-lt (total - 1) room)

-- ===== src/Params/Values/Numerals.antt =====
-- Integers as they are written, in decimal, octal or hexadecimal digits, and what is read.
use tcppump.Common.{
  ℕ, suc, ◌+◌, ◌*◌, ◌^◌, ◌≤◌, ◌<◌, ◌≡◌, refl, sym, ap, ◌∙◌, arith, Bool, true, false, ◌&&◌, List,
  [], ◌∷◌, leb, ◌==◌, if◌then◌else◌, length, map, All, Bytes, ex_par_range, err, ok, le→ltb_false,
}
use tcppump.Text.{at, is_digit}
use tcppump.Params.Values.{
  digit, digits, based, ranged, strtoull, is_random_integer, checked_number, as_int, has_hex_prefix,
}
use tcppump.Params.Values.Streams.{hex_digit}

-- The digits of a number: a decimal one begins with one that is not 0, and an octal one has a 0 in
-- front; a hexadecimal one has `0x` or `0X` in front, and small or capital letters.
pub data Numeral : Type 0 where
  decimal : ℕ → List ℕ → Numeral
  octal : List ℕ → Numeral
  hexadecimal : Bool → Bool → ℕ → List ℕ → Numeral

abbrev pub print_digits : Bool → List ℕ → Bytes
print_digits capital ds = map (hex_digit capital) ds

abbrev pub print_numeral : Numeral → Bytes
print_numeral (decimal a ds) = print_digits false (a ∷ ds)
print_numeral (octal ds) = b'0' ∷ print_digits false ds
print_numeral (hexadecimal big capital a ds) =
    b'0' ∷ (if big then b'X' else b'x') ∷ print_digits capital (a ∷ ds)

abbrev pub fold_digits : ℕ → ℕ → List ℕ → ℕ
fold_digits base acc [] = acc
fold_digits base acc (d ∷ ds) = fold_digits base (acc * base + d) ds

abbrev pub value_of : Numeral → ℕ
value_of (decimal a ds) = fold_digits 10 0 (a ∷ ds)
value_of (octal ds) = fold_digits 8 0 (0 ∷ ds)
value_of (hexadecimal big capital a ds) = fold_digits 16 0 (a ∷ ds)

abbrev pub IsNumeral : Numeral → Type 0
IsNumeral (decimal a ds) = (1 ≤ a) × (a < 10) × All (λ d. d < 10) ds
IsNumeral (octal ds) = All (λ d. d < 8) ds
IsNumeral (hexadecimal big capital a ds) = All (λ d. d < 16) (a ∷ ds)

digit-hex : (capital : Bool) (d : ℕ) → d < 16 → digit (hex_digit capital d) ≡ d
digit-hex true d h = ground arith
digit-hex false d h = ground arith

digits-print :
    (base : ℕ) (capital : Bool) (acc count : ℕ) (ds : List ℕ)
    → base ≤ 16
    → All (λ d. d < base) ds
    → digits base acc count (print_digits capital ds)
      ≡ (fold_digits base acc ds, count + length ds, [])
digits-print base capital acc count [] small h = ap (λ n. (acc, n, [])) (omega arith)
digits-print base capital acc count (d ∷ ds) small h =
    rw
      (
        digit-hex capital d (omega (arith, h.0)),
        digits-print base capital (acc * base + d) (count + 1) ds small h.1,
      )
      (ground (arith, h.0))

whole_digits-print :
    (base : ℕ) (capital : Bool) (ds : List ℕ)
    → base ≤ 16
    → All (λ d. d < base) ds
    → digits base 0 0 (print_digits capital ds) ≡ (fold_digits base 0 ds, length ds, [])
whole_digits-print base capital ds small h =
    digits-print base capital 0 0 ds small h
    ∙ ap (λ n. (fold_digits base 0 ds, n, [])) (omega arith)

-- A number of which the digits make `n`, as `strtoull` reads it to the end of the text.
abbrev IsRead : ℕ → Bytes → Type 0
IsRead n p = (count : ℕ) × (based 0 p ≡ (n, suc count, []))

small_digit : (d : ℕ) → d < 10 → hex_digit false d ≡ d + b'0'
small_digit d h = ground arith

no_prefix :
    (ds : List ℕ) → All (λ d. d < 8) ds → has_hex_prefix (b'0' ∷ print_digits false ds) ≡ false
no_prefix [] h = refl
no_prefix (d ∷ ds) h = rw (small_digit d (omega (arith, h.0))) (ground (arith, h.0))

decimal_first :
    (a : ℕ) (p : Bytes) → 1 ≤ a → a < 10 → based 0 ((a + b'0') ∷ p) ≡ digits 10 0 0 ((a + b'0') ∷ p)
decimal_first a p h k = ground arith

prefixed :
    (big capital : Bool) (a : ℕ) (p : Bytes)
    → a < 16
    → based 0 (b'0' ∷ (if big then b'X' else b'x') ∷ hex_digit capital a ∷ p)
      ≡ digits 16 0 0 (hex_digit capital a ∷ p)
prefixed true capital a p h = rw (digit-hex capital a h) (ground arith)
prefixed false capital a p h = rw (digit-hex capital a h) (ground arith)

based-print : (n : Numeral) → IsNumeral n → IsRead (value_of n) (print_numeral n)
based-print (decimal a ds) h = (
  length ds,
  rw (small_digit a h.1) (
      rw (decimal_first a (print_digits false ds) h.0 h.1) (
        ap (λ p. digits 10 0 0 (p ∷ print_digits false ds)) (sym (small_digit a h.1))
        ∙ whole_digits-print 10 false (a ∷ ds) (omega arith) (h.1, h.2))),
)
based-print (octal ds) h = (
  length ds,
  rw (no_prefix ds h) (whole_digits-print 8 false (0 ∷ ds) (omega arith) (omega arith, h)),
)
based-print (hexadecimal big capital a ds) h = (
  length ds,
  rw (prefixed big capital a (print_digits capital ds) h.0)
      (whole_digits-print 16 capital (a ∷ ds) (omega arith) h),
)

starts : (n : Numeral) → IsNumeral n → is_digit (at (print_numeral n)) ≡ true
starts (decimal a ds) h = rw (small_digit a h.1) (ground (arith, h.1))
starts (octal ds) h = refl
starts (hexadecimal big capital a ds) h = refl

digit-ne : (c : ℕ) → is_digit c ≡ true → ((c == b'*') ≡ false) × ((c == b'-') ≡ false)
digit-ne c h = ground arith

checked_digits :
    (first end n count : ℕ) (p : Bytes)
    → end < 2 ^ 64
    → checked_number first end (ranged p false (n, suc count, []))
      ≡ (if leb first n && leb n end then ok n else err ex_par_range)
checked_digits first end n count p wide = ground arith

module _ (r width first end : ℕ) where
  -- An integer in decimal, octal or hexadecimal digits is read as its value, if the caller allows it,
  -- and is out of range else.
  pub as_int-print :
      (n : Numeral)
      → IsNumeral n
      → first ≤ end
      → end < 2 ^ 64
      → as_int r width first end (print_numeral n) ≡ (
          if leb first (value_of n) && leb (value_of n) end
          then ok (value_of n)
          else err ex_par_range)
  unfolding as_int is_random_integer strtoull
  as_int-print n h order wide =
      let (count, reads) = based-print n h in
      let (star, dash) = digit-ne (at (print_numeral n)) (starts n h) in
      rw (le→ltb_false end first order, star, dash, reads)
        (checked_digits first end (value_of n) count (print_numeral n) wide)

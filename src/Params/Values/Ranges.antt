-- ===== src/Params/Values/Ranges.antt =====
-- A number is in the range that is asked for, whatever the text and the random numbers are.
use native.Mathlib.Nat.{mod-lt, mod-eq_of_lt, lt_of_le_of_lt}
use tcppump.Common.{
  le→ltb_false, ℕ, ◌+◌, ◌-◌, ◌%◌, ◌^◌, ◌≤◌, ◌<◌, ◌≡◌, arith, Bool, true, false, Bool-cases, ==_iff,
  inl, inr, ◌||◌, ltb, ◌==◌, if◌then◌else◌, length, Bytes, Option, none, some, ex_par_format,
  Result, err, ok, ◌>>=◌, drop,
}
use tcppump.Text.{at}
use tcppump.Params.Values.{
  Number, ranged, based, strtoull, range, range_begin, range_end, Randomness, fixed, whole, between,
  is_random_integer, rand, checked_number, drawn, as_int,
}

abbrev pub IsIn : ℕ → ℕ → Result ℕ → Type 0
IsIn first end (ok n) = (first ≤ n) × (n ≤ end)
IsIn first end (err e) = Unit

module _ (r min max : ℕ) (small : r < 2 ^ 64) (le : min ≤ max) (fits : max < 2 ^ 64) where
  -- The number of values, which wraps to 0 if these are all.
  abbrev width : ℕ
  width = (max + 2 ^ 64 - min + 1) % 2 ^ 64

  pub rand-IsIn : (min ≤ rand r min max) × (rand r min max ≤ max)
  unfolding rand
  rand-IsIn = elim (Bool-cases (width == 0)) [
    | inl k ↦
        let none_left : width ≡ 0 = (==_iff width 0).0 k in
        rw k (omega (arith, none_left), omega (arith, none_left))
    | inr k ↦
        let some_left : 0 < width = ground arith in
        let below : r % width < width = mod-lt r some_left in
        rw k (omega (arith, below, some_left), omega (arith, below, some_left))
  ]

ranged-lt :
    (p : Bytes) (negative : Bool) (r : ℕ × ℕ × Bytes) → (ranged p negative r).number < 2 ^ 64
ranged-lt p negative r = ground arith

checked_number-IsIn : (first end : ℕ) (n : Number) → IsIn first end (checked_number first end n)
checked_number-IsIn first end n = ground arith

abbrev pub IsRange : Option (ℕ × ℕ) → Type 0
IsRange none = Unit
IsRange (some r) = (r.0 ≤ r.1) × (r.1 < 2 ^ 64)

pub strtoull-lt : (base : ℕ) (p : Bytes) → (strtoull base p).number < 2 ^ 64
unfolding strtoull
strtoull-lt base p = elim (Bool-cases (at p == b'-')) [
  | inl h ↦ rw h (ranged-lt p true (based base (drop 1 p)))
  | inr h ↦ rw h (ranged-lt p false (based base p))
]

range_end-IsRange : (begin : ℕ) (e : Number) → e.number < 2 ^ 64 → IsRange (range_end begin e)
range_end-IsRange begin e h = ground arith

tested-IsRange : (b : Bool) (r : Option (ℕ × ℕ)) → IsRange r → IsRange (if b then none else r)
tested-IsRange true r h = tt
tested-IsRange false r h = h

pub range-IsRange : (base : ℕ) (p : Bytes) → IsRange (range base p)
unfolding range
range-IsRange base p =
    let begin = strtoull base (drop 1 p) in
    let end = strtoull base (drop 1 begin.rest) in
    tested-IsRange _ (range_begin base begin) (
      tested-IsRange _ (range_end begin.number end)
        (range_end-IsRange begin.number end (strtoull-lt base (drop 1 begin.rest))))

abbrev IsBetween : Randomness → Type 0
IsBetween fixed = Unit
IsBetween whole = Unit
IsBetween (between min max) = (min ≤ max) × (max < 2 ^ 64)

abbrev GivesBetween : Result Randomness → Type 0
GivesBetween (ok k) = IsBetween k
GivesBetween (err e) = Unit

of_range :
    (r : Option (ℕ × ℕ))
    → IsRange r
    → GivesBetween (elim r [ none ↦ err ex_par_format | some b ↦ ok (between b.0 b.1) ])
of_range none h = tt
of_range (some b) h = h

is_random_integer-GivesBetween : (v : Bytes) → GivesBetween (is_random_integer v)
unfolding is_random_integer
is_random_integer-GivesBetween v = elim (Bool-cases (at v == b'*')) [
  | inl h ↦ elim (Bool-cases (length v == 1)) [
    | inl k ↦ rw (h, k) tt
    | inr k ↦ rw (h, k) (of_range (range 0 (drop 1 v)) (range-IsRange 0 (drop 1 v)))
  ]
  | inr h ↦ rw h tt
]

module _ (r first end : ℕ) (v : Bytes) (small : r < 2 ^ 64) (le : first ≤ end) (width : ℕ)
    (fits : end < 2 ^ 64) (narrow : end < 2 ^ width) where
  -- A number in the range stays what it is in the narrower type.
  cast-IsIn : (n : ℕ) → first ≤ n → n ≤ end → IsIn first end (ok (n % 2 ^ width))
  cast-IsIn n low high = rw (mod-eq_of_lt (lt_of_le_of_lt high narrow)) (low, high)

  drawn-IsIn : (k : Randomness) → IsBetween k → IsIn first end (drawn r width first end v k)
  drawn-IsIn fixed h = checked_number-IsIn first end (strtoull 0 v)
  drawn-IsIn whole h =
      let (low, high) = rand-IsIn r first end small le fits in cast-IsIn (rand r first end) low high
  drawn-IsIn (between min max) h = elim (Bool-cases (ltb min first || ltb end max)) [
    | inl k ↦ rw k tt
    | inr k ↦
        let (low, high) = rand-IsIn r min max small h.0 h.1 in
        let begin : first ≤ min = ground arith in
        let stop : max ≤ end = ground arith in
        rw k (cast-IsIn (rand r min max) (omega arith) (omega arith))
  ]

  drawn_from :
      (k : Result Randomness)
      → GivesBetween k
      → IsIn first end (k >>= λ d. drawn r width first end v d)
  drawn_from (ok k) h = drawn-IsIn k h
  drawn_from (err e) h = tt

  -- Whatever the text of a value is, a number, `*`, a random range or anything else, and whatever the
  -- random generator gives, the integer that a parameter yields lies in the range that the caller allows;
  -- any other value is an error. The range is not empty and fits the integer's width.
  pub as_int-IsIn : IsIn first end (as_int r width first end v)
  unfolding as_int
  as_int-IsIn =
      rw (le→ltb_false end first le)
        (drawn_from (is_random_integer v) (is_random_integer-GivesBetween v))

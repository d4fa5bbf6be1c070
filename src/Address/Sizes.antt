-- ===== src/Address/Sizes.antt =====
-- What is accepted as an address has the bytes of one.
use tcppump.Common.{
  suc, subst, ℕ, ◌+◌, ◌<◌, ◌≡◌, refl, ap, arith, Bool, true, false, Bool-cases, inl, inr, ◌||◌, not,
  List, [], ◌∷◌, Option, none, some, ltb, ==_iff, ◌==◌, if◌then◌else◌, length, All, Bytes, IsByte,
}
use tcppump.Params.Values.{hex_char_to_int, range}
use tcppump.Address.{
  dec_char_to_int, append_digit, at_most_255, hex_to_uint8, dec_to_uint8, drawn_field, field, calls,
  field_then, fields, tokens, is_star, set_mac, random_ipv4, set_ipv4,
}

-- Every value that there is lies below a bound.
abbrev Under : ℕ → Option ℕ → Type 0
Under bound none = Unit
Under bound (some n) = n < bound

-- `size` bytes, if there is an address at all.
abbrev pub HasBytes : ℕ → Option (Bytes × ℕ) → Type 0
HasBytes size none = Unit
HasBytes size (some r) = (length r.0 ≡ size) × All IsByte r.0

hex_char_to_int-Under : (c : ℕ) → Under 16 (hex_char_to_int c)
unfolding hex_char_to_int
hex_char_to_int-Under c = ground arith

append_digit-Under :
    (high low : Option ℕ) → Under 16 high → Under 16 low → Under 256 (append_digit 16 high low)
append_digit-Under none low h k = tt
append_digit-Under (some a) none h k = tt
append_digit-Under (some a) (some b) h k = omega arith

Under-le : (n : Option ℕ) → Under 16 n → Under 256 n
Under-le none h = tt
Under-le (some n) h = omega arith

hex_to_uint8-Under : (t : Bytes) → Under 256 (hex_to_uint8 t)
unfolding hex_to_uint8
hex_to_uint8-Under [] = tt
hex_to_uint8-Under (a ∷ []) = Under-le (hex_char_to_int a) (hex_char_to_int-Under a)
hex_to_uint8-Under (a ∷ b ∷ []) =
    append_digit-Under (hex_char_to_int a) (hex_char_to_int b) (hex_char_to_int-Under a)
      (hex_char_to_int-Under b)
hex_to_uint8-Under (a ∷ b ∷ c ∷ t) = tt

at_most_255-Under : (n : Option ℕ) → Under 256 (at_most_255 n)
at_most_255-Under none = tt
at_most_255-Under (some n) = ground arith

dec_to_uint8-Under : (t : Bytes) → Under 256 (dec_to_uint8 t)
unfolding dec_to_uint8
dec_to_uint8-Under [] = tt
dec_to_uint8-Under (a ∷ []) = at_most_255-Under (dec_char_to_int a)
dec_to_uint8-Under (a ∷ b ∷ []) =
    at_most_255-Under (append_digit 10 (dec_char_to_int a) (dec_char_to_int b))
dec_to_uint8-Under (a ∷ b ∷ c ∷ []) =
    at_most_255-Under (
      append_digit 10 (append_digit 10 (dec_char_to_int a) (dec_char_to_int b)) (dec_char_to_int c))
dec_to_uint8-Under (a ∷ b ∷ c ∷ d ∷ t) = tt

drawn_field-Under : (r : ℕ) (b : Option (ℕ × ℕ)) → Under 256 (drawn_field r b)
drawn_field-Under r none = tt
drawn_field-Under r (some (min, max)) = elim (Bool-cases (ltb 255 min || ltb 255 max)) [
  | inl h ↦ rw h tt
  | inr h ↦ rw h (omega arith)
]

module _ (to_uint8 : Bytes → Option ℕ) (small : (t : Bytes) → Under 256 (to_uint8 t))
    (base : ℕ) where
  field-Under : (r : ℕ) (t : Bytes) → Under 256 (field to_uint8 base r t)
  field-Under r [] = tt
  field-Under r (c ∷ t) = elim (Bool-cases (c == b'*')) [
    | inl h ↦ elim (Bool-cases (length t == 0)) [
      | inl k ↦ rw (h, k) (omega arith)
      | inr k ↦ rw (h, k) (drawn_field-Under r (range base t))
    ]
    | inr h ↦ rw h (small (c ∷ t))
  ]

  field_then-HasBytes :
      (size : ℕ) (b : Option ℕ) (r : Option (Bytes × ℕ))
      → Under 256 b
      → HasBytes size r
      → HasBytes (suc size) (field_then b r)
  field_then-HasBytes size none r h k = tt
  field_then-HasBytes size (some b) none h k = tt
  field_then-HasBytes size (some b) (some r) h k = (ap suc k.0, (h, k.1))

  fields-HasBytes :
      (random : ℕ → ℕ) (k : ℕ) (ts : List Bytes)
      → HasBytes (length ts) (fields to_uint8 base random k ts)
  fields-HasBytes random k [] = (refl, tt)
  fields-HasBytes random k (t ∷ ts) =
      field_then-HasBytes (length ts) (field to_uint8 base (random k) t)
        (fields to_uint8 base random (k + calls t) ts) (field-Under (random k) t)
        (fields-HasBytes random (k + calls t) ts)

  of_tokens :
      (size : ℕ) (random : ℕ → ℕ) (k : ℕ) (ts : List Bytes)
      → HasBytes size (if not (length ts == size) then none else fields to_uint8 base random k ts)
  of_tokens size random k ts = elim (Bool-cases (length ts == size)) [
    | inl h ↦ rw h (
        subst (λ n. HasBytes n (fields to_uint8 base random k ts)) ((==_iff (length ts) size).0 h)
          (fields-HasBytes random k ts))
    | inr h ↦ rw h tt
  ]

tested-HasBytes :
    (size : ℕ) (b : Bool) (x y : Option (Bytes × ℕ))
    → HasBytes size x
    → HasBytes size y
    → HasBytes size (if b then x else y)
tested-HasBytes size true x y h k = h
tested-HasBytes size false x y h k = k

-- Whatever the text is and whatever numbers the random generator gives, what is taken for a MAC address
-- has six bytes, and what is taken for an IPv4 address has four.
pub set-HasBytes :
    (random : ℕ → ℕ) (k : ℕ) (s : Bytes)
    → HasBytes 6 (set_mac random k s) × HasBytes 4 (set_ipv4 random k s)
unfolding set_mac set_ipv4 random_ipv4
set-HasBytes random k s = (
  tested-HasBytes 6 (is_star s) _ _ (refl, omega arith)
      (tested-HasBytes 6 (ltb (length s) 11) _ _ tt
        (of_tokens hex_to_uint8 hex_to_uint8-Under 16 6 random k (tokens b':' s))),
  tested-HasBytes 4 (is_star s) _ _ (refl, omega arith)
      (tested-HasBytes 4 (ltb (length s) 7) _ _ tt
        (of_tokens dec_to_uint8 dec_to_uint8-Under 10 4 random k (tokens b'.' s))),
)

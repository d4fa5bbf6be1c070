-- ===== src/Address/Written.antt =====
-- Addresses as they are written, and what is read of them.
use tcppump.Common.{
  ℕ, suc, ◌+◌, ◌*◌, ◌≤◌, ◌<◌, ◌≡◌, refl, ap, ◌∙◌, arith, Bool, true, false, List, [], ◌∷◌, ◌++◌,
  map, Option, some, le→ltb_false, ==_iff, ◌==◌, length, length-append, All, Bytes,
}
use tcppump.Params.Values.Streams.{hex_digit, hex_char_to_int-digit}
use tcppump.Address.{
  dec_char_to_int, hex_to_uint8, dec_to_uint8, rand8, put, split, tokens, field, calls, fields,
  is_star, set_mac, set_ipv4,
}

-- Texts with a separator between them.
abbrev pub join : ℕ → Bytes → List Bytes → Bytes
join separator t [] = t
join separator t (u ∷ us) = t ++ separator ∷ join separator u us

-- A text of one character at least, without the separator.
abbrev pub IsToken : ℕ → Bytes → Type 0
IsToken separator [] = ⊥
IsToken separator (c ∷ t) = ((c == separator) ≡ false) × All (λ d. (d == separator) ≡ false) t

module _ (separator : ℕ) where
  split_end : (t : Bytes) → All (λ d. (d == separator) ≡ false) t → split separator t ≡ t ∷ []
  split_end [] h = refl
  split_end (c ∷ t) h = rw (h.0, split_end t h.1) refl

  split_at :
      (t p : Bytes)
      → All (λ d. (d == separator) ≡ false) t
      → split separator (t ++ separator ∷ p) ≡ t ∷ split separator p
  split_at [] p h = rw ((==_iff separator separator).1 refl) refl
  split_at (c ∷ t) p h = rw (h.0, split_at t p h.1) refl

  IsToken-All : (t : Bytes) → IsToken separator t → All (λ d. (d == separator) ≡ false) t
  IsToken-All [] h = elim h [ ]
  IsToken-All (c ∷ t) h = h

  split-join :
      (t : Bytes) (ts : List Bytes)
      → All (IsToken separator) (t ∷ ts)
      → split separator (join separator t ts) ≡ t ∷ ts
  split-join t [] h = split_end t (IsToken-All t h.0)
  split-join t (u ∷ us) h =
      split_at t (join separator u us) (IsToken-All t h.0) ∙ ap (λ r. t ∷ r) (split-join u us h.1)

  tokens-join :
      (t : Bytes) (ts : List Bytes)
      → All (IsToken separator) (t ∷ ts)
      → tokens separator (join separator t ts) ≡ t ∷ ts
  tokens-join [] ts h = elim h.0 [ ]
  tokens-join (c ∷ t) [] h = ap (put c) (split_end t h.0.1)
  tokens-join (c ∷ t) (u ∷ us) h =
      ap (put c) (split_at t (join separator u us) h.0.1 ∙ ap (λ r. t ∷ r) (split-join u us h.1))

  IsToken-length : (t : Bytes) → IsToken separator t → 1 ≤ length t
  IsToken-length [] h = elim h [ ]
  IsToken-length (c ∷ t) h = omega arith

  join-length :
      (t : Bytes) (ts : List Bytes)
      → All (IsToken separator) (t ∷ ts)
      → 2 * length ts + 1 ≤ length (join separator t ts)
  join-length t [] h = omega (arith, IsToken-length t h.0)
  join-length t (u ∷ us) h = omega (
    arith,
    IsToken-length t h.0,
    join-length u us h.1,
    length-append t (separator ∷ join separator u us),
  )

long-is_star : (s : Bytes) → 2 ≤ length s → is_star s ≡ false
long-is_star [] h = refl
long-is_star (c ∷ p) h = ground arith

-- The bytes of fields as they are written, for the next random numbers, and the calls of the generator.
abbrev pub values : {F : Type 0} → (F → Bytes) → (ℕ → F → ℕ) → (ℕ → ℕ) → ℕ → List F → Bytes
values print value random k [] = []
values print value random k (f ∷ fs) =
    value (random k) f ∷ values print value random (k + calls (print f)) fs

abbrev pub all_calls : {F : Type 0} → (F → Bytes) → ℕ → List F → ℕ
all_calls print k [] = k
all_calls print k (f ∷ fs) = all_calls print (k + calls (print f)) fs

module _ {F : Type 0} (print : F → Bytes) (value : ℕ → F → ℕ) (IsField : F → Type 0)
    (to_uint8 : Bytes → Option ℕ) (base : ℕ)
    (reads : (r : ℕ) (f : F) → IsField f → field to_uint8 base r (print f) ≡ some (value r f)) where
  fields-print :
      (random : ℕ → ℕ) (k : ℕ) (fs : List F)
      → All IsField fs
      → fields to_uint8 base random k (map print fs)
        ≡ some (values print value random k fs, all_calls print k fs)
  fields-print random k [] h = refl
  fields-print random k (f ∷ fs) h =
      rw (reads (random k) f h.0, fields-print random (k + calls (print f)) fs h.1) refl

-- One or two hex digits of either case, or any byte.
pub data HexField : Type 0 where
  hex1 : Bool → ℕ → HexField
  hex2 : Bool → ℕ → ℕ → HexField
  any_hex : HexField

abbrev pub print_hex_field : HexField → Bytes
print_hex_field (hex1 capital a) = hex_digit capital a ∷ []
print_hex_field (hex2 capital a b) = hex_digit capital a ∷ hex_digit capital b ∷ []
print_hex_field any_hex = b'*' ∷ []

abbrev pub hex_value : ℕ → HexField → ℕ
hex_value r (hex1 capital a) = a
hex_value r (hex2 capital a b) = a * 16 + b
hex_value r any_hex = rand8 r

abbrev pub IsHexField : HexField → Type 0
IsHexField (hex1 capital a) = a < 16
IsHexField (hex2 capital a b) = (a < 16) × (b < 16)
IsHexField any_hex = Unit

-- One to three decimal digits, or any byte.
pub data DecField : Type 0 where
  dec1 : ℕ → DecField
  dec2 : ℕ → ℕ → DecField
  dec3 : ℕ → ℕ → ℕ → DecField
  any_dec : DecField

abbrev pub print_dec_field : DecField → Bytes
print_dec_field (dec1 a) = (a + b'0') ∷ []
print_dec_field (dec2 a b) = (a + b'0') ∷ (b + b'0') ∷ []
print_dec_field (dec3 a b c) = (a + b'0') ∷ (b + b'0') ∷ (c + b'0') ∷ []
print_dec_field any_dec = b'*' ∷ []

abbrev pub dec_value : ℕ → DecField → ℕ
dec_value r (dec1 a) = a
dec_value r (dec2 a b) = a * 10 + b
dec_value r (dec3 a b c) = (a * 10 + b) * 10 + c
dec_value r any_dec = rand8 r

abbrev pub IsDecField : DecField → Type 0
IsDecField (dec1 a) = a < 10
IsDecField (dec2 a b) = (a < 10) × (b < 10)
IsDecField (dec3 a b c) = (a < 10) × (b < 10) × (c < 10) × ((a * 10 + b) * 10 + c < 256)
IsDecField any_dec = Unit

hex_digit-ne :
    (capital : Bool) (n : ℕ)
    → n < 16
    → ((hex_digit capital n == b'*') ≡ false) × ((hex_digit capital n == b':') ≡ false)
hex_digit-ne true n h = ground arith
hex_digit-ne false n h = ground arith

dec_digit-ne :
    (n : ℕ)
    → n < 10
    → (((n + b'0') == b'*') ≡ false)
      × (((n + b'0') == b'.') ≡ false)
      × (dec_char_to_int (n + b'0') ≡ some n)
dec_digit-ne n h = ground arith

field-hex :
    (r : ℕ) (f : HexField)
    → IsHexField f
    → field hex_to_uint8 16 r (print_hex_field f) ≡ some (hex_value r f)
unfolding hex_to_uint8
field-hex r (hex1 capital a) h =
    rw ((hex_digit-ne capital a h).0, hex_char_to_int-digit capital a h)
field-hex r (hex2 capital a b) h = rw (
  (hex_digit-ne capital a h.0).0,
  hex_char_to_int-digit capital a h.0,
  hex_char_to_int-digit capital b h.1,
)
field-hex r any_hex h = refl

field-dec :
    (r : ℕ) (f : DecField)
    → IsDecField f
    → field dec_to_uint8 10 r (print_dec_field f) ≡ some (dec_value r f)
unfolding dec_to_uint8
field-dec r (dec1 a) h = let d = dec_digit-ne a h in rw (d.0, d.2) (ground arith)
field-dec r (dec2 a b) h =
    let d = dec_digit-ne a h.0 in rw (d.0, d.2, (dec_digit-ne b h.1).2) (ground arith)
field-dec r (dec3 a b c) h =
    let d = dec_digit-ne a h.0 in
    rw (d.0, d.2, (dec_digit-ne b h.1).2, (dec_digit-ne c h.2).2) (ground arith)
field-dec r any_dec h = refl

hex-IsToken : (f : HexField) → IsHexField f → IsToken b':' (print_hex_field f)
hex-IsToken (hex1 capital a) h = ((hex_digit-ne capital a h).1, tt)
hex-IsToken (hex2 capital a b) h =
    ((hex_digit-ne capital a h.0).1, ((hex_digit-ne capital b h.1).1, tt))
hex-IsToken any_hex h = (refl, tt)

dec-IsToken : (f : DecField) → IsDecField f → IsToken b'.' (print_dec_field f)
dec-IsToken (dec1 a) h = ((dec_digit-ne a h).1, tt)
dec-IsToken (dec2 a b) h = ((dec_digit-ne a h.0).1, ((dec_digit-ne b h.1).1, tt))
dec-IsToken (dec3 a b c) h =
    ((dec_digit-ne a h.0).1, ((dec_digit-ne b h.1).1, ((dec_digit-ne c h.2).1, tt)))
dec-IsToken any_dec h = (refl, tt)

All-map :
    {F : Type 0} (P : Bytes → Type 0) (Q : F → Type 0) (print : F → Bytes)
    (step : (f : F) → Q f → P (print f)) (fs : List F)
    → All Q fs
    → All P (map print fs)
All-map P Q print step [] h = tt
All-map P Q print step (f ∷ fs) h = (step f h.0, All-map P Q print step fs h.1)

length-map : {F : Type 0} (print : F → Bytes) (fs : List F) → length (map print fs) ≡ length fs
length-map print [] = refl
length-map print (f ∷ fs) = ap suc (length-map print fs)

abbrev pub print_mac : HexField → List HexField → Bytes
print_mac f fs = join b':' (print_hex_field f) (map print_hex_field fs)

abbrev pub print_ipv4 : DecField → List DecField → Bytes
print_ipv4 f fs = join b'.' (print_dec_field f) (map print_dec_field fs)

-- The bytes of the fields, for the next random numbers, and the calls of the generator with theirs.
abbrev pub read_mac : (ℕ → ℕ) → ℕ → List HexField → Bytes × ℕ
read_mac random k fs =
    (values print_hex_field hex_value random k fs, all_calls print_hex_field k fs)

abbrev pub read_ipv4 : (ℕ → ℕ) → ℕ → List DecField → Bytes × ℕ
read_ipv4 random k fs =
    (values print_dec_field dec_value random k fs, all_calls print_dec_field k fs)

pub length-values :
    {F : Type 0} (print : F → Bytes) (value : ℕ → F → ℕ) (random : ℕ → ℕ) (k : ℕ) (fs : List F)
    → length (values print value random k fs) ≡ length fs
length-values print value random k [] = refl
length-values print value random k (f ∷ fs) =
    ap suc (length-values print value random (k + calls (print f)) fs)

module _ (random : ℕ → ℕ) (k : ℕ) where
  -- A MAC address of six fields with colons between them, each one or two hex digits or `*`, is read as
  -- its six bytes, in order, with a new random number for each `*`.
  pub set_mac-print :
      (f : HexField) (fs : List HexField)
      → length fs ≡ 5
      → All IsHexField (f ∷ fs)
      → set_mac random k (print_mac f fs) ≡ some (read_mac random k (f ∷ fs))
  unfolding set_mac
  set_mac-print f fs five h =
      let ts = map print_hex_field fs in
      let printed = All-map (IsToken b':') IsHexField print_hex_field hex-IsToken (f ∷ fs) h in
      let long = join-length b':' (print_hex_field f) ts printed in
      let many = length-map print_hex_field fs in
      rw
        (
          long-is_star (print_mac f fs) (omega arith),
          le→ltb_false (length (print_mac f fs)) 11 (omega arith),
          tokens-join b':' (print_hex_field f) ts printed,
          many,
          five,
        )
        (fields-print print_hex_field hex_value IsHexField hex_to_uint8 16 field-hex random k
          (f ∷ fs) h)

  -- An IPv4 address of four fields with dots between them, each one to three decimal digits of a byte or
  -- `*`, is read as its four bytes, in order, with a new random number for each `*`.
  pub set_ipv4-print :
      (f : DecField) (fs : List DecField)
      → length fs ≡ 3
      → All IsDecField (f ∷ fs)
      → set_ipv4 random k (print_ipv4 f fs) ≡ some (read_ipv4 random k (f ∷ fs))
  unfolding set_ipv4
  set_ipv4-print f fs three h =
      let ts = map print_dec_field fs in
      let printed = All-map (IsToken b'.') IsDecField print_dec_field dec-IsToken (f ∷ fs) h in
      let long = join-length b'.' (print_dec_field f) ts printed in
      let many = length-map print_dec_field fs in
      rw
        (
          long-is_star (print_ipv4 f fs) (omega arith),
          le→ltb_false (length (print_ipv4 f fs)) 7 (omega arith),
          tokens-join b'.' (print_dec_field f) ts printed,
          many,
          three,
        )
        (fields-print print_dec_field dec_value IsDecField dec_to_uint8 10 field-dec random k
          (f ∷ fs) h)

-- ===== src/Handler/Words.antt =====
-- Values of parameters as they are written are words of the instruction.
use tcppump.Common.{
  ℕ, ◌%◌, ◌≤◌, ◌<◌, ◌≡◌, refl, arith, Bool, true, false, List, [], ◌∷◌, ◌==◌, All-append, length,
  map, All, ◌/◌, IsByte, Bytes,
}
use tcppump.Text.{is_value, at}
use tcppump.Address.Written.{
  HexField, hex1, hex2, any_hex, IsHexField, print_mac, print_hex_field, join,
}
use tcppump.Params.Values.Numerals.{
  Numeral, decimal, octal, hexadecimal, IsNumeral, print_numeral, print_digits,
}
use tcppump.Params.Values.Streams.{
  Stream, hex, text, instruction, IsStream, print, print_hex, hex_digit,
}
use tcppump.Params.Written.{Value, word, quoted, embedded, flag, IsValue, starts_word, text_of}

-- A value without quotation marks.
abbrev pub word_of : Bytes → Value
word_of [] = flag
word_of (a ∷ t) = word a t

abbrev pub IsWord : Bytes → Type 0
IsWord t = (starts_word (at t) ≡ true) × All (λ c. is_value c ≡ true) t

abbrev pub stream_value : Stream → Value
stream_value (hex capital b bytes) = word_of (print (hex capital b bytes))
stream_value (text t) = quoted t
stream_value (instruction t) = embedded t

pub text_of-word_of : (t : Bytes) → IsWord t → text_of (word_of t) ≡ t
text_of-word_of [] h = absurd cc
text_of-word_of (a ∷ t) h = refl

pub text_of-stream : (s : Stream) → text_of (stream_value s) ≡ print s
text_of-stream (hex capital b bytes) = refl
text_of-stream (text t) = refl
text_of-stream (instruction t) = refl

pub word_value : (t : Bytes) → IsWord t → IsValue (word_of t)
word_value [] h = absurd cc
word_value (a ∷ t) h = (h.0, h.1.1)

digit-IsWord : (capital : Bool) (n : ℕ) → n < 16 → IsWord (hex_digit capital n ∷ [])
digit-IsWord true n h = ground arith
digit-IsWord false n h = ground arith

digits-IsWord :
    (capital : Bool) (ds : List ℕ)
    → All (λ d. d < 16) ds
    → All (λ c. is_value c ≡ true) (print_digits capital ds)
digits-IsWord capital [] h = tt
digits-IsWord capital (d ∷ ds) h = ((digit-IsWord capital d h.0).1.0, digits-IsWord capital ds h.1)

field-IsWord : (f : HexField) → IsHexField f → IsWord (print_hex_field f)
field-IsWord (hex1 capital a) h = digit-IsWord capital a h
field-IsWord (hex2 capital a b) h =
    let first = digit-IsWord capital a h.0 in (first.0, (first.1.0, (digit-IsWord capital b h.1).1))
field-IsWord any_hex h = (refl, (refl, tt))

join-IsWord :
    (t : Bytes) (fs : List HexField)
    → IsWord t
    → All IsHexField fs
    → IsWord (join b':' t (map print_hex_field fs))
join-IsWord t [] h k = h
join-IsWord [] (f ∷ fs) h k = absurd cc
join-IsWord (c ∷ t) (f ∷ fs) h k = (
  h.0,
  All-append (λ d. is_value d ≡ true) (c ∷ t)
      (b':' ∷ join b':' (print_hex_field f) (map print_hex_field fs)) h.1
      (refl, (join-IsWord (print_hex_field f) fs (field-IsWord f k.0) k.1).1),
)

abbrev pub IsText : Stream → Type 0
IsText (text t) = All (λ c. (c == b'"') ≡ false) t
IsText s = Unit

abbrev pub IsMac : HexField × List HexField → Type 0
IsMac m = (length m.1 ≡ 5) × All IsHexField (m.0 ∷ m.1)

pub mac-IsWord : (m : HexField × List HexField) → IsMac m → IsWord (print_mac m.0 m.1)
mac-IsWord m h = join-IsWord (print_hex_field m.0) m.1 (field-IsWord m.0 h.1.0) h.1.1

All-le : (a b : ℕ) (ds : List ℕ) → a ≤ b → All (λ d. d < a) ds → All (λ d. d < b) ds
All-le a b [] h k = tt
All-le a b (d ∷ ds) h k = (omega (arith, k.0), All-le a b ds h k.1)

pub numeral-IsWord : (n : Numeral) → IsNumeral n → IsWord (print_numeral n)
numeral-IsWord (decimal a ds) h = (
  (digit-IsWord false a (omega (arith, h.1))).0,
  (
    (digit-IsWord false a (omega (arith, h.1))).1.0,
    digits-IsWord false ds (All-le 10 16 ds (omega arith) h.2),
  ),
)
numeral-IsWord (octal ds) h =
    (refl, (refl, digits-IsWord false ds (All-le 8 16 ds (omega arith) h)))
numeral-IsWord (hexadecimal true capital a ds) h =
    (refl, (refl, (refl, digits-IsWord capital (a ∷ ds) h)))
numeral-IsWord (hexadecimal false capital a ds) h =
    (refl, (refl, (refl, digits-IsWord capital (a ∷ ds) h)))

hex-IsWord :
    (capital : Bool) (bytes : Bytes)
    → All IsByte bytes
    → All (λ c. is_value c ≡ true) (print_hex capital bytes)
hex-IsWord capital [] h = tt
hex-IsWord capital (b ∷ bytes) h = (
  (digit-IsWord capital (b / 16) (omega (arith, h.0))).1.0,
  ((digit-IsWord capital (b % 16) (omega arith)).1.0, hex-IsWord capital bytes h.1),
)

pub stream-IsValue : (s : Stream) → IsStream false s → IsText s → IsValue (stream_value s)
stream-IsValue (hex capital b bytes) h k =
    ((digit-IsWord capital (b / 16) (omega (arith, h.0))).0, (hex-IsWord capital (b ∷ bytes) h).1)
stream-IsValue (text t) h k = k
stream-IsValue (instruction t) h k = absurd cc

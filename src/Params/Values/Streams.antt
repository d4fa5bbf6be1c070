-- ===== src/Params/Values/Streams.antt =====
-- Streams of bytes as they are written, in hex digits or between quotation marks, and what is read.
use tcppump.Common.{
  ℕ, ◌+◌, ◌-◌, ◌/◌, ◌%◌, ◌<◌, ◌≡◌, refl, ap, arith, Bool, true, false, ◌&&◌, [], ◌∷◌, ◌++◌, some,
  ltb, ◌==◌, if◌then◌else◌, length, length-append, take, take-append, All, Bytes, IsByte,
  ex_par_format, err, ok,
}
use tcppump.Params.Values.{hex_char_to_int, hex_pairs, is_random, as_stream}

-- A hex digit, in small or capital letters.
abbrev pub hex_digit : Bool → ℕ → ℕ
hex_digit capital n =
    if ltb n 10 then n + b'0' else if capital then n - 10 + b'A' else n - 10 + b'a'

abbrev pub print_hex : Bool → Bytes → Bytes
print_hex capital [] = []
print_hex capital (b ∷ bytes) =
    hex_digit capital (b / 16) ∷ hex_digit capital (b % 16) ∷ print_hex capital bytes

pub hex_char_to_int-digit :
    (capital : Bool) (n : ℕ) → n < 16 → hex_char_to_int (hex_digit capital n) ≡ some n
unfolding hex_char_to_int
hex_char_to_int-digit true n h = ground arith
hex_char_to_int-digit false n h = ground arith

hex_pairs-print :
    (capital : Bool) (bytes : Bytes)
    → All IsByte bytes
    → hex_pairs (print_hex capital bytes) ≡ some bytes
unfolding hex_pairs
hex_pairs-print capital [] h = refl
hex_pairs-print capital (b ∷ bytes) h =
    rw
      (
        hex_char_to_int-digit capital (b / 16) (omega (arith, h.0)),
        hex_char_to_int-digit capital (b % 16) (omega arith),
        hex_pairs-print capital bytes h.1,
      )
      (ap (λ c. some (c ∷ bytes)) (omega arith))

-- A stream: hex digits of which there are some, a text, or an instruction.
pub data Stream : Type 0 where
  hex : Bool → ℕ → Bytes → Stream
  text instruction : Bytes → Stream

abbrev pub print : Stream → Bytes
print (hex capital b bytes) = print_hex capital (b ∷ bytes)
print (text t) = b'"' ∷ t ++ b'"' ∷ []
print (instruction t) = b'<' ∷ t ++ b'>' ∷ []

abbrev pub content : Stream → Bytes × Bool
content (hex capital b bytes) = (b ∷ bytes, false)
content (text t) = (t, false)
content (instruction t) = (t, true)

-- An instruction is read as one where it is allowed, and bytes are bytes.
abbrev pub IsStream : Bool → Stream → Type 0
IsStream allowed (hex capital b bytes) = All IsByte (b ∷ bytes)
IsStream allowed (text t) = Unit
IsStream allowed (instruction t) = allowed ≡ true

pub first_digit :
    (capital : Bool) (n : ℕ)
    → n < 16
    → ((hex_digit capital n == b'*') ≡ false)
      × ((hex_digit capital n == b'"') ≡ false)
      × ((hex_digit capital n == b'<') ≡ false)
first_digit true n h = ground arith
first_digit false n h = ground arith

and_false : (b : Bool) → (b && false) ≡ false
and_false true = refl
and_false false = refl

inner : (a b : ℕ) (t : Bytes) → take (length (a ∷ t ++ b ∷ []) - 2) (t ++ b ∷ []) ≡ t
inner a b t =
    take-append (length (a ∷ t ++ b ∷ []) - 2) t (b ∷ []) (omega (arith, length-append t (b ∷ [])))

module _ (random : ℕ → Bytes) (allowed : Bool) (max_len : ℕ) where
  -- A stream that is written in hex digits of either case, between quotation marks or, where that is
  -- allowed, between angle brackets, is read as its bytes, and as an instruction only between angle
  -- brackets; one with more than `max_len` bytes is an error.
  pub as_stream-print :
      (s : Stream)
      → IsStream allowed s
      → as_stream random allowed max_len (print s)
        ≡ (if ltb max_len (length (content s).0) then err ex_par_format else ok (content s))
  unfolding as_stream is_random
  as_stream-print (hex capital b bytes) h =
      let (star, quote, angle) = first_digit capital (b / 16) (omega (arith, h.0)) in
      rw (star, quote, angle, and_false allowed, hex_pairs-print capital (b ∷ bytes) h) refl
  as_stream-print (text t) h = rw (inner b'"' b'"' t) refl
  as_stream-print (instruction t) h = rw h (rw (inner b'<' b'>' t) refl)

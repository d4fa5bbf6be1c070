-- ===== src/Params/Values.antt =====
-- The values of parameters: asInt8 to asInt64, asStream and asEmbedded of
-- src/compiler/parameterlist.cpp, the numbers and hex strings of src/compiler/parsehelper.hpp and
-- src/compiler/parsehelper.cpp, and the random numbers of src/common/random.cpp. A value is its text.
-- `errno` is 0 when a number is read.
pub mod Numerals
pub mod Ranges
pub mod Streams
use tcppump.Common.{
  ℕ, zero, suc, ◌+◌, ◌-◌, ◌*◌, ◌/◌, ◌%◌, ◌^◌, Bool, true, false, ◌&&◌, ◌||◌, not, List, [], ◌∷◌,
  Option, none, some, ltb, leb, ◌==◌, if◌then◌else◌, length, take, drop, Bytes, Error, ex_par_range,
  ex_par_format, bug, Result, err, ok, ◌>>=◌,
}
use tcppump.Text.{at, is_space}

-- The value of a digit of any base up to 16, or 16.
abbrev pub digit : ℕ → ℕ
digit c =
    if leb b'0' c && leb c b'9'
    then c - b'0'
    else if leb b'a' c && leb c b'f'
    then c - b'a' + 10
    else if leb b'A' c && leb c b'F'
    then c - b'A' + 10
    else 16

-- The number that the digits in front make, how many there are, and what follows.
abbrev pub digits : ℕ → ℕ → ℕ → Bytes → ℕ × ℕ × Bytes
digits base acc count [] = (acc, count, [])
digits base acc count (c ∷ p) =
    let more = digits base (acc * base + digit c) (count + 1) p in
    if ltb (digit c) base then more else (acc, count, c ∷ p)

-- Hexadecimal digits behind `0x`.
abbrev pub has_hex_prefix : Bytes → Bool
has_hex_prefix p =
    at p == b'0'
    && ((at (drop 1 p) == b'x' || at (drop 1 p) == b'X') && ltb (digit (at (drop 2 p))) 16)

-- `strtoull` with a base, behind a sign; the base 0 is what the prefix says.
abbrev pub based : ℕ → Bytes → ℕ × ℕ × Bytes
based base p =
    if (base == 0 || base == 16) && has_hex_prefix p
    then digits 16 0 0 (drop 2 p)
    else if not (base == 0)
    then digits base 0 0 p
    else if at p == b'0'
    then digits 8 0 0 p
    else digits 10 0 0 p

pub record Number : Type 0 where
  pub number : ℕ
  pub rest : Bytes
  pub is_erange : Bool

-- Numbers are 64 bits wide, and a minus sign negates them in these; a number out of range is the
-- largest one, and ERANGE.
abbrev pub ranged : Bytes → Bool → ℕ × ℕ × Bytes → Number
ranged p negative r =
    if r.1 == 0
    then record { number = 0; rest = p; is_erange = false }
    else if leb (2 ^ 64) r.0
    then record { number = 2 ^ 64 - 1; rest = r.2; is_erange = true }
    else record {
      number = if negative then (2 ^ 64 - r.0) % 2 ^ 64 else r.0;
      rest = r.2;
      is_erange = false;
    }

unfoldable pub strtoull : ℕ → Bytes → Number
strtoull base p =
    if at p == b'-' then ranged p true (based base (drop 1 p)) else ranged p false (based base p)

abbrev pub last : Bytes → ℕ
last [] = 0
last (c ∷ []) = c
last (c ∷ d ∷ p) = last (d ∷ p)

-- The end of `range`, from the number behind the dash.
abbrev pub range_end : ℕ → Number → Option (ℕ × ℕ)
range_end begin e =
    if e.is_erange || not (at e.rest == b']')
    then none
    else if ltb e.number begin
    then none
    else some (begin, e.number)

abbrev pub range_begin : ℕ → Number → Option (ℕ × ℕ)
range_begin base b =
    if b.is_erange || (not (at b.rest == b'-') || is_space (at (drop 1 b.rest)))
    then none
    else range_end b.number (strtoull base (drop 1 b.rest))

unfoldable pub range : ℕ → Bytes → Option (ℕ × ℕ)
range base p =
    if ltb (length p) 5 || (not (at p == b'[' && last p == b']') || is_space (at (drop 1 p)))
    then none
    else range_begin base (strtoull base (drop 1 p))

-- What `isRandomInteger` comes to: no random number, one of the whole range of the value, or one of a
-- range of its own.
pub data Randomness : Type 0 where
  fixed whole : Randomness
  between : ℕ → ℕ → Randomness

unfoldable pub is_random_integer : Bytes → Result Randomness
is_random_integer v =
    if not (at v == b'*')
    then ok fixed
    else if length v == 1
    then ok whole
    else elim (range 0 (drop 1 v)) [ none ↦ err ex_par_format | some r ↦ ok (between r.0 r.1) ]

-- `cRandom::rand` from the next number `r` of the generator.
unfoldable pub rand : ℕ → ℕ → ℕ → ℕ
rand r min max =
    let range = (max + 2 ^ 64 - min + 1) % 2 ^ 64 in
    ((if range == 0 then r else r % range) + min) % 2 ^ 64

abbrev pub checked_number : ℕ → ℕ → Number → Result ℕ
checked_number first end n =
    if not (length n.rest == 0)
    then err ex_par_format
    else if not (leb first n.number && leb n.number end) || n.is_erange
    then err ex_par_range
    else ok n.number

abbrev pub drawn : ℕ → ℕ → ℕ → ℕ → Bytes → Randomness → Result ℕ
drawn r width first end v fixed = checked_number first end (strtoull 0 v)
drawn r width first end v whole = ok (rand r first end % 2 ^ width)
drawn r width first end v (between min max) =
    if ltb min first || ltb end max then err ex_par_range else ok (rand r min max % 2 ^ width)

-- `asInt32` and `asInt64`, by the width of the result; `asInt16` and `asInt8` cast that of `asInt32`.
unfoldable pub as_int : ℕ → ℕ → ℕ → ℕ → Bytes → Result ℕ
as_int r width first end v =
    if ltb end first then err bug else (is_random_integer v >>= λ k. drawn r width first end v k)

abbrev pub as_int16 : ℕ → ℕ → ℕ → Bytes → Result ℕ
as_int16 r first end v = as_int r 32 first end v >>= λ n. ok (n % 2 ^ 16)

abbrev pub as_int8 : ℕ → ℕ → ℕ → Bytes → Result ℕ
as_int8 r first end v = as_int r 32 first end v >>= λ n. ok (n % 2 ^ 8)

-- A digit, or the exception of `hexCharToInt`.
unfoldable pub hex_char_to_int : ℕ → Option ℕ
hex_char_to_int c = if ltb (digit c) 16 then some (digit c) else none

abbrev pub hex_byte : Option ℕ → Option ℕ → Option Bytes → Option Bytes
hex_byte (some high) (some low) (some bin) = some ((high * 16 + low) ∷ bin)
hex_byte _ _ _ = none

-- The loop of `hexStringToBin`.
unfoldable pub hex_pairs : Bytes → Option Bytes
hex_pairs [] = some []
hex_pairs (a ∷ []) = none
hex_pairs (a ∷ b ∷ p) = hex_byte (hex_char_to_int a) (hex_char_to_int b) (hex_pairs p)

abbrev pub hex_string_to_bin : Bytes → Option Bytes
hex_string_to_bin [] = none
hex_string_to_bin (a ∷ p) = hex_pairs (a ∷ p)

-- `isRandom` with a length: none for a value of its own, and 0 where no length is given.
unfoldable pub is_random : Bytes → Result (Option ℕ)
is_random v =
    if not (at v == b'*')
    then ok none
    else if length v == 1
    then ok (some 0)
    else let n = strtoull 0 (drop 1 v) in
      if not (length n.rest == 0)
      then err ex_par_format
      else if not (leb 1 n.number && leb n.number 65535) || n.is_erange
      then err ex_par_range
      else ok (some n.number)

abbrev pub bounded : ℕ → Bool → Bytes → Result (Bytes × Bool)
bounded max_len is_embedded bytes =
    if ltb max_len (length bytes) then err ex_par_format else ok (bytes, is_embedded)

-- A text without what bounds it, or the bytes of a hex string.
abbrev pub stream_of : Bool → ℕ → Bytes → Result (Bytes × Bool)
stream_of allow_embedded max_len v =
    if at v == b'"' || (allow_embedded && at v == b'<')
    then bounded max_len (at v == b'<') (take (length v - 2) (drop 1 v))
    else elim (hex_string_to_bin v) [
      | none ↦ err ex_par_format
      | some bin ↦ bounded max_len false bin
    ]

-- `asStream` and `asEmbedded`: the bytes, and whether they are an instruction. `random` has the bytes
-- that `cRandom::rand` fills in.
unfoldable pub as_stream : (ℕ → Bytes) → Bool → ℕ → Bytes → Result (Bytes × Bool)
as_stream random allow_embedded max_len v = is_random v >>= λ n. elim n [
  | none ↦ stream_of allow_embedded max_len v
  | some len ↦ bounded max_len false (random (if len == 0 then 32 else len))
]

-- ===== src/Params.antt =====
-- src/compiler/parameterlist.hpp and src/compiler/parameterlist.cpp: the parameter list of an
-- instruction. A pointer is the text from there on, and a token is its text.
pub mod Ends
pub mod Find
pub mod Lookup
pub mod Unused
pub mod Values
pub mod Written
use tcppump.Common.{
  ℕ, zero, suc, ◌+◌, Bool, true, false, ◌&&◌, ◌||◌, not, List, [], ◌∷◌, ◌++◌, Option, none, some,
  ◌==◌, if◌then◌else◌, length, drop, Bytes,
}
use tcppump.Text.{
  skip_whitespaces, at, is_one_of, next_key_start, next_key_end, next_value_start, next_value_end,
}

-- No number in a token runs on behind its end, so the value is its text. An embedded instruction does
-- run on, so the text behind the value is kept. Of a name without a value, where it is not read,
-- this is the text behind the name.
pub record Parameter : Type 0 where
  pub parameter : Bytes
  pub value : Bytes
  pub behind : Bytes
  pub index : ℕ

-- The value of a parameter that is given without one.
abbrev pub bool_value : Bytes
bool_value = b'0' ∷ b'1' ∷ []

-- What a stage of the parser comes to: a value and the text behind it, or the place of an error.
pub data Stage {ℓ} (Value : Type ℓ) : Type ℓ where
  found : Value → Bytes → Stage Value
  bad : Bytes → Stage Value

-- `strchr` for the closing quotation mark or bracket: the text up to it, with it, and the rest.
abbrev pub closed_by : ℕ → Bytes → Option (Bytes × Bytes)
closed_by c [] = none
closed_by c (d ∷ p) =
    if d == c
    then some (d ∷ [], p)
    else elim (closed_by c p) [ none ↦ none | some r ↦ some (d ∷ r.0, r.1) ]

abbrev pub delimited : ℕ → ℕ → Bytes → Stage Bytes
delimited first close p = elim (closed_by close p) [
  | none ↦ bad p
  | some r ↦ found (first ∷ r.0) r.1
]

abbrev pub value_at : Bytes → Stage Bytes
value_at [] = found [] []
value_at (c ∷ p) =
    if c == b'"'
    then delimited c b'"' p
    else if c == b'<'
    then delimited c b'>' p
    else (let r = next_value_end (c ∷ p) in found r.0 r.1)

abbrev pub parse_value : Bytes → Stage Bytes
parse_value p = elim (next_value_start p) [ none ↦ bad p | some q ↦ value_at q ]

-- What follows the name: nothing, or `=` and a value.
abbrev pub value_of_name : Bytes → Stage Bytes
value_of_name p =
    if is_one_of (at p) (b',' ∷ b')' ∷ [])
    then found bool_value p
    else if not (at p == b'=')
    then bad p
    else parse_value (drop 1 p)

abbrev pub separated : Parameter → Bytes → Stage Parameter
separated v p =
    if not (is_one_of (at p) (b',' ∷ b')' ∷ []))
    then bad p
    else found v (if at p == b',' then drop 1 p else p)

abbrev pub with_value : ℕ → Bytes → Stage Bytes → Stage Parameter
with_value n name (bad p) = bad p
with_value n name (found v p) =
    separated (record { parameter = name; value = v; behind = p; index = n }) (skip_whitespaces p)

-- A round of the loop: the parameter with the index `n`.
unfoldable pub parse_parameter : ℕ → Bytes → Stage Parameter
parse_parameter n p = elim (next_key_start p) [
  | none ↦ bad p
  | some q ↦ let r = next_key_end q in with_value n r.0 (value_of_name (skip_whitespaces r.1))
]

-- The list of a valid instruction, or the place of the syntax error.
pub data Parsed : Type 0 where
  parameters : List Parameter → Parsed
  parse_error : Bytes → Parsed
  out_of_fuel : Parsed

abbrev pub more : Parameter → Parsed → Parsed
more v (parameters vs) = parameters (v ∷ vs)
more v (parse_error p) = parse_error p
more v out_of_fuel = out_of_fuel

abbrev pub list_end : Bool → Bytes → Parsed
list_end ignore_trailing_garbage [] = parse_error []
list_end ignore_trailing_garbage (c ∷ p) =
    if not (c == b')')
    then parse_error (c ∷ p)
    else if ignore_trailing_garbage || at (skip_whitespaces p) == 0
    then parameters []
    else parse_error (skip_whitespaces p)

abbrev pub continue_with : (Bytes → Parsed) → Stage Parameter → Parsed
continue_with rest (bad p) = parse_error p
continue_with rest (found v p) = more v (rest p)

-- The loop. Every round takes a character at least.
unfoldable pub parse_from : ℕ → ℕ → Bool → Bytes → Parsed
parse_from zero n garbage p = out_of_fuel
parse_from (suc fuel) n garbage p =
    if at p == 0 || at p == b')'
    then list_end garbage p
    else continue_with (parse_from fuel (n + 1) garbage) (parse_parameter n p)

-- The caller sees to the opening bracket; `BUG_ON` stops the program without it.
unfoldable pub parse_parameters : Bytes → Bool → Option Parsed
parse_parameters p ignore_trailing_garbage =
    if at p == b'('
    then some (parse_from (suc (length p)) 0 ignore_trailing_garbage (drop 1 p))
    else none

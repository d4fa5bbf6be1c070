-- ===== src/Instruction/Written.antt =====
-- Instructions as they are written: white space, a time stamp, a keyword and a parameter list.
use tcppump.Common.{
  ℕ, ◌+◌, ◌<◌, ◌≡◌, refl, ap, ◌∙◌, arith, Bool, true, false, ◌||◌, ◌++◌, List, [], ◌∷◌, some, ◌==◌,
  All, Bytes, Result, le→ltb_false,
}
use tcppump.Text.{is_space, is_digit, is_alpha, is_key, skip_whitespaces, at}
use tcppump.Text.Tokens.{skip_blank, token_end, key_start}
use tcppump.Params.Find.{ParameterList, fresh}
use tcppump.Params.Written.{Entry, IsEntry, print_from, parameters_from, parse_parameters-print}
use tcppump.Instruction.{
  Stamp, read, parse_timestamp, parse_protocoll_identifier, identified, number, saturated, finish,
  parse, with_stamp, with_keyword, with_parameters, compiled,
}
use tcppump.Instruction.Keyword.{Protocol, select}

-- No time stamp, or the digits of one, of which there is a first.
pub data Clock : Type 0 where
  untimed : Clock
  absolute relative : ℕ → Bytes → Clock

abbrev pub print_clock : Clock → Bytes → Bytes
print_clock untimed p = p
print_clock (absolute d ds) p = d ∷ (ds ++ b':' ∷ p)
print_clock (relative d ds) p = b'+' ∷ d ∷ (ds ++ b':' ∷ p)

abbrev pub IsClock : Clock → Type 0
IsClock untimed = Unit
IsClock (absolute d ds) = All (λ c. is_digit c ≡ true) (d ∷ ds)
IsClock (relative d ds) = All (λ c. is_digit c ≡ true) (d ∷ ds)

abbrev pub stamp_of : Stamp → Clock → Stamp
stamp_of given untimed = record given { has_timestamp = false }
stamp_of given (absolute d ds) = record {
  has_timestamp = true;
  timestamp = saturated (number 0 (d ∷ ds));
  is_absolute = true;
}
stamp_of given (relative d ds) = record {
  has_timestamp = true;
  timestamp = saturated (number 0 (d ∷ ds));
  is_absolute = false;
}

parse_timestamp-print :
    (given : Stamp) (before : Bytes) (c : Clock) (a : ℕ) (p : Bytes)
    → All (λ d. is_space d ≡ true) before
    → IsClock c
    → is_alpha a ≡ true
    → parse_timestamp given (before ++ print_clock c (a ∷ p)) ≡ read (stamp_of given c) (a ∷ p)
unfolding parse_timestamp
parse_timestamp-print given before untimed a p h k al =
    rw (skip_blank before (a ∷ p) h) (ground arith)
parse_timestamp-print given before (absolute d ds) a p h k al =
    rw (skip_blank before (d ∷ (ds ++ b':' ∷ a ∷ p)) h)
      (ground (arith, token_end is_digit (d ∷ ds) b':' (a ∷ p) k refl))
parse_timestamp-print given before (relative d ds) a p h k al =
    rw (skip_blank before (b'+' ∷ d ∷ (ds ++ b':' ∷ a ∷ p)) h)
      (ground (arith, token_end is_digit (d ∷ ds) b':' (a ∷ p) k refl))

parse_protocoll_identifier-print :
    (a : ℕ) (others p : Bytes)
    → is_alpha a ≡ true
    → All (λ c. is_key c ≡ true) others
    → parse_protocoll_identifier (a ∷ (others ++ b'(' ∷ p)) ≡ read (a ∷ others) (b'(' ∷ p)
unfolding parse_protocoll_identifier
parse_protocoll_identifier-print a others p h k =
    rw (parse_protocoll_identifier, key_start [] a (others ++ b'(' ∷ p) tt h)
      (ap identified (token_end is_key (a ∷ others) b'(' p (ground arith, k) refl))

-- An instruction that is written as the syntax says is compiled by the handler of the protocol that
-- its keyword selects, from its parameters in their order, and has the time stamp that is written,
-- with a plus sign a relative one. It lies in fewer than 8 others, and white space follows it, or
-- anything where that is ignored.
module _ {Packets : Type 0} (compile : Protocol → ParameterList → Result (Packets × ParameterList))
    (depth : ℕ) (garbage : Bool) (given : Stamp) (before : Bytes) (c : Clock) (a : ℕ)
    (others : Bytes) (p : Protocol) (es : List Entry) (tail : Bytes) where
  pub parse-print :
      depth < 8
      → All (λ d. is_space d ≡ true) before
      → IsClock c
      → is_alpha a ≡ true
      → All (λ d. is_key d ≡ true) others
      → select (a ∷ others) ≡ some p
      → All IsEntry es
      → (garbage || at (skip_whitespaces tail) == 0) ≡ true
      → parse compile depth garbage given
          (before ++ print_clock c (a ∷ (others ++ b'(' ∷ print_from es tail)))
        ≡ finish (stamp_of given c) (compile p (fresh (parameters_from 0 es tail)))
  unfolding parse
  parse-print shallow h k al key sel w t =
      ap (with_stamp compile depth garbage)
        (parse_timestamp-print given before c a (others ++ b'(' ∷ print_from es tail) h k al)
      ∙ ap (with_keyword compile depth garbage (stamp_of given c))
          (parse_protocoll_identifier-print a others (print_from es tail) al key)
      ∙ ap (with_parameters compile depth (stamp_of given c) (a ∷ others))
          (parse_parameters-print garbage es tail w t)
      ∙ rw (le→ltb_false 8 (depth + 1) (omega arith))
          (ap (compiled compile (stamp_of given c) (fresh (parameters_from 0 es tail))) sel)

-- ===== src/Instruction.antt =====
-- cInstructionParser::parse of src/compiler/instructionparser.cpp: the time stamp, the protocol, the
-- parameters, and the choice of what compiles them. The places in the text that go with the messages
-- are left out.
pub mod Keyword
pub mod Written
use tcppump.Common.{
  ℕ, zero, suc, ◌+◌, ◌-◌, ◌*◌, ◌^◌, Bool, true, false, ◌||◌, not, List, [], ◌∷◌, Option, none, some,
  ltb, ◌==◌, if◌then◌else◌, drop, Bytes, Error, ex_par_unknown, ex_par_range, ex_par_format,
  ex_par_unused, other_exception, bug, Result, err, ok,
}
use tcppump.Text.{
  skip_whitespaces, at, is_digit, next_token_end, next_key_start, next_key_end,
  next_char_ignore_whitespaces,
}
use tcppump.Params.{Parsed, parameters, parse_error, out_of_fuel, parse_parameters}
use tcppump.Params.Find.{ParameterList, fresh, check_for_unused_parameters}
use tcppump.Instruction.Keyword.{Protocol, select}

-- The messages of ParseException; `other` is that of an embedded instruction, or of another exception.
pub data Message : Type 0 where
  expected_colon invalid_timestamp missing_protocol expected_parameters syntax_error : Message
  maximum_depth unknown_protocol missing_parameter range_violated invalid_value unused : Message
  other : Message

-- A stage of the parser: its value and the text behind it, or a message.
pub data Stage (Value : Type 0) : Type 0 where
  read : Value → Bytes → Stage Value
  wrong : Message → Stage Value

-- The members of cResult that the time stamp sets.
pub record Stamp : Type 0 where
  pub has_timestamp : Bool
  pub timestamp : ℕ
  pub is_absolute : Bool

abbrev pub number : ℕ → Bytes → ℕ
number acc [] = acc
number acc (c ∷ digits) = number (acc * 10 + (c - b'0')) digits

-- The value that `strtoull` has for decimal digits.
abbrev pub saturated : ℕ → ℕ
saturated n = if ltb n (2 ^ 64) then n else 2 ^ 64 - 1

abbrev pub after_digits : Bool → Bytes → Bytes → Stage Stamp
after_digits signed [] p = wrong invalid_timestamp
after_digits signed (d ∷ ds) p = elim (next_char_ignore_whitespaces p b':') [
  | none ↦ wrong expected_colon
  | some q ↦
      read
        (record {
          has_timestamp = true;
          timestamp = saturated (number 0 (d ∷ ds));
          is_absolute = not signed;
        })
        (drop 1 q)
]

-- The text begins with a digit or a plus sign: `strtoull` reads one sign and the digits.
abbrev pub stamp_at : Bytes → Stage Stamp
stamp_at q =
    let signed = at q == b'+' in
    let r = next_token_end is_digit (if signed then drop 1 q else q) in after_digits signed r.0 r.1

unfoldable pub parse_timestamp : Stamp → Bytes → Stage Stamp
parse_timestamp given p =
    let q = skip_whitespaces p in
    if is_digit (at q) || at q == b'+'
    then stamp_at q
    else read (record given { has_timestamp = false }) q

-- The keyword and what follows it, which is the parameter list.
abbrev pub identified : Bytes × Bytes → Stage Bytes
identified (keyword, p) = elim (next_char_ignore_whitespaces p b'(') [
  | none ↦ wrong expected_parameters
  | some list ↦ read keyword list
]

unfoldable pub parse_protocoll_identifier : Bytes → Stage Bytes
parse_protocoll_identifier p = elim (next_key_start p) [
  | none ↦ wrong missing_protocol
  | some q ↦ identified (next_key_end q)
]

-- What `parse` comes to: packets and their time stamp, a ParseException, or the end of the program.
pub data Outcome (Packets : Type 0) : Type 0 where
  packets : Packets → Stamp → Outcome Packets
  refused : Message → Outcome Packets
  stopped : Outcome Packets

abbrev pub message_of : {A : Type 0} → Error → Outcome A
message_of ex_par_unknown = refused missing_parameter
message_of ex_par_range = refused range_violated
message_of ex_par_format = refused invalid_value
message_of ex_par_unused = refused unused
message_of other_exception = refused other
message_of bug = stopped

abbrev pub checked : {A : Type 0} → Stamp → A → Result (Unit {0}) → Outcome A
checked stamp made (ok u) = packets made stamp
checked stamp made (err e) = message_of e

-- The end of the `try` block.
abbrev pub finish : {A : Type 0} → Stamp → Result (A × ParameterList) → Outcome A
finish stamp (err e) = message_of e
finish stamp (ok made) = checked stamp made.0 (check_for_unused_parameters made.1)

-- What compiles the parameters of a protocol; an embedded instruction in them is its own affair.
module _ {Packets : Type 0}
    (compile : Protocol → ParameterList → Result (Packets × ParameterList)) where
  abbrev pub compiled : Stamp → ParameterList → Option Protocol → Outcome Packets
  compiled stamp l none = refused unknown_protocol
  compiled stamp l (some p) = finish stamp (compile p l)

  -- `depth` instructions are being parsed around this one.
  abbrev pub with_parameters : ℕ → Stamp → Bytes → Option Parsed → Outcome Packets
  with_parameters depth stamp keyword none = stopped
  with_parameters depth stamp keyword (some out_of_fuel) = stopped
  with_parameters depth stamp keyword (some (parse_error p)) = refused syntax_error
  with_parameters depth stamp keyword (some (parameters vs)) =
      if ltb 8 (depth + 1)
      then refused maximum_depth
      else compiled stamp (fresh vs) (select keyword)

  abbrev pub with_keyword : ℕ → Bool → Stamp → Stage Bytes → Outcome Packets
  with_keyword depth garbage stamp (wrong m) = refused m
  with_keyword depth garbage stamp (read keyword p) =
      with_parameters depth stamp keyword (parse_parameters p garbage)

  abbrev pub with_stamp : ℕ → Bool → Stage Stamp → Outcome Packets
  with_stamp depth garbage (wrong m) = refused m
  with_stamp depth garbage (read stamp p) =
      with_keyword depth garbage stamp (parse_protocoll_identifier p)

  unfoldable pub parse : ℕ → Bool → Stamp → Bytes → Outcome Packets
  parse depth ignore_trailing_garbage given instruction =
      with_stamp depth ignore_trailing_garbage (parse_timestamp given instruction)

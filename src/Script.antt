-- ===== src/Script.antt =====
-- src/compiler/fileparser.hpp and src/compiler/fileparser.cpp: how a script file is cut into
-- instructions. The file is the list of its characters; the buffer grows as it is needed.
pub mod Stops
pub mod Lines
pub mod Layout
use tcppump.Common.{
  ℕ, zero, suc, ◌+◌, ◌-◌, Bool, true, false, ◌&&◌, not, List, [], ◌∷◌, ◌++◌, ltb, ◌==◌,
  if◌then◌else◌, length, Bytes,
}
use tcppump.Text.{skip_whitespaces, at}

pub record FileParser : Type 0 where
  pub line_nbr : ℕ
  pub open_control_blocks : ℕ

abbrev pub opened : FileParser
opened = record { line_nbr = 1; open_control_blocks = 0 }

-- The messages of FileParseException, apart from those that an instruction causes.
pub data ScriptError : Type 0 where
  missing_semicolon missing_open missing_close : ScriptError

-- What a character comes to: the loop goes on, the instruction in the buffer is complete, or the
-- script is wrong.
pub data Step : Type 0 where
  go_on : FileParser → Bool → Bytes → Step
  complete : Bytes → FileParser → Step
  refuse : ScriptError → FileParser → Step

abbrev pub count_line : FileParser → ℕ → FileParser
count_line s c = if c == 10 then record s { line_nbr = s.line_nbr + 1 } else s

-- The end of a block: nothing but white space may stand between it and the last instruction.
abbrev pub close_block : FileParser → Bytes → Step
close_block s buffer =
    if not (at (skip_whitespaces (buffer ++ b'}' ∷ [])) == b'}')
    then refuse missing_semicolon s
    else if s.open_control_blocks == 0
    then refuse missing_open s
    else go_on (record s { open_control_blocks = s.open_control_blocks - 1 }) false []

abbrev pub outside_comment : FileParser → Bytes → ℕ → Step
outside_comment s buffer c =
    if c == b';'
    then complete buffer s
    else if c == b'{'
    then go_on (record s { open_control_blocks = s.open_control_blocks + 1 }) false []
    else if c == b'}'
    then close_block s buffer
    else go_on s false (buffer ++ c ∷ [])

unfoldable pub step : FileParser → Bool → Bytes → ℕ → Step
step s comment buffer c =
    let counted = count_line s c in
    if c == b'#'
    then go_on s true buffer
    else if comment && not (c == 10)
    then go_on counted true buffer
    else outside_comment counted buffer c

-- A call of `parse`, but for the instruction's own parser: the text of the next instruction and what
-- follows it in the file, the end of the file, or an error.
pub data Scan : Type 0 where
  instruction : Bytes → FileParser → Bytes → Scan
  end_of_file : FileParser → Scan
  failed : ScriptError → FileParser → Scan

unfoldable pub scan : FileParser → Bool → Bytes → Bytes → Scan
scan s comment buffer [] =
    if ltb 0 s.open_control_blocks then failed missing_close s else end_of_file s
scan s comment buffer (c ∷ file) = elim (step s comment buffer c) [
  | go_on t still more ↦ scan t still more file
  | complete text t ↦ instruction text t file
  | refuse e t ↦ failed e t
]

-- The texts of the instructions that a script yields, up to its end or to an error.
pub data ScriptResult : Type 0 where
  done : ScriptResult
  next : Bytes → ScriptResult → ScriptResult
  wrong : ScriptError → FileParser → ScriptResult
  out_of_fuel : ScriptResult

abbrev pub follow : (FileParser → Bytes → ScriptResult) → Scan → ScriptResult
follow read_on (instruction text s file) = next text (read_on s file)
follow read_on (end_of_file s) = done
follow read_on (failed e s) = wrong e s

-- The calls of `parse` for a file. Every instruction takes a character at least.
unfoldable pub script : ℕ → FileParser → Bytes → ScriptResult
script zero s file = out_of_fuel
script (suc fuel) s file = follow (script fuel) (scan s false [] file)

unfoldable pub script_file : Bytes → ScriptResult
script_file file = script (suc (length file)) opened file

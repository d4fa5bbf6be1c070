-- ===== src/Tests/Scripts.antt =====
-- Scripts, instructions and their times (src/compiler/fileparser.cpp,
-- src/compiler/instructionparser.cpp, src/compiler/parameterlist.cpp, src/compiler/compiler.cpp) on
-- concrete data.
use Prim.Native.Char.{code}
use Prim.Native.String.{String}
use tcppump.Common.{
  ℕ, ◌≡◌, refl, arith, true, false, List, [], ◌∷◌, ◌++◌, Option, none, some, Bytes, Result, ok,
  ex_par_unknown, err,
}
use tcppump.Script.{failed, missing_open, step, opened, scan, script_file, next, done}
use tcppump.Script.Lines.{Ends, script_file-Ends, scan-IsLocated}
use tcppump.Script.Stops.{IsLocated}
use tcppump.Script.Layout.{
  Item, inst, comment, space, open_block, close_block, print, script_file-print,
}
use tcppump.Params.{Parameter, parameters, parse_parameters}
use tcppump.Params.Ends.{AllEnd, parse_parameters-Ends}
use tcppump.Params.Find.{
  ParameterList, fresh, same_text, mark, search_from, find_parameter, check_for_unused_parameters,
}
use tcppump.Params.Lookup.{find_parameter_found, find_parameter_missing}
use tcppump.Params.Values.{as_int, as_stream, strtoull, is_random_integer, range, rand}
use tcppump.Params.Values.Ranges.{IsIn, as_int-IsIn}
use tcppump.Params.Values.Streams.{hex, instruction, as_stream-print}
use tcppump.Params.Written.{Entry, word, quoted, flag, print_from, parse_parameters-print}
use tcppump.Instruction.{Stamp, packets, parse}
use tcppump.Instruction.Keyword.{Protocol, udp4, arp_probe, select, select-syntax}
use tcppump.Instruction.Written.{relative, parse-print}
use tcppump.Timing.{Compiler, process_packets, process_script_files}
use tcppump.Timing.Schedule.{outcome}
use tcppump.Timing.Scripts.{process_packets-planned, process_script_files-planned}

abbrev codes : String → Bytes
codes String.[] = []
codes (String.◌∷◌ c s) = code c ∷ codes s

abbrev items : List Item
items =
    comment (codes " {two} frames;")
    ∷ inst (codes "arp()")
    ∷ space (10 ∷ [])
    ∷ open_block
    ∷ inst (codes "raw(payload=12)")
    ∷ space (32 ∷ [])
    ∷ close_block
    ∷ []

script_file-print_example :
    script_file (print items) ≡ next (10 ∷ codes "arp()") (next (codes "raw(payload=12)") done)
script_file-print_example = script_file-print items (ground arith) (ground arith)

abbrev unclosed : Bytes
unclosed = codes "{ # open" ++ 10 ∷ []

script_file-Ends_example : Ends (script_file unclosed)
script_file-Ends_example = script_file-Ends unclosed

-- The error in line 2 is the brace that closes nothing, behind one in a comment and a block that is right.
abbrev overclosed : Bytes
overclosed = codes "{ # } open" ++ 10 ∷ codes "} } arp();"

scan-IsLocated_example : IsLocated opened false [] overclosed (scan opened false [] overclosed)
scan-IsLocated_example = scan-IsLocated opened false [] overclosed

overclosed_run :
    scan opened false [] overclosed ≡ failed missing_open (record opened { line_nbr = 2 })
unfolding scan step
overclosed_run = refl

abbrev vid : Entry
vid = record { before = []; initial = b'v'; others = codes "id"; given = word b'7' (codes "0") }

abbrev dei : Entry
dei = record { before = 32 ∷ []; initial = b'd'; others = codes "ei"; given = flag }

abbrev prio : Entry
prio = record {
  before = 32 ∷ [];
  initial = b'p';
  others = codes "rio";
  given = quoted (codes "a,b)");
}

abbrev prio_text : Bytes
prio_text = codes ", prio=" ++ b'"' ∷ codes "a,b)" ++ b'"' ∷ b')' ∷ 10 ∷ []

abbrev vid_parameter : Parameter
vid_parameter = record {
  parameter = codes "vid";
  value = codes "70";
  behind = codes ", dei" ++ prio_text;
  index = 0;
}

abbrev dei_parameter : Parameter
dei_parameter = record {
  parameter = codes "dei";
  value = codes "01";
  behind = prio_text;
  index = 1;
}

abbrev prio_parameter : Parameter
prio_parameter = record {
  parameter = codes "prio";
  value = b'"' ∷ codes "a,b)" ++ b'"' ∷ [];
  behind = b')' ∷ 10 ∷ [];
  index = 2;
}

parse_parameters-print_example :
    parse_parameters (b'(' ∷ print_from (vid ∷ dei ∷ prio ∷ []) (10 ∷ [])) false
    ≡ some (parameters (vid_parameter ∷ dei_parameter ∷ prio_parameter ∷ []))
parse_parameters-print_example =
    parse_parameters-print false (vid ∷ dei ∷ prio ∷ []) (10 ∷ []) (ground arith) refl

parse_parameters-Ends_example : AllEnd (parse_parameters (codes "(a=1, b") false)
parse_parameters-Ends_example = parse_parameters-Ends (codes "(a=1, b") false

-- Behind the first `vid` there is another one, before the `stop` that comes next.
abbrev tagged : ParameterList
tagged =
    fresh (vid_parameter ∷ dei_parameter ∷ record vid_parameter { index = 2 } ∷ prio_parameter ∷ [])

find_parameter_found_run :
    find_parameter tagged (some vid_parameter) (some (codes "prio")) (codes "vid") false
    ≡ ok (
      some (record vid_parameter { index = 2 }),
      record tagged { used = false ∷ false ∷ true ∷ false ∷ [] },
    )
unfolding same_text mark
find_parameter_found_run =
    find_parameter_found tagged (some vid_parameter) (some (codes "prio")) (codes "vid") false
      (vid_parameter ∷ []) (dei_parameter ∷ []) (prio_parameter ∷ [])
      (record vid_parameter { index = 2 }) refl refl (ground arith) refl refl

missing_smac :
    find_parameter tagged (some vid_parameter) (some (codes "prio")) (codes "smac") false
    ≡ err ex_par_unknown
unfolding same_text
missing_smac =
    find_parameter_missing tagged (some vid_parameter) (some (codes "prio")) (codes "smac") false
      (vid_parameter ∷ []) (dei_parameter ∷ record vid_parameter { index = 2 } ∷ [])
      (prio_parameter ∷ []) refl refl (ground arith) refl

select-syntax_run : select (codes "arp-probe") ≡ some arp_probe
select-syntax_run = select-syntax arp_probe

abbrev no_stamp : Stamp
no_stamp = record { has_timestamp = false; timestamp = 0; is_absolute = false }

-- What looks up one parameter and gives its value.
abbrev compile_vid : Protocol → ParameterList → Result (Option Parameter × ParameterList)
compile_vid p l = find_parameter l none none (codes "vid") false

parse-print_example :
    parse compile_vid 0 false no_stamp (32 ∷ b'+' ∷ b'1' ∷ b'0' ∷ b':' ∷ codes "udp(vid=70)")
    ≡ packets
        (some (record vid_parameter { behind = b')' ∷ [] }))
        (record { has_timestamp = true; timestamp = 10; is_absolute = false })
unfolding find_parameter search_from same_text mark check_for_unused_parameters
parse-print_example =
    parse-print compile_vid 0 false no_stamp (32 ∷ []) (relative b'1' (b'0' ∷ [])) b'u' (codes "dp")
      udp4 (vid ∷ []) [] (omega arith) (ground arith) (ground arith) refl (ground arith)
      (select-syntax udp4) (ground arith) refl

abbrev milliseconds : Compiler
milliseconds = record { default_delay = 2000; default_delay_scale = 1000 }

abbrev at_time : ℕ → Stamp
at_time n = record { has_timestamp = true; timestamp = n; is_absolute = true }

abbrev command_line : List (Stamp × ℕ)
command_line = (no_stamp, b'a') ∷ (at_time 5, b'b') ∷ (no_stamp, b'c') ∷ []

three_packets_sent :
    outcome 0 (process_packets milliseconds command_line)
    ≡ some ((b'a', 2000) ∷ (b'b', 5000) ∷ (b'c', 7000) ∷ [], 7000)
three_packets_sent = process_packets-planned milliseconds command_line (ground arith)

-- The second script begins at 2000.
abbrev two_scripts : List (List (Stamp × ℕ))
two_scripts = ((no_stamp, b'a') ∷ []) ∷ ((at_time 5, b'b') ∷ []) ∷ []

process_script_files-planned_example :
    outcome 0 (process_script_files milliseconds two_scripts)
    ≡ some ((b'a', 2000) ∷ (b'b', 7000) ∷ [], 7000)
process_script_files-planned_example =
    process_script_files-planned milliseconds two_scripts (ground arith)

-- A random number from 3 to 7 for the draw 1000.
as_int-IsIn_example : IsIn 1 4094 (as_int 1000 32 1 4094 (codes "*[3-0x7]"))
as_int-IsIn_example =
    as_int-IsIn 1000 1 4094 (codes "*[3-0x7]") (omega arith) (omega arith) 32 (omega arith)
      (omega arith)

as_int_random : as_int 1000 32 1 4094 (codes "*[3-0x7]") ≡ ok 3
unfolding as_int strtoull is_random_integer range rand
as_int_random = refl

as_int_octal : as_int 0 32 1 4094 (codes "010") ≡ ok 8
unfolding as_int strtoull is_random_integer range rand
as_int_octal = refl

-- What stands behind the first closing bracket is not looked at.
range_garbage : as_int 0 32 0 9 (codes "*[1-5]9]") ≡ ok 1
unfolding as_int strtoull is_random_integer range rand
range_garbage = refl

as_stream-print_example :
    as_stream (λ n. []) false 4 (codes "0a1bff") ≡ ok (0x0a ∷ 0x1b ∷ 0xff ∷ [], false)
as_stream-print_example =
    as_stream-print (λ n. []) false 4 (hex false 0x0a (0x1b ∷ 0xff ∷ [])) (ground arith)

as_stream_embedded : as_stream (λ n. []) true 40 (codes "<arp()>") ≡ ok (codes "arp()", true)
as_stream_embedded = as_stream-print (λ n. []) true 40 (instruction (codes "arp()")) refl

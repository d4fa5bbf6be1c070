-- ===== src/Script/Lines.antt =====
-- Every script is read to its end or to an error, and line numbers are right.
use tcppump.Common.{
  ℕ, zero, suc, ◌≤◌, ◌<◌, refl, sym, subst, arith, Bool, false, [], ◌∷◌, length, Bytes,
}
use tcppump.Script.{
  FileParser, go_on, complete, refuse, step, Scan, instruction, end_of_file, failed, scan,
  ScriptResult, done, next, wrong, out_of_fuel, follow, script, script_file, opened,
}
use tcppump.Script.Stops.{
  IsLocated, step-StepsLine, scan-cons, scan_empty-IsLocated, step-IsLocated,
}

-- The rest of the file behind an instruction.
abbrev pub rest_of : Scan → Bytes
rest_of (instruction text s file) = file
rest_of (end_of_file s) = []
rest_of (failed e s) = []

abbrev pub IsShorter : Scan → ℕ → Type 0
IsShorter (instruction text s file) n = length file < n
IsShorter (end_of_file s) n = Unit
IsShorter (failed e s) n = Unit

IsShorter-suc : (r : Scan) (n : ℕ) → IsShorter r n → IsShorter r (suc n)
IsShorter-suc (instruction text s file) n h = omega arith
IsShorter-suc (end_of_file s) n h = tt
IsShorter-suc (failed e s) n h = tt

IsShorter-le : (r : Scan) (n m : ℕ) → n ≤ m → IsShorter r n → IsShorter r m
IsShorter-le (instruction text s file) n m le h = omega arith
IsShorter-le (end_of_file s) n m le h = tt
IsShorter-le (failed e s) n m le h = tt

scan-IsShorter :
    (s : FileParser) (comment : Bool) (buffer file : Bytes)
    → IsShorter (scan s comment buffer file) (length file)
unfolding scan
scan-IsShorter s comment buffer [] = ground arith
scan-IsShorter s comment buffer (c ∷ file) =
    elim (step s comment buffer c)
      as (λ r.
        IsShorter
          (elim r [
            | go_on t still more ↦ scan t still more file
            | complete text t ↦ instruction text t file
            | refuse e t ↦ failed e t
          ])
          (suc (length file))) [
            | go_on t still more ↦
                IsShorter-suc (scan t still more file) (length file)
                  (scan-IsShorter t still more file)
            | complete text t ↦ omega arith
            | refuse e t ↦ tt
          ]

-- The result ends by itself.
abbrev pub Ends : ScriptResult → Type 0
Ends done = Unit
Ends (next text r) = Ends r
Ends (wrong e s) = Unit
Ends out_of_fuel = ⊥

follow-Ends :
    (fuel : ℕ) (r : Scan)
    → IsShorter r fuel
    → ((s : FileParser) (file : Bytes) → length file < fuel → Ends (script fuel s file))
    → Ends (follow (script fuel) r)
follow-Ends fuel (instruction text s file) h ih = ih s file h
follow-Ends fuel (end_of_file s) h ih = tt
follow-Ends fuel (failed e s) h ih = tt

script-Ends :
    (fuel : ℕ) (s : FileParser) (file : Bytes) → length file < fuel → Ends (script fuel s file)
unfolding script
script-Ends zero s file h = absurd (omega arith)
script-Ends (suc fuel) s file h =
    follow-Ends fuel (scan s false [] file)
      (IsShorter-le (scan s false [] file) (length file) fuel (omega arith)
        (scan-IsShorter s false [] file))
      (script-Ends fuel)

-- Every file is read to its end or to the first error: the calls of `parse` come to an end.
pub script_file-Ends : (file : Bytes) → Ends (script_file file)
unfolding script_file
script_file-Ends file = script-Ends (suc (length file)) opened file (omega arith)

-- The line number of a call of `parse` is right wherever it stops. An instruction ends at a `;` and a
-- wrong character is a `}`: what stands before it alone would not stop the call, with it the call gives
-- this result, and the line number has grown by the line breaks before it, those in comments included. At
-- the end of the file, with all blocks closed or not, it has grown by those of the whole file.
pub scan-IsLocated :
    (s : FileParser) (comment : Bool) (buffer file : Bytes)
    → IsLocated s comment buffer file (scan s comment buffer file)
scan-IsLocated s comment buffer [] = scan_empty-IsLocated s comment buffer
scan-IsLocated s comment buffer (c ∷ file) =
    subst (IsLocated s comment buffer (c ∷ file)) (sym (scan-cons s comment buffer c file)) (
      step-IsLocated s comment buffer c file (step s comment buffer c) refl
        (step-StepsLine s comment buffer c) (λ t still more. scan-IsLocated t still more file))

-- ===== src/Script/Stops.antt =====
-- Where a call of `parse` of src/compiler/fileparser.cpp stops, and the line that it has then.
use tcppump.Common.{
  ℕ, ◌+◌, ◌≡◌, refl, ap, ◌∙◌, sym, subst, arith, Bool, [], ◌∷◌, ◌++◌, ◌==◌, if◌then◌else◌, Bytes,
}
use tcppump.Script.{
  FileParser, Step, go_on, complete, refuse, step, Scan, instruction, end_of_file, failed, scan,
  missing_semicolon, missing_open, missing_close,
}

-- The line breaks in a text.
abbrev pub breaks : Bytes → ℕ
breaks [] = 0
breaks (c ∷ text) = (if c == 10 then 1 else 0) + breaks text

-- A call that comes to the end of its text without an instruction or a wrong character.
abbrev pub IsQuiet : Scan → Type 0
IsQuiet (instruction text t rest) = ⊥
IsQuiet (end_of_file t) = Unit
IsQuiet (failed missing_close t) = Unit
IsQuiet (failed missing_semicolon t) = ⊥
IsQuiet (failed missing_open t) = ⊥

-- The call stops at the character `c` behind `before`: what is before it alone would not stop the call,
-- with it the call gives `r`, and the line of the state `t` is that of `c`.
pub record Stops (s : FileParser) (comment : Bool) (buffer file : Bytes) (c : ℕ) (r : Scan)
    (t : FileParser) (rest : Bytes) : Type 0 where
  pub before : Bytes
  pub splits : file ≡ before ++ c ∷ rest
  pub quiet : IsQuiet (scan s comment buffer before)
  pub stops : scan s comment buffer (before ++ c ∷ []) ≡ r
  pub counted : t.line_nbr ≡ s.line_nbr + breaks before

abbrev pub IsLocated : FileParser → Bool → Bytes → Bytes → Scan → Type 0
IsLocated s comment buffer file (instruction text t rest) =
    Stops s comment buffer file b';' (instruction text t []) t rest
IsLocated s comment buffer file (end_of_file t) = t.line_nbr ≡ s.line_nbr + breaks file
IsLocated s comment buffer file (failed missing_close t) = t.line_nbr ≡ s.line_nbr + breaks file
IsLocated s comment buffer file (failed missing_semicolon t) =
    (rest : Bytes) × Stops s comment buffer file b'}' (failed missing_semicolon t) t rest
IsLocated s comment buffer file (failed missing_open t) =
    (rest : Bytes) × Stops s comment buffer file b'}' (failed missing_open t) t rest

-- The line after one character, and which character stops the loop.
abbrev pub StepsLine : FileParser → ℕ → Step → Type 0
StepsLine s c (go_on t still more) = t.line_nbr ≡ s.line_nbr + breaks (c ∷ [])
StepsLine s c (complete text t) = (c ≡ b';') × (t.line_nbr ≡ s.line_nbr)
StepsLine s c (refuse missing_close t) = ⊥
StepsLine s c (refuse missing_semicolon t) = (c ≡ b'}') × (t.line_nbr ≡ s.line_nbr)
StepsLine s c (refuse missing_open t) = (c ≡ b'}') × (t.line_nbr ≡ s.line_nbr)

pub step-StepsLine :
    (s : FileParser) (comment : Bool) (buffer : Bytes) (c : ℕ)
    → StepsLine s c (step s comment buffer c)
unfolding step
step-StepsLine s comment buffer c = ground arith

abbrev pub continue : Bytes → Step → Scan
continue file (go_on t still more) = scan t still more file
continue file (complete text t) = instruction text t file
continue file (refuse e t) = failed e t

pub scan-cons :
    (s : FileParser) (comment : Bool) (buffer : Bytes) (c : ℕ) (file : Bytes)
    → scan s comment buffer (c ∷ file) ≡ continue file (step s comment buffer c)
unfolding scan
scan-cons s comment buffer c file =
    elim (step s comment buffer c)
      as (λ r.
        elim r [
          | go_on t still more ↦ scan t still more file
          | complete text t ↦ instruction text t file
          | refuse e t ↦ failed e t
        ]
        ≡ continue file r) [
          | go_on t still more ↦ refl
          | complete text t ↦ refl
          | refuse e t ↦ refl
        ]

scan_empty-IsQuiet :
    (s : FileParser) (comment : Bool) (buffer : Bytes) → IsQuiet (scan s comment buffer [])
unfolding scan
scan_empty-IsQuiet s comment buffer = ground arith

pub scan_empty-IsLocated :
    (s : FileParser) (comment : Bool) (buffer : Bytes)
    → IsLocated s comment buffer [] (scan s comment buffer [])
unfolding scan
scan_empty-IsLocated s comment buffer = ground arith

module _ (s : FileParser) (comment : Bool) (buffer : Bytes) (c : ℕ) (file : Bytes) where
  -- The loop stops at this character.
  Stops-here :
      {t : FileParser} (d : ℕ)
      → c ≡ d
      → t.line_nbr ≡ s.line_nbr
      → Stops s comment buffer (c ∷ file) d (continue [] (step s comment buffer c)) t file
  Stops-here d is same = record {
    before = [];
    splits = ap (λ x. x ∷ file) is;
    quiet = scan_empty-IsQuiet s comment buffer;
    stops = ap (λ x. scan s comment buffer (x ∷ [])) (sym is) ∙ scan-cons s comment buffer c [];
    counted = omega (arith, same);
  }

  -- The loop stops later.
  Stops-later :
      {t u : FileParser} {still : Bool} {more rest : Bytes} {d : ℕ} {r : Scan}
      → step s comment buffer c ≡ go_on t still more
      → t.line_nbr ≡ s.line_nbr + breaks (c ∷ [])
      → Stops t still more file d r u rest
      → Stops s comment buffer (c ∷ file) d r u rest
  Stops-later {t} {u} {still} {more} {rest} {d} {r} e line later =
      let on : (f : Bytes) → scan s comment buffer (c ∷ f) ≡ scan t still more f =
        λ f. scan-cons s comment buffer c f ∙ ap (continue f) e in
      record {
        before = c ∷ later.before;
        splits = ap (λ f. c ∷ f) later.splits;
        quiet = subst IsQuiet (sym (on later.before)) later.quiet;
        stops = on (later.before ++ d ∷ []) ∙ later.stops;
        counted = omega (arith, line, later.counted);
      }

  later-IsLocated :
      {t : FileParser} {still : Bool} {more : Bytes} (r : Scan)
      → step s comment buffer c ≡ go_on t still more
      → t.line_nbr ≡ s.line_nbr + breaks (c ∷ [])
      → IsLocated t still more file r
      → IsLocated s comment buffer (c ∷ file) r
  later-IsLocated (instruction text u rest) e line h = Stops-later e line h
  later-IsLocated (end_of_file u) e line h = omega (arith, line, h)
  later-IsLocated (failed missing_close u) e line h = omega (arith, line, h)
  later-IsLocated (failed missing_semicolon u) e line h = (h.0, Stops-later e line h.1)
  later-IsLocated (failed missing_open u) e line h = (h.0, Stops-later e line h.1)

  pub step-IsLocated :
      (r : Step)
      → step s comment buffer c ≡ r
      → StepsLine s c r
      → ((t : FileParser) (still : Bool) (more : Bytes)
          → IsLocated t still more file (scan t still more file))
      → IsLocated s comment buffer (c ∷ file) (continue file r)
  step-IsLocated (go_on t still more) e h ih =
      later-IsLocated (scan t still more file) e h (ih t still more)
  step-IsLocated (complete text t) e h ih =
      subst (λ r. Stops s comment buffer (c ∷ file) b';' (continue [] r) t file) e
        (Stops-here b';' h.0 h.1)
  step-IsLocated (refuse missing_close t) e h ih = absurd h
  step-IsLocated (refuse missing_semicolon t) e h ih = (
    file,
    subst (λ r. Stops s comment buffer (c ∷ file) b'}' (continue [] r) t file) e
        (Stops-here b'}' h.0 h.1),
  )
  step-IsLocated (refuse missing_open t) e h ih = (
    file,
    subst (λ r. Stops s comment buffer (c ∷ file) b'}' (continue [] r) t file) e
        (Stops-here b'}' h.0 h.1),
  )

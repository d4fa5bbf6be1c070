-- ===== src/Params/Lookup.antt =====
-- Which parameter a lookup finds, and which parameters are refused in the end.
use tcppump.Common.{
  ℕ, ◌+◌, ◌≡◌, refl, ap, ◌∙◌, arith, Bool, true, false, List, [], ◌∷◌, ◌++◌, Option, none, some,
  if◌then◌else◌, length, drop, drop-append, All, Bytes, ex_par_unknown, err, ok,
}
use tcppump.Params.{Parameter}
use tcppump.Params.Find.{
  ParameterList, same_text, stops_at, search_from, mark, first_place, settle, find_parameter,
}

-- The search goes on behind `v`.
abbrev pub IsPassed : Option Bytes → Bytes → Parameter → Type 0
IsPassed stop name v = (stops_at stop v.parameter ≡ false) × (same_text name v.parameter ≡ false)

search_passes :
    (n : ℕ) (stop : Option Bytes) (name : Bytes) (before rest : List Parameter)
    → All (IsPassed stop name) before
    → search_from n stop name (before ++ rest) ≡ search_from (n + length before) stop name rest
unfolding search_from
search_passes n stop name [] rest h = ap (λ m. search_from m stop name rest) (omega arith)
search_passes n stop name (v ∷ before) rest h =
    rw (h.0.0, h.0.1)
      (search_passes (n + 1) stop name before rest h.1
        ∙ ap (λ m. search_from m stop name rest) (omega arith))

search_finds :
    (n : ℕ) (stop : Option Bytes) (name : Bytes) (v : Parameter) (vs : List Parameter)
    → stops_at stop v.parameter ≡ false
    → same_text name v.parameter ≡ true
    → search_from n stop name (v ∷ vs) ≡ some (n, v)
unfolding search_from
search_finds n stop name v vs h k = rw (h, k) refl

search_missing :
    (n : ℕ) (stop : Option Bytes) (name : Bytes) (before rest : List Parameter)
    → All (IsPassed stop name) before
    → search_from (n + length before) stop name rest ≡ none
    → search_from n stop name (before ++ rest) ≡ none
search_missing n stop name before rest h k = search_passes n stop name before rest h ∙ k

-- The search ends here: at the end of the list, or at a parameter with the name `stop`.
abbrev pub EndsAt : Option Bytes → List Parameter → Type 0
EndsAt stop [] = Unit
EndsAt stop (v ∷ vs) = stops_at stop v.parameter ≡ true

search_ends :
    (n : ℕ) (stop : Option Bytes) (name : Bytes) (vs : List Parameter)
    → EndsAt stop vs
    → search_from n stop name vs ≡ none
unfolding search_from
search_ends n stop name [] h = refl
search_ends n stop name (v ∷ vs) h = rw h refl

module _ (l : ParameterList) (start : Option Parameter) (stop : Option Bytes) (name : Bytes)
    (optional : Bool) (skipped before rest : List Parameter)
    (lists : l.list ≡ skipped ++ (before ++ rest)) (starts : length skipped ≡ first_place start)
    (passed : All (IsPassed stop name) before) where
  searched :
      search_from (first_place start) stop name (drop (first_place start) l.list)
      ≡ search_from (first_place start + length before) stop name rest
  searched =
      ap (λ vs. search_from (first_place start) stop name (drop (first_place start) vs)) lists
      ∙ ap (search_from (first_place start) stop name)
          (drop-append (first_place start) skipped (before ++ rest) (omega arith))
      ∙ search_passes (first_place start) stop name before rest passed

  -- A search from behind the parameter `start` that gets to the end, or to a parameter with the name
  -- `stop`, finds nothing: the list is as before, or the parameter is missing.
  pub find_parameter_missing :
      EndsAt stop rest
      → find_parameter l start stop name optional
        ≡ (if optional then ok (none, l) else err ex_par_unknown)
  unfolding find_parameter
  find_parameter_missing h =
      ap (settle l optional)
        (searched ∙ search_ends (first_place start + length before) stop name rest h)

module _ (l : ParameterList) (start : Option Parameter) (stop : Option Bytes) (name : Bytes)
    (optional : Bool) (skipped before after : List Parameter) (v : Parameter) where
  -- A search from behind the parameter `start` finds the first parameter with the name, if none with
  -- the name `stop` comes before it, and marks that parameter, and no other, as used.
  pub find_parameter_found :
      l.list ≡ skipped ++ (before ++ v ∷ after)
      → length skipped ≡ first_place start
      → All (IsPassed stop name) before
      → stops_at stop v.parameter ≡ false
      → same_text name v.parameter ≡ true
      → find_parameter l start stop name optional
        ≡ ok (some v, record l { used = mark (first_place start + length before) true l.used })
  unfolding find_parameter
  find_parameter_found lists starts passed h k = ap (settle l optional) (
      searched l start stop name optional skipped before (v ∷ after) lists starts passed
      ∙ search_finds (first_place start + length before) stop name v after h k)

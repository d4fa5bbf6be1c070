-- ===== src/Params/Find.antt =====
-- findParameter, checkForUnusedParameters and setParameterUsed of src/compiler/parameterlist.cpp.
use tcppump.Common.{
  ℕ, zero, suc, ◌+◌, Bool, true, false, ◌&&◌, List, [], ◌∷◌, Option, none, some, ◌==◌,
  if◌then◌else◌, drop, Bytes, map, ex_par_unknown, ex_par_unused, Result, err, ok,
}
use tcppump.Params.{Parameter}

pub record ParameterList : Type 0 where
  pub list : List Parameter
  pub used : List Bool

-- `push_back` marks every parameter as unused.
abbrev pub fresh : List Parameter → ParameterList
fresh vs = record { list = vs; used = map (λ v. false) vs }

-- The names have the same length and `strncmp` finds no difference.
unfoldable pub same_text : Bytes → Bytes → Bool
same_text [] [] = true
same_text [] (b ∷ t) = false
same_text (a ∷ s) [] = false
same_text (a ∷ s) (b ∷ t) = a == b && same_text s t

abbrev pub stops_at : Option Bytes → Bytes → Bool
stops_at none name = false
stops_at (some stop) name = same_text stop name

-- The loop from the place `n` on, over the parameters from there.
unfoldable pub search_from : ℕ → Option Bytes → Bytes → List Parameter → Option (ℕ × Parameter)
search_from n stop name [] = none
search_from n stop name (v ∷ vs) =
    let later = search_from (n + 1) stop name vs in
    if stops_at stop v.parameter
    then none
    else if same_text name v.parameter
    then some (n, v)
    else later

-- `used.at (n) = value`.
unfoldable pub mark : ℕ → Bool → List Bool → List Bool
mark n value [] = []
mark zero value (u ∷ us) = value ∷ us
mark (suc n) value (u ∷ us) = u ∷ mark n value us

abbrev pub first_place : Option Parameter → ℕ
first_place none = 0
first_place (some v) = v.index + 1

-- The parameter that is found, or none where it is optional, and the list as it is then.
-- What the search comes to for the list.
abbrev pub settle :
    ParameterList → Bool → Option (ℕ × Parameter) → Result (Option Parameter × ParameterList)
settle l is_optional none = if is_optional then ok (none, l) else err ex_par_unknown
settle l is_optional (some r) = ok (some r.1, record l { used = mark r.0 true l.used })

unfoldable pub find_parameter :
    ParameterList
    → Option Parameter
    → Option Bytes
    → Bytes
    → Bool
    → Result (Option Parameter × ParameterList)
find_parameter l start_after stop_at name is_optional =
    let n = first_place start_after in
    settle l is_optional (search_from n stop_at name (drop n l.list))

-- A parameter with a default: the value that is given, or none, for which the caller has its default.
abbrev pub find_or :
    {A : Type 0} → ParameterList → Bytes → A → (Parameter → A) → Result (A × ParameterList)
find_or l name default read = elim (find_parameter l none none name true) [
  | err e ↦ err e
  | ok r ↦ ok (elim r.0 [ none ↦ default | some v ↦ read v ], r.1)
]

unfoldable pub set_parameter_used : ParameterList → Parameter → Bool → ParameterList
set_parameter_used l v value = record l { used = mark v.index value l.used }

abbrev pub unused : List Bool → Bool
unused [] = false
unused (u ∷ us) = if u then unused us else true

unfoldable pub check_for_unused_parameters : ParameterList → Result (Unit {0})
check_for_unused_parameters l = if unused l.used then err ex_par_unused else ok tt

-- ===== src/Handler/Keeps.antt =====
-- Handlers that leave a parameter unused: it has none of the names that they look up.
pub mod Readers
pub mod Link
pub mod Net
pub mod Inet
pub mod Control
pub mod Whole
pub mod Refused
use tcppump.Common.{
  ℕ, zero, suc, ◌+◌, ◌-◌, ◌≤◌, ◌<◌, ◌≡◌, ◌≢◌, refl, sym, ap, subst, ◌∙◌, arith, Bool, true, false,
  Bool-cases, inl, inr, List, [], ◌∷◌, Option, none, some, if◌then◌else◌, drop, Bytes, Result, err,
  ok,
}
use native.Mathlib.Decide.{dec_le}
use tcppump.Params.{Parameter}
use tcppump.Params.Find.{
  ParameterList, same_text, search_from, stops_at, mark, settle, find_parameter, first_place,
}
use tcppump.Params.Unused.{Unmarked, mark-Unmarked, Avoids, IsFrom, IsFrom-Avoids, IsFrom-le}
use tcppump.Handler.{
  World, Handler, ◌>>=◌, pure, lift, find_from, find_optional, with_list, draw, required, given_or,
  given, read_found, read_or, read_given, counted, own,
}

-- The parameter at the place `k`, if there is one, has another name.
abbrev pub NotNamed : Bytes → ℕ → List Parameter → Type 0
NotNamed name k [] = Unit
NotNamed name zero (v ∷ vs) = same_text name v.parameter ≡ false
NotNamed name (suc k) (v ∷ vs) = NotNamed name k vs

search-IsFrom :
    (n : ℕ) (stop : Option Bytes) (name : Bytes) (vs : List Parameter)
    → IsFrom n (search_from n stop name vs)
unfolding search_from
search-IsFrom n stop name [] = tt
search-IsFrom n stop name (v ∷ vs) = elim (Bool-cases (stops_at stop v.parameter)) [
  | inl h ↦ rw h tt
  | inr h ↦ rw h (elim (Bool-cases (same_text name v.parameter)) [
    | inl k ↦ rw k (omega arith)
    | inr k ↦ rw k (
        IsFrom-le n (n + 1) (search_from (n + 1) stop name vs) (omega arith)
          (search-IsFrom (n + 1) stop name vs))
  ])
]

search-Avoids :
    (n : ℕ) (stop : Option Bytes) (name : Bytes) (k : ℕ) (vs : List Parameter)
    → NotNamed name k vs
    → Avoids (n + k) (search_from n stop name vs)
unfolding search_from
search-Avoids n stop name k [] h = tt
search-Avoids n stop name zero (v ∷ vs) h = elim (Bool-cases (stops_at stop v.parameter)) [
  | inl s ↦ rw s tt
  | inr s ↦
      rw (s, h)
        (IsFrom-Avoids (n + 0) (n + 1) (search_from (n + 1) stop name vs) (omega arith)
          (search-IsFrom (n + 1) stop name vs))
]
search-Avoids n stop name (suc k) (v ∷ vs) h = elim (Bool-cases (stops_at stop v.parameter)) [
  | inl s ↦ rw s tt
  | inr s ↦ rw s (elim (Bool-cases (same_text name v.parameter)) [
    | inl t ↦ rw t (omega arith)
    | inr t ↦ rw t (
        subst (λ m. Avoids m (search_from (n + 1) stop name vs)) (omega arith)
          (search-Avoids (n + 1) stop name k vs h))
  ])
]

NotNamed-drop :
    (name : Bytes) (d k : ℕ) (vs : List Parameter)
    → NotNamed name (d + k) vs
    → NotNamed name k (drop d vs)
NotNamed-drop name zero k vs h =
    let same : 0 + k ≡ k = omega arith in subst (λ m. NotNamed name m vs) same h
NotNamed-drop name (suc d) k [] h = tt
NotNamed-drop name (suc d) k (v ∷ vs) h =
    let same : suc d + k ≡ suc (d + k) = omega arith in
    NotNamed-drop name d k vs (subst (λ m. NotNamed name m (v ∷ vs)) same h)

-- A lookup from the place `d` on does not find the parameter at `k`.
lookup-Avoids :
    (stop : Option Bytes) (name : Bytes) (d k : ℕ) (vs : List Parameter)
    → NotNamed name k vs
    → Avoids k (search_from d stop name (drop d vs))
lookup-Avoids stop name d k vs h = elim (dec_le d k) [
  | yes le ↦
      subst (λ m. Avoids m (search_from d stop name (drop d vs))) (omega arith)
        (search-Avoids d stop name (k - d) (drop d vs)
          (NotNamed-drop name d (k - d) vs (subst (λ m. NotNamed name m vs) (omega arith) h)))
  | no gt ↦
      IsFrom-Avoids k d (search_from d stop name (drop d vs)) (omega arith)
        (search-IsFrom d stop name (drop d vs))
]

module _ (k : ℕ) (list : List Parameter) where
  -- The parameter at `k` is not used yet.
  abbrev pub Waits : World → Type 0
  Waits w = (w.params.list ≡ list) × Unmarked k w.params.used

  abbrev pub StillWaits : {A : Type 0} → Result (A × World) → Type 0
  StillWaits (err cause) = Unit
  StillWaits (ok r) = Waits r.1

  -- A handler that leaves the parameter at `k` unused.
  pub record Keeps {A : Type 0} (m : Handler A) : Type 0 where
    pub keeps : (w : World) → Waits w → StillWaits (m w)

  next-StillWaits :
      {A B : Type 0} (f : A → Handler B) (r : Result (A × World))
      → ((a : A) → Keeps (f a))
      → StillWaits r
      → StillWaits {A = B} (elim r [ err cause ↦ err cause | ok s ↦ f s.0 s.1 ])
  next-StillWaits f (err cause) h s = tt
  next-StillWaits f (ok r) h s = (h r.0).keeps r.1 s

  pub bind-Keeps :
      {A B : Type 0} (m : Handler A) (f : A → Handler B)
      → Keeps m
      → ((a : A) → Keeps (f a))
      → Keeps (m >>= f)
  bind-Keeps m f h g = record { keeps = λ w s. next-StillWaits f (m w) g (h.keeps w s) }

  pub pure-Keeps : {A : Type 0} (a : A) → Keeps (pure a)
  pure-Keeps a = record { keeps = λ w s. s }

  lifted : {A : Type 0} (r : Result A) (w : World) → Waits w → StillWaits (lift r w)
  lifted (err cause) w s = tt
  lifted (ok a) w s = s

  pub lift-Keeps : {A : Type 0} (r : Result A) → Keeps (lift r)
  lift-Keeps r = record { keeps = lifted r }

  settled :
      (is_optional : Bool) (w : World) (r : Option (ℕ × Parameter))
      → Waits w
      → Avoids k r
      → StillWaits (with_list w (settle w.params is_optional r))
  settled true w none s a = s
  settled false w none s a = tt
  settled is_optional w (some r) s a = (s.0, mark-Unmarked r.0 k w.params.used a s.1)

  pub find-Keeps :
      (start : Option Parameter) (stop : Option Bytes) (name : Bytes) (is_optional : Bool)
      → NotNamed name k list
      → Keeps (find_from start stop name is_optional)
  unfolding find_parameter
  find-Keeps start stop name is_optional h = record {
    keeps = λ w s.
        settled is_optional w
          (search_from (first_place start) stop name (drop (first_place start) w.params.list)) s
          (subst
            (λ vs.
              Avoids k (search_from (first_place start) stop name (drop (first_place start) vs)))
            (sym s.0) (lookup-Avoids stop name (first_place start) k list h));
  }

  -- A value of the generator from the state.
  module _ {A : Type 0} (v : Bytes) (r : World → Result A) where
    draw_at : (w : World) (a : Result A) → Waits w → StillWaits (draw v a w)
    draw_at w (err cause) s = tt
    draw_at w (ok a) s = s

    pub draw-Keeps : Keeps (λ w. draw v (r w) w)
    draw-Keeps = record { keeps = λ w s. draw_at w (r w) s }

  module _ {A : Type 0} (r : World → Option (A × ℕ)) where
    counted_at : (w : World) (a : Option (A × ℕ)) → Waits w → StillWaits (counted a w)
    counted_at w none s = tt
    counted_at w (some a) s = s

    pub counted-Keeps : Keeps (λ w. counted (r w) w)
    counted-Keeps = record { keeps = λ w s. counted_at w (r w) s }

  pub own-Keeps : (a : Option Bytes) → Keeps (own a)
  own-Keeps none = record { keeps = λ w s. tt }
  own-Keeps (some a) = pure-Keeps a

  module _ {A : Type 0} (name : Bytes) (read : Bytes → Handler A) (h : NotNamed name k list)
      (reads : (v : Bytes) → Keeps (read v)) where
    read_found-Keeps : (v : Option Parameter) → Keeps (read_found read v)
    read_found-Keeps none = record { keeps = λ w s. tt }
    read_found-Keeps (some v) = record { keeps = (reads v.value).keeps }

    pub required-Keeps : Keeps (required name read)
    required-Keeps =
        bind-Keeps (find_from none none name false) (read_found read)
          (find-Keeps none none name false h) read_found-Keeps

    read_or-Keeps : (default : A) (v : Option Parameter) → Keeps (read_or read default v)
    read_or-Keeps default none = record { keeps = λ w s. s }
    read_or-Keeps default (some v) = record { keeps = (reads v.value).keeps }

    pub given_or-Keeps : (default : A) → Keeps (given_or name default read)
    given_or-Keeps default =
        bind-Keeps (find_optional name) (read_or read default) (find-Keeps none none name true h)
          (read_or-Keeps default)

    wrapped :
        (r : Result (A × World))
        → StillWaits r
        → StillWaits {A = Option A} (elim r [ err cause ↦ err cause | ok s ↦ ok (some s.0, s.1) ])
    wrapped (err cause) s = tt
    wrapped (ok r) s = s

    read_given-Keeps : (v : Option Parameter) → Keeps (read_given read v)
    read_given-Keeps none = record { keeps = λ w s. s }
    read_given-Keeps (some v) = record {
      keeps = λ w s. wrapped (read v.value w) ((reads v.value).keeps w s);
    }

    pub given-Keeps : Keeps (given name read)
    given-Keeps =
        bind-Keeps (find_optional name) (read_given read) (find-Keeps none none name true h)
          read_given-Keeps

-- ===== src/Params/Unused.antt =====
-- The marks of the parameters that lookups have found, which `checkForUnusedParameters` reads.
use tcppump.Common.{
  ℕ, zero, suc, ◌≤◌, ◌<◌, ◌≡◌, ◌≢◌, refl, ap, arith, Bool, true, false, List, [], ◌∷◌, Option, none,
  some,
}
use tcppump.Params.{Parameter}
use tcppump.Params.Find.{mark, unused}

abbrev pub Avoids : ℕ → Option (ℕ × Parameter) → Type 0
Avoids k none = Unit
Avoids k (some r) = r.0 ≢ k

abbrev pub IsFrom : ℕ → Option (ℕ × Parameter) → Type 0
IsFrom k none = Unit
IsFrom k (some r) = k ≤ r.0

pub IsFrom-Avoids : (k m : ℕ) (r : Option (ℕ × Parameter)) → k < m → IsFrom m r → Avoids k r
IsFrom-Avoids k m none h f = tt
IsFrom-Avoids k m (some r) h f = omega arith

pub IsFrom-le : (k m : ℕ) (r : Option (ℕ × Parameter)) → k ≤ m → IsFrom m r → IsFrom k r
IsFrom-le k m none h f = tt
IsFrom-le k m (some r) h f = omega arith

abbrev pub Unmarked : ℕ → List Bool → Type 0
Unmarked k [] = ⊥
Unmarked zero (u ∷ us) = u ≡ false
Unmarked (suc k) (u ∷ us) = Unmarked k us

pub mark-Unmarked : (m k : ℕ) (us : List Bool) → m ≢ k → Unmarked k us → Unmarked k (mark m true us)
unfolding mark
mark-Unmarked m k [] ne h = h
mark-Unmarked zero zero (u ∷ us) ne h = absurd (ne refl)
mark-Unmarked zero (suc k) (u ∷ us) ne h = h
mark-Unmarked (suc m) zero (u ∷ us) ne h = h
mark-Unmarked (suc m) (suc k) (u ∷ us) ne h = mark-Unmarked m k us (λ e. ne (ap suc e)) h

pub Unmarked-unused : (k : ℕ) (us : List Bool) → Unmarked k us → unused us ≡ true
Unmarked-unused k [] h = elim h [ ]
Unmarked-unused zero (u ∷ us) h = rw h refl
Unmarked-unused (suc k) (true ∷ us) h = Unmarked-unused k us h
Unmarked-unused (suc k) (false ∷ us) h = refl

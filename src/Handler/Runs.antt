-- ===== src/Handler/Runs.antt =====
-- Calls of handlers that return.
use tcppump.Common.{ℕ, ◌≡◌, refl, ap, ◌∙◌, false, none, some, Bytes, Result, err, ok}
use tcppump.Params.{Parameter}
use tcppump.Handler.{World, Handler, ◌>>=◌, pure, lift, find_from, find_optional, required, given}

pub record Runs {A : Type 0} (m : Handler A) (w : World) (a : A) (w' : World) : Type 0 where
  pub run : m w ≡ ok (a, w')

pub bind-Runs :
    {A B : Type 0} (m : Handler A) (f : A → Handler B) {w w' w'' : World} {a : A} {b : B}
    → Runs m w a w'
    → Runs (f a) w' b w''
    → Runs (m >>= f) w b w''
bind-Runs m f h k = record {
  run = ap (λ r. elim r [ err cause ↦ err cause | ok s ↦ f s.0 s.1 ]) h.run ∙ k.run;
}

pub pure-Runs : {A : Type 0} (a : A) (w : World) → Runs (pure a) w a w
pure-Runs a w = record { run = refl }

pub lift-Runs : {A : Type 0} {m : Result A} {a : A} (w : World) → m ≡ ok a → Runs (lift m) w a w
lift-Runs w h = record { run = ap (λ r. lift r w) h }

-- A text that is read as a value, with the numbers `k` to `k'` of the generator.
abbrev pub Reads : {A : Type 0} → (Bytes → Handler A) → Bytes → ℕ → A → ℕ → Type 0
Reads read text k a k' =
    (w : World) → w.called ≡ k → Runs (read text) w a (record w { called = k' })

module _ {A : Type 0} (name : Bytes) (read : Bytes → Handler A) {v : Parameter}
    {w w' w'' : World} where
  pub required-Runs :
      {a : A}
      → Runs (find_from none none name false) w (some v) w'
      → Runs (read v.value) w' a w''
      → Runs (required name read) w a w''
  required-Runs h k = bind-Runs _ _ h record { run = k.run }

  pub given-Runs :
      {a : A}
      → Runs (find_optional name) w (some v) w'
      → Runs (read v.value) w' a w''
      → Runs (given name read) w (some a) w''
  given-Runs h k =
      bind-Runs _ _ h record {
        run = ap (λ r. elim r [ err cause ↦ err cause | ok s ↦ ok (some s.0, s.1) ]) k.run;
      }

-- ===== src/Params/Ends.antt =====
-- The loop of `parseParameters` comes to an end.
use tcppump.Common.{
  ℕ, zero, suc, ◌+◌, ◌≤◌, ◌<◌, ◌≡◌, refl, arith, Bool, true, false, ◌||◌, [], ◌∷◌, Option, none,
  some, ◌==◌, if◌then◌else◌, length, Bytes, drop,
}
use tcppump.Text.{is_alpha, is_key, is_value, skip_whitespaces, next_key_end, at}
use tcppump.Text.Tokens.{skip-le, token-le}
use tcppump.Params.{
  Parameter, Stage, found, bad, closed_by, delimited, value_at, parse_value, value_of_name,
  with_value, parse_parameter, Parsed, parameters, parse_error, out_of_fuel, parse_from,
  parse_parameters, more, continue_with, list_end,
}

-- What is behind the value has at most `n` characters.
abbrev Within {ℓ} : {A : Type ℓ} → ℕ → Stage A → Type 0
Within n (found v p) = length p ≤ n
Within n (bad p) = Unit

abbrev Shorter : ℕ → Option (Bytes × Bytes) → Type 0
Shorter n none = Unit
Shorter n (some r) = length r.1 ≤ n

closed-Shorter : (c : ℕ) (p : Bytes) → Shorter (length p) (closed_by c p)
closed-Shorter c [] = tt
closed-Shorter c (d ∷ p) = ground (arith, closed-Shorter c p)

delimited-Within : (a c n : ℕ) (p : Bytes) → length p ≤ n → Within n (delimited a c p)
delimited-Within a c n p h = ground (arith, closed-Shorter c p)

value_at-Within : (p : Bytes) → Within (length p) (value_at p)
value_at-Within [] = omega arith
value_at-Within (c ∷ p) = ground (
  arith,
  delimited-Within c b'"' (length (c ∷ p)) p,
  delimited-Within c b'>' (length (c ∷ p)) p,
  token-le is_value (c ∷ p),
)

Within-le {ℓ} : {A : Type ℓ} (n m : ℕ) (r : Stage A) → n ≤ m → Within n r → Within m r
Within-le n m (found v p) h k = omega arith
Within-le n m (bad p) h k = tt

started-Within :
    (b : Bool) (p q : Bytes)
    → length q ≤ length p
    → Within (length p) (elim (if b then some q else none) as (λ x. Stage Bytes) [
      | none ↦ bad p
      | some r ↦ value_at r
    ])
started-Within true p q h = Within-le (length q) (length p) (value_at q) h (value_at-Within q)
started-Within false p q h = tt

parse_value-Within : (p : Bytes) → Within (length p) (parse_value p)
parse_value-Within p = started-Within _ p (skip_whitespaces p) (skip-le p)

drop-le : (p : Bytes) → length (drop 1 p) ≤ length p
drop-le [] = omega arith
drop-le (c ∷ p) = omega arith

value_of_name-Within : (p : Bytes) → Within (length p) (value_of_name p)
value_of_name-Within p = ground (
  arith,
  drop-le p,
  Within-le (length (drop 1 p)) (length p) (parse_value (drop 1 p)) (drop-le p)
      (parse_value-Within (drop 1 p)),
)

with_value-Within :
    (n m : ℕ) (name : Bytes) (v : Stage Bytes) → Within m v → Within m (with_value n name v)
with_value-Within n m name (bad p) h = tt
with_value-Within n m name (found v p) h = ground (arith, skip-le p, drop-le (skip_whitespaces p))

-- A name takes a character at least.
key_takes : (q : Bytes) → is_alpha (at q) ≡ true → length (next_key_end q).1 < length q
key_takes [] h = absurd (ground arith)
key_takes (c ∷ q) h = ground (arith, token-le is_key q)

or_false : (b : Bool) → (b || false) ≡ true → b ≡ true
or_false true h = refl
or_false false h = h

named-Within :
    (n m : ℕ) (b : Bool) (p q : Bytes)
    → (b ≡ true → is_alpha (at q) ≡ true)
    → length q ≤ suc m
    → Within m (elim (if b then some q else none) as (λ x. Stage Parameter) [
      | none ↦ bad p
      | some r ↦
          with_value n (next_key_end r).0 (value_of_name (skip_whitespaces (next_key_end r).1))
    ])
named-Within n m true p q h k =
    with_value-Within n m (next_key_end q).0 (value_of_name (skip_whitespaces (next_key_end q).1)) (
      Within-le (length (skip_whitespaces (next_key_end q).1)) m
        (value_of_name (skip_whitespaces (next_key_end q).1))
        (omega (arith, key_takes q (h refl), skip-le (next_key_end q).1))
        (value_of_name-Within (skip_whitespaces (next_key_end q).1)))
named-Within n m false p q h k = tt

-- A parameter takes a character at least.
parse_parameter-Within : (n m : ℕ) (p : Bytes) → length p ≤ suc m → Within m (parse_parameter n p)
unfolding parse_parameter
parse_parameter-Within n m p h =
    named-Within n m _ p (skip_whitespaces p) (or_false (is_alpha (at (skip_whitespaces p))))
      (omega (arith, skip-le p))

abbrev pub Ends : Parsed → Type 0
Ends (parameters vs) = Unit
Ends (parse_error p) = Unit
Ends out_of_fuel = ⊥

more-Ends : (v : Parameter) (r : Parsed) → Ends r → Ends (more v r)
more-Ends v (parameters vs) h = tt
more-Ends v (parse_error p) h = tt
more-Ends v out_of_fuel h = elim h [ ]

continue_with-Ends :
    (fuel : ℕ) (rest : Bytes → Parsed) (r : Stage Parameter)
    → Within fuel r
    → ((p : Bytes) → length p ≤ fuel → Ends (rest p))
    → Ends (continue_with rest r)
continue_with-Ends fuel rest (bad p) h k = tt
continue_with-Ends fuel rest (found v p) h k = more-Ends v (rest p) (k p h)

list_end-Ends : (garbage : Bool) (p : Bytes) → Ends (list_end garbage p)
list_end-Ends garbage [] = tt
list_end-Ends garbage (c ∷ p) = ground arith

round-Ends :
    (b garbage : Bool) (p : Bytes) (r : Parsed)
    → Ends r
    → Ends (if b then list_end garbage p else r)
round-Ends true garbage p r h = list_end-Ends garbage p
round-Ends false garbage p r h = h

parse_from-Ends :
    (fuel n : ℕ) (garbage : Bool) (p : Bytes) → length p < fuel → Ends (parse_from fuel n garbage p)
unfolding parse_from
parse_from-Ends zero n garbage p h = absurd (omega arith)
parse_from-Ends (suc zero) n garbage [] h = tt
parse_from-Ends (suc zero) n garbage (c ∷ p) h = absurd (omega arith)
parse_from-Ends (suc (suc fuel)) n garbage p h =
    round-Ends (at p == 0 || at p == b')') garbage p
      (continue_with (parse_from (suc fuel) (n + 1) garbage) (parse_parameter n p))
      (continue_with-Ends fuel (parse_from (suc fuel) (n + 1) garbage) (parse_parameter n p)
        (parse_parameter-Within n fuel p (omega arith))
        (λ q k. parse_from-Ends (suc fuel) (n + 1) garbage q (omega arith)))

abbrev pub AllEnd : Option Parsed → Type 0
AllEnd none = Unit
AllEnd (some r) = Ends r

-- The parser comes to an end on every text, with a list or with the place of a syntax error: each
-- round of its loop takes a character at least.
pub parse_parameters-Ends : (p : Bytes) (garbage : Bool) → AllEnd (parse_parameters p garbage)
unfolding parse_parameters
parse_parameters-Ends p garbage = begun (at p == b'(')
  where
    begun :
        (b : Bool)
        → AllEnd (if b then some (parse_from (suc (length p)) 0 garbage (drop 1 p)) else none)
    begun true = parse_from-Ends (suc (length p)) 0 garbage (drop 1 p) (omega (arith, drop-le p))
    begun false = tt

-- ===== src/Params/Written.antt =====
-- Parameter lists as they are written, and what is parsed of them.
use tcppump.Common.{
  ℕ, zero, suc, ◌+◌, ◌≤◌, ◌<◌, ◌≡◌, refl, ap, ◌∙◌, arith, Bool, true, false, ◌||◌, List, [], ◌∷◌,
  ◌++◌, some, ◌==◌, if◌then◌else◌, length, length-append, All, Bytes,
}
use tcppump.Text.{
  is_space, is_alpha, is_digit, is_key, is_value, skip_whitespaces, next_key_end, at,
}
use tcppump.Text.Tokens.{token_end, key_start}
use tcppump.Params.{
  Parameter, bool_value, found, closed_by, delimited, parse_value, value_of_name, with_value,
  parse_parameter, parameters, parse_from, parse_parameters, more, continue_with, list_end,
  parse_error,
}

-- A word, a text between quotation marks, an instruction between angle brackets, or nothing.
pub data Value : Type 0 where
  word : ℕ → Bytes → Value
  quoted embedded : Bytes → Value
  flag : Value

pub record Entry : Type 0 where
  pub before : Bytes
  pub initial : ℕ
  pub others : Bytes
  pub given : Value

abbrev pub print_value : Value → Bytes → Bytes
print_value (word a w) p = b'=' ∷ a ∷ w ++ p
print_value (quoted t) p = b'=' ∷ b'"' ∷ t ++ b'"' ∷ p
print_value (embedded t) p = b'=' ∷ b'<' ∷ t ++ b'>' ∷ p
print_value flag p = p

abbrev pub text_of : Value → Bytes
text_of (word a w) = a ∷ w
text_of (quoted t) = b'"' ∷ t ++ b'"' ∷ []
text_of (embedded t) = b'<' ∷ t ++ b'>' ∷ []
text_of flag = bool_value

abbrev pub print_entry : Entry → Bytes → Bytes
print_entry e p = e.before ++ e.initial ∷ (e.others ++ print_value e.given p)

abbrev pub separator : List Entry → Bytes → Bytes
separator [] p = p
separator (e ∷ es) p = b',' ∷ p

-- The list behind its opening bracket, and what follows the list.
abbrev pub print_from : List Entry → Bytes → Bytes
print_from [] behind = b')' ∷ behind
print_from (e ∷ es) behind = print_entry e (separator es (print_from es behind))

-- The parameter of an entry in front of the text `behind`.
abbrev pub parameter_of : ℕ → Entry → Bytes → Parameter
parameter_of n e behind = record {
  parameter = e.initial ∷ e.others;
  value = text_of e.given;
  behind = behind;
  index = n;
}

abbrev pub parameters_from : ℕ → List Entry → Bytes → List Parameter
parameters_from n [] tail = []
parameters_from n (e ∷ es) tail =
    parameter_of n e (separator es (print_from es tail)) ∷ parameters_from (n + 1) es tail

abbrev pub starts_word : ℕ → Bool
starts_word a = is_alpha a || (is_digit a || a == b'*')

abbrev pub IsValue : Value → Type 0
IsValue (word a w) = (starts_word a ≡ true) × All (λ c. is_value c ≡ true) w
IsValue (quoted t) = All (λ c. (c == b'"') ≡ false) t
IsValue (embedded t) = All (λ c. (c == b'>') ≡ false) t
IsValue flag = Unit

abbrev pub IsEntry : Entry → Type 0
IsEntry e =
    All (λ c. is_space c ≡ true) e.before
    × (is_alpha e.initial ≡ true)
    × All (λ c. is_key c ≡ true) e.others
    × IsValue e.given

closed_lem :
    (c : ℕ) (t p : Bytes)
    → All (λ d. (d == c) ≡ false) t
    → (c == c) ≡ true
    → closed_by c (t ++ c ∷ p) ≡ some (t ++ c ∷ [], p)
closed_lem c [] p h k = rw k refl
closed_lem c (d ∷ t) p h k = rw (h.0, closed_lem c t p h.1 k) refl

delimited_lem :
    (a c : ℕ) (t p : Bytes)
    → All (λ d. (d == c) ≡ false) t
    → (c == c) ≡ true
    → delimited a c (t ++ c ∷ p) ≡ found (a ∷ t ++ c ∷ []) p
delimited_lem a c t p h k = rw (delimited, closed_lem c t p h k) refl

abbrev mark_of : Bool → ℕ
mark_of b = if b then b',' else b')'

word_value :
    (a : ℕ) (w : Bytes) (b : Bool) (p : Bytes)
    → starts_word a ≡ true
    → All (λ c. is_value c ≡ true) w
    → parse_value (a ∷ w ++ mark_of b ∷ p) ≡ found (a ∷ w) (mark_of b ∷ p)
word_value a w true p h k = ground (arith, token_end is_value w b',' p k refl)
word_value a w false p h k = ground (arith, token_end is_value w b')' p k refl)

value_lem :
    (v : Value) (b : Bool) (p : Bytes)
    → IsValue v
    → value_of_name (skip_whitespaces (print_value v (mark_of b ∷ p)))
      ≡ found (text_of v) (mark_of b ∷ p)
value_lem (word a w) b p h = word_value a w b p h.0 h.1
value_lem (quoted t) b p h = delimited_lem b'"' b'"' t (mark_of b ∷ p) h refl
value_lem (embedded t) b p h = delimited_lem b'<' b'>' t (mark_of b ∷ p) h refl
value_lem flag true p h = refl
value_lem flag false p h = refl

-- What stands behind the name begins with a character that no name has.
name_end :
    (a : ℕ) (others : Bytes) (v : Value) (b : Bool) (p : Bytes)
    → is_alpha a ≡ true
    → All (λ c. is_key c ≡ true) others
    → next_key_end (a ∷ others ++ print_value v (mark_of b ∷ p))
      ≡ (a ∷ others, print_value v (mark_of b ∷ p))
name_end a others (word c w) b p h k =
    token_end is_key (a ∷ others) b'=' (c ∷ w ++ mark_of b ∷ p) (ground arith, k) refl
name_end a others (quoted t) b p h k =
    token_end is_key (a ∷ others) b'=' (b'"' ∷ t ++ b'"' ∷ mark_of b ∷ p) (ground arith, k) refl
name_end a others (embedded t) b p h k =
    token_end is_key (a ∷ others) b'=' (b'<' ∷ t ++ b'>' ∷ mark_of b ∷ p) (ground arith, k) refl
name_end a others flag true p h k = token_end is_key (a ∷ others) b',' p (ground arith, k) refl
name_end a others flag false p h k = token_end is_key (a ∷ others) b')' p (ground arith, k) refl

abbrev behind : Bool → Bytes → Bytes
behind b p = if b then p else b')' ∷ p

with_value_lem :
    (n : ℕ) (name v : Bytes) (b : Bool) (p : Bytes)
    → with_value n name (found v (mark_of b ∷ p))
      ≡ found
          (record { parameter = name; value = v; behind = mark_of b ∷ p; index = n })
          (behind b p)
with_value_lem n name v true p = refl
with_value_lem n name v false p = refl

parse_parameter-print :
    (n : ℕ) (e : Entry) (b : Bool) (p : Bytes)
    → IsEntry e
    → parse_parameter n (print_entry e (mark_of b ∷ p))
      ≡ found (parameter_of n e (mark_of b ∷ p)) (behind b p)
unfolding parse_parameter
parse_parameter-print n e b p h =
    rw
      (
        parse_parameter,
        key_start e.before e.initial (e.others ++ print_value e.given (mark_of b ∷ p)) h.0 h.1,
      )
      (rw (name_end e.initial e.others e.given b p h.1 h.2) (
        ap (with_value n (e.initial ∷ e.others)) (value_lem e.given b p h.3)
        ∙ with_value_lem n (e.initial ∷ e.others) (text_of e.given) b p))

print_value-length : (v : Value) (p : Bytes) → length p ≤ length (print_value v p)
print_value-length (word a w) p = omega (arith, length-append w p)
print_value-length (quoted t) p = omega (arith, length-append t (b'"' ∷ p))
print_value-length (embedded t) p = omega (arith, length-append t (b'>' ∷ p))
print_value-length flag p = omega arith

print_entry-length : (e : Entry) (p : Bytes) → length p < length (print_entry e p)
print_entry-length e p = omega (
  arith,
  length-append e.before (e.initial ∷ (e.others ++ print_value e.given p)),
  length-append e.others (print_value e.given p),
  print_value-length e.given p,
)

first_alpha : (a : ℕ) → is_alpha a ≡ true → (a == 0 || a == b')') ≡ false
first_alpha a h = ground arith

first_space : (c : ℕ) → is_space c ≡ true → (c == 0 || c == b')') ≡ false
first_space c h = ground arith

first_char :
    (before : Bytes) (a : ℕ) (p : Bytes)
    → All (λ c. is_space c ≡ true) before
    → is_alpha a ≡ true
    → (at (before ++ a ∷ p) == 0 || at (before ++ a ∷ p) == b')') ≡ false
first_char [] a p h k = first_alpha a k
first_char (c ∷ before) a p h k = first_space c h.0

-- The loop goes on over a parameter that is written.
parse_from-entry :
    (fuel n : ℕ) (garbage : Bool) (e : Entry) (b : Bool) (p : Bytes)
    → IsEntry e
    → parse_from (suc fuel) n garbage (print_entry e (mark_of b ∷ p))
      ≡ more (parameter_of n e (mark_of b ∷ p)) (parse_from fuel (n + 1) garbage (behind b p))
unfolding parse_from
parse_from-entry fuel n garbage e b p h =
    ap
      (λ t.
        if t
        then list_end garbage (print_entry e (mark_of b ∷ p))
        else continue_with (parse_from fuel (n + 1) garbage)
            (parse_parameter n (print_entry e (mark_of b ∷ p))))
      (first_char e.before e.initial (e.others ++ print_value e.given (mark_of b ∷ p)) h.0 h.1)
    ∙ ap (continue_with (parse_from fuel (n + 1) garbage)) (parse_parameter-print n e b p h)

parse_from-nil :
    (fuel n : ℕ) (garbage : Bool) (tail : Bytes)
    → (garbage || at (skip_whitespaces tail) == 0) ≡ true
    → parse_from (suc fuel) n garbage (b')' ∷ tail) ≡ parameters []
unfolding parse_from
parse_from-nil fuel n garbage tail h =
    ap (λ t. if t then parameters [] else parse_error (skip_whitespaces tail)) h

parse_from-print :
    (fuel n : ℕ) (garbage : Bool) (es : List Entry) (tail : Bytes)
    → length (print_from es tail) < fuel
    → All IsEntry es
    → (garbage || at (skip_whitespaces tail) == 0) ≡ true
    → parse_from fuel n garbage (print_from es tail) ≡ parameters (parameters_from n es tail)
parse_from-print zero n garbage es tail h w k = absurd (omega arith)
parse_from-print (suc fuel) n garbage [] tail h w k = parse_from-nil fuel n garbage tail k
parse_from-print (suc fuel) n garbage (e ∷ []) tail h w k =
    parse_from-entry fuel n garbage e false tail w.0
    ∙ ap (more (parameter_of n e (b')' ∷ tail))) (
        parse_from-print fuel (n + 1) garbage [] tail
          (omega (arith, h, print_entry-length e (b')' ∷ tail))) tt k)
parse_from-print (suc fuel) n garbage (e ∷ f ∷ es) tail h w k =
    parse_from-entry fuel n garbage e true (print_from (f ∷ es) tail) w.0
    ∙ ap (more (parameter_of n e (b',' ∷ print_from (f ∷ es) tail))) (
        parse_from-print fuel (n + 1) garbage (f ∷ es) tail
          (omega (arith, h, print_entry-length e (b',' ∷ print_from (f ∷ es) tail))) w.1 k)

-- A parameter list that is written as the syntax says, names, values and white space before a name as
-- they are allowed, is parsed as its parameters, in order, each with its place in the list and the text behind it. What
-- follows the list is white space, or anything where it is ignored.
pub parse_parameters-print :
    (garbage : Bool) (es : List Entry) (tail : Bytes)
    → All IsEntry es
    → (garbage || at (skip_whitespaces tail) == 0) ≡ true
    → parse_parameters (b'(' ∷ print_from es tail) garbage
      ≡ some (parameters (parameters_from 0 es tail))
unfolding parse_parameters
parse_parameters-print garbage es tail w k = ap some (
    parse_from-print (suc (length (b'(' ∷ print_from es tail))) 0 garbage es tail (omega arith) w k)

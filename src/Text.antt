-- ===== src/Text.antt =====
-- src/compiler/parsehelper.hpp and src/compiler/parsehelper.cpp. A `const char*` is the text from
-- there on; the end of the list is the terminating NUL, so no text contains a 0.
pub mod Tokens
use Prim.Native.Char.{code}
use Prim.Native.String.{String}
use tcppump.Common.{
  ℕ, ◌+◌, ◌-◌, ◌*◌, ◌^◌, Bool, true, false, ◌&&◌, ◌||◌, List, [], ◌∷◌, Option, none, some, ltb, leb,
  ◌==◌, if◌then◌else◌, Bytes,
}

-- The characters of a string constant.
abbrev pub codes : String → Bytes
codes String.[] = []
codes (String.◌∷◌ c s) = code c ∷ codes s

-- isspace, isdigit and isalpha of the C locale.
abbrev pub is_space : ℕ → Bool
is_space c = c == 32 || (leb 9 c && leb c 13)

abbrev pub is_digit : ℕ → Bool
is_digit c = leb b'0' c && leb c b'9'

abbrev pub is_alpha : ℕ → Bool
is_alpha c = (leb b'a' c && leb c b'z') || (leb b'A' c && leb c b'Z')

abbrev pub skip_whitespaces : Bytes → Bytes
skip_whitespaces [] = []
skip_whitespaces (c ∷ p) = if is_space c then skip_whitespaces p else c ∷ p

-- The character at a pointer, which is 0 at the end of the text.
abbrev pub at : Bytes → ℕ
at [] = 0
at (c ∷ p) = c

abbrev pub is_one_of : ℕ → Bytes → Bool
is_one_of c [] = false
is_one_of c (a ∷ accept) = a == c || is_one_of c accept

-- The test of `nextTokenStart` and `nextTokenEnd`.
abbrev pub accepts : Bool → Bool → Bytes → ℕ → Bool
accepts alpha num accept c = (alpha && is_alpha c) || ((num && is_digit c) || is_one_of c accept)

-- `none` where the source returns nullptr. No class of characters has the NUL at the end.
abbrev pub next_token_start : Bool → Bool → Bytes → Bytes → Option Bytes
next_token_start alpha num accept p =
    let q = skip_whitespaces p in if accepts alpha num accept (at q) then some q else none

-- The token and what follows it: the source returns the pointer between them.
abbrev pub next_token_end : (ℕ → Bool) → Bytes → Bytes × Bytes
next_token_end accepted [] = ([], [])
next_token_end accepted (c ∷ p) =
    let (token, rest) = next_token_end accepted p in
    if accepted c then (c ∷ token, rest) else ([], c ∷ p)

abbrev pub next_char_ignore_whitespaces : Bytes → ℕ → Option Bytes
next_char_ignore_whitespaces p c = let q = skip_whitespaces p in if at q == c then some q else none

abbrev pub is_key : ℕ → Bool
is_key c = accepts true true (b'-' ∷ []) c

abbrev pub is_value : ℕ → Bool
is_value c = accepts true true (b'.' ∷ b':' ∷ b'*' ∷ b'[' ∷ b'-' ∷ b']' ∷ []) c

abbrev pub next_key_start : Bytes → Option Bytes
next_key_start p = next_token_start true false [] p

abbrev pub next_key_end : Bytes → Bytes × Bytes
next_key_end p = next_token_end is_key p

abbrev pub next_value_start : Bytes → Option Bytes
next_value_start p = next_token_start true true (b'"' ∷ b'*' ∷ b'<' ∷ []) p

abbrev pub next_value_end : Bytes → Bytes × Bytes
next_value_end p = next_token_end is_value p

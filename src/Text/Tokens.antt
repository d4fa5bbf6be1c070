-- ===== src/Text/Tokens.antt =====
-- White space and tokens of src/compiler/parsehelper.cpp in texts that are written in parts.
use tcppump.Common.{
  ℕ, ◌≤◌, ◌≡◌, refl, arith, Bool, true, false, [], ◌∷◌, ◌++◌, some, length, All, Bytes,
}
use tcppump.Text.{is_space, is_alpha, skip_whitespaces, next_token_end, next_key_start}

pub skip-le : (p : Bytes) → length (skip_whitespaces p) ≤ length p
skip-le [] = omega arith
skip-le (c ∷ p) = ground (arith, skip-le p)

pub token-le : (f : ℕ → Bool) (p : Bytes) → length (next_token_end f p).1 ≤ length p
token-le f [] = omega arith
token-le f (c ∷ p) = ground (arith, token-le f p)

pub skip_blank :
    (pre : Bytes) (p : Bytes)
    → All (λ c. is_space c ≡ true) pre
    → skip_whitespaces (pre ++ p) ≡ skip_whitespaces p
skip_blank [] p h = refl
skip_blank (c ∷ pre) p h = rw h.0 (skip_blank pre p h.1)

pub token_end :
    (f : ℕ → Bool) (t : Bytes) (c : ℕ) (p : Bytes)
    → All (λ d. f d ≡ true) t
    → f c ≡ false
    → next_token_end f (t ++ c ∷ p) ≡ (t, c ∷ p)
token_end f [] c p h k = rw k refl
token_end f (d ∷ t) c p h k = rw (h.0, token_end f t c p h.1 k) refl

pub key_start :
    (before : Bytes) (a : ℕ) (p : Bytes)
    → All (λ c. is_space c ≡ true) before
    → is_alpha a ≡ true
    → next_key_start (before ++ a ∷ p) ≡ some (a ∷ p)
key_start before a p h k = rw (skip_blank before (a ∷ p) h) (ground arith)

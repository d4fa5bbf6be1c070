-- ===== src/Script/Layout.antt =====
-- Scripts as they are written: instructions, comments, white space and blocks, and what is read of them.
use tcppump.Common.{
  ℕ, zero, suc, ◌+◌, ◌-◌, ◌≤◌, ◌<◌, ◌≡◌, refl, ap, subst, ◌∙◌, sym, arith, Bool, true, false, not,
  ◌||◌, List, [], ◌∷◌, ◌++◌, append_assoc, append-nil, ◌==◌, length, length-append, All, All-append,
  Bytes,
}
use tcppump.Text.{is_space}
use tcppump.Text.Tokens.{skip_blank}
use tcppump.Script.{
  FileParser, go_on, step, count_line, instruction, end_of_file, scan, ScriptResult, done, next,
  follow, script, script_file, opened,
}

pub data Item : Type 0 where
  inst comment space : Bytes → Item
  open_block close_block : Item

abbrev pub print_item : Item → Bytes → Bytes
print_item (inst text) file = text ++ b';' ∷ file
print_item (comment text) file = b'#' ∷ text ++ 10 ∷ file
print_item (space text) file = text ++ file
print_item open_block file = b'{' ∷ file
print_item close_block file = b'}' ∷ file

abbrev pub print : List Item → Bytes
print [] = []
print (i ∷ items) = print_item i (print items)

-- The texts of the instructions: each with the white space before it, in which a comment leaves its
-- line break. `blank` is that white space.
abbrev pub yields : Bytes → List Item → List Bytes
yields blank [] = []
yields blank (inst text ∷ items) = (blank ++ text) ∷ yields [] items
yields blank (comment text ∷ items) = yields (blank ++ 10 ∷ []) items
yields blank (space text ∷ items) = yields (blank ++ text) items
yields blank (open_block ∷ items) = yields [] items
yields blank (close_block ∷ items) = yields [] items

abbrev pub texts : List Bytes → ScriptResult
texts [] = done
texts (t ∷ ts) = next t (texts ts)

-- No character that ends an instruction, starts a comment or bounds a block.
abbrev pub is_plain : ℕ → Bool
is_plain c = not (c == b';' || (c == b'#' || (c == b'{' || c == b'}')))

abbrev pub IsWritten : Item → Type 0
IsWritten (inst text) = All (λ c. is_plain c ≡ true) text
IsWritten (comment text) = All (λ c. (c == 10) ≡ false) text
IsWritten (space text) = All (λ c. is_space c ≡ true) text
IsWritten open_block = Unit
IsWritten close_block = Unit

-- The blocks close as they open, `n` of them being open before.
abbrev pub IsBalanced : ℕ → List Item → Type 0
IsBalanced n [] = n ≡ 0
IsBalanced n (inst text ∷ items) = IsBalanced n items
IsBalanced n (comment text ∷ items) = IsBalanced n items
IsBalanced n (space text ∷ items) = IsBalanced n items
IsBalanced n (open_block ∷ items) = IsBalanced (n + 1) items
IsBalanced n (close_block ∷ items) = (0 < n) × IsBalanced (n - 1) items

abbrev walk : FileParser → Bytes → FileParser
walk s [] = s
walk s (c ∷ text) = walk (count_line s c) text

count_line-blocks :
    (s : FileParser) (c : ℕ) → (count_line s c).open_control_blocks ≡ s.open_control_blocks
count_line-blocks s c = ground arith

walk-blocks : (s : FileParser) (t : Bytes) → (walk s t).open_control_blocks ≡ s.open_control_blocks
walk-blocks s [] = refl
walk-blocks s (c ∷ t) = walk-blocks (count_line s c) t ∙ count_line-blocks s c

step_plain :
    (s : FileParser) (pre : Bytes) (c : ℕ)
    → is_plain c ≡ true
    → step s false pre c ≡ go_on (count_line s c) false (pre ++ c ∷ [])
unfolding step
step_plain s pre c h = ground arith

step_comment :
    (s : FileParser) (pre : Bytes) (c : ℕ)
    → (c == 10) ≡ false
    → step s true pre c ≡ go_on s true pre
unfolding step
step_comment s pre c h = ground arith

plain_of_space : (c : ℕ) → is_space c ≡ true → is_plain c ≡ true
plain_of_space c h = ground arith

plain_of_spaces : (t : Bytes) → All (λ c. is_space c ≡ true) t → All (λ c. is_plain c ≡ true) t
plain_of_spaces [] h = tt
plain_of_spaces (c ∷ t) h = (plain_of_space c h.0, plain_of_spaces t h.1)

scan-step :
    (s t : FileParser) (b still : Bool) (pre more : Bytes) (c : ℕ) (file : Bytes)
    → step s b pre c ≡ go_on t still more
    → scan s b pre (c ∷ file) ≡ scan t still more file
unfolding scan
scan-step s t b still pre more c file h = rw (scan, h) refl

scan_plain :
    (s : FileParser) (pre t file : Bytes)
    → All (λ c. is_plain c ≡ true) t
    → scan s false pre (t ++ file) ≡ scan (walk s t) false (pre ++ t) file
scan_plain s pre [] file h = ap (λ p. scan s false p file) (sym (append-nil pre))
scan_plain s pre (c ∷ t) file h =
    scan-step s (count_line s c) false false pre (pre ++ c ∷ []) c (t ++ file)
      (step_plain s pre c h.0)
    ∙ scan_plain (count_line s c) (pre ++ c ∷ []) t file h.1
    ∙ ap (λ p. scan (walk (count_line s c) t) false p file) (append_assoc pre (c ∷ []) t)

scan_comment :
    (s : FileParser) (pre t file : Bytes)
    → All (λ c. (c == 10) ≡ false) t
    → scan s true pre (t ++ file) ≡ scan s true pre file
scan_comment s pre [] file h = refl
scan_comment s pre (c ∷ t) file h =
    scan-step s s true true pre pre c (t ++ file) (step_comment s pre c h.0)
    ∙ scan_comment s pre t file h.1

step_close :
    (s : FileParser) (pre : Bytes)
    → All (λ c. is_space c ≡ true) pre
    → 0 < s.open_control_blocks
    → step s false pre b'}'
      ≡ go_on (record s { open_control_blocks = s.open_control_blocks - 1 }) false []
unfolding step
step_close s pre h k = rw (skip_blank pre (b'}' ∷ []) h) (ground arith)

step_open :
    (s : FileParser) (pre : Bytes)
    → step s false pre b'{'
      ≡ go_on (record s { open_control_blocks = s.open_control_blocks + 1 }) false []
unfolding step
step_open s pre = refl

step_hash : (s : FileParser) (pre : Bytes) → step s false pre b'#' ≡ go_on s true pre
unfolding step
step_hash s pre = refl

step_break :
    (s : FileParser) (pre : Bytes)
    → step s true pre 10 ≡ go_on (count_line s 10) false (pre ++ 10 ∷ [])
unfolding step
step_break s pre = refl

scan_inst :
    (s : FileParser) (pre file : Bytes) → scan s false pre (b';' ∷ file) ≡ instruction pre s file
unfolding scan step
scan_inst s pre file = refl

scan_nil :
    (s : FileParser) (b : Bool) (pre : Bytes)
    → s.open_control_blocks ≡ 0
    → scan s b pre [] ≡ end_of_file s
unfolding scan
scan_nil s b pre h = ground arith

-- What the calls of `parse` deliver from a state in which the white space `pre` has been read.
abbrev read_from : ℕ → FileParser → Bytes → Bytes → ScriptResult
read_from fuel s pre file = follow (script fuel) (scan s false pre file)

spaces-append :
    (pre t : Bytes)
    → All (λ c. is_space c ≡ true) pre
    → All (λ c. is_space c ≡ true) t
    → All (λ c. is_space c ≡ true) (pre ++ t)
spaces-append pre t h k = All-append (λ c. is_space c ≡ true) pre t h k

script-inst :
    (fuel : ℕ) (s : FileParser) (items : List Item)
    → length (print items) < fuel
    → ((n : ℕ)
        → length (print items) ≤ n
        → read_from n s [] (print items) ≡ texts (yields [] items))
    → script fuel s (print items) ≡ texts (yields [] items)
unfolding script
script-inst zero s items h ih = absurd (omega arith)
script-inst (suc n) s items h ih = ih n (omega arith)

-- A comment leaves its line break.
scan_note :
    (s : FileParser) (pre t file : Bytes)
    → All (λ c. (c == 10) ≡ false) t
    → scan s false pre (b'#' ∷ t ++ 10 ∷ file) ≡ scan (count_line s 10) false (pre ++ 10 ∷ []) file
scan_note s pre t file h =
    scan-step s s false true pre pre b'#' (t ++ 10 ∷ file) (step_hash s pre)
    ∙ scan_comment s pre t (10 ∷ file) h
    ∙ scan-step s (count_line s 10) true false pre (pre ++ 10 ∷ []) 10 file (step_break s pre)

read_from-print :
    (fuel : ℕ) (s : FileParser) (pre : Bytes) (items : List Item)
    → length (print items) ≤ fuel
    → All (λ c. is_space c ≡ true) pre
    → All IsWritten items
    → IsBalanced s.open_control_blocks items
    → read_from fuel s pre (print items) ≡ texts (yields pre items)
read_from-print fuel s pre [] len blank w b = ap (follow (script fuel)) (scan_nil s false pre b)
read_from-print fuel s pre (inst text ∷ items) len blank w b =
    ap (follow (script fuel)) (
      scan_plain s pre text (b';' ∷ print items) w.0
      ∙ scan_inst (walk s text) (pre ++ text) (print items))
    ∙ ap (next (pre ++ text)) (
        script-inst fuel (walk s text) items
          (omega (arith, len, length-append text (b';' ∷ print items)))
          (λ n k.
            read_from-print n (walk s text) [] items k tt w.1
              (subst (λ m. IsBalanced m items) (sym (walk-blocks s text)) b)))
read_from-print fuel s pre (comment text ∷ items) len blank w b =
    ap (follow (script fuel)) (scan_note s pre text (print items) w.0)
    ∙ read_from-print fuel (count_line s 10) (pre ++ 10 ∷ []) items
        (omega (arith, len, length-append text (10 ∷ print items)))
        (spaces-append pre (10 ∷ []) blank (refl, tt)) w.1 b
read_from-print fuel s pre (space text ∷ items) len blank w b =
    ap (follow (script fuel)) (scan_plain s pre text (print items) (plain_of_spaces text w.0))
    ∙ read_from-print fuel (walk s text) (pre ++ text) items
        (omega (arith, len, length-append text (print items))) (spaces-append pre text blank w.0)
        w.1 (subst (λ m. IsBalanced m items) (sym (walk-blocks s text)) b)
read_from-print fuel s pre (open_block ∷ items) len blank w b =
    ap (follow (script fuel)) (
      scan-step s (record s { open_control_blocks = s.open_control_blocks + 1 }) false false pre []
        b'{' (print items) (step_open s pre))
    ∙ read_from-print fuel (record s { open_control_blocks = s.open_control_blocks + 1 }) [] items
        (omega arith) tt w.1 b
read_from-print fuel s pre (close_block ∷ items) len blank w b =
    ap (follow (script fuel)) (
      scan-step s (record s { open_control_blocks = s.open_control_blocks - 1 }) false false pre []
        b'}' (print items) (step_close s pre blank b.0))
    ∙ read_from-print fuel (record s { open_control_blocks = s.open_control_blocks - 1 }) [] items
        (omega arith) tt w.1 b.1

-- A script that is written with instructions, comments, white space and blocks, the blocks closing as
-- they open, no instruction holding one of `;#{}` and no comment a line break, is read as its
-- instructions, in order and without an error. Each comes with the white space before it.
pub script_file-print :
    (items : List Item)
    → All IsWritten items
    → IsBalanced 0 items
    → script_file (print items) ≡ texts (yields [] items)
unfolding script_file script
script_file-print items w b =
    read_from-print (length (print items)) opened [] items (omega arith) tt w b

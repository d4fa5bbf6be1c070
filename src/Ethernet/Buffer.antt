-- ===== src/Ethernet/Buffer.antt =====
-- Writes and moves in a buffer that is given by its parts.
use tcppump.Common.{
  ℕ, zero, suc, ◌+◌, ◌≤◌, ◌≡◌, refl, ap, ◌∙◌, arith, [], ◌∷◌, ◌++◌, append_assoc, length, take,
  drop, length-append, length-take, take-append, drop-append, take-append-drop, Bytes, write, slice,
  slice-middle,
}

pub take-append_more :
    (pre rest : Bytes) (off j : ℕ)
    → off ≡ length pre + j
    → take off (pre ++ rest) ≡ pre ++ take j rest
take-append_more [] rest off j h = ap (λ n. take n rest) (omega arith)
take-append_more (x ∷ pre) rest zero j h = absurd (omega arith)
take-append_more (x ∷ pre) rest (suc off) j h =
    ap (λ t. x ∷ t) (take-append_more pre rest off j (omega arith))

pub drop-append_more :
    (pre rest : Bytes) (off j : ℕ) → off ≡ length pre + j → drop off (pre ++ rest) ≡ drop j rest
drop-append_more [] rest off j h = ap (λ n. drop n rest) (omega arith)
drop-append_more (x ∷ pre) rest zero j h = absurd (omega arith)
drop-append_more (x ∷ pre) rest (suc off) j h = drop-append_more pre rest off j (omega arith)

pub write-skip :
    (pre rest bytes : Bytes) (off j : ℕ)
    → off ≡ length pre + j
    → write (pre ++ rest) off bytes ≡ pre ++ write rest j bytes
unfolding write
write-skip pre rest bytes off j h =
    ap (λ t. t ++ (bytes ++ drop (off + length bytes) (pre ++ rest)))
      (take-append_more pre rest off j h)
    ∙ append_assoc pre (take j rest) _
    ∙ ap (λ t. pre ++ (take j rest ++ (bytes ++ t)))
        (drop-append_more pre rest (off + length bytes) (j + length bytes) (omega arith))

pub write-start : (rest bytes : Bytes) → write rest 0 bytes ≡ bytes ++ drop (length bytes) rest
unfolding write
write-start rest bytes = ap (λ n. bytes ++ drop n rest) (omega arith)

-- A write behind a part whose length is the offset.
pub write-behind :
    (pre rest bytes : Bytes) (off : ℕ)
    → off ≡ length pre
    → write (pre ++ rest) off bytes ≡ pre ++ (bytes ++ drop (length bytes) rest)
write-behind pre rest bytes off h =
    write-skip pre rest bytes off 0 (omega arith) ∙ ap (λ t. pre ++ t) (write-start rest bytes)

drop-write :
    (j : ℕ) (rest bytes : Bytes)
    → j ≤ length rest
    → drop j (write rest j bytes) ≡ bytes ++ drop (j + length bytes) rest
unfolding write
drop-write j rest bytes h =
    drop-append j (take j rest) (bytes ++ drop (j + length bytes) rest)
      (omega (arith, length-take j rest))

-- The middle part is moved up, and the new bytes take its place: they are inserted before it.
pub write-move :
    (pre mid slack ins : Bytes) (off up : ℕ)
    → off ≡ length pre
    → up ≡ off + length ins
    → length ins ≤ length slack
    → write (write (pre ++ (mid ++ slack)) up mid) off ins
      ≡ pre ++ (ins ++ (mid ++ drop (length ins) slack))
write-move pre mid slack ins off up h k room =
    ap (λ t. write t off ins) (write-skip pre (mid ++ slack) mid up (length ins) (omega arith))
    ∙ write-behind pre (write (mid ++ slack) (length ins) mid) ins off h
    ∙ ap (λ t. pre ++ (ins ++ t))
        (drop-write (length ins) (mid ++ slack) mid (omega (arith, length-append mid slack))
          ∙ ap (λ t. mid ++ t)
              (drop-append_more mid slack (length ins + length mid) (length ins) (omega arith)))

pub slice-front :
    (front rest : Bytes) (len : ℕ) → len ≡ length front → slice (front ++ rest) 0 len ≡ front
unfolding slice
slice-front front rest len h = take-append len front rest h

-- The same insertion where the middle part is read from the buffer itself.
pub write-insert :
    (mem pre mid slack ins : Bytes) (off up len : ℕ)
    → mem ≡ pre ++ (mid ++ slack)
    → off ≡ length pre
    → up ≡ off + length ins
    → len ≡ length mid
    → length ins ≤ length slack
    → write (write mem up (slice mem off len)) off ins
      ≡ pre ++ (ins ++ (mid ++ drop (length ins) slack))
write-insert mem pre mid slack ins off up len e h k m room =
    ap (λ t. write (write t up (slice t off len)) off ins) e
    ∙ ap (λ t. write (write (pre ++ (mid ++ slack)) up t) off ins)
        (slice-middle pre mid slack off len h m)
    ∙ write-move pre mid slack ins off up h k room

pub write-nil : (mem : Bytes) (off : ℕ) → write mem off [] ≡ mem
unfolding write
write-nil mem off = ap (λ n. take off mem ++ drop n mem) (omega arith) ∙ take-append-drop off mem

pub slice-empty : (mem : Bytes) (off : ℕ) → slice mem off 0 ≡ []
unfolding slice
slice-empty mem off = refl

take-append_left : (n : ℕ) (xs ys : Bytes) → n ≤ length xs → take n (xs ++ ys) ≡ take n xs
take-append_left zero xs ys h = refl
take-append_left (suc n) [] ys h = absurd (omega arith)
take-append_left (suc n) (x ∷ xs) ys h = ap (λ t. x ∷ t) (take-append_left n xs ys (omega arith))

drop-append_left : (n : ℕ) (xs ys : Bytes) → n ≤ length xs → drop n (xs ++ ys) ≡ drop n xs ++ ys
drop-append_left zero xs ys h = refl
drop-append_left (suc n) [] ys h = absurd (omega arith)
drop-append_left (suc n) (x ∷ xs) ys h = drop-append_left n xs ys (omega arith)

-- A write inside the first part leaves what follows it alone.
pub write-append_left :
    (xs ys bytes : Bytes) (off : ℕ)
    → off + length bytes ≤ length xs
    → write (xs ++ ys) off bytes ≡ write xs off bytes ++ ys
unfolding write
write-append_left xs ys bytes off h =
    ap (λ t. t ++ (bytes ++ drop (off + length bytes) (xs ++ ys)))
      (take-append_left off xs ys (omega arith))
    ∙ ap (λ t. take off xs ++ (bytes ++ t)) (drop-append_left (off + length bytes) xs ys h)
    ∙ simp append_assoc

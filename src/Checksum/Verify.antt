-- ===== src/Checksum/Verify.antt =====
-- What a sender and a receiver rely on: the regions of a call count as one, and data that carries
-- its checksum sums up to 0.
use tcppump.Common.{
  ℕ, ◌+◌, ◌%◌, ◌^◌, ◌≤◌, ◌<◌, ◌≡◌, refl, ap, ◌∙◌, sym, arith, [], ◌++◌, length, length-append, All,
  All-append, Bytes, IsByte, le16, Bool, Option, none, some, ok, ◌↔◌,
}
use tcppump.Checksum.{Region, rfc1071_finalize, calc_part, rfc1071, rfc1071_single, part_length}
use tcppump.Checksum.Sum.{word_sum, word_sum-append, word_sum-le, rfc1071_calc-word_sum}
use tcppump.Checksum.Complement.{finalize-complements, finalize_ones, finalize_zero}

-- The bytes behind a pointer that may be null.
abbrev pub part_bytes : Option Region → Bytes
part_bytes none = []
part_bytes (some p) = p.bytes

-- The longest data whose sum is certain to fit a uint32_t.
abbrev pub max_length : ℕ
max_length = 131072

pub calc_part-word_sum :
    (p : Option Region) (sum : ℕ)
    → All IsByte (part_bytes p)
    → sum < 2 ^ 32
    → calc_part p sum ≡ (sum + word_sum (part_bytes p)) % 2 ^ 32
unfolding calc_part
calc_part-word_sum none sum b h = omega arith
calc_part-word_sum (some p) sum b h = rfc1071_calc-word_sum p sum b h

part_length-bytes : (p : Option Region) → part_length p ≡ length (part_bytes p)
part_length-bytes none = refl
part_length-bytes (some p) = refl

-- The bytes of three regions, one behind the other.
abbrev pub joined : Option Region → Option Region → Option Region → Bytes
joined p p2 p3 = part_bytes p ++ (part_bytes p2 ++ part_bytes p3)

pub joined-sum :
    (p p2 p3 : Option Region)
    → length (part_bytes p) % 2 ≡ 0
    → length (part_bytes p2) % 2 ≡ 0
    → word_sum (joined p p2 p3)
      ≡ word_sum (part_bytes p) + word_sum (part_bytes p2) + word_sum (part_bytes p3)
joined-sum p p2 p3 e e2 = omega (
  arith,
  word_sum-append (part_bytes p) (part_bytes p2 ++ part_bytes p3) e,
  word_sum-append (part_bytes p2) (part_bytes p3) e2,
)

sum_fits : (p : Bytes) → All IsByte p → length p ≤ max_length → word_sum p < 2 ^ 32
sum_fits p b h = omega (arith, word_sum-le p b)

calc_part-lt :
    (p : Option Region) (sum : ℕ)
    → All IsByte (part_bytes p)
    → sum < 2 ^ 32
    → calc_part p sum < 2 ^ 32
calc_part-lt p sum b h = omega (arith, calc_part-word_sum p sum b h)

single_calc :
    (odd : Bool) (p : Bytes)
    → All IsByte p
    → length p ≤ max_length
    → calc_part none (calc_part none (calc_part (some (record { odd_address = odd; bytes = p })) 0))
      ≡ word_sum p
unfolding calc_part
single_calc odd p b h = omega (
  arith,
  sum_fits p b h,
  rfc1071_calc-word_sum (record { odd_address = odd; bytes = p }) 0 b (omega arith),
)

pub single_sum :
    (odd : Bool) (p : Bytes)
    → All IsByte p
    → length p ≤ max_length
    → rfc1071_single (record { odd_address = odd; bytes = p }) ≡ ok (rfc1071_finalize (word_sum p))
unfolding rfc1071_single rfc1071
single_sum odd p b h = ground (arith, ap (λ s. ok (rfc1071_finalize s)) (single_calc odd p b h))

module _ (p p2 p3 : Option Region) (even : length (part_bytes p) % 2 ≡ 0)
    (even2 : length (part_bytes p2) % 2 ≡ 0) (b : All IsByte (part_bytes p))
    (b2 : All IsByte (part_bytes p2)) (b3 : All IsByte (part_bytes p3))
    (short : length (joined p p2 p3) ≤ max_length) where
  pub joined-IsByte : All IsByte (joined p p2 p3)
  joined-IsByte = All-append IsByte (part_bytes p) _ b (All-append IsByte (part_bytes p2) _ b2 b3)

  joined-lt : word_sum (joined p p2 p3) < 2 ^ 32
  joined-lt = sum_fits (joined p p2 p3) joined-IsByte short

  calc_parts : calc_part p3 (calc_part p2 (calc_part p 0)) ≡ word_sum (joined p p2 p3)
  calc_parts =
      let one = calc_part-lt p 0 b (omega arith) in
      let two = calc_part-lt p2 (calc_part p 0) b2 one in
      omega (
        arith,
        joined-lt,
        joined-sum p p2 p3 even even2,
        calc_part-word_sum p 0 b (omega arith),
        calc_part-word_sum p2 (calc_part p 0) b2 one,
        calc_part-word_sum p3 (calc_part p2 (calc_part p 0)) b3 two,
      )

  pub rfc1071-word_sum : rfc1071 p p2 p3 ≡ ok (rfc1071_finalize (word_sum (joined p p2 p3)))
  unfolding rfc1071
  rfc1071-word_sum = ground (
    arith,
    ap (λ s. ok (rfc1071_finalize s)) calc_parts,
    part_length-bytes p,
    part_length-bytes p2,
  )

  -- A call on three regions gives the checksum of their bytes in one region, wherever the four
  -- regions lie in memory, if the first two have even lengths and all together have at most
  -- `max_length` bytes.
  pub rfc1071-joined :
      (odd : Bool)
      → rfc1071 p p2 p3 ≡ rfc1071_single (record { odd_address = odd; bytes = joined p p2 p3 })
  rfc1071-joined odd = rfc1071-word_sum ∙ sym (single_sum odd (joined p p2 p3) joined-IsByte short)

  -- The checksum is a uint16_t, it makes the sum of all words a multiple of 65535, and it is 0xffff
  -- exactly when that sum is 0, if the first two regions have even lengths and all together have at
  -- most `max_length` bytes.
  pub rfc1071-complements :
      {c : ℕ}
      → rfc1071 p p2 p3 ≡ ok c
      → (c < 65536)
        × ((c + word_sum (joined p p2 p3)) % 65535 ≡ 0)
        × ((c ≡ 65535) ↔ (word_sum (joined p p2 p3) ≡ 0))
  rfc1071-complements {c} e =
      let is : c ≡ rfc1071_finalize (word_sum (joined p p2 p3)) = cc (e, rfc1071-word_sum) in
      let (low, multiple) = finalize-complements _ joined-lt in
      rw is (low, multiple, finalize_ones _ joined-lt)

-- The sum of data with a word `c` between an even part and the rest.
pub sum_around :
    (before after : Bytes) (c : ℕ)
    → length before % 2 ≡ 0
    → c < 65536
    → word_sum (before ++ (le16 c ++ after)) ≡ word_sum before + c + word_sum after
sum_around before after c even h = omega (arith, word_sum-append before (le16 c ++ after) even)

-- A sum that is completed by its own checksum.
completed_sum : (s : ℕ) → s + 65535 < 2 ^ 32 → rfc1071_finalize (s + rfc1071_finalize s) ≡ 0
completed_sum s h =
    let (low, multiple) = finalize-complements s (omega arith) in
    let positive : 0 < s + rfc1071_finalize s = ground (arith, finalize_ones s (omega arith)) in
    (finalize_zero (s + rfc1071_finalize s) (omega arith)).1 (positive, omega arith)

pub length-around :
    (before after : Bytes) (c : ℕ)
    → length (before ++ (le16 c ++ after)) ≡ length before + 2 + length after
length-around before after c = omega (arith, length-append before (le16 c ++ after))

sum_with_field :
    (before after : Bytes)
    → All IsByte before
    → All IsByte after
    → length before + 2 + length after ≤ max_length
    → word_sum before + word_sum after + 65535 < 2 ^ 32
sum_with_field before after b a h = omega (arith, word_sum-le before b, word_sum-le after a)

-- Data with a zero checksum field at an even offset gets the checksum `c`. With `c` stored in the
-- field, as the assignment to a uint16_t stores it, the checksum over the data is 0, which is what a
-- receiver tests. The data has at most `max_length` bytes; where it lies in memory does not matter.
pub rfc1071_single_verifies :
    (odd odd' : Bool) (before after : Bytes) {c : ℕ}
    → length before % 2 ≡ 0
    → All IsByte before
    → All IsByte after
    → length before + 2 + length after ≤ max_length
    → rfc1071_single (record { odd_address = odd; bytes = before ++ (le16 0 ++ after) }) ≡ ok c
    → rfc1071_single (record { odd_address = odd'; bytes = before ++ (le16 c ++ after) }) ≡ ok 0
rfc1071_single_verifies odd odd' before after {c} even b a short e =
    let fits : length (before ++ (le16 0 ++ after)) ≤ max_length =
      omega (arith, length-around before after 0) in
    let zeros : All IsByte (before ++ (le16 0 ++ after)) =
      All-append IsByte before _ b (omega arith, (omega arith, a)) in
    let s : ℕ = word_sum before + word_sum after in
    let field : c ≡ rfc1071_finalize s = ground (
      arith,
      single_sum odd (before ++ (le16 0 ++ after)) zeros fits,
      sum_around before after 0 even,
    ) in
    let room = sum_with_field before after b a short in
    let low : c < 65536 = rw field (finalize-complements s (omega arith)).0 in
    single_sum odd' (before ++ (le16 c ++ after))
      (All-append IsByte before _ b (omega arith, (omega arith, a)))
      (omega (arith, length-around before after c))
    ∙ ap ok (
        ap rfc1071_finalize (sum_around before after c even low)
        ∙ ap rfc1071_finalize (rw field (omega arith))
        ∙ completed_sum s room)

-- ===== src/Checksum/Field.antt =====
-- A header with a checksum field, between a pseudo header and a payload: the field that the sender
-- computes is the one that a receiver accepts.
use tcppump.Common.{
  ℕ, ◌+◌, ◌%◌, ◌^◌, ◌≤◌, ◌<◌, ◌≡◌, ◌↔◌, refl, ap, ◌∙◌, arith, false, [], ok, ◌==◌, if◌then◌else◌,
  ◌++◌, length, length-append, All, All-append, Bytes, IsByte, le16, Option, some, ok,
}
use tcppump.Checksum.{Region, rfc1071, rfc1071_pair, rfc1071_finalize, calc_part, rfc1071_calc}
use tcppump.Checksum.Sum.{word_sum, word_sum-le}
use tcppump.Checksum.Complement.{finalize_zero}
use tcppump.Checksum.Verify.{
  part_bytes, max_length, joined, joined-sum, sum_around, length-around, rfc1071-word_sum,
  rfc1071-complements,
}

-- A pseudo header and a header lie at even addresses.
abbrev pub at_even : Bytes → Option Region
at_even bytes = some (record { odd_address = false; bytes = bytes })

-- The sum of all words but the field.
abbrev pub rest_sum : Bytes → Bytes → Bytes → Option Region → ℕ
rest_sum pseudo before after payload =
    word_sum pseudo + word_sum before + word_sum after + word_sum (part_bytes payload)

module _ (pseudo before after : Bytes) (payload : Option Region) (even : length pseudo % 2 ≡ 0)
    (even_before : length before % 2 ≡ 0) (even_after : length after % 2 ≡ 0)
    (b : All IsByte pseudo) (b_before : All IsByte before) (b_after : All IsByte after)
    (b_payload : All IsByte (part_bytes payload))
    (short : length pseudo + length before + 2 + length after + length (part_bytes payload)
      ≤ max_length) where
  even_header : (c : ℕ) → length (before ++ (le16 c ++ after)) % 2 ≡ 0
  even_header c = omega (arith, length-around before after c)

  IsByte-header : (c : ℕ) → All IsByte (before ++ (le16 c ++ after))
  IsByte-header c = All-append IsByte before _ b_before (omega arith, (omega arith, b_after))

  all_short :
      (c : ℕ)
      → length (joined (at_even pseudo) (at_even (before ++ (le16 c ++ after))) payload)
        ≤ max_length
  all_short c = omega (
    arith,
    length-append pseudo ((before ++ (le16 c ++ after)) ++ part_bytes payload),
    length-append (before ++ (le16 c ++ after)) (part_bytes payload),
    length-around before after c,
  )

  joined_sum :
      (c : ℕ)
      → c < 65536
      → word_sum (joined (at_even pseudo) (at_even (before ++ (le16 c ++ after))) payload)
        ≡ (rest_sum pseudo before after payload) + c
  joined_sum c small = omega (
    arith,
    joined-sum (at_even pseudo) (at_even (before ++ (le16 c ++ after))) payload even
        (even_header c),
    sum_around before after c even_before small,
  )

  rest_sum-lt : (rest_sum pseudo before after payload) + 65535 < 2 ^ 32
  rest_sum-lt = omega (
    arith,
    word_sum-le pseudo b,
    word_sum-le before b_before,
    word_sum-le after b_after,
    word_sum-le (part_bytes payload) b_payload,
  )

  -- What the sender computes over a zero in the field.
  pub field_value :
      {c : ℕ}
      → rfc1071 (at_even pseudo) (at_even (before ++ (le16 0 ++ after))) payload ≡ ok c
      → (c < 65536)
        × ((c + (rest_sum pseudo before after payload)) % 65535 ≡ 0)
        × ((c ≡ 65535) ↔ ((rest_sum pseudo before after payload) ≡ 0))
  field_value {c} e =
      let (low, multiple, ones) =
        rfc1071-complements (at_even pseudo) (at_even (before ++ (le16 0 ++ after))) payload even
          (even_header 0) b (IsByte-header 0) b_payload (all_short 0) e in
      let sum = joined_sum 0 (omega arith) in
      (low, omega (arith, multiple, sum), ground (arith, ones, sum))

  -- A field that completes the sum is accepted.
  pub field_accepted :
      (c : ℕ)
      → c < 65536
      → (c + (rest_sum pseudo before after payload)) % 65535 ≡ 0
      → 0 < c + (rest_sum pseudo before after payload)
      → rfc1071 (at_even pseudo) (at_even (before ++ (le16 c ++ after))) payload ≡ ok 0
  field_accepted c low multiple positive =
      rfc1071-word_sum (at_even pseudo) (at_even (before ++ (le16 c ++ after))) payload even
        (even_header c) b (IsByte-header c) b_payload (all_short c)
      ∙ ap (λ s. ok (rfc1071_finalize s)) (joined_sum c low)
      ∙ ap ok (
          (finalize_zero ((rest_sum pseudo before after payload) + c)
              (omega (arith, rest_sum-lt))).1
            (omega (arith, positive), omega (arith, multiple)))

  -- What the sender computes over a zero in the field, as a number.
  pub field_computed :
      rfc1071 (at_even pseudo) (at_even (before ++ (le16 0 ++ after))) payload
      ≡ ok (rfc1071_finalize (rest_sum pseudo before after payload))
  field_computed =
      rfc1071-word_sum (at_even pseudo) (at_even (before ++ (le16 0 ++ after))) payload even
        (even_header 0) b (IsByte-header 0) b_payload (all_short 0)
      ∙ ap (λ s. ok (rfc1071_finalize s)) (joined_sum 0 (omega arith) ∙ omega arith)

  -- A field of zero is replaced by 0xffff, which a receiver accepts just as well.
  pub field_replaced :
      let r = rfc1071_finalize (rest_sum pseudo before after payload) in
      let c = if r == 0 then 0xffff else r in
      (0 < c)
      × (c < 65536)
      × (rfc1071 (at_even pseudo) (at_even (before ++ (le16 c ++ after))) payload ≡ ok 0)
  field_replaced =
      let (low, multiple, ones) = field_value field_computed in
      let r = rfc1071_finalize (rest_sum pseudo before after payload) in
      let c = if r == 0 then 0xffff else r in
      let positive : 0 < c = ground arith in
      let small : c < 65536 = ground (arith, low) in
      (positive, small, field_accepted c small (ground (arith, multiple)) (omega (arith, positive)))

  -- What the sender computes over a zero in the field is accepted as it is.
  pub computed_accepted :
      (c : ℕ) × (rfc1071 (at_even pseudo) (at_even (before ++ (le16 0 ++ after))) payload ≡ ok c)
      × (rfc1071 (at_even pseudo) (at_even (before ++ (le16 c ++ after))) payload ≡ ok 0)
  computed_accepted =
      let (low, multiple, ones) = field_value field_computed in
      let c = rfc1071_finalize (rest_sum pseudo before after payload) in
      (c, field_computed, field_accepted c low multiple (ground (arith, ones)))

-- A header with a checksum of its own, without a pseudo header.
module _ (before after : Bytes) (payload : Option Region) (even_before : length before % 2 ≡ 0)
    (even_after : length after % 2 ≡ 0) (b_before : All IsByte before) (b_after : All IsByte after)
    (b_payload : All IsByte (part_bytes payload))
    (short : length before + 2 + length after + length (part_bytes payload) ≤ max_length) where
  header_even : (c : ℕ) → length (before ++ (le16 c ++ after)) % 2 ≡ 0
  header_even c = omega (arith, length-around before after c)

  -- A call on header and payload counts as one on an empty pseudo header before them.
  pair_as_three :
      (c : ℕ)
      → rfc1071_pair (record { odd_address = false; bytes = before ++ (le16 c ++ after) }) payload
        ≡ rfc1071 (at_even []) (at_even (before ++ (le16 c ++ after))) payload
  unfolding rfc1071_pair rfc1071 calc_part rfc1071_calc
  pair_as_three c = ground (arith, header_even c)

  -- The header that a sender completes over a zero in its field is accepted.
  pub pair_accepted :
      (c : ℕ) × (rfc1071_pair
          (record { odd_address = false; bytes = before ++ (le16 0 ++ after) })
          payload
        ≡ ok c)
      × (rfc1071_pair (record { odd_address = false; bytes = before ++ (le16 c ++ after) }) payload
          ≡ ok 0)
  pair_accepted =
      let (c, computed, accepted) =
        computed_accepted [] before after payload refl even_before even_after tt b_before b_after
          b_payload (omega (arith, short)) in
      (c, pair_as_three 0 ∙ computed, pair_as_three c ∙ accepted)

-- ===== src/Tests/Checksums.antt =====
-- The Internet checksum (src/packets/inetchecksum.hpp, src/packets/inetchecksum.cpp) on concrete data.
use tcppump.Common.{
  ℕ, ◌+◌, ◌%◌, ◌<◌, ◌≡◌, refl, arith, true, false, [], ◌∷◌, ◌++◌, Bytes, none, some, ok, err, bug,
  le16, ◌↔◌,
}
use tcppump.Checksum.{
  Region, calc_bytewise, calc_wordwise, rfc1071, rfc1071_single, rfc1071_pair, calc_part,
  rfc1071_calc, rfc1071_finalize,
}
use tcppump.Checksum.Sum.{word_sum}
use tcppump.Checksum.Verify.{joined, rfc1071-joined, rfc1071-complements, rfc1071_single_verifies}

abbrev head : Bytes
head = 0x45 ∷ 0 ∷ 0 ∷ 0x1c ∷ []

abbrev tail : Bytes
tail = 1 ∷ 2 ∷ 255 ∷ []

abbrev at_even : Bytes → Region
at_even bytes = record { odd_address = false; bytes = bytes }

head_sum : rfc1071_single (at_even head) ≡ ok 0xe3ba
unfolding rfc1071_single rfc1071 calc_part rfc1071_calc calc_bytewise calc_wordwise rfc1071_finalize
head_sum = refl

-- An odd first region is refused where a second one follows it.
odd_pair : rfc1071_pair (at_even tail) (some (at_even head)) ≡ err bug
unfolding rfc1071_pair
odd_pair = refl

rfc1071-joined_example :
    rfc1071 (some (at_even head)) none (some (at_even tail))
    ≡ rfc1071_single (record {
      odd_address = true;
      bytes = joined (some (at_even head)) none (some (at_even tail));
    })
rfc1071-joined_example =
    rfc1071-joined (some (at_even head)) none (some (at_even tail)) refl refl (omega arith) tt
      (omega arith) (omega arith) true

rfc1071-complements_example :
    let c : ℕ = 0xe3ba in
    (c < 65536)
    × ((c + word_sum (joined (some (at_even head)) none none)) % 65535 ≡ 0)
    × ((c ≡ 65535) ↔ (word_sum (joined (some (at_even head)) none none) ≡ 0))
unfolding rfc1071 calc_part rfc1071_calc calc_bytewise calc_wordwise rfc1071_finalize
rfc1071-complements_example =
    rfc1071-complements (some (at_even head)) none none refl refl (omega arith) tt tt (omega arith)
      refl

rfc1071_single_verifies_example :
    rfc1071_single (record { odd_address = true; bytes = head ++ (le16 0xe3ba ++ []) }) ≡ ok 0
unfolding rfc1071_single rfc1071 calc_part rfc1071_calc calc_bytewise calc_wordwise rfc1071_finalize
rfc1071_single_verifies_example =
    rfc1071_single_verifies false true head [] refl (omega arith) tt (omega arith) refl

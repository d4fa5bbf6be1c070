-- ===== src/Checksum.antt =====
-- The Internet checksum of src/packets/inetchecksum.hpp and src/packets/inetchecksum.cpp (RFC 1071).
-- The host is little-endian (HAVE_BIG_ENDIAN is not defined); uint32_t sums wrap at 2^32.
pub mod Sum
pub mod Complement
pub mod Verify
pub mod Field
use tcppump.Common.{
  ℕ, zero, suc, ◌+◌, ◌-◌, ◌*◌, ◌/◌, ◌%◌, ◌^◌, bit_and, bit_or, Bool, true, false, ◌&&◌, Option,
  none, some, List, [], ◌∷◌, ltb, ◌==◌, if◌then◌else◌, length, Bytes, Result, ok, err, bug,
}

-- What a pointer and a length name: the bytes, and whether the address is odd.
pub record Region : Type 0 where
  pub odd_address : Bool
  pub bytes : Bytes

-- The loop of the branch for an odd address: each word is put together from two bytes.
unfoldable pub calc_bytewise : Bytes → ℕ → ℕ
calc_bytewise [] sum = sum
calc_bytewise (a ∷ []) sum = (sum + a) % 2 ^ 32
calc_bytewise (a ∷ b ∷ rest) sum = calc_bytewise rest ((sum + bit_or a (b * 2 ^ 8)) % 2 ^ 32)

-- The loop of the branch for an even address: each word is loaded as a uint16_t.
unfoldable pub calc_wordwise : Bytes → ℕ → ℕ
calc_wordwise [] sum = sum
calc_wordwise (a ∷ []) sum = (sum + a) % 2 ^ 32
calc_wordwise (a ∷ b ∷ rest) sum = calc_wordwise rest ((sum + (a + b * 256)) % 2 ^ 32)

unfoldable pub rfc1071_calc : Region → ℕ → ℕ
unfolding calc_bytewise calc_wordwise
rfc1071_calc p sum =
    if length p.bytes == 0
    then sum
    else if p.odd_address
    then calc_bytewise p.bytes sum
    else calc_wordwise p.bytes sum

unfoldable pub rfc1071_finalize : ℕ → ℕ
rfc1071_finalize sum =
    let once = (bit_and sum 0xffff + sum / 2 ^ 16) % 2 ^ 32 in
    let again = (bit_and once 0xffff + once / 2 ^ 16) % 2 ^ 32 in (2 ^ 32 - 1 - again) % 2 ^ 16

-- `if (p) sum = rfc1071_calc (p, len, sum);`
unfoldable pub calc_part : Option Region → ℕ → ℕ
unfolding rfc1071_calc
calc_part none sum = sum
calc_part (some p) sum = rfc1071_calc p sum

abbrev pub part_length : Option Region → ℕ
part_length none = 0
part_length (some p) = length p.bytes

-- The overload with three regions, which the others call.
unfoldable pub rfc1071 : Option Region → Option Region → Option Region → Result ℕ
rfc1071 p p2 p3 =
    if ltb 0 (part_length p3) && part_length p % 2 == 1 && part_length p2 % 2 == 1
    then err bug
    else ok (rfc1071_finalize (calc_part p3 (calc_part p2 (calc_part p 0))))

unfoldable pub rfc1071_single : Region → Result ℕ
rfc1071_single p = rfc1071 (some p) none none

unfoldable pub rfc1071_pair : Region → Option Region → Result ℕ
rfc1071_pair p p2 = if length p.bytes % 2 == 1 then err bug else rfc1071 (some p) p2 none

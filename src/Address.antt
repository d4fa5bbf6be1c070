-- ===== src/Address.antt =====
-- src/common/macaddress.hpp and src/common/ipaddress.hpp: addresses as they are read from a text, with
-- the numbers of src/compiler/parsehelper.hpp. `random n` is what the n-th call of the random generator
-- gives; each function hands on the number of calls.
pub mod Sizes
pub mod Written
pub mod Random
use tcppump.Common.{
  ℕ, ◌+◌, ◌-◌, ◌*◌, ◌/◌, ◌%◌, ◌^◌, Bool, true, false, ◌&&◌, ◌||◌, not, List, [], ◌∷◌, ◌++◌, Option,
  none, some, ltb, leb, ◌==◌, if◌then◌else◌, length, Bytes, be32, le32, Result, err, ok, bug,
}
use tcppump.Params.Values.{hex_char_to_int, range, rand}

abbrev pub dec_char_to_int : ℕ → Option ℕ
dec_char_to_int c = if leb b'0' c && leb c b'9' then some (c - b'0') else none

-- A digit behind those in front of it.
abbrev pub append_digit : ℕ → Option ℕ → Option ℕ → Option ℕ
append_digit base (some high) (some low) = some (high * base + low)
append_digit base _ _ = none

abbrev pub at_most_255 : Option ℕ → Option ℕ
at_most_255 none = none
at_most_255 (some n) = if ltb 255 n then none else some n

-- `strToUint8` with the base 16 and with the base 10; `none` is an exception.
unfoldable pub hex_to_uint8 : Bytes → Option ℕ
hex_to_uint8 (a ∷ []) = hex_char_to_int a
hex_to_uint8 (a ∷ b ∷ []) = append_digit 16 (hex_char_to_int a) (hex_char_to_int b)
hex_to_uint8 _ = none

unfoldable pub dec_to_uint8 : Bytes → Option ℕ
dec_to_uint8 (a ∷ []) = at_most_255 (dec_char_to_int a)
dec_to_uint8 (a ∷ b ∷ []) = at_most_255 (append_digit 10 (dec_char_to_int a) (dec_char_to_int b))
dec_to_uint8 (a ∷ b ∷ c ∷ []) =
    at_most_255 (
      append_digit 10 (append_digit 10 (dec_char_to_int a) (dec_char_to_int b)) (dec_char_to_int c))
dec_to_uint8 _ = none

-- `rand8 (min, max)`, `rand8 ()` and `rand32 ()`.
abbrev pub rand8_between : ℕ → ℕ → ℕ → ℕ
rand8_between r min max = rand r min max % 2 ^ 8

abbrev pub rand8 : ℕ → ℕ
rand8 r = rand8_between r 0 0xff

abbrev pub rand32 : ℕ → ℕ
rand32 r = rand r 0 0xffffffff % 2 ^ 32

-- What is in front of the first token.
abbrev pub put : ℕ → List Bytes → List Bytes
put c [] = (c ∷ []) ∷ []
put c (t ∷ ts) = (c ∷ t) ∷ ts

abbrev pub split : ℕ → Bytes → List Bytes
split separator [] = [] ∷ []
split separator (c ∷ p) =
    let rest = split separator p in if c == separator then [] ∷ rest else put c rest

-- The tokens of a text. Its first character does not separate.
abbrev pub tokens : ℕ → Bytes → List Bytes
tokens separator [] = [] ∷ []
tokens separator (c ∷ p) = put c (split separator p)

abbrev pub drawn_field : ℕ → Option (ℕ × ℕ) → Option ℕ
drawn_field r none = none
drawn_field r (some (min, max)) =
    if ltb 255 min || ltb 255 max then none else some (rand8_between r min max)

-- A byte of the address from its token: a number, `*`, or `*` with a range.
abbrev pub field : (Bytes → Option ℕ) → ℕ → ℕ → Bytes → Option ℕ
field to_uint8 base r [] = none
field to_uint8 base r (c ∷ t) =
    if c == b'*'
    then (if length t == 0 then some (rand8 r) else drawn_field r (range base t))
    else to_uint8 (c ∷ t)

-- Only a token with `*` takes a number of the generator.
abbrev pub calls : Bytes → ℕ
calls [] = 0
calls (c ∷ t) = if c == b'*' then 1 else 0

abbrev pub field_then : Option ℕ → Option (Bytes × ℕ) → Option (Bytes × ℕ)
field_then (some b) (some (bytes, k)) = some (b ∷ bytes, k)
field_then _ _ = none

-- The loop over the tokens.
abbrev pub fields : (Bytes → Option ℕ) → ℕ → (ℕ → ℕ) → ℕ → List Bytes → Option (Bytes × ℕ)
fields to_uint8 base random k [] = some ([], k)
fields to_uint8 base random k (t ∷ ts) =
    field_then (field to_uint8 base (random k) t) (fields to_uint8 base random (k + calls t) ts)

abbrev pub is_star : Bytes → Bool
is_star [] = false
is_star (c ∷ p) = c == b'*' && length p == 0

-- The lowest bit of the first byte says whether a MAC address is one of a group.
abbrev pub adjusted : Bool → Bool → ℕ → ℕ
adjusted unicast multicast b =
    if unicast && not multicast
    then b / 2 * 2
    else if not unicast && multicast
    then b / 2 * 2 + 1
    else b

abbrev pub random_mac : Bool → Bool → (ℕ → ℕ) → ℕ → Bytes
random_mac unicast multicast random k =
    adjusted unicast multicast (rand8 (random k))
    ∷ rand8 (random (k + 1))
    ∷ rand8 (random (k + 2))
    ∷ rand8 (random (k + 3))
    ∷ rand8 (random (k + 4))
    ∷ rand8 (random (k + 5))
    ∷ []

-- `cMacAddress::setRandom`; a MAC address has to be one of either kind.
unfoldable pub set_random_mac : Bool → Bool → (ℕ → ℕ) → ℕ → Result (Bytes × ℕ)
set_random_mac unicast multicast random k =
    if not unicast && not multicast
    then err bug
    else ok (random_mac unicast multicast random k, k + 6)

-- `cMacAddress::set`.
unfoldable pub set_mac : (ℕ → ℕ) → ℕ → Bytes → Option (Bytes × ℕ)
set_mac random k s =
    if is_star s
    then some (random_mac true false random k, k + 6)
    else if ltb (length s) 11
    then none
    else if not (length (tokens b':' s) == 6)
    then none
    else fields hex_to_uint8 16 random k (tokens b':' s)

-- `cIPv4::setRandom`: an address of a group becomes another one.
unfoldable pub random_ipv4 : ℕ → Bytes
random_ipv4 r = let ip = rand32 r in be32 (if ip / 2 ^ 28 == 14 then ip % 2 ^ 31 else ip)

-- `cIPv4::set`.
unfoldable pub set_ipv4 : (ℕ → ℕ) → ℕ → Bytes → Option (Bytes × ℕ)
set_ipv4 random k s =
    if is_star s
    then some (random_ipv4 (random k), k + 1)
    else if ltb (length s) 7
    then none
    else if not (length (tokens b'.' s) == 4)
    then none
    else fields dec_to_uint8 10 random k (tokens b'.' s)

abbrev pub unicast_ipv6 : Bytes → Bytes
unicast_ipv6 [] = []
unicast_ipv6 (a ∷ ip) = (if a == 0xff then 0x3f else a) ∷ ip

-- `cIPv6::setRandom`, with four numbers of 32 bits.
unfoldable pub random_ipv6 : (ℕ → ℕ) → ℕ → Bytes
random_ipv6 random k = unicast_ipv6 (
    le32 (rand32 (random k))
    ++ (le32 (rand32 (random (k + 1)))
        ++ (le32 (rand32 (random (k + 2))) ++ le32 (rand32 (random (k + 3))))))

-- `cIPv6::set`. `inet_pton` is the function of the system for AF_INET6.
unfoldable pub set_ipv6 : (Bytes → Option Bytes) → Bytes → Option Bytes
set_ipv6 inet_pton s = if ltb 46 (length s + 1) then none else inet_pton s

-- `cIPv6::isMulticast`.
abbrev pub is_multicast_ipv6 : Bytes → Bool
is_multicast_ipv6 [] = false
is_multicast_ipv6 (a ∷ ip) = a == 0xff

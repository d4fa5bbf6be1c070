-- ===== src/Transport/GreReader.antt =====
-- A host that reads GRE headers (RFC 2784, RFC 2890), as the specification of Transport.Gre: the
-- flags tell it which optional words follow.
use tcppump.Common.{
  ℕ, ◌+◌, ◌*◌, ◌/◌, ◌%◌, ◌^◌, ◌<◌, ◌≡◌, refl, ap, ◌∙◌, arith, bit_or, Bool, true, false, List, [],
  ◌∷◌, ◌++◌, Option, none, some, ◌==◌, if◌then◌else◌, Bytes, from_be16, be16, be32,
}
use tcppump.Transport.Gre.{
  GrePacket, new_packet, set_protocol_type, set_key, set_sequence, set_checksum, options,
  header_with,
}

-- The calls that build a packet.
pub data Setting : Type 0 where
  with_protocol_type with_key with_sequence with_checksum : ℕ → Setting

abbrev pub apply : GrePacket → Setting → GrePacket
apply g (with_protocol_type n) = set_protocol_type g n
apply g (with_key n) = set_key g n
apply g (with_sequence n) = set_sequence g n
apply g (with_checksum n) = set_checksum g n

abbrev pub apply_all : GrePacket → List Setting → GrePacket
apply_all g [] = g
apply_all g (s ∷ ss) = apply_all (apply g s) ss

-- The flags of the words that are there.
abbrev pub flags_of : Bool → Bool → Bool → ℕ
flags_of c k s = (if c then 0x80 else 0) + (if k then 0x20 else 0) + (if s then 0x10 else 0)

abbrev pub IsFlagged : GrePacket → Type 0
IsFlagged g = g.flags ≡ flags_of g.has_checksum g.has_key g.has_seq

or_checksum : (c k s : Bool) → bit_or (flags_of c k s) 0x80 ≡ flags_of true k s
or_checksum true true true = refl
or_checksum true true false = refl
or_checksum true false true = refl
or_checksum true false false = refl
or_checksum false true true = refl
or_checksum false true false = refl
or_checksum false false true = refl
or_checksum false false false = refl

or_key : (c k s : Bool) → bit_or (flags_of c k s) 0x20 ≡ flags_of c true s
or_key true true true = refl
or_key true true false = refl
or_key true false true = refl
or_key true false false = refl
or_key false true true = refl
or_key false true false = refl
or_key false false true = refl
or_key false false false = refl

or_seq : (c k s : Bool) → bit_or (flags_of c k s) 0x10 ≡ flags_of c k true
or_seq true true true = refl
or_seq true true false = refl
or_seq true false true = refl
or_seq true false false = refl
or_seq false true true = refl
or_seq false true false = refl
or_seq false false true = refl
or_seq false false false = refl

apply-IsFlagged : (g : GrePacket) (s : Setting) → IsFlagged g → IsFlagged (apply g s)
unfolding set_key set_sequence set_checksum
apply-IsFlagged g (with_protocol_type n) h = h
apply-IsFlagged g (with_key n) h =
    ap (λ f. bit_or f 0x20) h ∙ or_key g.has_checksum g.has_key g.has_seq
apply-IsFlagged g (with_sequence n) h =
    ap (λ f. bit_or f 0x10) h ∙ or_seq g.has_checksum g.has_key g.has_seq
apply-IsFlagged g (with_checksum n) h =
    ap (λ f. bit_or f 0x80) h ∙ or_checksum g.has_checksum g.has_key g.has_seq

apply_all-IsFlagged : (g : GrePacket) (ss : List Setting) → IsFlagged g → IsFlagged (apply_all g ss)
apply_all-IsFlagged g [] h = h
apply_all-IsFlagged g (s ∷ ss) h = apply_all-IsFlagged (apply g s) ss (apply-IsFlagged g s h)

-- Whatever calls build a packet, in any order and number, its flags name exactly the optional words
-- that it has.
pub new_packet-IsFlagged : (ss : List Setting) → IsFlagged (apply_all new_packet ss)
new_packet-IsFlagged ss = apply_all-IsFlagged new_packet ss refl

pub record GreFields : Type 0 where
  pub protocol : ℕ
  pub checksum_word : Option ℕ
  pub key_word : Option ℕ
  pub seq_word : Option ℕ
  pub content : Bytes

abbrev pub word_value : ℕ → ℕ → ℕ → ℕ → ℕ
word_value a b c d = a * 2 ^ 24 + b * 2 ^ 16 + c * 2 ^ 8 + d

-- A word of four bytes is read where its flag is set; `follow` reads what comes behind it.
abbrev pub read_word : Bool → Bytes → (Option ℕ → Bytes → Option GreFields) → Option GreFields
read_word false bytes follow = follow none bytes
read_word true (a ∷ b ∷ c ∷ d ∷ rest) follow = follow (some (word_value a b c d)) rest
read_word true _ follow = none

-- The checksum is in the upper half of its word.
abbrev pub read_gre : Bytes → Option GreFields
read_gre (flags ∷ version ∷ p1 ∷ p0 ∷ rest) = read_word (flags / 128 % 2 == 1) rest (λ c r.
    read_word (flags / 32 % 2 == 1) r (λ k r. read_word (flags / 16 % 2 == 1) r (λ s r.
      some (record {
        protocol = from_be16 p1 p0;
        checksum_word = c;
        key_word = k;
        seq_word = s;
        content = r;
      }))))
read_gre _ = none

-- `header_with` of separate fields.
header_of : Bool → Bool → Bool → ℕ → ℕ → ℕ → ℕ → Bytes
header_of c k s protocol checksum key seq =
    flags_of c k s ∷ 0 ∷ be16 protocol
    ++ ((if c then be16 checksum ++ (0 ∷ 0 ∷ []) else [])
        ++ ((if k then be32 key else []) ++ (if s then be32 seq else [])))

read_header_of :
    (c k s : Bool) (protocol checksum key seq : ℕ) (payload : Bytes)
    → protocol < 65536
    → checksum < 65536
    → key < 2 ^ 32
    → seq < 2 ^ 32
    → read_gre (header_of c k s protocol checksum key seq ++ payload)
      ≡ some (record {
        protocol = protocol;
        checksum_word = if c then some (checksum * 65536) else none;
        key_word = if k then some key else none;
        seq_word = if s then some seq else none;
        content = payload;
      })
unfolding header_of
read_header_of true true true p c k s payload hp hc hk hs = ground arith
read_header_of true true false p c k s payload hp hc hk hs = ground arith
read_header_of true false true p c k s payload hp hc hk hs = ground arith
read_header_of true false false p c k s payload hp hc hk hs = ground arith
read_header_of false true true p c k s payload hp hc hk hs = ground arith
read_header_of false true false p c k s payload hp hc hk hs = ground arith
read_header_of false false true p c k s payload hp hc hk hs = ground arith
read_header_of false false false p c k s payload hp hc hk hs = ground arith

-- A receiver reads back what the header of a packet was built from, and finds the payload behind it:
-- for flags that name the words that are there, and for values that fit their fields.
pub read_gre-header :
    (g : GrePacket) (payload : Bytes)
    → IsFlagged g
    → g.protocol < 65536
    → g.checksum < 65536
    → g.key < 2 ^ 32
    → g.seq < 2 ^ 32
    → read_gre (header_with g (be16 g.checksum) ++ payload)
      ≡ some (record {
        protocol = g.protocol;
        checksum_word = if g.has_checksum then some (g.checksum * 65536) else none;
        key_word = if g.has_key then some g.key else none;
        seq_word = if g.has_seq then some g.seq else none;
        content = payload;
      })
unfolding header_of
read_gre-header g payload h hp hc hk hs =
    ap
      (λ f. read_gre (
        (f ∷ 0 ∷ be16 g.protocol
          ++ ((if g.has_checksum then be16 g.checksum ++ (0 ∷ 0 ∷ []) else []) ++ options g))
        ++ payload))
      h
    ∙ read_header_of g.has_checksum g.has_key g.has_seq g.protocol g.checksum g.key g.seq payload hp
        hc hk hs

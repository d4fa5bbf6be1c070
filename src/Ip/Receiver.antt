-- ===== src/Ip/Receiver.antt =====
-- What a host that receives IPv4 packets does with them (RFC 791): it reads the header's fields and
-- joins fragments that come in order. This is the specification of the sender in `Fragments`.
use tcppump.Common.{
  ℕ, ◌+◌, ◌*◌, ◌/◌, ◌%◌, Bool, ◌&&◌, List, [], ◌∷◌, ◌++◌, Option, none, some, ◌==◌, if◌then◌else◌,
  length, drop, Bytes, from_be16,
}

pub record HeaderFields : Type 0 where
  pub version : ℕ
  pub header_length : ℕ
  pub total_length : ℕ
  pub identification : ℕ
  pub dont_fragment : Bool
  pub more_fragments : Bool
  pub offset : ℕ

abbrev pub read_header : Bytes → Option HeaderFields
read_header (v ∷ t ∷ l1 ∷ l0 ∷ i1 ∷ i0 ∷ f1 ∷ f0 ∷ rest) = some (record {
  version = v / 16;
  header_length = v % 16 * 4;
  total_length = from_be16 l1 l0;
  identification = from_be16 i1 i0;
  dont_fragment = f1 / 64 % 2 == 1;
  more_fragments = f1 / 32 % 2 == 1;
  offset = from_be16 (f1 % 32) f0 * 8;
})
read_header _ = none

abbrev pub prepend : Bytes → Option Bytes → Option Bytes
prepend part none = none
prepend part (some rest) = some (part ++ rest)

-- The last fragment ends the datagram, and no packet follows it.
abbrev pub finish : Bytes → List Bytes → Option Bytes
finish part [] = some part
finish part (p ∷ ps) = none

-- One packet, whose data `part` must start at `at`; `later` joins the packets that follow.
abbrev pub accept : Option HeaderFields → Bytes → List Bytes → ℕ → (ℕ → Option Bytes) → Option Bytes
accept none p ps at later = none
accept (some f) p ps at later =
    let part = drop f.header_length p in
    if f.offset == at && f.total_length == length p
    then (if f.more_fragments then prepend part (later (at + length part)) else finish part ps)
    else none

-- The fragments must follow each other without a gap, their lengths must be right, and exactly the
-- last one must lack the flag for more fragments.
unfoldable pub reassemble : List Bytes → ℕ → Option Bytes
reassemble [] at = none
reassemble (p ∷ ps) at = accept (read_header p) p ps at (reassemble ps)

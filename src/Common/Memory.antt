-- ===== src/Common/Memory.antt =====
-- Memory as lists of bytes: the byte orders of src/common/inet.h on a little-endian host, and writes
-- into a buffer (memcpy).
use Prim.Native.Nat.{ℕ, ◌+◌, ◌*◌, ◌/◌, ◌%◌, ◌^◌, ◌≤◌, ◌<◌}
use mathlib.Core.Path.{◌≡◌, ap, sym, ◌∙◌}
use mathlib.Core.List.{List, [], ◌∷◌, ◌++◌, append_assoc}
use native.Mathlib.Omega.{arith}
use tcppump.Common.Lists.{
  length, take, drop, length-append, length-take, length-drop, take-append, drop-append,
}

abbrev pub Bytes : Type 0
Bytes = List ℕ

abbrev pub IsByte : ℕ → Type 0
IsByte b = b < 256

-- The two bytes that `field = htons (x)` leaves in memory.
abbrev pub be16 : ℕ → Bytes
be16 x = x / 256 % 256 ∷ x % 256 ∷ []

-- The two bytes that `field = x` leaves in memory for a uint16_t, without htons.
abbrev pub le16 : ℕ → Bytes
le16 x = x % 256 ∷ x / 256 % 256 ∷ []

-- The four bytes that `field = x` leaves in memory for a uint32_t, without htonl.
abbrev pub le32 : ℕ → Bytes
le32 x = x % 256 ∷ x / 2 ^ 8 % 256 ∷ x / 2 ^ 16 % 256 ∷ x / 2 ^ 24 % 256 ∷ []

-- `ntohs (field)`.
abbrev pub from_be16 : ℕ → ℕ → ℕ
from_be16 hi lo = hi * 256 + lo

-- The four bytes that `field = htonl (x)` leaves in memory.
abbrev pub be32 : ℕ → Bytes
be32 x = x / 2 ^ 24 % 256 ∷ x / 2 ^ 16 % 256 ∷ x / 2 ^ 8 % 256 ∷ x % 256 ∷ []

-- memcpy of `bytes` into the buffer `mem` at offset `off`.
unfoldable pub write : Bytes → ℕ → Bytes → Bytes
write mem off bytes = take off mem ++ (bytes ++ drop (off + length bytes) mem)

-- What memcpy reads: `len` bytes of `mem` from offset `off`.
unfoldable pub slice : Bytes → ℕ → ℕ → Bytes
slice mem off len = take len (drop off mem)

-- A write over the middle part of a buffer replaces that part and nothing else.
pub write-middle :
    (pre old post bytes : Bytes) (off : ℕ)
    → off ≡ length pre
    → length bytes ≡ length old
    → write (pre ++ (old ++ post)) off bytes ≡ pre ++ (bytes ++ post)
unfolding write
write-middle pre old post bytes off h k =
    ap (λ t. t ++ (bytes ++ drop (off + length bytes) (pre ++ (old ++ post))))
      (take-append off pre (old ++ post) h)
    ∙ ap (λ t. pre ++ (bytes ++ drop (off + length bytes) t)) (sym (append_assoc pre old post))
    ∙ ap (λ t. pre ++ (bytes ++ t))
        (drop-append (off + length bytes) (pre ++ old) post (omega (arith, length-append pre old)))

pub length-write :
    (mem : Bytes) (off : ℕ) (bytes : Bytes)
    → off + length bytes ≤ length mem
    → length (write mem off bytes) ≡ length mem
unfolding write
length-write mem off bytes h = omega (
  arith,
  length-append (take off mem) (bytes ++ drop (off + length bytes) mem),
  length-append bytes (drop (off + length bytes) mem),
  length-take off mem,
  length-drop (off + length bytes) mem,
)

pub slice-middle :
    (pre mid post : Bytes) (off len : ℕ)
    → off ≡ length pre
    → len ≡ length mid
    → slice (pre ++ (mid ++ post)) off len ≡ mid
unfolding slice
slice-middle pre mid post off len h k =
    ap (take len) (drop-append off pre (mid ++ post) h) ∙ take-append len mid post k

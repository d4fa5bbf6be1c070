-- ===== src/Ip/Header/Fields.antt =====
-- What a receiver reads from the bytes of an IPv4 header.
use tcppump.Common.{
  ℕ, ◌+◌, ◌*◌, ◌/◌, ◌%◌, ◌^◌, ◌<◌, ◌≡◌, refl, arith, bit_or, bit_or_high, bit_and_low, Bool, true,
  false, ◌++◌, if◌then◌else◌, Bytes, some,
}
use tcppump.Ip.Receiver.{read_header}
use tcppump.Ip.Header.{HeaderArgs, vers_ihl, tos, flags_offset, before_chksum}

bit : Bool → ℕ
bit b = if b then 1 else 0

pub vers_ihl-sum : (hdr_len : ℕ) → vers_ihl hdr_len ≡ 64 + hdr_len / 4 % 16
unfolding vers_ihl
vers_ihl-sum hdr_len = rw (bit_and_low 4) (bit_or_high 4 (hdr_len / 4 % 16) 4 (omega arith))

pub tos-sum : (dscp ecn : ℕ) → tos dscp ecn ≡ dscp % 64 * 4 + ecn % 4
unfolding tos
tos-sum dscp ecn =
    rw (bit_and_low 6, bit_and_low 2) (bit_or_high 2 (ecn % 4) (dscp % 64) (omega arith))

flags_or :
    (df mf : Bool)
    → bit_or (if df then 0x4000 else 0) (if mf then 0x2000 else 0) ≡ (bit df * 2 + bit mf) * 2 ^ 13
unfolding bit
flags_or true true = refl
flags_or true false = refl
flags_or false true = refl
flags_or false false = refl

flags_offset-sum :
    (df mf : Bool) (offset : ℕ)
    → flags_offset df mf offset ≡ (bit df * 2 + bit mf) * 8192 + offset / 8 % 8192
unfolding flags_offset
flags_offset-sum df mf offset =
    rw (bit_and_low 13, flags_or df mf)
      (bit_or_high 13 (offset / 8 % 8192) (bit df * 2 + bit mf) (omega arith))

-- The arguments that the sender uses: lengths and offsets of 16 bits, in the units of the header.
pub record IsSound (a : HeaderArgs) : Type 0 where
  pub hdr_len_units : a.hdr_len % 4 ≡ 0
  pub hdr_len_small : a.hdr_len < 64
  pub total_small : a.total_len < 65536
  pub id_small : a.id < 65536
  pub offset_units : a.offset % 8 ≡ 0
  pub offset_small : a.offset < 65536

-- A receiver reads back the arguments that the header was compiled from.
pub read_header-header :
    (a : HeaderArgs) (rest : Bytes)
    → IsSound a
    → read_header (before_chksum a ++ rest)
      ≡ some (record {
        version = 4;
        header_length = a.hdr_len;
        total_length = a.total_len;
        identification = a.id;
        dont_fragment = a.df;
        more_fragments = a.mf;
        offset = a.offset;
      })
unfolding before_chksum bit
read_header-header a rest s =
    ground (arith, vers_ihl-sum a.hdr_len, flags_offset-sum a.df a.mf a.offset)

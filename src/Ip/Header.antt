-- ===== src/Ip/Header.antt =====
-- `ipv4_header_with_router_alert_t::compile` of src/packets/ippacket.hpp: the IPv4 header as it lies in
-- memory. An address is its four bytes in memory order (in_addr).
pub mod Fields
pub mod Checked
use tcppump.Common.{
  ℕ, ◌+◌, ◌-◌, ◌*◌, ◌/◌, ◌%◌, ◌^◌, bit_and, bit_or, Bool, true, false, [], ◌∷◌, ◌++◌, ◌==◌, not,
  if◌then◌else◌, take, Option, none, some, Bytes, be16, le16, Result, ok, err, bug, ◌>>=◌,
}
use tcppump.Checksum.{rfc1071_single}

-- The arguments of `compile`; `manual_chksum` is `none` where `manualChksum` is false.
pub record HeaderArgs : Type 0 where
  pub src : Bytes
  pub dst : Bytes
  pub time_to_live : ℕ
  pub proto : ℕ
  pub dscp : ℕ
  pub ecn : ℕ
  pub df : Bool
  pub mf : Bool
  pub offset : ℕ
  pub hdr_len : ℕ
  pub total_len : ℕ
  pub id : ℕ
  pub with_router_alert : Bool
  pub manual_chksum : Option ℕ

unfoldable pub vers_ihl : ℕ → ℕ
vers_ihl hdr_len = bit_or (4 * 2 ^ 4) (bit_and (hdr_len / 4) 0x0f)

unfoldable pub tos : ℕ → ℕ → ℕ
tos dscp ecn = bit_or (bit_and dscp 0x3f * 2 ^ 2) (bit_and ecn 0x03)

-- The value that is handed to htons for `flags_offset`.
unfoldable pub flags_offset : Bool → Bool → ℕ → ℕ
flags_offset df mf offset =
    bit_or (bit_or (if df then 0x4000 else 0) (if mf then 0x2000 else 0))
      (bit_and (offset / 8) 0x1fff)

-- The option of `ipv4_option_router_alert_t`, where it is set.
abbrev pub router_alert : Bool → Bytes
router_alert with_router_alert = if with_router_alert then 0x94 ∷ 4 ∷ 0 ∷ 0 ∷ [] else []

-- The bytes in front of the `chksum` field, and those behind it.
unfoldable pub before_chksum : HeaderArgs → Bytes
before_chksum a =
    vers_ihl a.hdr_len
    ∷ tos a.dscp a.ecn
    ∷ (be16 a.total_len
        ++ (be16 a.id
            ++ (be16 (flags_offset a.df a.mf a.offset)
                ++ (a.time_to_live % 256 ∷ a.proto % 256 ∷ []))))

unfoldable pub after_chksum : HeaderArgs → Bytes
after_chksum a = a.src ++ (a.dst ++ router_alert a.with_router_alert)

abbrev pub header_with : HeaderArgs → Bytes → Bytes
header_with a chksum = before_chksum a ++ (chksum ++ after_chksum a)

-- The bytes of the checksum field. It runs over the header, which lies on the stack, with a zero in
-- the field, unless it is given by hand.
unfoldable pub compile_chksum : Option ℕ → HeaderArgs → Result Bytes
compile_chksum (some value) a = ok (be16 value)
compile_chksum none a =
    rfc1071_single
      (record { odd_address = false; bytes = take a.hdr_len (header_with a (0 ∷ 0 ∷ [])) })
    >>= λ chksum. ok (le16 chksum)

unfoldable pub compile_header : HeaderArgs → Result Bytes
compile_header a =
    if not (a.offset % 8 == 0)
    then err bug
    else compile_chksum a.manual_chksum a >>= λ chksum. ok (header_with a chksum)

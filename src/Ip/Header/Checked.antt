-- ===== src/Ip/Header/Checked.antt =====
-- The IPv4 header with its checksum.
use tcppump.Common.{
  ℕ, ◌+◌, ◌%◌, ◌≤◌, ◌≡◌, refl, arith, Bool, true, false, [], ◌∷◌, ◌++◌, length, length-append, take,
  take_all, All, All-append, none, Bytes, IsByte, le16, ok,
}
use tcppump.Checksum.{rfc1071_single, rfc1071_finalize}
use tcppump.Checksum.Sum.{word_sum}
use tcppump.Checksum.Verify.{single_sum, rfc1071_single_verifies}
use tcppump.Ip.Header.{
  HeaderArgs, router_alert, before_chksum, after_chksum, header_with, compile_chksum,
  compile_header,
}
use tcppump.Ip.Header.Fields.{vers_ihl-sum, tos-sum}

-- Both addresses have four bytes, and the header length counts the option.
pub record HasAddresses (a : HeaderArgs) : Type 0 where
  pub src_size : length a.src ≡ 4
  pub dst_size : length a.dst ≡ 4
  pub src_bytes : All IsByte a.src
  pub dst_bytes : All IsByte a.dst
  pub hdr_len_is : a.hdr_len ≡ 20 + length (router_alert a.with_router_alert)

pub length-before_chksum : (a : HeaderArgs) → length (before_chksum a) ≡ 10
unfolding before_chksum
length-before_chksum a = refl

router_alert-IsByte : (b : Bool) → All IsByte (router_alert b)
router_alert-IsByte true = omega arith
router_alert-IsByte false = tt

before_chksum-IsByte : (a : HeaderArgs) → All IsByte (before_chksum a)
unfolding before_chksum
before_chksum-IsByte a = omega (arith, vers_ihl-sum a.hdr_len, tos-sum a.dscp a.ecn)

module _ (a : HeaderArgs) (h : HasAddresses a) where
  after_chksum-IsByte : All IsByte (after_chksum a)
  unfolding after_chksum
  after_chksum-IsByte =
      All-append IsByte a.src _ h.src_bytes
        (All-append IsByte a.dst _ h.dst_bytes (router_alert-IsByte a.with_router_alert))

  length-after_chksum : length (after_chksum a) + 12 ≡ a.hdr_len
  unfolding after_chksum
  length-after_chksum = omega (
    arith,
    h.src_size,
    h.dst_size,
    h.hdr_len_is,
    length-append a.src (a.dst ++ router_alert a.with_router_alert),
    length-append a.dst (router_alert a.with_router_alert),
  )

  pub length-header_with :
      (chksum : Bytes) → length chksum ≡ 2 → length (header_with a chksum) ≡ a.hdr_len
  length-header_with chksum size = omega (
    arith,
    length-before_chksum a,
    length-after_chksum,
    length-append (before_chksum a) (chksum ++ after_chksum a),
    length-append chksum (after_chksum a),
  )

  router_alert-short : length (router_alert a.with_router_alert) ≤ 4
  router_alert-short = ground arith

  zeroed-IsByte : All IsByte (header_with a (le16 0))
  zeroed-IsByte =
      All-append IsByte (before_chksum a) _ (before_chksum-IsByte a)
        (omega arith, (omega arith, after_chksum-IsByte))

  short : length (before_chksum a) + 2 + length (after_chksum a) ≤ 131072
  short =
      omega (arith, length-before_chksum a, length-after_chksum, h.hdr_len_is, router_alert-short)

  pub chksum : ℕ
  chksum = rfc1071_finalize (word_sum (header_with a (le16 0)))

  computed :
      rfc1071_single (record { odd_address = false; bytes = header_with a (le16 0) }) ≡ ok chksum
  unfolding chksum
  computed =
      single_sum false (header_with a (le16 0)) zeroed-IsByte
        (omega (arith, length-header_with (le16 0) refl, h.hdr_len_is, router_alert-short))

  whole : take a.hdr_len (header_with a (0 ∷ 0 ∷ [])) ≡ header_with a (le16 0)
  whole =
      take_all a.hdr_len (header_with a (0 ∷ 0 ∷ []))
        (omega (arith, length-header_with (0 ∷ 0 ∷ []) refl))

  pub compile_chksum-computed : compile_chksum none a ≡ ok (le16 chksum)
  unfolding compile_chksum
  compile_chksum-computed = rw (whole, computed)

  -- The compiled header has its own length in bytes, and a receiver's check of its checksum gives 0,
  -- if no checksum is given by hand and the offset is a multiple of 8.
  pub compile_header_verifies :
      a.manual_chksum ≡ none
      → a.offset % 8 ≡ 0
      → (bytes : Bytes) × (compile_header a ≡ ok bytes)
        × (length bytes ≡ a.hdr_len)
        × (rfc1071_single (record { odd_address = false; bytes = bytes }) ≡ ok 0)
  unfolding compile_header
  compile_header_verifies auto units = (
    header_with a (le16 chksum),
    ground (arith, compile_chksum-computed),
    length-header_with (le16 chksum) refl,
    rfc1071_single_verifies false false (before_chksum a) (after_chksum a)
        (omega (arith, length-before_chksum a)) (before_chksum-IsByte a) after_chksum-IsByte short
        computed,
  )

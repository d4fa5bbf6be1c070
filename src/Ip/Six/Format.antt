-- ===== src/Ip/Six/Format.antt =====
-- The IPv6 header byte by byte, as RFC 8200 has it. This is no code of the program but the specification
-- of `ipv6_header_t::compile` in src/packets/ippacket.hpp.
use tcppump.Common.{
  ℕ, ◌+◌, ◌*◌, ◌/◌, ◌%◌, ◌^◌, ◌≡◌, refl, ◌∙◌, arith, bit_and, bit_or, bit_or_high, bit_and_low,
  bit_and_field, halve, ◌∷◌, ◌++◌, Bytes,
}
use tcppump.Ip.Six.{Ip6Packet, vers_tc, tc_fl, header6}

-- Four bits of version, six of DSCP, two of ECN and 20 of flow label, two bytes of payload length, the next
-- header, the hop limit, the source and the destination.
abbrev pub format : Ip6Packet → ℕ → ℕ → Bytes
format ip next_header payload_length =
    (6 * 16 + ip.dscp / 4 % 16)
    ∷ (ip.dscp % 4 * 64 + ip.ecn % 4 * 16 + ip.flowlabel / 65536 % 16)
    ∷ ip.flowlabel / 256 % 256
    ∷ ip.flowlabel % 256
    ∷ payload_length / 256 % 256
    ∷ payload_length % 256
    ∷ next_header
    ∷ ip.ttl % 256
    ∷ (ip.src_ip ++ ip.dst_ip)

vers_tc-bytes : (dscp : ℕ) → vers_tc dscp ≡ 6 * 16 + dscp / 4 % 16
unfolding vers_tc
vers_tc-bytes dscp =
    let low : bit_and dscp 0x3f ≡ dscp % 64 = bit_and_low 6 dscp in
    rw low (bit_or_high 4 (dscp % 64 / 4) 6 (omega arith) ∙ omega arith)

label_top : (label : ℕ) → bit_and label 0x0f0000 / 2 ^ 16 % 256 ≡ label / 65536 % 16
label_top label =
    let field : bit_and label 0x0f0000 ≡ halve 16 label % 16 * 65536 = bit_and_field 4 16 label in
    omega (arith, field)

tc_fl-bytes :
    (dscp ecn label : ℕ) → tc_fl dscp ecn label ≡ dscp % 4 * 64 + ecn % 4 * 16 + label / 65536 % 16
unfolding tc_fl
tc_fl-bytes dscp ecn label =
    let d : bit_and dscp 3 ≡ dscp % 4 = bit_and_low 2 dscp in
    let e : bit_and ecn 3 ≡ ecn % 4 = bit_and_low 2 ecn in
    let upper : bit_or (dscp % 4 * 2 ^ 6) (ecn % 4 * 2 ^ 4) ≡ (dscp % 4 * 4 + ecn % 4) * 2 ^ 4 =
      bit_or_high 6 (ecn % 4 * 2 ^ 4) (dscp % 4) (omega arith) ∙ omega arith in
    rw (d, e, upper, label_top label)
      (bit_or_high 4 (label / 65536 % 16) (dscp % 4 * 4 + ecn % 4) (omega arith) ∙ omega arith)

pub header6-format :
    (ip : Ip6Packet) (next_header payload_length : ℕ)
    → header6 ip next_header payload_length ≡ format ip next_header payload_length
unfolding header6
header6-format ip next_header payload_length =
    let low : bit_and ip.flowlabel 0xffff ≡ ip.flowlabel % 65536 = bit_and_low 16 ip.flowlabel in
    let hi : ip.flowlabel % 65536 / 256 % 256 ≡ ip.flowlabel / 256 % 256 = omega arith in
    let lo : ip.flowlabel % 65536 % 256 ≡ ip.flowlabel % 256 = omega arith in
    let len_hi : payload_length % 2 ^ 16 / 256 % 256 ≡ payload_length / 256 % 256 = omega arith in
    let len_lo : payload_length % 2 ^ 16 % 256 ≡ payload_length % 256 = omega arith in
    rw (vers_tc-bytes ip.dscp, tc_fl-bytes ip.dscp ip.ecn ip.flowlabel, low, hi, lo, len_hi, len_lo)
      refl

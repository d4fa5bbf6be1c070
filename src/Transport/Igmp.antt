-- ===== src/Transport/Igmp.antt =====
-- src/packets/igmppacket.hpp and src/packets/igmppacket.cpp. Times are in the units of the field, tenths
-- of a second or seconds. A double that is finite and not negative is an exact fraction. A time that a
-- uint8_t has no room for wraps around, where the cast of a double is undefined.
pub mod Time
use tcppump.Common.{
  ℕ, ◌+◌, ◌*◌, ◌/◌, ◌%◌, ◌^◌, zero, suc, Bool, false, true, List, [], ◌∷◌, ◌++◌, ◌==◌, ltb,
  if◌then◌else◌, Bytes, be16, Option, none, some, Result, ◌>>=◌, length,
}
use tcppump.Checksum.{Region}
use tcppump.Checksum.Verify.{part_bytes}
use tcppump.Ip.Packet.{IpPacket, add_router_alert_option}
use tcppump.Ip.Fragments.{v4compile}
use tcppump.Transport.Icmp.{checked_header}

abbrev pub proto_igmp : ℕ
proto_igmp = 2

-- The loop of `floatToTime`, from an exponent and a mantissa; seven rounds are enough.
unfoldable pub normalise : ℕ → ℕ → ℕ → ℕ × ℕ
normalise zero exp mant = (exp, mant)
normalise (suc fuel) exp mant =
    let rest = normalise fuel (exp + 1) (mant / 2) in if ltb 31 mant then rest else (exp, mant)

-- The fields do not overlap, so their `|` is a sum.
abbrev pub encoded : ℕ × ℕ → ℕ
encoded (exp, mant) = 0x80 + exp % 8 * 16 + mant % 16

pub record Double : Type 0 where
  pub numerator : ℕ
  pub denominator : ℕ

-- `d < n`.
abbrev pub below : Double → ℕ → Bool
below d n = ltb d.numerator (n * d.denominator)

-- What the casts to `unsigned` and `uint8_t` keep before they wrap: the part before the point.
abbrev pub truncated : Double → ℕ
truncated d = d.numerator / d.denominator

unfoldable pub float_to_time : Double → ℕ
float_to_time d =
    if below d 128
    then truncated d % 256
    else if below d 31744
    then encoded (normalise 7 0 (truncated d / 8))
    else 255

unfoldable pub set_ip_header_options : IpPacket → IpPacket
set_ip_header_options ip =
    add_router_alert_option (record ip { ttl = 1; dscp = 48; dont_fragment = true })

unfoldable pub v12compile : (ℕ → Bytes) → ℕ → IpPacket → ℕ → ℕ → Bytes → Result (IpPacket × ℕ)
v12compile fresh next ip type time group = do
  igmp ← checked_header type time group none
  v4compile fresh next (set_ip_header_options ip) proto_igmp igmp []

abbrev pub concat : List Bytes → Bytes
concat [] = []
concat (a ∷ addresses) = a ++ concat addresses

-- What follows the checksum in igmpv3_query_t.
abbrev pub query_rest : Bytes → Bool → ℕ → Double → ℕ → Bytes
query_rest group s qrv qqic sources =
    group ++ (((if s then 8 else 0) + qrv % 8) ∷ float_to_time qqic ∷ be16 (sources % 2 ^ 16))

-- The source addresses, unless the field for their number is 0.
abbrev pub source_data : List Bytes → Option Region
source_data sources =
    if length sources % 2 ^ 16 == 0
    then none
    else some (record { odd_address = false; bytes = concat sources })

unfoldable pub v3compile_group_query :
    (ℕ → Bytes)
    → ℕ
    → IpPacket
    → List Bytes
    → Double
    → Bool
    → ℕ
    → Double
    → Bytes
    → Result (IpPacket × ℕ)
v3compile_group_query fresh next ip sources max_resp_code s qrv qqic group = do
  igmp ←
      checked_header 0x11 (float_to_time max_resp_code)
        (query_rest group s qrv qqic (length sources)) (source_data sources)
  v4compile fresh next (set_ip_header_options ip) proto_igmp igmp (part_bytes (source_data sources))

-- `v3sourceAddresses.clear ()` is the empty list.
unfoldable pub v3compile_general_query :
    (ℕ → Bytes) → ℕ → IpPacket → Double → Bool → ℕ → Double → Result (IpPacket × ℕ)
v3compile_general_query fresh next ip max_resp_code s qrv qqic =
    v3compile_group_query fresh next ip [] max_resp_code s qrv qqic (0 ∷ 0 ∷ 0 ∷ 0 ∷ [])

abbrev pub to_group : IpPacket → Bytes → IpPacket
to_group ip group = record ip { dst_ip = group }

-- `max_resp_code` is the argument of the program after `*= 10`, which rounds.
unfoldable pub compile_general_query :
    (ℕ → Bytes) → ℕ → IpPacket → Bool → Double → Bool → ℕ → Double → Result (IpPacket × ℕ)
compile_general_query fresh next ip v3 max_resp_code s qrv qqic =
    let all = to_group ip (224 ∷ 0 ∷ 0 ∷ 1 ∷ []) in
    if v3
    then v3compile_general_query fresh next all max_resp_code s qrv qqic
    else v12compile fresh next all 0x11 (truncated max_resp_code % 256) (0 ∷ 0 ∷ 0 ∷ 0 ∷ [])

unfoldable pub compile_group_query :
    (ℕ → Bytes)
    → ℕ
    → IpPacket
    → List Bytes
    → Bool
    → Double
    → Bool
    → ℕ
    → Double
    → Bytes
    → Result (IpPacket × ℕ)
compile_group_query fresh next ip sources v3 max_resp_code s qrv qqic group =
    if v3
    then v3compile_group_query fresh next (to_group ip group) sources max_resp_code s qrv qqic group
    else v12compile fresh next (to_group ip group) 0x11 (truncated max_resp_code % 256) group

unfoldable pub compile_report : (ℕ → Bytes) → ℕ → IpPacket → Bytes → Result (IpPacket × ℕ)
compile_report fresh next ip group = v12compile fresh next (to_group ip group) 0x16 0 group

unfoldable pub v2compile_leave_group : (ℕ → Bytes) → ℕ → IpPacket → Bytes → Result (IpPacket × ℕ)
v2compile_leave_group fresh next ip group =
    v12compile fresh next (to_group ip (224 ∷ 0 ∷ 0 ∷ 2 ∷ [])) 0x17 0 group

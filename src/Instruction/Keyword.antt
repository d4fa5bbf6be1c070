-- ===== src/Instruction/Keyword.antt =====
-- The keywords of src/compiler/syntax.hpp, and the comparisons with them in
-- cInstructionParser::parse of src/compiler/instructionparser.cpp.
use tcppump.Text.{codes}
use tcppump.Common.{
  Bool, true, false, ◌&&◌, List, [], ◌∷◌, Option, none, some, ◌==◌, ◌≡◌, refl, if◌then◌else◌, Bytes,
}

-- The names of the tables, without PR_.
pub data Protocol : Type 0 where
  raw eth arp arp_probe arp_announce ipv4 ipv6 udp4 udp6 vrrp vrrp3 stp stp_tcn rstp : Protocol
  igmp igmp_query igmp3_query igmp_report igmp_leave : Protocol
  icmp4 icmp4_unreach icmp4_srcq icmp4_timex icmp4_redir icmp4_echo icmp4_echor : Protocol
  tcp4 tcp6 vxlan4 vxlan6 gre4 gre6 lldp : Protocol

abbrev pub syntax : Protocol → Bytes
syntax raw = codes "raw"
syntax eth = codes "eth"
syntax arp = codes "arp"
syntax arp_probe = codes "arp-probe"
syntax arp_announce = codes "arp-announce"
syntax ipv4 = codes "ipv4"
syntax ipv6 = codes "ipv6"
syntax udp4 = codes "udp"
syntax udp6 = codes "udp6"
syntax vrrp = codes "vrrp"
syntax vrrp3 = codes "vrrp3"
syntax stp = codes "stp"
syntax stp_tcn = codes "stp-tcn"
syntax rstp = codes "rstp"
syntax igmp = codes "igmp"
syntax igmp_query = codes "igmp-query"
syntax igmp3_query = codes "igmp3-query"
syntax igmp_report = codes "igmp-report"
syntax igmp_leave = codes "igmp-leave"
syntax icmp4 = codes "icmp"
syntax icmp4_unreach = codes "icmp-unreachable"
syntax icmp4_srcq = codes "icmp-src-quench"
syntax icmp4_timex = codes "icmp-time-exceeded"
syntax icmp4_redir = codes "icmp-redirect"
syntax icmp4_echo = codes "icmp-echo"
syntax icmp4_echor = codes "icmp-echo-reply"
syntax tcp4 = codes "tcp"
syntax tcp6 = codes "tcp6"
syntax vxlan4 = codes "vxlan"
syntax vxlan6 = codes "vxlan6"
syntax gre4 = codes "gre"
syntax gre6 = codes "gre6"
syntax lldp = codes "lldp"

-- The order of the comparisons.
abbrev pub order : List Protocol
order =
    raw ∷ eth ∷ arp ∷ arp_probe ∷ arp_announce ∷ ipv4 ∷ ipv6 ∷ udp4 ∷ udp6 ∷ vrrp ∷ vrrp3 ∷ stp
    ∷ stp_tcn ∷ rstp ∷ igmp ∷ igmp_query ∷ igmp3_query ∷ igmp_report ∷ igmp_leave ∷ icmp4
    ∷ icmp4_unreach ∷ icmp4_srcq ∷ icmp4_timex ∷ icmp4_redir ∷ icmp4_echo ∷ icmp4_echor ∷ tcp4
    ∷ tcp6 ∷ vxlan4 ∷ vxlan6 ∷ gre4 ∷ gre6 ∷ lldp ∷ []

-- `!strncmp (syntax, keyword, keywordLen)`: no more than the keyword's characters are compared.
unfoldable pub is_prefix : Bytes → Bytes → Bool
is_prefix [] text = true
is_prefix (a ∷ keyword) [] = false
is_prefix (a ∷ keyword) (b ∷ text) = a == b && is_prefix keyword text

abbrev pub first_match : Bytes → List Protocol → Option Protocol
first_match keyword [] = none
first_match keyword (p ∷ ps) =
    let later = first_match keyword ps in if is_prefix keyword (syntax p) then some p else later

unfoldable pub select : Bytes → Option Protocol
select keyword = first_match keyword order

-- Every keyword of the tables selects its own protocol, though the comparison looks at a prefix only.
pub select-syntax : (p : Protocol) → select (syntax p) ≡ some p
unfolding select is_prefix
select-syntax raw = refl
select-syntax eth = refl
select-syntax arp = refl
select-syntax arp_probe = refl
select-syntax arp_announce = refl
select-syntax ipv4 = refl
select-syntax ipv6 = refl
select-syntax udp4 = refl
select-syntax udp6 = refl
select-syntax vrrp = refl
select-syntax vrrp3 = refl
select-syntax stp = refl
select-syntax stp_tcn = refl
select-syntax rstp = refl
select-syntax igmp = refl
select-syntax igmp_query = refl
select-syntax igmp3_query = refl
select-syntax igmp_report = refl
select-syntax igmp_leave = refl
select-syntax icmp4 = refl
select-syntax icmp4_unreach = refl
select-syntax icmp4_srcq = refl
select-syntax icmp4_timex = refl
select-syntax icmp4_redir = refl
select-syntax icmp4_echo = refl
select-syntax icmp4_echor = refl
select-syntax tcp4 = refl
select-syntax tcp6 = refl
select-syntax vxlan4 = refl
select-syntax vxlan6 = refl
select-syntax gre4 = refl
select-syntax gre6 = refl
select-syntax lldp = refl

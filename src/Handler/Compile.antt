-- ===== src/Handler/Compile.antt =====
-- The choice of the handler in cInstructionParser::parse, and compileEmbedded, of
-- src/compiler/instructionparser.cpp. An embedded instruction is
-- the text behind its opening bracket, up to the end of the outer instruction; it is
-- compiled with an MTU of its own.
use tcppump.Common.{
  ◌∷◌, ◌++◌, ℕ, zero, suc, ◌-◌, ◌*◌, Bool, true, false, if◌then◌else◌, Bytes, other_exception, bug,
  Result, err, ok,
}
use tcppump.Params.{Parameter}
use tcppump.Params.Find.{ParameterList}
use tcppump.Ethernet.{EthernetPacket, frame, payload_bytes}
use tcppump.Ip.Packet.{IpPacket}
use tcppump.Ip.Six.{Ip6Packet}
use tcppump.Instruction.{Stamp, Outcome, packets, refused, stopped, parse}
use tcppump.Instruction.Keyword.{
  Protocol, raw, eth, arp, arp_probe, arp_announce, ipv4, ipv6, udp4, vrrp, vrrp3, icmp4,
  icmp4_unreach, icmp4_srcq, icmp4_timex, icmp4_redir, icmp4_echo, icmp4_echor, tcp4, vxlan4, gre4,
}
use tcppump.Handler.{Env, World, Handler, ◌>>=◌, pure, as_bytes, largest}
use tcppump.Handler.Eth.{compile_eth, compile_arp}
use tcppump.Handler.Raw.{compile_raw}
use tcppump.Handler.Ip.{compile_ipv4, compile_ipv6}
use tcppump.Handler.Udp.{compile_udp, compile_vxlan}
use tcppump.Handler.Tcp.{compile_tcp, compile_gre}
use tcppump.Handler.Icmp.{
  compile_icmp, compile_icmp_with_embedded, compile_icmp_redirect, compile_icmp_ping, compile_vrrp,
}

-- The classes of packets behind a cLinkable.
pub data Linkable : Type 0 where
  ethernet : EthernetPacket → Linkable
  over_ipv4 : IpPacket → Linkable
  over_ipv6 : Ip6Packet → Linkable

abbrev pub first_packet : Linkable → EthernetPacket
first_packet (ethernet p) = p
first_packet (over_ipv4 ip) = ip.first
first_packet (over_ipv6 ip) = ip.first

abbrev pub as_ethernet : Handler EthernetPacket → Handler Linkable
as_ethernet h = h >>= λ p. pure (ethernet p)

abbrev pub as_ip : Handler IpPacket → Handler Linkable
as_ip h = h >>= λ ip. pure (over_ipv4 ip)

abbrev pub Embedding : Type 0
Embedding = Parameter → Bool → Handler Bytes

-- A handler on the list of its instruction, with the counters of `w`.
abbrev pub on_list :
    World → Handler Linkable → ParameterList → Result ((Linkable × World) × ParameterList)
on_list w h l = elim (h (record w { params = l })) [
  | err cause ↦ err cause
  | ok r ↦ ok (r, r.1.params)
]

abbrev pub unstamped : Stamp
unstamped = record { has_timestamp = false; timestamp = 0; is_absolute = false }

-- The bytes of an inner packet; its list of parameters is none of the outer instruction.
abbrev pub inner_bytes : Bool → Outcome (Linkable × World) → Handler Bytes
inner_bytes no_eth_header (refused message) w = err other_exception
inner_bytes no_eth_header stopped w = err bug
inner_bytes no_eth_header (packets made stamp) w =
    let p = first_packet made.0 in
    ok (if no_eth_header then payload_bytes p else frame p, record made.1 { params = w.params })

abbrev pub embedded_env : Env → Env
embedded_env e = record e { settings = record e.settings { my_mtu = 32 * 1024 } }

-- A stream, or the bytes of an instruction that `inner` parses. The pointer to the value is handed on
-- without its length, so the inner parser gets the closing bracket and all that follows it, and ignores
-- what it does not need.
abbrev pub compile_embedded : Env → (Bool → Bytes → World → Outcome (Linkable × World)) → Embedding
compile_embedded e inner v no_eth_header = do
  value ← as_bytes e true (largest 64) v.value
  if value.1
      then (λ w. inner_bytes no_eth_header (inner no_eth_header (value.0 ++ b'>' ∷ v.behind) w) w)
      else pure value.0

-- `others` are the handlers of STP, IGMP and LLDP, and of UDP, TCP, VXLAN and GRE over IPv6.
module _ (others : Env → Embedding → Bool → Protocol → Handler Linkable) where
  unfoldable pub handler_of : Env → Embedding → Bool → Protocol → Handler Linkable
  handler_of e emb no_eth raw = as_ethernet (compile_raw e no_eth)
  handler_of e emb no_eth eth = as_ethernet (compile_eth e)
  handler_of e emb no_eth arp = as_ethernet (compile_arp e false false)
  handler_of e emb no_eth arp_probe = as_ethernet (compile_arp e true false)
  handler_of e emb no_eth arp_announce = as_ethernet (compile_arp e false true)
  handler_of e emb no_eth ipv4 = as_ip (compile_ipv4 e no_eth)
  handler_of e emb no_eth ipv6 = compile_ipv6 e no_eth >>= λ ip. pure (over_ipv6 ip)
  handler_of e emb no_eth udp4 = as_ip (compile_udp e emb no_eth)
  handler_of e emb no_eth vrrp = as_ip (compile_vrrp e no_eth 2)
  handler_of e emb no_eth vrrp3 = as_ip (compile_vrrp e no_eth 3)
  handler_of e emb no_eth icmp4 = as_ip (compile_icmp e no_eth)
  handler_of e emb no_eth icmp4_unreach = as_ip (compile_icmp_with_embedded e emb no_eth 3)
  handler_of e emb no_eth icmp4_srcq = as_ip (compile_icmp_with_embedded e emb no_eth 4)
  handler_of e emb no_eth icmp4_timex = as_ip (compile_icmp_with_embedded e emb no_eth 11)
  handler_of e emb no_eth icmp4_redir = as_ip (compile_icmp_redirect e emb no_eth)
  handler_of e emb no_eth icmp4_echo = as_ip (compile_icmp_ping e emb no_eth false)
  handler_of e emb no_eth icmp4_echor = as_ip (compile_icmp_ping e emb no_eth true)
  handler_of e emb no_eth tcp4 = as_ip (compile_tcp e emb no_eth)
  handler_of e emb no_eth vxlan4 = as_ip (compile_vxlan e emb no_eth)
  handler_of e emb no_eth gre4 = as_ip (compile_gre e emb no_eth)
  handler_of e emb no_eth other = others e emb no_eth other

  -- An instruction that lies in 8 - `left` others. The eighth of these is the last that may hold one.
  unfoldable pub instruction :
      ℕ → Env → Bool → Bool → Stamp → Bytes → World → Outcome (Linkable × World)
  instruction zero e garbage no_eth_header given text w =
      parse (λ protocol l. err bug) 8 garbage given text
  instruction (suc left) e garbage no_eth_header given text w =
      parse
        (λ protocol l.
          on_list w
            (handler_of e
              (compile_embedded e
                (λ no_eth inner v. instruction left (embedded_env e) true no_eth unstamped inner v))
              no_eth_header protocol)
            l)
        (7 - left) garbage given text

  -- What the command line, a script or an embedding instruction calls first.
  unfoldable pub parse_instruction : Env → Stamp → Bytes → World → Outcome (Linkable × World)
  parse_instruction e given text w = instruction 8 e false false given text w

-- ===== src/Handler/Keeps/Whole.antt =====
-- No handler of src/compiler/instructionparser.cpp passes a parameter over that it does not know: the
-- instruction gives no packets.
use tcppump.Common.{◌∷◌, ◌++◌, ℕ, Bool, true, false, List, if◌then◌else◌, Bytes}
use tcppump.Params.{Parameter}
use tcppump.Instruction.{Outcome, packets, refused, stopped}
use tcppump.Instruction.Keyword.{
  Protocol, eth, arp, arp_probe, arp_announce, ipv4, ipv6, udp4, vrrp, vrrp3, icmp4, icmp4_unreach,
  icmp4_srcq, icmp4_timex, icmp4_redir, icmp4_echo, icmp4_echor, tcp4, vxlan4, gre4, raw, udp6, stp,
  stp_tcn, rstp, igmp, igmp_query, igmp3_query, igmp_report, igmp_leave, tcp6, vxlan6, gre6, lldp,
}
use tcppump.Handler.{Env, World, Handler, ◌>>=◌, pure, largest}
use tcppump.Handler.Compile.{Linkable, Embedding, inner_bytes, compile_embedded, handler_of}
use tcppump.Handler.Keeps.{Keeps, Waits, StillWaits, bind-Keeps, pure-Keeps}
use tcppump.Handler.Keeps.Readers.{as_bytes-Keeps}
use tcppump.Handler.Keeps.Link.{
  Strange, mac_names, llc_names, arp_names, compile_eth-Keeps, compile_arp-Keeps,
}
use tcppump.Handler.Keeps.Net.{
  ipv4_names, ipv6_names, data_names, compile_ipv4-Keeps, compile_ipv6-Keeps,
}
use tcppump.Handler.Keeps.Inet.{
  udp_names, vxlan_names, flag_names, tcp_names, gre_names, compile_udp-Keeps, compile_vxlan-Keeps,
  compile_tcp-Keeps, compile_gre-Keeps,
}
use tcppump.Handler.Keeps.Control.{
  icmp_names, error_names, redirect_names, ping_names, vrrp_names, compile_icmp-Keeps,
  compile_icmp_with_embedded-Keeps, compile_icmp_redirect-Keeps, compile_icmp_ping-Keeps,
  compile_vrrp-Keeps,
}

module _ (k : ℕ) (list : List Parameter) (e : Env) where
  abbrev pub OverIp : List Bytes → Type 0
  OverIp names = Strange k list e mac_names × Strange k list e ipv4_names × Strange k list e names

  -- The parameter at `k` has none of the names that the protocol knows. Those of `raw` are compared in
  -- another way, and the other protocols are arguments.
  abbrev pub IsUnknown : Protocol → Type 0
  IsUnknown eth = Strange k list e mac_names × Strange k list e llc_names
  IsUnknown arp = Strange k list e mac_names × Strange k list e arp_names
  IsUnknown arp_probe = Strange k list e mac_names × Strange k list e arp_names
  IsUnknown arp_announce = Strange k list e mac_names × Strange k list e arp_names
  IsUnknown ipv4 = OverIp data_names
  IsUnknown ipv6 =
      Strange k list e mac_names × Strange k list e ipv6_names × Strange k list e data_names
  IsUnknown udp4 = OverIp udp_names
  IsUnknown vxlan4 = OverIp vxlan_names
  IsUnknown tcp4 = OverIp tcp_names × Strange k list e flag_names
  IsUnknown gre4 = OverIp gre_names
  IsUnknown vrrp = OverIp vrrp_names
  IsUnknown vrrp3 = OverIp vrrp_names
  IsUnknown icmp4 = OverIp icmp_names
  IsUnknown icmp4_unreach = OverIp error_names
  IsUnknown icmp4_srcq = OverIp error_names
  IsUnknown icmp4_timex = OverIp error_names
  IsUnknown icmp4_redir = OverIp redirect_names
  IsUnknown icmp4_echo = OverIp ping_names
  IsUnknown icmp4_echor = OverIp ping_names
  IsUnknown _ = ⊥

  made-Keeps :
      {A : Type 0} (m : Handler A) (f : A → Linkable)
      → Keeps k list m
      → Keeps k list (m >>= λ p. pure (f p))
  made-Keeps m f h = bind-Keeps k list m (λ p. pure (f p)) h (λ p. pure-Keeps k list (f p))

  -- An embedded instruction has a list of its own.
  inner_at :
      (b : Bool) (o : Outcome (Linkable × World)) (w : World)
      → Waits k list w
      → StillWaits k list (inner_bytes b o w)
  inner_at b (packets made stamp) w s = s
  inner_at b (refused m) w s = tt
  inner_at b stopped w s = tt

  chosen-Keeps :
      (inner : Bool → Bytes → World → Outcome (Linkable × World)) (b : Bool) (behind : Bytes)
      (value : Bytes × Bool)
      → Keeps k list (
          if value.1
          then (λ w. inner_bytes b (inner b (value.0 ++ b'>' ∷ behind) w) w)
          else pure value.0)
  chosen-Keeps inner b behind (v, true) = record {
    keeps = λ w s. inner_at b (inner b (v ++ b'>' ∷ behind) w) w s;
  }
  chosen-Keeps inner b behind (v, false) = record { keeps = λ w s. s }

  pub embedded-Keeps :
      (inner : Bool → Bytes → World → Outcome (Linkable × World)) (v : Parameter) (b : Bool)
      → Keeps k list (compile_embedded e inner v b)
  embedded-Keeps inner v b =
      bind-Keeps k list _ _ (as_bytes-Keeps k list e true (largest 64) v.value)
        (chosen-Keeps inner b v.behind)

  module _ (others : Env → Embedding → Bool → Protocol → Handler Linkable) (emb : Embedding)
      (embeds : (v : Parameter) (b : Bool) → Keeps k list (emb v b)) (no_eth : Bool) where
    pub handler_of-Keeps :
        (p : Protocol) → IsUnknown p → Keeps k list (handler_of others e emb no_eth p)
    unfolding handler_of
    handler_of-Keeps eth h = made-Keeps _ _ (compile_eth-Keeps k list e h.0 h.1)
    handler_of-Keeps arp h = made-Keeps _ _ (compile_arp-Keeps k list e h.0 h.1 false false)
    handler_of-Keeps arp_probe h = made-Keeps _ _ (compile_arp-Keeps k list e h.0 h.1 true false)
    handler_of-Keeps arp_announce h = made-Keeps _ _ (compile_arp-Keeps k list e h.0 h.1 false true)
    handler_of-Keeps ipv4 h = made-Keeps _ _ (compile_ipv4-Keeps k list e h.0 h.1 h.2 no_eth)
    handler_of-Keeps ipv6 h = made-Keeps _ _ (compile_ipv6-Keeps k list e h.0 h.1 h.2 no_eth)
    handler_of-Keeps udp4 h =
        made-Keeps _ _ (compile_udp-Keeps k list e emb embeds h.0 h.1 no_eth h.2)
    handler_of-Keeps vxlan4 h =
        made-Keeps _ _ (compile_vxlan-Keeps k list e emb embeds h.0 h.1 no_eth h.2)
    handler_of-Keeps tcp4 h =
        made-Keeps _ _ (compile_tcp-Keeps k list e emb embeds h.0.0 h.0.1 no_eth h.0.2 h.1)
    handler_of-Keeps gre4 h =
        made-Keeps _ _ (compile_gre-Keeps k list e emb embeds h.0 h.1 no_eth h.2)
    handler_of-Keeps vrrp h = made-Keeps _ _ (compile_vrrp-Keeps k list e h.0 h.1 h.2 no_eth 2)
    handler_of-Keeps vrrp3 h = made-Keeps _ _ (compile_vrrp-Keeps k list e h.0 h.1 h.2 no_eth 3)
    handler_of-Keeps icmp4 h = made-Keeps _ _ (compile_icmp-Keeps k list e h.0 h.1 h.2 no_eth)
    handler_of-Keeps icmp4_unreach h =
        made-Keeps _ _ (compile_icmp_with_embedded-Keeps k list e h.0 h.1 emb embeds h.2 no_eth 3)
    handler_of-Keeps icmp4_srcq h =
        made-Keeps _ _ (compile_icmp_with_embedded-Keeps k list e h.0 h.1 emb embeds h.2 no_eth 4)
    handler_of-Keeps icmp4_timex h =
        made-Keeps _ _ (compile_icmp_with_embedded-Keeps k list e h.0 h.1 emb embeds h.2 no_eth 11)
    handler_of-Keeps icmp4_redir h =
        made-Keeps _ _ (compile_icmp_redirect-Keeps k list e h.0 h.1 emb embeds h.2 no_eth)
    handler_of-Keeps icmp4_echo h =
        made-Keeps _ _ (compile_icmp_ping-Keeps k list e h.0 h.1 emb embeds h.2 no_eth false)
    handler_of-Keeps icmp4_echor h =
        made-Keeps _ _ (compile_icmp_ping-Keeps k list e h.0 h.1 emb embeds h.2 no_eth true)
    handler_of-Keeps raw h = elim h [ ]
    handler_of-Keeps udp6 h = elim h [ ]
    handler_of-Keeps stp h = elim h [ ]
    handler_of-Keeps stp_tcn h = elim h [ ]
    handler_of-Keeps rstp h = elim h [ ]
    handler_of-Keeps igmp h = elim h [ ]
    handler_of-Keeps igmp_query h = elim h [ ]
    handler_of-Keeps igmp3_query h = elim h [ ]
    handler_of-Keeps igmp_report h = elim h [ ]
    handler_of-Keeps igmp_leave h = elim h [ ]
    handler_of-Keeps tcp6 h = elim h [ ]
    handler_of-Keeps vxlan6 h = elim h [ ]
    handler_of-Keeps gre6 h = elim h [ ]
    handler_of-Keeps lldp h = elim h [ ]

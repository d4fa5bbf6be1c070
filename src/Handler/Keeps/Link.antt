-- ===== src/Handler/Keeps/Link.antt =====
-- The handlers of src/compiler/instructionparser.cpp for `eth` and `arp` leave a parameter alone that
-- has none of their names.
use tcppump.Common.{
  ℕ, zero, suc, Bool, true, false, Bool-cases, inl, inr, Option, none, some, not, length, List, [],
  ◌∷◌, ◌==◌, Bytes, All,
}
use tcppump.Syntax.Link.{
  par_eth_smac, par_eth_dmac, par_eth_vid, par_eth_vtype, par_eth_prio, par_eth_dei, par_eth_dsap,
  par_eth_ssap, par_eth_control, par_eth_oui, par_eth_protocol, par_eth_payload, par_eth_ethertype,
  par_arp_op,
}
use tcppump.Syntax.Net.{par_ip_dip, par_ip_sip}
use tcppump.Params.{Parameter}
use tcppump.Ethernet.{EthernetPacket, set_payload}
use tcppump.Handler.{
  Env, ◌>>=◌, largest, as_integer, Handler, pure, required, as_any, as_mac, as_ipv4, stream,
}
use tcppump.Handler.Mac.{
  compile_mac_header, vlan_tags, compile_vlan_tags, addressed, of_tag, add_tag,
}
use tcppump.Handler.Eth.{
  compile_eth, compile_llc, compile_snap, compile_type, compile_request, compile_probe,
  compile_announce, compile_arp,
}
use tcppump.Ethernet.Arp.{null_mac, set_all, probe, announce}
use tcppump.Handler.Keeps.{
  Keeps, NotNamed, bind-Keeps, pure-Keeps, lift-Keeps, find-Keeps, required-Keeps, given-Keeps,
  given_or-Keeps, read_or-Keeps, own-Keeps,
}
use tcppump.Handler.Keeps.Readers.{
  as_integer-Keeps, as_mac-Keeps, as_ipv4-Keeps, stream-Keeps, own_mac-Keeps, own_ipv4-Keeps,
}

abbrev pub mac_names : List Bytes
mac_names =
    par_eth_smac ∷ par_eth_dmac ∷ par_eth_vid ∷ par_eth_vtype ∷ par_eth_prio ∷ par_eth_dei ∷ []

abbrev pub llc_names : List Bytes
llc_names =
    par_eth_dsap ∷ par_eth_ssap ∷ par_eth_control ∷ par_eth_oui ∷ par_eth_protocol ∷ par_eth_payload
    ∷ par_eth_ethertype ∷ []

abbrev pub arp_names : List Bytes
arp_names = par_arp_op ∷ par_ip_sip ∷ par_ip_dip ∷ []

module _ (k : ℕ) (list : List Parameter) (e : Env) where
  abbrev pub Strange : List Bytes → Type 0
  Strange names = All (λ name. NotNamed name k list) names

  module _ (h : Strange mac_names) where
    addressed-Keeps : (p : EthernetPacket) (v : Option Parameter) → Keeps k list (addressed e p v)
    addressed-Keeps p none = pure-Keeps k list _
    addressed-Keeps p (some v) =
        bind-Keeps k list _ _ (as_mac-Keeps k list e v.value) (λ d. pure-Keeps k list _)

    pub mac_header-Keeps :
        (p : EthernetPacket) (without optional : Bool)
        → Keeps k list (compile_mac_header e p without optional)
    unfolding compile_mac_header
    mac_header-Keeps p true optional =
        bind-Keeps k list _ _ (own_mac-Keeps k list e par_eth_smac h.0) (λ s. pure-Keeps k list _)
    mac_header-Keeps p false optional =
        bind-Keeps k list _ _ (own_mac-Keeps k list e par_eth_smac h.0) (λ s.
          bind-Keeps k list _ _ (find-Keeps k list none none par_eth_dmac optional h.1.0)
            (addressed-Keeps _))

    add_tag-Keeps : (v : Parameter) (p : EthernetPacket) → Keeps k list (add_tag e v p)
    add_tag-Keeps v p =
        bind-Keeps k list _ _ (of_tag-Keeps par_eth_vtype h.1.1.1.0 1 8 1 2) (λ vtype.
          bind-Keeps k list _ _ (as_integer-Keeps k list e 16 0 0x0fff v.value) (λ vid.
            bind-Keeps k list _ _ (of_tag-Keeps par_eth_prio h.1.1.1.1.0 0 8 0 7) (λ prio.
              bind-Keeps k list _ _ (of_tag-Keeps par_eth_dei h.1.1.1.1.1.0 0 8 0 1)
                (λ dei. lift-Keeps k list _))))
      where
        of_tag-Keeps :
            (name : Bytes)
            → NotNamed name k list
            → (default width first end : ℕ)
            → Keeps k list (of_tag e v name default (as_integer e width first end))
        of_tag-Keeps name n default width first end =
            bind-Keeps k list _ _ (find-Keeps k list (some v) (some par_eth_vid) name true n) (
              read_or-Keeps k list name (as_integer e width first end) n
                (as_integer-Keeps k list e width first end) default)

    -- The function of the loop behind a lookup, for the next rounds.
    round-Keeps :
        (next : Parameter → EthernetPacket → Handler EthernetPacket)
        → ((v : Parameter) (q : EthernetPacket) → Keeps k list (next v q))
        → (p : EthernetPacket) (found : Option Parameter)
        → Keeps k list (elim found [ none ↦ pure p | some v ↦ add_tag e v p >>= next v ])
    round-Keeps next n p none = pure-Keeps k list p
    round-Keeps next n p (some v) = bind-Keeps k list _ _ (add_tag-Keeps v p) (n v)

    vlan_tags-Keeps :
        (fuel : ℕ) (start : Option Parameter) (p : EthernetPacket)
        → Keeps k list (vlan_tags e fuel start p)
    unfolding vlan_tags
    vlan_tags-Keeps zero start p = record { keeps = λ w s. tt }
    vlan_tags-Keeps (suc fuel) start p = record {
      keeps =
          (bind-Keeps k list _ _ (find-Keeps k list start none par_eth_vid true h.1.1.0) (
            round-Keeps (λ v. vlan_tags e fuel (some v)) (λ v. vlan_tags-Keeps fuel (some v))
              p)).keeps;
    }

    pub tags-Keeps : (p : EthernetPacket) → Keeps k list (compile_vlan_tags e p)
    unfolding compile_vlan_tags
    tags-Keeps p = record {
      keeps = λ w s. (vlan_tags-Keeps (suc (length w.params.list)) none p).keeps w s;
    }

    module _ (n : Strange llc_names) where
      snap-Keeps : (p : EthernetPacket) (oui : Option ℕ) → Keeps k list (compile_snap e p oui)
      snap-Keeps p none = pure-Keeps k list p
      snap-Keeps p (some oui) =
          bind-Keeps k list _ _
            (required-Keeps k list par_eth_protocol (as_any e 16) n.1.1.1.1.0
              (as_integer-Keeps k list e 16 0 (largest 16)))
            (λ protocol. lift-Keeps k list _)

      llc-Keeps : (p : EthernetPacket) (dsap : Option ℕ) → Keeps k list (compile_llc e p dsap)
      llc-Keeps p none =
          bind-Keeps k list _ _
            (given-Keeps k list par_eth_oui (as_integer e 32 0 0x00ffffff) n.1.1.1.0
              (as_integer-Keeps k list e 32 0 0x00ffffff))
            (snap-Keeps p)
      llc-Keeps p (some dsap) =
          bind-Keeps k list _ _
            (required-Keeps k list par_eth_ssap (as_any e 8) n.1.0
              (as_integer-Keeps k list e 8 0 (largest 8)))
            (λ ssap.
              bind-Keeps k list _ _
                (given_or-Keeps k list par_eth_control (as_any e 16) n.1.1.0
                  (as_integer-Keeps k list e 16 0 (largest 16)) 3)
                (λ control. lift-Keeps k list _))

      type-Keeps : (p : EthernetPacket) → Keeps k list (compile_type e p)
      type-Keeps p = elim (Bool-cases (not (p.llc_header_length == 0))) [
        | inl l ↦ rw l (pure-Keeps k list _)
        | inr l ↦ rw l (
            bind-Keeps k list _ _
              (given-Keeps k list par_eth_ethertype (as_any e 16) n.1.1.1.1.1.1.0
                (as_integer-Keeps k list e 16 0 (largest 16)))
              (λ kind. pure-Keeps k list _))
      ]

      pub compile_eth-Keeps : Keeps k list (compile_eth e)
      unfolding compile_eth
      compile_eth-Keeps = bind-Keeps k list _ _ (lift-Keeps k list _) (λ p.
          bind-Keeps k list _ _ (mac_header-Keeps p false false) (λ a.
            bind-Keeps k list _ _ (tags-Keeps a.0) (λ t.
              bind-Keeps k list _ _
                (given-Keeps k list par_eth_dsap (as_any e 8) n.0
                  (as_integer-Keeps k list e 8 0 (largest 8)))
                (λ dsap. bind-Keeps k list _ _ (llc-Keeps t dsap) (λ headed.
                  bind-Keeps k list _ _
                    (required-Keeps k list par_eth_payload (stream e) n.1.1.1.1.1.0
                      (stream-Keeps k list e))
                    (λ payload.
                      bind-Keeps k list _ _ (lift-Keeps k list (set_payload headed payload))
                        type-Keeps))))))

    module _ (n : Strange arp_names) where
      dip-Keeps : Keeps k list (required par_ip_dip (as_ipv4 e))
      dip-Keeps = required-Keeps k list par_ip_dip (as_ipv4 e) n.1.1.0 (as_ipv4-Keeps k list e)

      request-Keeps : (arp : EthernetPacket) → Keeps k list (compile_request e arp)
      request-Keeps arp =
          bind-Keeps k list _ _
            (given_or-Keeps k list par_eth_dmac (as_mac e) h.1.0 (as_mac-Keeps k list e) null_mac)
            (λ target.
              bind-Keeps k list _ _
                (given_or-Keeps k list par_arp_op (as_any e 16) n.0
                  (as_integer-Keeps k list e 16 0 (largest 16)) 1)
                (λ op. bind-Keeps k list _ _ (own_mac-Keeps k list e par_eth_smac h.0) (λ smac.
                  bind-Keeps k list _ _ (own_ipv4-Keeps k list e par_ip_sip n.1.0) (λ sip.
                    bind-Keeps k list _ _ dip-Keeps
                      (λ dip. lift-Keeps k list (set_all arp op smac sip target dip))))))

      probe-Keeps : (arp : EthernetPacket) → Keeps k list (compile_probe e arp)
      probe-Keeps arp =
          bind-Keeps k list _ _ (own-Keeps k list e.settings.my_mac) (λ mine.
            bind-Keeps k list _ _ dip-Keeps (λ dip. lift-Keeps k list (probe arp mine dip)))

      announce-Keeps : (arp : EthernetPacket) → Keeps k list (compile_announce e arp)
      announce-Keeps arp = bind-Keeps k list _ _ (own-Keeps k list e.settings.my_mac) (λ mine.
          bind-Keeps k list _ _ (own_ipv4-Keeps k list e par_ip_dip n.1.1.0)
            (λ dip. lift-Keeps k list (announce arp mine dip)))

      pub compile_arp-Keeps :
          (is_probe is_gratuitous : Bool) → Keeps k list (compile_arp e is_probe is_gratuitous)
      unfolding compile_arp
      compile_arp-Keeps true g =
          bind-Keeps k list _ _ (lift-Keeps k list _)
            (λ arp. bind-Keeps k list _ _ (probe-Keeps arp) tags-Keeps)
      compile_arp-Keeps false true =
          bind-Keeps k list _ _ (lift-Keeps k list _)
            (λ arp. bind-Keeps k list _ _ (announce-Keeps arp) tags-Keeps)
      compile_arp-Keeps false false =
          bind-Keeps k list _ _ (lift-Keeps k list _)
            (λ arp. bind-Keeps k list _ _ (request-Keeps arp) tags-Keeps)

-- ===== src/Handler/Keeps/Net.antt =====
-- The handlers of src/compiler/instructionparser.cpp for IP leave a parameter alone that has none of
-- their names.
use tcppump.Common.{ℕ, Bool, true, false, ◌||◌, List, [], ◌∷◌, Bytes, Result, err, ok}
use tcppump.Syntax.Net.{
  par_ip_dscp, par_ip_ecn, par_ip_ttl, par_ip4_df, par_ip_dip, par_ip_sip, par_ip4_id,
  par_ip4_chksum, par_ip6_fl, par_ip_payload, par_ip_protocol,
}
use tcppump.Params.{Parameter}
use tcppump.Ethernet.{EthernetPacket}
use tcppump.Ip.Packet.{IpPacket}
use tcppump.Ip.Fragments.{v4compile}
use tcppump.Ip.Six.{Ip6Packet, v6compile}
use tcppump.Handler.{
  required, given, given_or, Env, World, as_integer, as_ipv4, as_ipv6, stream, largest,
}
use tcppump.Handler.Ip.{
  send, new_ip, new_ip6, destined, parse_ipv4_params, with_header, begin_ipv4, compile_ipv4,
  parse_ipv6_params, compile_ipv6,
}
use tcppump.Handler.Keeps.{
  Keeps, NotNamed, Waits, StillWaits, bind-Keeps, pure-Keeps, lift-Keeps, required-Keeps,
  given-Keeps, given_or-Keeps,
}
use tcppump.Handler.Keeps.Readers.{
  as_integer-Keeps, as_ipv4-Keeps, as_ipv6-Keeps, stream-Keeps, own_ipv4-Keeps, own_ipv6-Keeps,
}
use tcppump.Handler.Keeps.Link.{Strange, mac_names, mac_header-Keeps, tags-Keeps}

abbrev pub ipv4_names : List Bytes
ipv4_names =
    par_ip_dscp ∷ par_ip_ecn ∷ par_ip_ttl ∷ par_ip4_df ∷ par_ip_dip ∷ par_ip_sip ∷ par_ip4_id
    ∷ par_ip4_chksum ∷ []

abbrev pub ipv6_names : List Bytes
ipv6_names = par_ip_dscp ∷ par_ip_ecn ∷ par_ip_ttl ∷ par_ip_dip ∷ par_ip_sip ∷ par_ip6_fl ∷ []

abbrev pub data_names : List Bytes
data_names = par_ip_payload ∷ par_ip_protocol ∷ []

module _ (k : ℕ) (list : List Parameter) (e : Env) where
  sent_at :
      {A : Type 0} (w : World) (r : Result (A × ℕ))
      → Waits k list w
      → StillWaits k list {A = A}
          (elim r [ err cause ↦ err cause | ok r ↦ ok (r.0, record w { next_id = r.1 }) ])
  sent_at w (err cause) s = tt
  sent_at w (ok r) s = s

  pub send-Keeps : {A : Type 0} (f : ℕ → Result (A × ℕ)) → Keeps k list (send f)
  send-Keeps f = record { keeps = λ w s. sent_at w (f w.next_id) s }

  -- Parameters that are integers.
  module _ (name : Bytes) (h : NotNamed name k list) (width first end : ℕ) where
    pub integer_or-Keeps :
        (default : ℕ) → Keeps k list (given_or name default (as_integer e width first end))
    integer_or-Keeps default =
        given_or-Keeps k list name (as_integer e width first end) h
          (as_integer-Keeps k list e width first end) default

    pub integer_given-Keeps : Keeps k list (given name (as_integer e width first end))
    integer_given-Keeps =
        given-Keeps k list name (as_integer e width first end) h
          (as_integer-Keeps k list e width first end)

    pub integer-Keeps : Keeps k list (required name (as_integer e width first end))
    integer-Keeps =
        required-Keeps k list name (as_integer e width first end) h
          (as_integer-Keeps k list e width first end)

  pub new_ip-Keeps : Keeps k list (new_ip e)
  unfolding new_ip
  new_ip-Keeps = bind-Keeps k list _ _ (lift-Keeps k list _) (λ p. pure-Keeps k list _)

  module _ (n : Strange k list e ipv4_names) where
    destined-Keeps : (ip : IpPacket) (without : Bool) → Keeps k list (destined e ip without)
    destined-Keeps ip true = pure-Keeps k list _
    destined-Keeps ip false =
        bind-Keeps k list _ _
          (required-Keeps k list par_ip_dip (as_ipv4 e) n.1.1.1.1.0 (as_ipv4-Keeps k list e))
          (λ dip. pure-Keeps k list _)

    pub ipv4_params-Keeps :
        (ip : IpPacket) (without : Bool) → Keeps k list (parse_ipv4_params e ip without)
    unfolding parse_ipv4_params
    ipv4_params-Keeps ip without =
        bind-Keeps k list _ _ (integer_or-Keeps par_ip_dscp n.0 8 0 0x3f 0) (λ dscp.
          bind-Keeps k list _ _ (integer_or-Keeps par_ip_ecn n.1.0 8 0 3 0) (λ ecn.
            bind-Keeps k list _ _ (integer_or-Keeps par_ip_ttl n.1.1.0 8 0 (largest 8) 64) (λ ttl.
              bind-Keeps k list _ _ (integer_or-Keeps par_ip4_df n.1.1.1.0 8 0 1 0) (λ df.
                bind-Keeps k list _ _ (destined-Keeps _ without) (λ to.
                  bind-Keeps k list _ _ (own_ipv4-Keeps k list e par_ip_sip n.1.1.1.1.1.0) (λ sip.
                    bind-Keeps k list _ _
                      (integer_given-Keeps par_ip4_id n.1.1.1.1.1.1.0 16 0 (largest 16))
                      (λ id.
                        bind-Keeps k list _ _
                          (integer_given-Keeps par_ip4_chksum n.1.1.1.1.1.1.1.0 16 0 (largest 16))
                          (λ chksum. pure-Keeps k list _))))))))

  pub ipv6_params-Keeps :
      Strange k list e ipv6_names → (ip : Ip6Packet) → Keeps k list (parse_ipv6_params e ip)
  unfolding parse_ipv6_params
  ipv6_params-Keeps n ip =
      bind-Keeps k list _ _ (integer_or-Keeps par_ip_dscp n.0 8 0 0x3f 0) (λ dscp.
        bind-Keeps k list _ _ (integer_or-Keeps par_ip_ecn n.1.0 8 0 3 0) (λ ecn.
          bind-Keeps k list _ _ (integer_or-Keeps par_ip_ttl n.1.1.0 8 0 (largest 8) 64) (λ ttl.
            bind-Keeps k list _ _
              (required-Keeps k list par_ip_dip (as_ipv6 e) n.1.1.1.0 (as_ipv6-Keeps k list e))
              (λ dip. bind-Keeps k list _ _ (own_ipv6-Keeps k list e par_ip_sip n.1.1.1.1.0) (λ sip.
                bind-Keeps k list _ _ (integer_given-Keeps par_ip6_fl n.1.1.1.1.1.0 32 0 0xfffff)
                  (λ label. pure-Keeps k list _))))))

  module _ (h : Strange k list e mac_names) where
    pub header-Keeps :
        (no_eth without optional : Bool) (p : EthernetPacket)
        → Keeps k list (with_header e no_eth without optional p)
    header-Keeps true without optional p = pure-Keeps k list p
    header-Keeps false without optional p =
        bind-Keeps k list _ _ (mac_header-Keeps k list e h p without optional)
          (λ q. tags-Keeps k list e h q.0)

    module _ (n : Strange k list e ipv4_names) where
      pub begin_ipv4-Keeps : (no_eth : Bool) → Keeps k list (begin_ipv4 e no_eth)
      unfolding begin_ipv4
      begin_ipv4-Keeps no_eth = bind-Keeps k list _ _ new_ip-Keeps (λ new.
          bind-Keeps k list _ _ (ipv4_params-Keeps n new false) (λ ip.
            bind-Keeps k list _ _
              (header-Keeps no_eth false (e.ip_optional_dest_mac || ip.1) ip.0.first)
              (λ first. pure-Keeps k list _)))

      pub compile_ipv4-Keeps :
          Strange k list e data_names → (no_eth : Bool) → Keeps k list (compile_ipv4 e no_eth)
      unfolding compile_ipv4
      compile_ipv4-Keeps d no_eth = bind-Keeps k list _ _ (begin_ipv4-Keeps no_eth) (λ ip.
          bind-Keeps k list _ _
            (required-Keeps k list par_ip_payload (stream e) d.0 (stream-Keeps k list e))
            (λ payload.
              bind-Keeps k list _ _ (integer-Keeps par_ip_protocol d.1.0 8 0 (largest 8))
                (λ protocol. send-Keeps (λ next. v4compile e.fresh next ip protocol [] payload))))

    pub compile_ipv6-Keeps :
        Strange k list e ipv6_names
        → Strange k list e data_names
        → (no_eth : Bool) → Keeps k list (compile_ipv6 e no_eth)
    unfolding compile_ipv6 new_ip6
    compile_ipv6-Keeps n d no_eth =
        bind-Keeps k list _ _
          (bind-Keeps k list _ _ (lift-Keeps k list _) (λ p. pure-Keeps k list _))
          (λ new. bind-Keeps k list _ _ (ipv6_params-Keeps n new) (λ ip.
            bind-Keeps k list _ _
              (header-Keeps no_eth false (e.ip_optional_dest_mac || ip.1) ip.0.first)
              (λ first.
                bind-Keeps k list _ _
                  (required-Keeps k list par_ip_payload (stream e) d.0 (stream-Keeps k list e))
                  (λ payload.
                    bind-Keeps k list _ _ (integer-Keeps par_ip_protocol d.1.0 8 0 (largest 8))
                      (λ protocol.
                        lift-Keeps k list
                          (v6compile (record ip.0 { first = first }) protocol [] payload))))))

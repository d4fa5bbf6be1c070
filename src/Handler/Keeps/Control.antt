-- ===== src/Handler/Keeps/Control.antt =====
-- The handlers of src/compiler/instructionparser.cpp for ICMP and VRRP leave a parameter alone that has
-- none of their names.
use tcppump.Common.{
  ℕ, zero, suc, Bool, true, false, Bool-cases, inl, inr, Option, none, some, List, [], ◌∷◌, ◌==◌,
  Bytes,
}
use tcppump.Syntax.Net.{
  par_icmp4_type, par_icmp4_code, par_icmp4_payload, par_icmp4_chksum, par_icmp4_gw, par_icmp4_id,
  par_icmp4_seq, par_vrrp_vrip, par_vrrp_vrid, par_vrrp_vrprio, par_vrrp_type, par_vrrp_aint,
  par_vrrp_chksum,
}
use tcppump.Params.{Parameter}
use tcppump.Ip.Packet.{IpPacket}
use tcppump.Transport.Vrrp.{VrrpPacket, add_virtual_ip}
use tcppump.Transport.Icmp.{compile_with_embedded_inet, compile_redirect, compile_ping}
use tcppump.Handler.{Env, Handler, ◌>>=◌, pure, as_ipv4, stream, largest}
use tcppump.Handler.Icmp.{
  region, raw_message, compile_icmp, compile_icmp_with_embedded, compile_icmp_redirect,
  compile_icmp_ping, more_vrips, interval_of, first_vrip, compile_vrrp,
}
use tcppump.Handler.Keeps.{
  Keeps, bind-Keeps, pure-Keeps, find-Keeps, given-Keeps, required-Keeps, read_found-Keeps,
}
use tcppump.Handler.Keeps.Readers.{as_ipv4-Keeps, stream-Keeps}
use tcppump.Handler.Keeps.Link.{Strange, mac_names}
use tcppump.Handler.Keeps.Net.{
  ipv4_names, integer_or-Keeps, integer_given-Keeps, integer-Keeps, begin_ipv4-Keeps, send-Keeps,
  new_ip-Keeps, ipv4_params-Keeps, header-Keeps,
}
use tcppump.Handler.Keeps.Inet.{payload-Keeps}

abbrev pub icmp_names : List Bytes
icmp_names = par_icmp4_type ∷ par_icmp4_code ∷ par_icmp4_payload ∷ par_icmp4_chksum ∷ []

abbrev pub error_names : List Bytes
error_names = par_icmp4_code ∷ par_icmp4_payload ∷ []

abbrev pub redirect_names : List Bytes
redirect_names = par_icmp4_code ∷ par_icmp4_gw ∷ par_icmp4_payload ∷ []

abbrev pub ping_names : List Bytes
ping_names = par_icmp4_id ∷ par_icmp4_seq ∷ par_icmp4_payload ∷ []

abbrev pub vrrp_names : List Bytes
vrrp_names =
    par_vrrp_vrip ∷ par_vrrp_vrid ∷ par_vrrp_vrprio ∷ par_vrrp_type ∷ par_vrrp_aint
    ∷ par_vrrp_chksum ∷ []

module _ (k : ℕ) (list : List Parameter) (e : Env) (h : Strange k list e mac_names)
    (i : Strange k list e ipv4_names) where
  pub compile_icmp-Keeps :
      Strange k list e icmp_names → (no_eth : Bool) → Keeps k list (compile_icmp e no_eth)
  unfolding compile_icmp
  compile_icmp-Keeps n no_eth = bind-Keeps k list _ _ (begin_ipv4-Keeps k list e h i no_eth) (λ ip.
      bind-Keeps k list _ _ (integer-Keeps k list e par_icmp4_type n.0 8 0 (largest 8)) (λ type.
        bind-Keeps k list _ _ (integer-Keeps k list e par_icmp4_code n.1.0 8 0 (largest 8)) (λ code.
          bind-Keeps k list _ _
            (given-Keeps k list par_icmp4_payload (stream e) n.1.1.0 (stream-Keeps k list e))
            (λ payload.
              bind-Keeps k list _ _
                (integer_given-Keeps k list e par_icmp4_chksum n.1.1.1.0 16 0 (largest 16))
                (λ chksum.
                  send-Keeps k list e (raw_message e ip type code (region e payload) chksum))))))

  module _ (emb : Parameter → Bool → Handler Bytes)
      (embeds : (v : Parameter) (b : Bool) → Keeps k list (emb v b)) where
    pub compile_icmp_with_embedded-Keeps :
        Strange k list e error_names
        → (no_eth : Bool) (type : ℕ) → Keeps k list (compile_icmp_with_embedded e emb no_eth type)
    unfolding compile_icmp_with_embedded
    compile_icmp_with_embedded-Keeps n no_eth type =
        bind-Keeps k list _ _ (begin_ipv4-Keeps k list e h i no_eth) (λ ip.
          bind-Keeps k list _ _ (integer_or-Keeps k list e par_icmp4_code n.0 8 0 (largest 8) 0)
            (λ code.
              bind-Keeps k list _ _ (payload-Keeps k list e emb embeds par_icmp4_payload n.1.0 true)
                (λ payload.
                  send-Keeps k list e
                    (λ next. compile_with_embedded_inet e.fresh next ip type code payload))))

    pub compile_icmp_redirect-Keeps :
        Strange k list e redirect_names
        → (no_eth : Bool) → Keeps k list (compile_icmp_redirect e emb no_eth)
    unfolding compile_icmp_redirect
    compile_icmp_redirect-Keeps n no_eth =
        bind-Keeps k list _ _ (begin_ipv4-Keeps k list e h i no_eth) (λ ip.
          bind-Keeps k list _ _ (integer_or-Keeps k list e par_icmp4_code n.0 8 0 (largest 8) 0)
            (λ code.
              bind-Keeps k list _ _
                (required-Keeps k list par_icmp4_gw (as_ipv4 e) n.1.0 (as_ipv4-Keeps k list e))
                (λ gw.
                  bind-Keeps k list _ _
                    (payload-Keeps k list e emb embeds par_icmp4_payload n.1.1.0 true)
                    (λ payload.
                      send-Keeps k list e
                        (λ next. compile_redirect e.fresh next ip code gw payload)))))

    pub compile_icmp_ping-Keeps :
        Strange k list e ping_names
        → (no_eth reply : Bool) → Keeps k list (compile_icmp_ping e emb no_eth reply)
    unfolding compile_icmp_ping
    compile_icmp_ping-Keeps n no_eth reply =
        bind-Keeps k list _ _ (begin_ipv4-Keeps k list e h i no_eth) (λ ip.
          bind-Keeps k list _ _ (integer_or-Keeps k list e par_icmp4_id n.0 16 0 (largest 16) 0)
            (λ id.
              bind-Keeps k list _ _
                (integer_or-Keeps k list e par_icmp4_seq n.1.0 16 0 (largest 16) 0)
                (λ seq.
                  bind-Keeps k list _ _
                    (payload-Keeps k list e emb embeds par_icmp4_payload n.1.1.0 true)
                    (λ payload.
                      send-Keeps k list e
                        (λ next. compile_ping e.fresh next ip reply id seq payload)))))

  module _ (n : Strange k list e vrrp_names) where
    round-Keeps :
        (next : Parameter → VrrpPacket → Handler VrrpPacket)
        → ((v : Parameter) (q : VrrpPacket) → Keeps k list (next v q))
        → (p : VrrpPacket) (found : Option Parameter)
        → Keeps k list (elim found [
          | none ↦ pure p
          | some v ↦ as_ipv4 e v.value >>= λ ip. next v (add_virtual_ip p ip)
        ])
    round-Keeps next g p none = pure-Keeps k list p
    round-Keeps next g p (some v) =
        bind-Keeps k list _ _ (as_ipv4-Keeps k list e v.value) (λ ip. g v (add_virtual_ip p ip))

    vrips-Keeps :
        (rounds : ℕ) (start : Option Parameter) (p : VrrpPacket)
        → Keeps k list (more_vrips e rounds start p)
    unfolding more_vrips
    vrips-Keeps zero start p = record { keeps = λ w s. s }
    vrips-Keeps (suc rounds) start p = record {
      keeps =
          (bind-Keeps k list _ _ (find-Keeps k list start none par_vrrp_vrip true n.0) (
            round-Keeps (λ v. more_vrips e rounds (some v)) (λ v. vrips-Keeps rounds (some v))
              p)).keeps;
    }

    interval-Keeps : (version : ℕ) → Keeps k list (interval_of e version)
    interval-Keeps version = elim (Bool-cases (version == 2)) [
      | inl v ↦ rw v (integer_or-Keeps k list e par_vrrp_aint n.1.1.1.1.0 8 0 (largest 8) 1)
      | inr v ↦ rw v (integer_or-Keeps k list e par_vrrp_aint n.1.1.1.1.0 16 0 4095 100)
    ]

    first_vrip-Keeps :
        (ip : IpPacket) (version : ℕ) (first : Option Parameter)
        → Keeps k list (first_vrip e ip version first)
    first_vrip-Keeps ip version first =
        bind-Keeps k list _ _ (integer-Keeps k list e par_vrrp_vrid n.1.0 8 1 255) (λ vrid.
          bind-Keeps k list _ _
            (read_found-Keeps k list par_vrrp_vrip (as_ipv4 e) n.0 (as_ipv4-Keeps k list e) first)
            (λ vrip.
              bind-Keeps k list _ _
                (integer_or-Keeps k list e par_vrrp_vrprio n.1.1.0 8 0 (largest 8) 100)
                (λ prio.
                  bind-Keeps k list _ _ (integer_or-Keeps k list e par_vrrp_type n.1.1.1.0 8 0 15 1)
                    (λ type. bind-Keeps k list _ _ (interval-Keeps version) (λ interval.
                      bind-Keeps k list _ _
                        (integer_given-Keeps k list e par_vrrp_chksum n.1.1.1.1.1.0 16 0
                          (largest 16))
                        (λ chksum.
                          bind-Keeps k list _ _ (vrips-Keeps 254 first _)
                            (λ all. send-Keeps k list e _)))))))

    pub compile_vrrp-Keeps :
        (no_eth : Bool) (version : ℕ) → Keeps k list (compile_vrrp e no_eth version)
    unfolding compile_vrrp
    compile_vrrp-Keeps no_eth version = bind-Keeps k list _ _ (new_ip-Keeps k list e) (λ new.
        bind-Keeps k list _ _ (ipv4_params-Keeps k list e i new true) (λ ip.
          bind-Keeps k list _ _ (header-Keeps k list e h no_eth true false ip.0.first) (λ first.
            bind-Keeps k list _ _ (find-Keeps k list none none par_vrrp_vrip false n.0)
              (λ vrip. first_vrip-Keeps (record ip.0 { first = first }) version vrip))))

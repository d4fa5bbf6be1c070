-- ===== src/Handler/Keeps/Inet.antt =====
-- The handlers of src/compiler/instructionparser.cpp for UDP, VXLAN, TCP and GRE leave a parameter alone
-- that has none of their names.
use tcppump.Common.{ℕ, Bool, true, false, Option, none, some, List, [], ◌∷◌, Bytes, Result, err, ok}
use tcppump.Syntax.Net.{
  par_udp_sport, par_udp_dport, par_udp_payload, par_udp_chksum, par_vxlan_vni, par_vxlan_payload,
  par_tcp_sport, par_tcp_dport, par_tcp_seq, par_tcp_ack, par_tcp_win, par_tcp_urgptr, par_tcp_fin,
  par_tcp_syn, par_tcp_reset, par_tcp_push, par_tcp_ackflag, par_tcp_urgent, par_tcp_ecn,
  par_tcp_cwr, par_tcp_nonce, par_tcp_payload, par_tcp_chksum, par_gre_protocol, par_gre_key,
  par_gre_seq, par_gre_chksum, par_gre_payload,
}
use tcppump.Params.{Parameter}
use tcppump.Ip.Packet.{IpPacket}
use tcppump.Transport.Udp
use tcppump.Transport.Udp.{UdpHeader}
use tcppump.Transport.Tcp
use tcppump.Transport.Tcp.{TcpHeader, set_ack_number, set_window, set_urgent_pointer}
use tcppump.Handler.{Env, World, Handler, largest}
use tcppump.Handler.Udp.{
  send_with, embedded_in, payload_of, overwritten, compile_udp, compile_vxlan,
}
use tcppump.Handler.Tcp.{
  new_tcp, numbered, send_tcp, flag, flags_of, with_checksum, is_none, compile_tcp, compile_gre,
}
use tcppump.Handler.Keeps.{
  Keeps, NotNamed, Waits, StillWaits, bind-Keeps, pure-Keeps, lift-Keeps, find-Keeps,
}
use tcppump.Handler.Keeps.Link.{Strange, mac_names}
use tcppump.Handler.Keeps.Net.{
  ipv4_names, integer_or-Keeps, integer_given-Keeps, integer-Keeps, begin_ipv4-Keeps,
}

abbrev pub udp_names : List Bytes
udp_names = par_udp_sport ∷ par_udp_dport ∷ par_udp_payload ∷ par_udp_chksum ∷ []

abbrev pub vxlan_names : List Bytes
vxlan_names = par_udp_sport ∷ par_udp_dport ∷ par_vxlan_vni ∷ par_vxlan_payload ∷ []

abbrev pub flag_names : List Bytes
flag_names =
    par_tcp_fin ∷ par_tcp_syn ∷ par_tcp_reset ∷ par_tcp_push ∷ par_tcp_ackflag ∷ par_tcp_urgent
    ∷ par_tcp_ecn ∷ par_tcp_cwr ∷ par_tcp_nonce ∷ []

abbrev pub tcp_names : List Bytes
tcp_names =
    par_tcp_sport ∷ par_tcp_dport ∷ par_tcp_seq ∷ par_tcp_ack ∷ par_tcp_win ∷ par_tcp_urgptr
    ∷ par_tcp_payload ∷ par_tcp_chksum ∷ []

abbrev pub gre_names : List Bytes
gre_names = par_gre_protocol ∷ par_gre_key ∷ par_gre_seq ∷ par_gre_chksum ∷ par_gre_payload ∷ []

module _ (k : ℕ) (list : List Parameter) (e : Env) where
  sent_at :
      {A B : Type 0} (w : World) (r : Result (A × (B × ℕ)))
      → Waits k list w
      → StillWaits k list {A = A × B} (elim r [
        | err cause ↦ err cause
        | ok (a, (b, next)) ↦ ok ((a, b), record w { next_id = next })
      ])
  sent_at w (err cause) s = tt
  sent_at w (ok r) s = s

  send_with-Keeps : {A B : Type 0} (f : ℕ → Result (A × (B × ℕ))) → Keeps k list (send_with f)
  send_with-Keeps f = record { keeps = λ w s. sent_at w (f w.next_id) s }

  sent_tcp_at :
      (w : World) (r : Result (IpPacket × (TcpHeader × (ℕ × ℕ))))
      → Waits k list w
      → StillWaits k list {A = IpPacket} (elim r [
        | err cause ↦ err cause
        | ok (ip, (h, (next, sequence))) ↦ ok (ip, record w { next_id = next; sequence = sequence })
      ])
  sent_tcp_at w (err cause) s = tt
  sent_tcp_at w (ok r) s = s

  send_tcp-Keeps :
      (f : ℕ → ℕ → Result (IpPacket × (TcpHeader × (ℕ × ℕ)))) → Keeps k list (send_tcp f)
  send_tcp-Keeps f = record { keeps = λ w s. sent_tcp_at w (f w.next_id w.sequence) s }

  new_tcp-Keeps : Keeps k list new_tcp
  new_tcp-Keeps = record { keeps = λ w s. s }

  numbered-Keeps : (t : TcpHeader) (seq : ℕ) → Keeps k list (numbered t seq)
  numbered-Keeps t seq = record { keeps = λ w s. s }

  module _ (emb : Parameter → Bool → Handler Bytes)
      (embeds : (v : Parameter) (b : Bool) → Keeps k list (emb v b)) where
    overwritten-Keeps :
        (sent : IpPacket × UdpHeader) (c : Option ℕ) → Keeps k list (overwritten e emb sent c)
    overwritten-Keeps sent none = pure-Keeps k list _
    overwritten-Keeps sent (some c) =
        bind-Keeps k list _ _ (lift-Keeps k list (Udp.set_checksum sent.0 sent.1 c))
          (λ r. pure-Keeps k list _)

    embedded_in-Keeps : (b : Bool) (v : Option Parameter) → Keeps k list (embedded_in e emb b v)
    embedded_in-Keeps b none = pure-Keeps k list none
    embedded_in-Keeps b (some v) = bind-Keeps k list _ _ (embeds v b) (λ bytes. pure-Keeps k list _)

    pub payload-Keeps :
        (name : Bytes) → NotNamed name k list → (b : Bool) → Keeps k list (payload_of e emb name b)
    payload-Keeps name h b =
        bind-Keeps k list _ _ (find-Keeps k list none none name true h) (embedded_in-Keeps b)

    flag-Keeps : (name : Bytes) → NotNamed name k list → Keeps k list (flag e emb name)
    flag-Keeps name h =
        bind-Keeps k list _ _ (integer_or-Keeps k list e name h 8 0 1 0) (λ n. pure-Keeps k list _)

    flags-Keeps : Strange k list e flag_names → (t : TcpHeader) → Keeps k list (flags_of e emb t)
    unfolding flags_of
    flags-Keeps n t = bind-Keeps k list _ _ (flag-Keeps par_tcp_fin n.0) (λ fin.
        bind-Keeps k list _ _ (flag-Keeps par_tcp_syn n.1.0) (λ syn.
          bind-Keeps k list _ _ (flag-Keeps par_tcp_reset n.1.1.0) (λ rst.
            bind-Keeps k list _ _ (flag-Keeps par_tcp_push n.1.1.1.0) (λ psh.
              bind-Keeps k list _ _ (flag-Keeps par_tcp_ackflag n.1.1.1.1.0) (λ ack.
                bind-Keeps k list _ _ (flag-Keeps par_tcp_urgent n.1.1.1.1.1.0) (λ urg.
                  bind-Keeps k list _ _ (flag-Keeps par_tcp_ecn n.1.1.1.1.1.1.0) (λ ece.
                    bind-Keeps k list _ _ (flag-Keeps par_tcp_cwr n.1.1.1.1.1.1.1.0) (λ cwr.
                      bind-Keeps k list _ _ (flag-Keeps par_tcp_nonce n.1.1.1.1.1.1.1.1.0)
                        (λ non. pure-Keeps k list _)))))))))

    module _ (h : Strange k list e mac_names) (i : Strange k list e ipv4_names)
        (no_eth : Bool) where
      pub compile_udp-Keeps : Strange k list e udp_names → Keeps k list (compile_udp e emb no_eth)
      unfolding compile_udp
      compile_udp-Keeps n = bind-Keeps k list _ _ (begin_ipv4-Keeps k list e h i no_eth) (λ ip.
          bind-Keeps k list _ _ (integer-Keeps k list e par_udp_sport n.0 16 0 (largest 16))
            (λ sport.
              bind-Keeps k list _ _ (integer-Keeps k list e par_udp_dport n.1.0 16 0 (largest 16))
                (λ dport.
                  bind-Keeps k list _ _ (payload-Keeps par_udp_payload n.1.1.0 false) (λ payload.
                    bind-Keeps k list _ _ (send_with-Keeps _) (λ sent.
                      bind-Keeps k list _ _
                        (integer_given-Keeps k list e par_udp_chksum n.1.1.1.0 16 0 (largest 16))
                        (overwritten-Keeps sent))))))

      pub compile_vxlan-Keeps :
          Strange k list e vxlan_names → Keeps k list (compile_vxlan e emb no_eth)
      unfolding compile_vxlan
      compile_vxlan-Keeps n = bind-Keeps k list _ _ (begin_ipv4-Keeps k list e h i no_eth) (λ ip.
          bind-Keeps k list _ _ (integer-Keeps k list e par_udp_sport n.0 16 0 (largest 16))
            (λ sport.
              bind-Keeps k list _ _
                (integer_or-Keeps k list e par_udp_dport n.1.0 16 0 (largest 16) 4789)
                (λ dport.
                  bind-Keeps k list _ _
                    (integer_or-Keeps k list e par_vxlan_vni n.1.1.0 32 0 0x00ffffff 0)
                    (λ vni.
                      bind-Keeps k list _ _ (payload-Keeps par_vxlan_payload n.1.1.1.0 false)
                        (λ payload.
                          bind-Keeps k list _ _ (send_with-Keeps _)
                            (λ sent. pure-Keeps k list _))))))

      pub compile_tcp-Keeps :
          Strange k list e tcp_names
          → Strange k list e flag_names
          → Keeps k list (compile_tcp e emb no_eth)
      unfolding compile_tcp
      compile_tcp-Keeps n f = bind-Keeps k list _ _ new_tcp-Keeps (λ new.
          bind-Keeps k list _ _ (begin_ipv4-Keeps k list e h i no_eth) (λ ip.
            bind-Keeps k list _ _ (integer-Keeps k list e par_tcp_sport n.0 16 0 (largest 16))
              (λ sport.
                bind-Keeps k list _ _ (integer-Keeps k list e par_tcp_dport n.1.0 16 0 (largest 16))
                  (λ dport.
                    bind-Keeps k list _ _
                      (integer-Keeps k list e par_tcp_seq n.1.1.0 32 0 (largest 32))
                      (λ seq.
                        bind-Keeps k list _ _
                          (numbered-Keeps
                            (Tcp.set_destination_port (Tcp.set_source_port new sport) dport) seq)
                          (λ t.
                            bind-Keeps k list _ _
                              (integer-Keeps k list e par_tcp_ack n.1.1.1.0 32 0 (largest 32))
                              (λ ack.
                                bind-Keeps k list _ _
                                  (integer_or-Keeps k list e par_tcp_win n.1.1.1.1.0 16 0
                                    (largest 16) 1024)
                                  (λ win.
                                    bind-Keeps k list _ _
                                      (integer_or-Keeps k list e par_tcp_urgptr n.1.1.1.1.1.0 16 0
                                        (largest 16) 0)
                                      (λ urgptr.
                                        bind-Keeps k list _ _
                                          (flags-Keeps f (
                                            set_urgent_pointer
                                              (set_window (set_ack_number t ack) win) urgptr))
                                          (λ flagged.
                                            bind-Keeps k list _ _
                                              (payload-Keeps par_tcp_payload n.1.1.1.1.1.1.0 false)
                                              (λ payload.
                                                bind-Keeps k list _ _
                                                  (integer_given-Keeps k list e par_tcp_chksum
                                                    n.1.1.1.1.1.1.1.0 16 0 (largest 16))
                                                  (λ chksum. send_tcp-Keeps (λ next sequence.
                                                    Tcp.compile e.fresh next sequence ip
                                                      (with_checksum flagged chksum) payload
                                                      (is_none chksum))))))))))))))

      pub compile_gre-Keeps : Strange k list e gre_names → Keeps k list (compile_gre e emb no_eth)
      unfolding compile_gre
      compile_gre-Keeps n = bind-Keeps k list _ _ (begin_ipv4-Keeps k list e h i no_eth) (λ ip.
          bind-Keeps k list _ _ (integer-Keeps k list e par_gre_protocol n.0 16 0 (largest 16))
            (λ protocol.
              bind-Keeps k list _ _
                (integer_given-Keeps k list e par_gre_key n.1.0 32 0 (largest 32))
                (λ key.
                  bind-Keeps k list _ _
                    (integer_given-Keeps k list e par_gre_seq n.1.1.0 32 0 (largest 32))
                    (λ seq.
                      bind-Keeps k list _ _
                        (integer_given-Keeps k list e par_gre_chksum n.1.1.1.0 16 0 (largest 16))
                        (λ chksum.
                          bind-Keeps k list _ _ (payload-Keeps par_gre_payload n.1.1.1.1.0 true)
                            (λ payload.
                              bind-Keeps k list _ _ (send_with-Keeps _)
                                (λ sent. pure-Keeps k list _)))))))

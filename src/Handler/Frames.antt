-- ===== src/Handler/Frames.antt =====
-- The frame that an `eth` instruction without tags and LLC header gives, from its text on.
use tcppump.Common.{
  ℕ, ◌+◌, ◌^◌, ◌≤◌, ◌<◌, ◌≡◌, refl, ◌∙◌, arith, Bool, true, false, List, [], ◌∷◌, ◌++◌, none, some,
  ◌==◌, length, drop, Bytes, be16,
}
use tcppump.Syntax.Link.{
  par_eth_smac, par_eth_dmac, par_eth_payload, par_eth_ethertype, par_eth_dsap,
}
use tcppump.Params.{Parameter}
use tcppump.Params.Find.{find_parameter, search_from, same_text, mark}
use tcppump.Address.{calls}
use tcppump.Ethernet.{
  EthernetPacket, frame, new_packet, set_src_mac, set_dest_mac, set_payload, set_type_length,
}
use tcppump.Ethernet.Layout.{HasParts, frame-content}
use tcppump.Ethernet.Layout.Headers.{set_dest_mac-parts, set_src_mac-parts, set_type_length-parts}
use tcppump.Ethernet.Layout.Payload.{Returns, new_packet-parts, set_payload-parts, blank}
use tcppump.Ethernet.Compile.Frames.{new_packet-max}
use tcppump.Handler.{
  Env, World, find_from, or_own, parameter_or_own_mac, given, required, as_any, as_mac, stream,
}
use tcppump.Handler.Mac
use tcppump.Handler.Mac.{compile_mac_header, vlan_tags, compile_vlan_tags}
use tcppump.Handler.Eth.{compile_eth, compile_llc, compile_type}
use tcppump.Handler.Runs.{Runs, Reads, bind-Runs, pure-Runs, lift-Runs, required-Runs, given-Runs}

-- The parameters of the instruction, with the texts behind them.
abbrev pub plain : (ℕ → Bytes) → Bytes → Bytes → Bytes → Bytes → List Parameter
plain behind dmac smac ethertype payload =
    record { parameter = par_eth_dmac; value = dmac; behind = behind 0; index = 0 }
    ∷ record { parameter = par_eth_smac; value = smac; behind = behind 1; index = 1 }
    ∷ record { parameter = par_eth_ethertype; value = ethertype; behind = behind 2; index = 2 }
    ∷ record { parameter = par_eth_payload; value = payload; behind = behind 3; index = 3 }
    ∷ []

-- The list when so many parameters of it have been looked up, and the calls of the generator.
abbrev pub at_step : World → List Parameter → List Bool → ℕ → World
at_step w list used calls = record w {
  params = record { list = list; used = used };
  called = calls;
}

-- The texts of the values, and what is read of them, the source address first.
module _ (e : Env) (w : World) (behind : ℕ → Bytes) (d s t p dest src content : Bytes)
    (kind k k' : ℕ) where
  abbrev pub looked_up : List Bool → ℕ → World
  looked_up used calls = at_step w (plain behind d s t p) used calls

  abbrev before : World
  before = looked_up (false ∷ false ∷ false ∷ false ∷ []) w.called

  abbrev at_src : World
  at_src = looked_up (false ∷ true ∷ false ∷ false ∷ []) k

  abbrev at_dest : World
  at_dest = looked_up (true ∷ true ∷ false ∷ false ∷ []) k'

  abbrev at_payload : World
  at_payload = looked_up (true ∷ true ∷ false ∷ true ∷ []) k'

  abbrev after : World
  after = looked_up (true ∷ true ∷ true ∷ true ∷ []) k'

  module _ (reads_src : Reads (as_mac e) s w.called src k)
      (reads_dest : Reads (as_mac e) d k dest k') (reads_content : Reads (stream e) p k' content k')
      (reads_kind : Reads (as_any e 16) t k' kind k') (src_size : length src ≡ 6)
      (dest_size : length dest ≡ 6) (small : e.settings.my_mtu < 2 ^ 32)
      (allocated : e.settings.my_mtu + 18 ≤ length e.memory)
      (room : length content ≤ e.settings.my_mtu + 4) where
    new : Returns (new_packet (e.settings.my_mtu + 14 + 4) e.memory) (blank (drop 14 e.memory))
    new =
        new_packet-parts (e.settings.my_mtu + 14 + 4) e.memory (omega arith) (omega arith)
          (omega arith)

    addressed : EthernetPacket
    addressed = set_dest_mac (set_src_mac new.result src) dest

    addressed-parts :
        HasParts addressed (record (blank (drop 14 e.memory)) { dest = dest; src = src })
    unfolding addressed
    addressed-parts = set_dest_mac-parts (set_src_mac-parts new.parts src src_size) dest dest_size

    addressed-max : addressed.packet_max_length ≡ e.settings.my_mtu + 18
    unfolding addressed set_dest_mac set_src_mac
    addressed-max = new_packet-max (e.settings.my_mtu + 14 + 4) e.memory new.returned ∙ omega arith

    filled : Returns (set_payload addressed content) (record (blank []) {
      dest = dest;
      src = src;
      payload = content;
      slack = drop (length content) (drop 14 e.memory);
    })
    filled = set_payload-parts addressed-parts content (omega (arith, addressed-max))

    smac-run : Runs (parameter_or_own_mac e par_eth_smac) before src at_src
    unfolding find_parameter search_from same_text mark
    smac-run =
        bind-Runs _ (or_own e (as_mac e) e.settings.my_mac) record { run = refl }
          (record {
            run = (reads_src (looked_up (false ∷ true ∷ false ∷ false ∷ []) w.called) refl).run;
          })

    dmac-run :
        Runs
          (Mac.addressed e
            (set_src_mac new.result src)
            (some record { parameter = par_eth_dmac; value = d; behind = behind 0; index = 0 }))
          (looked_up (true ∷ true ∷ false ∷ false ∷ []) k)
          (addressed, true)
          at_dest
    unfolding addressed
    dmac-run =
        bind-Runs _ _ (reads_dest (looked_up (true ∷ true ∷ false ∷ false ∷ []) k) refl)
          (pure-Runs _ _)

    found_dmac :
        Runs
          (find_from none none par_eth_dmac false)
          at_src
          (some record { parameter = par_eth_dmac; value = d; behind = behind 0; index = 0 })
          (looked_up (true ∷ true ∷ false ∷ false ∷ []) k)
    unfolding find_parameter search_from same_text mark
    found_dmac = record { run = refl }

    mac-run : Runs (compile_mac_header e new.result false false) before (addressed, true) at_dest
    unfolding compile_mac_header
    mac-run = bind-Runs _ _ smac-run (bind-Runs _ _ found_dmac dmac-run)

    -- There are no tags and no LLC header.
    tags-run : Runs (compile_vlan_tags e addressed) at_dest addressed at_dest
    unfolding compile_vlan_tags vlan_tags find_parameter search_from same_text
    tags-run = record { run = refl }

    no_dsap : Runs (given par_eth_dsap (as_any e 8)) at_dest none at_dest
    unfolding find_parameter search_from same_text
    no_dsap = record { run = refl }

    llc-run : Runs (compile_llc e addressed none) at_dest addressed at_dest
    unfolding find_parameter search_from same_text
    llc-run = record { run = refl }

    payload-run : Runs (required par_eth_payload (stream e)) at_dest content at_payload
    unfolding find_parameter search_from same_text mark
    payload-run =
        required-Runs par_eth_payload (stream e) record { run = refl }
          (reads_content at_payload refl)

    kind-run : Runs (given par_eth_ethertype (as_any e 16)) at_payload (some kind) after
    unfolding find_parameter search_from same_text mark
    kind-run =
        given-Runs par_eth_ethertype (as_any e 16) record { run = refl } (reads_kind after refl)

    without_llc : (filled.result.llc_header_length == 0) ≡ true
    without_llc = rw filled.parts.llc_size refl

    type-run :
        Runs (compile_type e filled.result) at_payload (set_type_length filled.result kind) after
    type-run = rw without_llc (bind-Runs _ _ kind-run (pure-Runs _ _))

    eth-run : Runs (compile_eth e) before (set_type_length filled.result kind) after
    unfolding compile_eth
    eth-run = bind-Runs _ _ (lift-Runs before new.returned) (
        bind-Runs _ _ mac-run (
          bind-Runs _ _ tags-run (
            bind-Runs _ _ no_dsap (
              bind-Runs _ _ llc-run (
                bind-Runs _ _ payload-run
                  (bind-Runs _ _ (lift-Runs at_payload filled.returned) type-run))))))

    pub compile_eth-plain :
        (q : EthernetPacket) × Runs
          (compile_eth e)
          (at_step w (plain behind d s t p) (false ∷ false ∷ false ∷ false ∷ []) w.called)
          q
          (at_step w (plain behind d s t p) (true ∷ true ∷ true ∷ true ∷ []) k')
        × (frame q ≡ dest ++ (src ++ (be16 kind ++ content)))
    compile_eth-plain = (
      set_type_length filled.result kind,
      eth-run,
      frame-content (set_type_length-parts filled.parts kind),
    )

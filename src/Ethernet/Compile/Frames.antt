-- ===== src/Ethernet/Compile/Frames.antt =====
-- The frame that `compile_eth` builds, byte by byte, and the frames that it refuses.
use tcppump.Common.{
  ℕ, ◌+◌, ◌*◌, ◌^◌, ◌≤◌, ◌<◌, ◌≡◌, refl, ◌∙◌, arith, [], ◌∷◌, length, drop, Bytes, ok, err,
  ex_par_range, ◌>>=◌,
}
use tcppump.Ethernet.{
  EthernetPacket, frame, new_packet, set_mac_header, set_dest_mac, set_src_mac, set_payload,
}
use native.Mathlib.Decide.{dec_le}
use tcppump.Ethernet.Layout.{HasParts, frame-content}
use tcppump.Ethernet.Layout.Headers.{set_dest_mac-parts, set_src_mac-parts}
use tcppump.Ethernet.Layout.Payload.{
  Returns, set_payload-parts, set_payload-err, new_packet-parts, blank,
}
use tcppump.Ethernet.Compile.{EthParams, compile_vlan_tags, compile_llc, compile_type, compile_eth}
use tcppump.Ethernet.Compile.Tags.{
  compile_vlan_tags-Builds, compile_vlan_tags-err, length-tag_bytes,
}
use tcppump.Ethernet.Compile.Llc.{compile_llc-Builds, compile_llc-err, compile_type-parts}
use tcppump.Ethernet.Compile.Spec.{
  tag_bytes, llc_content, eth_content, eth_size, OuiFits, Builds, Builds-loose,
}

pub new_packet-max :
    (max : ℕ) (mem : Bytes) {p : EthernetPacket}
    → new_packet max mem ≡ ok p
    → p.packet_max_length ≡ max
unfolding new_packet
new_packet-max max mem e = ground arith

module _ (mtu : ℕ) (memory : Bytes) (e : EthParams) (dmac_size : length e.dmac ≡ 6)
    (smac_size : length e.smac ≡ 6) (small : mtu < 2 ^ 32)
    (allocated : mtu + 18 ≤ length memory) where
  new : Returns (new_packet (mtu + 14 + 4) memory) (blank (drop 14 memory))
  new = new_packet-parts (mtu + 14 + 4) memory (omega arith) (omega arith) (omega arith)

  addressed : EthernetPacket
  addressed = set_mac_header new.result e.smac e.dmac

  addressed-max : addressed.packet_max_length ≡ mtu + 18
  unfolding addressed set_mac_header set_dest_mac set_src_mac
  addressed-max = new_packet-max (mtu + 14 + 4) memory new.returned ∙ omega arith

  addressed-parts :
      HasParts addressed (record (blank (drop 14 memory)) { dest = e.dmac; src = e.smac })
  unfolding addressed set_mac_header
  addressed-parts =
      set_dest_mac-parts (set_src_mac-parts new.parts e.smac smac_size) e.dmac dmac_size

  -- `compile_eth` begins with the addressed packet.
  compile_eth-addressed : compile_eth mtu memory e ≡ (
      compile_vlan_tags e.tags addressed >>= λ t. compile_llc e.llc_params t >>= λ l.
      set_payload l e.payload >>= λ p. ok (compile_type e.ethertype p))
  unfolding compile_eth addressed
  compile_eth-addressed = rw new.returned

  tagged :
      14 + 4 * length e.tags ≤ mtu + 18
      → Builds addressed.packet_max_length
          (compile_vlan_tags e.tags addressed)
          (record (blank []) { dest = e.dmac; src = e.smac; tags = tag_bytes e.tags })
  tagged room =
      Builds-loose (0 ∷ 0 ∷ []) []
        (compile_vlan_tags-Builds e.tags addressed-parts refl (omega (arith, addressed-max)))

  tagged-max :
      (room : 14 + 4 * length e.tags ≤ mtu + 18) → (tagged room).result.packet_max_length ≡ mtu + 18
  tagged-max room = (tagged room).max_is ∙ addressed-max

  headed :
      OuiFits e.llc_params
      → (room : 14 + 4 * length e.tags ≤ mtu + 18)
      → 14 + 4 * length e.tags + length (llc_content e.llc_params) ≤ mtu + 18
      → Builds
          (tagged room).result.packet_max_length
          (compile_llc e.llc_params (tagged room).result)
          (record (blank []) {
            dest = e.dmac;
            src = e.smac;
            tags = tag_bytes e.tags;
            llc = llc_content e.llc_params;
          })
  headed oui room fits = Builds-loose (0 ∷ 0 ∷ []) [] (
      compile_llc-Builds (tagged room).parts refl e.llc_params oui
        (omega (arith, length-tag_bytes e.tags, tagged-max room)))

  -- Parameters whose frame fits the buffer give exactly the frame that they ask for: both addresses,
  -- the VLAN tags in their order, the type or length field, the LLC or SNAP header, and the payload.
  pub compile_eth-frame :
      OuiFits e.llc_params
      → eth_size e ≤ mtu + 18
      → (p : EthernetPacket) × (compile_eth mtu memory e ≡ ok p) × (frame p ≡ eth_content e)
  compile_eth-frame oui fits =
      let room : 14 + 4 * length e.tags ≤ mtu + 18 = omega arith in
      let tag = tagged room in
      let head = headed oui room (omega arith) in
      let fill =
        set_payload-parts head.parts e.payload
          (omega (arith, length-tag_bytes e.tags, tagged-max room, head.max_is)) in
      (
        compile_type e.ethertype fill.result,
        compile_eth-addressed ∙ rw (tag.returned, head.returned, fill.returned),
        frame-content (compile_type-parts e.ethertype fill.parts),
      )

  -- Parameters whose frame does not fit the buffer, which has room for the MTU and one VLAN tag, are
  -- refused as out of range.
  pub compile_eth-err :
      OuiFits e.llc_params
      → length e.payload < 2 ^ 63
      → mtu + 18 < eth_size e
      → compile_eth mtu memory e ≡ err ex_par_range
  compile_eth-err oui small_payload over =
      compile_eth-addressed ∙ elim (dec_le (14 + 4 * length e.tags) (mtu + 18)) [
        | no many ↦
            rw (compile_vlan_tags-err e.tags addressed-parts refl (omega (arith, addressed-max)))
        | yes room ↦
            rw (tagged room).returned
              (elim (dec_le (14 + 4 * length e.tags + length (llc_content e.llc_params))
                (mtu + 18)) [
                  | no long ↦ rw (
                      compile_llc-err (tagged room).parts refl e.llc_params
                        (omega (arith, length-tag_bytes e.tags, tagged-max room)))
                  | yes fits ↦
                      let head = headed oui room fits in
                      rw (
                        head.returned,
                        set_payload-err head.parts e.payload small_payload
                            (omega (arith, length-tag_bytes e.tags, tagged-max room, head.max_is)),
                      )
                ])
      ]

-- ===== src/Handler/Mac.antt =====
-- compileMacHeader and compileVLANTags of src/compiler/instructionparser.cpp on the parameter list.
use tcppump.Common.{
  ℕ, zero, suc, Bool, true, false, Option, none, some, ◌==◌, if◌then◌else◌, length, Bytes, err, bug,
}
use tcppump.Syntax.Link.{
  par_eth_smac, par_eth_dmac, par_eth_vid, par_eth_vtype, par_eth_prio, par_eth_dei,
}
use tcppump.Params.{Parameter}
use tcppump.Ethernet.{EthernetPacket, set_src_mac, set_dest_mac, add_vlan_tag}
use tcppump.Handler.{
  Env, Handler, ◌>>=◌, pure, lift, find_from, read_or, as_integer, as_mac, parameter_or_own_mac,
}

module _ (e : Env) where
  abbrev pub addressed : EthernetPacket → Option Parameter → Handler (EthernetPacket × Bool)
  addressed p none = pure (p, false)
  addressed p (some v) = do dest ← as_mac e v.value; pure (set_dest_mac p dest, true)

  -- The packet, and whether the destination address is set.
  unfoldable pub compile_mac_header : EthernetPacket → Bool → Bool → Handler (EthernetPacket × Bool)
  compile_mac_header packet no_destination dest_is_optional = do
    src ← parameter_or_own_mac e par_eth_smac
    let p = set_src_mac packet src
    if no_destination
        then pure (p, false)
        else (find_from none none par_eth_dmac dest_is_optional >>= addressed p)

  -- A parameter of the tag that `v` begins, which ends at the next one.
  abbrev pub of_tag : Parameter → Bytes → ℕ → (Bytes → Handler ℕ) → Handler ℕ
  of_tag v name default read =
      find_from (some v) (some par_eth_vid) name true >>= read_or read default

  abbrev pub add_tag : Parameter → EthernetPacket → Handler EthernetPacket
  add_tag v p = do
    vtype ← of_tag v par_eth_vtype 1 (as_integer e 8 1 2)
    vid ← as_integer e 16 0 0x0fff v.value
    prio ← of_tag v par_eth_prio 0 (as_integer e 8 0 7)
    dei ← of_tag v par_eth_dei 0 (as_integer e 8 0 1)
    lift (add_vlan_tag p (vtype == 1) vid prio dei)

  -- The loop, from behind the tag `start`; each round finds another parameter of the list.
  unfoldable pub vlan_tags : ℕ → Option Parameter → EthernetPacket → Handler EthernetPacket
  vlan_tags zero start p w = err bug
  vlan_tags (suc fuel) start p w =
      (find_from start none par_eth_vid true >>= λ found. elim found [
        | none ↦ pure p
        | some v ↦ add_tag v p >>= λ q. vlan_tags fuel (some v) q
      ])
        w

  unfoldable pub compile_vlan_tags : EthernetPacket → Handler EthernetPacket
  compile_vlan_tags p w = vlan_tags (suc (length w.params.list)) none p w

-- ===== src/Ethernet/Compile/Spec.antt =====
-- The frame that the parameters of an `eth` instruction ask for, byte by byte.
use tcppump.Common.{
  ℕ, ◌+◌, ◌*◌, ◌/◌, ◌%◌, ◌^◌, ◌<◌, ◌≡◌, List, [], ◌∷◌, ◌++◌, Option, none, some, length, Bytes,
  be16, Result, ok, if◌then◌else◌, ◌==◌,
}
use tcppump.Ethernet.{EthernetPacket, llc_bytes}
use tcppump.Ethernet.Tag.{vlan_bytes}
use tcppump.Ethernet.Layout.{Parts, HasParts}
use tcppump.Ethernet.Compile.{VlanParams, LlcParams, llc, snap, no_llc, EthParams}

-- The OUI is a value of three bytes.
abbrev pub OuiFits : LlcParams → Type 0
OuiFits (snap oui protocol) = oui < 2 ^ 24
OuiFits _ = Unit

abbrev pub tag_bytes : List VlanParams → Bytes
tag_bytes [] = []
tag_bytes (t ∷ ts) = vlan_bytes t.is_ctag t.vid t.prio t.dei ++ tag_bytes ts

-- The headers of IEEE 802.2: an LLC header, or LLC with SNAP, whose OUI has its highest byte first.
abbrev pub llc_content : LlcParams → Bytes
llc_content (llc dsap ssap control) = llc_bytes dsap ssap control
llc_content (snap oui protocol) =
    0xaa ∷ 0xaa ∷ 0x03 ∷ oui / 2 ^ 16 % 256 ∷ oui / 2 ^ 8 % 256 ∷ oui % 256 ∷ be16 protocol
llc_content no_llc = []

-- The type or length field, for an LLC part of `size` bytes in front of `payload` bytes.
abbrev pub type_content : Option ℕ → ℕ → ℕ → Bytes
type_content none size payload = be16 ((payload + size) % 2 ^ 16)
type_content (some kind) size payload =
    if size == 0 then be16 kind else be16 ((payload + size) % 2 ^ 16)

abbrev pub eth_content : EthParams → Bytes
eth_content e =
    let headers = llc_content e.llc_params in
    e.dmac
    ++ (e.smac
        ++ (tag_bytes e.tags
            ++ (type_content e.ethertype (length headers) (length e.payload)
                ++ (headers ++ e.payload))))

-- A call that returns a packet with these parts, but for the type field, which is set later, in front
-- of some slack, in a buffer of `max` bytes.
pub record Builds (max : ℕ) (r : Result EthernetPacket) (f : Parts) : Type 0 where
  pub result : EthernetPacket
  pub slack : Bytes
  pub kind : Bytes
  pub returned : r ≡ ok result
  pub max_is : result.packet_max_length ≡ max
  pub parts : HasParts result (record f { kind = kind; slack = slack })

-- The size of the frame that the parameters ask for.
abbrev pub eth_size : EthParams → ℕ
eth_size e = 14 + 4 * length e.tags + length (llc_content e.llc_params) + length e.payload

-- The type field and the slack of the parts do not matter to `Builds`.
pub Builds-loose :
    {max : ℕ} {r : Result EthernetPacket} {f : Parts} (kind slack : Bytes)
    → Builds max r f
    → Builds max r (record f { kind = kind; slack = slack })
Builds-loose kind slack b = record {
  result = b.result;
  slack = b.slack;
  kind = b.kind;
  returned = b.returned;
  max_is = b.max_is;
  parts = b.parts;
}

-- ===== src/Ethernet/Compile.antt =====
-- `compileMacHeader`, `compileVLANTags` and `compileETH` of src/compiler/instructionparser.cpp, on the
-- values that the lookups in the parameter list give.
pub mod Spec
pub mod Tags
pub mod Llc
pub mod Frames
use tcppump.Common.{
  ℕ, ◌+◌, Bool, true, false, ◌||◌, not, List, [], ◌∷◌, Option, none, some, ◌==◌, if◌then◌else◌,
  Bytes, Result, ok, ◌>>=◌,
}
use tcppump.Ethernet.{
  EthernetPacket, new_packet, set_mac_header, add_vlan_tag, add_llc_header, add_snap_header,
  set_payload, set_length, set_type_length, mac_header_size,
}

pub record VlanParams : Type 0 where
  pub is_ctag : Bool
  pub vid : ℕ
  pub prio : ℕ
  pub dei : ℕ

-- `dsap`, `ssap` and `control`, or `oui` and `protocol`, or neither.
pub data LlcParams : Type 0 where
  llc : ℕ → ℕ → ℕ → LlcParams
  snap : ℕ → ℕ → LlcParams
  no_llc : LlcParams

pub record EthParams : Type 0 where
  pub smac : Bytes
  pub dmac : Bytes
  pub tags : List VlanParams
  pub llc_params : LlcParams
  pub payload : Bytes
  pub ethertype : Option ℕ

unfoldable pub compile_vlan_tags : List VlanParams → EthernetPacket → Result EthernetPacket
compile_vlan_tags [] p = ok p
compile_vlan_tags (t ∷ ts) p = do
  q ← add_vlan_tag p t.is_ctag t.vid t.prio t.dei
  compile_vlan_tags ts q

unfoldable pub compile_llc : LlcParams → EthernetPacket → Result EthernetPacket
compile_llc (llc dsap ssap control) p = add_llc_header p dsap ssap control
compile_llc (snap oui protocol) p = add_snap_header p oui protocol
compile_llc no_llc p = ok p

-- The length field for frames with an LLC header or with no given type, else the type.
unfoldable pub compile_type : Option ℕ → EthernetPacket → EthernetPacket
compile_type none p = set_length p
compile_type (some kind) p =
    if not (p.llc_header_length == 0) then set_length p else set_type_length p kind

-- `mtu` is that of cSettings; the frame has room for one VLAN tag beside the MTU.
unfoldable pub compile_eth : ℕ → Bytes → EthParams → Result EthernetPacket
compile_eth mtu memory params = do
  eth ← new_packet (mtu + mac_header_size + 4) memory
  tagged ← compile_vlan_tags params.tags (set_mac_header eth params.smac params.dmac)
  headed ← compile_llc params.llc_params tagged
  filled ← set_payload headed params.payload
  ok (compile_type params.ethertype filled)

-- ===== src/Handler/Raw.antt =====
-- compileRAW of src/compiler/instructionparser.cpp.
use tcppump.Common.{
  ℕ, ◌+◌, ◌/◌, ◌%◌, ◌^◌, Bool, true, false, List, [], ◌∷◌, ◌++◌, Option, none, some, if◌then◌else◌,
  length, Bytes, be16, be32, le16, le32, ok,
}
use tcppump.Syntax.Link.{
  par_raw_byte, par_raw_be16, par_raw_be32, par_raw_be64, par_raw_le16, par_raw_le32, par_raw_le64,
  par_raw_ip4, par_raw_ip6, par_raw_mac, par_raw_stream,
}
use tcppump.Params.{Parameter}
use tcppump.Params.Find.{set_parameter_used}
use tcppump.Instruction.Keyword.{is_prefix}
use tcppump.Ethernet.{EthernetPacket, new_packet, mac_header_size, set_payload, set_raw}
use tcppump.Ethernet.Tlv.{be64}
use tcppump.Handler.{Env, Handler, ◌>>=◌, pure, lift, as_any, as_mac, as_ipv4, as_ipv6, stream}

abbrev pub le64 : ℕ → Bytes
le64 n = le32 (n % 2 ^ 32) ++ le32 (n / 2 ^ 32 % 2 ^ 32)

abbrev pub set_used : Parameter → Bool → Handler (Unit {0})
set_used v value w = ok (tt, record w { params = set_parameter_used w.params v value })

module _ (e : Env) where
  abbrev pub number : ℕ → (ℕ → Bytes) → Bytes → Handler Bytes
  number width encode v = as_any e width v >>= λ n. pure (encode n)

  -- The names in the order of the comparisons, with what reads their values.
  abbrev pub raw_values : List (Bytes × (Bytes → Handler Bytes))
  raw_values =
      (par_raw_byte, number 8 (λ n. n ∷ []))
      ∷ (par_raw_be16, number 16 be16)
      ∷ (par_raw_be32, number 32 be32)
      ∷ (par_raw_be64, number 64 be64)
      ∷ (par_raw_le16, number 16 le16)
      ∷ (par_raw_le32, number 32 le32)
      ∷ (par_raw_le64, number 64 le64)
      ∷ (par_raw_ip4, as_ipv4 e)
      ∷ (par_raw_ip6, as_ipv6 e)
      ∷ (par_raw_mac, as_mac e)
      ∷ (par_raw_stream, stream e)
      ∷ []

  abbrev pub reader_of :
      Bytes → List (Bytes × (Bytes → Handler Bytes)) → Option (Bytes → Handler Bytes)
  reader_of name [] = none
  reader_of name ((known, read) ∷ more) =
      let later = reader_of name more in if is_prefix name known then some read else later

  -- The parameter is taken for used first, and for unused again if its name is not known.
  abbrev pub raw_value : Parameter → Option (Bytes → Handler Bytes) → Handler Bytes
  raw_value v none = set_used v true >>= λ u. set_used v false >>= λ u'. pure []
  raw_value v (some read) = set_used v true >>= λ u. read v.value

  -- The loop over the parameters.
  unfoldable pub raw_payload : List Parameter → Handler Bytes
  raw_payload [] = pure []
  raw_payload (v ∷ vs) = do
    bytes ← raw_value v (reader_of v.parameter raw_values)
    rest ← raw_payload vs
    pure (bytes ++ rest)

  unfoldable pub compile_raw : Bool → Handler EthernetPacket
  compile_raw no_eth_header = do
    payload ← λ w. raw_payload w.params.list w
    eth ← lift (new_packet (length payload + mac_header_size) e.memory)
    lift (if no_eth_header then set_payload eth payload else set_raw eth payload)

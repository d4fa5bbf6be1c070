-- ===== src/Tests/Instructions.antt =====
-- Whole instructions (src/compiler/instructionparser.cpp), from their text to the frame.
use tcppump.Common.{ℕ, Bytes, Bool, ex_par_range, ◌≡◌, refl, arith, true, false, [], ◌∷◌, err, bug}
use tcppump.Text.{codes}
use tcppump.Address.Written.{hex2, any_hex}
use tcppump.Params.Values.Numerals.{hexadecimal, as_int-print}
use tcppump.Params.Values.Streams.{text}
use tcppump.Params.Values.{as_int}
use tcppump.Instruction.{Stamp, packets}
use tcppump.Instruction.Keyword.{Protocol, udp4, select-syntax}
use tcppump.Instruction.Written.{relative, untimed}
use tcppump.Ethernet.{EthernetPacket, frame}
use tcppump.Handler.{Env, Handler}
use tcppump.Handler.Compile.{Embedding, Linkable, ethernet, parse_instruction}
use tcppump.Handler.Texts.{EthText, IsEthText, used_up, frame_of, parse_instruction-eth}
use tcppump.Params.Find.{same_text}
use tcppump.Params.Written.{Value, word, Entry}
use tcppump.Handler.Keeps.Refused.{NoPackets, unknown-NoPackets}
use tcppump.Tests.Vectors.{test_env, start}

abbrev no_others : Env → Embedding → Bool → Protocol → Handler Linkable
no_others e emb no_eth p w = err bug

abbrev no_stamp : Stamp
no_stamp = record { has_timestamp = false; timestamp = 0; is_absolute = false }

abbrev written : EthText
written = record {
  blank = λ i. 32 ∷ [];
  dmac = (hex2 false 0 1, any_hex ∷ hex2 false 0 2 ∷ any_hex ∷ hex2 true 15 15 ∷ any_hex ∷ []);
  smac =
      (any_hex, hex2 false 1 1 ∷ hex2 false 2 2 ∷ hex2 false 3 3 ∷ hex2 false 4 4 ∷ any_hex ∷ []);
  ethertype = hexadecimal false false 8 (0 ∷ 0 ∷ []);
  payload = text (codes "abc");
}

written-IsEthText : IsEthText written
written-IsEthText = record {
  blank_is = λ i. (refl, tt);
  dmac_is = (refl, ground arith);
  smac_is = (refl, ground arith);
  ethertype_is = ground arith;
  ethertype_fits = omega arith;
  payload_is = tt;
  payload_text = ground arith;
}

parse_instruction-eth_example :
    (q : EthernetPacket) × (parse_instruction no_others test_env no_stamp
        (codes
          " +5:eth( dmac=01:*:02:*:FF:*, smac=*:11:22:33:44:*, ethertype=0x800, payload=\"abc\") ")
        start
      ≡ packets
          (ethernet q, used_up test_env start written (32 ∷ []))
          (record { has_timestamp = true; timestamp = 5; is_absolute = false }))
    × (frame q ≡ frame_of test_env start written)
parse_instruction-eth_example =
    parse_instruction-eth no_others test_env no_stamp start (32 ∷ []) (relative b'5' []) written
      (32 ∷ []) written-IsEthText (omega arith) (omega arith) (omega arith) (refl, tt) (refl, tt)
      refl

-- An integer that is not in the range of its parameter.
as_int-print_example : as_int 0 32 0 7 (codes "0x1F") ≡ err ex_par_range
as_int-print_example =
    as_int-print 0 32 0 7 (hexadecimal false true 1 (15 ∷ [])) (omega arith, (omega arith, tt))
      (omega arith) (omega arith)

-- The handler of `udp` does not know `ethertype`.
abbrev entry_of : Bytes → ℕ → Bytes → Value → Entry
entry_of before a others v = record { before = before; initial = a; others = others; given = v }

unknown-NoPackets_example : NoPackets (
    parse_instruction no_others test_env no_stamp
      (codes "udp(dip=1.2.3.4, ethertype=1, sport=7)")
      start)
unfolding same_text
unknown-NoPackets_example =
    unknown-NoPackets no_others test_env no_stamp start [] untimed b'u' (codes "dp") udp4
      (entry_of [] b'd' (codes "ip") (word b'1' (codes ".2.3.4"))
        ∷ entry_of (32 ∷ []) b'e' (codes "thertype") (word b'1' [])
        ∷ entry_of (32 ∷ []) b's' (codes "port") (word b'7' [])
        ∷ [])
      [] 1 (omega arith) tt tt refl (ground arith) (select-syntax udp4) (ground arith) refl
      (
        (refl, (refl, (refl, (refl, (refl, (refl, tt)))))),
        (refl, (refl, (refl, (refl, (refl, (refl, (refl, (refl, tt)))))))),
        (refl, (refl, (refl, (refl, tt)))),
      )

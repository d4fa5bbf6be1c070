-- ===== src/Handler/Texts.antt =====
-- Instructions `eth` as they are written, and the frames that they give.
use tcppump.Common.{
  zero, suc, ℕ, ◌+◌, ◌^◌, ◌≤◌, ◌<◌, ◌≡◌, refl, ap, ◌∙◌, arith, Bool, true, false, List, [], ◌∷◌,
  ◌++◌, ◌==◌, length, All, Bytes, be16, ok, err,
}
use tcppump.Text.{codes, is_space, skip_whitespaces, at}
use tcppump.Address.Written.{
  HexField, print_mac, read_mac, print_hex_field, length-values, hex_value,
}
use tcppump.Params.Find.{fresh, check_for_unused_parameters}
use tcppump.Params.Values.Numerals.{Numeral, IsNumeral, print_numeral, value_of}
use tcppump.Params.Values.Streams.{Stream, IsStream, print, content}
use tcppump.Params.Written.{Value, Entry, IsEntry, separator, print_from, parameters_from}
use tcppump.Instruction.{Stamp, packets, finish}
use tcppump.Instruction.Keyword.{Protocol, eth, select-syntax}
use tcppump.Instruction.Written.{Clock, print_clock, IsClock, stamp_of, parse-print}
use tcppump.Ethernet.{EthernetPacket, frame}
use tcppump.Handler.{Env, World, Handler, pure}
use tcppump.Handler.Runs.{Runs, bind-Runs, pure-Runs}
use tcppump.Handler.Reads.{as_mac-Reads, as_any-Reads, stream-Reads}
use tcppump.Handler.Eth.{compile_eth}
use tcppump.Params.{Parameter}
use tcppump.Handler.Frames.{plain, at_step, compile_eth-plain}
use tcppump.Handler.Compile.{
  Linkable, ethernet, Embedding, parse_instruction, handler_of, on_list, as_ethernet,
}
use tcppump.Handler.Compile
use tcppump.Handler.Words.{
  word_of, IsText, IsMac, stream_value, text_of-word_of, text_of-stream, word_value, mac-IsWord,
  numeral-IsWord, stream-IsValue,
}

-- An instruction with addresses, a type and data, and white space in front of each parameter.
pub record EthText : Type 0 where
  pub blank : ℕ → Bytes
  pub dmac : HexField × List HexField
  pub smac : HexField × List HexField
  pub ethertype : Numeral
  pub payload : Stream

abbrev pub entry : Bytes → ℕ → Bytes → Value → Entry
entry before a others v = record { before = before; initial = a; others = others; given = v }

abbrev pub entries : EthText → List Entry
entries t =
    entry (t.blank 0) b'd' (codes "mac") (word_of (print_mac t.dmac.0 t.dmac.1))
    ∷ entry (t.blank 1) b's' (codes "mac") (word_of (print_mac t.smac.0 t.smac.1))
    ∷ entry (t.blank 2) b'e' (codes "thertype") (word_of (print_numeral t.ethertype))
    ∷ entry (t.blank 3) b'p' (codes "ayload") (stream_value t.payload)
    ∷ []

-- The data is written in hex digits or between quotation marks.
pub record IsEthText (t : EthText) : Type 0 where
  pub blank_is : (i : ℕ) → All (λ c. is_space c ≡ true) (t.blank i)
  pub dmac_is : IsMac t.dmac
  pub smac_is : IsMac t.smac
  pub ethertype_is : IsNumeral t.ethertype
  pub ethertype_fits : value_of t.ethertype < 2 ^ 16
  pub payload_is : IsStream false t.payload
  pub payload_text : IsText t.payload

-- The text behind the value of an entry, to the end of the instruction.
abbrev pub text_behind : List Entry → Bytes → ℕ → Bytes
text_behind [] tail i = tail
text_behind (e ∷ es) tail zero = separator es (print_from es tail)
text_behind (e ∷ es) tail (suc i) = text_behind es tail i

-- What the values of the parameters are written as.
abbrev pub values_of : EthText → Bytes → List Parameter
values_of t tail =
    plain (text_behind (entries t) tail) (print_mac t.dmac.0 t.dmac.1) (print_mac t.smac.0 t.smac.1)
      (print_numeral t.ethertype) (print t.payload)

module _ (t : EthText) (h : IsEthText t) where
  entries-IsEntry : All IsEntry (entries t)
  entries-IsEntry = (
    (
      h.blank_is 0,
      refl,
      ground arith,
      word_value (print_mac t.dmac.0 t.dmac.1) (mac-IsWord t.dmac h.dmac_is),
    ),
    (
      (
        h.blank_is 1,
        refl,
        ground arith,
        word_value (print_mac t.smac.0 t.smac.1) (mac-IsWord t.smac h.smac_is),
      ),
      (
        (
          h.blank_is 2,
          refl,
          ground arith,
          word_value (print_numeral t.ethertype) (numeral-IsWord t.ethertype h.ethertype_is),
        ),
        (
          (h.blank_is 3, refl, ground arith, stream-IsValue t.payload h.payload_is h.payload_text),
          tt,
        ),
      ),
    ),
  )

  entries-values : (tail : Bytes) → parameters_from 0 (entries t) tail ≡ values_of t tail
  entries-values tail =
      rw
        (
          text_of-word_of (print_mac t.dmac.0 t.dmac.1) (mac-IsWord t.dmac h.dmac_is),
          text_of-word_of (print_mac t.smac.0 t.smac.1) (mac-IsWord t.smac h.smac_is),
          text_of-word_of (print_numeral t.ethertype) (numeral-IsWord t.ethertype h.ethertype_is),
          text_of-stream t.payload,
        )
        refl

-- The addresses that are written, the source address with the first random numbers.
abbrev pub source_of : Env → World → EthText → Bytes × ℕ
source_of e w t = read_mac e.random w.called (t.smac.0 ∷ t.smac.1)

abbrev pub destination_of : Env → World → EthText → Bytes × ℕ
destination_of e w t = read_mac e.random (source_of e w t).1 (t.dmac.0 ∷ t.dmac.1)

abbrev pub frame_of : Env → World → EthText → Bytes
frame_of e w t =
    (destination_of e w t).0
    ++ ((source_of e w t).0 ++ (be16 (value_of t.ethertype) ++ (content t.payload).0))

-- What the instruction leaves behind: all parameters are used.
abbrev pub used_up : Env → World → EthText → Bytes → World
used_up e w t tail =
    at_step w (values_of t tail) (true ∷ true ∷ true ∷ true ∷ []) (destination_of e w t).1

-- Both addresses have six bytes.
read_mac-length :
    (random : ℕ → ℕ) (k : ℕ) (m : HexField × List HexField)
    → IsMac m
    → length (read_mac random k (m.0 ∷ m.1)).0 ≡ 6
read_mac-length random k m h =
    length-values print_hex_field hex_value random k (m.0 ∷ m.1) ∙ omega (arith, h.0)

module _ (others : Env → Embedding → Bool → Protocol → Handler Linkable) (e : Env) (given : Stamp)
    (w : World) (before : Bytes) (c : Clock) (t : EthText) (tail : Bytes) where
  module _ (h : IsEthText t) (small : e.settings.my_mtu < 2 ^ 32)
      (allocated : e.settings.my_mtu + 18 ≤ length e.memory)
      (room : length (content t.payload).0 ≤ e.settings.my_mtu + 4) where
    -- The packet that the handler makes of the values, and the list behind it.
    made :
        (q : EthernetPacket) × Runs
          (compile_eth e)
          (record w { params = fresh (values_of t tail) })
          q
          (used_up e w t tail)
        × (frame q ≡ frame_of e w t)
    made =
        compile_eth-plain e w (text_behind (entries t) tail) (print_mac t.dmac.0 t.dmac.1)
          (print_mac t.smac.0 t.smac.1) (print_numeral t.ethertype) (print t.payload)
          (destination_of e w t).0 (source_of e w t).0 (content t.payload).0 (value_of t.ethertype)
          (source_of e w t).1 (destination_of e w t).1
          (as_mac-Reads e w.called t.smac.0 t.smac.1 h.smac_is.0 h.smac_is.1)
          (as_mac-Reads e (source_of e w t).1 t.dmac.0 t.dmac.1 h.dmac_is.0 h.dmac_is.1)
          (stream-Reads e (destination_of e w t).1 t.payload h.payload_is (omega arith))
          (as_any-Reads e (destination_of e w t).1 t.ethertype h.ethertype_is h.ethertype_fits)
          (read_mac-length e.random w.called t.smac h.smac_is)
          (read_mac-length e.random (source_of e w t).1 t.dmac h.dmac_is) small allocated room

    -- The stages of the parser, from the list of parameters on.
    listed :
        (emb : Embedding)
        → finish (stamp_of given c) (
            on_list w
              (handler_of others e emb false eth)
              (fresh (parameters_from 0 (entries t) tail)))
          ≡ packets (ethernet made.0, used_up e w t tail) (stamp_of given c)
    unfolding handler_of check_for_unused_parameters
    listed emb =
        ap (λ vs. finish (stamp_of given c) (on_list w (as_ethernet (compile_eth e)) (fresh vs)))
          (entries-values t h tail)
        ∙ ap
            (λ r.
              finish (stamp_of given c)
                (elim r [ err cause ↦ err cause | ok s ↦ ok (s, s.1.params) ]))
            (bind-Runs (compile_eth e) (λ p. pure (ethernet p)) made.1
              (pure-Runs (ethernet made.0) (used_up e w t tail))).run

    -- An `eth` instruction that is written with a time stamp or none, two addresses, a type and data,
    -- white space in front of all and behind the list, gives one packet, and the bytes of its frame are
    -- those that are written: both addresses, where random bytes take the next numbers of the generator,
    -- the source address first, the type, and the data, which fits the MTU and four bytes. The memory
    -- of the packet has been allocated.
    pub parse_instruction-eth :
        All (λ d. is_space d ≡ true) before
        → IsClock c
        → (at (skip_whitespaces tail) == 0) ≡ true
        → (q : EthernetPacket) × (parse_instruction others e given
              (before ++ print_clock c (b'e' ∷ (codes "th" ++ b'(' ∷ print_from (entries t) tail)))
              w
            ≡ packets (ethernet q, used_up e w t tail) (stamp_of given c))
          × (frame q ≡ frame_of e w t)
    unfolding parse_instruction Compile.instruction
    parse_instruction-eth blank clocked ended = (
      made.0,
      parse-print _ 0 false given before c b'e' (codes "th") eth (entries t) tail (omega arith)
            blank clocked refl (ground arith) (select-syntax eth) (entries-IsEntry t h) ended
          ∙ listed _,
      made.2,
    )

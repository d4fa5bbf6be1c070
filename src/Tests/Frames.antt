-- ===== src/Tests/Frames.antt =====
-- Ethernet frames (src/packets/ethernetpacket.cpp, src/compiler/instructionparser.cpp) on concrete data.
use tcppump.Common.{
  ◌++◌, ℕ, zero, suc, ◌%◌, ◌≡◌, ◌≢◌, refl, arith, true, false, [], ◌∷◌, Bytes, some, ok, err,
  ex_par_range, length, drop, write,
}
use tcppump.Ethernet.{EthernetPacket, frame, copy_packet, constructed, append_payload}
use tcppump.Ethernet.Tag.{tci, get_id, get_prio, get_dei, tci_read}
use tcppump.Ethernet.Layout.{Parts, HasParts, content}
use tcppump.Ethernet.Layout.Payload.{Returns, append_payload-parts}
use tcppump.Ethernet.Layout.Copy.{copy_packet-parts}
use tcppump.Ethernet.Arp.{set_all, null_mac, set_all-frame}
use tcppump.Ethernet.Compile.{EthParams, snap, compile_eth}
use tcppump.Ethernet.Compile.Spec.{eth_content}
use tcppump.Ethernet.Compile.Frames.{compile_eth-frame, compile_eth-err}

abbrev repeat : ℕ → ℕ → Bytes
repeat zero b = []
repeat (suc n) b = b ∷ repeat n b

abbrev params : EthParams
params = record {
  smac = 2 ∷ 0 ∷ 0 ∷ 0 ∷ 0 ∷ 1 ∷ [];
  dmac = 2 ∷ 0 ∷ 0 ∷ 0 ∷ 0 ∷ 2 ∷ [];
  tags =
      record { is_ctag = false; vid = 100; prio = 3; dei = 0 }
      ∷ record { is_ctag = true; vid = 2000; prio = 0; dei = 1 }
      ∷ [];
  llc_params = snap 0x00000c 0x2000;
  payload = 1 ∷ 2 ∷ 3 ∷ [];
  ethertype = some 0x0800;
}

compile_eth-frame_example :
    (p : EthernetPacket) × (compile_eth 40 (repeat 60 7) params ≡ ok p)
    × (frame p ≡ eth_content params)
compile_eth-frame_example =
    compile_eth-frame 40 (repeat 60 7) params refl refl (omega arith) (omega arith) (omega arith)
      (omega arith)

compile_eth-err_example : compile_eth 14 (repeat 60 7) params ≡ err ex_par_range
compile_eth-err_example =
    compile_eth-err 14 (repeat 60 7) params refl refl (omega arith) (omega arith) (omega arith)
      (omega arith) (omega arith)

tci_read_example :
    (get_id (tci 2000 5 1) ≡ 2000 % 1024)
    × (get_prio (tci 2000 5 1) ≡ 5)
    × (get_dei (tci 2000 5 1) ≡ 1)
tci_read_example = tci_read 2000 5 1 (omega arith) (omega arith) (omega arith)

-- An empty frame in a buffer of 60 bytes.
abbrev empty : EthernetPacket
empty = constructed 60 (repeat 60 7)

abbrev empty_parts : Parts
empty_parts = record {
  dest = repeat 6 0;
  src = repeat 6 0;
  tags = [];
  kind = repeat 2 0;
  llc = [];
  payload = [];
  slack = repeat 46 7;
}

empty-HasParts : HasParts empty empty_parts
unfolding write
empty-HasParts = record {
  in_memory = refl;
  dest_size = refl;
  src_size = refl;
  kind_size = refl;
  kind_at = refl;
  payload_at = refl;
  payload_size = refl;
  llc_size = refl;
  fits = omega arith;
  allocated = omega arith;
  addressable = omega arith;
}

copy_packet-parts_run : HasParts (copy_packet (repeat 80 9) empty) (record empty_parts {
  slack = drop (length (content empty_parts)) (constructed 60 (repeat 80 9)).packet;
})
copy_packet-parts_run = copy_packet-parts (repeat 80 9) empty-HasParts (omega arith)

append_payload-parts_example :
    Returns
      (append_payload empty (4 ∷ 5 ∷ []))
      (record empty_parts { payload = 4 ∷ 5 ∷ []; slack = drop 2 (repeat 46 7) })
append_payload-parts_example = append_payload-parts empty-HasParts (4 ∷ 5 ∷ []) (omega arith)

set_all-frame_example :
    (q : EthernetPacket) × (to : Bytes) × (set_all empty 1
        (repeat 6 2)
        (repeat 4 10)
        null_mac
        (repeat 4 11)
      ≡ ok q)
    × (frame q
        ≡ to
          ++ (repeat 6 2
              ++ (8
                  ∷ 6
                  ∷ 0
                  ∷ 1
                  ∷ 8
                  ∷ 0
                  ∷ 6
                  ∷ 4
                  ∷ 0
                  ∷ 1
                  ∷ (repeat 6 2 ++ (repeat 4 10 ++ (repeat 6 0 ++ repeat 4 11))))))
    × (null_mac ≡ repeat 6 0 → to ≡ repeat 6 0xff)
    × (null_mac ≢ repeat 6 0 → to ≡ null_mac)
set_all-frame_example =
    set_all-frame empty-HasParts 1 (repeat 6 2) (repeat 4 10) null_mac (repeat 4 11) refl refl
      (omega arith) refl refl refl refl

-- ===== src/Timing.antt =====
-- src/compiler/compiler.cpp: the delays before the packets of an input, from their time stamps, and
-- src/common/timeval.hpp, whose times are microseconds in 64 bits. What parses an input and sends the
-- packets is elsewhere; here an input is the list of its instructions.
pub mod Schedule
pub mod Scripts
use tcppump.Common.{
  ℕ, zero, suc, ◌+◌, ◌-◌, ◌*◌, ◌/◌, ◌%◌, ◌^◌, Bool, true, false, ◌||◌, not, List, [], ◌∷◌, ◌++◌,
  ltb, if◌then◌else◌,
}
use tcppump.Instruction.{Stamp}

-- A cTimeval is its value; `%` is the wrap-around of uint64_t.
abbrev pub time_mod : ℕ
time_mod = 2 ^ 64

unfoldable pub add_time : ℕ → ℕ → ℕ
add_time value val = (value + val) % time_mod

unfoldable pub sub_time : ℕ → ℕ → ℕ
sub_time value val = (value + time_mod - val) % time_mod

-- `result.timestamp * defaultDelayScale` as the argument of `setUs`.
unfoldable pub scaled : ℕ → ℕ → ℕ
scaled timestamp scale = (timestamp * scale) % time_mod

-- The delay of a packet, the time when it is sent, and whether the user has set one; `stopped` is
-- `BUG ("FIXME")`, which stops the program.
pub record Sent {ℓ} (Packet : Type ℓ) : Type ℓ where
  pub packet : Packet
  pub delay : ℕ

pub data Timed {ℓ} (Packet : Type ℓ) : Type ℓ where
  timed : List (Sent Packet) → Bool → ℕ → Timed Packet
  stopped : Timed Packet

pub record Compiler : Type 0 where
  pub default_delay : ℕ
  pub default_delay_scale : ℕ

-- The stamp of a packet without one, in `processPackets` and, through the file parser, in scripts.
abbrev pub stamped : Compiler → Stamp → Stamp
stamped c s =
    if s.has_timestamp
    then s
    else record s { timestamp = c.default_delay / c.default_delay_scale; is_absolute = false }

module _ {ℓ} {Packet : Type ℓ} where
  abbrev pub prepend : Packet → ℕ → Bool → Timed Packet → Timed Packet
  prepend packet delay user stopped = stopped
  prepend packet delay user (timed sent has_user_timestamps now) =
      timed (record { packet = packet; delay = delay } ∷ sent) (user || has_user_timestamps) now

  -- The loop over the instructions of a file that begins at `start`; `currtime` is the time when the
  -- last packet is sent. The packets of the command line are the file that begins at 0.
  unfoldable pub process : Compiler → ℕ → ℕ → List (Stamp × Packet) → Timed Packet
  process c start currtime [] = timed [] false currtime
  process c start currtime (i ∷ instructions) =
      let s = stamped c i.0 in
      let timestamp = scaled s.timestamp c.default_delay_scale in
      let target = add_time timestamp start in
      let relative =
        prepend i.1 timestamp i.0.has_timestamp
          (process c start (add_time currtime timestamp) instructions) in
      let absolute =
        prepend i.1 (sub_time target currtime) i.0.has_timestamp
          (process c start target instructions) in
      if not s.is_absolute then relative else if ltb target currtime then stopped else absolute

  -- The packets that were added before.
  abbrev pub joined : List (Sent Packet) → Bool → Timed Packet → Timed Packet
  joined sent user stopped = stopped
  joined sent user (timed later others end) = timed (sent ++ later) (user || others) end

  abbrev pub followed : Timed Packet → (ℕ → Timed Packet) → Timed Packet
  followed stopped rest = stopped
  followed (timed sent user now) rest = joined sent user (rest now)

  unfoldable pub process_packets : Compiler → List (Stamp × Packet) → Timed Packet
  process_packets c instructions = process c 0 0 instructions

  -- Every script begins when the last packet of the one before it is sent.
  unfoldable pub process_from : Compiler → ℕ → List (List (Stamp × Packet)) → Timed Packet
  process_from c currtime [] = timed [] false currtime
  process_from c currtime (file ∷ files) =
      followed (process c currtime currtime file) (λ now. process_from c now files)

  unfoldable pub process_script_files : Compiler → List (List (Stamp × Packet)) → Timed Packet
  process_script_files c files = process_from c 0 files

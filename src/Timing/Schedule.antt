-- ===== src/Timing/Schedule.antt =====
-- The delays before the packets put every packet at the time that the input says.
use tcppump.Common.{
  ℕ, ◌+◌, ◌*◌, ◌≤◌, ◌<◌, ◌≡◌, refl, ap, ◌∙◌, arith, Bool, true, false, Bool-cases, ◌&&◌, not, List,
  [], ◌∷◌, Option, none, some, ltb, leb, if◌then◌else◌, All, inl, inr,
}
use native.Mathlib.Nat.{add_comm}
use tcppump.Instruction.{Stamp}
use tcppump.Timing.{
  time_mod, add_time, sub_time, scaled, Sent, Timed, timed, stopped, Compiler, stamped, prepend,
  process,
}

-- When an instruction is due: at a time of its file, or so long after the one before it.
abbrev pub due_at : Compiler → ℕ → ℕ → Bool → ℕ → ℕ
due_at c start now true timestamp = start + timestamp * c.default_delay_scale
due_at c start now false timestamp = now + timestamp * c.default_delay_scale

abbrev pub due : Compiler → ℕ → ℕ → Stamp → ℕ
due c start now s = due_at c start now s.is_absolute s.timestamp

scaled_lem : (n scale : ℕ) → n * scale < time_mod → scaled n scale ≡ n * scale
unfolding scaled
scaled_lem n scale h = omega arith

add_time_lem : (a b : ℕ) → a + b < time_mod → add_time a b ≡ a + b
unfolding add_time
add_time_lem a b h = omega arith

sub_time_lem : (a b : ℕ) → b ≤ a → a < time_mod → b + sub_time a b ≡ a
unfolding sub_time
sub_time_lem a b h k = omega arith

module _ {ℓ} {Packet : Type ℓ} where
  abbrev pub plan : Compiler → ℕ → ℕ → List (Stamp × Packet) → List (Packet × ℕ)
  plan c start now [] = []
  plan c start now (i ∷ instructions) =
      (i.1, due c start now (stamped c i.0))
      ∷ plan c start (due c start now (stamped c i.0)) instructions

  -- The times at which packets are sent from `now` on: each after its delay.
  abbrev pub departures : ℕ → List (Sent Packet) → List (Packet × ℕ)
  departures now [] = []
  departures now (s ∷ sent) = (s.packet, now + s.delay) ∷ departures (now + s.delay) sent

  abbrev pub is_ordered : ℕ → List (Packet × ℕ) → Bool
  is_ordered now [] = true
  is_ordered now (d ∷ times) = leb now d.1 && is_ordered d.1 times

  abbrev pub last_time : ℕ → List (Packet × ℕ) → ℕ
  last_time now [] = now
  last_time now (d ∷ times) = last_time d.1 times

  abbrev pub Fits : ℕ → List (Packet × ℕ) → Type 0
  Fits now times = (now < time_mod) × All (λ d. d.1 < time_mod) times

  -- What is sent and when, and the time of the last; none if the program stops.
  abbrev pub outcome : ℕ → Timed Packet → Option (List (Packet × ℕ) × ℕ)
  outcome now stopped = none
  outcome now (timed sent user end) = some (departures now sent, end)

  abbrev pub as_planned : ℕ → List (Packet × ℕ) → Option (List (Packet × ℕ) × ℕ)
  as_planned now times = if is_ordered now times then some (times, last_time now times) else none

  abbrev cons_outcome : Packet × ℕ → Option (List (Packet × ℕ) × ℕ) → Option (List (Packet × ℕ) × ℕ)
  cons_outcome d none = none
  cons_outcome d (some r) = some (d ∷ r.0, r.1)

  outcome-prepend :
      (now : ℕ) (packet : Packet) (delay : ℕ) (user : Bool) (r : Timed Packet)
      → outcome now (prepend packet delay user r)
        ≡ cons_outcome (packet, now + delay) (outcome (now + delay) r)
  outcome-prepend now packet delay user stopped = refl
  outcome-prepend now packet delay user (timed sent others end) = refl

  cons_outcome-planned :
      (now : ℕ) (d : Packet × ℕ) (times : List (Packet × ℕ))
      → now ≤ d.1
      → cons_outcome d (as_planned d.1 times) ≡ as_planned now (d ∷ times)
  cons_outcome-planned now d times h = ground arith

  late :
      (now : ℕ) (d : Packet × ℕ) (times : List (Packet × ℕ))
      → d.1 < now
      → none ≡ as_planned now (d ∷ times)
  late now d times h = ground arith

  -- A packet that goes out after a delay, and what follows.
  on_time :
      (now delay : ℕ) (packet : Packet) (user : Bool) (r : Timed Packet) (d : ℕ)
      (times : List (Packet × ℕ))
      → now + delay ≡ d
      → outcome d r ≡ as_planned d times
      → outcome now (prepend packet delay user r) ≡ as_planned now ((packet, d) ∷ times)
  on_time now delay packet user r d times e h =
      outcome-prepend now packet delay user r
      ∙ ap (λ m. cons_outcome (packet, m) (outcome m r)) e
      ∙ ap (cons_outcome (packet, d)) h
      ∙ cons_outcome-planned now (packet, d) times (omega arith)

  -- A round of the loop.
  abbrev round : Compiler → ℕ → ℕ → Bool → Bool → ℕ → Packet → (ℕ → Timed Packet) → Timed Packet
  round c start now user is_absolute n packet rest =
      let timestamp = scaled n c.default_delay_scale in
      let target = add_time timestamp start in
      if not is_absolute
      then prepend packet timestamp user (rest (add_time now timestamp))
      else if ltb target now
      then stopped
      else prepend packet (sub_time target now) user (rest target)

  absolute_lem :
      (now target : ℕ) (user : Bool) (packet : Packet) (r : Timed Packet)
      (times : List (Packet × ℕ))
      → target < time_mod
      → outcome target r ≡ as_planned target times
      → outcome now
          (if ltb target now then stopped else prepend packet (sub_time target now) user r)
        ≡ as_planned now ((packet, target) ∷ times)
  absolute_lem now target user packet r times fits h = elim (Bool-cases (ltb target now)) [
    | inl k ↦ rw k (late now (packet, target) times (ground arith))
    | inr k ↦ rw k (
        on_time now (sub_time target now) packet user r target times
          (sub_time_lem target now (ground arith) fits) h)
  ]

  round_lem :
      (c : Compiler) (start now : ℕ) (user is_absolute : Bool) (n : ℕ) (packet : Packet)
      (rest : ℕ → Timed Packet) (times : List (Packet × ℕ))
      → now < time_mod
      → due_at c start now is_absolute n < time_mod
      → outcome (due_at c start now is_absolute n) (rest (due_at c start now is_absolute n))
        ≡ as_planned (due_at c start now is_absolute n) times
      → outcome now (round c start now user is_absolute n packet rest)
        ≡ as_planned now ((packet, due_at c start now is_absolute n) ∷ times)
  round_lem c start now user true n packet rest times fits due_fits h =
      rw
        (
          scaled_lem n c.default_delay_scale (omega arith),
          add_time_lem (n * c.default_delay_scale) start (omega arith),
          add_comm (n * c.default_delay_scale) start,
        )
        (absolute_lem now (start + n * c.default_delay_scale) user packet
          (rest (start + n * c.default_delay_scale)) times due_fits h)
  round_lem c start now user false n packet rest times fits due_fits h =
      rw
        (
          scaled_lem n c.default_delay_scale (omega arith),
          add_time_lem now (n * c.default_delay_scale) (omega arith),
        )
        (on_time now (n * c.default_delay_scale) packet user
          (rest (now + n * c.default_delay_scale)) (now + n * c.default_delay_scale) times refl h)

  -- While no time passes 2^64 microseconds, the delays put every packet at the time that is planned for
  -- it, in the order of the input; if a packet is planned before the one in front of it, the program
  -- stops.
  pub process_lem :
      (c : Compiler) (start now : ℕ) (instructions : List (Stamp × Packet))
      → Fits now (plan c start now instructions)
      → outcome now (process c start now instructions)
        ≡ as_planned now (plan c start now instructions)
  unfolding process
  process_lem c start now [] fits = refl
  process_lem c start now (i ∷ instructions) fits =
      let s = stamped c i.0 in
      round_lem c start now i.0.has_timestamp s.is_absolute s.timestamp i.1
        (λ t. process c start t instructions) (plan c start (due c start now s) instructions) fits.0
        fits.1.0 (process_lem c start (due c start now s) instructions (fits.1.0, fits.1.1))

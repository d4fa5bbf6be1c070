-- ===== src/Timing/Scripts.antt =====
-- Several scripts one after the other, and the packets of the command line.
use tcppump.Common.{
  ℕ, ◌+◌, ◌<◌, ◌≡◌, refl, ap, ap₂, ◌∙◌, arith, Bool, true, false, ◌&&◌, List, [], ◌∷◌, ◌++◌, none,
  some, if◌then◌else◌,
}
use tcppump.Instruction.{Stamp}
use tcppump.Timing.{
  time_mod, Sent, Timed, timed, stopped, Compiler, process, followed, joined, process_from,
  process_script_files, process_packets,
}
use tcppump.Timing.Schedule.{
  plan, departures, is_ordered, last_time, Fits, outcome, as_planned, process_lem,
}

is_some {ℓ} :
    {A : Type ℓ} (b : Bool) (x y : A) → some x ≡ (if b then some y else none) → (b ≡ true) × (x ≡ y)
is_some true x y h = (refl, cc)
is_some false x y h = absurd cc

is_none {ℓ} : {A : Type ℓ} (b : Bool) (y : A) → none ≡ (if b then some y else none) → b ≡ false
is_none true y h = absurd cc
is_none false y h = refl

module _ {ℓ} {Packet : Type ℓ} where
  is_ordered-append :
      (now : ℕ) (p q : List (Packet × ℕ))
      → is_ordered now (p ++ q) ≡ (is_ordered now p && is_ordered (last_time now p) q)
  is_ordered-append now [] q = refl
  is_ordered-append now (d ∷ p) q = ground (arith, is_ordered-append d.1 p q)

  last_time-append :
      (now : ℕ) (p q : List (Packet × ℕ)) → last_time now (p ++ q) ≡ last_time (last_time now p) q
  last_time-append now [] q = refl
  last_time-append now (d ∷ p) q = last_time-append d.1 p q

  departures-append :
      (now : ℕ) (sent later : List (Sent Packet))
      → departures now (sent ++ later)
        ≡ departures now sent ++ departures (last_time now (departures now sent)) later
  departures-append now [] later = refl
  departures-append now (s ∷ sent) later =
      ap (λ ds. (s.packet, now + s.delay) ∷ ds) (departures-append (now + s.delay) sent later)

  as_planned-append :
      (now : ℕ) (p q : List (Packet × ℕ))
      → as_planned now (p ++ q) ≡ (
          if is_ordered now p && is_ordered (last_time now p) q
          then some (p ++ q, last_time (last_time now p) q)
          else none)
  as_planned-append now p q =
      ap₂ (λ b t. if b then some (p ++ q, t) else none) (is_ordered-append now p q)
        (last_time-append now p q)

  -- Every script begins when the last packet of the one before it is due.
  abbrev pub plan_files : Compiler → ℕ → List (List (Stamp × Packet)) → List (Packet × ℕ)
  plan_files c now [] = []
  plan_files c now (file ∷ files) =
      let times = plan c now now file in times ++ plan_files c (last_time now times) files

  joined_lem :
      (now : ℕ) (sent : List (Sent Packet)) (user : Bool) (r : Timed Packet)
      (p q : List (Packet × ℕ))
      → departures now sent ≡ p
      → is_ordered now p ≡ true
      → outcome (last_time now p) r ≡ as_planned (last_time now p) q
      → outcome now (joined sent user r) ≡ as_planned now (p ++ q)
  joined_lem now sent user stopped p q e o h =
      rw
        (
          as_planned-append now p q,
          o,
          is_none (is_ordered (last_time now p) q) (q, last_time (last_time now p) q) h,
        )
        refl
  joined_lem now sent user (timed later others end) p q e o h =
      let k =
        is_some (is_ordered (last_time now p) q) (departures (last_time now p) later, end)
          (q, last_time (last_time now p) q) h in
      rw (as_planned-append now p q, o, k.0)
        (ap some (
          ap₂ (λ a b. (a, b))
            (departures-append now sent later
              ∙ ap₂ (λ a b. a ++ b) e
                  (ap (λ d. departures (last_time now d) later) e ∙ ap (λ r. r.0) k.1))
            (ap (λ r. r.1) k.1)))

  followed_lem :
      (now : ℕ) (r : Timed Packet) (rest : ℕ → Timed Packet) (p q : List (Packet × ℕ))
      → outcome now r ≡ as_planned now p
      → outcome (last_time now p) (rest (last_time now p)) ≡ as_planned (last_time now p) q
      → outcome now (followed r rest) ≡ as_planned now (p ++ q)
  followed_lem now stopped rest p q h k =
      rw (as_planned-append now p q, is_none (is_ordered now p) (p, last_time now p) h) refl
  followed_lem now (timed sent user end) rest p q h k =
      let s = is_some (is_ordered now p) (departures now sent, end) (p, last_time now p) h in
      joined_lem now sent user (rest end) p q (ap (λ r. r.0) s.1) s.0
        (ap (λ t. outcome (last_time now p) (rest t)) (ap (λ r. r.1) s.1) ∙ k)

  -- Every time in every script is below 2^64 microseconds.
  abbrev pub FilesFit : Compiler → ℕ → List (List (Stamp × Packet)) → Type 0
  FilesFit c now [] = now < time_mod
  FilesFit c now (file ∷ files) =
      Fits now (plan c now now file) × FilesFit c (last_time now (plan c now now file)) files

  process_from_lem :
      (c : Compiler) (now : ℕ) (files : List (List (Stamp × Packet)))
      → FilesFit c now files
      → outcome now (process_from c now files) ≡ as_planned now (plan_files c now files)
  unfolding process_from
  process_from_lem c now [] h = refl
  process_from_lem c now (file ∷ files) h =
      followed_lem now (process c now now file) (λ t. process_from c t files) (plan c now now file)
        (plan_files c (last_time now (plan c now now file)) files) (process_lem c now now file h.0)
        (process_from_lem c (last_time now (plan c now now file)) files h.1)

  -- The packets of a list of scripts are sent at the times that the scripts say, each script beginning
  -- when the last packet of the one before it is due, in the order of the scripts and of the
  -- instructions in them; if a packet is due before the one in front of it, the program stops. No time
  -- passes 2^64 microseconds.
  pub process_script_files-planned :
      (c : Compiler) (files : List (List (Stamp × Packet)))
      → FilesFit c 0 files
      → outcome 0 (process_script_files c files) ≡ as_planned 0 (plan_files c 0 files)
  unfolding process_script_files
  process_script_files-planned c files h = process_from_lem c 0 files h

  -- The packets of the command line are sent at the times that their stamps say, in their order; if
  -- one is due before the one in front of it, the program stops. No time passes 2^64 microseconds.
  pub process_packets-planned :
      (c : Compiler) (instructions : List (Stamp × Packet))
      → Fits 0 (plan c 0 0 instructions)
      → outcome 0 (process_packets c instructions) ≡ as_planned 0 (plan c 0 0 instructions)
  unfolding process_packets
  process_packets-planned c instructions h = process_lem c 0 0 instructions h

-- ===== src/Handler/Keeps/Refused.antt =====
-- Instructions with a parameter that their protocol does not know give no packets.
use tcppump.Common.{
  ℕ, zero, suc, ◌+◌, ◌<◌, ◌≡◌, refl, sym, subst, arith, Bool, true, false, List, [], ◌∷◌, ◌++◌,
  some, length, ◌==◌, All, Bytes, Result, err, ok, Error, ex_par_unknown, ex_par_range,
  ex_par_format, ex_par_unused, other_exception, bug,
}
use tcppump.Text.{is_space, is_alpha, is_key, skip_whitespaces, at}
use tcppump.Params.{Parameter}
use tcppump.Params.Find.{ParameterList, fresh, check_for_unused_parameters}
use tcppump.Params.Unused.{Unmarked, Unmarked-unused}
use tcppump.Params.Written.{Entry, IsEntry, print_from, parameters_from}
use tcppump.Instruction.{Stamp, Outcome, packets, refused, stopped, message_of, finish, checked}
use tcppump.Instruction.Keyword.{Protocol, select}
use tcppump.Instruction.Written.{Clock, print_clock, IsClock, stamp_of, parse-print}
use tcppump.Handler.{Env, World, Handler}
use tcppump.Handler.Compile
use tcppump.Handler.Compile.{Linkable, Embedding, on_list, handler_of, parse_instruction}
use tcppump.Handler.Keeps.{StillWaits, Keeps}
use tcppump.Handler.Keeps.Whole.{IsUnknown, embedded-Keeps, handler_of-Keeps}

-- A ParseException, or the end of the program.
abbrev pub NoPackets : {A : Type 0} → Outcome A → Type 0
NoPackets (packets made stamp) = ⊥
NoPackets (refused m) = Unit
NoPackets stopped = Unit

message-NoPackets : (A : Type 0) (cause : Error) → NoPackets {A = A} (message_of cause)
message-NoPackets A ex_par_unknown = tt
message-NoPackets A ex_par_range = tt
message-NoPackets A ex_par_format = tt
message-NoPackets A ex_par_unused = tt
message-NoPackets A other_exception = tt
message-NoPackets A bug = tt

fresh-Unmarked : (vs : List Parameter) (k : ℕ) → k < length vs → Unmarked k (fresh vs).used
fresh-Unmarked [] k h = absurd (omega arith)
fresh-Unmarked (v ∷ vs) zero h = refl
fresh-Unmarked (v ∷ vs) (suc k) h = fresh-Unmarked vs k (omega arith)

length-parameters :
    (n : ℕ) (es : List Entry) (tail : Bytes) → length (parameters_from n es tail) ≡ length es
length-parameters n [] tail = refl
length-parameters n (e ∷ es) tail = rw (length-parameters (n + 1) es tail) refl

module _ (k : ℕ) (list : List Parameter) where
  checked-NoPackets :
      {A : Type 0} (stamp : Stamp) (made : A) (l : ParameterList)
      → Unmarked k l.used
      → NoPackets (checked stamp made (check_for_unused_parameters l))
  unfolding check_for_unused_parameters
  checked-NoPackets stamp made l h = rw (Unmarked-unused k l.used h) tt

  finish-NoPackets :
      (stamp : Stamp) (r : Result (Linkable × World))
      → StillWaits k list r
      → NoPackets (finish stamp (elim r [ err cause ↦ err cause | ok s ↦ ok (s, s.1.params) ]))
  finish-NoPackets stamp (err cause) h = message-NoPackets (Linkable × World) cause
  finish-NoPackets stamp (ok r) h = checked-NoPackets stamp r r.1.params h.1

  on_list-NoPackets :
      (stamp : Stamp) (w : World) (m : Handler Linkable)
      → k < length list
      → Keeps k list m
      → NoPackets (finish stamp (on_list w m (fresh list)))
  on_list-NoPackets stamp w m h keeps =
      finish-NoPackets stamp (m (record w { params = fresh list }))
        (keeps.keeps (record w { params = fresh list }) (refl, fresh-Unmarked list k h))

module _ (others : Env → Embedding → Bool → Protocol → Handler Linkable) (e : Env) (given : Stamp)
    (w : World) (before : Bytes) (c : Clock) (a : ℕ) (keyword : Bytes) (p : Protocol)
    (es : List Entry) (tail : Bytes) (k : ℕ) where
  -- An instruction of a protocol but raw, STP, IGMP, LLDP and those over IPv6 other than IPv6 itself,
  -- in which one of the parameters has none of the names that the handler of the protocol looks up,
  -- gives no packets, whatever the other parameters, the values and the settings are.
  pub unknown-NoPackets :
      k < length es
      → All (λ d. is_space d ≡ true) before
      → IsClock c
      → is_alpha a ≡ true
      → All (λ d. is_key d ≡ true) keyword
      → select (a ∷ keyword) ≡ some p
      → All IsEntry es
      → (at (skip_whitespaces tail) == 0) ≡ true
      → IsUnknown k (parameters_from 0 es tail) e p
      → NoPackets (
          parse_instruction others e given
            (before ++ print_clock c (a ∷ (keyword ++ b'(' ∷ print_from es tail)))
            w)
  unfolding parse_instruction Compile.instruction
  unknown-NoPackets there blank clocked al key selected written ended unknown =
      subst NoPackets
        (sym (
          parse-print _ 0 false given before c a keyword p es tail (omega arith) blank clocked al
            key selected written ended))
        (on_list-NoPackets k (parameters_from 0 es tail) (stamp_of given c) w _
          (omega (arith, length-parameters 0 es tail))
          (handler_of-Keeps k (parameters_from 0 es tail) e others _
            (embedded-Keeps k (parameters_from 0 es tail) e (λ no_eth inner v.
              Compile.instruction others 7 (Compile.embedded_env e) true no_eth Compile.unstamped
                inner v))
            false p unknown))

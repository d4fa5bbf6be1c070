-- ===== src/Handler.antt =====
-- What the handlers of src/compiler/instructionparser.cpp have in common: the parameter list that they
-- mark, the settings of src/common/settings.cpp, the calls of the random generator and the static
-- counters, and the lookups with the values of src/compiler/parameterlist.cpp. Where the order of the
-- evaluation of arguments is left open, it is the written one.
pub mod Mac
pub mod Eth
pub mod Raw
pub mod Ip
pub mod Udp
pub mod Tcp
pub mod Icmp
pub mod Compile
pub mod Runs
pub mod Reads
pub mod Keeps
pub mod Words
pub mod Texts
pub mod Frames
use tcppump.Common.{
  ℕ, ◌+◌, ◌-◌, ◌%◌, ◌^◌, Bool, true, false, not, Option, none, some, ◌==◌, if◌then◌else◌, length,
  drop, Bytes, ex_par_format, other_exception, Result, err, ok,
}
use tcppump.Text.{at}
use tcppump.Address.{calls, set_mac, set_ipv4, set_ipv6, random_ipv6}
use tcppump.Params.{Parameter}
use tcppump.Params.Find.{ParameterList, find_parameter}
use tcppump.Params.Values.{as_int, as_stream}

-- The addresses of the interface, where there are any, and the MTU.
pub record Settings : Type 0 where
  pub my_mac : Option Bytes
  pub my_ipv4 : Option Bytes
  pub my_ipv6 : Option Bytes
  pub my_mtu : ℕ

-- What surrounds a handler. `memory` is what `new` returns for the first packet, and `fresh` for its
-- copies; `random` and `random_bytes` are what the calls of the generator give; `is_odd` tells where the
-- bytes of a value lie; `inet_pton` is the function of the system.
pub record Env : Type 0 where
  pub settings : Settings
  pub ip_optional_dest_mac : Bool
  pub memory : Bytes
  pub fresh : ℕ → Bytes
  pub random : ℕ → ℕ
  pub random_bytes : ℕ → ℕ → Bytes
  pub is_odd : Bytes → Bool
  pub inet_pton : Bytes → Option Bytes

-- What handlers change: the marks of the list, the number of calls of the generator, the identification
-- of the next fragmented datagram, and the next sequence number of TCP.
pub record World : Type 0 where
  pub params : ParameterList
  pub called : ℕ
  pub next_id : ℕ
  pub sequence : ℕ

abbrev pub Handler : Type 0 → Type 0
Handler A = World → Result (A × World)

infixl 5 ◌>>=◌
abbrev pub ◌>>=◌ : {A B : Type 0} → Handler A → (A → Handler B) → Handler B
◌>>=◌ m f w = elim (m w) [ err cause ↦ err cause | ok r ↦ f r.0 r.1 ]

abbrev pub pure : {A : Type 0} → A → Handler A
pure a w = ok (a, w)

abbrev pub lift : {A : Type 0} → Result A → Handler A
lift (err cause) w = err cause
lift (ok a) w = ok (a, w)

abbrev pub with_list : {A : Type 0} → World → Result (A × ParameterList) → Result (A × World)
with_list w (err cause) = err cause
with_list w (ok r) = ok (r.0, record w { params = r.1 })

-- `findParameter`, as far as it looks from behind a parameter to one with the name `stop`.
abbrev pub find_from : Option Parameter → Option Bytes → Bytes → Bool → Handler (Option Parameter)
find_from start stop name is_optional w =
    with_list w (find_parameter w.params start stop name is_optional)

abbrev pub find_optional : Bytes → Handler (Option Parameter)
find_optional name = find_from none none name true

-- A value that takes a number of the generator where it is random.
abbrev pub draw : {A : Type 0} → Bytes → Result A → Handler A
draw v (err cause) w = err cause
draw v (ok a) w = ok (a, record w { called = w.called + calls v })

abbrev pub largest : ℕ → ℕ
largest width = 2 ^ width - 1

-- The value of a parameter that has to be there.
abbrev pub read_found : {A : Type 0} → (Bytes → Handler A) → Option Parameter → Handler A
read_found read none w = err other_exception
read_found read (some v) w = read v.value w

abbrev pub required : {A : Type 0} → Bytes → (Bytes → Handler A) → Handler A
required name read = find_from none none name false >>= read_found read

-- The value of a parameter, or a default, which is not compared with a range.
abbrev pub read_or : {A : Type 0} → (Bytes → Handler A) → A → Option Parameter → Handler A
read_or read default none w = ok (default, w)
read_or read default (some v) w = read v.value w

abbrev pub given_or : {A : Type 0} → Bytes → A → (Bytes → Handler A) → Handler A
given_or name default read = find_optional name >>= read_or read default

-- The value of an optional parameter, where there is one.
abbrev pub read_given : {A : Type 0} → (Bytes → Handler A) → Option Parameter → Handler (Option A)
read_given read none w = ok (none, w)
read_given read (some v) w = elim (read v.value w) [
  | err cause ↦ err cause
  | ok r ↦ ok (some r.0, r.1)
]

abbrev pub given : {A : Type 0} → Bytes → (Bytes → Handler A) → Handler (Option A)
given name read = find_optional name >>= read_given read

abbrev pub counted : {A : Type 0} → Option (A × ℕ) → Handler A
counted none w = err ex_par_format
counted (some r) w = ok (r.0, record w { called = r.1 })

abbrev pub own : Option Bytes → Handler Bytes
own none w = err other_exception
own (some a) w = ok (a, w)

module _ (e : Env) where
  -- `asInt8` to `asInt64` by their width; the narrow ones cast what `asInt32` returns.
  abbrev pub as_integer : ℕ → ℕ → ℕ → Bytes → Handler ℕ
  as_integer width first end v w =
      (draw v (as_int (e.random w.called) (if width == 64 then 64 else 32) first end v) >>= λ n.
      pure (n % 2 ^ width))
        w

  abbrev pub as_any : ℕ → Bytes → Handler ℕ
  as_any width = as_integer width 0 (largest width)

  abbrev pub as_mac : Bytes → Handler Bytes
  as_mac v w = counted (set_mac e.random w.called v) w

  abbrev pub as_ipv4 : Bytes → Handler Bytes
  as_ipv4 v w = counted (set_ipv4 e.random w.called v) w

  abbrev pub as_ipv6 : Bytes → Handler Bytes
  as_ipv6 v w =
      if not (at v == b'*')
      then counted (elim (set_ipv6 e.inet_pton v) [ none ↦ none | some ip ↦ some (ip, w.called) ]) w
      else if length v == 1
      then ok (random_ipv6 e.random w.called, record w { called = w.called + 4 })
      else err ex_par_format

  -- `asStream` and `asEmbedded`.
  abbrev pub as_bytes : Bool → ℕ → Bytes → Handler (Bytes × Bool)
  as_bytes allow_embedded max_len v w =
      draw v (as_stream (e.random_bytes w.called) allow_embedded max_len v) w

  abbrev pub stream : Bytes → Handler Bytes
  stream v = as_bytes false (largest 64) v >>= λ r. pure r.0

  -- `getParameterOrOwnMac`, `getParameterOrOwnIPv4` and `getParameterOrOwnIPv6`.
  abbrev pub or_own : (Bytes → Handler Bytes) → Option Bytes → Option Parameter → Handler Bytes
  or_own read mine none = own mine
  or_own read mine (some v) = read v.value

  abbrev pub parameter_or_own_mac : Bytes → Handler Bytes
  parameter_or_own_mac name = find_optional name >>= or_own as_mac e.settings.my_mac

  abbrev pub parameter_or_own_ipv4 : Bytes → Handler Bytes
  parameter_or_own_ipv4 name = find_optional name >>= or_own as_ipv4 e.settings.my_ipv4

  abbrev pub parameter_or_own_ipv6 : Bytes → Handler Bytes
  parameter_or_own_ipv6 name = find_optional name >>= or_own as_ipv6 e.settings.my_ipv6

-- ===== src/Handler/Keeps/Readers.antt =====
-- The values of parameters leave the list alone.
use tcppump.Common.{
  ℕ, Bool, true, false, Bool-cases, inl, inr, Option, none, some, not, if◌then◌else◌, length, List,
  ◌==◌, Bytes,
}
use tcppump.Text.{at}
use tcppump.Address.{set_mac, set_ipv4, set_ipv6}
use tcppump.Params.{Parameter}
use tcppump.Params.Values.{as_int, as_stream}
use tcppump.Handler.{
  Env, Handler, as_integer, as_mac, as_ipv4, as_ipv6, as_bytes, stream, or_own,
  parameter_or_own_mac, parameter_or_own_ipv4, parameter_or_own_ipv6, largest,
}
use tcppump.Handler.Keeps.{
  Keeps, NotNamed, bind-Keeps, pure-Keeps, find-Keeps, draw-Keeps, counted-Keeps, own-Keeps,
}

module _ (k : ℕ) (list : List Parameter) (e : Env) where
  pub as_integer-Keeps :
      (width first end : ℕ) (v : Bytes) → Keeps k list (as_integer e width first end v)
  as_integer-Keeps width first end v = record {
    keeps =
        (bind-Keeps k list _ _
          (draw-Keeps k list v
            (λ w. as_int (e.random w.called) (if width == 64 then 64 else 32) first end v))
          (λ n. pure-Keeps k list _)).keeps;
  }

  pub as_mac-Keeps : (v : Bytes) → Keeps k list (as_mac e v)
  as_mac-Keeps v = record {
    keeps = (counted-Keeps k list (λ w. set_mac e.random w.called v)).keeps;
  }

  pub as_ipv4-Keeps : (v : Bytes) → Keeps k list (as_ipv4 e v)
  as_ipv4-Keeps v = record {
    keeps = (counted-Keeps k list (λ w. set_ipv4 e.random w.called v)).keeps;
  }

  pub as_ipv6-Keeps : (v : Bytes) → Keeps k list (as_ipv6 e v)
  as_ipv6-Keeps v = record {
    keeps = λ w s. elim (Bool-cases (not (at v == b'*'))) [
      | inl h ↦ rw h (
          (counted-Keeps k list (λ w. elim (set_ipv6 e.inet_pton v) [
            | none ↦ none
            | some ip ↦ some (ip, w.called)
          ])).keeps
            w s)
      | inr h ↦ rw h (elim (Bool-cases (length v == 1)) [ inl g ↦ rw g s | inr g ↦ rw g tt ])
    ];
  }

  pub as_bytes-Keeps : (allowed : Bool) (n : ℕ) (v : Bytes) → Keeps k list (as_bytes e allowed n v)
  as_bytes-Keeps allowed n v = record {
    keeps = (draw-Keeps k list v (λ w. as_stream (e.random_bytes w.called) allowed n v)).keeps;
  }

  pub stream-Keeps : (v : Bytes) → Keeps k list (stream e v)
  stream-Keeps v =
      bind-Keeps k list _ _ (as_bytes-Keeps false (largest 64) v) (λ r. pure-Keeps k list _)

  or_own-Keeps :
      (read : Bytes → Handler Bytes) (mine : Option Bytes)
      → ((v : Bytes) → Keeps k list (read v))
      → (v : Option Parameter) → Keeps k list (or_own e read mine v)
  or_own-Keeps read mine h none = record { keeps = (own-Keeps k list mine).keeps }
  or_own-Keeps read mine h (some v) = record { keeps = (h v.value).keeps }

  module _ (name : Bytes) (h : NotNamed name k list) where
    pub own_mac-Keeps : Keeps k list (parameter_or_own_mac e name)
    own_mac-Keeps =
        bind-Keeps k list _ _ (find-Keeps k list none none name true h)
          (or_own-Keeps (as_mac e) e.settings.my_mac as_mac-Keeps)

    pub own_ipv4-Keeps : Keeps k list (parameter_or_own_ipv4 e name)
    own_ipv4-Keeps =
        bind-Keeps k list _ _ (find-Keeps k list none none name true h)
          (or_own-Keeps (as_ipv4 e) e.settings.my_ipv4 as_ipv4-Keeps)

    pub own_ipv6-Keeps : Keeps k list (parameter_or_own_ipv6 e name)
    own_ipv6-Keeps =
        bind-Keeps k list _ _ (find-Keeps k list none none name true h)
          (or_own-Keeps (as_ipv6 e) e.settings.my_ipv6 as_ipv6-Keeps)

-- ===== src/Handler/Reads.antt =====
-- Values of parameters as they are written, read by the lookups of the handlers.
use tcppump.Common.{
  ℕ, ◌-◌, ◌%◌, ◌^◌, ◌≤◌, ◌<◌, ◌≡◌, refl, ap, subst, ◌∙◌, arith, false, List, ◌∷◌, leb, ◌&&◌,
  if◌then◌else◌, length, All, Bytes, ok, err, ex_par_range, ◌/◌, Result, le→ltb_false,
}
use tcppump.Address.{set_mac, calls}
use tcppump.Address.Written.{HexField, IsHexField, print_mac, read_mac, set_mac-print}
use tcppump.Params.Values.{as_int}
use tcppump.Params.Values.Numerals.{
  Numeral, decimal, octal, hexadecimal, IsNumeral, print_numeral, value_of, as_int-print,
}
use tcppump.Params.Values.Streams.{
  Stream, hex, text, instruction, first_digit, IsStream, print, content, as_stream-print,
}
use tcppump.Handler.{Env, World, as_mac, as_any, as_bytes, stream, draw, pure, counted}
use tcppump.Handler.Runs.{Runs, Reads, bind-Runs, pure-Runs}

pub draw-Runs :
    {A : Type 0} (v : Bytes) {m : Result A} {a : A} (k : ℕ)
    → m ≡ ok a
    → calls v ≡ 0
    → (w : World) → w.called ≡ k
    → Runs (draw v m) w a (record w { called = k })
draw-Runs v {a = a} k h none_drawn w called = record {
  run =
      ap (λ r. draw v r w) h
      ∙ ap (λ n. ok (a, record w { called = n })) (omega (arith, none_drawn, called));
}

in_range : (v end : ℕ) → v ≤ end → (if leb 0 v && leb v end then ok v else err ex_par_range) ≡ ok v
in_range v end h = ground arith

-- Neither a number nor a stream that is written out takes a random number.
calls-numeral : (n : Numeral) → IsNumeral n → calls (print_numeral n) ≡ 0
calls-numeral (decimal a ds) h = ground (arith, h.0, h.1)
calls-numeral (octal ds) h = refl
calls-numeral (hexadecimal big capital a ds) h = refl

calls-stream : (s : Stream) → IsStream false s → calls (print s) ≡ 0
calls-stream (hex capital b bytes) h = rw (first_digit capital (b / 16) (omega (arith, h.0))).0 refl
calls-stream (text t) h = refl
calls-stream (instruction t) h = refl

module _ (e : Env) (k : ℕ) where
  pub as_mac-Reads :
      (f : HexField) (fs : List HexField)
      → length fs ≡ 5
      → All IsHexField (f ∷ fs)
      → Reads
          (as_mac e)
          (print_mac f fs)
          k
          (read_mac e.random k (f ∷ fs)).0
          (read_mac e.random k (f ∷ fs)).1
  as_mac-Reads f fs five h w called = record {
    run =
        ap (λ n. counted (set_mac e.random n (print_mac f fs)) w) called
        ∙ ap (λ r. counted r w) (set_mac-print e.random k f fs five h);
  }

module _ (e : Env) (k : ℕ) where
  pub as_any-Reads :
      (n : Numeral)
      → IsNumeral n
      → value_of n < 2 ^ 16
      → Reads (as_any e 16) (print_numeral n) k (value_of n) k
  as_any-Reads n h small w called =
      subst (λ m. Runs (as_any e 16 (print_numeral n)) w m (record w { called = k })) (omega arith)
        record {
          run =
              (bind-Runs
                (draw (print_numeral n) (as_int (e.random w.called) 32 0 65535 (print_numeral n)))
                (λ m. pure (m % 2 ^ 16))
                (draw-Runs (print_numeral n) k
                  (as_int-print (e.random w.called) 32 0 65535 n h (omega arith) (omega arith)
                    ∙ in_range (value_of n) 65535 (omega arith))
                  (calls-numeral n h) w called)
                (pure-Runs (value_of n % 2 ^ 16) (record w { called = k }))).run;
        }

  pub stream-Reads :
      (s : Stream)
      → IsStream false s
      → length (content s).0 < 2 ^ 64
      → Reads (stream e) (print s) k (content s).0 k
  stream-Reads s h small w called = record {
    run =
        (bind-Runs (as_bytes e false (2 ^ 64 - 1) (print s)) (λ r. pure r.0) {a = content s}
          record {
            run =
                (draw-Runs (print s) k
                  (as_stream-print (e.random_bytes w.called) false (2 ^ 64 - 1) s h
                    ∙ rw (le→ltb_false (2 ^ 64 - 1) (length (content s).0) (omega arith)) refl)
                  (calls-stream s h) w called).run;
          }
          (pure-Runs (content s).0 (record w { called = k }))).run;
  }

-- ===== src/Bench/Sessions.antt =====
-- How often a request closes the port.
use e_callisto_ng.Prelude.{
  ℕ, zero, suc, ◌+◌, ◌≡◌, refl, ap, ◌∙◌, Bool, true, false, not, ◌&&◌, ◌||◌, Option, none, some,
  List, [], ◌∷◌, ◌++◌, if◌then◌else◌, ltb, ◌==◌, arith,
}
use e_callisto_ng.Callisto.Protocol.{halt_command, reset}
use e_callisto_ng.Callisto.Driver.Monad.{
  Device, Fault, Io, Link, Op, Outcome, attempt, closing, conn_close, conn_read, conn_write,
  continue, done, gets, modify, monotonic, no_answer, pure, raise, raised, reading, refused,
  unfinished, warned, wrote, ◌>>=◌, ◌>>◌,
}
use e_callisto_ng.Callisto.Driver.{close, connect, drain, fill}
use e_callisto_ng.Callisto.Driver.Handshake.{
  found_or, identify, read_line, read_status, until_marker, wait_for, cut_at,
}
use e_callisto_ng.Bench.{bench_session, diagnose, try_finally}

abbrev pub closings : List Op → ℕ
closings [] = 0
closings (closing ∷ ops) = suc (closings ops)
closings (wrote bytes ∷ ops) = closings ops
closings (reading ∷ ops) = closings ops
closings (warned b t ∷ ops) = closings ops

closings-append : (ops more : List Op) → closings (ops ++ more) ≡ closings ops + closings more
closings-append [] more = omega arith
closings-append (closing ∷ ops) more = omega (arith, closings-append ops more)
closings-append (wrote b ∷ ops) more = closings-append ops more
closings-append (reading ∷ ops) more = closings-append ops more
closings-append (warned b t ∷ ops) more = closings-append ops more

-- An action that never closes the port.
pub record Keeps {A : Type 0} (m : Io A) : Type 0 where
  pub keeps : (s : Link) → closings (m s).1.log ≡ closings s.log

module _ {A B : Type 0} where
  Keeps-continue :
      (o : Outcome A) (f : A → Io B) (s : Link)
      → ((a : A) → Keeps (f a))
      → closings (continue o f s).1.log ≡ closings s.log
  Keeps-continue (done a) f s h = (h a).keeps s
  Keeps-continue (raised e) f s h = refl

  Keeps-bind : (m : Io A) (f : A → Io B) → Keeps m → ((a : A) → Keeps (f a)) → Keeps (m >>= f)
  unfolding ◌>>=◌
  Keeps-bind m f h k = record { keeps = λ s. Keeps-continue (m s).0 f (m s).1 k ∙ h.keeps s }

module _ {A : Type 0} where
  pub Keeps-pure : (a : A) → Keeps (pure a)
  unfolding pure
  Keeps-pure a = record { keeps = λ s. refl }

  Keeps-raise : (e : Fault) → Keeps (raise {A = A} e)
  unfolding raise
  Keeps-raise e = record { keeps = λ s. refl }

  Keeps-gets : (f : Link → A) → Keeps (gets f)
  unfolding gets
  Keeps-gets f = record { keeps = λ s. refl }

  Keeps-if : (b : Bool) (m n : Io A) → Keeps m → Keeps n → Keeps (if b then m else n)
  Keeps-if true m n h k = h
  Keeps-if false m n h k = k

Keeps-modify : (f : Link → Link) → ((s : Link) → (f s).log ≡ s.log) → Keeps (modify f)
unfolding modify
Keeps-modify f h = record { keeps = λ s. ap closings (h s) }

module _ (dev : Device) where
  Keeps-conn_write : (bytes : List ℕ) → Keeps (conn_write dev bytes)
  unfolding conn_write
  Keeps-conn_write bytes = record { keeps = λ s. closings-append s.log _ ∙ omega arith }

  Keeps-conn_read : Keeps (conn_read dev)
  unfolding conn_read
  Keeps-conn_read = record { keeps = λ s. closings-append s.log _ ∙ omega arith }

  Keeps-monotonic : Keeps (monotonic dev)
  unfolding monotonic
  Keeps-monotonic = record { keeps = λ s. refl }

  fill-Keeps : Keeps (fill dev)
  unfolding fill
  fill-Keeps =
      Keeps-bind _ _ Keeps-conn_read
        (λ bytes. Keeps-bind _ _ (Keeps-modify _ (λ s. refl)) (λ _. Keeps-pure _))

  drain-Keeps : (fuel : ℕ) → Keeps (drain dev fuel)
  unfolding drain
  drain-Keeps zero = Keeps-raise unfinished
  drain-Keeps (suc fuel) = Keeps-bind _ _ fill-Keeps (λ n.
      Keeps-if (n == 0) _ _ (Keeps-pure tt)
        (Keeps-bind _ _ (Keeps-modify _ (λ s. refl)) (λ _. drain-Keeps fuel)))

  connect-Keeps : (fuel : ℕ) → Keeps (connect dev fuel)
  unfolding connect
  connect-Keeps fuel = Keeps-bind _ _ (Keeps-conn_write reset) (λ _. drain-Keeps fuel)

  found_or-Keeps :
      (cut : Option (List ℕ × List ℕ)) (again : Io (List ℕ))
      → Keeps again
      → Keeps (found_or dev cut again)
  found_or-Keeps none again h = Keeps-bind _ _ fill-Keeps (λ n. h)
  found_or-Keeps (some (before, after)) again h =
      Keeps-bind _ _ (Keeps-modify _ (λ s. refl)) (λ _. Keeps-pure before)

  until_marker-Keeps : (fuel marker deadline : ℕ) → Keeps (until_marker dev fuel marker deadline)
  unfolding until_marker
  until_marker-Keeps zero marker deadline = Keeps-raise unfinished
  until_marker-Keeps (suc fuel) marker deadline = Keeps-bind _ _ Keeps-monotonic (λ t.
      Keeps-bind _ _ (Keeps-gets _) (λ s.
        Keeps-if (ltb t deadline) _ _
          (found_or-Keeps (cut_at marker s.rx) _ (until_marker-Keeps fuel marker deadline))
          (Keeps-raise no_answer)))

  read_line-Keeps : (fuel : ℕ) → Keeps (read_line dev fuel)
  unfolding read_line wait_for
  read_line-Keeps fuel =
      Keeps-bind _ _ (Keeps-bind _ _ Keeps-monotonic (λ t. until_marker-Keeps fuel 13 _))
        (λ line. Keeps-pure _)

  identify-Keeps : (fuel : ℕ) → Keeps (identify dev fuel)
  unfolding identify read_status
  identify-Keeps fuel = Keeps-bind _ _ (Keeps-conn_write _) (λ _.
      Keeps-bind _ _ (read_line-Keeps fuel) (λ line.
        Keeps-if _ _ _
          (Keeps-bind _ _ (Keeps-conn_write _)
            (λ _. Keeps-bind _ _ (read_line-Keeps fuel) (λ status. Keeps-modify _ (λ s. refl))))
          (Keeps-raise refused)))

  attempted :
      (bytes : List ℕ) (s : Link)
      → attempt (conn_write dev bytes) s ≡ (
        done (if dev.write_fails s.calls then none else some tt),
        record s { calls = s.calls + 1; log = s.log ++ wrote bytes ∷ [] },
      )
  unfolding attempt conn_write
  attempted bytes s = ground arith

  close_once : (s : Link) → closings (close dev s).1.log ≡ suc (closings s.log)
  unfolding close modify conn_close ◌>>=◌
  close_once s = rw (attempted halt_command (record s { running = false })) (
      closings-append (s.log ++ wrote halt_command ∷ []) (closing ∷ [])
      ∙ rw (closings-append s.log (wrote halt_command ∷ [])) (omega arith))

  try_finally-closings :
      {A : Type 0} (m : Io A) (s : Link)
      → Keeps m
      → closings (try_finally m (close dev) s).1.log ≡ suc (closings s.log)
  unfolding try_finally
  try_finally-closings m s h = close_once (m s).1 ∙ ap suc (h.keeps s)

  abbrev pub is_connected : Outcome (Unit {0}) → Bool
  is_connected (done u) = true
  is_connected (raised e) = false

  session_run :
      {A : Type 0} (o : Outcome (Unit {0})) (m : Io A) (s : Link)
      → Keeps m
      → closings (continue o (λ u. try_finally m (close dev)) s).1.log
        ≡ closings s.log + (if is_connected o then 1 else 0)
  session_run (done u) m s h = try_finally-closings m s h ∙ omega arith
  session_run (raised e) m s h = omega arith

  -- For an operation that does not close the port itself: a bench session closes the port once, also
  -- when the operation raises, if it is neither refused for a recording or a lock nor cut short by
  -- the connection; when `connect` raises, the port stays open.
  pub bench_session-closings :
      {A : Type 0} (fuel : ℕ) (recording free : Bool) (operation : Io A) (s : Link)
      → Keeps operation
      → closings (bench_session dev fuel recording free operation s).1.log
        ≡ closings s.log
          + (if not recording && (free && is_connected (connect dev fuel s).0) then 1 else 0)
  unfolding bench_session ◌>>=◌
  bench_session-closings fuel true free operation s h = omega arith
  bench_session-closings fuel false false operation s h = omega arith
  bench_session-closings fuel false true operation s h =
      session_run (connect dev fuel s).0 operation (connect dev fuel s).1 h
      ∙ ap (λ n. n + (if is_connected (connect dev fuel s).0 then 1 else 0))
          ((connect-Keeps fuel).keeps s)

  probe-Keeps : (fuel : ℕ) → Keeps (connect dev fuel >> identify dev fuel)
  probe-Keeps fuel = Keeps-bind _ _ (connect-Keeps fuel) (λ _. identify-Keeps fuel)

  -- While the instrument records or its port is locked, a bench session leaves the connection as it
  -- is, but `diagnose_instrument` uses it and closes it once.
  diagnose_intrudes :
      {A : Type 0} (fuel : ℕ) (recording free : Bool) (operation : Io A) (s : Link)
      → (recording || not free) ≡ true
      → ((bench_session dev fuel recording free operation s).1 ≡ s)
        × (closings (diagnose dev fuel recording free s).1.log ≡ suc (closings s.log))
  unfolding bench_session diagnose
  diagnose_intrudes fuel recording free operation s h = (
    ground arith,
    close_once ((connect dev fuel >> identify dev fuel) s).1 ∙ ap suc ((probe-Keeps fuel).keeps s),
  )

-- ===== src/Callisto/Driver/Quiet.antt =====
-- Actions that log no self-heal warning.
use e_callisto_ng.Prelude.{
  ℕ, zero, suc, ◌≤◌, ◌≡◌, refl, ◌∙◌, Bool, true, false, Option, none, some, List, [], ◌∷◌, ◌++◌,
  append-nil, arith, if◌then◌else◌, ◌==◌,
}
use e_callisto_ng.Callisto.Protocol.{reset}
use e_callisto_ng.Callisto.Parser.{StreamParser}
use e_callisto_ng.Callisto.Driver.Monad.{
  Device, Link, Op, wrote, reading, closing, warned, Fault, Outcome, done, raised, misused,
  unfinished, Io, pure, raise, gets, modify, attempt, continue, ◌>>=◌, conn_write, conn_read,
  conn_close, monotonic, still_running,
}
use e_callisto_ng.Callisto.Driver.{
  write_all, fill, read_chunk, drain, soft_reset, reopen, or_misused, make_parser,
}

-- The times at which `_recover` found room in the budget, oldest first.
abbrev pub reset_times : List Op → List ℕ
reset_times [] = []
reset_times (warned escalate t ∷ ops) = t ∷ reset_times ops
reset_times (wrote bytes ∷ ops) = reset_times ops
reset_times (reading ∷ ops) = reset_times ops
reset_times (closing ∷ ops) = reset_times ops

pub reset_times-append :
    (ops more : List Op) → reset_times (ops ++ more) ≡ reset_times ops ++ reset_times more
reset_times-append [] more = refl
reset_times-append (wrote b ∷ ops) more = reset_times-append ops more
reset_times-append (reading ∷ ops) more = reset_times-append ops more
reset_times-append (closing ∷ ops) more = reset_times-append ops more
reset_times-append (warned e t ∷ ops) more = rw (reset_times-append ops more)

pub record Quiet (s t : Link) : Type 0 where
  pub times : reset_times t.log ≡ reset_times s.log
  pub calls : s.calls ≤ t.calls

pub record IsQuiet {A : Type 0} (m : Io A) : Type 0 where
  pub at : (s : Link) → Quiet s (m s).1

Quiet-trans : (s t u : Link) → Quiet s t → Quiet t u → Quiet s u
Quiet-trans s t u h k = record { times = k.times ∙ h.times; calls = omega arith }

module _ {A : Type 0} where
  pub IsQuiet-pure : (a : A) → IsQuiet (pure a)
  unfolding pure
  IsQuiet-pure a = record { at = λ s. record { times = refl; calls = omega arith } }

  pub IsQuiet-raise : (e : Fault) → IsQuiet (raise {A = A} e)
  unfolding raise
  IsQuiet-raise e = record { at = λ s. record { times = refl; calls = omega arith } }

  pub IsQuiet-gets : (f : Link → A) → IsQuiet (gets f)
  unfolding gets
  IsQuiet-gets f = record { at = λ s. record { times = refl; calls = omega arith } }

  attempt_link : (m : Io A) (s : Link) → (attempt m s).1 ≡ (m s).1
  unfolding attempt
  attempt_link m s = ground arith

  pub IsQuiet-attempt : (m : Io A) → IsQuiet m → IsQuiet (attempt m)
  IsQuiet-attempt m h = record { at = λ s. rw (attempt_link m s) (h.at s) }

  pub IsQuiet-if : (b : Bool) (m n : Io A) → IsQuiet m → IsQuiet n → IsQuiet (if b then m else n)
  IsQuiet-if true m n h k = h
  IsQuiet-if false m n h k = k

module _ {A B : Type 0} where
  continue-Quiet :
      (f : A → Io B)
      → ((a : A) → IsQuiet (f a))
      → (o : Outcome A) (s : Link) → Quiet s (continue o f s).1
  continue-Quiet f h (done a) s = (h a).at s
  continue-Quiet f h (raised e) s = record { times = refl; calls = omega arith }

  pub IsQuiet-bind :
      (m : Io A) (f : A → Io B) → IsQuiet m → ((a : A) → IsQuiet (f a)) → IsQuiet (m >>= f)
  unfolding ◌>>=◌
  IsQuiet-bind m f h k = record {
    at = λ s. Quiet-trans s (m s).1 _ (h.at s) (continue-Quiet f k (m s).0 (m s).1);
  }

pub IsQuiet-modify : (f : Link → Link) → ((s : Link) → Quiet s (f s)) → IsQuiet (modify f)
unfolding modify
IsQuiet-modify f h = record { at = h }

module _ (dev : Device) where
  pub IsQuiet-conn_write : (bytes : List ℕ) → IsQuiet (conn_write dev bytes)
  unfolding conn_write
  IsQuiet-conn_write bytes = record {
    at = λ s. record { times = reset_times-append s.log _ ∙ rw append-nil; calls = omega arith };
  }

  pub IsQuiet-conn_close : IsQuiet (conn_close dev)
  unfolding conn_close
  IsQuiet-conn_close = record {
    at = λ s. record { times = reset_times-append s.log _ ∙ rw append-nil; calls = omega arith };
  }

  pub IsQuiet-conn_read : IsQuiet (conn_read dev)
  unfolding conn_read
  IsQuiet-conn_read = record {
    at = λ s. record { times = reset_times-append s.log _ ∙ rw append-nil; calls = omega arith };
  }

  pub IsQuiet-monotonic : IsQuiet (monotonic dev)
  unfolding monotonic
  IsQuiet-monotonic = record { at = λ s. record { times = refl; calls = omega arith } }

  pub IsQuiet-still_running : IsQuiet (still_running dev)
  unfolding still_running
  IsQuiet-still_running = record { at = λ s. record { times = refl; calls = omega arith } }

  write_all-IsQuiet : (cmds : List (List ℕ)) → IsQuiet (write_all dev cmds)
  unfolding write_all
  write_all-IsQuiet [] = IsQuiet-pure tt
  write_all-IsQuiet (c ∷ cs) = IsQuiet-bind _ _ (IsQuiet-conn_write c) (λ _. write_all-IsQuiet cs)

  IsQuiet-fill : IsQuiet (fill dev)
  unfolding fill
  IsQuiet-fill = IsQuiet-bind _ _ IsQuiet-conn_read (λ bytes.
      IsQuiet-bind _ _ (IsQuiet-modify _ (λ s. record { times = refl; calls = omega arith }))
        (λ _. IsQuiet-pure _))

  forget : IsQuiet (modify (λ s. record s { rx = [] }))
  forget = IsQuiet-modify _ (λ s. record { times = refl; calls = omega arith })

  pub read_chunk-IsQuiet : IsQuiet (read_chunk dev)
  unfolding read_chunk
  read_chunk-IsQuiet =
      IsQuiet-bind _ _ IsQuiet-fill (λ _.
        IsQuiet-bind _ _ (IsQuiet-gets _) (λ c. IsQuiet-bind _ _ forget (λ _. IsQuiet-pure c)))

  drain-IsQuiet : (fuel : ℕ) → IsQuiet (drain dev fuel)
  unfolding drain
  drain-IsQuiet zero = IsQuiet-raise unfinished
  drain-IsQuiet (suc fuel) = IsQuiet-bind _ _ IsQuiet-fill (λ n.
      IsQuiet-if (n == 0) _ _ (IsQuiet-pure tt) (IsQuiet-bind _ _ forget (λ _. drain-IsQuiet fuel)))

  pub soft_reset-IsQuiet : (fuel : ℕ) → IsQuiet (soft_reset dev fuel)
  unfolding soft_reset
  soft_reset-IsQuiet fuel = IsQuiet-bind _ _ (IsQuiet-conn_write reset) (λ _.
      IsQuiet-bind _ _ (drain-IsQuiet fuel) (λ _.
        IsQuiet-bind _ _ (IsQuiet-gets _)
          (λ s. IsQuiet-bind _ _ (write_all-IsQuiet _) (λ _. IsQuiet-conn_write _))))

  pub reopen-IsQuiet : (fuel : ℕ) → IsQuiet (reopen dev fuel)
  unfolding reopen
  reopen-IsQuiet fuel =
      IsQuiet-bind _ _ (IsQuiet-attempt _ IsQuiet-conn_close) (λ _. soft_reset-IsQuiet fuel)

  made : (o : Option StreamParser) → IsQuiet (or_misused o)
  made none = IsQuiet-raise misused
  made (some p) = IsQuiet-pure p

  pub make_parser-IsQuiet : IsQuiet (make_parser dev)
  unfolding make_parser
  make_parser-IsQuiet = IsQuiet-bind _ _ (IsQuiet-gets _) (λ s. made _)

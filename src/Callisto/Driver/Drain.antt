-- ===== src/Callisto/Driver/Drain.antt =====
-- How long `_drain` reads.
use e_callisto_ng.Prelude.{
  ℕ, zero, suc, ◌+◌, ◌<◌, ◌≡◌, refl, subst, ◌∙◌, Bool, true, false, some, List, [], ◌∷◌, ◌++◌,
  arith, if◌then◌else◌, length, leb, ◌==◌,
}
use e_callisto_ng.Window.{expire}
use e_callisto_ng.Callisto.Driver.Monad.{
  Device, chunk, Link, closing, Fault, done, raised, unfinished, Io, pure, raise, modify, attempt,
  ◌>>=◌, conn_write, conn_read, conn_close, monotonic,
}
use e_callisto_ng.Callisto.Driver.{
  reset_window, reset_budget, fill, drain, soft_reset, reopen, rearm, recover,
}

-- The device answers each read with at least one byte, and takes each write and close.
pub record IsTalking (dev : Device) : Type 0 where
  pub first : ℕ → ℕ
  pub others : ℕ → List ℕ
  pub talks : (i : ℕ) → dev.reply i ≡ chunk (first i ∷ others i)
  pub writes : (i : ℕ) → dev.write_fails i ≡ false
  pub closes : (i : ℕ) → dev.close_fails i ≡ false

nonzero : (n : ℕ) → (suc n == 0) ≡ false
nonzero n = ground arith

raised_bind :
    {A B : Type 0} (m : Io A) (f : A → Io B) (e : Fault) (s : Link)
    → (m s).0 ≡ raised e
    → ((m >>= f) s).0 ≡ raised e
unfolding ◌>>=◌
raised_bind m f e s h = ground arith

unfinished_attempt :
    {A : Type 0} (m : Io A) (s : Link)
    → (m s).0 ≡ raised unfinished
    → (attempt m s).0 ≡ raised unfinished
unfolding attempt
unfinished_attempt m s h = ground arith

unfinished_if :
    (b : Bool) (m n : Io (Unit {0})) (s : Link)
    → (m s).0 ≡ raised unfinished
    → (n s).0 ≡ raised unfinished
    → ((if b then m else n) s).0 ≡ raised unfinished
unfinished_if true m n s h k = h
unfinished_if false m n s h k = k

module _ (dev : Device) (t : IsTalking dev) where
  drain_talking : (fuel : ℕ) (s : Link) → (drain dev fuel s).0 ≡ raised unfinished
  unfolding drain fill raise ◌>>=◌ conn_read modify pure
  drain_talking zero s = refl
  drain_talking (suc fuel) s =
      rw (t.talks s.calls) (rw (nonzero (length (t.others s.calls))) (drain_talking fuel _))

  soft_reset_talking : (fuel : ℕ) (s : Link) → (soft_reset dev fuel s).0 ≡ raised unfinished
  unfolding soft_reset conn_write ◌>>=◌
  soft_reset_talking fuel s =
      rw (t.writes s.calls) (raised_bind (drain dev fuel) _ unfinished _ (drain_talking fuel _))

  attempt_closed :
      (s : Link)
      → attempt (conn_close dev) s
        ≡ (done (some tt), record s { calls = s.calls + 1; log = s.log ++ closing ∷ [] })
  unfolding attempt conn_close
  attempt_closed s = ground (arith, t.closes s.calls)

  reopen_talking : (fuel : ℕ) (s : Link) → (reopen dev fuel s).0 ≡ raised unfinished
  unfolding reopen ◌>>=◌
  reopen_talking fuel s = rw (attempt_closed s) (soft_reset_talking fuel _)

  rearm_talking :
      (fuel now : ℕ) (kept : List ℕ) (s : Link) → (rearm dev fuel now kept s).0 ≡ raised unfinished
  unfolding rearm modify ◌>>=◌
  rearm_talking fuel now kept s =
      raised_bind (attempt (if leb 1 (length kept) then reopen dev fuel else soft_reset dev fuel)) _
        unfinished _
        (unfinished_attempt _ _ (
          unfinished_if (leb 1 (length kept)) (reopen dev fuel) (soft_reset dev fuel) _
            (reopen_talking fuel _) (soft_reset_talking fuel _)))

  -- While the budget has room, the recovery from a device that answers every read with some bytes and
  -- takes every write and close does not come to an end, whatever the number of reads allowed to `_drain`.
  pub recover_unbounded :
      (fuel : ℕ) (resets : List ℕ) (s : Link)
      → length (expire reset_window (dev.clock s.calls) resets) < reset_budget
      → (recover dev fuel resets s).0 ≡ raised unfinished
  unfolding recover monotonic ◌>>=◌
  recover_unbounded fuel resets s room =
      rw (room_left _ room) (rearm_talking fuel (dev.clock s.calls) _ _)
    where
      room_left : (n : ℕ) → n < reset_budget → leb reset_budget n ≡ false
      room_left n h = ground arith

-- `k` answers of at least one byte, and then an empty one.
pub record FallsSilent (dev : Device) (k from : ℕ) : Type 0 where
  pub talks : (j : ℕ) → j < k → (b : ℕ) × (bs : List ℕ) × (dev.reply (from + j) ≡ chunk (b ∷ bs))
  pub silent : dev.reply (from + k) ≡ chunk []

-- `_drain` ends as soon as a read comes back empty: one read more than the device had answers, and
-- with more fuel than that it is never short.
drain_silent :
    (dev : Device) (k fuel : ℕ) (s : Link)
    → FallsSilent dev k s.calls
    → k < fuel
    → ((drain dev fuel s).0 ≡ done tt) × ((drain dev fuel s).1.calls ≡ s.calls + k + 1)
unfolding drain fill ◌>>=◌ conn_read modify pure
drain_silent dev k zero s f h = absurd (omega arith)
drain_silent dev zero (suc fuel) s f h =
    let now : dev.reply s.calls ≡ chunk [] =
      subst (λ i. dev.reply i ≡ chunk []) (omega arith) f.silent in
    rw now (refl, omega arith)
drain_silent dev (suc k) (suc fuel) s f h =
    let (b, bs, first) = f.talks 0 (omega arith) in
    let now : dev.reply s.calls ≡ chunk (b ∷ bs) =
      subst (λ i. dev.reply i ≡ chunk (b ∷ bs)) (omega arith) first in
    rw now (
      rw (nonzero (length bs)) (
        let (ended, count) = drain_silent dev k fuel _ (later f) (omega arith) in
        (ended, count ∙ omega arith)))
  where
    later : FallsSilent dev (suc k) s.calls → FallsSilent dev k (s.calls + 1)
    later g = record {
      talks = λ j lt.
          let (c, cs, e) = g.talks (j + 1) (omega arith) in
          (c, cs, subst (λ i. dev.reply i ≡ chunk (c ∷ cs)) (omega arith) e);
      silent = subst (λ i. dev.reply i ≡ chunk []) (omega arith) g.silent;
    }

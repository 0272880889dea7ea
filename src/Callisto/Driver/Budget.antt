-- ===== src/Callisto/Driver/Budget.antt =====
-- The self-heal budget of `stream`: at most three resets in any minute, then FatalInstrumentError.
use e_callisto_ng.Prelude.{
  ℕ, zero, suc, ◌+◌, ◌≤◌, ◌<◌, ◌≡◌, refl, sym, subst, Bool, true, false, Option, none, some, List,
  [], ◌∷◌, ◌++◌, arith, if◌then◌else◌, length, leb, ltb,
}
use e_callisto_ng.Window.{
  expire, IsLimited, IsSpaced, IsLimited-start, IsLimited-later, IsLimited-expire, IsLimited-grant,
}
use e_callisto_ng.Callisto.Parser.{Item, parsed_message, parsed_sweep, StreamParser, Fed, feed}
use e_callisto_ng.Callisto.Driver.Monad.{
  Device, Link, warned, Outcome, done, raised, fatal, Io, pure, raise, modify, continue, called,
  ◌>>=◌, monotonic,
}
use e_callisto_ng.Callisto.Driver.Quiet.{
  reset_times, reset_times-append, Quiet, IsQuiet, IsQuiet-gets, IsQuiet-attempt, IsQuiet-if,
  IsQuiet-monotonic, IsQuiet-still_running, read_chunk-IsQuiet, soft_reset-IsQuiet, reopen-IsQuiet,
  make_parser-IsQuiet,
}
use e_callisto_ng.Callisto.Driver.{
  reset_window, reset_budget, Loop, rearm, recover, recovered, deliver, stall_test, stall_check,
  after_feed, chunk_round, after_read, one_round, stream_loop, stream,
}

abbrev pub IsMonotone : Device → Type 0
IsMonotone dev = (i j : ℕ) → i ≤ j → dev.clock i ≤ dev.clock j

module _ (dev : Device) (mono : IsMonotone dev) where
  -- The deque agrees with the warnings so far.
  abbrev Inv : List ℕ → Link → Type 0
  Inv resets s = IsLimited reset_window reset_budget (dev.clock s.calls) (reset_times s.log) resets

  abbrev Spaced : Link → Type 0
  Spaced s = IsSpaced reset_window reset_budget (reset_times s.log)

  -- The state at the end of an action that returns the deque as `resets`, or raises.
  abbrev Fine : {A : Type 0} → (A → List ℕ) → Outcome A × Link → Type 0
  Fine resets (done a, s) = Inv (resets a) s
  Fine resets (raised e, s) = Spaced s

  Inv-Quiet : (r : List ℕ) (s t : Link) → Quiet s t → Inv r s → Inv r t
  Inv-Quiet r s t q h =
      subst (λ log. IsLimited reset_window reset_budget (dev.clock t.calls) log r) (sym q.times)
        (IsLimited-later reset_window reset_budget (dev.clock s.calls) (dev.clock t.calls)
          (reset_times s.log) r (mono s.calls t.calls q.calls) h)

  continue-Fine :
      {A B : Type 0} (get : B → List ℕ) (f : A → Io B) (r : List ℕ)
      → ((a : A) (t : Link) → Inv r t → Fine get (f a t))
      → (o : Outcome A) (t : Link) → Inv r t
      → Fine get (continue o f t)
  continue-Fine get f r k (done a) t h = k a t h
  continue-Fine get f r k (raised e) t h = h.spaced

  -- An action that logs no warning, then one that is fine.
  Fine-bind :
      {A B : Type 0} (get : B → List ℕ) (m : Io A) (f : A → Io B) (r : List ℕ) (s : Link)
      → IsQuiet m
      → ((a : A) (t : Link) → Inv r t → Fine get (f a t))
      → Inv r s
      → Fine get ((m >>= f) s)
  unfolding ◌>>=◌
  Fine-bind get m f r s q k h =
      continue-Fine get f r k (m s).0 (m s).1 (Inv-Quiet r s (m s).1 (q.at s) h)

  Fine-pure :
      {A : Type 0} (get : A → List ℕ) (a : A) (s : Link) → Inv (get a) s → Fine get (pure a s)
  unfolding pure
  Fine-pure get a s h = h

  -- An action that is fine, then one that is fine from what it returns.
  Fine-bind-Fine :
      {A B : Type 0} (of : A → List ℕ) (get : B → List ℕ) (m : Io A) (f : A → Io B) (s : Link)
      → Fine of (m s)
      → ((a : A) (t : Link) → Inv (of a) t → Fine get (f a t))
      → Fine get ((m >>= f) s)
  unfolding ◌>>=◌
  Fine-bind-Fine {A} {B} of get m f s h k = go (m s).0 (m s).1 h
    where
      go : (o : Outcome A) (t : Link) → Fine of (o, t) → Fine get (continue o f t)
      go (done a) t g = k a t g
      go (raised e) t g = g

  Fine-if :
      {A : Type 0} (get : A → List ℕ) (b : Bool) (m n : Io A) (s : Link)
      → (b ≡ true → Fine get (m s))
      → (b ≡ false → Fine get (n s))
      → Fine get ((if b then m else n) s)
  Fine-if get true m n s h k = h refl
  Fine-if get false m n s h k = k refl

  -- The warning is logged: one more reset, for which there was room.
  warn_reset :
      (escalate : Bool) (now : ℕ) (kept : List ℕ) (s : Link)
      → now ≤ dev.clock s.calls
      → IsLimited reset_window reset_budget now (reset_times s.log) kept
      → length kept < reset_budget
      → Inv (kept ++ now ∷ []) (record s { log = s.log ++ warned escalate now ∷ [] })
  warn_reset escalate now kept s le h room =
      subst (λ log. IsLimited reset_window reset_budget (dev.clock s.calls) log (kept ++ now ∷ []))
        (sym (reset_times-append s.log (warned escalate now ∷ [])))
        (IsLimited-later reset_window reset_budget now (dev.clock s.calls) _ _ le
          (IsLimited-grant reset_window reset_budget now (reset_times s.log) kept h room))

  Fine-modify :
      {B : Type 0} (get : B → List ℕ) (f : Link → Link) (k : Unit {0} → Io B) (s : Link)
      → Fine get (k tt (f s))
      → Fine get ((modify f >>= k) s)
  unfolding ◌>>=◌ modify
  Fine-modify get f k s h = h

  Fine-monotonic :
      {B : Type 0} (get : B → List ℕ) (k : ℕ → Io B) (s : Link)
      → Fine get (k (dev.clock s.calls) (called s))
      → Fine get ((monotonic dev >>= k) s)
  unfolding ◌>>=◌ monotonic
  Fine-monotonic get k s h = h

  abbrev deque : StreamParser × List ℕ → List ℕ
  deque (p, resets) = resets

  abbrev of_loop : Loop → List ℕ
  of_loop l = l.resets

  rearm-Fine :
      (fuel now : ℕ) (kept : List ℕ) (s : Link)
      → now ≤ dev.clock s.calls
      → IsLimited reset_window reset_budget now (reset_times s.log) kept
      → length kept < reset_budget
      → Fine deque (rearm dev fuel now kept s)
  unfolding rearm
  rearm-Fine fuel now kept s le h room = Fine-modify deque _ _ s (
      Fine-bind deque _ _ (kept ++ now ∷ []) _
        (IsQuiet-attempt _
          (IsQuiet-if _ _ _ (reopen-IsQuiet dev fuel) (soft_reset-IsQuiet dev fuel)))
        (λ _ t i.
          Fine-bind deque _ _ (kept ++ now ∷ []) t (make_parser-IsQuiet dev)
            (λ p u j. Fine-pure deque (p, kept ++ now ∷ []) u j) i)
        (warn_reset (leb 1 (length kept)) now kept s le h room))

  recover-Fine :
      (fuel : ℕ) (resets : List ℕ) (s : Link)
      → Inv resets s
      → Fine deque (recover dev fuel resets s)
  unfolding recover
  recover-Fine fuel resets s h =
      let now : ℕ = dev.clock s.calls in
      let kept : List ℕ = expire reset_window now resets in
      let trimmed : IsLimited reset_window reset_budget now (reset_times s.log) kept =
        IsLimited-expire reset_window reset_budget now (reset_times s.log) resets h in
      Fine-monotonic deque _ s (
        Fine-if deque (leb reset_budget (length kept)) _ _ (called s)
          (λ _. Fine-modify deque _ _ (called s) (give_up _ trimmed.spaced))
          (λ room.
            rearm-Fine fuel now kept (called s) (mono _ _ (omega arith)) trimmed (ground arith)))
    where
      give_up : (t : Link) → Spaced t → Fine deque (raise fatal t)
      give_up t g = unfold raise in g

  recovered-Fine :
      (fuel : ℕ) (l : Loop) (s : Link) → Inv l.resets s → Fine of_loop (recovered dev fuel l s)
  unfolding recovered
  recovered-Fine fuel l s h =
      Fine-bind-Fine deque of_loop (recover dev fuel l.resets) _ s (recover-Fine fuel l.resets s h)
        (λ r t i.
          Fine-bind of_loop _ _ r.1 t (IsQuiet-monotonic dev) (λ now u j. Fine-pure of_loop _ u j)
            i)

  deliver-Fine :
      (items : List Item) (l : Loop) (s : Link)
      → Inv l.resets s
      → Fine of_loop (deliver dev items l s)
  unfolding deliver
  deliver-Fine [] l s h = Fine-pure of_loop l s h
  deliver-Fine (parsed_sweep values ∷ items) l s h =
      Fine-bind of_loop _ _ l.resets s (IsQuiet-monotonic dev)
        (λ t u i. Fine-modify of_loop _ _ u (
          deliver-Fine items (record l { last_frame = t })
            (record u { emitted = u.emitted ++ values ∷ [] }) i))
        h
  deliver-Fine (parsed_message text ∷ items) l s h =
      Fine-modify of_loop _ _ s (deliver-Fine items l _ h)

  stall_test-Fine :
      (fuel : ℕ) (l : Loop) (s : Link) → Inv l.resets s → Fine of_loop (stall_test dev fuel l s)
  unfolding stall_test
  stall_test-Fine fuel l s h =
      Fine-bind of_loop _ _ l.resets s (IsQuiet-monotonic dev)
        (λ t u i.
          Fine-bind of_loop _ _ l.resets u (IsQuiet-gets _)
            (λ bound v j.
              Fine-if of_loop (ltb (l.last_frame + bound) t) (recovered dev fuel l) (pure l) v
                (λ _. recovered-Fine fuel l v j) (λ _. Fine-pure of_loop l v j))
            i)
        h

  stall_check-Fine :
      (fuel : ℕ) (l : Loop) (s : Link) → Inv l.resets s → Fine of_loop (stall_check dev fuel l s)
  unfolding stall_check
  stall_check-Fine fuel l s h =
      Fine-bind of_loop _ _ l.resets s (IsQuiet-still_running dev)
        (λ on u i.
          Fine-if of_loop on (stall_test dev fuel l) (pure l) u (λ _. stall_test-Fine fuel l u i)
            (λ _. Fine-pure of_loop l u i))
        h

  items_round-Fine :
      (fuel : ℕ) (l l' : Loop) (items : List Item) (s : Link)
      → l'.resets ≡ l.resets
      → Inv l.resets s
      → Fine of_loop ((deliver dev items l' >>= stall_check dev fuel) s)
  items_round-Fine fuel l l' items s e h =
      Fine-bind-Fine of_loop of_loop (deliver dev items l') (stall_check dev fuel) s
        (deliver-Fine items l' s (subst (λ r. Inv r s) (sym e) h))
        (λ l2 t i. stall_check-Fine fuel l2 t i)

  after_feed-Fine :
      (fuel : ℕ) (l : Loop) (fed : Fed) (o : Option ℕ) (s : Link)
      → Inv l.resets s
      → Fine of_loop (after_feed dev fuel l fed o s)
  unfolding after_feed
  after_feed-Fine fuel l fed none s h = items_round-Fine fuel l _ fed.items s refl h
  after_feed-Fine fuel l fed (some v) s h = recovered-Fine fuel l s h

  chunk_round-Fine :
      (fuel : ℕ) (l : Loop) (bytes : List ℕ) (s : Link)
      → Inv l.resets s
      → Fine of_loop (chunk_round dev fuel l bytes s)
  unfolding chunk_round
  chunk_round-Fine fuel l [] s h = stall_check-Fine fuel l s h
  chunk_round-Fine fuel l (b ∷ bytes) s h = after_feed-Fine fuel l (feed l.parser (b ∷ bytes)) _ s h

  one_round-Fine :
      (fuel : ℕ) (l : Loop) (s : Link) → Inv l.resets s → Fine of_loop (one_round dev fuel l s)
  unfolding one_round after_read
  one_round-Fine fuel l s h =
      Fine-bind of_loop _ _ l.resets s (IsQuiet-attempt _ (read_chunk-IsQuiet dev)) go h
    where
      go :
          (o : Option (List ℕ)) (t : Link)
          → Inv l.resets t
          → Fine of_loop (after_read dev fuel l o t)
      go none t i = recovered-Fine fuel l t i
      go (some c) t i = chunk_round-Fine fuel l c t i

  stream_loop-Fine :
      (rounds fuel : ℕ) (l : Loop) (s : Link)
      → Inv l.resets s
      → Fine of_loop (stream_loop dev rounds fuel l s)
  unfolding stream_loop raise
  stream_loop-Fine zero fuel l s h = h.spaced
  stream_loop-Fine (suc rounds) fuel l s h =
      Fine-bind of_loop _ _ l.resets s (IsQuiet-still_running dev)
        (λ on u i.
          Fine-if of_loop on (one_round dev fuel l >>= stream_loop dev rounds fuel) (pure l) u
            (λ _.
              Fine-bind-Fine of_loop of_loop (one_round dev fuel l) (stream_loop dev rounds fuel) u
                (one_round-Fine fuel l u i) (λ l2 t j. stream_loop-Fine rounds fuel l2 t j))
            (λ _. Fine-pure of_loop l u i))
        h

  stream-Fine :
      (rounds fuel : ℕ) (s : Link)
      → reset_times s.log ≡ []
      → Fine of_loop (stream dev rounds fuel s)
  unfolding stream
  stream-Fine rounds fuel s e =
      Fine-bind of_loop _ _ [] s (make_parser-IsQuiet dev)
        (λ p t i.
          Fine-bind of_loop _ _ [] t (IsQuiet-monotonic dev)
            (λ now u j. stream_loop-Fine rounds fuel _ u j) i)
        (subst (λ log. IsLimited reset_window reset_budget (dev.clock s.calls) log []) (sym e)
          (IsLimited-start reset_window reset_budget (dev.clock s.calls)))

  Fine-Spaced :
      {A : Type 0} (get : A → List ℕ) (o : Outcome A) (s : Link) → Fine get (o, s) → Spaced s
  Fine-Spaced get (done a) s h = h.spaced
  Fine-Spaced get (raised e) s h = h

  -- On a clock that does not run backwards, whatever the device sends or fails at, for any number of
  -- rounds and also when the stream ends in an error: no minute holds more than three self-heal resets.
  pub stream_resets-IsSpaced :
      (rounds fuel : ℕ) (s : Link)
      → reset_times s.log ≡ []
      → IsSpaced reset_window reset_budget (reset_times (stream dev rounds fuel s).1.log)
  stream_resets-IsSpaced rounds fuel s e =
      Fine-Spaced of_loop (stream dev rounds fuel s).0 (stream dev rounds fuel s).1
        (stream-Fine rounds fuel s e)

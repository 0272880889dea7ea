-- ===== src/Callisto/Driver/Handshake/Deadline.antt =====
-- The waits of the handshake end by the clock.
use e_callisto_ng.Prelude.{
  ℕ, zero, suc, ◌+◌, ◌*◌, ◌<◌, ◌≤◌, ◌≡◌, refl, subst, Bool, true, false, Option, none, some, List,
  [], ◌∷◌, arith, if◌then◌else◌,
}
use e_callisto_ng.Callisto.Driver.Monad.{
  Device, Io, Link, Outcome, Reply, called, chunk, failed, conn_read, conn_write, continue, done,
  gets, modify, monotonic, pure, raise, raised, refused, unfinished, ◌>>=◌,
}
use e_callisto_ng.Callisto.Driver.{fill, write_all}
use e_callisto_ng.Callisto.Driver.Handshake.{
  configure, cut_at, found_or, handshake_timeout, identify, initialise, program, program_all,
  read_line, read_status, until_marker, wait_for,
}

-- The fuel ran out.
abbrev pub is_short : {A : Type 0} → Outcome A → Bool
is_short (raised unfinished) = true
is_short _ = false

pub record Ends {A : Type 0} (m : Io A) : Type 0 where
  pub ends : (s : Link) → is_short (m s).0 ≡ false

-- From any call on, the deadline of a wait has passed `turns` turns later.
abbrev pub IsTicking : Device → ℕ → Type 0
IsTicking dev turns = (i : ℕ) → dev.clock i + handshake_timeout ≤ dev.clock (i + 1 + 2 * turns)

module _ {A B : Type 0} where
  Ends-continue :
      (o : Outcome A) (f : A → Io B) (s : Link)
      → is_short o ≡ false
      → ((a : A) → Ends (f a))
      → is_short (continue o f s).0 ≡ false
  Ends-continue (done a) f s n h = (h a).ends s
  Ends-continue (raised e) f s n h = ground arith

  Ends-bind : (m : Io A) (f : A → Io B) → Ends m → ((a : A) → Ends (f a)) → Ends (m >>= f)
  unfolding ◌>>=◌
  Ends-bind m f h k = record { ends = λ s. Ends-continue (m s).0 f (m s).1 (h.ends s) k }

module _ {A : Type 0} where
  Ends-pure : (a : A) → Ends (pure a)
  unfolding pure
  Ends-pure a = record { ends = λ s. refl }

  Ends-gets : (f : Link → A) → Ends (gets f)
  unfolding gets
  Ends-gets f = record { ends = λ s. refl }

Ends-modify : (f : Link → Link) → Ends (modify f)
unfolding modify
Ends-modify f = record { ends = λ s. refl }

module _ (dev : Device) where
  Ends-conn_write : (bytes : List ℕ) → Ends (conn_write dev bytes)
  unfolding conn_write
  Ends-conn_write bytes = record { ends = λ s. ground arith }

  write_all-Ends : (cmds : List (List ℕ)) → Ends (write_all dev cmds)
  unfolding write_all
  write_all-Ends [] = Ends-pure tt
  write_all-Ends (c ∷ cs) = Ends-bind _ _ (Ends-conn_write c) (λ _. write_all-Ends cs)

  found_or_ends :
      (cut : Option (List ℕ × List ℕ)) (again : Io (List ℕ)) (s : Link)
      → ((t : Link) → t.calls ≡ s.calls + 1 → is_short (again t).0 ≡ false)
      → is_short (found_or dev cut again s).0 ≡ false
  unfolding fill ◌>>=◌ conn_read modify pure
  found_or_ends none again s h = go (dev.reply s.calls) refl
    where
      go : (r : Reply) → dev.reply s.calls ≡ r → is_short (found_or dev none again s).0 ≡ false
      go (chunk bytes) e = rw e (h _ refl)
      go failed e = rw e refl
  found_or_ends (some (before, after)) again s h = refl

  until_marker_ends :
      (turns fuel marker deadline : ℕ) (s : Link)
      → deadline ≤ dev.clock (s.calls + 2 * turns)
      → turns < fuel
      → is_short (until_marker dev fuel marker deadline s).0 ≡ false
  unfolding until_marker monotonic gets raise ◌>>=◌
  until_marker_ends turns zero marker deadline s h lt = absurd (omega arith)
  until_marker_ends zero (suc fuel) marker deadline s h lt = ground arith
  until_marker_ends (suc turns) (suc fuel) marker deadline s h lt =
      let later =
        found_or_ends (cut_at marker s.rx) (until_marker dev fuel marker deadline) (called s)
          (λ t e.
            until_marker_ends turns fuel marker deadline t
              (subst (λ c. deadline ≤ dev.clock c) (omega arith) h) (omega arith)) in
      ground arith

  wait_for-Ends :
      (turns fuel marker : ℕ) → IsTicking dev turns → turns < fuel → Ends (wait_for dev fuel marker)
  unfolding wait_for monotonic ◌>>=◌
  wait_for-Ends turns fuel marker h lt = record {
    ends = λ s. until_marker_ends turns fuel marker _ (called s) (h s.calls) lt;
  }

  module _ (turns fuel : ℕ) (h : IsTicking dev turns) (lt : turns < fuel) where
    read_line-Ends : Ends (read_line dev fuel)
    unfolding read_line
    read_line-Ends = Ends-bind _ _ (wait_for-Ends turns fuel 13 h lt) (λ line. Ends-pure _)

    read_status-Ends : Ends (read_status dev fuel)
    unfolding read_status
    read_status-Ends =
        Ends-bind _ _ (Ends-conn_write _)
          (λ _. Ends-bind _ _ read_line-Ends (λ status. Ends-modify _))

    Ends-if : (b : Bool) → Ends (if b then read_status dev fuel else raise refused)
    unfolding raise
    Ends-if true = read_status-Ends
    Ends-if false = record { ends = λ s. refl }

    identify-Ends : Ends (identify dev fuel)
    unfolding identify
    identify-Ends =
        Ends-bind _ _ (Ends-conn_write _) (λ _. Ends-bind _ _ read_line-Ends (λ line. Ends-if _))

    program-Ends : (index freq : ℕ) → Ends (program dev fuel index freq)
    unfolding program
    program-Ends index freq =
        Ends-bind _ _ (Ends-gets _)
          (λ s. Ends-bind _ _ (Ends-conn_write _) (λ _. wait_for-Ends turns fuel _ h lt))

    program_all-Ends : (index : ℕ) (freqs : List ℕ) → Ends (program_all dev fuel index freqs)
    unfolding program_all
    program_all-Ends index [] = Ends-pure tt
    program_all-Ends index (freq ∷ freqs) =
        Ends-bind _ _ (program-Ends index freq) (λ _. program_all-Ends (index + 1) freqs)

    initialise-Ends : Ends (initialise dev)
    unfolding initialise
    initialise-Ends = Ends-bind _ _ (Ends-gets _) (λ s. write_all-Ends _)

    configure-Ends : (freqs : List ℕ) (rate : ℕ) → Ends (configure dev fuel freqs rate)
    unfolding configure raise
    configure-Ends [] rate = record { ends = λ s. refl }
    configure-Ends (freq ∷ freqs) rate =
        Ends-bind _ _ (Ends-modify _)
          (λ _. Ends-bind _ _ (program_all-Ends 0 (freq ∷ freqs)) (λ _. initialise-Ends))

    -- `identify` and `configure` end whatever the device sends and however long its answers are: if
    -- every deadline has passed `turns` turns after it was set, then with one turn more neither
    -- `identify` nor `configure`, with any number of channels, is short of turns. Nothing is said of
    -- `connect`, which begins with the drain.
    pub identify-configure_ends :
        (freqs : List ℕ) (rate : ℕ) (s t : Link)
        → (is_short (identify dev fuel s).0 ≡ false)
          × (is_short (configure dev fuel freqs rate t).0 ≡ false)
    identify-configure_ends freqs rate s t =
        (identify-Ends.ends s, (configure-Ends freqs rate).ends t)

-- ===== src/Callisto/Driver/Handshake/Program.antt =====
-- What `configure` writes to a device that acknowledges each channel.
use e_callisto_ng.Prelude.{
  ℕ, suc, ◌+◌, ◌<◌, ◌≡◌, refl, sym, ap, subst, ◌∙◌, true, false, List, [], ◌∷◌, ◌++◌, append-nil,
  append_assoc, length, arith, ltb,
}
use e_callisto_ng.Callisto.Protocol.{channel_command, eeprom_ready, init_commands}
use e_callisto_ng.Callisto.Driver.Monad.{
  Device, Io, Link, Op, chunk, closing, conn_read, conn_write, done, gets, modify, monotonic, pure,
  reading, warned, wrote, ◌>>=◌,
}
use e_callisto_ng.Callisto.Driver.{fill, pixel_rate, write_all}
use e_callisto_ng.Callisto.Driver.Handshake.{
  configure, handshake_timeout, initialise, program, program_all, until_marker, wait_for,
}

-- The device takes every write, acknowledges within one read, and answers in time.
pub record IsPrompt (dev : Device) : Type 0 where
  pub answers : (i : ℕ) → dev.reply i ≡ chunk (eeprom_ready ∷ [])
  pub writes : (i : ℕ) → dev.write_fails i ≡ false
  pub first : (i : ℕ) → dev.clock (i + 1) < dev.clock i + handshake_timeout
  pub second : (i : ℕ) → dev.clock (i + 3) < dev.clock i + handshake_timeout

-- The commands among what was done, in order.
abbrev pub written : List Op → List (List ℕ)
written [] = []
written (wrote bytes ∷ ops) = bytes ∷ written ops
written (reading ∷ ops) = written ops
written (closing ∷ ops) = written ops
written (warned b t ∷ ops) = written ops

pub written-append : (ops more : List Op) → written (ops ++ more) ≡ written ops ++ written more
written-append [] more = refl
written-append (wrote b ∷ ops) more = rw (written-append ops more)
written-append (reading ∷ ops) more = written-append ops more
written-append (closing ∷ ops) more = written-append ops more
written-append (warned b t ∷ ops) more = written-append ops more

-- The commands for the channels, numbered from `index`.
abbrev pub channel_commands : Link → ℕ → List ℕ → List (List ℕ)
channel_commands s index [] = []
channel_commands s index (freq ∷ freqs) =
    channel_command index freq s.firmware s.config.local_oscillator s.config.chargepump
    ∷ channel_commands s (index + 1) freqs

-- The commands of `initialise`.
abbrev pub setup_commands : Link → List (List ℕ)
setup_commands s =
    init_commands s.config.clocksource (pixel_rate s) s.config.agclevel s.config.chargepump

abbrev pub planned : List ℕ → ℕ → Link → Link
planned freqs rate s = record s { nchannels = length freqs; sweep_rate = rate }

-- Nothing waits to be read, and the settings are those of `s`.
pub record IsLike (s t : Link) : Type 0 where
  pub rx : t.rx ≡ []
  pub firmware : t.firmware ≡ s.firmware
  pub config : t.config ≡ s.config
  pub nchannels : t.nchannels ≡ s.nchannels
  pub sweep_rate : t.sweep_rate ≡ s.sweep_rate

IsLike-trans : (s t u : Link) → IsLike s t → IsLike t u → IsLike s u
IsLike-trans s t u h k = record {
  rx = k.rx;
  firmware = k.firmware ∙ h.firmware;
  config = k.config ∙ h.config;
  nchannels = k.nchannels ∙ h.nchannels;
  sweep_rate = k.sweep_rate ∙ h.sweep_rate;
}

-- An action that ends with a result, and writes these commands.
pub record Writes {A : Type 0} (m : Io A) (s : Link) (cmds : List (List ℕ)) : Type 0 where
  pub result : A
  pub ended : (m s).0 ≡ done result
  pub wrote : written (m s).1.log ≡ written s.log ++ cmds
  pub like : IsLike s (m s).1

module _ {A B : Type 0} where
  Writes-bind :
      (m : Io A) (f : A → Io B) (s : Link) (cmds more : List (List ℕ))
      → Writes m s cmds
      → ((a : A) (t : Link) → IsLike s t → Writes (f a) t more)
      → Writes (m >>= f) s (cmds ++ more)
  unfolding ◌>>=◌
  Writes-bind m f s cmds more h k =
      let next = k h.result (m s).1 h.like in
      record {
        result = next.result;
        ended = rw h.ended next.ended;
        wrote =
            rw h.ended (
              next.wrote
              ∙ ap (λ ops. ops ++ more) h.wrote
              ∙ append_assoc (written s.log) cmds more);
        like = rw h.ended (IsLike-trans s (m s).1 _ h.like next.like);
      }

Writes-gets :
    {A : Type 0} (k : Link → Io A) (s : Link) (cmds : List (List ℕ))
    → Writes (k s) s cmds
    → Writes (gets (λ s. s) >>= k) s cmds
unfolding gets ◌>>=◌
Writes-gets k s cmds h = record {
  result = h.result;
  ended = h.ended;
  wrote = h.wrote;
  like = h.like;
}

module _ (dev : Device) (p : IsPrompt dev) where
  Writes-conn_write :
      (bytes : List ℕ) (s : Link) → s.rx ≡ [] → Writes (conn_write dev bytes) s (bytes ∷ [])
  unfolding conn_write
  Writes-conn_write bytes s e = record {
    result = tt;
    ended = rw (p.writes s.calls) refl;
    wrote = written-append s.log (wrote bytes ∷ []);
    like = record { rx = e; firmware = refl; config = refl; nchannels = refl; sweep_rate = refl };
  }

  waited : Link → Link
  waited s = record s { rx = []; calls = s.calls + 1 + 1 + 1 + 1; log = s.log ++ reading ∷ [] }

  wait_for_once :
      (fuel : ℕ) (s : Link)
      → s.rx ≡ []
      → wait_for dev (suc (suc fuel)) eeprom_ready s ≡ (done [], waited s)
  unfolding wait_for until_marker monotonic gets fill conn_read modify pure ◌>>=◌ waited
  wait_for_once fuel s e =
      let early : ltb (dev.clock (s.calls + 1)) (dev.clock s.calls + handshake_timeout) ≡ true =
        ground (arith, p.first s.calls) in
      let late : ltb (dev.clock (s.calls + 1 + 1 + 1)) (dev.clock s.calls + handshake_timeout)
          ≡ true =
        ground (arith, p.second s.calls) in
      simp (early, e, p.answers (s.calls + 1 + 1), late) refl

  wait_for-Writes :
      (fuel : ℕ) (s : Link) → s.rx ≡ [] → Writes (wait_for dev (suc (suc fuel)) eeprom_ready) s []
  unfolding waited
  wait_for-Writes fuel s e = record {
    result = [];
    ended = rw (wait_for_once fuel s e) refl;
    wrote = rw (wait_for_once fuel s e) (written-append s.log (reading ∷ []));
    like =
        rw (wait_for_once fuel s e) (record {
          rx = refl;
          firmware = refl;
          config = refl;
          nchannels = refl;
          sweep_rate = refl;
        });
  }

  write_all-Writes :
      (cmds : List (List ℕ)) (s : Link) → s.rx ≡ [] → Writes (write_all dev cmds) s cmds
  unfolding write_all pure
  write_all-Writes [] s e = record {
    result = tt;
    ended = refl;
    wrote = sym (append-nil (written s.log));
    like = record { rx = e; firmware = refl; config = refl; nchannels = refl; sweep_rate = refl };
  }
  write_all-Writes (c ∷ cs) s e =
      Writes-bind _ _ s (c ∷ []) cs (Writes-conn_write c s e) (λ a t l. write_all-Writes cs t l.rx)

  program-Writes :
      (fuel index freq : ℕ) (s : Link)
      → s.rx ≡ []
      → Writes (program dev (suc (suc fuel)) index freq) s (channel_commands s index (freq ∷ []))
  unfolding program
  program-Writes fuel index freq s e =
      Writes-gets _ s _
        (Writes-bind _ _ s _ [] (Writes-conn_write _ s e) (λ a t l. wait_for-Writes fuel t l.rx))

  channel_commands_like :
      (index : ℕ) (freqs : List ℕ) (s t : Link)
      → IsLike s t
      → channel_commands t index freqs ≡ channel_commands s index freqs
  channel_commands_like index [] s t l = refl
  channel_commands_like index (freq ∷ freqs) s t l =
      rw (channel_commands_like (index + 1) freqs s t l) (simp (l.firmware, l.config) refl)

  program_all-Writes :
      (fuel index : ℕ) (freqs : List ℕ) (s : Link)
      → s.rx ≡ []
      → Writes (program_all dev (suc (suc fuel)) index freqs) s (channel_commands s index freqs)
  unfolding program_all pure write_all
  program_all-Writes fuel index [] s e = write_all-Writes [] s e
  program_all-Writes fuel index (freq ∷ freqs) s e =
      Writes-bind _ _ s _ (channel_commands s (index + 1) freqs)
        (program-Writes fuel index freq s e)
        (λ a t l.
          subst (Writes _ t) (channel_commands_like (index + 1) freqs s t l)
            (program_all-Writes fuel (index + 1) freqs t l.rx))

  setup_commands_like : (s t : Link) → IsLike s t → setup_commands t ≡ setup_commands s
  unfolding pixel_rate
  setup_commands_like s t l = simp (l.config, l.nchannels, l.sweep_rate) refl

  initialise-Writes : (s : Link) → s.rx ≡ [] → Writes (initialise dev) s (setup_commands s)
  unfolding initialise
  initialise-Writes s e = Writes-gets _ s _ (write_all-Writes _ s e)

  -- Given a device that takes every write and acknowledges each channel in time, and nothing left to
  -- read from before, `configure` succeeds, and what it has written is, in this order, the command
  -- of every channel, numbered from 1, and the initialisation for as many channels at that rate.
  pub configure_programs :
      (fuel freq : ℕ) (freqs : List ℕ) (rate : ℕ) (s : Link)
      → s.rx ≡ []
      → let (outcome, t) = configure dev (suc (suc fuel)) (freq ∷ freqs) rate s in
        (outcome ≡ done tt)
        × (written t.log
            ≡ written s.log
              ++ (channel_commands s 0 (freq ∷ freqs)
                  ++ setup_commands (planned (freq ∷ freqs) rate s)))
  unfolding configure modify ◌>>=◌
  configure_programs fuel freq freqs rate s e =
      let s' = planned (freq ∷ freqs) rate s in
      let all =
        Writes-bind _ _ s' _ (setup_commands s') (program_all-Writes fuel 0 (freq ∷ freqs) s' e)
          (λ a t l. subst (Writes _ t) (setup_commands_like s' t l) (initialise-Writes t l.rx)) in
      (
        all.ended,
        all.wrote
            ∙ ap (λ c. written s.log ++ (c ++ setup_commands s')) (same_commands 0 (freq ∷ freqs)),
      )
    where
      same_commands :
          (index : ℕ) (fs : List ℕ)
          → channel_commands (planned (freq ∷ freqs) rate s) index fs ≡ channel_commands s index fs
      same_commands index [] = refl
      same_commands index (f ∷ fs) = rw (same_commands (index + 1) fs) refl

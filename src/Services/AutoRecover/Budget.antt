-- ===== src/Services/AutoRecover/Budget.antt =====
-- How often the automated recovery acts.
use e_callisto_ng.Prelude.{
  ℕ, ◌+◌, ◌<◌, ◌≡◌, refl, sym, ap, subst, Bool, true, false, Bool-cases, inl, inr, Option, none,
  some, List, [], ◌∷◌, ◌++◌, append-nil, length, leb, ◌==◌, put, if◌then◌else◌, arith,
}
use e_callisto_ng.Window.{
  IsLimited, IsLimited-start, IsLimited-later, IsLimited-expire, IsLimited-grant, IsSpaced, expire,
}
use e_callisto_ng.Services.Runtime.{RecorderRuntime, is_late, stall_bound}
use e_callisto_ng.Services.AutoRecover.{
  AutoRecover, Effect, Settings, alert, alert_once, attempt, consider, consider_row, expired,
  hook_recover, new_auto,
}

-- The times at which the hook was run for one instrument, and its alerts.
abbrev pub hooks : ℕ → List Effect → List ℕ
hooks i [] = []
hooks i (hook_recover k t ∷ es) = if k == i then t ∷ hooks i es else hooks i es
hooks i (alert k ∷ es) = hooks i es

abbrev pub alerts : ℕ → List Effect → ℕ
alerts i [] = 0
alerts i (hook_recover k t ∷ es) = alerts i es
alerts i (alert k ∷ es) = if k == i then 1 + alerts i es else alerts i es

hooks-append : (i : ℕ) (xs ys : List Effect) → hooks i (xs ++ ys) ≡ hooks i xs ++ hooks i ys
hooks-append i [] ys = refl
hooks-append i (hook_recover k t ∷ xs) ys = elim (Bool-cases (k == i)) [
  | inl same ↦ rw same (ap (λ r. t ∷ r) (hooks-append i xs ys))
  | inr other ↦ rw other (hooks-append i xs ys)
]
hooks-append i (alert k ∷ xs) ys = hooks-append i xs ys

pub alerts-append : (i : ℕ) (xs ys : List Effect) → alerts i (xs ++ ys) ≡ alerts i xs + alerts i ys
alerts-append i [] ys = omega arith
alerts-append i (hook_recover k t ∷ xs) ys = alerts-append i xs ys
alerts-append i (alert k ∷ xs) ys = ground (arith, alerts-append i xs ys)

-- One call of `consider`: the instrument, its sweep rate, its row and the time.
pub record Call : Type 0 where
  pub id : ℕ
  pub rate : ℕ
  pub row : Option RecorderRuntime
  pub now : ℕ

at : (k i : ℕ) → (k == i) ≡ true → k ≡ i
at k i h = ground arith

-- A run of calls with the effects of all, oldest first.
abbrev pub run : Settings → List Call → AutoRecover → List Effect → AutoRecover × List Effect
run cfg [] a log = (a, log)
run cfg (c ∷ cs) a log =
    let (b, es) = consider cfg c.id c.rate c.row c.now a in run cfg cs b (log ++ es)

-- The clock does not go back.
abbrev pub is_ordered : ℕ → List Call → Bool
is_ordered t [] = true
is_ordered t (c ∷ cs) = if leb t c.now then is_ordered c.now cs else false

module _ (cfg : Settings) where
  IsKept : ℕ → ℕ → AutoRecover → List Effect → Type 0
  IsKept i now a log =
      IsLimited cfg.auto_recover_window cfg.auto_recover_budget now (hooks i log) (a.history i)

  IsKept-quiet :
      (i now : ℕ) (a b : AutoRecover) (log es : List Effect)
      → hooks i es ≡ []
      → b.history i ≡ a.history i
      → IsKept i now a log
      → IsKept i now b (log ++ es)
  unfolding IsKept
  IsKept-quiet i now a b log es e f h =
      rw (hooks-append i log es) (rw e (rw f (rw (append-nil (hooks i log)) h)))

  IsKept-granted :
      (i now : ℕ) (a b : AutoRecover) (log es : List Effect)
      → hooks i es ≡ now ∷ []
      → b.history i ≡ a.history i ++ now ∷ []
      → length (a.history i) < cfg.auto_recover_budget
      → IsKept i now a log
      → IsKept i now b (log ++ es)
  unfolding IsKept
  IsKept-granted i now a b log es e f room h = rw (hooks-append i log es) (
      rw e (
        rw f (
          IsLimited-grant cfg.auto_recover_window cfg.auto_recover_budget now (hooks i log)
            (a.history i) h room)))

  alert_once-IsKept :
      (k i now : ℕ) (a : AutoRecover) (log : List Effect)
      → IsKept i now a log
      → IsKept i now (alert_once cfg k a).0 (log ++ (alert_once cfg k a).1)
  unfolding alert_once
  alert_once-IsKept k i now a log h = elim (Bool-cases (a.alerted k)) [
    | inl told ↦ rw told (IsKept-quiet i now a a log [] refl refl h)
    | inr silent ↦ rw silent (
        IsKept-quiet i now a (record a { alerted = put a.alerted k true }) log (alert k ∷ []) refl
          refl h)
  ]

  granted : ℕ → ℕ → AutoRecover → AutoRecover
  granted k now a = record a { history = put a.history k (a.history k ++ now ∷ []) }

  granted-IsKept :
      (k i now : ℕ) (a : AutoRecover) (log : List Effect)
      → length (a.history k) < cfg.auto_recover_budget
      → IsKept i now a log
      → IsKept i now (granted k now a) (log ++ hook_recover k now ∷ [])
  unfolding granted
  granted-IsKept k i now a log room h = elim (Bool-cases (k == i)) [
    | inl same ↦
        IsKept-granted i now a (granted k now a) log (hook_recover k now ∷ []) (rw same refl)
          (rw same (ap (λ m. a.history m ++ now ∷ []) (at k i same)))
          (subst (λ m. length (a.history m) < cfg.auto_recover_budget) (at k i same) room) h
    | inr other ↦
        IsKept-quiet i now a (granted k now a) log (hook_recover k now ∷ []) (rw other refl)
          (rw other refl) h
  ]

  attempt-IsKept :
      (k i now : ℕ) (a : AutoRecover) (log : List Effect)
      → IsKept i now a log
      → IsKept i now (attempt cfg k now a).0 (log ++ (attempt cfg k now a).1)
  unfolding attempt granted
  attempt-IsKept k i now a log h =
      elim (Bool-cases (leb cfg.auto_recover_budget (length (a.history k)))) [
        | inl full ↦ rw full (alert_once-IsKept k i now a log h)
        | inr room ↦ rw room (granted-IsKept k i now a log (ground arith) h)
      ]

  expired-IsKept :
      (k i now : ℕ) (a : AutoRecover) (log : List Effect)
      → IsKept i now a log
      → IsKept i now (expired cfg k now a) log
  unfolding expired IsKept
  expired-IsKept k i now a log h = elim (Bool-cases (k == i)) [
    | inl same ↦ rw same (
        subst
          (λ m.
            IsLimited cfg.auto_recover_window cfg.auto_recover_budget now (hooks i log)
              (expire cfg.auto_recover_window now (a.history m)))
          (sym (at k i same))
          (IsLimited-expire cfg.auto_recover_window cfg.auto_recover_budget now (hooks i log)
            (a.history i) h))
    | inr other ↦ rw other h
  ]

  consider_row-IsKept :
      (k i rate : ℕ) (row : Option RecorderRuntime) (now : ℕ) (a : AutoRecover) (log : List Effect)
      → IsKept i now a log
      → IsKept i now
          (consider_row cfg k rate row now a).0
          (log ++ (consider_row cfg k rate row now a).1)
  unfolding consider_row
  consider_row-IsKept k i rate none now a log h = IsKept-quiet i now a a log [] refl refl h
  consider_row-IsKept k i rate (some r) now a log h =
      elim (Bool-cases (is_late (stall_bound cfg.stall_grace rate) r now)) [
        | inl late ↦
            rw late
              (attempt-IsKept k i now (expired cfg k now a) log (expired-IsKept k i now a log h))
        | inr fine ↦
            rw fine (
              IsKept-quiet i now a (record a { alerted = put a.alerted k false }) log [] refl refl
                h)
      ]

  consider-IsKept :
      (c : Call) (i : ℕ) (a : AutoRecover) (log : List Effect)
      → IsKept i c.now a log
      → IsKept i c.now
          (consider cfg c.id c.rate c.row c.now a).0
          (log ++ (consider cfg c.id c.rate c.row c.now a).1)
  unfolding consider
  consider-IsKept c i a log h = elim (Bool-cases cfg.auto_recover) [
    | inl on ↦ simp on (consider_row-IsKept c.id i c.rate c.row c.now a log h)
    | inr off ↦ simp off (IsKept-quiet i c.now a a log [] refl refl h)
  ]

  run-IsSpaced :
      (i now : ℕ) (cs : List Call) (a : AutoRecover) (log : List Effect)
      → is_ordered now cs ≡ true
      → IsKept i now a log
      → IsSpaced cfg.auto_recover_window cfg.auto_recover_budget (hooks i (run cfg cs a log).1)
  unfolding IsKept
  run-IsSpaced i now [] a log o h = h.spaced
  run-IsSpaced i now (c ∷ cs) a log o h =
      run-IsSpaced i c.now cs (consider cfg c.id c.rate c.row c.now a).0
        (log ++ (consider cfg c.id c.rate c.row c.now a).1) (ground arith)
        (consider-IsKept c i a log (
          IsLimited-later cfg.auto_recover_window cfg.auto_recover_budget now c.now (hooks i log)
            (a.history i) (ground arith) h))

-- However the rows of the instruments go and in whatever order they are considered, while the
-- clock does not go back the host's recovery hook is run for one instrument at most
-- `auto_recover_budget` times in any closed interval as long as the window.
pub consider_run-IsSpaced :
    (cfg : Settings) (cs : List Call) (i : ℕ)
    → is_ordered 0 cs ≡ true
    → IsSpaced cfg.auto_recover_window cfg.auto_recover_budget (hooks i (run cfg cs new_auto []).1)
unfolding IsKept
consider_run-IsSpaced cfg cs i o =
    run-IsSpaced cfg i 0 cs new_auto [] o
      (IsLimited-start cfg.auto_recover_window cfg.auto_recover_budget 0)

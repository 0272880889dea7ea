-- ===== src/Services/AutoRecover/Escalation.antt =====
-- The alert that stands in for an exhausted budget.
use e_callisto_ng.Prelude.{
  ℕ, ◌+◌, ◌≡◌, refl, ap, ◌∙◌, Bool, true, false, not, ◌&&◌, ◌||◌, Option, none, some, List, [], ◌∷◌,
  ◌++◌, ◌==◌, leb, length, put_same, put_other, if◌then◌else◌, arith,
}
use e_callisto_ng.Window.{expire}
use e_callisto_ng.Services.Runtime.{RecorderRuntime, is_late, stall_bound}
use e_callisto_ng.Services.AutoRecover.{
  AutoRecover, Effect, Settings, alert_once, attempt, consider, consider_row, expired, new_auto,
}
use e_callisto_ng.Services.AutoRecover.Budget.{Call, alerts, alerts-append, run}

-- Whether a call finds the frames within the stall bound, and whether it finds them late.
abbrev pub is_fine : Settings → ℕ → Option RecorderRuntime → ℕ → Bool
is_fine cfg rate none now = false
is_fine cfg rate (some r) now = not (is_late (stall_bound cfg.stall_grace rate) r now)

abbrev pub finds_late : Settings → ℕ → Option RecorderRuntime → ℕ → Bool
finds_late cfg rate none now = false
finds_late cfg rate (some r) now = is_late (stall_bound cfg.stall_grace rate) r now

-- The calls are no end of a stall of the instrument.
abbrev pub lasts : Settings → ℕ → List Call → Bool
lasts cfg i [] = true
lasts cfg i (c ∷ cs) = not (c.id == i && is_fine cfg c.rate c.row c.now) && lasts cfg i cs

-- A call for the instrument finds its frames late, and as many recoveries in the window as there
-- may be.
abbrev pub is_spent : Settings → ℕ → Call → AutoRecover → Bool
is_spent cfg i c a =
    c.id == i
    && (finds_late cfg c.rate c.row c.now
        && leb cfg.auto_recover_budget
            (length (expire cfg.auto_recover_window c.now (a.history c.id))))

abbrev pub any_spent : Settings → ℕ → List Call → AutoRecover → Bool
any_spent cfg i [] a = false
any_spent cfg i (c ∷ cs) a =
    is_spent cfg i c a || any_spent cfg i cs (consider cfg c.id c.rate c.row c.now a).0

abbrev one_if : Bool → ℕ
one_if b = if b then 1 else 0

or_assoc : (x y z : Bool) → one_if ((x || y) || z) ≡ one_if (x || (y || z))
or_assoc true y z = refl
or_assoc false y z = refl

module _ (cfg : Settings) (i : ℕ) (on : cfg.auto_recover ≡ true) where
  attempt_alerted :
      (k now : ℕ) (a : AutoRecover)
      → ((attempt cfg k now a).0.alerted i
          ≡ (a.alerted i || (k == i && leb cfg.auto_recover_budget (length (a.history k)))))
        × (alerts i (attempt cfg k now a).1 + one_if (a.alerted i)
            ≡ one_if ((attempt cfg k now a).0.alerted i))
  unfolding attempt alert_once
  attempt_alerted k now a = (
    ground (arith, put_same a.alerted k true, put_other a.alerted k i true),
    ground (arith, put_same a.alerted k true, put_other a.alerted k i true),
  )

  row_alerted :
      (k rate : ℕ) (row : Option RecorderRuntime) (now : ℕ) (a : AutoRecover)
      → (k == i && is_fine cfg rate row now) ≡ false
      → ((consider_row cfg k rate row now a).0.alerted i ≡ (
          a.alerted i
          || (k == i
              && (finds_late cfg rate row now
                  && leb cfg.auto_recover_budget
                      (length (expire cfg.auto_recover_window now (a.history k)))))))
        × (alerts i (consider_row cfg k rate row now a).1 + one_if (a.alerted i)
            ≡ one_if ((consider_row cfg k rate row now a).0.alerted i))
  unfolding consider_row expired
  row_alerted k rate none now a h = (ground arith, omega arith)
  row_alerted k rate (some r) now a h = (
    ground (
      arith,
      attempt_alerted k now (expired cfg k now a),
      put_same a.history k (expire cfg.auto_recover_window now (a.history k)),
      put_other a.alerted k i false,
    ),
    ground (arith, attempt_alerted k now (expired cfg k now a), put_other a.alerted k i false),
  )

  consider_alerted :
      (c : Call) (a : AutoRecover)
      → (c.id == i && is_fine cfg c.rate c.row c.now) ≡ false
      → ((consider cfg c.id c.rate c.row c.now a).0.alerted i ≡ (a.alerted i || is_spent cfg i c a))
        × (alerts i (consider cfg c.id c.rate c.row c.now a).1 + one_if (a.alerted i)
            ≡ one_if ((consider cfg c.id c.rate c.row c.now a).0.alerted i))
  unfolding consider
  consider_alerted c a h = simp on (row_alerted c.id c.rate c.row c.now a h)

  row_fine :
      (rate : ℕ) (row : Option RecorderRuntime) (now : ℕ) (a : AutoRecover)
      → is_fine cfg rate row now ≡ true
      → (consider_row cfg i rate row now a).0.alerted i ≡ false
  unfolding consider_row
  row_fine rate none now a f = ground arith
  row_fine rate (some r) now a f = ground (arith, put_same a.alerted i false)

  consider_fine :
      (c : Call) (a : AutoRecover)
      → c.id ≡ i
      → is_fine cfg c.rate c.row c.now ≡ true
      → (consider cfg c.id c.rate c.row c.now a).0.alerted i ≡ false
  unfolding consider
  consider_fine c a h f = rw h (simp on (row_fine c.rate c.row c.now a f))

  run_stall :
      (cs : List Call) (a : AutoRecover) (log : List Effect)
      → lasts cfg i cs ≡ true
      → alerts i (run cfg cs a log).1 + one_if (a.alerted i)
        ≡ alerts i log + one_if (a.alerted i || any_spent cfg i cs a)
  run_stall [] a log h = ground arith
  run_stall (c ∷ cs) a log h =
      let (a', es) = consider cfg c.id c.rate c.row c.now a in
      omega (
        arith,
        run_stall cs a' (log ++ es) (ground arith),
        (consider_alerted c a (ground arith)).1,
        alerts-append i log es,
        ap (λ b. one_if (b || any_spent cfg i cs a')) (consider_alerted c a (ground arith)).0,
        or_assoc (a.alerted i) (is_spent cfg i c a) (any_spent cfg i cs a'),
      )

run-append :
    (cfg : Settings) (cs : List Call) (c : Call) (a : AutoRecover) (log : List Effect)
    → (run cfg (cs ++ c ∷ []) a log).0
      ≡ (consider cfg c.id c.rate c.row c.now (run cfg cs a log).0).0
run-append cfg [] c a log = refl
run-append cfg (d ∷ cs) c a log =
    let (a', es) = consider cfg d.id d.rate d.row d.now a in run-append cfg cs c a' (log ++ es)

-- With automated recovery on: after any calls, the last of which found the instrument's frames within
-- the stall bound, and over calls of which none finds them so again, one alert for the instrument
-- is sent if one of these finds its frames late and its budget of recoveries used up, however many of
-- them do, and none if none does.
pub consider_run-alerts :
    (cfg : Settings) (i : ℕ) (before : List Call) (c : Call) (cs : List Call)
    → cfg.auto_recover ≡ true
    → c.id ≡ i
    → is_fine cfg c.rate c.row c.now ≡ true
    → lasts cfg i cs ≡ true
    → let (a, log) = run cfg (before ++ c ∷ []) new_auto [] in
      alerts i (run cfg cs a log).1 ≡ alerts i log + (if any_spent cfg i cs a then 1 else 0)
consider_run-alerts cfg i before c cs on same fine stalled =
    let (a, log) = run cfg (before ++ c ∷ []) new_auto [] in
    let quiet : a.alerted i ≡ false =
      ap (λ b. b.alerted i) (run-append cfg before c new_auto [])
      ∙ consider_fine cfg i on c (run cfg before new_auto []).0 same fine in
    let counted = run_stall cfg i on cs a log stalled in ground arith

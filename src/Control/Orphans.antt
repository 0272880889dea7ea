-- ===== src/Control/Orphans.antt =====
-- Requests of src/ecallisto_ng/api/routes/instruments.py in one process, and ticks of
-- src/ecallisto_ng/services/scheduler_service.py in another, over one table.
use e_callisto_ng.Prelude.{
  ℕ, ◌≡◌, refl, ◌∙◌, Bool, true, false, not, Bool-cases, inl, inr, Option, none, some, List, [],
  ◌∷◌, all, arith,
}
use e_callisto_ng.Services.Recorder.{Jobs}
use e_callisto_ng.Services.Scheduler.{Env, Instrument, World, desired, tick, visit, visit_some}
use e_callisto_ng.Services.Scheduler.Visit.{visit_other}
use e_callisto_ng.Services.Scheduler.Settled.{has_id, is_listed}
use e_callisto_ng.Control.{Outside, Request, Site, serve}

-- The registry of the web process, and the daemon's world, whose table both use.
pub record System : Type 0 where
  pub web : Jobs
  pub daemon : World

pub data Event : Type 0 where
  request : ℕ → Request → Event
  ticked : Env → ℕ → List Instrument → Event

abbrev pub after_request : System → Site → System
after_request y s = record { web = s.jobs; daemon = record y.daemon { rows = s.rows } }

abbrev pub happen : Outside → Event → System → System
happen x (request now q) y =
    after_request y (serve x now q (record { jobs = y.web; rows = y.daemon.rows })).1
happen x (ticked v now insts) y = record y { daemon = (tick v now insts y.daemon).world }

abbrev pub happen_all : Outside → List Event → System → System
happen_all x [] y = y
happen_all x (e ∷ es) y = happen_all x es (happen x e y)

-- A tick whose enabled instruments do not include `i`.
abbrev pub leaves_out : ℕ → Event → Bool
leaves_out i (request now q) = true
leaves_out i (ticked v now insts) = not (is_listed i insts)

module _ (v : Env) (now i : ℕ) where
  visit_some_other :
      (id : Option ℕ) (rate : ℕ) (w : World)
      → has_id i id ≡ false
      → (visit_some v now id rate w).world.jobs i ≡ w.jobs i
  unfolding visit
  visit_some_other none rate w h = refl
  visit_some_other (some k) rate w h =
      visit_other v now k rate w (desired v now k w.rows) i (ground (arith, h))

  tick_unlisted :
      (insts : List Instrument) (w : World)
      → is_listed i insts ≡ false
      → (tick v now insts w).world.jobs i ≡ w.jobs i
  unfolding tick
  tick_unlisted [] w h = refl
  tick_unlisted (inst ∷ insts) w h =
      let t = visit_some v now inst.id inst.sweep_rate w in
      let first = visit_some_other inst.id inst.sweep_rate w (ground (arith, h)) in
      let rest = tick_unlisted insts t.world (ground (arith, h)) in
      elim (Bool-cases t.raised) [ inl up ↦ simp up first | inr down ↦ simp down (rest ∙ first) ]

-- A recording of the daemon whose instrument is in no tick, as one that was disabled or deleted,
-- goes on unchanged over any requests, stops of it included, and any ticks: its job is never
-- asked to stop.
pub orphan_goes_on :
    (x : Outside) (i : ℕ) (es : List Event) (y : System)
    → all (leaves_out i) es ≡ true
    → (happen_all x es y).daemon.jobs i ≡ y.daemon.jobs i
orphan_goes_on x i [] y h = refl
orphan_goes_on x i (e ∷ es) y h =
    orphan_goes_on x i es (happen x e y) (ground (arith, h)) ∙ one e (ground (arith, h))
  where
    one : (e : Event) → leaves_out i e ≡ true → (happen x e y).daemon.jobs i ≡ y.daemon.jobs i
    one (request now q) k = refl
    one (ticked v now insts) k = tick_unlisted v now i insts y.daemon (ground (arith, k))

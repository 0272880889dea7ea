-- ===== src/Control/Intent.antt =====
-- The scheduler of src/ecallisto_ng/services/scheduler_service.py after the requests of
-- src/ecallisto_ng/api/routes/instruments.py.
use e_callisto_ng.Prelude.{
  ℕ, ◌≡◌, refl, ap, ◌∙◌, Bool, true, false, ◌&&◌, ◌||◌, not, Option, none, some, is_some, List, [],
  ◌∷◌, if◌then◌else◌, ◌==◌,
}
use e_callisto_ng.Prelude.Int.{ℤ}
use e_callisto_ng.Services.Recorder.{
  Jobs, is_recording, job_status, recording, register, status, stop,
}
use e_callisto_ng.Services.Runtime.{Table, row_of, stamped, get_desired, set_desired, upsert}
use e_callisto_ng.Services.Scheduler.{
  Env, Instrument, World, active_schedule, desired, gate_ok, tick,
}
use e_callisto_ng.Services.Scheduler.Visit.{get_desired-write}
use e_callisto_ng.Services.Scheduler.Settled.{is_listed, is_settled, tick_settles}
use e_callisto_ng.Control.{
  not_found, conflict, server_error, served, Outside, Reply, Request, Site, armed, capture,
  is_continuous, overview_instrument, overview_request, record_instrument, record_request, serve,
  serve_all, stop_instrument, stop_request, unless_recording,
}

-- What a request makes of the operator's wish for the recording `j`.
abbrev pub wish : Outside → ℕ → Bool → Request → Bool
wish x j wanted (record_request i frames) =
    if i == j && (x.exists i && is_continuous frames) then true else wanted
wish x j wanted (stop_request i) = if i == j then false else wanted
wish x j wanted (overview_request i) = wanted

abbrev pub wishes : Outside → ℕ → Bool → List (ℕ × Request) → Bool
wishes x j wanted [] = wanted
wishes x j wanted ((now, q) ∷ qs) = wishes x j (wish x j wanted q) qs

get_desired-set_desired :
    (i j now : ℕ) (d : Bool) (rows : Table)
    → get_desired j (set_desired i d now rows) ≡ (if i == j then d else get_desired j rows)
unfolding set_desired upsert
get_desired-set_desired i j now d rows = go (i == j)
  where
    go :
        (b : Bool)
        → (row_of (
            if b
            then some (stamped now (record (row_of (rows i)) { desired = d }))
            else rows j)).desired
          ≡ (if b then d else get_desired j rows)
    go true = refl
    go false = refl

module _ (x : Outside) (now i j : ℕ) where
  capture_keeps : (s : Site) → get_desired j (capture x now i s).1.rows ≡ get_desired j s.rows
  unfolding capture
  capture_keeps s = go (x.busy i) (x.prepares i) (register i s.jobs)
    where
      go :
          (b p : Bool) (o : Option Jobs)
          → get_desired j
              (if b
                then (conflict, s)
                else if p
                then armed x now i s o
                else (server_error, s)).1.rows
            ≡ get_desired j s.rows
      go true p o = refl
      go false false o = refl
      go false true none = refl
      go false true (some jobs) = get_desired-write i j now recording none s.rows

  record_wish :
      (frames : ℤ) (s : Site)
      → get_desired j (record_instrument x now i frames s).1.rows
        ≡ wish x j (get_desired j s.rows) (record_request i frames)
  unfolding record_instrument
  record_wish frames s = go (x.exists i) (is_continuous frames)
    where
      asked :
          (b : Bool)
          → (if b then true else get_desired j s.rows)
            ≡ (if b && true then true else get_desired j s.rows)
      asked true = refl
      asked false = refl

      ignored :
          (b : Bool) → get_desired j s.rows ≡ (if b && false then true else get_desired j s.rows)
      ignored true = refl
      ignored false = refl

      go :
          (e c : Bool)
          → get_desired j
              (if e
                then if c
                  then (served, record s { rows = set_desired i true now s.rows })
                  else capture x now i s
                else (not_found, s)).1.rows
            ≡ (if i == j && (e && c) then true else get_desired j s.rows)
      go false c = ignored (i == j)
      go true false = capture_keeps s ∙ ignored (i == j)
      go true true = get_desired-set_desired i j now true s.rows ∙ asked (i == j)

  stop_wish :
      (s : Site)
      → get_desired j (stop_instrument x now i s).1.rows
        ≡ wish x j (get_desired j s.rows) (stop_request i)
  unfolding stop_instrument
  stop_wish s = go (x.stops i || not (is_recording (job_status (s.jobs i)).state))
    where
      go :
          (b : Bool)
          → get_desired j
              (if◌then◌else◌ {A = Reply × Site} b
                (served, record s { jobs = stop i s.jobs; rows = set_desired i false now s.rows })
                (server_error, record s { rows = set_desired i false now s.rows })).1.rows
            ≡ wish x j (get_desired j s.rows) (stop_request i)
      go true = get_desired-set_desired i j now false s.rows
      go false = get_desired-set_desired i j now false s.rows

  overview_wish :
      (s : Site) → get_desired j (overview_instrument x now i s).1.rows ≡ get_desired j s.rows
  unfolding overview_instrument
  overview_wish s = go (x.exists i)
    where
      go :
          (e : Bool)
          → get_desired j
              (if e then unless_recording x now i (status i s.jobs) s else (not_found, s)).1.rows
            ≡ get_desired j s.rows
      go true = refl
      go false = refl

-- After requests, what is wanted of an instrument.
get_desired-serve_all :
    (x : Outside) (j : ℕ) (qs : List (ℕ × Request)) (s : Site)
    → get_desired j (serve_all x qs s).rows ≡ wishes x j (get_desired j s.rows) qs
get_desired-serve_all x j [] s = refl
get_desired-serve_all x j ((now, q) ∷ qs) s =
    get_desired-serve_all x j qs (serve x now q s).1 ∙ ap (λ wanted. wishes x j wanted qs) (one q)
  where
    one : (q : Request) → get_desired j (serve x now q s).1.rows ≡ wish x j (get_desired j s.rows) q
    one (record_request i frames) = record_wish x now i j frames s
    one (stop_request i) = stop_wish x now i j s
    one (overview_request i) = overview_wish x now i j s

desired_unscheduled :
    (v : Env) (now i : ℕ) (rows : Table)
    → active_schedule v.schedules i ≡ none
    → desired v now i rows ≡ some (get_desired i rows)
unfolding desired
desired_unscheduled v now i rows free = rw free refl

-- Given that every driver is built, every driver returns from the call of the tick that stops it,
-- every overview sweep returns and every window can be computed: a tick of the scheduler that finds the table as any requests left it settles each listed
-- instrument without a schedule to the last of them that counts, a record of no number of
-- sweeps for an instrument that exists or a stop, and to the flag of before without one.
pub tick_obeys :
    (x : Outside) (qs : List (ℕ × Request)) (s : Site)
    → (v : Env) (now : ℕ) (insts : List Instrument) (w : World) → ((k : ℕ) → v.prepares k ≡ true)
    → ((k : ℕ) → v.overview_runs k ≡ true)
    → ((k : ℕ) → v.stops k ≡ true)
    → w.rows ≡ (serve_all x qs s).rows
    → ((k : ℕ) → is_some (desired v now k w.rows) ≡ true)
    → (i : ℕ) → is_listed i insts ≡ true
    → active_schedule v.schedules i ≡ none
    → ((tick v now insts w).raised ≡ false)
      × (is_settled
            (wishes x i (get_desired i s.rows) qs)
            (gate_ok v)
            ((tick v now insts w).world.jobs i)
          ≡ true)
tick_obeys x qs s v now insts w prepares runs stops same reads i listed free =
    tick_settles v now prepares runs stops insts w reads i (wishes x i (get_desired i s.rows) qs)
      listed
      (desired_unscheduled v now i w.rows free
        ∙ ap (λ rows. some (get_desired i rows)) same
        ∙ ap some (get_desired-serve_all x i qs s))

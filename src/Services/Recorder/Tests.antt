-- ===== src/Services/Recorder/Tests.antt =====
-- Two callers of one port.
use e_callisto_ng.Prelude.{ℕ, ◌≡◌, refl, none, some, put}
use e_callisto_ng.Services.PortLock.{
  Reach, System, asking_next, enter_hold, enter_probe, hold, holding_next, inside, later, out,
  start, try_hold,
}
use e_callisto_ng.Services.PortLock.Exclusion.{hold_exclusive}
use e_callisto_ng.Services.Recorder.{Jobs, alive, fresh_job}

-- Actor 1 is about to hold the port, and actor 2 to ask.
abbrev arriving : System
arriving = record { owner = none; pc = put (put (λ a. out) 1 holding_next) 2 asking_next }

arriving-Reach : Reach arriving
arriving-Reach = later (later start (enter_hold 1 refl)) (enter_probe 2 refl)

abbrev held : System
unfolding try_hold
held = (try_hold 1 arriving).1

held-Reach : Reach held
unfolding held try_hold
held-Reach = unfold try_hold in later arriving-Reach (hold 1 refl)

held_inside : held.pc 1 ≡ inside
unfolding held try_hold
held_inside = refl

hold_exclusive_example : ◌≡◌ {A = ℕ} 1 1
hold_exclusive_example = hold_exclusive held 1 1 held-Reach held_inside held_inside

abbrev running : Jobs
running = λ i. some (record fresh_job { thread = alive })

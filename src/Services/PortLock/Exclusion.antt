-- ===== src/Services/PortLock/Exclusion.antt =====
-- Whoever is in the body of `hold` is there alone.
use e_callisto_ng.Prelude.{
  ℕ, ◌≡◌, ◌≢◌, refl, sym, ap, subst, Bool, true, false, Option, none, some, ◌==◌, arith,
}
use e_callisto_ng.Services.PortLock.{
  Pc, Reach, Step, System, answer, asking_next, enter_hold, enter_probe, hold, holding_next, inside,
  later, leave, stepped, out, probe, probing, release, start, take_if_free, try_hold, try_probe,
}

abbrev pub has_lock : Pc → Bool
has_lock inside = true
has_lock probing = true
has_lock p = false

abbrev pub is_owner : Option ℕ → ℕ → Bool
is_owner none a = false
is_owner (some b) a = b == a

-- The kernel's owner of the lock is exactly the actor that acts as if it had it.
pub record IsHonest (s : System) : Type 0 where
  pub owned : (a : ℕ) → has_lock (s.pc a) ≡ is_owner s.owner a

stepped_kept :
    (a : ℕ) (p : Pc) (s : System)
    → IsHonest s
    → has_lock p ≡ has_lock (s.pc a)
    → IsHonest (stepped a p s.owner s)
stepped_kept a p s h e = record { owned = λ b. ground (arith, h.owned b, h.owned a) }

stepped_taken :
    (a : ℕ) (p : Pc) (s : System)
    → IsHonest s
    → s.owner ≡ none
    → has_lock p ≡ true
    → IsHonest (stepped a p (some a) s)
stepped_taken a p s h o e = record { owned = λ b. ground (arith, h.owned b) }

stepped_freed :
    (a : ℕ) (s : System) → IsHonest s → has_lock (s.pc a) ≡ true → IsHonest (release a s)
unfolding release
stepped_freed a s h e = record { owned = λ b. ground (arith, h.owned b, h.owned a) }

taken-IsHonest :
    (o : Option ℕ) (a : ℕ) (p : Pc) (s : System)
    → s.owner ≡ o
    → has_lock p ≡ true
    → has_lock (s.pc a) ≡ false
    → IsHonest s
    → IsHonest (take_if_free o a p s).1
taken-IsHonest none a p s e l n h = stepped_taken a p s h e l
taken-IsHonest (some b) a p s e l n h =
    subst (λ o. IsHonest (stepped a out o s)) e (stepped_kept a out s h (sym n))

Step-IsHonest : {s t : System} → Step s t → IsHonest s → IsHonest t
unfolding try_hold try_probe
Step-IsHonest {s} (enter_hold a e) h = stepped_kept a holding_next s h (sym (ap has_lock e))
Step-IsHonest {s} (enter_probe a e) h = stepped_kept a asking_next s h (sym (ap has_lock e))
Step-IsHonest {s} (hold a e) h = taken-IsHonest s.owner a inside s refl refl (ap has_lock e) h
Step-IsHonest {s} (probe a e) h = taken-IsHonest s.owner a probing s refl refl (ap has_lock e) h
Step-IsHonest {s} (leave a e) h = stepped_freed a s h (ap has_lock e)
Step-IsHonest {s} (answer a e) h = stepped_freed a s h (ap has_lock e)

Reach-IsHonest : {s : System} → Reach s → IsHonest s
Reach-IsHonest start = record { owned = λ a. refl }
Reach-IsHonest (later r st) = Step-IsHonest st (Reach-IsHonest r)

-- However the calls of all threads and processes interleave, two of them are never in the body of
-- `hold` of one instrument together.
pub hold_exclusive : (s : System) (a b : ℕ) → Reach s → s.pc a ≡ inside → s.pc b ≡ inside → a ≡ b
hold_exclusive s a b r p q = let h = Reach-IsHonest r in ground (arith, h.owned a, h.owned b)

-- The question whether a port is busy takes the lock for a moment: from any reachable state in
-- which nobody has it, an actor about to hold the port and another about to ask, the asker's step
-- leads to a state in which the holder is refused, although nobody is in the body of `hold`.
probe_refuses :
    (s : System) (a b : ℕ)
    → Reach s
    → s.owner ≡ none
    → s.pc a ≡ holding_next
    → s.pc b ≡ asking_next
    → (t : System) × Step s t × ((try_hold a t).0 ≡ false) × ((c : ℕ) → t.pc c ≢ inside)
unfolding try_hold try_probe
probe_refuses s a b r o p q =
    let h = Reach-IsHonest r in
    ((try_probe b s).1, probe b q, rw o refl, λ c e. ground (arith, h.owned c))

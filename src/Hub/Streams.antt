-- ===== src/Hub/Streams.antt =====
-- Each client sees a queue of its own.
use e_callisto_ng.Prelude.{
  ℕ, ◌≡◌, refl, ap, ◌∙◌, Bool, true, false, not, ◌&&◌, Bool-cases, inl, inr, Option, none, some,
  List, [], ◌∷◌, ◌==◌, ==_refl, if◌then◌else◌, arith,
}
use e_callisto_ng.Hub.{Subscription, dropped, joined, offer, offer_all, taken, take_from}

module _ {ℓ} (Frame : Type ℓ) where
  -- What the recorders and the clients do, in one order.
  pub data Op : Type ℓ where
    published : ℕ → Frame → Op
    takes : ℕ → Op
    joins leaves : ℕ → ℕ → Op

module _ {ℓ} {Frame : Type ℓ} where
  -- What the client `k` is given, over a hub of many clients.
  abbrev pub serve : ℕ → List (Op Frame) → List (Subscription Frame) → List (Option Frame)
  serve k [] ss = []
  serve k (published i f ∷ ops) ss = serve k ops (offer_all i f ss)
  serve k (takes m ∷ ops) ss =
      let (got, ss') = take_from m ss in
      let rest = serve k ops ss' in if m == k then got ∷ rest else rest
  serve k (joins m i ∷ ops) ss = serve k ops (joined m i ss)
  serve k (leaves m i ∷ ops) ss = serve k ops (dropped m i ss)

  -- The client itself does not leave.
  abbrev pub stays : ℕ → List (Op Frame) → Bool
  stays k [] = true
  stays k (leaves m i ∷ ops) = not (m == k) && stays k ops
  stays k (published i f ∷ ops) = stays k ops
  stays k (takes m ∷ ops) = stays k ops
  stays k (joins m i ∷ ops) = stays k ops

  -- What one bounded queue alone gives, fed by the frames of one instrument.
  abbrev pub alone : ℕ → ℕ → List (Op Frame) → List Frame → List (Option Frame)
  alone i k [] q = []
  alone i k (published j f ∷ ops) q = alone i k ops (if i == j then offer f q else q)
  alone i k (takes m ∷ ops) q =
      let (got, q') = taken q in
      let rest = alone i k ops (if m == k then q' else q) in if m == k then got ∷ rest else rest
  alone i k (joins m j ∷ ops) q = alone i k ops q
  alone i k (leaves m j ∷ ops) q = alone i k ops q

  abbrev pub find : ℕ → List (Subscription Frame) → Option (Subscription Frame)
  find k [] = none
  find k (s ∷ ss) = if s.id == k then some s else find k ss

  offered_sub : ℕ → Frame → Subscription Frame → Subscription Frame
  offered_sub j f s = if s.instrument == j then record s { queue = offer f s.queue } else s

  find-offer_all :
      (k j : ℕ) (f : Frame) (ss : List (Subscription Frame)) (s : Subscription Frame)
      → find k ss ≡ some s
      → find k (offer_all j f ss) ≡ some (offered_sub j f s)
  unfolding offer_all offered_sub
  find-offer_all k j f [] s h = cc
  find-offer_all k j f (u ∷ ss) s h = ground (arith, find-offer_all k j f ss s)

  find-take_from :
      (k : ℕ) (ss : List (Subscription Frame)) (s : Subscription Frame)
      → find k ss ≡ some s
      → ((take_from k ss).0 ≡ (taken s.queue).0)
        × (find k (take_from k ss).1 ≡ some (record s { queue = (taken s.queue).1 }))
  unfolding take_from
  find-take_from k [] s h = cc
  find-take_from k (u ∷ ss) s h = elim (Bool-cases (u.id == k)) [
    | inl here ↦ (ground arith, ground arith)
    | inr there ↦
        let (got, kept) = find-take_from k ss s (ground arith) in (ground arith, ground arith)
  ]

  find-take_other :
      (k m : ℕ) (ss : List (Subscription Frame))
      → (m == k) ≡ false
      → find k (take_from m ss).1 ≡ find k ss
  unfolding take_from
  find-take_other k m [] n = refl
  find-take_other k m (u ∷ ss) n = ground (arith, find-take_other k m ss n)

  find-joined :
      (k m i : ℕ) (ss : List (Subscription Frame)) (s : Subscription Frame)
      → find k ss ≡ some s
      → find k (joined m i ss) ≡ some s
  unfolding joined
  find-joined k m i [] s h = cc
  find-joined k m i (u ∷ ss) s h = ground (arith, find-joined k m i ss s)

  find-dropped :
      (k m i : ℕ) (ss : List (Subscription Frame))
      → (m == k) ≡ false
      → find k (dropped m i ss) ≡ find k ss
  unfolding dropped
  find-dropped k m i [] n = refl
  find-dropped k m i (u ∷ ss) n = ground (arith, find-dropped k m i ss n)

  offered_alone :
      (k j : ℕ) (f : Frame) (ops : List (Op Frame)) (s : Subscription Frame)
      → alone (offered_sub j f s).instrument k ops (offered_sub j f s).queue
        ≡ alone s.instrument k (published j f ∷ ops) s.queue
  unfolding offered_sub
  offered_alone k j f ops s = elim (Bool-cases (s.instrument == j)) [
    | inl e ↦ simp e refl
    | inr e ↦ simp e refl
  ]

  -- Through any sequence of frames published for any instruments, of takes by any clients, and of
  -- others that come and go, a client that stays is given exactly what one bounded queue of its own
  -- gives that is fed by the frames of its instrument: no other client, however slow, takes a frame
  -- from it or holds one up.
  pub serve-alone :
      (k : ℕ) (ops : List (Op Frame)) (ss : List (Subscription Frame)) (s : Subscription Frame)
      → find k ss ≡ some s
      → stays k ops ≡ true
      → serve k ops ss ≡ alone s.instrument k ops s.queue
  serve-alone k [] ss s h c = refl
  serve-alone k (published j f ∷ ops) ss s h c =
      serve-alone k ops (offer_all j f ss) (offered_sub j f s) (find-offer_all k j f ss s h) c
      ∙ offered_alone k j f ops s
  serve-alone k (takes m ∷ ops) ss s h c = elim (Bool-cases (m == k)) [
    | inl mine ↦
        let e : m ≡ k = ground arith in
        let (got, kept) = find-take_from k ss s h in
        rw e (
          simp (==_refl, got)
            (ap (λ gs. (taken s.queue).0 ∷ gs)
              (serve-alone k ops (take_from k ss).1 (record s { queue = (taken s.queue).1 }) kept
                c)))
    | inr other ↦
        simp other (serve-alone k ops (take_from m ss).1 s (find-take_other k m ss other ∙ h) c)
  ]
  serve-alone k (joins m i ∷ ops) ss s h c =
      serve-alone k ops (joined m i ss) s (find-joined k m i ss s h) c
  serve-alone k (leaves m i ∷ ops) ss s h c =
      serve-alone k ops (dropped m i ss) s (find-dropped k m i ss (ground arith) ∙ h) (ground arith)

-- ===== src/Hub/Bridge.antt =====
-- The bridge between the process that records and the one that serves the clients: what a client of
-- the second is given of the frames published in the first, no datagram being lost on the way.
use e_callisto_ng.Prelude.{
  ℕ, ◌≡◌, refl, ap, ◌∙◌, true, Bool-cases, inl, inr, Option, none, some, List, [], ◌∷◌, length, ltb,
  ◌==◌, if◌then◌else◌, arith,
}
use e_callisto_ng.Hub.{
  Hub, Subscription, max_datagram, offer_all, publish_local, subscribe, unsubscribe, take_from,
}
use e_callisto_ng.Plans.{UnitLevel, raw, decibel, sfu, kelvin}
use e_callisto_ng.Hub.Wire.{
  LiveFrame, Object, are_distinct, ◌>>=◌, forward_frame, ingest, parsed, payload, publish, unit_of,
  unit_value,
}
use e_callisto_ng.Hub.Streams.{
  Op, alone, find, published, serve, serve-alone, stays, joins, leaves, takes,
}

unit_of-unit_value : (u : UnitLevel) → unit_of (some (unit_value u)) ≡ some u
unit_of-unit_value raw = refl
unit_of-unit_value decibel = refl
unit_of-unit_value sfu = refl
unit_of-unit_value kelvin = refl

module _ (dumps : Object → List ℕ) (loads : List ℕ → Option Object) (isoformat : ℕ → List ℕ)
    (fromisoformat : List ℕ → Option ℕ) where
  distinct :
      (i : ℕ) (f : LiveFrame)
      → are_distinct (payload dumps loads isoformat fromisoformat i f) ≡ true
  unfolding payload
  distinct i f = refl

  parsed-payload :
      (i : ℕ) (f : LiveFrame)
      → fromisoformat (isoformat f.timestamp) ≡ some f.timestamp
      → parsed dumps loads isoformat fromisoformat (payload dumps loads isoformat fromisoformat i f)
        ≡ some (i, f)
  unfolding parsed payload
  parsed-payload i f t = rw (t, unit_of-unit_value f.unit) refl

  abbrev pub received : Option (List ℕ) → Hub LiveFrame → Hub LiveFrame
  received none peer = peer
  received (some datagram) peer = ingest dumps loads isoformat fromisoformat datagram peer

  -- What the client `k` of the peer is given: frames are published at the sender, and taken at the
  -- peer.
  abbrev pub bridged :
      ℕ → List (Op LiveFrame) → Hub LiveFrame → Hub LiveFrame → List (Option LiveFrame)
  bridged k [] sender peer = []
  bridged k (published i f ∷ ops) sender peer =
      let (datagram, sender') = publish dumps loads isoformat fromisoformat i f sender in
      bridged k ops sender' (received datagram peer)
  bridged k (takes m ∷ ops) sender peer =
      let (got, subs) = take_from m peer.subs in
      let rest = bridged k ops sender (record peer { subs = subs }) in
      if m == k then got ∷ rest else rest
  bridged k (joins m i ∷ ops) sender peer = bridged k ops sender (subscribe m i peer)
  bridged k (leaves m i ∷ ops) sender peer = bridged k ops sender (unsubscribe m i peer)

  -- The operations without the frames whose datagram is too long.
  abbrev pub fitting : List (Op LiveFrame) → List (Op LiveFrame)
  fitting [] = []
  fitting (published i f ∷ ops) =
      let rest = fitting ops in
      if ltb max_datagram (length (dumps (payload dumps loads isoformat fromisoformat i f)))
      then rest
      else published i f ∷ rest
  fitting (takes m ∷ ops) = takes m ∷ fitting ops
  fitting (joins m i ∷ ops) = joins m i ∷ fitting ops
  fitting (leaves m i ∷ ops) = leaves m i ∷ fitting ops

  stays-fitting :
      (k : ℕ) (ops : List (Op LiveFrame)) → stays k ops ≡ true → stays k (fitting ops) ≡ true
  stays-fitting k [] c = refl
  stays-fitting k (published i f ∷ ops) c = ground (arith, stays-fitting k ops c)
  stays-fitting k (takes m ∷ ops) c = stays-fitting k ops c
  stays-fitting k (joins m i ∷ ops) c = stays-fitting k ops c
  stays-fitting k (leaves m i ∷ ops) c = ground (arith, stays-fitting k ops)

  publish-forwards :
      (i : ℕ) (f : LiveFrame) (sender : Hub LiveFrame)
      → sender.forwards ≡ true
      → (publish dumps loads isoformat fromisoformat i f sender).1.forwards ≡ true
  unfolding publish forward_frame publish_local
  publish-forwards i f sender h = ground arith

  received-publish :
      (i : ℕ) (f : LiveFrame) (sender peer : Hub LiveFrame)
      → (loads (dumps (payload dumps loads isoformat fromisoformat i f))
          >>= parsed dumps loads isoformat fromisoformat)
        ≡ some (i, f)
      → sender.forwards ≡ true
      → (received (publish dumps loads isoformat fromisoformat i f sender).0 peer).subs ≡ (
          if ltb max_datagram (length (dumps (payload dumps loads isoformat fromisoformat i f)))
          then peer.subs
          else offer_all i f peer.subs)
  unfolding publish forward_frame publish_local ingest
  received-publish i f sender peer d h =
      elim (Bool-cases
        (ltb max_datagram (length (dumps (payload dumps loads isoformat fromisoformat i f))))) [
          | inl e ↦ simp (h, e) refl
          | inr e ↦ simp (h, e, d) refl
        ]

  serve-fitting :
      (k i : ℕ) (f : LiveFrame) (ops : List (Op LiveFrame)) (ss : List (Subscription LiveFrame))
      → serve k (fitting ops) (
          if ltb max_datagram (length (dumps (payload dumps loads isoformat fromisoformat i f)))
          then ss
          else offer_all i f ss)
        ≡ serve k (fitting (published i f ∷ ops)) ss
  serve-fitting k i f ops ss =
      elim (Bool-cases
        (ltb max_datagram (length (dumps (payload dumps loads isoformat fromisoformat i f))))) [
          | inl e ↦ simp e refl
          | inr e ↦ simp e refl
        ]

  bridged-serve :
      (k : ℕ) (ops : List (Op LiveFrame)) (sender peer : Hub LiveFrame)
      → ((i : ℕ) (f : LiveFrame)
          → (loads (dumps (payload dumps loads isoformat fromisoformat i f))
              >>= parsed dumps loads isoformat fromisoformat)
            ≡ some (i, f))
      → sender.forwards ≡ true
      → bridged k ops sender peer ≡ serve k (fitting ops) peer.subs
  unfolding subscribe unsubscribe
  bridged-serve k [] sender peer d h = refl
  bridged-serve k (published i f ∷ ops) sender peer d h =
      let (datagram, sender') = publish dumps loads isoformat fromisoformat i f sender in
      bridged-serve k ops sender' (received datagram peer) d (publish-forwards i f sender h)
      ∙ ap (serve k (fitting ops)) (received-publish i f sender peer (d i f) h)
      ∙ serve-fitting k i f ops peer.subs
  bridged-serve k (takes m ∷ ops) sender peer d h =
      rw (bridged-serve k ops sender (record peer { subs = (take_from m peer.subs).1 }) d h) refl
  bridged-serve k (joins m i ∷ ops) sender peer d h =
      bridged-serve k ops sender (subscribe m i peer) d h
  bridged-serve k (leaves m i ∷ ops) sender peer d h =
      bridged-serve k ops sender (unsubscribe m i peer) d h

  -- When the process that records forwards its frames, JSON objects of distinct keys and times are read back
  -- from their texts as they were, and no datagram is lost, then a client of the other process that stays is given exactly what a
  -- bounded queue of its own gives that is fed by the frames of its instrument whose datagram is
  -- not too long, whatever the two processes and the other clients do.
  pub bridged-alone :
      (k : ℕ) (ops : List (Op LiveFrame)) (sender peer : Hub LiveFrame) (s : Subscription LiveFrame)
      → ((o : Object) → are_distinct o ≡ true → loads (dumps o) ≡ some o)
      → ((t : ℕ) → fromisoformat (isoformat t) ≡ some t)
      → sender.forwards ≡ true
      → find k peer.subs ≡ some s
      → stays k ops ≡ true
      → bridged k ops sender peer ≡ alone s.instrument k (fitting ops) s.queue
  bridged-alone k ops sender peer s read time h e c =
      bridged-serve k ops sender peer
        (λ i f.
          ap (λ o. o >>= parsed dumps loads isoformat fromisoformat)
            (read (payload dumps loads isoformat fromisoformat i f) (distinct i f))
          ∙ parsed-payload i f (time f.timestamp))
        h
      ∙ serve-alone k (fitting ops) peer.subs s e (stays-fitting k ops c)

-- ===== src/Uploads/Delivery.antt =====
-- What one pass sends, and what one attempt leaves behind.
use e_callisto_ng.Prelude.{
  ℕ, ◌+◌, ◌≡◌, refl, subst, ◌∙◌, Bool, true, false, not, ◌&&◌, ◌||◌, Bool-cases, inl, inr, List, [],
  ◌∷◌, ◌++◌, arith, ◌==◌, if◌then◌else◌,
}
use e_callisto_ng.Uploads.{
  Carrier, LocalFile, Step, UploadJob, UploadTarget, World, done, failed, has_done, list_recordings,
  made_temp, recorded, removed_temp, send, upload_each, upload_file, upload_one, upload_pending,
}
use e_callisto_ng.Uploads.Ledger.{IsLedger, has_done-count, sent_count, upload_pending-IsLedger}

-- The readable recordings of a listing.
abbrev pub has_recording : ℕ → List LocalFile → Bool
has_recording n [] = false
has_recording n (f ∷ fs) = (f.readable && f.name == n) || has_recording n fs

has_done-append :
    (xs ys : List UploadJob) (t n : ℕ)
    → has_done (xs ++ ys) t n ≡ (if has_done xs t n then true else has_done ys t n)
unfolding has_done
has_done-append [] ys t n = refl
has_done-append (x ∷ xs) ys t n = ground (arith, has_done-append xs ys t n)

module _ (links : ℕ → Carrier) (u : UploadTarget) where
  recorded-done :
      (m n : ℕ) (ok : Bool) (w : World)
      → has_done w.jobs u.id n ≡ true
      → has_done (recorded u m ok w).jobs u.id n ≡ true
  recorded-done m n true w h =
      has_done-append w.jobs (record { target_id = u.id; filename = m; state = done } ∷ []) u.id n
      ∙ rw h refl
  recorded-done m n false w h =
      has_done-append w.jobs (record { target_id = u.id; filename = m; state = failed } ∷ []) u.id n
      ∙ rw h refl

  upload_one-done :
      (m n : ℕ) (w : World)
      → has_done w.jobs u.id n ≡ true
      → has_done (upload_one links u m w).jobs u.id n ≡ true
  unfolding upload_one
  upload_one-done m n w h = ground (arith, recorded-done m n (send u (links m)).0 w)

  recorded_self : (n : ℕ) (w : World) → has_done (recorded u n true w).jobs u.id n ≡ true
  unfolding has_done
  recorded_self n w = ground (
    arith,
    has_done-append w.jobs (record { target_id = u.id; filename = n; state = done } ∷ []) u.id n,
  )

  upload_one_delivers :
      (n : ℕ) (w : World)
      → (send u (links n)).0 ≡ true
      → has_done (upload_one links u n w).jobs u.id n ≡ true
  unfolding upload_one
  upload_one_delivers n w ok = elim (Bool-cases (has_done w.jobs u.id n)) [
    | inl old ↦ rw old old
    | inr new ↦ rw (new, ok) (recorded_self n w)
  ]

  upload_each-done :
      (fs : List LocalFile) (n : ℕ) (w : World)
      → has_done w.jobs u.id n ≡ true
      → has_done (upload_each links u fs w).jobs u.id n ≡ true
  unfolding upload_each
  upload_each-done [] n w h = h
  upload_each-done (f ∷ fs) n w h =
      upload_each-done fs n (upload_one links u f.name w) (upload_one-done f.name n w h)

  upload_each_delivers :
      (fs : List LocalFile) (n : ℕ) (w : World)
      → (send u (links n)).0 ≡ true
      → has_recording n fs ≡ true
      → has_done (upload_each links u (list_recordings fs) w).jobs u.id n ≡ true
  unfolding upload_each list_recordings
  upload_each_delivers [] n w ok h = cc
  upload_each_delivers (f ∷ fs) n w ok h = elim (Bool-cases f.readable) [
    | inl fine ↦ simp fine (elim (Bool-cases (f.name == n)) [
      | inl here ↦
          upload_each-done (list_recordings fs) n (upload_one links u f.name w) (named f.name here)
      | inr there ↦ upload_each_delivers fs n (upload_one links u f.name w) ok (ground arith)
    ])
    | inr bad ↦ simp bad (upload_each_delivers fs n w ok (ground arith))
  ]
    where
      back : (m : ℕ) → (m == n) ≡ true → n ≡ m
      back m e = ground arith

      named : (m : ℕ) → (m == n) ≡ true → has_done (upload_one links u m w).jobs u.id n ≡ true
      named m e =
          subst (λ k. has_done (upload_one links u k w).jobs u.id n ≡ true) (back m e)
            (upload_one_delivers n w ok)

  -- From a true ledger, a pass over links by which a recording can be sent leaves that recording,
  -- if its header can be read, sent to the target exactly once, whether it was sent before or now.
  pub upload_pending_delivers :
      (w : World) (n : ℕ)
      → IsLedger w
      → has_recording n w.files ≡ true
      → (send u (links n)).0 ≡ true
      → sent_count u.id n (upload_pending links u w).sent ≡ 1
  upload_pending_delivers w n l h ok =
      let after = upload_pending-IsLedger links u w l in
      let made : has_done (upload_pending links u w).jobs u.id n ≡ true =
        unfold upload_pending in upload_each_delivers w.files n w ok h in
      ground (
        arith,
        after.counted u.id n,
        after.once u.id n,
        has_done-count (upload_pending links u w).jobs u.id n,
      )

abbrev pub temps_made : List Step → ℕ
temps_made [] = 0
temps_made (made_temp ∷ ss) = 1 + temps_made ss
temps_made (_ ∷ ss) = temps_made ss

abbrev pub temps_removed : List Step → ℕ
temps_removed [] = 0
temps_removed (removed_temp ∷ ss) = 1 + temps_removed ss
temps_removed (_ ∷ ss) = temps_removed ss

-- An attempt removes the temporary file that it makes, however the transfer ends; only when the
-- compression itself fails does it stay, one for each such attempt.
upload_file_temps :
    (do_gzip : Bool) (l : Carrier)
    → temps_made (upload_file do_gzip l).1
      ≡ temps_removed (upload_file do_gzip l).1
        + (if l.connects && (do_gzip && not l.compresses) then 1 else 0)
unfolding upload_file
upload_file_temps do_gzip l = ground arith

-- ===== src/Uploads/Ledger.antt =====
-- The upload jobs as the ledger of what was sent.
use e_callisto_ng.Prelude.{
  ℕ, ◌+◌, ◌≤◌, ◌≡◌, refl, Bool, true, false, ◌&&◌, Bool-cases, inl, inr, List, [], ◌∷◌, ◌++◌, arith,
  ◌==◌, if◌then◌else◌,
}
use e_callisto_ng.Uploads.{
  Carrier, LocalFile, UploadJob, UploadTarget, World, done, failed, has_done, is_done_for,
  list_recordings, recorded, send, upload_each, upload_one, upload_pending,
}

-- How often a file went out verified to a target, and how often the jobs say so.
abbrev pub sent_count : ℕ → ℕ → List (ℕ × ℕ) → ℕ
sent_count t n [] = 0
sent_count t n ((u, m) ∷ sent) = (if u == t && m == n then 1 else 0) + sent_count t n sent

abbrev pub done_count : ℕ → ℕ → List UploadJob → ℕ
done_count t n [] = 0
done_count t n (j ∷ js) = (if is_done_for t n j then 1 else 0) + done_count t n js

sent_count-append :
    (t n : ℕ) (xs ys : List (ℕ × ℕ))
    → sent_count t n (xs ++ ys) ≡ sent_count t n xs + sent_count t n ys
sent_count-append t n [] ys = omega arith
sent_count-append t n ((u, m) ∷ xs) ys = omega (arith, sent_count-append t n xs ys)

done_count-append :
    (t n : ℕ) (xs ys : List UploadJob)
    → done_count t n (xs ++ ys) ≡ done_count t n xs + done_count t n ys
done_count-append t n [] ys = omega arith
done_count-append t n (x ∷ xs) ys = omega (arith, done_count-append t n xs ys)

pub has_done-count :
    (js : List UploadJob) (t n : ℕ) → (if has_done js t n then 1 else 0) ≤ done_count t n js
unfolding has_done
has_done-count [] t n = omega arith
has_done-count (j ∷ js) t n = let rest = has_done-count js t n in ground arith

not_done-count : (js : List UploadJob) (t n : ℕ) → has_done js t n ≡ false → done_count t n js ≡ 0
unfolding has_done
not_done-count [] t n h = refl
not_done-count (j ∷ js) t n h = ground (arith, not_done-count js t n)

-- Every file that the jobs call done for a target went out to it, and exactly once.
pub record IsLedger (w : World) : Type 0 where
  pub counted : (t n : ℕ) → sent_count t n w.sent ≡ done_count t n w.jobs
  pub once : (t n : ℕ) → done_count t n w.jobs ≤ 1

recorded-counted :
    (u : UploadTarget) (m : ℕ) (ok : Bool) (w : World)
    → IsLedger w
    → (t n : ℕ) → sent_count t n (recorded u m ok w).sent ≡ done_count t n (recorded u m ok w).jobs
recorded-counted u m true w l t n = ground (
  arith,
  l.counted t n,
  sent_count-append t n w.sent ((u.id, m) ∷ []),
  done_count-append t n w.jobs (record { target_id = u.id; filename = m; state = done } ∷ []),
)
recorded-counted u m false w l t n = ground (
  arith,
  l.counted t n,
  done_count-append t n w.jobs (record { target_id = u.id; filename = m; state = failed } ∷ []),
)

recorded-once :
    (u : UploadTarget) (m : ℕ) (ok : Bool) (w : World)
    → IsLedger w
    → has_done w.jobs u.id m ≡ false
    → (t n : ℕ) → done_count t n (recorded u m ok w).jobs ≤ 1
recorded-once u m true w l h t n = ground (
  arith,
  l.once t n,
  not_done-count w.jobs u.id m h,
  done_count-append t n w.jobs (record { target_id = u.id; filename = m; state = done } ∷ []),
)
recorded-once u m false w l h t n = ground (
  arith,
  l.once t n,
  done_count-append t n w.jobs (record { target_id = u.id; filename = m; state = failed } ∷ []),
)

module _ (links : ℕ → Carrier) (u : UploadTarget) where
  upload_one-IsLedger : (m : ℕ) (w : World) → IsLedger w → IsLedger (upload_one links u m w)
  unfolding upload_one
  upload_one-IsLedger m w l = elim (Bool-cases (has_done w.jobs u.id m)) [
    | inl old ↦ rw old l
    | inr new ↦ rw new (record {
      counted = recorded-counted u m (send u (links m)).0 w l;
      once = recorded-once u m (send u (links m)).0 w l new;
    })
  ]

  upload_each-IsLedger :
      (fs : List LocalFile) (w : World) → IsLedger w → IsLedger (upload_each links u fs w)
  unfolding upload_each
  upload_each-IsLedger [] w l = l
  upload_each-IsLedger (f ∷ fs) w l =
      upload_each-IsLedger fs (upload_one links u f.name w) (upload_one-IsLedger f.name w l)

  pub upload_pending-IsLedger : (w : World) → IsLedger w → IsLedger (upload_pending links u w)
  unfolding upload_pending
  upload_pending-IsLedger w l = upload_each-IsLedger (list_recordings w.files) w l

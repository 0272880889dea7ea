-- ===== src/Uploads/Retention.antt =====
-- What a tick may take off the disk.
use e_callisto_ng.Prelude.{
  ℕ, ◌≤◌, ◌<◌, ◌≡◌, ◌≢◌, refl, sym, ap, ◌∙◌, subst, Bool, true, false, ◌||◌, Bool-cases, inl, inr,
  Option, none, some, List, [], ◌∷◌, All, arith, ◌==◌,
}
use e_callisto_ng.Uploads.{
  Carrier, LocalFile, Settings, UploadJob, UploadTarget, World, archive_done, archive_with,
  prune_with, dispatch_all, dispatch_one, due, enabled_targets, is_everywhere, list_recordings,
  prune, pruned, tick, tidy, unarchived, upload_each, upload_one, upload_pending,
}
use e_callisto_ng.Uploads.Ledger.{
  IsLedger, sent_count, done_count, has_done-count, upload_pending-IsLedger,
}

abbrev pub has_file : ℕ → List LocalFile → Bool
has_file n [] = false
has_file n (f ∷ fs) = f.name == n || has_file n fs

module _ (ts : List UploadTarget) (jobs : List UploadJob) (n : ℕ) where
  pruned-kept :
      (now days : ℕ) (fs : List LocalFile)
      → is_everywhere ts jobs n ≡ false
      → has_file n fs ≡ true
      → has_file n (pruned ts jobs now days fs) ≡ true
  unfolding pruned
  pruned-kept now days [] e h = h
  pruned-kept now days (f ∷ fs) e h = ground (arith, pruned-kept now days fs e)

  unarchived-kept :
      (fs : List LocalFile)
      → is_everywhere ts jobs n ≡ false
      → has_file n fs ≡ true
      → has_file n (unarchived ts jobs fs) ≡ true
  unfolding unarchived
  unarchived-kept [] e h = h
  unarchived-kept (f ∷ fs) e h = ground (arith, unarchived-kept fs e)

everywhere_sent :
    (ts : List UploadTarget) (n : ℕ) (w : World)
    → IsLedger w
    → is_everywhere ts w.jobs n ≡ true
    → All (λ t. 0 < sent_count t.id n w.sent) ts
unfolding is_everywhere
everywhere_sent [] n w l h = tt
everywhere_sent (t ∷ ts) n w l h = (
  ground (arith, has_done-count w.jobs t.id n, l.counted t.id n),
  everywhere_sent ts n w l (ground arith),
)

-- What a clean-up does to the files and to the rest of the world.
pub record Tidied (ts : List UploadTarget) (w w' : World) : Type 0 where
  pub jobs_same : w'.jobs ≡ w.jobs
  pub sent_same : w'.sent ≡ w.sent
  pub kept :
      (n : ℕ)
      → is_everywhere (enabled_targets ts) w.jobs n ≡ false
      → has_file n w.files ≡ true
      → has_file n w'.files ≡ true
  pub idle : enabled_targets ts ≡ [] → w'.files ≡ w.files

Tidied-same : (ts : List UploadTarget) (w : World) → Tidied ts w w
Tidied-same ts w = record {
  jobs_same = refl;
  sent_same = refl;
  kept = λ n e h. h;
  idle = λ e. refl;
}

prune-Tidied :
    (ts : List UploadTarget) (days : Option ℕ) (now : ℕ) (w : World)
    → Tidied ts w (prune ts days now w)
unfolding prune
prune-Tidied ts days now w = pick (enabled_targets ts) days refl
  where
    pick :
        (es : List UploadTarget) (days : Option ℕ)
        → enabled_targets ts ≡ es
        → Tidied ts w (prune_with es days now w)
    pick [] days e = Tidied-same ts w
    pick (t ∷ es) none e = Tidied-same ts w
    pick (t ∷ es) (some d) e = record {
      jobs_same = refl;
      sent_same = refl;
      kept = λ n h k.
          pruned-kept (t ∷ es) w.jobs n now d w.files
            (ap (λ us. is_everywhere us w.jobs n) (sym e) ∙ h) k;
      idle = λ none_left. cc (e, none_left);
    }

archive_done-Tidied : (ts : List UploadTarget) (w : World) → Tidied ts w (archive_done ts w)
unfolding archive_done
archive_done-Tidied ts w = pick (enabled_targets ts) refl
  where
    pick : (es : List UploadTarget) → enabled_targets ts ≡ es → Tidied ts w (archive_with es w)
    pick [] e = Tidied-same ts w
    pick (t ∷ es) e = record {
      jobs_same = refl;
      sent_same = refl;
      kept = λ n h k.
          unarchived-kept (t ∷ es) w.jobs n w.files
            (ap (λ us. is_everywhere us w.jobs n) (sym e) ∙ h) k;
      idle = λ none_left. cc (e, none_left);
    }

tidy-Tidied :
    (links : ℕ → ℕ → Carrier) (now : ℕ) (cfg : Settings) (ts : List UploadTarget) (r : Bool × World)
    → Tidied ts r.1 (tidy links now cfg ts r)
unfolding tidy
tidy-Tidied links now cfg ts (true, w) = Tidied-same ts w
tidy-Tidied links now cfg ts (false, w) = elim (Bool-cases cfg.archives) [
  | inl on ↦ simp on (archive_done-Tidied ts w)
  | inr off ↦ simp off (prune-Tidied ts cfg.retention_days now w)
]

module _ (links : ℕ → Carrier) (u : UploadTarget) where
  files-upload_each : (fs : List LocalFile) (w : World) → (upload_each links u fs w).files ≡ w.files
  unfolding upload_each upload_one
  files-upload_each [] w = refl
  files-upload_each (f ∷ fs) w = files-upload_each fs (upload_one links u f.name w) ∙ ground arith

module _ (links : ℕ → ℕ → Carrier) (now : ℕ) (P : World → Type 0)
    (step : (t : UploadTarget) (w : World) → P w → P (upload_pending (links t.id) t w)) where
  dispatch_one_keeps :
      (t : UploadTarget) (o : Option Bool) (w : World) (rest : World → Bool × World)
      → ((w' : World) → P w' → P (rest w').1)
      → P w
      → P (dispatch_one links now t o w rest).1
  dispatch_one_keeps t none w rest keep p = p
  dispatch_one_keeps t (some true) w rest keep p =
      keep (upload_pending (links t.id) t w) (step t w p)
  dispatch_one_keeps t (some false) w rest keep p = keep w p

  -- What every pass to one target keeps holds after the uploads of a tick.
  dispatch_all_keeps :
      (ts : List UploadTarget) (w : World) → P w → P (dispatch_all links now ts w).1
  unfolding dispatch_all
  dispatch_all_keeps [] w p = p
  dispatch_all_keeps (t ∷ ts) w p =
      dispatch_one_keeps t (due t now) w (dispatch_all links now ts) (dispatch_all_keeps ts) p

Tidied-IsLedger :
    (ts : List UploadTarget) (w w' : World) → Tidied ts w w' → IsLedger w → IsLedger w'
Tidied-IsLedger ts w w' d l = record {
  counted = λ t n.
      ap (sent_count t n) d.sent_same ∙ l.counted t n ∙ ap (done_count t n) (sym d.jobs_same);
  once = λ t n. subst (λ js. done_count t n js ≤ 1) (sym d.jobs_same) (l.once t n);
}

module _ (links : ℕ → ℕ → Carrier) (now : ℕ) (cfg : Settings) (ts : List UploadTarget) where
  dispatched-IsLedger : (w : World) → IsLedger w → IsLedger (dispatch_all links now ts w).1
  dispatched-IsLedger =
      dispatch_all_keeps links now IsLedger (λ t. upload_pending-IsLedger (links t.id) t) ts

  files-dispatch_all : (w : World) → (dispatch_all links now ts w).1.files ≡ w.files
  unfolding upload_pending
  files-dispatch_all w =
      dispatch_all_keeps links now (λ u. u.files ≡ w.files)
        (λ t u e. files-upload_each (links t.id) t (list_recordings u.files) u ∙ e) ts w refl

  -- The jobs are a true ledger: a tick, in whatever it sends, fails at, archives or prunes and also
  -- when an exception ends it, leaves each file that the jobs call done for a target sent to it,
  -- verified, exactly once, and no other file sent.
  pub tick-IsLedger : (w : World) → IsLedger w → IsLedger (tick links now cfg ts w)
  unfolding tick
  tick-IsLedger w l =
      let r = dispatch_all links now ts w in
      Tidied-IsLedger ts r.1 (tidy links now cfg ts r) (tidy-Tidied links now cfg ts r)
        (dispatched-IsLedger w l)

  lost_everywhere :
      (w w' : World) (n : ℕ)
      → Tidied ts w w'
      → has_file n w.files ≡ true
      → has_file n w'.files ≡ false
      → is_everywhere (enabled_targets ts) w.jobs n ≡ true
  lost_everywhere w w' n d h g = elim (Bool-cases (is_everywhere (enabled_targets ts) w.jobs n)) [
    | inl e ↦ e
    | inr kept ↦ cc (d.kept n kept h)
  ]

  -- From a true ledger, a file that a tick takes out of the data directory, by pruning or into the
  -- archive, was sent and verified to every enabled target by then, and there is such a target.
  pub tick_loses_sent :
      (w : World) (n : ℕ)
      → IsLedger w
      → has_file n w.files ≡ true
      → has_file n (tick links now cfg ts w).files ≡ false
      → All (λ t. 0 < sent_count t.id n (tick links now cfg ts w).sent) (enabled_targets ts)
        × (enabled_targets ts ≢ [])
  unfolding tick
  tick_loses_sent w n l h g =
      let r = dispatch_all links now ts w in
      let d = tidy-Tidied links now cfg ts r in
      let e =
        lost_everywhere r.1 (tidy links now cfg ts r) n d
          (ap (has_file n) (files-dispatch_all w) ∙ h) g in
      (
        subst (λ sent. All (λ t. 0 < sent_count t.id n sent) (enabled_targets ts)) (sym d.sent_same)
            (everywhere_sent (enabled_targets ts) n r.1 (dispatched-IsLedger w l) e),
        λ empty. cc (ap (has_file n) (d.idle empty ∙ files-dispatch_all w), h, g),
      )

-- ===== src/Uploads.antt =====
-- Shipping the recorded files: src/ecallisto_ng/services/uploader.py and uploader_service.py, with
-- the listing of catalog.py. File names and contents are numbers, times are seconds. What a transport
-- does in one attempt, and what `_notify` sends, are parameters of a pass or left out.
pub mod Ledger
pub mod Delivery
pub mod Retention
pub mod Tests
use e_callisto_ng.Prelude.{
  ℕ, ◌+◌, ◌*◌, ◌/◌, Bool, true, false, not, ◌&&◌, Option, none, some, List, [], ◌∷◌, ◌++◌, all, ltb,
  ◌==◌, if◌then◌else◌,
}
use e_callisto_ng.Services.Windows.{Window, fixed_window, is_recording_desired, day_ms}

pub data JobState : Type 0 where
  done failed : JobState

pub record UploadJob : Type 0 where
  pub target_id : ℕ
  pub filename : ℕ
  pub state : JobState

pub data Protocol : Type 0 where
  local ftp sftp unknown : Protocol

pub data Dispatch : Type 0 where
  manual immediate scheduled : Dispatch

pub record UploadTarget : Type 0 where
  pub id : ℕ
  pub protocol : Protocol
  pub dispatch : Dispatch
  pub window_start : List ℕ
  pub window_stop : List ℕ
  pub gzip : Bool
  pub enabled : Bool

-- A `*.fit` file of the data directory; `readable` says that its header can be read.
pub record LocalFile : Type 0 where
  pub name : ℕ
  pub mtime : ℕ
  pub readable : Bool

-- What a transport, and the compression, do in one attempt to send a file.
pub record Carrier : Type 0 where
  pub connects : Bool
  pub compresses : Bool
  pub puts : Bool
  pub verifies : Bool

pub data Step : Type 0 where
  connected put checked closed made_temp removed_temp : Step

abbrev transfer : Carrier → Bool × List Step
transfer l =
    if not l.puts
    then (false, [])
    else if l.verifies
    then (true, put ∷ checked ∷ [])
    else (false, put ∷ [])

-- `_gzip_to_temp` creates the temporary file and may then fail; the file goes in the `finally` of
-- the transfer, which starts after it.
abbrev zipped_transfer : Carrier → Bool × List Step
zipped_transfer l =
    if l.compresses
    then ((transfer l).0, made_temp ∷ ((transfer l).1 ++ removed_temp ∷ []))
    else (false, made_temp ∷ [])

-- Whether the file is sent and verified, and the steps taken; an exception is a failure.
unfoldable pub upload_file : Bool → Carrier → Bool × List Step
upload_file do_gzip l =
    let (ok, steps) = (if do_gzip then zipped_transfer l else transfer l) in
    if l.connects then (ok, connected ∷ (steps ++ closed ∷ [])) else (false, [])

abbrev is_known : Protocol → Bool
is_known unknown = false
is_known _ = true

-- `build_transport` raises for an unknown protocol.
unfoldable pub send : UploadTarget → Carrier → Bool × List Step
unfolding upload_file
send t l = if is_known t.protocol then upload_file t.gzip l else (false, [])

abbrev is_done : JobState → Bool
is_done done = true
is_done failed = false

abbrev is_done_for : ℕ → ℕ → UploadJob → Bool
is_done_for t n j = is_done j.state && (j.target_id == t && j.filename == n)

unfoldable pub has_done : List UploadJob → ℕ → ℕ → Bool
has_done [] t n = false
has_done (j ∷ js) t n = if is_done_for t n j then true else has_done js t n

-- The data directory in the order of its listing, the jobs, and, beside the program's own state,
-- which files went out verified and which were moved to the archive.
pub record World : Type 0 where
  pub files : List LocalFile
  pub jobs : List UploadJob
  pub sent : List (ℕ × ℕ)
  pub archived : List ℕ

unfoldable pub list_recordings : List LocalFile → List LocalFile
list_recordings [] = []
list_recordings (f ∷ fs) = if f.readable then f ∷ list_recordings fs else list_recordings fs

abbrev noted : UploadTarget → ℕ → JobState → World → World
noted t n s w = record w {
  jobs = w.jobs ++ record { target_id = t.id; filename = n; state = s } ∷ [];
}

abbrev recorded : UploadTarget → ℕ → Bool → World → World
recorded t n true w = record (noted t n done w) { sent = w.sent ++ (t.id, n) ∷ [] }
recorded t n false w = noted t n failed w

module _ (links : ℕ → Carrier) (t : UploadTarget) where
  unfoldable pub upload_one : ℕ → World → World
  upload_one n w = if has_done w.jobs t.id n then w else recorded t n (send t (links n)).0 w

  unfoldable pub upload_each : List LocalFile → World → World
  upload_each [] w = w
  upload_each (f ∷ fs) w = upload_each fs (upload_one f.name w)

  unfoldable pub upload_pending : World → World
  upload_pending w = upload_each (list_recordings w.files) w

abbrev due_by : Dispatch → Option Window → ℕ → Option Bool
due_by manual window now = some false
due_by immediate window now = some true
due_by scheduled none now = none
due_by scheduled (some w) now = some (is_recording_desired w now)

-- `_due`; none is the exception of a window time out of range.
unfoldable pub due : UploadTarget → ℕ → Option Bool
due t now =
    if t.enabled
    then due_by t.dispatch (fixed_window (now * 1000 / day_ms) t.window_start t.window_stop)
        (now * 1000)
    else some false

unfoldable pub enabled_targets : List UploadTarget → List UploadTarget
enabled_targets [] = []
enabled_targets (t ∷ ts) = if t.enabled then t ∷ enabled_targets ts else enabled_targets ts

-- `target_ids.issubset(done)`
unfoldable pub is_everywhere : List UploadTarget → List UploadJob → ℕ → Bool
is_everywhere ts jobs n = all (λ t. has_done jobs t.id n) ts

module _ (ts : List UploadTarget) (jobs : List UploadJob) where
  abbrev is_pruned : ℕ → ℕ → LocalFile → Bool
  is_pruned now days f =
      f.readable && (is_everywhere ts jobs f.name && not (ltb now (f.mtime + days * 86400)))

  unfoldable pub pruned : ℕ → ℕ → List LocalFile → List LocalFile
  pruned now days [] = []
  pruned now days (f ∷ fs) =
      if is_pruned now days f then pruned now days fs else f ∷ pruned now days fs

  unfoldable pub unarchived : List LocalFile → List LocalFile
  unarchived [] = []
  unarchived (f ∷ fs) = if is_everywhere ts jobs f.name then unarchived fs else f ∷ unarchived fs

  unfoldable pub moved : List LocalFile → List ℕ
  moved [] = []
  moved (f ∷ fs) = if is_everywhere ts jobs f.name then f.name ∷ moved fs else moved fs

abbrev prune_with : List UploadTarget → Option ℕ → ℕ → World → World
prune_with [] days now w = w
prune_with (t ∷ ts) none now w = w
prune_with (t ∷ ts) (some days) now w = record w { files = pruned (t ∷ ts) w.jobs now days w.files }

-- No retention is a negative number of days.
unfoldable pub prune : List UploadTarget → Option ℕ → ℕ → World → World
prune ts days now w = prune_with (enabled_targets ts) days now w

abbrev archive_with : List UploadTarget → World → World
archive_with [] w = w
archive_with (t ∷ ts) w = record w {
  files = unarchived (t ∷ ts) w.jobs w.files;
  archived = w.archived ++ moved (t ∷ ts) w.jobs w.files;
}

unfoldable pub archive_done : List UploadTarget → World → World
archive_done ts w = archive_with (enabled_targets ts) w

pub record Settings : Type 0 where
  pub archives : Bool
  pub retention_days : Option ℕ

module _ (links : ℕ → ℕ → Carrier) (now : ℕ) where
  abbrev dispatch_one : UploadTarget → Option Bool → World → (World → Bool × World) → Bool × World
  dispatch_one t none w rest = (true, w)
  dispatch_one t (some true) w rest = rest (upload_pending (links t.id) t w)
  dispatch_one t (some false) w rest = rest w

  -- The uploads of a tick: whether an exception ends it there, and the world reached.
  unfoldable pub dispatch_all : List UploadTarget → World → Bool × World
  dispatch_all [] w = (false, w)
  dispatch_all (t ∷ ts) w = dispatch_one t (due t now) w (dispatch_all ts)

  unfoldable pub tidy : Settings → List UploadTarget → Bool × World → World
  tidy cfg ts (true, w) = w
  tidy cfg ts (false, w) =
      if cfg.archives then archive_done ts w else prune ts cfg.retention_days now w

  unfoldable pub tick : Settings → List UploadTarget → World → World
  tick cfg ts w = tidy cfg ts (dispatch_all ts w)

-- ===== src/Uploads/Tests.antt =====
-- One target and two recordings, one of them sent before.
use e_callisto_ng.Prelude.{ℕ, ◌<◌, ◌≡◌, ◌≢◌, refl, true, false, some, [], ◌∷◌, All, arith}
use e_callisto_ng.Uploads.{
  Carrier, LocalFile, Settings, UploadTarget, World, immediate, local, done, enabled_targets, tick,
  upload_pending, upload_file, send, due, is_everywhere, prune, dispatch_all, pruned, tidy,
  list_recordings, upload_each, upload_one, has_done,
}
use e_callisto_ng.Uploads.Ledger.{IsLedger, sent_count}
use e_callisto_ng.Uploads.Delivery.{upload_pending_delivers}
use e_callisto_ng.Uploads.Retention.{has_file, tick-IsLedger, tick_loses_sent}

abbrev mirror : UploadTarget
mirror = record {
  id = 1;
  protocol = local;
  dispatch = immediate;
  window_start = [];
  window_stop = [];
  gzip = true;
  enabled = true;
}

abbrev sound_carrier : Carrier
sound_carrier = record { connects = true; compresses = true; puts = true; verifies = true }

abbrev full_disk : Carrier
full_disk = record sound_carrier { compresses = false }

abbrev links : ℕ → ℕ → Carrier
links t n = sound_carrier

abbrev old_file : LocalFile
old_file = record { name = 10; mtime = 100; readable = true }

abbrev new_file : LocalFile
new_file = record { name = 11; mtime = 990000; readable = true }

abbrev station : World
station = record {
  files = new_file ∷ old_file ∷ [];
  jobs = record { target_id = 1; filename = 10; state = done } ∷ [];
  sent = (1, 10) ∷ [];
  archived = [];
}

station-IsLedger : IsLedger station
station-IsLedger = record { counted = λ t n. refl; once = λ t n. ground arith }

abbrev keep_a_week : Settings
keep_a_week = record { archives = false; retention_days = some 7 }

old_file_pruned : has_file 10 (tick links 1000000 keep_a_week (mirror ∷ []) station).files ≡ false
unfolding tick dispatch_all due upload_pending upload_each upload_one list_recordings has_done send
    upload_file tidy prune enabled_targets pruned is_everywhere
old_file_pruned = refl

tick_loses_sent_example :
    All
      (λ t. 0 < sent_count t.id 10 (tick links 1000000 keep_a_week (mirror ∷ []) station).sent)
      (enabled_targets (mirror ∷ []))
    × (enabled_targets (mirror ∷ []) ≢ [])
tick_loses_sent_example =
    tick_loses_sent links 1000000 keep_a_week (mirror ∷ []) station 10 station-IsLedger refl
      old_file_pruned

tick-IsLedger_example : IsLedger (tick links 1000000 keep_a_week (mirror ∷ []) station)
tick-IsLedger_example =
    tick-IsLedger links 1000000 keep_a_week (mirror ∷ []) station station-IsLedger

mirror_works : (send mirror sound_carrier).0 ≡ true
unfolding send
mirror_works = refl

upload_pending_delivers_example : sent_count 1 11 (upload_pending (links 1) mirror station).sent ≡ 1
upload_pending_delivers_example =
    upload_pending_delivers (links 1) mirror station 11 station-IsLedger refl mirror_works

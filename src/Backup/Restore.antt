-- ===== src/Backup/Restore.antt =====
-- What a restore of src/ecallisto_ng/services/config_backup.py leaves in the database.
use e_callisto_ng.Prelude.{
  ℕ, ◌≡◌, refl, sym, ap, ap₂, ◌∙◌, Bool, true, false, Option, none, some, List, [], ◌∷◌, map,
  if◌then◌else◌,
}
use e_callisto_ng.Backup.{
  Database, Key, Row, access, add_tables, added, calibration_sets, committed, committed_if,
  delete_tables, export_config, import_config, instruments, is_some_job, peers, programs, restored,
  reversed_tables, schedules, stations, tables, upload_targets, validated,
}

-- No configuration, and the upload jobs as they are.
abbrev pub cleared : Database → Database
cleared db = record {
  calibration_sets = [];
  programs = [];
  stations = [];
  instruments = [];
  schedules = [];
  upload_targets = [];
  access = [];
  peers = [];
  upload_jobs = db.upload_jobs;
}

-- The deletion ends with all tables empty, unless there are upload jobs.
delete_tables_all :
    (db : Database)
    → delete_tables reversed_tables (some db)
      ≡ (if is_some_job db.upload_jobs then none else some (cleared db))
delete_tables_all db = go db.upload_jobs
  where
    go :
        (jobs : List ℕ)
        → delete_tables reversed_tables (some (record db { upload_jobs = jobs }))
          ≡ (if is_some_job jobs then none else some (cleared (record db { upload_jobs = jobs })))
    go [] = refl
    go (target ∷ jobs) = refl

module _ {A : Type 0} (dump : Key → Row → A) (validate : Key → A → Option Row)
    (accepts : Database → Bool) where
  -- A restore that raises leaves the database as it was if there is an upload job, and without one
  -- it leaves the tables of the configuration empty.
  pub import_config_fails :
      (backup : Key → List A) (db : Database)
      → (import_config dump validate accepts backup db).0 ≡ false
      → (import_config dump validate accepts backup db).1
        ≡ (if is_some_job db.upload_jobs then db else cleared db)
  unfolding import_config
  import_config_fails backup db e =
      ap (λ o. (restored dump validate accepts backup db o).1) (delete_tables_all db)
      ∙ go (is_some_job db.upload_jobs) (
          sym (ap (λ o. (restored dump validate accepts backup db o).0) (delete_tables_all db)) ∙ e)
    where
      lost :
          (o : Option Database)
          → (committed dump validate accepts (cleared db) o).0 ≡ false
          → (committed dump validate accepts (cleared db) o).1 ≡ cleared db
      lost none q = refl
      lost (some filled) q = either (accepts filled) q
        where
          either :
              (b : Bool)
              → (committed_if b filled (cleared db)).0 ≡ false
              → (committed_if b filled (cleared db)).1 ≡ cleared db
          either true q = cc
          either false q = refl

      go :
          (b : Bool)
          → (restored dump validate accepts backup db (if b then none else some (cleared db))).0
            ≡ false
          → (restored dump validate accepts backup db (if b then none else some (cleared db))).1
            ≡ (if b then db else cleared db)
      go true q = refl
      go false q = lost (add_tables dump validate accepts tables backup (some (cleared db))) q

  -- Given that a row is read back from its JSON.
  module _ (reads : (k : Key) (r : Row) → validate k (dump k r) ≡ some r) where
    validated-map :
        (k : Key) (rows : List Row)
        → validated dump validate accepts k (map (dump k) rows) ≡ some rows
    validated-map k [] = refl
    validated-map k (r ∷ rs) = ap₂ (added dump validate accepts) (reads k r) (validated-map k rs)

    filled_again :
        (db other : Database)
        → add_tables dump validate accepts tables
            (export_config dump validate accepts db)
            (some (cleared other))
          ≡ some (record db { upload_jobs = other.upload_jobs })
    unfolding export_config
    filled_again db other =
        rw
          (
            validated-map calibration_sets db.calibration_sets,
            validated-map programs db.programs,
            validated-map stations db.stations,
            validated-map instruments db.instruments,
            validated-map schedules db.schedules,
            validated-map upload_targets db.upload_targets,
            validated-map access db.access,
            validated-map peers db.peers,
          )
          refl

    -- Given that each row is read back from its JSON and that SQLite accepts the tables with the upload
    -- jobs of the other database: a backup restores exactly its tables into any database without
    -- upload jobs, and is refused by one that has one, which it leaves as it was.
    pub import_config-export_config :
        (db other : Database)
        → accepts (record db { upload_jobs = other.upload_jobs }) ≡ true
        → import_config dump validate accepts (export_config dump validate accepts db) other ≡ (
            if is_some_job other.upload_jobs
            then (false, other)
            else (true, record db { upload_jobs = other.upload_jobs }))
    unfolding import_config
    import_config-export_config db other e =
        ap (restored dump validate accepts (export_config dump validate accepts db) other)
          (delete_tables_all other)
        ∙ go (is_some_job other.upload_jobs)
      where
        go :
            (b : Bool)
            → restored dump validate accepts
                (export_config dump validate accepts db)
                other
                (if b then none else some (cleared other))
              ≡ (if b
                  then (false, other)
                  else (true, record db { upload_jobs = other.upload_jobs }))
        go true = refl
        go false =
            ap (committed dump validate accepts (cleared other)) (filled_again db other) ∙ rw e refl

-- ===== src/Runner/Build/Rounds.antt =====
-- Each round of `build_jobs_for_run` keeps the counters.
use reguard.Prelude.{
  ℕ, suc, ◌≤◌, ◌==◌, ==_iff, String, true, Option, none, some, List, [], ◌∷◌, ◌++◌, ◌≡◌, refl, sym,
  ap, ◌∙◌, inl, inr, arith, All, map_option, update_where-append, find-update_where, find-holds,
  Option-cases, if_both,
}
use mathlib.Core.Path.{subst}
use reguard.Runner.Tables.{
  run_pending, skipped_unsupported_scenario, Tally, CorpusRun, ManifestRow, JobKey, Job, Db,
}
use reguard.Runner.Errors.{ErrorClass}
use reguard.Runner.Persistence.{
  update_corpus_run_status, load_corpus_run, list_jobs_for_run, increment_corpus_run_counters,
  update_evaluation_job_skipped, add_tally, blank_job, find_job_for_repo, insert_evaluation_job,
}
use reguard.Runner.Totals.{tally_of, is_error_row}
use reguard.Runner.Build.{
  Adapter, Resolved, no_delta, has_no_sha, sha_failure_job, add_sha_failure, resolve, get_adapter,
  skip_reason, skip_unsupported, add_job, row_key, add_row, add_rows, manifest_of,
  build_jobs_for_run,
}
use reguard.Runner.Build.Total.{with_job, inserts}
use reguard.Runner.Build.Again.{closing}
use reguard.Runner.Build.Counting.{
  counts_row, loaded_increment, known_append, fresh_update, IsCounted, HasKnownJobs,
}

-- A round that goes through and keeps the counters.
abbrev pub Counts : ℕ → Option Db → Type 0
Counts run result = (db' : Db) × (result ≡ some db') × IsCounted run db' × HasKnownJobs db'

sha_failure_delta :
    (key : JobKey) (m : ManifestRow) (now id : ℕ)
    → tally_of (sha_failure_job key m now id ∷ [])
      ≡ record no_delta { completed_jobs = 1; error_count = 1 }
unfolding tally_of is_error_row sha_failure_job
sha_failure_delta key m now id = refl

blank_delta :
    (id : ℕ) (key : JobKey) (sha name version : String)
    → tally_of (blank_job id key sha name version ∷ []) ≡ no_delta
unfolding tally_of is_error_row
blank_delta id key sha name version = refl

abbrev skipped_row : String → ℕ → Job → Job
skipped_row reason now j = record j {
  job_status = skipped_unsupported_scenario;
  completed_at = some now;
  error_class = some ErrorClass.skipped_unsupported_scenario;
  error_message = some reason;
}

skipped_delta :
    (reason : String) (now id : ℕ) (key : JobKey) (sha name version : String)
    → tally_of (skipped_row reason now (blank_job id key sha name version) ∷ [])
      ≡ record no_delta { completed_jobs = 1; skipped_count = 1 }
unfolding tally_of is_error_row
skipped_delta reason now id key sha name version = refl

add_nothing : (t : Tally) → t ≡ add_tally t no_delta
add_nothing t = ground arith

mine : (key : JobKey) → (key.corpus_run_id == key.corpus_run_id) ≡ true
mine key = (==_iff key.corpus_run_id key.corpus_run_id).1 refl

module _ (key : JobKey) (m : ManifestRow) (now : ℕ) (db : Db)
    (absent : find_job_for_repo key db ≡ none) (counted : IsCounted key.corpus_run_id db)
    (known : HasKnownJobs db) where
  add_sha_failure-Counts : Counts key.corpus_run_id (add_sha_failure key m now db)
  unfolding add_sha_failure increment_corpus_run_counters sha_failure_job load_corpus_run
  add_sha_failure-Counts =
      let row = sha_failure_job key m now in
      let delta : Tally = record no_delta { completed_jobs = 1; error_count = 1 } in
      let db' = increment_corpus_run_counters key.corpus_run_id delta (with_job row db) in
      let (r, found, same) = counted in
      (
        db',
        rw (inserts row key db (λ id. refl) absent, add_sha_failure) refl,
        counts_row key.corpus_run_id db db' (row (suc db.last_job_id)) r
            (record r { tally = add_tally r.tally delta }) refl (mine key) same
            (loaded_increment key.corpus_run_id delta (with_job row db) r found)
            (ap (add_tally r.tally) (sym (sha_failure_delta key m now (suc db.last_job_id)))),
        known_append db.last_job_id db.jobs (row (suc db.last_job_id)) known refl,
      )

  module _ (a : Resolved) where
    abbrev new_row : ℕ → Job
    new_row id = blank_job id key m.resolved_sha a.adapter_name a.adapter_version

    abbrev reason : String
    reason = skip_reason key.scenario_id a.adapter_name

    supported-Counts :
        IsCounted key.corpus_run_id (with_job new_row db) × HasKnownJobs (with_job new_row db)
    unfolding load_corpus_run
    supported-Counts =
        let (r, found, same) = counted in
        (
          counts_row key.corpus_run_id db (with_job new_row db) (new_row (suc db.last_job_id)) r r
              refl (mine key) same found
              (add_nothing r.tally
                ∙ ap (add_tally r.tally) (
                    sym (
                      blank_delta (suc db.last_job_id) key m.resolved_sha a.adapter_name
                        a.adapter_version))),
          known_append db.last_job_id db.jobs (new_row (suc db.last_job_id)) known refl,
        )

    abbrev skip_delta : Tally
    skip_delta = record no_delta { completed_jobs = 1; skipped_count = 1 }

    abbrev skipped_db : Db
    skipped_db =
        increment_corpus_run_counters key.corpus_run_id skip_delta
          (update_evaluation_job_skipped (suc db.last_job_id) reason now (with_job new_row db))

    skipped-jobs :
        skipped_db.jobs ≡ db.jobs ++ skipped_row reason now (new_row (suc db.last_job_id)) ∷ []
    unfolding increment_corpus_run_counters update_evaluation_job_skipped
    skipped-jobs =
        update_where-append (λ j. j.id == suc db.last_job_id) (skipped_row reason now) db.jobs
          (new_row (suc db.last_job_id) ∷ [])
        ∙ rw (
          fresh_update db.last_job_id (skipped_row reason now) db.jobs known,
          (==_iff (suc db.last_job_id) (suc db.last_job_id)).1 refl,
        )

    unsupported-Counts : IsCounted key.corpus_run_id skipped_db × HasKnownJobs skipped_db
    unfolding load_corpus_run increment_corpus_run_counters update_evaluation_job_skipped
    unsupported-Counts =
        let (r, found, same) = counted in
        let row = skipped_row reason now (new_row (suc db.last_job_id)) in
        (
          counts_row key.corpus_run_id db skipped_db row r
              (record r { tally = add_tally r.tally skip_delta }) skipped-jobs (mine key) same
              (loaded_increment key.corpus_run_id skip_delta
                (update_evaluation_job_skipped (suc db.last_job_id) reason now
                  (with_job new_row db))
                r found)
              (ap (add_tally r.tally) (
                sym (
                  skipped_delta reason now (suc db.last_job_id) key m.resolved_sha a.adapter_name
                    a.adapter_version))),
          subst (All (λ j. j.id ≤ suc db.last_job_id)) (sym skipped-jobs)
              (known_append db.last_job_id db.jobs row known refl),
        )

    skip_unsupported-Counts :
        let db' = skip_unsupported key a now (with_job new_row db) in
        IsCounted key.corpus_run_id db' × HasKnownJobs db'
    unfolding skip_unsupported
    skip_unsupported-Counts =
        if_both (λ d. IsCounted key.corpus_run_id d × HasKnownJobs d) a.scenario_supported _ _
          supported-Counts unsupported-Counts

    add_job-Counts : Counts key.corpus_run_id (add_job key m a now db)
    unfolding add_job insert_evaluation_job
    add_job-Counts = (
      skip_unsupported key a now (with_job new_row db),
      rw (inserts new_row key db (λ id. refl) absent, add_job, insert_evaluation_job) refl,
      skip_unsupported-Counts.0,
      skip_unsupported-Counts.1,
    )

add_row-Counts :
    (registry : List (String × Adapter)) (key : JobKey) (m : ManifestRow) (now : ℕ) (db : Db)
    → IsCounted key.corpus_run_id db
    → HasKnownJobs db
    → Counts key.corpus_run_id (add_row registry key m now db)
unfolding add_row
add_row-Counts registry key m now db counted known =
    elim (Option-cases (find_job_for_repo key db)) [
      | inl e ↦
          rw (e, add_row)
            (if_both (Counts key.corpus_run_id) (has_no_sha m) _ _
              (add_sha_failure-Counts key m now db e counted known)
              (add_job-Counts key m now db e counted known
                (resolve (get_adapter registry m.full_name) key.scenario_id)))
      | inr (j, e) ↦
          rw (e, add_row)
            (if_both (Counts key.corpus_run_id) (has_no_sha m) _ _ (db, refl, counted, known)
              (db, refl, counted, known))
    ]

pub add_rows-Counts :
    (registry : List (String × Adapter)) (run : ℕ) (r : CorpusRun) (scenario : String) (now : ℕ)
    (ms : List ManifestRow) (created : ℕ) (db : Db)
    → IsCounted run db
    → HasKnownJobs db
    → (n : ℕ) × (db' : Db) × (add_rows registry run r scenario now ms created db ≡ some (n, db'))
      × IsCounted run db'
      × HasKnownJobs db'
unfolding add_rows row_key
add_rows-Counts registry run r scenario now [] created db counted known =
    (created, db, refl, counted, known)
add_rows-Counts registry run r scenario now (m ∷ ms) created db counted known =
    let (db', e, counted', known') =
      add_row-Counts registry (row_key run r scenario m) m now db counted known in
    let (n, db'', e', counted'', known'') =
      add_rows-Counts registry run r scenario now ms (suc created) db' counted' known' in
    (n, db'', rw (e, add_rows) e', counted'', known'')

-- Building the jobs keeps the stored counters right: if, before, the counters of the run are those
-- that its rows give (as for a new run, with no rows and zeros) and no job's id is past the last one
-- given out, then the call returns and afterwards they still are.
pub build_jobs_for_run-IsCounted :
    (registry : List (String × Adapter)) (run : ℕ) (scenario : String) (now : ℕ) (db : Db)
    → IsCounted run db
    → HasKnownJobs db
    → (n : ℕ) × (db' : Db) × (build_jobs_for_run registry run scenario now db ≡ some (n, db'))
      × IsCounted run db'
unfolding build_jobs_for_run update_corpus_run_status load_corpus_run list_jobs_for_run
build_jobs_for_run-IsCounted registry run scenario now db counted known =
    let (r, found, same) = counted in
    let (n, db', e, (r', found', same'), known') =
      add_rows-Counts registry run r scenario now (manifest_of run db) 0 db counted known in
    (
      n,
      closing run now n db',
      rw (found, build_jobs_for_run, e) refl,
      (
        record r' {
          status = run_pending;
          started_at = some now;
          completed_at = r'.completed_at;
          total_jobs = n;
        },
        find-update_where (λ k. k.id == run) _ _ db'.runs (λ a. refl)
            ∙ ap (map_option _) found'
            ∙ rw (find-holds (λ k. k.id == run) db'.runs r' found'),
        same',
      ),
    )

-- ===== src/Runner/Examples/Workers.antt =====
-- Workers, slots, counters and the building of jobs, on the example's run.
use reguard.Prelude.{ℕ, ◌≤◌, ◌+◌, true, false, none, some, [], ◌∷◌, ◌≡◌, refl}
use reguard.Verdict.Types.{pass, fail}
use reguard.Runner.Counter.{new, acquire, release}
use reguard.Runner.Counter.Admission.{
  Pool, granted, refused, Reach, here, next, start, Reach-bounds, Reach-overcommits,
}
use reguard.Runner.Tables.{CorpusRun, Db}
use reguard.Runner.Persistence.{
  load_corpus_run, list_jobs_for_run, update_evaluation_job_running, insert_evaluation_attempt,
}
use reguard.Runner.Errors.{no_error}
use reguard.Runner.Terminalize.Verdicts.{HasVerdict}
use reguard.Runner.Terminalize.Atomic.{HasEvaluation}
use reguard.Runner.Attempt.{Report, recorded, AttemptResult, manifest_entry, execute_one_attempt}
use reguard.Runner.Worker.{
  drive, returned, conflict_raised, terminal_payload, finish, process_one_job, Surroundings,
}
use reguard.Runner.Worker.Retries.{drive-one_attempt}
use reguard.Runner.Worker.Outcomes.{IsOpen, conflict_escapes, recorded_attempt_stays-IsOpen}
use reguard.Runner.Worker.Records.{undisturbed, worker_records_verdict}
use reguard.Runner.Totals.{set_corpus_run_counters_from_jobs}
use reguard.Runner.Totals.Sums.{bucket_sum, set_corpus_run_counters_from_jobs-adds_up}
use reguard.Runner.Build.{build_jobs_for_run, legacy_s1}
use reguard.Runner.Build.Total.{AllHaveJobs}
use reguard.Runner.Totals.{tally_of}
use reguard.Runner.Build.Counting.{IsCounted}
use reguard.Runner.Build.Rounds.{build_jobs_for_run-IsCounted}
use reguard.Runner.Build.Again.{closing, build_jobs_for_run-total, build_jobs_for_run-again}
use reguard.Runner.Examples.{job, corpus_run, repository, unbuilt, built, judged, judged-HasVerdict}

-- Every run comes back as a recorded PASS.
abbrev passing : ℕ → Report
passing n = recorded pass (some "ok") "all checks passed" (some 40)

abbrev pub passed : AttemptResult
passed = record {
  status = pass;
  error_class = no_error;
  error_message = "all checks passed";
  run_id = some 40;
}

abbrev begun : Db
begun = record (update_evaluation_job_running 1 5 built) {
  attempts =
      record {
        id = 1;
        evaluation_job_id = 1;
        attempt_number = 1;
        started_at = 5;
        completed_at = none;
        result_status = none;
        error_class = none;
        error_message = none;
      }
      ∷ [];
  last_attempt_id = 1;
}

attempt_passes :
    execute_one_attempt (passing 0) 1 1 5 (update_evaluation_job_running 1 5 built)
    ≡ some (begun, passed)
unfolding execute_one_attempt update_evaluation_job_running insert_evaluation_attempt
attempt_passes = refl

slot_is_free : (acquire (new 2)).0 ≡ true
unfolding acquire new
slot_is_free = refl

worker_records_verdict_example :
    (db : Db) × (process_one_job (undisturbed passing) 1 3 5 built (new 2)
      ≡ (returned db, release (acquire (new 2)).1))
    × HasVerdict 1 pass db
    × HasEvaluation (terminal_payload job passed 5) 5 db
worker_records_verdict_example =
    worker_records_verdict passing 1 2 5 built begun (new 2) job passed refl slot_is_free
      attempt_passes

drive-one_attempt_example :
    drive passing 1 5 3 0 built (new 2) none ≡ drive passing 1 5 1 0 built (new 2) none
drive-one_attempt_example = drive-one_attempt passing 1 2 5 built (new 2)

-- By the time the worker finishes, another one has completed the job with FAIL.
abbrev overtaken : Surroundings
overtaken = record (undisturbed passing) {
  first_world = λ _ _. judged fail;
  second_world = λ _ _. judged fail;
}

conflict_escapes_example : finish overtaken job passed 5 built ≡ conflict_raised built
conflict_escapes_example =
    conflict_escapes overtaken job passed fail 5 built refl refl (refl, tt) (judged-HasVerdict fail)
      (refl, tt) (judged-HasVerdict fail) (λ e. cc) (λ e. cc)

abbrev with_first_attempt : Db
with_first_attempt = record built { attempts = begun.attempts; last_attempt_id = 1 }

inserted_first : insert_evaluation_attempt 1 1 5 built ≡ some with_first_attempt
unfolding insert_evaluation_attempt
inserted_first = refl

recorded_attempt_stays-IsOpen_example :
    (r : AttemptResult) × (execute_one_attempt
        (recorded fail (some "ok") "1 check failed" (some 41))
        1
        1
        5
        built
      ≡ some (with_first_attempt, r))
    × (r.status ≡ fail)
    × IsOpen 1 with_first_attempt
unfolding manifest_entry
recorded_attempt_stays-IsOpen_example =
    recorded_attempt_stays-IsOpen fail (some "ok") "1 check failed" (some 41) 1 1 5 built
      with_first_attempt job repository tt inserted_first refl refl refl

set_corpus_run_counters_from_jobs-adds_up_example :
    let db = set_corpus_run_counters_from_jobs 7 (judged fail) in
    ((r : CorpusRun) × (load_corpus_run 7 db ≡ some r) × (r.completed_jobs ≡ bucket_sum r.tally))
    × (set_corpus_run_counters_from_jobs 7 db ≡ db)
unfolding load_corpus_run list_jobs_for_run
set_corpus_run_counters_from_jobs-adds_up_example =
    set_corpus_run_counters_from_jobs-adds_up 7 (judged fail) corpus_run refl (tt, tt)

build_jobs_for_run-total_example :
    (db : Db) × (build_jobs_for_run [] 7 legacy_s1 5 unbuilt ≡ some (1, db))
    × AllHaveJobs 7 corpus_run legacy_s1 (repository ∷ []) db
    × (db.manifest ≡ unbuilt.manifest)
unfolding load_corpus_run
build_jobs_for_run-total_example = build_jobs_for_run-total [] 7 legacy_s1 5 unbuilt corpus_run refl

build_jobs_for_run-again_example :
    (n : ℕ) × (db : Db) × (build_jobs_for_run [] 7 legacy_s1 5 unbuilt ≡ some (n, db))
    × (build_jobs_for_run [] 7 legacy_s1 9 db ≡ some (n, closing 7 9 n db))
unfolding load_corpus_run
build_jobs_for_run-again_example =
    build_jobs_for_run-again [] [] 7 legacy_s1 5 9 unbuilt corpus_run refl

unbuilt-IsCounted : IsCounted 7 unbuilt
unfolding load_corpus_run list_jobs_for_run tally_of
unbuilt-IsCounted = (corpus_run, refl, refl)

build_jobs_for_run-IsCounted_example :
    (n : ℕ) × (db : Db) × (build_jobs_for_run [] 7 legacy_s1 5 unbuilt ≡ some (n, db))
    × IsCounted 7 db
build_jobs_for_run-IsCounted_example =
    build_jobs_for_run-IsCounted [] 7 legacy_s1 5 unbuilt unbuilt-IsCounted tt

abbrev one_running : Pool
one_running = record { counter = (acquire (new 1)).1; running = 1; leaving = 0; surplus = 0 }

one_is_granted : (acquire (start 1).counter).0 ≡ true
unfolding acquire new
one_is_granted = refl

-- A second caller is refused.
abbrev one_refused : Pool
one_refused = record one_running { counter = (acquire one_running.counter).1; leaving = 1 }

next_is_refused : (acquire one_running.counter).0 ≡ false
unfolding acquire new
next_is_refused = refl

Reach-bounds_example : (1 ≤ 1 + 0) × (1 ≤ one_refused.peak + 0) × (one_refused.peak ≤ 1 + 0)
Reach-bounds_example =
    Reach-bounds 1 one_refused
      (next (next here (granted (start 1) one_is_granted)) (refused one_running next_is_refused))

Reach-overcommits_example : (q : Pool) × Reach (start 1) q × (q.surplus ≡ 2) × (q.running ≡ 1 + 2)
Reach-overcommits_example = Reach-overcommits 1 2

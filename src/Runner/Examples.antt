-- ===== src/Runner/Examples.antt =====
-- The runner on one small corpus run: one repository, one job.
mod Workers
mod Validation
mod Creation
mod Driving
mod Caching
mod Materializing
use reguard.Prelude.{
  ℕ, zero, suc, ◌+◌, ◌≤◌, ◌<◌, ◌==◌, String, true, false, Option, none, some, List, [], ◌∷◌, ◌≡◌,
  ◌≢◌, refl, ◌⊎◌, arith, All, keep, length, str_eq,
}
use reguard.Verdict.Types.{RunStatus, pass, fail, unknown, unsupported, error}
use reguard.Runner.Counter.{ActiveContainerCounter, new, acquire, release}
use reguard.Runner.Errors.{no_error}
use reguard.Runner.Tables.{completed, run_pending, Tally, CorpusRun, ManifestRow, JobKey, Job, Db}
use reguard.Runner.Persistence.{
  blank_job, job_with_id, insert_evaluation_attempt, update_evaluation_job_running, load_corpus_run,
  list_jobs_for_run,
}
use reguard.Runner.Terminalize.{
  TerminalPayload, Answer, runs, locked, ok, conflict, is_writable, terminalize_once,
  terminal_writes, terminalize_job, terminalize_outer_attempts, operational, busy,
}
use reguard.Runner.Terminalize.Retry.{
  calm, IsFinal, Settles, terminalize_job_ends, terminalize_job_succeeds,
}
use reguard.Runner.Terminalize.Verdicts.{HasVerdict, terminalize_all, terminalize_all-HasVerdict}
use reguard.Runner.Terminalize.Atomic.{HasEvaluation, IsProtected, terminalize_once-agrees}
use reguard.Runner.Attempt.{
  Report, raised, recorded, AttemptResult, manifest_entry, execute_one_attempt,
}
use reguard.Runner.Worker.{
  drive, Surroundings, returned, conflict_raised, terminal_payload, finish, process_one_job,
}
use reguard.Runner.Worker.Retries.{drive-one_attempt}
use reguard.Runner.Worker.Outcomes.{IsOpen, conflict_escapes, recorded_attempt_stays-IsOpen}
use reguard.Runner.Worker.Records.{undisturbed, worker_records_verdict}
use reguard.Runner.Totals.{set_corpus_run_counters_from_jobs}
use reguard.Runner.Totals.Sums.{bucket_sum, set_corpus_run_counters_from_jobs-adds_up}
use reguard.Runner.Build.{Adapter, no_delta, legacy_s1, build_jobs_for_run}
use reguard.Runner.Build.Total.{AllHaveJobs, Keeps}
use reguard.Runner.Build.Again.{closing, build_jobs_for_run-total, build_jobs_for_run-again}

abbrev key : JobKey
key = record {
  corpus_run_id = 7;
  repository_id = 3;
  requirement_id = "AI_ACT_12_1_AUTOMATIC_EVENT_LOGGING";
  requirement_version = "1.4.0";
  scenario_id = legacy_s1;
}

abbrev job : Job
job = blank_job 1 key "abc" "haystack" "1"

abbrev corpus_run : CorpusRun
corpus_run = record {
  id = 7;
  status = run_pending;
  requirement_id = "AI_ACT_12_1_AUTOMATIC_EVENT_LOGGING";
  requirement_version = "1.4.0";
  scenario_id = legacy_s1;
  max_workers = 2;
  max_attempts = 3;
  total_jobs = 0;
  tally = no_delta;
  started_at = none;
  completed_at = none;
}

abbrev repository : ManifestRow
repository = record {
  corpus_run_id = 7;
  repository_id = 3;
  full_name = "deepset-ai/haystack";
  clone_url = "https://github.com/deepset-ai/haystack.git";
  resolved_sha = "abc";
  sha_resolution_class = some "ok";
  position = 0;
}

abbrev unbuilt : Db
unbuilt = record {
  runs = corpus_run ∷ [];
  manifest = repository ∷ [];
  jobs = [];
  attempts = [];
  evaluations = [];
  last_job_id = 0;
  last_attempt_id = 0;
  last_evaluation_id = 0;
}

abbrev built : Db
built = record unbuilt { jobs = job ∷ []; last_job_id = 1 }

-- The job is completed with a verdict.
abbrev closed : RunStatus → Job
closed v = record job { job_status = completed; compliance_status = some v }

abbrev judged : RunStatus → Db
judged v = record built { jobs = closed v ∷ [] }

abbrev payload : RunStatus → TerminalPayload
payload v = record {
  job_id = 1;
  compliance_status = v;
  compliance_runtime_run_id = some 40;
  missing_capability = none;
  execution_recipe_id = "legacy-adapter-direct";
  execution_recipe_version = "v1.1";
  error_class = no_error;
  error_message = "";
  completed_at = some 12;
  requirement_id = "AI_ACT_12_1_AUTOMATIC_EVENT_LOGGING";
  requirement_version = "1.4.0";
}

judged-HasVerdict : (v : RunStatus) → HasVerdict 1 v (judged v)
judged-HasVerdict v = (closed v, refl, refl, refl)

terminalize_all-HasVerdict_example :
    HasVerdict 1 pass (terminalize_all ((payload fail, 5) ∷ (payload pass, 6) ∷ []) (judged pass))
terminalize_all-HasVerdict_example =
    terminalize_all-HasVerdict ((payload fail, 5) ∷ (payload pass, 6) ∷ []) 1 pass (judged pass)
      (judged-HasVerdict pass)

terminalize_once-agrees_example :
    (IsProtected fail job × (terminalize_once calm (payload fail) 5 built ≡ conflict))
    ⊎ (¬ IsProtected fail job
        × (db : Db) × (terminalize_once calm (payload fail) 5 built ≡ ok db)
        × HasVerdict 1 fail db
        × HasEvaluation (payload fail) 5 db)
terminalize_once-agrees_example = terminalize_once-agrees (payload fail) 5 built job (refl, tt) refl

-- The first attempt of a call finds the database locked at its first statement.
abbrev locked_once : ℕ → ℕ → Answer
locked_once zero s = locked
locked_once (suc i) s = runs

terminalize_job_ends_example :
    Settles locked_once
      (λ _. built)
      (payload pass)
      5
      terminalize_outer_attempts
      0
      (terminalize_job locked_once (λ _. built) (payload pass) 5)
    ⊎ (terminalize_job locked_once (λ _. built) (payload pass) 5 ≡ operational)
terminalize_job_ends_example = terminalize_job_ends locked_once (λ _. built) (payload pass) 5

first_is_busy : (j : ℕ) → j < 1 → terminalize_once (locked_once j) (payload pass) 5 built ≡ busy
unfolding terminalize_once
first_is_busy zero h = refl
first_is_busy (suc j) h = absurd (omega arith)

terminalize_job_succeeds_example :
    (terminalize_job locked_once (λ _. built) (payload pass) 5
      ≡ terminalize_once calm (payload pass) 5 built)
    × IsFinal (terminalize_job locked_once (λ _. built) (payload pass) 5)
terminalize_job_succeeds_example =
    terminalize_job_succeeds locked_once (λ _. built) (payload pass) 5 1 (omega arith) first_is_busy
      (λ s. refl)

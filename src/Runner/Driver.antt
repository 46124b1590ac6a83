-- ===== src/Runner/Driver.antt =====
-- `run_corpus_run` of src/compliance/corpus_runner/executor.py: one corpus run from its pending jobs to
-- its counters.
--
-- The thread pool is a parameter: what it makes of the ids of the jobs that are submitted, with the
-- database and the counter that all workers share. `one_by_one` is the pool of one thread. The progress
-- callback, whose exceptions are caught, and the metrics of the materializer are left out.
pub mod Quiet
pub mod Completion
use reguard.Prelude.{
  String, str_eq, ltb, not, ℕ, suc, ◌+◌, ◌==◌, Bool, true, false, ◌&&◌, Option, none, some, List,
  [], ◌∷◌, map, count, length, any, if◌then◌else◌,
}
use reguard.Runner.Errors.{
  ErrorClass, no_error, sha_resolution_error, clone_error, checkout_error, container_start_error,
  install_error, probe_error, adapter_error, evidence_schema_error, timeout,
  internal_scheduler_error, skipped_unsupported_scenario,
}
use reguard.Runner.Counter.{ActiveContainerCounter, new}
use reguard.Runner.Tables.{RunState, run_running, run_completed, Tally, CorpusRun, Job, Attempt, Db}
use reguard.Runner.Persistence.{
  update_corpus_run_status, load_corpus_run, list_pending_jobs, list_jobs_for_run,
}
use reguard.Runner.Totals.{set_corpus_run_counters_from_jobs}
use reguard.Runner.Worker.{
  Surroundings, Ended, returned, integrity_raised, conflict_raised, operational_raised,
  process_one_job,
}

-- What is left when the `with` block of the pool is over: whether every `fut.result()` returned.
pub record Pooled : Type 0 where
  pub all_returned : Bool
  pub db : Db
  pub counter : ActiveContainerCounter

-- The ids of the submitted jobs, `attempt_limit`, and what the threads share.
abbrev pub Pool : Type 0
Pool = List ℕ → ℕ → Db → ActiveContainerCounter → Pooled

unfoldable pub has_returned : Ended → Bool
has_returned (returned db) = true
has_returned (integrity_raised db) = false
has_returned (conflict_raised db) = false
has_returned (operational_raised db) = false

unfoldable pub left_by : Ended → Db
left_by (returned db) = db
left_by (integrity_raised db) = db
left_by (conflict_raised db) = db
left_by (operational_raised db) = db

-- One thread takes the jobs in the order of their submission. The jobs after one that raised are run as
-- well: the pool waits for them before the exception goes up.
unfoldable pub one_by_one : (ℕ → Surroundings) → ℕ → Pool
unfolding has_returned left_by
one_by_one env now [] limit db c = record { all_returned = true; db = db; counter = c }
one_by_one env now (id ∷ ids) limit db c =
    let (ended, c') = process_one_job (env id) id limit now db c in
    let rest = one_by_one env now ids limit (left_by ended) c' in
    record rest { all_returned = has_returned ended && rest.all_returned }

-- The value of the constant in errors.py
unfoldable pub token : ErrorClass → String
token no_error = ""
token sha_resolution_error = "SHA_RESOLUTION_ERROR"
token clone_error = "CLONE_ERROR"
token checkout_error = "CHECKOUT_ERROR"
token container_start_error = "CONTAINER_START_ERROR"
token install_error = "INSTALL_ERROR"
token probe_error = "PROBE_ERROR"
token adapter_error = "ADAPTER_ERROR"
token evidence_schema_error = "EVIDENCE_SCHEMA_ERROR"
token timeout = "TIMEOUT"
token internal_scheduler_error = "INTERNAL_SCHEDULER_ERROR"
token skipped_unsupported_scenario = "SKIPPED_UNSUPPORTED_SCENARIO"

-- A row that `_error_class_counts` joins and groups under a class
unfoldable pub is_counted : ℕ → String → Db → Attempt → Bool
unfolding token
is_counted run class db a = elim a.error_class [
  | none ↦ false
  | some c ↦
      not (str_eq (token c) "")
      && str_eq (token c) class
      && any (λ j. j.id == a.evaluation_job_id && j.key.corpus_run_id == run) db.jobs
]

-- The count under a class; a class with no rows is no key of the dictionary.
unfoldable pub error_class_counts : ℕ → Db → String → ℕ
unfolding is_counted
error_class_counts run db class = count (is_counted run class db) db.attempts

pub record CorpusRunProgress : Type 0 where
  pub corpus_run_id : ℕ
  pub total_jobs : ℕ
  pub tally : Tally
  pub active_containers_peak : ℕ
  pub error_class_counts : String → ℕ

-- How `run_corpus_run` ends: there is no such run (a `TypeError`), the pool raises (with no worker, or an
-- exception of one), the run is gone at the end (an `AssertionError`), or a result is returned.
pub data RunnerResult : Type 0 where
  unknown_run : RunnerResult
  pool_raised : Db → RunnerResult
  run_is_gone : Db → RunnerResult
  finished : CorpusRunProgress → Db → RunnerResult

-- After the threads: the recomputed counters, the result, and the end of the run.
unfoldable pub conclude : ℕ → ℕ → ℕ → Db → ActiveContainerCounter → RunnerResult
unfolding set_corpus_run_counters_from_jobs load_corpus_run error_class_counts
    update_corpus_run_status
conclude run now total db c =
    let counted = set_corpus_run_counters_from_jobs run db in
    elim (load_corpus_run run counted) [
      | none ↦ run_is_gone counted
      | some final ↦
          finished
            (record {
              corpus_run_id = run;
              total_jobs = total;
              tally = final.tally;
              active_containers_peak = c.peak;
              error_class_counts = error_class_counts run counted;
            })
            (update_corpus_run_status run run_completed none (some now) none counted)
    ]

-- `with ThreadPoolExecutor(...)`: a pool of no workers is a `ValueError`.
unfoldable pub run_pool : Pool → ℕ → ℕ → CorpusRun → Db → ActiveContainerCounter → RunnerResult
unfolding conclude list_pending_jobs
run_pool pool run now row db c =
    let pending = list_pending_jobs run db in
    let pooled = pool (map (λ (j : Job). j.id) pending) row.max_attempts db c in
    if ltb 0 row.max_workers
    then if pooled.all_returned
      then conclude run now (length pending) pooled.db pooled.counter
      else pool_raised pooled.db
    else pool_raised db

-- The counter is a parameter of the source too; by default it is made for `max_workers`.
unfoldable pub run_corpus_run : Pool → ℕ → Option ActiveContainerCounter → ℕ → Db → RunnerResult
unfolding run_pool update_corpus_run_status load_corpus_run
run_corpus_run pool run container_counter now db = elim (load_corpus_run run db) [
  | none ↦ unknown_run
  | some row ↦
      run_pool pool run now row (update_corpus_run_status run run_running none none none db)
        (elim container_counter [ none ↦ new row.max_workers | some c ↦ c ])
]

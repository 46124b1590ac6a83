-- ===== src/Runner/Persistence.antt =====
-- The statements of src/compliance/corpus_runner/persistence.py, each one a connection that is opened,
-- committed and closed. `none` is an `IntegrityError` of a unique index; nothing is written then.
use reguard.Prelude.{
  find, update_where, ℕ, suc, ◌+◌, String, Bool, ◌&&◌, Option, none, some, List, [], ◌∷◌, ◌++◌, any,
  keep, ◌==◌, str_eq, if◌then◌else◌,
}
use reguard.Verdict.Types.{RunStatus}
use reguard.Runner.Errors.{ErrorClass}
use reguard.Runner.Tables.{
  JobStatus, RunState, Tally, CorpusRun, JobKey, Job, Attempt, Db, job_key_eq,
}

abbrev pub adapter_missing_sentinel : String
adapter_missing_sentinel = "__MISSING__"

-- `SELECT * FROM evaluation_jobs WHERE id = ?`
abbrev pub job_with_id : ℕ → Db → Option Job
job_with_id id db = find (λ j. j.id == id) db.jobs

-- `UPDATE corpus_runs SET f WHERE id = ?`
unfoldable pub on_run : ℕ → (CorpusRun → CorpusRun) → Db → Db
on_run id f db = record db { runs = update_where (λ r. r.id == id) f db.runs }

-- `UPDATE evaluation_jobs SET f WHERE id = ?`
unfoldable pub on_job : ℕ → (Job → Job) → Db → Db
on_job id f db = record db { jobs = update_where (λ j. j.id == id) f db.jobs }

-- `column = ?` only if the argument is not `None`
abbrev pub set_given : Option ℕ → Option ℕ → Option ℕ
set_given none old = old
set_given (some t) old = some t

abbrev pub set_total : Option ℕ → ℕ → ℕ
set_total none old = old
set_total (some n) old = n

unfoldable pub update_corpus_run_status : ℕ → RunState → Option ℕ → Option ℕ → Option ℕ → Db → Db
unfolding on_run
update_corpus_run_status id status started_at completed_at total_jobs = on_run id λ r. record r {
  status = status;
  started_at = set_given started_at r.started_at;
  completed_at = set_given completed_at r.completed_at;
  total_jobs = set_total total_jobs r.total_jobs;
}

abbrev pub add_tally : Tally → Tally → Tally
add_tally t d = record {
  completed_jobs = t.completed_jobs + d.completed_jobs;
  pass_count = t.pass_count + d.pass_count;
  fail_count = t.fail_count + d.fail_count;
  unknown_count = t.unknown_count + d.unknown_count;
  unsupported_count = t.unsupported_count + d.unsupported_count;
  error_count = t.error_count + d.error_count;
  skipped_count = t.skipped_count + d.skipped_count;
}

-- The deltas of the callers under src/ are not negative.
unfoldable pub increment_corpus_run_counters : ℕ → Tally → Db → Db
unfolding on_run
increment_corpus_run_counters id delta = on_run id λ r. record r { tally = add_tally r.tally delta }

unfoldable pub load_corpus_run : ℕ → Db → Option CorpusRun
load_corpus_run id db = find (λ r. r.id == id) db.runs

-- A row as `INSERT INTO evaluation_jobs` fills it, `DEFAULT`s of the schema included.
abbrev pub blank_job : ℕ → JobKey → String → String → String → Job
blank_job id key repo_sha adapter_name adapter_version = record {
  id = id;
  key = key;
  repo_sha = repo_sha;
  adapter_name = adapter_name;
  adapter_version = adapter_version;
  job_status = JobStatus.pending;
  compliance_status = none;
  compliance_runtime_run_id = none;
  error_class = none;
  error_message = none;
  missing_capability = none;
  execution_recipe_id = "legacy-adapter-direct";
  execution_recipe_version = "v0";
  attempt_count = 0;
  started_at = none;
  completed_at = none;
}

-- Whether `idx_ej_unique_logical` refuses the row.
unfoldable pub is_logical_duplicate : Job → Job → Bool
is_logical_duplicate j k = job_key_eq j.key k.key && str_eq j.repo_sha k.repo_sha

-- `INSERT INTO evaluation_jobs`, the row given by its new id.
unfoldable pub insert_job_row : (ℕ → Job) → Db → Option Db
unfolding is_logical_duplicate
insert_job_row row db =
    if any (is_logical_duplicate (row (suc db.last_job_id))) db.jobs
    then none
    else some (record db {
      jobs = db.jobs ++ row (suc db.last_job_id) ∷ [];
      last_job_id = suc db.last_job_id;
    })

unfoldable pub insert_evaluation_job : JobKey → String → String → String → Db → Option Db
unfolding insert_job_row
insert_evaluation_job key repo_sha adapter_name adapter_version =
    insert_job_row λ id. blank_job id key repo_sha adapter_name adapter_version

unfoldable pub list_jobs_for_run : ℕ → Db → List Job
list_jobs_for_run run db = keep (λ j. j.key.corpus_run_id == run) db.jobs

-- `list_jobs_for_run(..., only_status='pending')`
unfoldable pub list_pending_jobs : ℕ → Db → List Job
list_pending_jobs run db =
    keep
      (λ j.
        j.key.corpus_run_id == run
        && (elim j.job_status [ JobStatus.pending ↦ Bool.true | _ ↦ Bool.false ]))
      db.jobs

unfoldable pub update_evaluation_job_running : ℕ → ℕ → Db → Db
unfolding on_job
update_evaluation_job_running id now = on_job id λ j. record j {
  job_status = JobStatus.running;
  started_at = some now;
  attempt_count = j.attempt_count + 1;
}

unfoldable pub update_evaluation_job_skipped : ℕ → String → ℕ → Db → Db
unfolding on_job
update_evaluation_job_skipped id reason now = on_job id λ j. record j {
  job_status = JobStatus.skipped_unsupported_scenario;
  completed_at = some now;
  error_class = some ErrorClass.skipped_unsupported_scenario;
  error_message = some reason;
}

unfoldable pub find_job_for_repo : JobKey → Db → Option Job
find_job_for_repo key db = find (λ j. job_key_eq j.key key) db.jobs

-- `idx_ea_unique_attempt` refuses a second row with the same number.
unfoldable pub insert_evaluation_attempt : ℕ → ℕ → ℕ → Db → Option Db
insert_evaluation_attempt job number now db =
    if any (λ a. a.evaluation_job_id == job && a.attempt_number == number) db.attempts
    then none
    else some (record db {
      attempts =
          db.attempts
          ++ record {
            id = suc db.last_attempt_id;
            evaluation_job_id = job;
            attempt_number = number;
            started_at = now;
            completed_at = none;
            result_status = none;
            error_class = none;
            error_message = none;
          }
            ∷ [];
      last_attempt_id = suc db.last_attempt_id;
    })

unfoldable pub update_evaluation_attempt_finished :
    ℕ → RunStatus → ErrorClass → String → ℕ → Db → Db
update_evaluation_attempt_finished id status class message now db = record db {
  attempts =
      update_where (λ a. a.id == id)
        (λ a. record a {
          completed_at = some now;
          result_status = some status;
          error_class = some class;
          error_message = some message;
        })
        db.attempts;
}

unfoldable pub list_attempts_for_job : ℕ → Db → List Attempt
list_attempts_for_job job db = keep (λ a. a.evaluation_job_id == job) db.attempts

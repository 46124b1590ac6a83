-- ===== src/Runner/Tables.antt =====
-- The tables of migrations/006 to 010 and the SQL that the runner's statements are made of.
--
-- A table is the list of its rows in the order of their ids, with the last id that AUTOINCREMENT gave
-- out. A nullable column is an `Option`. Times are numbers: the ISO-8601 texts of the source all have
-- one width and zone, so that SQLite orders them as numbers. `created_at`, which nothing reads, and
-- the host name and process id inside `worker_id` are left out.
use reguard.Prelude.{
  ℕ, String, Bool, true, false, ◌&&◌, Option, List, ◌==◌, str_eq, ◌≡◌, ◌↔◌, arith,
}
use reguard.Verdict.Types.{RunStatus, pass, fail, unknown, unsupported, error}
use reguard.Runner.Errors.{ErrorClass}

pub data JobStatus : Type 0 where
  pending running completed skipped_unsupported_scenario : JobStatus

-- `corpus_runs.status`
pub data RunState : Type 0 where
  run_pending run_running run_completed run_failed run_cancelled : RunState

-- The aggregate counters of a `corpus_runs` row.
pub record Tally : Type 0 where
  pub completed_jobs : ℕ
  pub pass_count : ℕ
  pub fail_count : ℕ
  pub unknown_count : ℕ
  pub unsupported_count : ℕ
  pub error_count : ℕ
  pub skipped_count : ℕ

pub record CorpusRun : Type 0 where
  pub id : ℕ
  pub status : RunState
  pub requirement_id : String
  pub requirement_version : String
  pub scenario_id : String
  pub max_workers : ℕ
  pub max_attempts : ℕ
  pub total_jobs : ℕ
  pub tally : Tally
  pub open tally use *
  pub started_at : Option ℕ
  pub completed_at : Option ℕ

pub record ManifestRow : Type 0 where
  pub corpus_run_id : ℕ
  pub repository_id : ℕ
  pub full_name : String
  pub clone_url : String
  pub resolved_sha : String
  pub sha_resolution_class : Option String
  pub position : ℕ

-- The columns of the unique index `idx_ej_unique_logical`, but for `repo_sha`.
pub record JobKey : Type 0 where
  pub corpus_run_id : ℕ
  pub repository_id : ℕ
  pub requirement_id : String
  pub requirement_version : String
  pub scenario_id : String

pub record Job : Type 0 where
  pub id : ℕ
  pub key : JobKey
  pub repo_sha : String
  pub adapter_name : String
  pub adapter_version : String
  pub job_status : JobStatus
  pub compliance_status : Option RunStatus
  pub compliance_runtime_run_id : Option ℕ
  pub error_class : Option ErrorClass
  pub error_message : Option String
  pub missing_capability : Option String
  pub execution_recipe_id : String
  pub execution_recipe_version : String
  pub attempt_count : ℕ
  pub started_at : Option ℕ
  pub completed_at : Option ℕ

pub record Attempt : Type 0 where
  pub id : ℕ
  pub evaluation_job_id : ℕ
  pub attempt_number : ℕ
  pub started_at : ℕ
  pub completed_at : Option ℕ
  pub result_status : Option RunStatus
  pub error_class : Option ErrorClass
  pub error_message : Option String

-- The columns of the unique index `idx_re_unique`.
pub record EvaluationKey : Type 0 where
  pub evaluation_job_id : ℕ
  pub requirement_id : String
  pub requirement_version : String

pub record Evaluation : Type 0 where
  pub id : ℕ
  pub key : EvaluationKey
  pub compliance_status : RunStatus
  pub compliance_runtime_run_id : Option ℕ
  pub evaluated_at : ℕ

pub record Db : Type 0 where
  pub runs : List CorpusRun
  pub manifest : List ManifestRow
  pub jobs : List Job
  pub attempts : List Attempt
  pub evaluations : List Evaluation
  pub last_job_id : ℕ
  pub last_attempt_id : ℕ
  pub last_evaluation_id : ℕ

unfoldable pub job_key_eq : JobKey → JobKey → Bool
job_key_eq k l =
    k.corpus_run_id == l.corpus_run_id
    && k.repository_id == l.repository_id
    && str_eq k.requirement_id l.requirement_id
    && str_eq k.requirement_version l.requirement_version
    && str_eq k.scenario_id l.scenario_id

unfoldable pub evaluation_key_eq : EvaluationKey → EvaluationKey → Bool
evaluation_key_eq k l =
    k.evaluation_job_id == l.evaluation_job_id
    && str_eq k.requirement_id l.requirement_id
    && str_eq k.requirement_version l.requirement_version

unfoldable pub status_eq : RunStatus → RunStatus → Bool
status_eq pass pass = true
status_eq fail fail = true
status_eq unknown unknown = true
status_eq unsupported unsupported = true
status_eq error error = true
status_eq _ _ = false

pub status_eq_iff : (s t : RunStatus) → (status_eq s t ≡ true) ↔ (s ≡ t)
unfolding status_eq
status_eq_iff s t = ground arith

-- ===== src/Runner/Attempt.antt =====
-- `_execute_one_attempt` of src/compliance/corpus_runner/executor.py: one attempt of one job.
--
-- What the checkout, the probe and the adapter do is a `Report`.
use reguard.Prelude.{
  ℕ, ltb, ◌==◌, String, ◌&&◌, Option, none, some, List, [], ◌∷◌, find, str_eq, if◌then◌else◌,
}
use reguard.Verdict.Types.{RunStatus, unsupported, error}
use reguard.Runner.Errors.{
  ErrorClass, no_error, internal_scheduler_error, classify_probe_status, or_probe_error,
}
use reguard.Runner.Tables.{ManifestRow, Job, Attempt, Db}
use reguard.Runner.Persistence.{
  adapter_missing_sentinel, job_with_id, insert_evaluation_attempt,
  update_evaluation_attempt_finished, list_attempts_for_job,
}

-- `materializer.prepare`, `run_with_prepared_checkout` and `cleanup`: an exception with its `repr` (cut
-- to 4000 characters), or a `RunRecord`: its status, its `probe_status`, its reason and the id of its row.
pub data Report : Type 0 where
  raised : String → Report
  recorded : RunStatus → Option String → String → Option ℕ → Report

-- The tuple that `_execute_one_attempt` returns.
pub record AttemptResult : Type 0 where
  pub status : RunStatus
  pub error_class : ErrorClass
  pub error_message : String
  pub run_id : Option ℕ

unfoldable pub failed_attempt : RunStatus → ErrorClass → String → AttemptResult
failed_attempt s c m = record { status = s; error_class = c; error_message = m; run_id = none }

-- The `JOIN` of `corpus_run_repositories` with the job.
unfoldable pub manifest_entry : Job → Db → Option ManifestRow
manifest_entry j db =
    find (λ m. m.corpus_run_id == j.key.corpus_run_id && m.repository_id == j.key.repository_id)
      db.manifest

-- `err_class` of a recorded run
unfoldable pub recorded_class : RunStatus → Option String → ErrorClass
recorded_class error probe = or_probe_error (classify_probe_status probe)
recorded_class _ probe = no_error

-- The attempt's row is finished, and a result with no row in `compliance_runtime_runs` is returned;
-- the two messages may differ.
unfoldable pub finish_attempt :
    ℕ → ℕ → RunStatus → ErrorClass → String → String → Db → Db × AttemptResult
unfolding failed_attempt
finish_attempt attempt now s c written m db =
    (update_evaluation_attempt_finished attempt s c written now db, failed_attempt s c m)

unfoldable pub run_report : Report → ℕ → ℕ → Db → Db × AttemptResult
unfolding recorded_class finish_attempt
run_report (raised message) attempt now db =
    finish_attempt attempt now error internal_scheduler_error message message db
run_report (recorded s probe reason run) attempt now db = (
  db,
  record { status = s; error_class = recorded_class s probe; error_message = reason; run_id = run },
)

-- The run on the repository that the manifest names.
unfoldable pub run_entry : Report → Option ManifestRow → ℕ → ℕ → Db → Db × AttemptResult
unfolding run_report
run_entry report none attempt now db =
    finish_attempt attempt now error internal_scheduler_error "manifest row missing for job"
      "manifest row missing" db
run_entry report (some row) attempt now db = run_report report attempt now db

-- The body of the `try`, once the job's row is read; a missing row is a `TypeError`.
unfoldable pub run_attempt : Report → Option Job → ℕ → ℕ → Db → Db × AttemptResult
unfolding manifest_entry run_entry finish_attempt
run_attempt report none attempt now db =
    finish_attempt attempt now error internal_scheduler_error
      "TypeError(\"'NoneType' object is not subscriptable\")"
      "TypeError(\"'NoneType' object is not subscriptable\")" db
run_attempt report (some j) attempt now db =
    if str_eq j.adapter_name adapter_missing_sentinel
    then finish_attempt attempt now unsupported no_error "adapter not registered"
        "adapter not registered" db
    else run_entry report (manifest_entry j db) attempt now db

-- `none` is the `IntegrityError` of the attempt's insertion.
unfoldable pub execute_one_attempt : Report → ℕ → ℕ → ℕ → Db → Option (Db × AttemptResult)
unfolding run_attempt
execute_one_attempt report job number now db = elim (insert_evaluation_attempt job number now db) [
  | none ↦ none
  | some db' ↦ some (run_attempt report (job_with_id job db') db'.last_attempt_id now db')
]

-- `ORDER BY attempt_number DESC LIMIT 1`
unfoldable pub latest_attempt : List Attempt → Option Attempt
latest_attempt [] = none
latest_attempt (a ∷ as') = elim (latest_attempt as') [
  | none ↦ some a
  | some b ↦ if ltb a.attempt_number b.attempt_number then some b else some a
]

unfoldable pub latest_attempt_id : ℕ → Db → ℕ
unfolding latest_attempt
latest_attempt_id job db = elim (latest_attempt (list_attempts_for_job job db)) [
  | none ↦ 0
  | some a ↦ a.id
]

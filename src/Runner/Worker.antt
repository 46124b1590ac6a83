-- ===== src/Runner/Worker.antt =====
-- `_process_one_job_thread` of src/compliance/corpus_runner/executor.py: the attempts at one job.
--
-- The database file and the counter are shared; a worker is modelled from its own side, and what the
-- other threads commit comes in where the database is read for terminalization. What an attempt's
-- checkout, probe and adapter do is a `Report`, chosen by the surroundings for each attempt.
pub mod Retries
pub mod Outcomes
pub mod Records
use reguard.Prelude.{
  ℕ, zero, suc, ◌+◌, ltb, ◌==◌, String, Bool, true, false, ◌&&◌, Option, none, some, List, [], ◌∷◌,
  find, str_eq, if◌then◌else◌,
}
use reguard.Verdict.Types.{RunStatus, pass, fail, unknown, unsupported, error}
use reguard.Runner.Errors.{
  ErrorClass, no_error, container_start_error, internal_scheduler_error, is_retryable,
  classify_probe_status, or_probe_error,
}
use reguard.Runner.Counter.{ActiveContainerCounter, acquire, release}
use reguard.Runner.Tables.{ManifestRow, Job, Attempt, Db}
use reguard.Runner.Persistence.{
  adapter_missing_sentinel, job_with_id, update_evaluation_job_running, insert_evaluation_attempt,
  update_evaluation_attempt_finished, list_attempts_for_job,
}
use reguard.Runner.Attempt.{
  Report, AttemptResult, failed_attempt, manifest_entry, recorded_class, finish_attempt, run_report,
  run_entry, run_attempt, execute_one_attempt, latest_attempt, latest_attempt_id, raised, recorded,
}
use reguard.Runner.Terminalize.{
  TerminalPayload, Answer, ok, busy, operational, conflict, terminalize_job,
}

abbrev pub admission_refused : AttemptResult
admission_refused = record {
  status = error;
  error_class = container_start_error;
  error_message = "admission control refused the slot";
  run_id = none;
}

-- How the loop over the attempts ends: by an exception, or with the last result.
pub data Driven : Type 0 where
  integrity_error : Db → ActiveContainerCounter → Driven
  driven : Db → ActiveContainerCounter → Option AttemptResult → Driven

-- `last_run_id`, which is that of the attempt before, if there was one
abbrev pub run_id_of : Option AttemptResult → Option ℕ
run_id_of none = none
run_id_of (some r) = r.run_id

-- The branch without a slot; it breaks out of the loop.
unfoldable pub refuse : ℕ → ℕ → ℕ → Db → ActiveContainerCounter → Option AttemptResult → Driven
unfolding latest_attempt_id
refuse job number now db c last = elim (insert_evaluation_attempt job number now db) [
  | none ↦ integrity_error db c
  | some db' ↦
      driven
        (update_evaluation_attempt_finished (latest_attempt_id job db') error container_start_error
          "admission control refused the slot" now db')
        (release c) (some (record admission_refused { run_id = run_id_of last }))
]

-- `last_status == "ERROR" and is_retryable(last_err_class) and attempt < attempt_limit`
unfoldable pub continues : AttemptResult → ℕ → Bool
continues r left =
    (elim r.status [ error ↦ true | _ ↦ false ]) && is_retryable (some r.error_class) && ltb 0 left

-- `while attempt < attempt_limit`, by the attempts left; `made` of them are over.
unfoldable pub drive :
    (ℕ → Report) → ℕ → ℕ → ℕ → ℕ → Db → ActiveContainerCounter → Option AttemptResult → Driven
unfolding execute_one_attempt refuse continues
drive reports job now zero made db c last = driven db c last
drive reports job now (suc left) made db c last = elim (acquire c).0 [
  | false ↦ refuse job (suc made) now db (acquire c).1 last
  | true ↦
      elim (execute_one_attempt (reports made) job (suc made) now
        (update_evaluation_job_running job now db)) [
          | none ↦
              integrity_error (update_evaluation_job_running job now db) (release (acquire c).1)
          | some (db', r) ↦ elim (continues r left) [
            | true ↦ drive reports job now left (suc made) db' (release (acquire c).1) (some r)
            | false ↦ driven db' (release (acquire c).1) (some r)
          ]
        ]
]

-- `if last_status is None`
abbrev pub or_unattempted : Option AttemptResult → AttemptResult
or_unattempted (some r) = r
or_unattempted none = record {
  status = error;
  error_class = internal_scheduler_error;
  error_message = "no attempt produced a status";
  run_id = none;
}

unfoldable pub missing_capability : RunStatus → Option String
missing_capability unsupported = some "compatible_execution_recipe"
missing_capability _ = none

unfoldable pub stamped_class : RunStatus → ErrorClass → ErrorClass
stamped_class error c = or_probe_error c
stamped_class _ c = no_error

unfoldable pub stamped_message : RunStatus → String → String
stamped_message error m = m
stamped_message _ m = ""

unfoldable pub terminal_payload : Job → AttemptResult → ℕ → TerminalPayload
unfolding missing_capability stamped_class stamped_message
terminal_payload j r now = record {
  job_id = j.id;
  compliance_status = r.status;
  compliance_runtime_run_id = r.run_id;
  missing_capability = missing_capability r.status;
  execution_recipe_id = "legacy-adapter-direct";
  execution_recipe_version = "v1.1";
  error_class = stamped_class r.status r.error_class;
  error_message = stamped_message r.status r.error_message;
  completed_at = some now;
  requirement_id = j.key.requirement_id;
  requirement_version = j.key.requirement_version;
}

-- The second payload, after a conflict; the exception's text in `error_message` is left out.
unfoldable pub conflict_payload : Job → AttemptResult → ℕ → TerminalPayload
conflict_payload j r now = record {
  job_id = j.id;
  compliance_status = error;
  compliance_runtime_run_id = r.run_id;
  missing_capability = none;
  execution_recipe_id = "legacy-adapter-direct";
  execution_recipe_version = "v1.1";
  error_class = internal_scheduler_error;
  error_message = "terminalization conflict";
  completed_at = some now;
  requirement_id = j.key.requirement_id;
  requirement_version = j.key.requirement_version;
}

-- How SQLite answers the two calls of `terminalize_job`, and what their attempts find committed.
pub record Surroundings : Type 0 where
  pub reports : ℕ → Report
  pub first_answers : ℕ → ℕ → Answer
  pub first_world : Db → ℕ → Db
  pub second_answers : ℕ → ℕ → Answer
  pub second_world : Db → ℕ → Db

-- How the thread ends: it returns, or an exception goes up to the pool.
pub data Ended : Type 0 where
  returned integrity_raised conflict_raised operational_raised : Db → Ended

unfoldable pub stamp_conflict : Surroundings → Job → AttemptResult → ℕ → Db → Ended
unfolding conflict_payload
stamp_conflict env j r now db =
    elim (terminalize_job env.second_answers (env.second_world db) (conflict_payload j r now) now) [
      | ok db' ↦ returned db'
      | conflict ↦ conflict_raised db
      | operational ↦ returned db
      | busy ↦ returned db
    ]

unfoldable pub finish : Surroundings → Job → AttemptResult → ℕ → Db → Ended
unfolding terminal_payload stamp_conflict
finish env j r now db =
    elim (terminalize_job env.first_answers (env.first_world db) (terminal_payload j r now) now) [
      | ok db' ↦ returned db'
      | conflict ↦ stamp_conflict env j r now db
      | operational ↦ operational_raised db
      | busy ↦ operational_raised db
    ]

unfoldable pub after_drive : Surroundings → Job → ℕ → Driven → Ended × ActiveContainerCounter
unfolding finish
after_drive env j now (integrity_error db c) = (integrity_raised db, c)
after_drive env j now (driven db c last) = (finish env j (or_unattempted last) now db, c)

unfoldable pub process_one_job :
    Surroundings → ℕ → ℕ → ℕ → Db → ActiveContainerCounter → Ended × ActiveContainerCounter
unfolding drive after_drive
process_one_job env job limit now db c = elim (job_with_id job db) [
  | none ↦ (returned db, c)
  | some j ↦ after_drive env j now (drive env.reports job now limit 0 db c none)
]

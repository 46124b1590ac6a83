-- ===== src/Runner/Terminalize.antt =====
-- `terminalize_job` of src/compliance/corpus_runner/persistence.py: three writes in one transaction,
-- with a retry on a locked database.
--
-- SQLite is a parameter: for each attempt and statement it says whether the statement runs, finds the
-- database locked, or fails otherwise; and what the other connections have committed before an
-- attempt begins. What a transaction has not committed is lost with its connection, so that only a
-- commit hands on a database. The waits between attempts have no effect and are left out.
pub mod Retry
pub mod Verdicts
pub mod Conflicts
pub mod Atomic
use reguard.Prelude.{
  find, update_where, ℕ, zero, suc, ◌+◌, String, Bool, true, false, not, ◌||◌, Option, none, some,
  List, [], ◌∷◌, ◌++◌, any, keep, ◌==◌, if◌then◌else◌,
}
use reguard.Verdict.Types.{RunStatus}
use reguard.Runner.Errors.{ErrorClass}
use reguard.Runner.Tables.{
  JobStatus, pending, running, completed, skipped_unsupported_scenario, Job, EvaluationKey,
  Evaluation, Db, evaluation_key_eq, status_eq,
}
use reguard.Runner.Persistence.{on_job}

pub record TerminalPayload : Type 0 where
  pub job_id : ℕ
  pub compliance_status : RunStatus
  pub compliance_runtime_run_id : Option ℕ
  pub missing_capability : Option String
  pub execution_recipe_id : String
  pub execution_recipe_version : String
  pub error_class : ErrorClass
  pub error_message : String
  -- `none` is the empty text, for which `_now()` stands in
  pub completed_at : Option ℕ
  pub requirement_id : String
  pub requirement_version : String

-- How SQLite answers a statement.
pub data Answer : Type 0 where
  runs locked broken : Answer

pub data Outcome {ℓ} (A : Type ℓ) : Type ℓ where
  ok : A → Outcome A
  -- an `OperationalError` that matches `_BUSY_MSG_RE`, and any other
  busy operational : Outcome A
  -- `TerminalizationConflict`
  conflict : Outcome A

infixl 5 ◌>>=◌ ◌>>◌
abbrev pub ◌>>=◌ {ℓ κ} : {A : Type ℓ} {B : Type κ} → Outcome A → (A → Outcome B) → Outcome B
ok a >>= f = f a
busy >>= f = busy
operational >>= f = operational
conflict >>= f = conflict

abbrev pub ◌>>◌ {ℓ κ} : {A : Type ℓ} {B : Type κ} → Outcome A → Outcome B → Outcome B
m >> k = m >>= λ _. k

-- `conn.execute`
abbrev pub execute {ℓ} : {A : Type ℓ} → Answer → A → Outcome A
execute runs a = ok a
execute locked a = busy
execute broken a = operational

abbrev pub is_completed : JobStatus → Bool
is_completed completed = true
is_completed _ = false

-- A comparison in Python: `None` differs from every status.
unfoldable pub has_status : RunStatus → Option RunStatus → Bool
has_status s none = false
has_status s (some t) = status_eq t s

-- `job_status <> 'completed' OR compliance_status IS NULL OR compliance_status = ?`
unfoldable pub is_writable : RunStatus → Job → Bool
unfolding has_status
is_writable s j =
    not (is_completed j.job_status)
    || (elim j.compliance_status [ none ↦ true | some t ↦ false ])
    || has_status s j.compliance_status

-- The `WHERE` of step 1.
unfoldable pub is_target : TerminalPayload → Job → Bool
unfolding is_writable
is_target p j = if j.id == p.job_id then is_writable p.compliance_status j else false

-- The `SET` of step 1.
unfoldable pub set_verdict : TerminalPayload → ℕ → Job → Job
set_verdict p now j = record j {
  job_status = completed;
  compliance_status = some p.compliance_status;
  compliance_runtime_run_id = p.compliance_runtime_run_id;
  error_class = some p.error_class;
  error_message = some p.error_message;
  completed_at = elim p.completed_at [ none ↦ some now | some t ↦ some t ];
}

-- The `SET` of step 3.
unfoldable pub set_recipe : TerminalPayload → Job → Job
set_recipe p j = record j {
  missing_capability = p.missing_capability;
  execution_recipe_id = p.execution_recipe_id;
  execution_recipe_version = p.execution_recipe_version;
}

-- `cur.rowcount == 0` and the reading of the existing row.
unfoldable pub inspect : Answer → TerminalPayload → Option Job → Outcome (Unit {0})
unfolding has_status
inspect a p existing = do
  row ← execute a existing
  elim row [
    | none ↦ conflict
    | some j ↦ if has_status p.compliance_status j.compliance_status then ok tt else conflict
  ]

unfoldable pub check_conflict : Answer → TerminalPayload → Db → Outcome (Unit {0})
unfolding inspect is_target
check_conflict a p db =
    if any (is_target p) db.jobs then ok tt else inspect a p (find (λ j. j.id == p.job_id) db.jobs)

abbrev pub payload_key : TerminalPayload → EvaluationKey
payload_key p = record {
  evaluation_job_id = p.job_id;
  requirement_id = p.requirement_id;
  requirement_version = p.requirement_version;
}

-- `INSERT OR REPLACE INTO requirement_evaluations`: the rows with the key go, the new one gets a new id.
unfoldable pub replace_evaluation : TerminalPayload → ℕ → Db → Db
replace_evaluation p now db = record db {
  evaluations =
      keep (λ e. not (evaluation_key_eq e.key (payload_key p))) db.evaluations
      ++ record {
        id = suc db.last_evaluation_id;
        key = payload_key p;
        compliance_status = p.compliance_status;
        compliance_runtime_run_id = p.compliance_runtime_run_id;
        evaluated_at = now;
      }
        ∷ [];
  last_evaluation_id = suc db.last_evaluation_id;
}

unfoldable pub guarded_update : TerminalPayload → ℕ → Db → Db
unfolding is_target set_verdict
guarded_update p now db = record db {
  jobs = update_where (is_target p) (set_verdict p now) db.jobs;
}

-- The three writes of one transaction on an undisturbed database.
unfoldable pub terminal_writes : TerminalPayload → ℕ → Db → Db
unfolding on_job set_recipe replace_evaluation guarded_update
terminal_writes p now db =
    on_job p.job_id (set_recipe p) (replace_evaluation p now (guarded_update p now db))

-- One round of the loop. The statements are numbered as they come: the guarded `UPDATE`, the `SELECT`,
-- the `INSERT OR REPLACE`, the second `UPDATE`, the commit.
unfoldable pub terminalize_once : (ℕ → Answer) → TerminalPayload → ℕ → Db → Outcome Db
unfolding guarded_update check_conflict replace_evaluation on_job set_recipe
terminalize_once sqlite p now db = do
  updated ← execute (sqlite 0) (guarded_update p now db)
  check_conflict (sqlite 1) p db
  evaluated ← execute (sqlite 2) (replace_evaluation p now updated)
  stamped ← execute (sqlite 3) (on_job p.job_id (set_recipe p) evaluated)
  execute (sqlite 4) stamped

-- `for attempt in range(...)`; past the last attempt an `OperationalError` is raised.
unfoldable pub terminalize_loop :
    (ℕ → ℕ → Answer) → (ℕ → Db) → TerminalPayload → ℕ → ℕ → ℕ → Outcome Db
unfolding terminalize_once
terminalize_loop sqlite world p now zero attempt = operational
terminalize_loop sqlite world p now (suc left) attempt =
    elim (terminalize_once (sqlite attempt) p now (world attempt)) [
      | ok db ↦ ok db
      | busy ↦ terminalize_loop sqlite world p now left (suc attempt)
      | operational ↦ operational
      | conflict ↦ conflict
    ]

abbrev pub terminalize_outer_attempts : ℕ
terminalize_outer_attempts = 10

-- `world i` is the database that attempt `i` finds committed.
unfoldable pub terminalize_job : (ℕ → ℕ → Answer) → (ℕ → Db) → TerminalPayload → ℕ → Outcome Db
unfolding terminalize_loop
terminalize_job sqlite world p now =
    terminalize_loop sqlite world p now terminalize_outer_attempts 0

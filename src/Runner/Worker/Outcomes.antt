-- ===== src/Runner/Worker/Outcomes.antt =====
-- How a worker's job ends, on a database that nobody else disturbs and after a conflict.
use reguard.Prelude.{
  ℕ, suc, ◌≤◌, ◌==◌, String, false, Option, none, some, List, [], ◌∷◌, ◌++◌, ==_iff, ◌≡◌, ◌≢◌, refl,
  sym, ◌∙◌, inl, inr, arith, find, All, find-append, Option-cases, if_both, str_eq,
}
use mathlib.Core.Path.{subst}
use reguard.Verdict.Types.{RunStatus, unsupported, error}
use reguard.Runner.Errors.{ErrorClass, no_error, internal_scheduler_error}
use reguard.Runner.Tables.{ManifestRow, Job, Attempt, Db}
use reguard.Runner.Persistence.{
  adapter_missing_sentinel, job_with_id, insert_evaluation_attempt,
  update_evaluation_attempt_finished,
}
use reguard.Runner.Terminalize.{TerminalPayload, conflict, terminalize_job, terminalize_once}
use reguard.Runner.Terminalize.Retry.{calm, terminalize_job_succeeds}
use reguard.Runner.Terminalize.Verdicts.{HasVerdict}
use reguard.Runner.Terminalize.Conflicts.{HasUniqueIds, differing_verdict_conflicts}
use reguard.Runner.Attempt.{
  Report, raised, recorded, AttemptResult, manifest_entry, recorded_class, finish_attempt,
  run_report, run_entry, run_attempt, execute_one_attempt,
}
use reguard.Runner.Worker.{
  Surroundings, conflict_raised, terminal_payload, conflict_payload, stamp_conflict, finish,
}

-- No attempt of the call meets a fault.
pub quiet_call :
    (world : ℕ → Db) (p : TerminalPayload) (now : ℕ)
    → terminalize_job (λ _. calm) world p now ≡ terminalize_once calm p now (world 0)
quiet_call world p now =
    (terminalize_job_succeeds (λ _. calm) world p now 0 (omega arith) (λ j h. absurd (omega arith))
      (λ s. refl)).0

-- When the job that a worker finishes has by then been completed with another verdict, and that
-- verdict is not ERROR, the worker's second call, which should stamp the conflict as an ERROR on the
-- row, is a conflict as well, and the exception leaves the worker; both databases are quiet here.
pub conflict_escapes :
    (env : Surroundings) (j : Job) (r : AttemptResult) (v : RunStatus) (now : ℕ) (db : Db)
    → env.first_answers ≡ (λ _. calm)
    → env.second_answers ≡ (λ _. calm)
    → HasUniqueIds (env.first_world db 0).jobs
    → HasVerdict j.id v (env.first_world db 0)
    → HasUniqueIds (env.second_world db 0).jobs
    → HasVerdict j.id v (env.second_world db 0)
    → v ≢ r.status
    → v ≢ error
    → finish env j r now db ≡ conflict_raised db
unfolding finish stamp_conflict terminal_payload conflict_payload
conflict_escapes env j r v now db a b u h u' h' d d' =
    rw (first, finish) (rw (second, stamp_conflict) refl)
  where
    first :
        terminalize_job env.first_answers (env.first_world db) (terminal_payload j r now) now
        ≡ conflict
    first = rw a (
        quiet_call (env.first_world db) (terminal_payload j r now) now
        ∙ differing_verdict_conflicts (terminal_payload j r now) now v (env.first_world db 0) u h d)

    second :
        terminalize_job env.second_answers (env.second_world db) (conflict_payload j r now) now
        ≡ conflict
    second = rw b (
        quiet_call (env.second_world db) (conflict_payload j r now) now
        ∙ differing_verdict_conflicts (conflict_payload j r now) now v (env.second_world db 0) u' h'
            d')

-- An attempt writes nothing but the end of its row.
module _ (P : Db → Type 0) (attempt now : ℕ) (db : Db) (kept : P db)
    (ended : (s : RunStatus) (c : ErrorClass) (m : String)
      → P (update_evaluation_attempt_finished attempt s c m now db)) where
  run_report-keeps : (report : Report) → P (run_report report attempt now db).0
  unfolding run_report finish_attempt
  run_report-keeps (raised m) = ended error internal_scheduler_error m
  run_report-keeps (recorded s probe reason run) = kept

  run_entry-keeps :
      (report : Report) (row : Option ManifestRow) → P (run_entry report row attempt now db).0
  unfolding run_entry finish_attempt
  run_entry-keeps report none = ended error internal_scheduler_error _
  run_entry-keeps report (some row) = run_report-keeps report

  pub run_attempt-keeps :
      (report : Report) (row : Option Job) → P (run_attempt report row attempt now db).0
  unfolding run_attempt finish_attempt
  run_attempt-keeps report none = ended error internal_scheduler_error _
  run_attempt-keeps report (some j) =
      if_both (λ (o : Db × AttemptResult). P o.0) (str_eq j.adapter_name adapter_missing_sentinel) _
        _ (ended unsupported no_error _) (run_entry-keeps report (manifest_entry j db))

insert_evaluation_attempt-jobs :
    (job number now : ℕ) (db db' : Db)
    → insert_evaluation_attempt job number now db ≡ some db'
    → db'.jobs ≡ db.jobs
unfolding insert_evaluation_attempt
insert_evaluation_attempt-jobs job number now db db' e = ground arith

pub execute_one_attempt-jobs :
    (report : Report) (job number now : ℕ) (db db' : Db) (r : AttemptResult)
    → execute_one_attempt report job number now db ≡ some (db', r)
    → db'.jobs ≡ db.jobs
unfolding execute_one_attempt update_evaluation_attempt_finished
execute_one_attempt-jobs report job number now db db' r e =
    elim (Option-cases (insert_evaluation_attempt job number now db)) [
      | inl f ↦ absurd (ground arith)
      | inr (db'', f) ↦
          let same =
            run_attempt-keeps (λ d. d.jobs ≡ db''.jobs) db''.last_attempt_id now db'' refl
              (λ s c m. refl) report (job_with_id job db'') in
          let kept = insert_evaluation_attempt-jobs job number now db db'' f in ground arith
    ]

-- No attempt's id is past the last one given out.
abbrev pub HasKnownIds : Db → Type 0
HasKnownIds db = All (λ a. a.id ≤ db.last_attempt_id) db.attempts

fresh_attempt :
    (n : ℕ) (as' : List Attempt) → All (λ a. a.id ≤ n) as' → find (λ a. a.id == suc n) as' ≡ none
fresh_attempt n [] h = refl
fresh_attempt n (a ∷ as') h = ground (arith, fresh_attempt n as')

-- The attempt's row is there, and nothing has finished it.
abbrev pub IsOpen : ℕ → Db → Type 0
IsOpen id db =
    (a : Attempt) × (find (λ b. b.id == id) db.attempts ≡ some a)
    × (a.completed_at ≡ none)
    × (a.result_status ≡ none)

-- The row that an attempt begins with.
abbrev pub new_attempt : ℕ → ℕ → ℕ → ℕ → Attempt
new_attempt id job number now = record {
  id = id;
  evaluation_job_id = job;
  attempt_number = number;
  started_at = now;
  completed_at = none;
  result_status = none;
  error_class = none;
  error_message = none;
}

abbrev pub with_attempt : ℕ → ℕ → ℕ → Db → Db
with_attempt job number now db = record db {
  attempts = db.attempts ++ new_attempt (suc db.last_attempt_id) job number now ∷ [];
  last_attempt_id = suc db.last_attempt_id;
}

inserted_is :
    (job number now : ℕ) (db db' : Db)
    → insert_evaluation_attempt job number now db ≡ some db'
    → db' ≡ with_attempt job number now db
unfolding insert_evaluation_attempt
inserted_is job number now db db' e = ground arith

with_attempt-IsOpen :
    (job number now : ℕ) (db : Db)
    → HasKnownIds db
    → IsOpen (suc db.last_attempt_id) (with_attempt job number now db)
with_attempt-IsOpen job number now db h = (
  new_attempt (suc db.last_attempt_id) job number now,
  find-append (λ b. b.id == suc db.last_attempt_id) db.attempts _
      ∙ rw (fresh_attempt db.last_attempt_id db.attempts h, (==_iff n n).1 refl),
  refl,
  refl,
)
  where
    n : ℕ
    n = suc db.last_attempt_id

inserted-IsOpen :
    (job number now : ℕ) (db db' : Db)
    → HasKnownIds db
    → insert_evaluation_attempt job number now db ≡ some db'
    → IsOpen db'.last_attempt_id db'
inserted-IsOpen job number now db db' h e =
    subst (λ d. IsOpen d.last_attempt_id d) (sym (inserted_is job number now db db' e))
      (with_attempt-IsOpen job number now db h)

-- An attempt of a job with a registered adapter and a manifest row, whose run comes back as a
-- `RunRecord` of whatever status, hands back that status, but leaves its own row in
-- `evaluation_attempts` as it was inserted: unfinished and with no result.
pub recorded_attempt_stays-IsOpen :
    (s : RunStatus) (probe : Option String) (reason : String) (run : Option ℕ) (job number now : ℕ)
    (db db' : Db) (j : Job) (m : ManifestRow)
    → HasKnownIds db
    → insert_evaluation_attempt job number now db ≡ some db'
    → job_with_id job db' ≡ some j
    → str_eq j.adapter_name adapter_missing_sentinel ≡ false
    → manifest_entry j db' ≡ some m
    → (r : AttemptResult) × (execute_one_attempt (recorded s probe reason run) job number now db
        ≡ some (db', r))
      × (r.status ≡ s)
      × IsOpen db'.last_attempt_id db'
unfolding execute_one_attempt run_attempt run_entry run_report
recorded_attempt_stays-IsOpen s probe reason run job number now db db' j m h e found named listed =
    (
      record {
        status = s;
        error_class = recorded_class s probe;
        error_message = reason;
        run_id = run;
      },
      rw (e, execute_one_attempt, found, run_attempt, named, listed, run_entry, run_report) refl,
      refl,
      inserted-IsOpen job number now db db' h e,
    )

-- ===== src/Runner/Worker/Records.antt =====
-- A worker on a database that nobody else disturbs.
use reguard.Prelude.{ℕ, suc, ◌==◌, ==_iff, true, none, some, ◌≡◌, refl, sym, ◌∙◌, arith, find-holds}
use mathlib.Core.Path.{subst}
use reguard.Runner.Counter.{ActiveContainerCounter, acquire, release}
use reguard.Runner.Tables.{Job, Db}
use reguard.Runner.Persistence.{job_with_id, update_evaluation_job_running}
use reguard.Runner.Terminalize.{terminal_writes, set_recipe, set_verdict}
use reguard.Runner.Terminalize.Retry.{calm}
use reguard.Runner.Terminalize.Verdicts.{
  HasVerdict, writable_is_written, run_again, reopened_row, reopened-is_writable,
}
use reguard.Runner.Terminalize.Atomic.{HasEvaluation, terminal_writes-HasEvaluation}
use reguard.Runner.Attempt.{Report, AttemptResult, execute_one_attempt}
use reguard.Runner.Worker.{
  continues, driven, drive, Surroundings, returned, terminal_payload, finish, after_drive,
  process_one_job,
}
use reguard.Runner.Worker.Retries.{drive-one_attempt}
use reguard.Runner.Worker.Outcomes.{quiet_call, execute_one_attempt-jobs}

-- Nobody else writes, and every statement runs.
abbrev pub undisturbed : (ℕ → Report) → Surroundings
undisturbed reports = record {
  reports = reports;
  first_answers = λ _. calm;
  first_world = λ db _. db;
  second_answers = λ _. calm;
  second_world = λ db _. db;
}

module _ (reports : ℕ → Report) (id limit now : ℕ) (db db' : Db) (c : ActiveContainerCounter)
    (j : Job) (r : AttemptResult) where
  one_drive :
      (acquire c).0 ≡ true
      → execute_one_attempt (reports 0) id 1 now (update_evaluation_job_running id now db)
        ≡ some (db', r)
      → drive reports id now (suc limit) 0 db c none ≡ driven db' (release (acquire c).1) (some r)
  unfolding drive continues
  one_drive slot e =
      drive-one_attempt reports id limit now db c ∙ rw (slot, drive, e) (ground arith)

  found_running :
      job_with_id id db ≡ some j
      → execute_one_attempt (reports 0) id 1 now (update_evaluation_job_running id now db)
        ≡ some (db', r)
      → job_with_id id db' ≡ some (run_again now j)
  found_running found e =
      let hit = find-holds (λ k. k.id == id) db.jobs j found in
      rw (execute_one_attempt-jobs (reports 0) id 1 now _ db' r e)
        (reopened_row id now db j found hit)

  finished :
      j.id ≡ id
      → job_with_id id db' ≡ some (run_again now j)
      → let p = terminal_payload j r now in
        (finish (undisturbed reports) j r now db' ≡ returned (terminal_writes p now db'))
        × HasVerdict id r.status (terminal_writes p now db')
        × HasEvaluation p now (terminal_writes p now db')
  unfolding finish terminal_payload set_verdict set_recipe
  finished same found =
      let p = terminal_payload j r now in
      let (written, row) =
        writable_is_written p now db' (run_again now j)
          (subst (λ i. job_with_id i db' ≡ some (run_again now j)) (sym same) found)
          (reopened-is_writable p.compliance_status now j) in
      (
        rw (quiet_call (λ _. db') p now ∙ written, finish) refl,
        (
          set_recipe p (set_verdict p now (run_again now j)),
          subst
              (λ i.
                job_with_id i (terminal_writes p now db')
                ≡ some (set_recipe p (set_verdict p now (run_again now j))))
              same row,
          refl,
          refl,
        ),
        terminal_writes-HasEvaluation p now db',
      )

  -- The worker's whole run, by the database that it leaves.
  pub worker_ends :
      job_with_id id db ≡ some j
      → (acquire c).0 ≡ true
      → execute_one_attempt (reports 0) id 1 now (update_evaluation_job_running id now db)
        ≡ some (db', r)
      → let after = terminal_writes (terminal_payload j r now) now db' in
        (process_one_job (undisturbed reports) id (suc limit) now db c
          ≡ (returned after, release (acquire c).1))
        × HasVerdict id r.status after
        × HasEvaluation (terminal_payload j r now) now after
  unfolding process_one_job after_drive
  worker_ends found slot e =
      let same = (==_iff j.id id).0 (find-holds (λ k. k.id == id) db.jobs j found) in
      let (ended, verdict, evaluation) = finished same (found_running found e) in
      (
        rw (found, one_drive slot e, process_one_job) (rw (ended, after_drive) refl),
        verdict,
        evaluation,
      )

  -- A worker whose slot is granted, whose database nobody else disturbs and whose first attempt can be
  -- made returns normally and has given its slot back. The job, whatever it was before, is completed
  -- with the status of that one attempt, and one row of `requirement_evaluations` has its key and
  -- that status.
  pub worker_records_verdict :
      job_with_id id db ≡ some j
      → (acquire c).0 ≡ true
      → execute_one_attempt (reports 0) id 1 now (update_evaluation_job_running id now db)
        ≡ some (db', r)
      → (db'' : Db) × (process_one_job (undisturbed reports) id (suc limit) now db c
          ≡ (returned db'', release (acquire c).1))
        × HasVerdict id r.status db''
        × HasEvaluation (terminal_payload j r now) now db''
  worker_records_verdict found slot e =
      let (ended, verdict, evaluation) = worker_ends found slot e in
      (terminal_writes (terminal_payload j r now) now db', ended, verdict, evaluation)

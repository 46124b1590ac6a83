-- ===== src/Runner/Driver/Quiet.antt =====
-- What one worker leaves alone, on a database that nobody else disturbs.
use reguard.Prelude.{
  ℕ, suc, ◌==◌, ==_iff, true, false, ◌&&◌, some, List, [], ◌∷◌, ◌≡◌, ◌≢◌, refl, ap, ◌∙◌, arith, any,
  any-append, any-update_where, find, find-holds, find-update_where_other,
}
use reguard.Verdict.Types.{RunStatus}
use reguard.Runner.Counter.{ActiveContainerCounter, acquire, release}
use reguard.Runner.Tables.{Job, Attempt, Db}
use reguard.Runner.Persistence.{
  job_with_id, update_evaluation_job_running, insert_evaluation_attempt,
  update_evaluation_attempt_finished,
}
use reguard.Runner.Terminalize.{
  TerminalPayload, is_target, set_verdict, set_recipe, terminal_writes,
}
use reguard.Runner.Terminalize.Verdicts.{HasVerdict}
use reguard.Runner.Attempt.{Report, run_attempt, execute_one_attempt}
use reguard.Runner.Worker.{terminal_payload, returned, process_one_job}
use reguard.Runner.Worker.Outcomes.{new_attempt, with_attempt, run_attempt-keeps}
use reguard.Runner.Worker.Records.{undisturbed, worker_ends}

abbrev pub Unattempted : ℕ → Db → Type 0
Unattempted k db = any (λ (a : Attempt). a.evaluation_job_id == k) db.attempts ≡ false

-- The rows of the other jobs and their attempts stay, and so do the rows of the runs.
pub record IsQuiet (id : ℕ) (db after : Db) : Type 0 where
  pub runs_stay : after.runs ≡ db.runs
  pub jobs_stay : (k : ℕ) → k ≢ id → job_with_id k after ≡ job_with_id k db
  pub attempts_stay : (k : ℕ) → k ≢ id → Unattempted k db → Unattempted k after

other_id : (k id : ℕ) (n : ℕ) → k ≢ id → (n == k) ≡ true → (n == id) ≡ false
other_id k id n d e = ground arith

running-jobs_stay :
    (id now k : ℕ) (db : Db)
    → k ≢ id
    → job_with_id k (update_evaluation_job_running id now db) ≡ job_with_id k db
unfolding update_evaluation_job_running
running-jobs_stay id now k db d =
    find-update_where_other (λ (j : Job). j.id == k) (λ (j : Job). j.id == id) _ db.jobs (λ a. refl)
      (λ a e. other_id k id a.id d e)

missed :
    (p : TerminalPayload) (k : ℕ) (a : Job)
    → k ≢ p.job_id
    → (a.id == k) ≡ true
    → is_target p a ≡ false
unfolding is_target
missed p k a d e = ground (arith, other_id k p.job_id a.id d e)

terminal_writes-jobs_stay :
    (p : TerminalPayload) (now k : ℕ) (db : Db)
    → k ≢ p.job_id
    → job_with_id k (terminal_writes p now db) ≡ job_with_id k db
unfolding terminal_writes set_recipe set_verdict
terminal_writes-jobs_stay p now k db d =
    find-update_where_other (λ (j : Job). j.id == k) (λ (j : Job). j.id == p.job_id) (set_recipe p)
      _ (λ a. refl) (λ a e. other_id k p.job_id a.id d e)
    ∙ find-update_where_other (λ (j : Job). j.id == k) (is_target p) (set_verdict p now) db.jobs
        (λ a. refl) (λ a e. missed p k a d e)

any_narrow :
    (id number : ℕ) (xs : List Attempt)
    → any (λ (a : Attempt). a.evaluation_job_id == id) xs ≡ false
    → any (λ (a : Attempt). a.evaluation_job_id == id && a.attempt_number == number) xs ≡ false
any_narrow id number [] h = refl
any_narrow id number (a ∷ xs) h = ground (arith, any_narrow id number xs)

first_attempt_fits :
    (id number now : ℕ) (db : Db)
    → Unattempted id db
    → insert_evaluation_attempt id number now db ≡ some (with_attempt id number now db)
unfolding insert_evaluation_attempt
first_attempt_fits id number now db u = rw (any_narrow id number db.attempts u) refl

-- What an attempt leaves of the database that it is given.
module _ (report : Report) (id number now : ℕ) (db : Db) where
  abbrev begun : Db
  begun = with_attempt id number now db

  abbrev Keeps : Db → Type 0
  Keeps d =
      (d.jobs ≡ db.jobs)
      × (d.runs ≡ db.runs)
      × ((k : ℕ) → k ≢ id → Unattempted k db → Unattempted k d)

  begun-Unattempted : (k : ℕ) → k ≢ id → Unattempted k db → Unattempted k begun
  begun-Unattempted k d u = ground (
    arith,
    any-append (λ (a : Attempt). a.evaluation_job_id == k) db.attempts
        (new_attempt (suc db.last_attempt_id) id number now ∷ []),
  )

  attempt-Keeps :
      Keeps (run_attempt report (job_with_id id begun) begun.last_attempt_id now begun).0
  unfolding update_evaluation_attempt_finished
  attempt-Keeps =
      run_attempt-keeps Keeps begun.last_attempt_id now begun (refl, refl, begun-Unattempted)
        (λ s c m. (
          refl,
          refl,
          λ k d u.
              any-update_where (λ (a : Attempt). a.evaluation_job_id == k)
                (λ a. a.id == begun.last_attempt_id)
                (λ a. record a {
                  completed_at = some now;
                  result_status = some s;
                  error_class = some c;
                  error_message = some m;
                })
                begun.attempts (λ a. refl)
              ∙ begun-Unattempted k d u,
        ))
        report (job_with_id id begun)

  attempt_succeeds :
      Unattempted id db
      → execute_one_attempt report id number now db
        ≡ some (run_attempt report (job_with_id id begun) begun.last_attempt_id now begun)
  unfolding execute_one_attempt
  attempt_succeeds u = rw (first_attempt_fits id number now db u, execute_one_attempt) refl

module _ (reports : ℕ → Report) (id limit now : ℕ) (db : Db) (c : ActiveContainerCounter)
    (j : Job) where
  -- A worker with a slot on a job without attempts completes it with some verdict, and is quiet.
  pub worker-IsQuiet :
      job_with_id id db ≡ some j
      → Unattempted id db
      → (acquire c).0 ≡ true
      → (after : Db) × (v : RunStatus) × (process_one_job
            (undisturbed reports)
            id
            (suc limit)
            now
            db
            c
          ≡ (returned after, release (acquire c).1))
        × HasVerdict id v after
        × IsQuiet id db after
  unfolding terminal_writes update_evaluation_job_running terminal_payload
  worker-IsQuiet found u slot =
      let started = update_evaluation_job_running id now db in
      let w = with_attempt id 1 now started in
      let out = run_attempt (reports 0) (job_with_id id w) w.last_attempt_id now w in
      let e = attempt_succeeds (reports 0) id 1 now started u in
      let kept = attempt-Keeps (reports 0) id 1 now started in
      let same : j.id ≡ id =
        (==_iff j.id id).0 (find-holds (λ (k : Job). k.id == id) db.jobs j found) in
      let (ended, verdict, _) = worker_ends reports id limit now db out.0 c j out.1 found slot e in
      (
        terminal_writes (terminal_payload j out.1 now) now out.0,
        out.1.status,
        ended,
        verdict,
        record {
          runs_stay = kept.1;
          jobs_stay = λ k d.
              terminal_writes-jobs_stay (terminal_payload j out.1 now) now k out.0
                (λ x. d (x ∙ same))
              ∙ ap (λ (js : List Job). find (λ (r : Job). r.id == k) js) kept.0
              ∙ running-jobs_stay id now k db d;
          attempts_stay = λ k d x. kept.2 k d x;
        },
      )

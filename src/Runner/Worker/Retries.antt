-- ===== src/Runner/Worker/Retries.antt =====
-- The retry loop of a worker.
use reguard.Prelude.{
  ℕ, suc, String, true, false, Option, none, some, ◌≡◌, refl, sym, ◌∙◌, inl, inr, arith, Bool-cases,
  Option-cases, if_both, str_eq,
}
use reguard.Verdict.Types.{error}
use reguard.Runner.Errors.{is_retryable, classify_probe_status, or_probe_error}
use reguard.Runner.Counter.{ActiveContainerCounter, acquire, release}
use reguard.Runner.Tables.{ManifestRow, Job, Db}
use reguard.Runner.Persistence.{
  adapter_missing_sentinel, insert_evaluation_attempt, job_with_id, update_evaluation_job_running,
}
use reguard.Runner.Attempt.{
  Report, raised, recorded, AttemptResult, run_report, run_attempt, run_entry, manifest_entry,
  execute_one_attempt,
}
use reguard.Runner.Worker.{continues, Driven, integrity_error, driven, drive}

abbrev NoRetry : Db × AttemptResult → Type 0
NoRetry (db, r) = is_retryable (some r.error_class) ≡ false

classify-not_retryable :
    (probe : Option String)
    → is_retryable (some (or_probe_error (classify_probe_status probe))) ≡ false
unfolding is_retryable or_probe_error classify_probe_status
classify-not_retryable none = refl
classify-not_retryable (some p) = ground arith

run_report-NoRetry :
    (report : Report) (attempt now : ℕ) (db : Db) → NoRetry (run_report report attempt now db)
unfolding run_report is_retryable
run_report-NoRetry (raised m) attempt now db = refl
run_report-NoRetry (recorded error probe reason run) attempt now db = classify-not_retryable probe
run_report-NoRetry (recorded _ probe reason run) attempt now db = refl

run_entry-NoRetry :
    (report : Report) (row : Option ManifestRow) (attempt now : ℕ) (db : Db)
    → NoRetry (run_entry report row attempt now db)
unfolding run_entry is_retryable
run_entry-NoRetry report none attempt now db = refl
run_entry-NoRetry report (some row) attempt now db = run_report-NoRetry report attempt now db

run_attempt-NoRetry :
    (report : Report) (row : Option Job) (attempt now : ℕ) (db : Db)
    → NoRetry (run_attempt report row attempt now db)
unfolding run_attempt is_retryable
run_attempt-NoRetry report none attempt now db = refl
run_attempt-NoRetry report (some j) attempt now db =
    if_both NoRetry (str_eq j.adapter_name adapter_missing_sentinel) _ _ refl
      (run_entry-NoRetry report (manifest_entry j db) attempt now db)

continues-NoRetry :
    (r : AttemptResult) (left : ℕ)
    → is_retryable (some r.error_class) ≡ false
    → continues r left ≡ false
unfolding continues
continues-NoRetry r left h = ground arith

-- The slot is free, and the attempt gave this.
abbrev carry_on :
    (ℕ → Report) → ℕ → ℕ → Db → ActiveContainerCounter → ℕ → Option (Db × AttemptResult) → Driven
carry_on reports job now db c left o = elim o [
  | none ↦ integrity_error (update_evaluation_job_running job now db) (release (acquire c).1)
  | some (db', r) ↦ elim (continues r left) [
    | true ↦ drive reports job now left 1 db' (release (acquire c).1) (some r)
    | false ↦ driven db' (release (acquire c).1) (some r)
  ]
]

module _ (reports : ℕ → Report) (job now : ℕ) (db : Db) (c : ActiveContainerCounter) where
  carry_on_stops :
      (left : ℕ) (db' : Db) (r : AttemptResult)
      → NoRetry (db', r)
      → carry_on reports job now db c left (some (db', r))
        ≡ driven db' (release (acquire c).1) (some r)
  carry_on_stops left db' r h = rw (continues-NoRetry r left h, carry_on)

  carry_on_same :
      (report : Report) (number limit : ℕ) (before : Db)
      → let o = execute_one_attempt report job number now before in
        carry_on reports job now db c limit o ≡ carry_on reports job now db c 0 o
  unfolding execute_one_attempt
  carry_on_same report number limit before =
      elim (Option-cases (insert_evaluation_attempt job number now before)) [
        | inl e ↦ rw (e, execute_one_attempt, carry_on)
        | inr (db'', e) ↦
            let h =
              run_attempt-NoRetry report (job_with_id job db'') db''.last_attempt_id now db'' in
            rw (e, execute_one_attempt) (carry_on_stops limit _ _ h ∙ sym (carry_on_stops 0 _ _ h))
      ]

-- The retry loop never goes round: whatever the checkouts, probes and adapters do and however many
-- attempts `max_attempts` allows, a worker makes exactly the attempts, and ends exactly as it would,
-- with `max_attempts` one. No error class that an attempt returns is a retryable one.
pub drive-one_attempt :
    (reports : ℕ → Report) (job limit now : ℕ) (db : Db) (c : ActiveContainerCounter)
    → drive reports job now (suc limit) 0 db c none ≡ drive reports job now 1 0 db c none
unfolding drive
drive-one_attempt reports job limit now db c = elim (Bool-cases (acquire c).0) [
  | inl e ↦ rw (e, drive) (carry_on_same reports job now db c (reports 0) 1 limit _)
  | inr e ↦ rw (e, drive)
]

-- ===== src/Runner/Validator/Terminalized.antt =====
-- What the validator says of a job that a worker has terminalized.
use reguard.Prelude.{
  ℕ, suc, ◌==◌, ==_iff, Bool, true, false, not, ◌&&◌, none, some, List, [], ◌∷◌, ◌++◌, ◌≡◌, ◌≢◌,
  refl, sym, ◌∙◌, ◌⊎◌, inl, inr, arith, any, keep, keep-append,
}
use mathlib.Core.Path.{subst}
use reguard.Verdict.Types.{RunStatus, pass, fail, unknown, unsupported, error}
use reguard.Runner.Tables.{ManifestRow, Evaluation, Job, Db}
use reguard.Runner.Persistence.{job_with_id}
use reguard.Runner.Terminalize.{
  TerminalPayload, payload_key, replace_evaluation, terminal_writes, set_verdict, set_recipe,
  is_writable,
}
use reguard.Runner.Terminalize.Verdicts.{writable_is_written}
use reguard.Runner.Terminalize.Atomic.{evaluates, evaluation_of}
use reguard.Runner.Attempt.{AttemptResult}
use reguard.Runner.Worker.{missing_capability, terminal_payload}
use reguard.Runner.Validator.{evaluations_of, latest_status, terminal_row_of}
use reguard.Runner.Validator.Soundness.{IsSound}

keep-keep_none :
    (q ours : Evaluation → Bool) (es : List Evaluation)
    → any (λ e. q e && not (ours e)) es ≡ false
    → keep q (keep (λ e. not (ours e)) es) ≡ []
keep-keep_none q ours [] h = refl
keep-keep_none q ours (e ∷ es) h = ground (arith, keep-keep_none q ours es)

-- The job has no evaluation under another key.
abbrev pub HasOneKey : TerminalPayload → Db → Type 0
HasOneKey p db =
    any (λ e. e.key.evaluation_job_id == p.job_id && not (evaluates (payload_key p) e))
      db.evaluations
    ≡ false

one_evaluation :
    (p : TerminalPayload) (now : ℕ) (db : Db) (j : Job)
    → j.id ≡ p.job_id
    → HasOneKey p db
    → evaluations_of j (terminal_writes p now db)
      ≡ evaluation_of p now (suc db.last_evaluation_id) ∷ []
unfolding evaluations_of terminal_writes replace_evaluation
one_evaluation p now db j same h =
    let q : Evaluation → Bool = λ e. e.key.evaluation_job_id == p.job_id in
    subst
      (λ i.
        keep (λ e. e.key.evaluation_job_id == i)
          (keep (λ e. not (evaluates (payload_key p) e)) db.evaluations
            ++ evaluation_of p now (suc db.last_evaluation_id) ∷ [])
        ≡ evaluation_of p now (suc db.last_evaluation_id) ∷ [])
      (sym same)
      (keep-append q (keep (λ e. not (evaluates (payload_key p) e)) db.evaluations)
          (evaluation_of p now (suc db.last_evaluation_id) ∷ [])
        ∙ rw (
          keep-keep_none q (evaluates (payload_key p)) db.evaluations h,
          (==_iff p.job_id p.job_id).1 refl,
        ))

reason_given : (s : RunStatus) → (some s ≢ some unsupported) ⊎ (missing_capability s ≢ none)
unfolding missing_capability
reason_given unsupported = inr (λ e. cc)
reason_given pass = inl (λ e. cc)
reason_given fail = inl (λ e. cc)
reason_given unknown = inl (λ e. cc)
reason_given error = inl (λ e. cc)

-- When a worker's payload is written to a job of which no evaluation stands under another requirement
-- or version, the validator finds the job's row in good order, whatever the verdict is.
pub terminal_writes-IsSound :
    (j : Job) (r : AttemptResult) (now : ℕ) (db : Db) (m : ManifestRow)
    → job_with_id j.id db ≡ some j
    → is_writable r.status j ≡ true
    → HasOneKey (terminal_payload j r now) db
    → let db' = terminal_writes (terminal_payload j r now) now db in
      (k : Job) × (job_with_id j.id db' ≡ some k) × IsSound (terminal_row_of k db' m)
unfolding terminal_row_of terminal_payload set_verdict set_recipe latest_status
terminal_writes-IsSound j r now db m found open_row h =
    let p = terminal_payload j r now in
    let k = set_recipe p (set_verdict p now j) in
    let (written, row) = writable_is_written p now db j found open_row in
    let one = one_evaluation p now db k refl h in
    (
      k,
      row,
      record {
        reason_given = reason_given r.status;
        evaluated = rw one (λ e. omega (arith, e));
        agrees = rw one (inr (inr refl));
        skip_explained = inl (λ e. cc);
      },
    )

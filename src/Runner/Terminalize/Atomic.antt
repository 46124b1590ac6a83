-- ===== src/Runner/Terminalize/Atomic.antt =====
-- The two tables that one committed transaction of `terminalize_job` writes.
use reguard.Prelude.{
  ℕ, suc, Bool, true, false, not, Option, some, List, [], ◌∷◌, ◌≡◌, ◌≢◌, ◌↔◌, refl, sym, ◌∙◌, ◌⊎◌,
  inl, inr, arith, find, keep, count, count-append, find-append, find-keep-none, Bool-cases,
  Option-cases, eq_iff,
}
use mathlib.Core.Path.{subst}
use reguard.Verdict.Types.{RunStatus}
use reguard.Runner.Tables.{
  JobStatus, completed, status_eq_iff, EvaluationKey, Evaluation, Job, Db, evaluation_key_eq,
}
use reguard.Runner.Persistence.{job_with_id}
use reguard.Runner.Terminalize.{
  TerminalPayload, ok, conflict, is_completed, has_status, is_writable, payload_key,
  replace_evaluation, terminal_writes, terminalize_once, set_recipe, set_verdict,
}
use reguard.Runner.Terminalize.Retry.{calm}
use reguard.Runner.Terminalize.Conflicts.{HasUniqueIds, closed_conflicts}
use reguard.Runner.Terminalize.Verdicts.{HasVerdict, writable_is_written}

abbrev pub evaluates : EvaluationKey → Evaluation → Bool
evaluates key e = evaluation_key_eq e.key key

-- The evaluation that the payload stands for.
abbrev pub evaluation_of : TerminalPayload → ℕ → ℕ → Evaluation
evaluation_of p now id = record {
  id = id;
  key = payload_key p;
  compliance_status = p.compliance_status;
  compliance_runtime_run_id = p.compliance_runtime_run_id;
  evaluated_at = now;
}

evaluation_key_eq_self : (k : EvaluationKey) → evaluation_key_eq k k ≡ true
unfolding evaluation_key_eq
evaluation_key_eq_self k = ground (
  arith,
  eq_iff k.requirement_id k.requirement_id,
  eq_iff k.requirement_version k.requirement_version,
)

count-keep_none :
    (p : Evaluation → Bool) (es : List Evaluation) → count p (keep (λ e. not (p e)) es) ≡ 0
count-keep_none p [] = refl
count-keep_none p (e ∷ es) = ground (arith, count-keep_none p es)

-- One evaluation carries the key of the payload, and it is the payload's.
abbrev pub HasEvaluation : TerminalPayload → ℕ → Db → Type 0
HasEvaluation p now db =
    (id : ℕ) × (find (evaluates (payload_key p)) db.evaluations ≡ some (evaluation_of p now id))
    × (count (evaluates (payload_key p)) db.evaluations ≡ 1)

pub terminal_writes-HasEvaluation :
    (p : TerminalPayload) (now : ℕ) (db : Db) → HasEvaluation p now (terminal_writes p now db)
unfolding terminal_writes replace_evaluation
terminal_writes-HasEvaluation p now db = (
  suc db.last_evaluation_id,
  find-append is_ours others _
      ∙ rw (
        find-keep-none is_ours (λ e. not (is_ours e)) db.evaluations (λ e h. ground arith),
        self,
      ),
  count-append is_ours others _ ∙ rw (count-keep_none is_ours db.evaluations, self),
)
  where
    is_ours : Evaluation → Bool
    is_ours = evaluates (payload_key p)

    others : List Evaluation
    others = keep (λ e. not (is_ours e)) db.evaluations

    self : evaluation_key_eq (payload_key p) (payload_key p) ≡ true
    self = evaluation_key_eq_self (payload_key p)

-- The row is completed with a verdict other than this one.
abbrev pub IsProtected : RunStatus → Job → Type 0
IsProtected s j =
    (j.job_status ≡ completed) × (t : RunStatus) × (j.compliance_status ≡ some t) × (t ≢ s)

completed_iff : (s : JobStatus) → (is_completed s ≡ true) ↔ (s ≡ completed)
completed_iff s = ground arith

has_status_iff : (s t : RunStatus) → (has_status s (some t) ≡ true) ↔ (t ≡ s)
unfolding has_status
has_status_iff s t = status_eq_iff t s

open_row-IsProtected : (s : RunStatus) (j : Job) → is_writable s j ≡ true → ¬ IsProtected s j
unfolding is_writable
open_row-IsProtected s j w (done, t, is, differs) =
    let c : is_completed j.job_status ≡ true = (completed_iff j.job_status).1 done in
    let n : has_status s (some t) ≡ false = ground (arith, has_status_iff s t) in
    absurd (ground (arith, subst (λ (o : Option RunStatus). has_status s o ≡ false) (sym is) n))

closed_row-IsProtected : (s : RunStatus) (j : Job) → is_writable s j ≡ false → IsProtected s j
unfolding is_writable
closed_row-IsProtected s j w = elim (Option-cases j.compliance_status) [
  | inl n ↦ absurd (ground arith)
  | inr (t, is) ↦ (
    ground (arith, completed_iff j.job_status),
    t,
    is,
    λ same.
        let self : has_status s j.compliance_status ≡ true =
          subst (λ (o : Option RunStatus). has_status s o ≡ true) (sym is)
            ((has_status_iff s t).1 same) in
        absurd (ground arith),
  )
]

-- A transaction on an existing job either refuses with a conflict and commits nothing, or commits
-- both tables at once: the job is completed with the payload's verdict, and of all rows of
-- `requirement_evaluations` exactly one carries the job's key and version, with that same verdict.
-- It is a conflict exactly if the row is protected, which it is when it is completed with another
-- verdict.
pub terminalize_once-agrees :
    (p : TerminalPayload) (now : ℕ) (db : Db) (j : Job)
    → HasUniqueIds db.jobs
    → job_with_id p.job_id db ≡ some j
    → (IsProtected p.compliance_status j × (terminalize_once calm p now db ≡ conflict))
      ⊎ (¬ IsProtected p.compliance_status j
          × (db' : Db) × (terminalize_once calm p now db ≡ ok db')
          × HasVerdict p.job_id p.compliance_status db'
          × HasEvaluation p now db')
unfolding set_recipe set_verdict
terminalize_once-agrees p now db j u e = elim (Bool-cases (is_writable p.compliance_status j)) [
  | inl w ↦
      let (written, row) = writable_is_written p now db j e w in
      inr (
        open_row-IsProtected p.compliance_status j w,
        terminal_writes p now db,
        written,
        (set_recipe p (set_verdict p now j), row, refl, refl),
        terminal_writes-HasEvaluation p now db,
      )
  | inr w ↦ inl (closed_row-IsProtected p.compliance_status j w, closed_conflicts p now db j u e w)
]

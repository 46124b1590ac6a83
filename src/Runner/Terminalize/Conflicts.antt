-- ===== src/Runner/Terminalize/Conflicts.antt =====
-- When a payload is refused.
use reguard.Prelude.{
  any-find-none, ℕ, ◌==◌, Bool, true, false, none, some, List, [], ◌∷◌, ◌≡◌, ◌≢◌, sym, inl, inr,
  arith, find, any, Bool-cases,
}
use mathlib.Core.Path.{subst}
use reguard.Verdict.Types.{RunStatus}
use reguard.Runner.Tables.{completed, Job, Db, status_eq_iff}
use reguard.Runner.Persistence.{job_with_id}
use reguard.Runner.Terminalize.{
  TerminalPayload, conflict, has_status, is_writable, is_target, check_conflict, inspect,
  terminalize_once,
}
use reguard.Runner.Terminalize.Verdicts.{HasVerdict}
use reguard.Runner.Terminalize.Retry.{calm, terminalize_once-conflict}

-- No two rows have one id, which is the primary key.
abbrev pub HasUniqueIds : List Job → Type 0
HasUniqueIds [] = Unit
HasUniqueIds (j ∷ js) = (find (λ k. k.id == j.id) js ≡ none) × HasUniqueIds js

pub any_unique :
    (id : ℕ) (q : Job → Bool) (js : List Job) (j : Job)
    → HasUniqueIds js
    → ((k : Job) → q k ≡ true → (k.id == id) ≡ true)
    → find (λ k. k.id == id) js ≡ some j
    → q j ≡ false
    → any q js ≡ false
any_unique id q [] j u h e f = cc
any_unique id q (k ∷ js) j u h e f = elim (Bool-cases (k.id == id)) [
  | inl hit ↦
      let rest = any-find-none (λ a. a.id == k.id) q js (λ a qa. ground (arith, h a)) u.0 in
      let same : k ≡ j = ground arith in rw (subst (λ a. q a ≡ false) (sym same) f) rest
  | inr miss ↦ ground (arith, h k, any_unique id q js j u.1 h)
]

pub is_target-id :
    (p : TerminalPayload) (k : Job) → is_target p k ≡ true → (k.id == p.job_id) ≡ true
unfolding is_target
is_target-id p k h = ground arith

same_status-is_writable :
    (p : TerminalPayload) (j : Job)
    → has_status p.compliance_status j.compliance_status ≡ true
    → is_writable p.compliance_status j ≡ true
unfolding is_writable
same_status-is_writable p j h = ground arith

closed_differs :
    (p : TerminalPayload) (j : Job)
    → is_writable p.compliance_status j ≡ false
    → has_status p.compliance_status j.compliance_status ≡ false
closed_differs p j h = ground (arith, same_status-is_writable p j)

closed-is_target :
    (p : TerminalPayload) (j : Job)
    → is_writable p.compliance_status j ≡ false
    → is_target p j ≡ false
unfolding is_target
closed-is_target p j h = ground arith

pub closed_conflicts :
    (p : TerminalPayload) (now : ℕ) (db : Db) (j : Job)
    → HasUniqueIds db.jobs
    → job_with_id p.job_id db ≡ some j
    → is_writable p.compliance_status j ≡ false
    → terminalize_once calm p now db ≡ conflict
unfolding check_conflict inspect
closed_conflicts p now db j u e closed = terminalize_once-conflict p now db (
    rw (
      any_unique p.job_id (is_target p) db.jobs j u (is_target-id p) e
          (closed-is_target p j closed),
      check_conflict,
      e,
      inspect,
      closed_differs p j closed,
    ))

closed_verdict :
    (p : TerminalPayload) (v : RunStatus) (j : Job)
    → j.job_status ≡ completed
    → j.compliance_status ≡ some v
    → v ≢ p.compliance_status
    → is_writable p.compliance_status j ≡ false
unfolding is_writable
closed_verdict p v j c s d = ground (arith, status_eq_iff v p.compliance_status)

-- A verdict that differs from the one that a completed job has is refused.
pub differing_verdict_conflicts :
    (p : TerminalPayload) (now : ℕ) (v : RunStatus) (db : Db)
    → HasUniqueIds db.jobs
    → HasVerdict p.job_id v db
    → v ≢ p.compliance_status
    → terminalize_once calm p now db ≡ conflict
differing_verdict_conflicts p now v db u (j, e, c, s) d =
    closed_conflicts p now db j u e (closed_verdict p v j c s d)

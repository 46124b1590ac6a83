-- ===== src/Runner/Terminalize/Verdicts.antt =====
-- What `terminalize_job` does to the verdicts of the jobs.
use reguard.Prelude.{
  find-holds, any_of_find, ◌+◌, ℕ, ◌==◌, true, Option, none, some, List, [], ◌∷◌, ◌≡◌, refl, ◌∙◌,
  ap, inl, inr, arith, map_option, find-update_where, if◌then◌else◌,
}
use reguard.Verdict.Types.{RunStatus}
use reguard.Runner.Tables.{running, completed, Job, Db, status_eq_iff}
use reguard.Runner.Persistence.{job_with_id, update_evaluation_job_running}
use reguard.Runner.Terminalize.{
  TerminalPayload, Outcome, ok, busy, operational, conflict, is_writable, is_target, set_verdict,
  set_recipe, check_conflict, terminal_writes, terminalize_once,
}
use reguard.Runner.Terminalize.Retry.{calm, terminalize_once_cases, terminalize_once-writes}

-- What the two updates make of one row.
abbrev pub terminal_row : TerminalPayload → ℕ → Job → Job
terminal_row p now j =
    if j.id == p.job_id then set_recipe p (if is_target p j then set_verdict p now j else j) else j

two_updates :
    (p : TerminalPayload) (now : ℕ) (j : Job)
    → (let k = if is_target p j then set_verdict p now j else j in
        if k.id == p.job_id then set_recipe p k else k)
      ≡ terminal_row p now j
unfolding is_target set_verdict
two_updates p now j = ground arith

fuse_updates :
    (p : TerminalPayload) (now : ℕ) (o : Option Job)
    → map_option
        (λ k. if k.id == p.job_id then set_recipe p k else k)
        (map_option (λ j. if is_target p j then set_verdict p now j else j) o)
      ≡ map_option (terminal_row p now) o
fuse_updates p now none = refl
fuse_updates p now (some j) = ap some (two_updates p now j)

pub job-terminal_writes :
    (p : TerminalPayload) (now id : ℕ) (db : Db)
    → job_with_id id (terminal_writes p now db)
      ≡ map_option (terminal_row p now) (job_with_id id db)
unfolding terminal_writes set_recipe set_verdict
job-terminal_writes p now id db =
    find-update_where (λ j. j.id == id) _ (set_recipe p) _ (λ a. refl)
    ∙ ap (map_option _)
        (find-update_where (λ j. j.id == id) (is_target p) (set_verdict p now) db.jobs (λ a. refl))
    ∙ fuse_updates p now (job_with_id id db)

-- Job `id` is completed with the verdict `v`.
abbrev pub HasVerdict : ℕ → RunStatus → Db → Type 0
HasVerdict id v db =
    (j : Job) × (job_with_id id db ≡ some j)
    × (j.job_status ≡ completed)
    × (j.compliance_status ≡ some v)

terminal_row-keeps :
    (p : TerminalPayload) (now : ℕ) (v : RunStatus) (j : Job)
    → j.job_status ≡ completed
    → j.compliance_status ≡ some v
    → let k = terminal_row p now j in (k.job_status ≡ completed) × (k.compliance_status ≡ some v)
unfolding is_target set_verdict set_recipe
terminal_row-keeps p now v j c e = ground (arith, status_eq_iff v p.compliance_status)

writes-HasVerdict :
    (p : TerminalPayload) (now id : ℕ) (v : RunStatus) (db : Db)
    → HasVerdict id v db
    → HasVerdict id v (terminal_writes p now db)
writes-HasVerdict p now id v db (j, e, c, s) = (
  terminal_row p now j,
  job-terminal_writes p now id db ∙ ap (map_option (terminal_row p now)) e,
  (terminal_row-keeps p now v j c s).0,
  (terminal_row-keeps p now v j c s).1,
)

-- The database that a call leaves behind.
abbrev pub after : Db → Outcome Db → Db
after db (ok db') = db'
after db busy = db
after db operational = db
after db conflict = db

-- The calls of all worker threads, in the order in which their transactions commit or fail.
pub terminalize_all : List (TerminalPayload × ℕ) → Db → Db
terminalize_all [] db = db
terminalize_all ((p, now) ∷ calls) db =
    terminalize_all calls (after db (terminalize_once calm p now db))

once-HasVerdict :
    (p : TerminalPayload) (now id : ℕ) (v : RunStatus) (db : Db)
    → HasVerdict id v db
    → HasVerdict id v (after db (terminalize_once calm p now db))
once-HasVerdict p now id v db h = elim (terminalize_once_cases p now db) [
  | inl e ↦ rw e (writes-HasVerdict p now id v db h)
  | inr e ↦ rw e h
]

-- The first verdict wins: whatever terminal payloads the threads offer, in whatever order, a job that
-- is completed with a verdict stays completed with that verdict.
pub terminalize_all-HasVerdict :
    (calls : List (TerminalPayload × ℕ)) (id : ℕ) (v : RunStatus) (db : Db)
    → HasVerdict id v db
    → HasVerdict id v (terminalize_all calls db)
unfolding terminalize_all
terminalize_all-HasVerdict [] id v db h = h
terminalize_all-HasVerdict ((p, now) ∷ calls) id v db h =
    terminalize_all-HasVerdict calls id v _ (once-HasVerdict p now id v db h)

is_target_of :
    (p : TerminalPayload) (j : Job)
    → (j.id == p.job_id) ≡ true
    → is_writable p.compliance_status j ≡ true
    → is_target p j ≡ true
unfolding is_target
is_target_of p j h w = rw h w

abbrev pub run_again : ℕ → Job → Job
run_again started j = record j {
  job_status = running;
  started_at = some started;
  attempt_count = j.attempt_count + 1;
}

pub reopened_row :
    (id started : ℕ) (db : Db) (j : Job)
    → job_with_id id db ≡ some j
    → (j.id == id) ≡ true
    → job_with_id id (update_evaluation_job_running id started db) ≡ some (run_again started j)
unfolding update_evaluation_job_running
reopened_row id started db j e hit =
    find-update_where (λ k. k.id == id) _ (run_again started) db.jobs (λ a. refl)
    ∙ ap (map_option _) e
    ∙ rw hit

pub reopened-is_writable :
    (s : RunStatus) (started : ℕ) (j : Job) → is_writable s (run_again started j) ≡ true
unfolding is_writable
reopened-is_writable s started j = refl

-- A payload for a row that may be written is written.
pub writable_is_written :
    (p : TerminalPayload) (now : ℕ) (db : Db) (j : Job)
    → job_with_id p.job_id db ≡ some j
    → is_writable p.compliance_status j ≡ true
    → (terminalize_once calm p now db ≡ ok (terminal_writes p now db))
      × (job_with_id p.job_id (terminal_writes p now db)
          ≡ some (set_recipe p (set_verdict p now j)))
unfolding check_conflict
writable_is_written p now db j e w =
    let hit = find-holds (λ k. k.id == p.job_id) db.jobs j e in
    let target = is_target_of p j hit w in
    (
      terminalize_once-writes p now db
          (rw (any_of_find _ (is_target p) db.jobs j e target, check_conflict)),
      job-terminal_writes p now p.job_id db ∙ ap (map_option (terminal_row p now)) e ∙ rw (hit, w),
    )

-- A completed job that a worker marks as running again loses that protection: the next payload for it
-- is written over its verdict, with no conflict.
reopened_verdict_is_overwritten :
    (p : TerminalPayload) (started now : ℕ) (v : RunStatus) (db : Db)
    → HasVerdict p.job_id v db
    → let reopened = update_evaluation_job_running p.job_id started db in
      (terminalize_once calm p now reopened ≡ ok (terminal_writes p now reopened))
      × HasVerdict p.job_id p.compliance_status (terminal_writes p now reopened)
unfolding set_recipe set_verdict
reopened_verdict_is_overwritten p started now v db (j, e, c, s) =
    let hit = find-holds (λ k. k.id == p.job_id) db.jobs j e in
    let (written, row) =
      writable_is_written p now _ (run_again started j) (reopened_row p.job_id started db j e hit)
        (reopened-is_writable p.compliance_status started j) in
    (written, (set_recipe p (set_verdict p now (run_again started j)), row, refl, refl))

-- ===== src/Runner/Driver/Completion.antt =====
-- A run on one thread comes to its end.
use reguard.Prelude.{
  ℕ, suc, ◌-◌, ◌<◌, ◌==◌, ==_iff, ltb, Bool, true, none, some, List, [], ◌∷◌, map, ◌≡◌, ◌≢◌, refl,
  sym, ap, ◌∙◌, inl, inr, arith, Bool-cases, All, All-map, All-map_lem, keep, length, find,
}
use mathlib.Core.Path.{subst}
use reguard.Verdict.Types.{RunStatus}
use reguard.Runner.Counter.{ActiveContainerCounter, new, acquire, release}
use reguard.Runner.Tables.{run_running, run_completed, CorpusRun, Job, Db}
use reguard.Runner.Persistence.{
  job_with_id, update_corpus_run_status, load_corpus_run, list_jobs_for_run, list_pending_jobs,
  on_run,
}
use reguard.Runner.Totals.{tally_of, set_corpus_run_counters_from_jobs}
use reguard.Runner.Totals.Sums.{load_corpus_run-on_run, loaded_tally}
use reguard.Runner.Terminalize.Verdicts.{HasVerdict}
use reguard.Runner.Terminalize.Conflicts.{HasUniqueIds}
use reguard.Runner.Attempt.{Report}
use reguard.Runner.Worker.{returned, process_one_job}
use reguard.Runner.Worker.Records.{undisturbed}
use reguard.Runner.Driver.{
  Pooled, Pool, has_returned, left_by, one_by_one, CorpusRunProgress, finished, conclude, run_pool,
  run_corpus_run, error_class_counts,
}
use reguard.Runner.Driver.Quiet.{Unattempted, IsQuiet, worker-IsQuiet}

-- There is such a job, and no attempt of it.
abbrev Waiting : Db → ℕ → Type 0
Waiting db id = ((j : Job) × (job_with_id id db ≡ some j)) × Unattempted id db

abbrev DistinctIds : List ℕ → Type 0
DistinctIds [] = Unit
DistinctIds (i ∷ is) = All (λ k. k ≢ i) is × DistinctIds is

abbrev Judged : Db → ℕ → Type 0
Judged db id = (v : RunStatus) × HasVerdict id v db

slot_is_free : (c : ActiveContainerCounter) → 0 < c.slots → (acquire c).0 ≡ true
unfolding acquire
slot_is_free c h = ground arith

slots-stay : (c : ActiveContainerCounter) → 0 < c.slots → (release (acquire c).1).slots ≡ c.slots
unfolding acquire release
slots-stay c h = ground arith

Waiting-after :
    (id : ℕ) (db after : Db) (ids : List ℕ)
    → IsQuiet id db after
    → All (λ k. k ≢ id) ids
    → All (Waiting db) ids
    → All (Waiting after) ids
Waiting-after id db after [] q d w = tt
Waiting-after id db after (k ∷ ids) q d w = (
  ((w.0.0.0, q.jobs_stay k d.0 ∙ w.0.0.1), q.attempts_stay k d.0 w.0.1),
  Waiting-after id db after ids q d.1 w.1,
)

module _ (reports : ℕ → ℕ → Report) (now limit : ℕ) where
  abbrev outcome : List ℕ → Db → ActiveContainerCounter → Pooled
  outcome ids db c = one_by_one (λ id. undisturbed (reports id)) now ids (suc limit) db c

  -- What the thread has done at the end.
  abbrev AllDone : List ℕ → Db → Pooled → Type 0
  AllDone ids db out =
      (out.all_returned ≡ true)
      × (out.db.runs ≡ db.runs)
      × All (Judged out.db) ids
      × ((k : ℕ) → All (λ i. k ≢ i) ids → job_with_id k out.db ≡ job_with_id k db)

  ne_flip : (id : ℕ) (ids : List ℕ) → All (λ k. k ≢ id) ids → All (λ i. id ≢ i) ids
  ne_flip id ids h = All-map (λ k. k ≢ id) (λ i. id ≢ i) ids (λ a d e. d (sym e)) h

  outcome-cons :
      (id : ℕ) (ids : List ℕ) (db after : Db) (c c' : ActiveContainerCounter)
      → process_one_job (undisturbed (reports id)) id (suc limit) now db c ≡ (returned after, c')
      → outcome (id ∷ ids) db c ≡ outcome ids after c'
  unfolding one_by_one has_returned left_by
  outcome-cons id ids db after c c' e = rw (e, one_by_one) refl

  outcome-AllDone :
      (ids : List ℕ) (db : Db) (c : ActiveContainerCounter)
      → DistinctIds ids
      → All (Waiting db) ids
      → 0 < c.slots
      → AllDone ids db (outcome ids db c)
  unfolding one_by_one
  outcome-AllDone [] db c d w s = (refl, refl, tt, λ k h. refl)
  outcome-AllDone (id ∷ ids) db c d w s =
      let (after, v, e, verdict, quiet) =
        worker-IsQuiet (reports id) id limit now db c w.0.0.0 w.0.0.1 w.0.1 (slot_is_free c s) in
      let rest =
        outcome-AllDone ids after (release (acquire c).1) d.1
          (Waiting-after id db after ids quiet d.0 w.1) (omega (arith, slots-stay c s)) in
      subst (AllDone (id ∷ ids) db) (sym (outcome-cons id ids db after c (release (acquire c).1) e))
        (
          rest.0,
          rest.1 ∙ quiet.runs_stay,
          (
            (v, (verdict.0, rest.3 id (ne_flip id ids d.0) ∙ verdict.1, verdict.2, verdict.3)),
            rest.2,
          ),
          λ k h. rest.3 k h.1 ∙ quiet.jobs_stay k h.0,
        )

absent_ids :
    (n : ℕ) (p : Job → Bool) (js : List Job)
    → find (λ k. k.id == n) js ≡ none
    → All (λ i. i ≢ n) (map (λ (j : Job). j.id) (keep p js))
absent_ids n p [] h = tt
absent_ids n p (j ∷ js) h = ground (arith, ==_iff j.id n, absent_ids n p js)

kept-DistinctIds :
    (p : Job → Bool) (js : List Job)
    → HasUniqueIds js
    → DistinctIds (map (λ (j : Job). j.id) (keep p js))
kept-DistinctIds p [] u = tt
kept-DistinctIds p (j ∷ js) u = ground (arith, absent_ids j.id p js u.0, kept-DistinctIds p js u.1)

-- Every row of the second list can be found in the first by its id.
abbrev AllFound : List Job → List Job → Type 0
AllFound js ks = All (λ k. (j : Job) × (find (λ i. i.id == k.id) js ≡ some j)) ks

AllFound-cons : (j : Job) (js ks : List Job) → AllFound js ks → AllFound (j ∷ js) ks
AllFound-cons j js [] h = tt
AllFound-cons j js (k ∷ ks) h = (
  elim (Bool-cases (j.id == k.id)) [ inl e ↦ (j, rw e refl) | inr e ↦ (h.0.0, rw e h.0.1) ],
  AllFound-cons j js ks h.1,
)

kept-AllFound : (p : Job → Bool) (js : List Job) → AllFound js (keep p js)
kept-AllFound p [] = tt
kept-AllFound p (j ∷ js) = elim (Bool-cases (p j)) [
  | inl e ↦ rw e (
    ((j, rw ((==_iff j.id j.id).1 refl) refl)),
    AllFound-cons j js (keep p js) (kept-AllFound p js),
  )
  | inr e ↦ rw e (AllFound-cons j js (keep p js) (kept-AllFound p js))
]

All-Waiting :
    (db : Db) (ks : List Job)
    → AllFound db.jobs ks
    → All (λ k. Unattempted k.id db) ks
    → All (λ k. Waiting db k.id) ks
All-Waiting db [] f u = tt
All-Waiting db (k ∷ ks) f u = ((f.0, u.0), All-Waiting db ks f.1 u.1)

unmap-Judged :
    (db : Db) (ks : List Job)
    → All (Judged db) (map (λ (j : Job). j.id) ks)
    → All (λ k. Judged db k.id) ks
unmap-Judged db [] h = tt
unmap-Judged db (k ∷ ks) h = (h.0, unmap-Judged db ks h.1)

-- The end of a run that is still there.
conclude_ends :
    (run now total : ℕ) (db : Db) (c : ActiveContainerCounter) (row : CorpusRun)
    → load_corpus_run run db ≡ some row
    → let tally = tally_of (list_jobs_for_run run db) in
      let after =
        update_corpus_run_status run run_completed none
          (some now)
          none
          (set_corpus_run_counters_from_jobs run db) in
      (p : CorpusRunProgress) × (conclude run now total db c ≡ finished p after)
      × (p.total_jobs ≡ total)
      × (p.tally ≡ tally)
      × (load_corpus_run run after
          ≡ some (record row { tally = tally; status = run_completed; completed_at = some now }))
unfolding conclude update_corpus_run_status on_run
conclude_ends run now total db c row e =
    let counted = loaded_tally run db row e in
    (
      record {
        corpus_run_id = run;
        total_jobs = total;
        tally = tally_of (list_jobs_for_run run db);
        active_containers_peak = c.peak;
        error_class_counts = error_class_counts run (set_corpus_run_counters_from_jobs run db);
      },
      rw (counted, conclude) refl,
      refl,
      refl,
      load_corpus_run-on_run run (λ k. record k { status = run_completed; completed_at = some now })
          (set_corpus_run_counters_from_jobs run db)
          (record row { tally = tally_of (list_jobs_for_run run db) }) (λ a. refl) counted,
    )

module _ (reports : ℕ → ℕ → Report) (run now : ℕ) (db : Db) (row : CorpusRun) where
  abbrev one_thread : Pool
  one_thread = one_by_one (λ id. undisturbed (reports id)) now

  abbrev started : Db
  started = update_corpus_run_status run run_running none none none db

  abbrev running_row : CorpusRun
  running_row = record row { status = run_running }

  abbrev pending_ids : List ℕ
  pending_ids = map (λ (j : Job). j.id) (list_pending_jobs run db)

  started-row : load_corpus_run run db ≡ some row → load_corpus_run run started ≡ some running_row
  unfolding update_corpus_run_status on_run
  started-row found =
      load_corpus_run-on_run run (λ k. record k { status = run_running }) db row (λ a. refl) found

  pool-AllDone :
      HasUniqueIds db.jobs
      → All (λ j. Unattempted j.id db) (list_pending_jobs run db)
      → 0 < row.max_workers
      → 0 < row.max_attempts
      → AllDone reports now
          (row.max_attempts - 1)
          pending_ids
          started
          (one_thread pending_ids row.max_attempts started (new row.max_workers))
  unfolding list_pending_jobs update_corpus_run_status on_run new
  pool-AllDone unique fresh workers attempts =
      let limit : suc (row.max_attempts - 1) ≡ row.max_attempts = omega arith in
      subst
        (λ m.
          AllDone reports now (row.max_attempts - 1) pending_ids started
            (one_thread pending_ids m started (new row.max_workers)))
        limit
        (outcome-AllDone reports now (row.max_attempts - 1) pending_ids started
          (new row.max_workers) (kept-DistinctIds _ db.jobs unique)
          (All-map_lem (Waiting started) (λ (j : Job). j.id) (list_pending_jobs run db)
            (All-Waiting started _ (kept-AllFound _ db.jobs) fresh))
          workers)

  reaches_conclude :
      load_corpus_run run db ≡ some row
      → 0 < row.max_workers
      → let out = one_thread pending_ids row.max_attempts started (new row.max_workers) in
        out.all_returned ≡ true
        → run_corpus_run one_thread run none now db
          ≡ conclude run now (length (list_pending_jobs run db)) out.db out.counter
  unfolding run_corpus_run run_pool list_pending_jobs update_corpus_run_status on_run
  reaches_conclude found workers done =
      let enough : ltb 0 row.max_workers ≡ true = ground arith in
      rw (found, run_corpus_run) (rw (enough, run_pool) (rw (done, run_pool) refl))

  -- A run on one thread, with at least one worker and one attempt allowed, on a database that nobody
  -- else disturbs, in which no two jobs have one id and no pending job of the run has an attempt yet,
  -- comes to its end whatever the attempts report: it returns, each job that was pending is completed
  -- with a verdict, the row of the run is completed at the time `now` and has the counters that the rows
  -- of its jobs give, and the result has the same counters and the number of the jobs that were pending.
  pub run_corpus_run-completes :
      load_corpus_run run db ≡ some row
      → HasUniqueIds db.jobs
      → All (λ j. Unattempted j.id db) (list_pending_jobs run db)
      → 0 < row.max_workers
      → 0 < row.max_attempts
      → (p : CorpusRunProgress) × (after : Db) × (row' : CorpusRun) × (run_corpus_run one_thread run
            none now db
          ≡ finished p after)
        × All (λ j. (v : RunStatus) × HasVerdict j.id v after) (list_pending_jobs run db)
        × (load_corpus_run run after ≡ some row')
        × (row'.status ≡ run_completed)
        × (row'.completed_at ≡ some now)
        × (row'.tally ≡ tally_of (list_jobs_for_run run after))
        × (p.tally ≡ row'.tally)
        × (p.total_jobs ≡ length (list_pending_jobs run db))
  unfolding update_corpus_run_status on_run set_corpus_run_counters_from_jobs list_jobs_for_run
      list_pending_jobs load_corpus_run
  run_corpus_run-completes found unique fresh workers attempts =
      let done = pool-AllDone unique fresh workers attempts in
      let out = one_thread pending_ids row.max_attempts started (new row.max_workers) in
      let still =
        ap (λ (rs : List CorpusRun). find (λ (k : CorpusRun). k.id == run) rs) done.1
        ∙ started-row found in
      let (p, ended, total, tally, final) =
        conclude_ends run now (length (list_pending_jobs run db)) out.db out.counter running_row
          still in
      (
        p,
        update_corpus_run_status run run_completed none (some now) none
            (set_corpus_run_counters_from_jobs run out.db),
        record running_row {
          tally = tally_of (list_jobs_for_run run out.db);
          status = run_completed;
          completed_at = some now;
        },
        reaches_conclude found workers done.0 ∙ ended,
        unmap-Judged out.db _ done.2,
        final,
        refl,
        refl,
        refl,
        tally,
        total,
      )

-- ===== src/Runner/Totals/Sums.antt =====
-- The recomputed counters add up, and recomputing them again changes nothing.
use reguard.Prelude.{
  ℕ, ◌+◌, ◌==◌, Bool, ◌&&◌, ◌||◌, find-holds, Option, none, some, List, [], ◌∷◌, ◌≡◌, refl, sym, ap,
  ◌∙◌, arith, All, map_option, update_where-twice, find-update_where, if◌then◌else◌,
}
use reguard.Verdict.Types.{RunStatus, pass, fail, unknown, unsupported, error}
use reguard.Runner.Tables.{
  JobStatus, pending, running, completed, skipped_unsupported_scenario, Tally, CorpusRun, Job, Db,
  status_eq,
}
use reguard.Runner.Persistence.{on_run, list_jobs_for_run, load_corpus_run}
use reguard.Runner.Terminalize.{has_status, is_completed}
use reguard.Runner.Totals.{
  is_null, is_skipped, is_error_row, is_terminal, tally_of, set_corpus_run_counters_from_jobs,
}

-- Only a completed row carries a compliance status.
abbrev pub Agrees : JobStatus → Option RunStatus → Type 0
Agrees completed c = Unit
Agrees _ c = c ≡ none

abbrev pub IsConsistent : Job → Type 0
IsConsistent j = Agrees j.job_status j.compliance_status

-- The six buckets.
abbrev pub bucket_sum : Tally → ℕ
bucket_sum t =
    t.pass_count + t.fail_count + t.unknown_count + t.unsupported_count + t.error_count
    + t.skipped_count

abbrev one : Bool → ℕ
one b = if b then 1 else 0

-- A row falls into one bucket if it is terminal, and into none otherwise.
one_bucket :
    (s : JobStatus) (c : Option RunStatus)
    → Agrees s c
    → one (has_status pass c)
        + one (has_status fail c)
        + one (has_status unknown c)
        + one (has_status unsupported c)
        + one (has_status error c || (is_null c && is_completed s))
        + one (is_skipped s)
      ≡ one (is_terminal s)
unfolding has_status status_eq
one_bucket completed none h = refl
one_bucket completed (some pass) h = refl
one_bucket completed (some fail) h = refl
one_bucket completed (some unknown) h = refl
one_bucket completed (some unsupported) h = refl
one_bucket completed (some error) h = refl
one_bucket pending none h = refl
one_bucket running none h = refl
one_bucket skipped_unsupported_scenario none h = refl
one_bucket pending (some c) h = cc
one_bucket running (some c) h = cc
one_bucket skipped_unsupported_scenario (some c) h = cc

tally_of-sum :
    (js : List Job) → All IsConsistent js → bucket_sum (tally_of js) ≡ (tally_of js).completed_jobs
unfolding tally_of is_error_row
tally_of-sum [] h = refl
tally_of-sum (j ∷ js) h =
    omega (arith, one_bucket j.job_status j.compliance_status h.0, tally_of-sum js h.1)

pub load_corpus_run-on_run :
    (run : ℕ) (f : CorpusRun → CorpusRun) (db : Db) (r : CorpusRun)
    → ((a : CorpusRun) → (f a).id ≡ a.id)
    → load_corpus_run run db ≡ some r
    → load_corpus_run run (on_run run f db) ≡ some (f r)
unfolding load_corpus_run on_run
load_corpus_run-on_run run f db r h e =
    find-update_where (λ k. k.id == run) _ _ db.runs (λ a. ap (λ (n : ℕ). n == run) (h a))
    ∙ ap (map_option _) e
    ∙ rw (find-holds (λ k. k.id == run) db.runs r e)

pub loaded_tally :
    (run : ℕ) (db : Db) (r : CorpusRun)
    → load_corpus_run run db ≡ some r
    → load_corpus_run run (set_corpus_run_counters_from_jobs run db)
      ≡ some (record r { tally = tally_of (list_jobs_for_run run db) })
unfolding set_corpus_run_counters_from_jobs
loaded_tally run db r e =
    load_corpus_run-on_run run (λ k. record k { tally = tally_of (list_jobs_for_run run db) }) db r
      (λ a. refl) e

-- After the recomputation the stored counters of a run whose jobs are consistent add up: the jobs
-- counted as completed are the sum of the six buckets, none missed and none in two. A second
-- recomputation changes nothing.
pub set_corpus_run_counters_from_jobs-adds_up :
    (run : ℕ) (db : Db) (r : CorpusRun)
    → load_corpus_run run db ≡ some r
    → All IsConsistent (list_jobs_for_run run db)
    → let db' = set_corpus_run_counters_from_jobs run db in
      ((r' : CorpusRun) × (load_corpus_run run db' ≡ some r')
        × (r'.completed_jobs ≡ bucket_sum r'.tally))
      × (set_corpus_run_counters_from_jobs run db' ≡ db')
unfolding set_corpus_run_counters_from_jobs
set_corpus_run_counters_from_jobs-adds_up run db r e h = (
  (
    record r { tally = tally_of (list_jobs_for_run run db) },
    loaded_tally run db r e,
    sym (tally_of-sum _ h),
  ),
  ap (λ rs. record db { runs = rs })
      (update_where-twice (λ r. r.id == run)
        (λ r. record r { tally = tally_of (list_jobs_for_run run db) }) db.runs (λ a. refl)
        (λ a. refl)),
)

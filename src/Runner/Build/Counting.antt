-- ===== src/Runner/Build/Counting.antt =====
-- The counters that `build_jobs_for_run` keeps by increments are those that the rows give.
use reguard.Prelude.{
  ℕ, suc, ◌≤◌, ◌==◌, true, some, List, [], ◌∷◌, ◌++◌, ◌≡◌, refl, sym, ap, ◌∙◌, arith, All, keep,
  keep-append, map_option, update_where, find-update_where, find-holds, count-append,
}
use reguard.Runner.Tables.{Tally, CorpusRun, Job, Db}
use reguard.Runner.Persistence.{
  load_corpus_run, list_jobs_for_run, increment_corpus_run_counters, add_tally,
}
use reguard.Runner.Totals.{tally_of}

tally_of-append : (xs ys : List Job) → tally_of (xs ++ ys) ≡ add_tally (tally_of xs) (tally_of ys)
unfolding tally_of
tally_of-append xs ys =
    rw
      (
        count-append _ xs ys,
        count-append _ xs ys,
        count-append _ xs ys,
        count-append _ xs ys,
        count-append _ xs ys,
        count-append _ xs ys,
        count-append _ xs ys,
      )
      refl

-- The stored counters of the run are those of its rows.
abbrev pub IsCounted : ℕ → Db → Type 0
IsCounted run db =
    (r : CorpusRun) × (load_corpus_run run db ≡ some r)
    × (r.tally ≡ tally_of (list_jobs_for_run run db))

-- No job's id is past the last one given out.
abbrev pub HasKnownJobs : Db → Type 0
HasKnownJobs db = All (λ j. j.id ≤ db.last_job_id) db.jobs

list-append :
    (run : ℕ) (db db' : Db) (row : Job)
    → db'.jobs ≡ db.jobs ++ row ∷ []
    → (row.key.corpus_run_id == run) ≡ true
    → list_jobs_for_run run db' ≡ list_jobs_for_run run db ++ row ∷ []
unfolding list_jobs_for_run
list-append run db db' row e mine =
    ap (keep (λ j. j.key.corpus_run_id == run)) e
    ∙ keep-append (λ j. j.key.corpus_run_id == run) db.jobs (row ∷ [])
    ∙ rw mine

-- One more row, counted as what it is.
pub counts_row :
    (run : ℕ) (db db' : Db) (row : Job) (r r' : CorpusRun)
    → db'.jobs ≡ db.jobs ++ row ∷ []
    → (row.key.corpus_run_id == run) ≡ true
    → r.tally ≡ tally_of (list_jobs_for_run run db)
    → load_corpus_run run db' ≡ some r'
    → r'.tally ≡ add_tally r.tally (tally_of (row ∷ []))
    → IsCounted run db'
counts_row run db db' row r r' e mine counted found more = (
  r',
  found,
  more
      ∙ ap (λ t. add_tally t (tally_of (row ∷ []))) counted
      ∙ sym (tally_of-append (list_jobs_for_run run db) (row ∷ []))
      ∙ ap tally_of (sym (list-append run db db' row e mine)),
)

pub loaded_increment :
    (run : ℕ) (delta : Tally) (db : Db) (r : CorpusRun)
    → load_corpus_run run db ≡ some r
    → load_corpus_run run (increment_corpus_run_counters run delta db)
      ≡ some (record r { tally = add_tally r.tally delta })
unfolding load_corpus_run increment_corpus_run_counters
loaded_increment run delta db r found =
    find-update_where (λ k. k.id == run) _ _ db.runs (λ a. refl)
    ∙ ap (map_option _) found
    ∙ rw (find-holds (λ k. k.id == run) db.runs r found)

pub known_append :
    (n : ℕ) (js : List Job) (row : Job)
    → All (λ j. j.id ≤ n) js
    → row.id ≡ suc n
    → All (λ j. j.id ≤ suc n) (js ++ row ∷ [])
known_append n [] row h e = (omega (arith, e), tt)
known_append n (j ∷ js) row h e = (omega (arith, h.0), known_append n js row h.1 e)

pub fresh_update :
    (n : ℕ) (f : Job → Job) (js : List Job)
    → All (λ j. j.id ≤ n) js
    → update_where (λ j. j.id == suc n) f js ≡ js
fresh_update n f [] h = refl
fresh_update n f (j ∷ js) h = ground (arith, fresh_update n f js)

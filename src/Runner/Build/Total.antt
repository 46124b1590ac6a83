-- ===== src/Runner/Build/Total.antt =====
-- `build_jobs_for_run` never trips over the unique index, and leaves no manifest row without a job.
use reguard.Prelude.{
  ℕ, suc, ◌+◌, ◌==◌, ==_iff, String, true, Option, none, some, List, [], ◌∷◌, ◌++◌, ◌≡◌, refl, sym,
  ap, ◌∙◌, ◌↔◌, inl, inr, arith, All, length, map_option, eq_iff, any-find-none, find-append,
  find-update_where, Option-cases, if_both, if◌then◌else◌,
}
use reguard.Runner.Tables.{Tally, CorpusRun, ManifestRow, JobKey, Job, Db, job_key_eq}
use reguard.Runner.Persistence.{
  blank_job, is_logical_duplicate, insert_job_row, insert_evaluation_job, find_job_for_repo, on_run,
  load_corpus_run, increment_corpus_run_counters, update_evaluation_job_skipped,
}
use reguard.Runner.Build.{
  Adapter, Resolved, has_no_sha, sha_failure_job, add_sha_failure, resolve, get_adapter, no_delta,
  skip_reason, skip_unsupported, add_job, row_key, add_row, add_rows,
}

pub job_key_eq_iff : (k l : JobKey) → (job_key_eq k l ≡ true) ↔ (k ≡ l)
unfolding job_key_eq
job_key_eq_iff k l = ground (
  arith,
  ==_iff k.corpus_run_id l.corpus_run_id,
  ==_iff k.repository_id l.repository_id,
  eq_iff k.requirement_id l.requirement_id,
  eq_iff k.requirement_version l.requirement_version,
  eq_iff k.scenario_id l.scenario_id,
)

-- The insertion of one row.
abbrev pub with_job : (ℕ → Job) → Db → Db
with_job row db = record db {
  jobs = db.jobs ++ row (suc db.last_job_id) ∷ [];
  last_job_id = suc db.last_job_id;
}

duplicate_key : (row a : Job) → is_logical_duplicate row a ≡ true → job_key_eq a.key row.key ≡ true
unfolding is_logical_duplicate
duplicate_key row a h = ground (arith, job_key_eq_iff a.key row.key, job_key_eq_iff row.key a.key)

-- A row whose key no job has is inserted.
pub inserts :
    (row : ℕ → Job) (key : JobKey) (db : Db)
    → ((id : ℕ) → (row id).key ≡ key)
    → find_job_for_repo key db ≡ none
    → insert_job_row row db ≡ some (with_job row db)
unfolding insert_job_row find_job_for_repo
inserts row key db same e =
    let unique =
      any-find-none (λ a. job_key_eq a.key key) (is_logical_duplicate (row (suc db.last_job_id)))
        db.jobs
        (λ a h. rw (sym (same (suc db.last_job_id))) (duplicate_key (row (suc db.last_job_id)) a h))
        e in
    rw (unique, insert_job_row)

abbrev pub HasJob : JobKey → Db → Type 0
HasJob key db = (j : Job) × (find_job_for_repo key db ≡ some j)

-- The run is there with its requirement.
abbrev pub HasRequirement : ℕ → String → String → Db → Type 0
HasRequirement run name version db =
    (r : CorpusRun) × (load_corpus_run run db ≡ some r)
    × (r.requirement_id ≡ name)
    × (r.requirement_version ≡ version)

-- What every statement of the loop keeps.
pub record Keeps (db db' : Db) : Type 0 where
  pub jobs_stay : (k : JobKey) → HasJob k db → HasJob k db'
  pub runs_stay :
      (run : ℕ) (name version : String)
      → HasRequirement run name version db
      → HasRequirement run name version db'
  pub manifest_stays : db'.manifest ≡ db.manifest

Keeps-refl : (db : Db) → Keeps db db
Keeps-refl db = record {
  jobs_stay = λ k h. h;
  runs_stay = λ run name version h. h;
  manifest_stays = refl;
}

pub Keeps-trans : {a b c : Db} → Keeps a b → Keeps b c → Keeps a c
Keeps-trans p q = record {
  jobs_stay = λ k h. q.jobs_stay k (p.jobs_stay k h);
  runs_stay = λ run name version h. q.runs_stay run name version (p.runs_stay run name version h);
  manifest_stays = q.manifest_stays ∙ p.manifest_stays;
}

with_job-Keeps : (row : ℕ → Job) (db : Db) → Keeps db (with_job row db)
unfolding find_job_for_repo load_corpus_run
with_job-Keeps row db = record {
  jobs_stay = λ k h. (h.0, find-append (λ j. job_key_eq j.key k) db.jobs _ ∙ rw (h.1));
  runs_stay = λ run name version h. h;
  manifest_stays = refl;
}

with_job-HasJob :
    (row : ℕ → Job) (key : JobKey) (db : Db)
    → ((id : ℕ) → (row id).key ≡ key)
    → find_job_for_repo key db ≡ none
    → HasJob key (with_job row db)
unfolding find_job_for_repo
with_job-HasJob row key db same e = (
  row (suc db.last_job_id),
  find-append (λ j. job_key_eq j.key key) db.jobs _
      ∙ rw (e, (job_key_eq_iff (row (suc db.last_job_id)).key key).1 (same (suc db.last_job_id))),
)

-- An update of a run's row that keeps its requirement.
pub on_run-Keeps :
    (run : ℕ) (f : CorpusRun → CorpusRun) (db : Db)
    → ((r : CorpusRun) → (f r).id ≡ r.id)
    → ((r : CorpusRun) → (f r).requirement_id ≡ r.requirement_id)
    → ((r : CorpusRun) → (f r).requirement_version ≡ r.requirement_version)
    → Keeps db (on_run run f db)
unfolding on_run load_corpus_run find_job_for_repo
on_run-Keeps run f db same_id same_name same_version = record {
  jobs_stay = λ k h. h;
  runs_stay = λ id name version h. (
    (if h.0.id == run then f h.0 else h.0),
    find-update_where (λ r. r.id == id) (λ r. r.id == run) f db.runs
          (λ a. ap (λ n. n == id) (same_id a))
        ∙ ap (map_option _) h.1,
    if_both (λ (r : CorpusRun). r.requirement_id ≡ name) (h.0.id == run) _ _ (same_name h.0 ∙ h.2)
        h.2,
    if_both (λ (r : CorpusRun). r.requirement_version ≡ version) (h.0.id == run) _ _
        (same_version h.0 ∙ h.3) h.3,
  );
  manifest_stays = refl;
}

increment-Keeps :
    (run : ℕ) (delta : Tally) (db : Db) → Keeps db (increment_corpus_run_counters run delta db)
unfolding increment_corpus_run_counters
increment-Keeps run delta db = on_run-Keeps run _ db (λ r. refl) (λ r. refl) (λ r. refl)

skipped-Keeps :
    (id : ℕ) (reason : String) (now : ℕ) (db : Db)
    → Keeps db (update_evaluation_job_skipped id reason now db)
unfolding update_evaluation_job_skipped load_corpus_run find_job_for_repo
skipped-Keeps id reason now db = record {
  jobs_stay = λ k h. (
    _,
    find-update_where (λ j. job_key_eq j.key k) (λ j. j.id == id) _ db.jobs (λ a. refl)
        ∙ ap (map_option _) h.1,
  );
  runs_stay = λ run name version h. h;
  manifest_stays = refl;
}

-- A round of the loop goes through, and leaves the row's key with a job.
abbrev pub Adds : JobKey → Db → Option Db → Type 0
Adds key db result = (db' : Db) × (result ≡ some db') × HasJob key db' × Keeps db db'

add_sha_failure-Adds :
    (key : JobKey) (m : ManifestRow) (now : ℕ) (db : Db)
    → find_job_for_repo key db ≡ none
    → Adds key db (add_sha_failure key m now db)
unfolding add_sha_failure sha_failure_job
add_sha_failure-Adds key m now db e =
    let row = sha_failure_job key m now in
    let there = with_job-HasJob row key db (λ id. refl) e in
    let counted =
      increment-Keeps key.corpus_run_id (record no_delta { completed_jobs = 1; error_count = 1 })
        (with_job row db) in
    (
      increment_corpus_run_counters key.corpus_run_id
          (record no_delta { completed_jobs = 1; error_count = 1 }) (with_job row db),
      rw (inserts row key db (λ id. refl) e, add_sha_failure) refl,
      counted.jobs_stay key there,
      Keeps-trans (with_job-Keeps row db) counted,
    )

skip_unsupported-Keeps :
    (key : JobKey) (a : Resolved) (now : ℕ) (db : Db) → Keeps db (skip_unsupported key a now db)
unfolding skip_unsupported
skip_unsupported-Keeps key a now db = if_both (Keeps db) a.scenario_supported _ _ (Keeps-refl db) (
    Keeps-trans (skipped-Keeps db.last_job_id (skip_reason key.scenario_id a.adapter_name) now db) (
      increment-Keeps key.corpus_run_id (record no_delta { completed_jobs = 1; skipped_count = 1 })
        _))

add_job-Adds :
    (key : JobKey) (m : ManifestRow) (a : Resolved) (now : ℕ) (db : Db)
    → find_job_for_repo key db ≡ none
    → Adds key db (add_job key m a now db)
unfolding add_job insert_evaluation_job
add_job-Adds key m a now db e =
    let row : ℕ → Job = λ id. blank_job id key m.resolved_sha a.adapter_name a.adapter_version in
    let there = with_job-HasJob row key db (λ id. refl) e in
    let kept = skip_unsupported-Keeps key a now (with_job row db) in
    (
      skip_unsupported key a now (with_job row db),
      rw (inserts row key db (λ id. refl) e, add_job, insert_evaluation_job) refl,
      kept.jobs_stay key there,
      Keeps-trans (with_job-Keeps row db) kept,
    )

add_row-Adds :
    (registry : List (String × Adapter)) (key : JobKey) (m : ManifestRow) (now : ℕ) (db : Db)
    → Adds key db (add_row registry key m now db)
unfolding add_row
add_row-Adds registry key m now db = elim (Option-cases (find_job_for_repo key db)) [
  | inl e ↦
      rw (e, add_row)
        (if_both (Adds key db) (has_no_sha m) _ _ (add_sha_failure-Adds key m now db e) (
          add_job-Adds key m (resolve (get_adapter registry m.full_name) key.scenario_id) now db e))
  | inr (j, e) ↦
      rw (e, add_row)
        (if_both (Adds key db) (has_no_sha m) _ _ (db, refl, (j, e), Keeps-refl db)
          (db, refl, (j, e), Keeps-refl db))
]

-- Every row of the list has a job.
abbrev pub AllHaveJobs : ℕ → CorpusRun → String → List ManifestRow → Db → Type 0
AllHaveJobs run r scenario ms db = All (λ m. HasJob (row_key run r scenario m) db) ms

pub add_rows-all :
    (registry : List (String × Adapter)) (run : ℕ) (r : CorpusRun) (scenario : String) (now : ℕ)
    (ms : List ManifestRow) (created : ℕ) (db : Db)
    → (db' : Db) × (add_rows registry run r scenario now ms created db
        ≡ some (created + length ms, db'))
      × AllHaveJobs run r scenario ms db'
      × Keeps db db'
unfolding add_rows
add_rows-all registry run r scenario now [] created db =
    (db, ap (λ n. some (n, db)) (omega arith), tt, Keeps-refl db)
add_rows-all registry run r scenario now (m ∷ ms) created db =
    let (db', e, there, kept) = add_row-Adds registry (row_key run r scenario m) m now db in
    let (db'', e', rest, kept') = add_rows-all registry run r scenario now ms (suc created) db' in
    (
      db'',
      rw (e, add_rows) (e' ∙ ap (λ n. some (n, db'')) (omega arith)),
      (kept'.jobs_stay (row_key run r scenario m) there, rest),
      Keeps-trans kept kept',
    )

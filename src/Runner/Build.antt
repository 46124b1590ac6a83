-- ===== src/Runner/Build.antt =====
-- `build_jobs_for_run` of src/compliance/corpus_runner/executor.py, `is_supported_by_capability` of
-- src/compliance/corpus_runner/scenarios.py and `get_adapter` of src/compliance/adapters/registry.py.
--
-- The contents of `ADAPTER_REGISTRY` are a parameter, as the pairs of its dict. `none` is an exception:
-- the `TypeError` of a run that does not exist, or an `IntegrityError`.
pub mod Total
pub mod Again
pub mod Counting
pub mod Rounds
use reguard.Prelude.{
  ℕ, suc, ◌==◌, leb, String, Bool, true, false, not, ◌&&◌, ◌||◌, Option, none, some, List, [], ◌∷◌,
  ◌++◌, keep, any, find, is_empty, str_eq, str_append, if◌then◌else◌,
}
use reguard.Runner.Errors.{ErrorClass, sha_resolution_error}
use reguard.Runner.Tables.{
  JobStatus, completed, RunState, run_pending, Tally, CorpusRun, ManifestRow, JobKey, Job, Db,
}
use reguard.Runner.Persistence.{
  adapter_missing_sentinel, update_corpus_run_status, increment_corpus_run_counters,
  load_corpus_run, blank_job, insert_job_row, insert_evaluation_job, update_evaluation_job_skipped,
  find_job_for_repo,
}

abbrev pub s1 : String
s1 = "compliance.article12_1.simple"

abbrev pub legacy_s1 : String
legacy_s1 = "compliance.synthetic.hello"

unfoldable pub is_supported_by_capability : String → List String → Bool
is_supported_by_capability scenario declared =
    if is_empty declared
    then str_eq scenario s1 || str_eq scenario legacy_s1
    else any (λ s. str_eq s scenario) declared

-- What a `RepoAdapter` declares.
pub record Adapter : Type 0 where
  pub name : String
  pub version : String
  pub supported_scenarios : List String

-- `none` is the `KeyError`.
unfoldable pub get_adapter : List (String × Adapter) → String → Option Adapter
get_adapter [] full_name = none
get_adapter ((name, adapter) ∷ rest) full_name =
    if str_eq name full_name then some adapter else get_adapter rest full_name

-- `sha_class in ("ok", "pinned")`
abbrev pub is_resolved_class : Option String → Bool
is_resolved_class none = false
is_resolved_class (some c) = str_eq c "ok" || str_eq c "pinned"

unfoldable pub has_no_sha : ManifestRow → Bool
has_no_sha m = str_eq m.resolved_sha "" || not (is_resolved_class m.sha_resolution_class)

abbrev pub no_delta : Tally
no_delta = record {
  completed_jobs = 0;
  pass_count = 0;
  fail_count = 0;
  unknown_count = 0;
  unsupported_count = 0;
  error_count = 0;
  skipped_count = 0;
}

-- The row that is inserted finished.
unfoldable pub sha_failure_job : JobKey → ManifestRow → ℕ → ℕ → Job
sha_failure_job key m now id =
    record (blank_job id key m.resolved_sha adapter_missing_sentinel "") {
      job_status = completed;
      error_class = some sha_resolution_error;
      error_message = some "sha resolution failed at snapshot time";
      started_at = some now;
      completed_at = some now;
    }

unfoldable pub add_sha_failure : JobKey → ManifestRow → ℕ → Db → Option Db
unfolding sha_failure_job
add_sha_failure key m now db = elim (insert_job_row (sha_failure_job key m now) db) [
  | none ↦ none
  | some db' ↦ some (
      increment_corpus_run_counters key.corpus_run_id
        (record no_delta { completed_jobs = 1; error_count = 1 }) db')
]

-- `adapter_name`, `adapter_version` and `scenario_supported`.
pub record Resolved : Type 0 where
  pub adapter_name : String
  pub adapter_version : String
  pub scenario_supported : Bool

unfoldable pub resolve : Option Adapter → String → Resolved
unfolding is_supported_by_capability
resolve none scenario = record {
  adapter_name = adapter_missing_sentinel;
  adapter_version = "";
  scenario_supported = true;
}
resolve (some a) scenario = record {
  adapter_name = a.name;
  adapter_version = a.version;
  scenario_supported = is_supported_by_capability scenario a.supported_scenarios;
}

-- Names whose `repr` is the name in single quotes.
abbrev pub skip_reason : String → String → String
skip_reason scenario adapter = str_append "scenario '" (
    str_append scenario
      (str_append "' not in adapter '" (str_append adapter "' capability.supported_scenarios")))

-- The skip that follows an unsupported scenario, for the job that was just inserted.
unfoldable pub skip_unsupported : JobKey → Resolved → ℕ → Db → Db
skip_unsupported key a now db =
    if a.scenario_supported
    then db
    else increment_corpus_run_counters key.corpus_run_id
        (record no_delta { completed_jobs = 1; skipped_count = 1 })
        (update_evaluation_job_skipped db.last_job_id (skip_reason key.scenario_id a.adapter_name)
          now db)

unfoldable pub add_job : JobKey → ManifestRow → Resolved → ℕ → Db → Option Db
unfolding skip_unsupported
add_job key m a now db =
    elim (insert_evaluation_job key m.resolved_sha a.adapter_name a.adapter_version db) [
      | none ↦ none
      | some db' ↦ some (skip_unsupported key a now db')
    ]

unfoldable pub row_key : ℕ → CorpusRun → String → ManifestRow → JobKey
row_key run r scenario m = record {
  corpus_run_id = run;
  repository_id = m.repository_id;
  requirement_id = r.requirement_id;
  requirement_version = r.requirement_version;
  scenario_id = scenario;
}

-- A job that is there already is left alone.
abbrev pub unless_there : Option Job → Db → Option Db → Option Db
unless_there (some j) db added = some db
unless_there none db added = added

-- One round of the loop over the manifest.
unfoldable pub add_row : List (String × Adapter) → JobKey → ManifestRow → ℕ → Db → Option Db
unfolding has_no_sha add_sha_failure resolve get_adapter add_job
add_row registry key m now db =
    if has_no_sha m
    then unless_there (find_job_for_repo key db) db (add_sha_failure key m now db)
    else unless_there (find_job_for_repo key db) db
        (add_job key m (resolve (get_adapter registry m.full_name) key.scenario_id) now db)

-- `for ... in manifest`, with `created`.
unfoldable pub add_rows :
    List (String × Adapter)
    → ℕ
    → CorpusRun
    → String
    → ℕ
    → List ManifestRow
    → ℕ
    → Db
    → Option (ℕ × Db)
unfolding add_row row_key
add_rows registry run r scenario now [] created db = some (created, db)
add_rows registry run r scenario now (m ∷ ms) created db =
    elim (add_row registry (row_key run r scenario m) m now db) [
      | none ↦ none
      | some db' ↦ add_rows registry run r scenario now ms (suc created) db'
    ]

-- `ORDER BY position ASC`
unfoldable pub insert_by_position : ManifestRow → List ManifestRow → List ManifestRow
insert_by_position m [] = m ∷ []
insert_by_position m (n ∷ ns) =
    if leb m.position n.position then m ∷ n ∷ ns else n ∷ insert_by_position m ns

unfoldable pub order_by_position : List ManifestRow → List ManifestRow
unfolding insert_by_position
order_by_position [] = []
order_by_position (m ∷ ms) = insert_by_position m (order_by_position ms)

unfoldable pub manifest_of : ℕ → Db → List ManifestRow
unfolding order_by_position
manifest_of run db = order_by_position (keep (λ m. m.corpus_run_id == run) db.manifest)

-- The closing `update_corpus_run_status`.
abbrev pub close_build : ℕ → ℕ → Option (ℕ × Db) → Option (ℕ × Db)
close_build run now none = none
close_build run now (some (created, db)) =
    some (created, update_corpus_run_status run run_pending (some now) none (some created) db)

unfoldable pub build_jobs_for_run : List (String × Adapter) → ℕ → String → ℕ → Db → Option (ℕ × Db)
unfolding load_corpus_run add_rows manifest_of
build_jobs_for_run registry run scenario now db = elim (load_corpus_run run db) [
  | none ↦ none
  | some r ↦ close_build run now (add_rows registry run r scenario now (manifest_of run db) 0 db)
]

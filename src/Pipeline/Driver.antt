-- ===== src/Pipeline/Driver.antt =====
-- src/compliance/pipeline/driver.py: the entry points `run_one`, `run_with_prepared_checkout` and
-- `run_path_mode`, and the `_run_pipeline` that they share.
--
-- A run's `Course` is what its surroundings do: the probe's outcome, the clock, whether `git clone`
-- succeeds, and what other processes write to the table while the probe runs. The evidence file
-- and the temporary directories are not modelled, nor is the sorted list of the requirements' names.
pub mod Again
pub mod Provenance
use reguard.Prelude.{
  ℕ, ℤ, pos, negsuc, String, Bool, true, false, Option, none, some, List, find, map_option, str_eq,
  str_append, if◌then◌else◌,
}
use reguard.Verdict.Types.{Evidence}
use reguard.Verdict.Requirement.{Result, RequirementTest, Registry, get_requirement, evaluate}
use reguard.Pipeline.Types.{RepositoryTarget, RunRecord, RepoAdapter, AdapterRegistry, get_adapter}
use reguard.Pipeline.Evidence.{ProbeOutputs, Rendering, collect_evidence}
use reguard.Pipeline.Persistence.{
  JsonModule, Row, DedupKey, record_key, Loaded, absent, corrupt, found, insert_run,
  load_run_by_dedup_key,
}

-- A row of `agent_repositories`
pub record RepositoryRow : Type 0 where
  pub id : ℕ
  pub full_name : String

pub record RepoRow : Type 0 where
  pub repository_id : ℤ
  pub full_name : String
  pub default_branch : String

-- `_lookup_repo`; `none` is the `KeyError`.
unfoldable pub lookup_repo : List RepositoryRow → String → Option RepoRow
lookup_repo repositories full_name =
    map_option
      (λ r. record { repository_id = pos r.id; full_name = r.full_name; default_branch = "main" })
      (find (λ r. str_eq r.full_name full_name) repositories)

abbrev pub default_scenario_id : String
default_scenario_id = "compliance.synthetic.hello"

-- `run_probe` returns its outputs or raises, with the exception's `repr`.
pub data Probe : Type 0 where
  raised : String → Probe
  ran : ProbeOutputs → Probe

unfoldable pub stub_probe_outputs_from_error : String → ProbeOutputs
stub_probe_outputs_from_error exception = record {
  trajectory = none;
  stdout_log = "";
  stderr_log = str_append "run_probe raised: " exception;
  returncode = negsuc 0;
}

unfoldable pub outputs_of : Probe → ProbeOutputs
unfolding stub_probe_outputs_from_error
outputs_of (raised exception) = stub_probe_outputs_from_error exception
outputs_of (ran outputs) = outputs

pub record Course (Json : Type 0) : Type 0 where
  pub probe : Probe
  pub clones : Bool
  pub started_at : String
  pub completed_at : String
  pub duration : ℕ
  pub now : ℕ
  pub others : List (Row Json) → List (Row Json)

pub data DriverError : Type 0 where
  not_in_db no_adapter unknown_requirement : String → DriverError
  clone_failed path_missing not_a_directory head_unknown unreadable_row : DriverError
  sha_mismatch : String → String → DriverError

-- A run raises, or returns its record and leaves the table with these rows. One that raises has
-- inserted no row.
pub data Outcome (Json : Type 0) : Type 0 where
  raises : DriverError → Outcome Json
  returns : RunRecord → List (Row Json) → Outcome Json

-- What the process is configured with.
pub record Setup (Json : Type 0) : Type 0 where
  pub json : JsonModule Json
  pub text : Rendering
  pub adapters : AdapterRegistry
  pub requirements : Registry
  pub repositories : List RepositoryRow
  pub runtime_version : String

module _ {Json : Type 0} (setup : Setup Json) where
  unfoldable pub run_record :
      RepositoryTarget → RepoAdapter → RequirementTest → Course Json → RunRecord
  unfolding outputs_of collect_evidence evaluate
  run_record target adapter requirement course =
      let evidence = collect_evidence setup.text adapter (outputs_of course.probe) in
      let result = evaluate requirement evidence in
      record {
        repository = target;
        requirement_id = requirement.id;
        requirement_version = requirement.version;
        runtime_version = setup.runtime_version;
        adapter_name = adapter.name;
        adapter_version = adapter.version;
        scenario_id = default_scenario_id;
        status = result.status;
        reason = result.reason;
        result = result;
        evidence = evidence;
        started_at = course.started_at;
        completed_at = course.completed_at;
        duration_seconds = course.duration;
        runtime_image_reference = "";
        runtime_image_digest = "";
      }

  -- `insert_run`, and after an `IntegrityError` the row that is there.
  unfoldable pub persist_record : ℕ → RunRecord → List (Row Json) → Outcome Json
  unfolding insert_run load_run_by_dedup_key record_key
  persist_record now r rows = elim (insert_run setup.json now r rows) [
    | some (id, rows') ↦ returns r rows'
    | none ↦ elim (load_run_by_dedup_key setup.json (record_key r) rows) [
      | absent ↦ returns r rows
      | corrupt ↦ raises unreadable_row
      | found old ↦ returns old rows
    ]
  ]

  -- `_run_pipeline`, whose two lookups are made once more.
  unfoldable pub run_pipeline :
      Bool → RepositoryTarget → String → Course Json → List (Row Json) → Outcome Json
  unfolding get_adapter get_requirement run_record persist_record
  run_pipeline persist target requirement_id course rows =
      elim (get_adapter setup.adapters target.full_name) [
        | none ↦ raises (no_adapter target.full_name)
        | some adapter ↦ elim (get_requirement setup.requirements requirement_id) [
          | none ↦ raises (unknown_requirement requirement_id)
          | some requirement ↦
              if persist
              then persist_record course.now (run_record target adapter requirement course) rows
              else returns (run_record target adapter requirement course) rows
        ]
      ]

  abbrev pub target_of : RepoRow → String → String → RepositoryTarget
  target_of repo_row full_name sha = record {
    repository_id = repo_row.repository_id;
    full_name = full_name;
    sha = sha;
    branch = repo_row.default_branch;
  }

  abbrev pub key_of : RepositoryTarget → RepoAdapter → RequirementTest → DedupKey
  key_of target adapter requirement = record {
    repository_id = target.repository_id;
    requirement_id = requirement.id;
    requirement_version = requirement.version;
    repo_sha = target.sha;
    scenario_id = default_scenario_id;
    adapter_name = adapter.name;
    adapter_version = adapter.version;
  }

  -- The lookups that both entry points with a table begin with, then `run` unless a row is there.
  unfoldable pub with_stored_run :
      String → String → String → (RepositoryTarget → Outcome Json) → List (Row Json) → Outcome Json
  unfolding lookup_repo get_adapter get_requirement load_run_by_dedup_key
  with_stored_run full_name sha requirement_id run rows =
      elim (lookup_repo setup.repositories full_name) [
        | none ↦ raises (not_in_db full_name)
        | some repo_row ↦ elim (get_adapter setup.adapters full_name) [
          | none ↦ raises (no_adapter full_name)
          | some adapter ↦ elim (get_requirement setup.requirements requirement_id) [
            | none ↦ raises (unknown_requirement requirement_id)
            | some requirement ↦
                elim (load_run_by_dedup_key setup.json
                  (key_of (target_of repo_row full_name sha) adapter requirement) rows) [
                    | found old ↦ returns old rows
                    | corrupt ↦ raises unreadable_row
                    | absent ↦ run (target_of repo_row full_name sha)
                  ]
          ]
        ]
      ]

  -- `run_one` after its lookups
  unfoldable pub cloned_run :
      String → Course Json → List (Row Json) → RepositoryTarget → Outcome Json
  unfolding run_pipeline
  cloned_run requirement_id course rows target =
      if course.clones
      then run_pipeline true target requirement_id course (course.others rows)
      else raises clone_failed

  -- `run_with_prepared_checkout` after its lookups
  unfoldable pub prepared_run :
      String → Course Json → List (Row Json) → RepositoryTarget → Outcome Json
  unfolding run_pipeline
  prepared_run requirement_id course rows target =
      run_pipeline true target requirement_id course (course.others rows)

  unfoldable pub run_one : String → String → String → Course Json → List (Row Json) → Outcome Json
  unfolding with_stored_run cloned_run
  run_one full_name sha requirement_id course rows =
      with_stored_run full_name sha requirement_id (cloned_run requirement_id course rows) rows

  unfoldable pub run_with_prepared_checkout :
      String → String → String → Course Json → List (Row Json) → Outcome Json
  unfolding with_stored_run prepared_run
  run_with_prepared_checkout full_name sha requirement_id course rows =
      with_stored_run full_name sha requirement_id (prepared_run requirement_id course rows) rows

-- What stands at the path: a directory has the commit that `git rev-parse HEAD` prints, or none.
pub data Checkout : Type 0 where
  missing : Checkout
  file : Checkout
  directory : Option String → Checkout

-- `path.exists()`, `path.is_dir()` and `_verify_checkout_sha`; `none` is a path that is accepted.
unfoldable pub verify_checkout : Checkout → String → Option DriverError
verify_checkout missing expected_sha = some path_missing
verify_checkout file expected_sha = some not_a_directory
verify_checkout (directory none) expected_sha = some head_unknown
verify_checkout (directory (some actual)) expected_sha =
    if str_eq actual expected_sha then none else some (sha_mismatch actual expected_sha)

module _ {Json : Type 0} (setup : Setup Json) where
  -- The repository's number is -1 where the table is not asked or does not know it.
  unfoldable pub path_target : Bool → String → String → RepositoryTarget
  unfolding lookup_repo
  path_target persist full_name repo_sha =
      let local : RepositoryTarget = record {
        repository_id = negsuc 0;
        full_name = full_name;
        sha = repo_sha;
        branch = "main";
      } in
      if persist
      then elim (lookup_repo setup.repositories full_name) [
        | none ↦ local
        | some repo_row ↦ target_of setup repo_row full_name repo_sha
      ]
      else local

  unfoldable pub run_path_mode :
      Checkout → String → String → String → Bool → Course Json → List (Row Json) → Outcome Json
  unfolding verify_checkout path_target run_pipeline
  run_path_mode path full_name repo_sha requirement_id persist course rows =
      elim (verify_checkout path repo_sha) [
        | some e ↦ raises e
        | none ↦
            run_pipeline setup persist (path_target persist full_name repo_sha) requirement_id
              course (course.others rows)
      ]

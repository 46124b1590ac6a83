-- ===== src/Pipeline/Persistence.antt =====
-- src/compliance/pipeline/persistence.py over the table `compliance_runtime_runs` of
-- migrations/005_compliance_runtime_runs.sql.
--
-- The rows stand in the order of their insertion. The two JSON columns are of a type `Json`, and
-- Python's `json` module is a parameter: it writes and reads a result and an evidence bundle.
-- (A tuple is read back as a list, and a status as its text, which is equal to it.) Rows of one
-- second are ordered by their insertion here; SQLite leaves that order open.
pub mod Keys
pub mod Roundtrip
use reguard.Prelude.{
  ℕ, suc, ℤ, int_eq, String, Bool, true, false, ◌&&◌, Option, none, some, List, [], ◌∷◌, ◌++◌, ◌≡◌,
  ltb, length, keep, any, str_eq, if◌then◌else◌,
}
use reguard.Verdict.Types.{Evidence}
use reguard.Verdict.Requirement.{Reason, Result}
use reguard.Pipeline.Types.{RepositoryTarget, RunRecord, status_value, parse_status}

pub record JsonModule (Json : Type 0) : Type 0 where
  pub dump_result : Result → Json
  pub load_result : Json → Option Result
  pub dump_evidence : Evidence → Json
  pub load_evidence : Json → Option Evidence

-- What is dumped can be loaded.
pub record IsFaithful {Json : Type 0} (json : JsonModule Json) : Type 0 where
  pub result_lem : (r : Result) → json.load_result (json.dump_result r) ≡ some r
  pub evidence_lem : (e : Evidence) → json.load_evidence (json.dump_evidence e) ≡ some e

pub record Row (Json : Type 0) : Type 0 where
  pub id : ℕ
  pub repository_id : ℤ
  pub repo_full_name : String
  pub repo_sha : String
  pub repo_branch : String
  pub requirement_id : String
  pub requirement_version : String
  pub runtime_version : String
  pub adapter_name : String
  pub adapter_version : String
  pub status : String
  pub reason : Reason
  pub result_json : Json
  pub evidence_json : Json
  pub scenario_id : String
  pub started_at : String
  pub completed_at : String
  pub duration_seconds : ℕ
  pub created_at : ℕ
  pub schema_version : String

-- The columns of the unique index `idx_crr_dedup`.
pub record DedupKey : Type 0 where
  pub repository_id : ℤ
  pub requirement_id : String
  pub requirement_version : String
  pub repo_sha : String
  pub scenario_id : String
  pub adapter_name : String
  pub adapter_version : String

unfoldable pub same_key : DedupKey → DedupKey → Bool
same_key a b =
    int_eq a.repository_id b.repository_id
    && str_eq a.requirement_id b.requirement_id
    && str_eq a.requirement_version b.requirement_version
    && str_eq a.repo_sha b.repo_sha
    && str_eq a.scenario_id b.scenario_id
    && str_eq a.adapter_name b.adapter_name
    && str_eq a.adapter_version b.adapter_version

unfoldable pub record_key : RunRecord → DedupKey
record_key r = record {
  repository_id = r.repository.repository_id;
  requirement_id = r.requirement_id;
  requirement_version = r.requirement_version;
  repo_sha = r.repository.sha;
  scenario_id = r.scenario_id;
  adapter_name = r.adapter_name;
  adapter_version = r.adapter_version;
}

unfoldable pub row_key : {Json : Type 0} → Row Json → DedupKey
row_key r = record {
  repository_id = r.repository_id;
  requirement_id = r.requirement_id;
  requirement_version = r.requirement_version;
  repo_sha = r.repo_sha;
  scenario_id = r.scenario_id;
  adapter_name = r.adapter_name;
  adapter_version = r.adapter_version;
}

-- What a query by the key finds: no row, a row that cannot be read, or its record.
pub data Loaded : Type 0 where
  absent : Loaded
  corrupt : Loaded
  found : RunRecord → Loaded

module _ {Json : Type 0} (json : JsonModule Json) where
  unfoldable pub new_row : RunRecord → ℕ → ℕ → Row Json
  unfolding status_value
  new_row r id now = record {
    id = id;
    repository_id = r.repository.repository_id;
    repo_full_name = r.repository.full_name;
    repo_sha = r.repository.sha;
    repo_branch = r.repository.branch;
    requirement_id = r.requirement_id;
    requirement_version = r.requirement_version;
    runtime_version = r.runtime_version;
    adapter_name = r.adapter_name;
    adapter_version = r.adapter_version;
    status = status_value r.status;
    reason = r.reason;
    result_json = json.dump_result r.result;
    evidence_json = json.dump_evidence r.evidence;
    scenario_id = r.scenario_id;
    started_at = r.started_at;
    completed_at = r.completed_at;
    duration_seconds = r.duration_seconds;
    created_at = now;
    schema_version = "1";
  }

  -- `none` is the `IntegrityError` of the unique index. No row is ever deleted, so the row's number
  -- is one more than the count.
  unfoldable pub insert_run : ℕ → RunRecord → List (Row Json) → Option (ℕ × List (Row Json))
  unfolding same_key record_key row_key new_row
  insert_run now r rows =
      if any (λ row. same_key (record_key r) (row_key row)) rows
      then none
      else some (suc (length rows), rows ++ (new_row r (suc (length rows)) now ∷ []))

  unfoldable pub row_to_record : Row Json → Loaded
  unfolding parse_status
  row_to_record row = elim (json.load_evidence row.evidence_json) [
    | none ↦ corrupt
    | some evidence ↦ elim (json.load_result row.result_json) [
      | none ↦ corrupt
      | some result ↦ elim (parse_status row.status) [
        | none ↦ corrupt
        | some status ↦ found (record {
          repository = record {
            repository_id = row.repository_id;
            full_name = row.repo_full_name;
            sha = row.repo_sha;
            branch = row.repo_branch;
          };
          requirement_id = row.requirement_id;
          requirement_version = row.requirement_version;
          runtime_version = row.runtime_version;
          adapter_name = row.adapter_name;
          adapter_version = row.adapter_version;
          scenario_id = row.scenario_id;
          status = status;
          reason = row.reason;
          result = result;
          evidence = evidence;
          started_at = row.started_at;
          completed_at = row.completed_at;
          duration_seconds = row.duration_seconds;
          runtime_image_reference = "";
          runtime_image_digest = "";
        })
      ]
    ]
  ]

-- `ORDER BY created_at DESC LIMIT 1`
unfoldable pub newest : {Json : Type 0} → List (Row Json) → Option (Row Json)
newest [] = none
newest (r ∷ rs) = elim (newest rs) [
  | none ↦ some r
  | some s ↦ if ltb r.created_at s.created_at then some s else some r
]

module _ {Json : Type 0} (json : JsonModule Json) where
  unfoldable pub load_run_by_dedup_key : DedupKey → List (Row Json) → Loaded
  unfolding same_key row_key newest row_to_record
  load_run_by_dedup_key key rows = elim (newest (keep (λ row. same_key key (row_key row)) rows)) [
    | none ↦ absent
    | some row ↦ row_to_record json row
  ]

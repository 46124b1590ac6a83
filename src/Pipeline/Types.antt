-- ===== src/Pipeline/Types.antt =====
-- `RepositoryTarget`, `RunRecord`, `RunStatus` as text (src/compliance/pipeline/types.py), and the
-- adapter's interface (src/compliance/adapters/base.py, registry.py).
--
-- A time of day is its ISO text and a duration a number of clock ticks. The default scenario alone
-- is run, so an adapter's `parse_trajectory` takes the trajectory's text only.
use reguard.Prelude.{
  ℕ, ℤ, String, Option, none, some, List, ◌⊎◌, str_eq, find, map_option, if◌then◌else◌,
}
use reguard.Verdict.Types.{Evidence, RunStatus, pass, fail, unknown, unsupported, error}
use reguard.Verdict.Requirement.{Reason, Result}

unfoldable pub status_value : RunStatus → String
status_value pass = "PASS"
status_value fail = "FAIL"
status_value unknown = "UNKNOWN"
status_value unsupported = "UNSUPPORTED"
status_value error = "ERROR"

-- `RunStatus(raw)`; `none` is the `ValueError`.
unfoldable pub parse_status : String → Option RunStatus
parse_status raw =
    if str_eq raw "PASS"
    then some pass
    else if str_eq raw "FAIL"
    then some fail
    else if str_eq raw "UNKNOWN"
    then some unknown
    else if str_eq raw "UNSUPPORTED"
    then some unsupported
    else if str_eq raw "ERROR"
    then some error
    else none

pub record RepositoryTarget : Type 0 where
  pub repository_id : ℤ
  pub full_name : String
  pub sha : String
  pub branch : String

pub record RunRecord : Type 0 where
  pub repository : RepositoryTarget
  pub requirement_id : String
  pub requirement_version : String
  pub runtime_version : String
  pub adapter_name : String
  pub adapter_version : String
  pub scenario_id : String
  pub status : RunStatus
  pub reason : Reason
  pub result : Result
  pub evidence : Evidence
  pub started_at : String
  pub completed_at : String
  pub duration_seconds : ℕ
  pub runtime_image_reference : String
  pub runtime_image_digest : String

-- `RepoAdapter`. `parse_trajectory` raises (`inl`, the exception's `repr`) or gives the evidence.
pub record RepoAdapter : Type 0 where
  pub name : String
  pub version : String
  pub parse_trajectory : String → String ⊎ Evidence

-- `ADAPTER_REGISTRY`
abbrev pub AdapterRegistry : Type 0
AdapterRegistry = List (String × RepoAdapter)

-- `none` is the `KeyError`.
unfoldable pub get_adapter : AdapterRegistry → String → Option RepoAdapter
get_adapter registry full_name = map_option (λ p. p.1) (find (λ p. str_eq p.0 full_name) registry)

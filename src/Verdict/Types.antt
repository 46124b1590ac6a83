-- ===== src/Verdict/Types.antt =====
-- The values of src/compliance/pipeline/types.py that the decision reads and writes.
--
-- `evidence.extra` and an event are Python dicts; each is a record of the keys that the decision
-- reads, an absent key (or `None`) being `none`. A dict's `"framework_artifact_paths"` that is
-- absent or `None` is the empty list, as `or ()` makes it, and an absent
-- `"framework_persists_durably"` is `false`.
use reguard.Prelude.{ℤ, String, Bool, Option, none, some, List, str_eq, if◌then◌else◌}

pub data EvidenceOrigin : Type 0 where
  system_native system_state_exported_by_harness harness_generated : EvidenceOrigin

-- `EvidenceOrigin(raw)`; `none` is the `ValueError`.
unfoldable pub parse_origin : String → Option EvidenceOrigin
parse_origin raw =
    if str_eq raw "SYSTEM_NATIVE"
    then some system_native
    else if str_eq raw "SYSTEM_STATE_EXPORTED_BY_HARNESS"
    then some system_state_exported_by_harness
    else if str_eq raw "HARNESS_GENERATED"
    then some harness_generated
    else none

-- `RunStatus`. The Python members are `PASS`, `FAIL`, `UNKNOWN`, `UNSUPPORTED` and `ERROR`.
pub data RunStatus : Type 0 where
  pass fail unknown unsupported error : RunStatus

pub record Event : Type 0 where
  pub kind : Option String
  pub origin : Option String

pub record Extra : Type 0 where
  pub probe_status : Option String
  pub probe_returncode : Option ℤ
  pub reason : Option String
  pub observation_quality : Option String
  pub recording_category : Option String
  pub framework_persists_durably : Bool
  pub framework_artifact_paths : List String
  pub harness_artifact_paths : List String

pub record Evidence : Type 0 where
  pub schema_version : String
  pub events : List Event
  pub extra : Extra

abbrev pub result_schema_version : String
result_schema_version = "2"

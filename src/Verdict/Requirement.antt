-- ===== src/Verdict/Requirement.antt =====
-- `RequirementTest.evaluate` of src/compliance/requirements/base.py.
--
-- A message is kept as the values that its f-string shows: `Reason` for `Result.reason`, `Detail`
-- for `CheckResult.detail`, `Summary` for the dict `Result.summary`.
use reguard.Prelude.{
  ℕ, ℤ, String, Bool, not, Option, none, some, List, [], ◌∷◌, map, find, length, keep, is_empty,
  str_eq, if◌then◌else◌,
}
use reguard.Verdict.Types.{Evidence, RunStatus, pass, fail, unknown, error, result_schema_version}

pub data Detail : Type 0 where
  harness_events : ℕ → Detail
  non_error_events : ℕ → ℕ → Detail
  persistence : String → Bool → List String → List String → Detail
  eligible_steps : ℕ → ℕ → Detail
  external_recorder : List String → Detail
  ephemeral_state : Detail
  no_recording : List String → Bool → Bool → Detail
  unknown_category : String → Detail

pub record CheckResult : Type 0 where
  pub name : String
  pub passed : Bool
  pub detail : Detail

pub data Reason : Type 0 where
  schema_mismatch : String → Reason
  unclean_probe : String → Option String → Reason
  no_events : Reason
  all_checks_passed : Reason
  checks_failed : ℕ → List String → Reason

pub data Summary : Type 0 where
  of_schema : String → Summary
  of_probe : String → Option ℤ → ℕ → Summary
  of_absence : Summary
  -- `check_count`, `failed_count`, `event_count`, `observation_quality`
  of_checks : ℕ → ℕ → ℕ → Option String → Summary

pub record Result : Type 0 where
  pub status : RunStatus
  pub reason : Reason
  pub checks : List CheckResult
  pub summary : Summary

-- A subclass: its `id`, its `version` and its `assert_evidence`, whose generator is run to its end.
pub record RequirementTest : Type 0 where
  pub id : String
  pub version : String
  pub assert_evidence : Evidence → List CheckResult

-- `[c for c in checks if not c.passed]`
abbrev pub failed : List CheckResult → List CheckResult
failed = keep (λ c. not c.passed)

-- The reduction that both branches with checks write out.
unfoldable pub reduce : List CheckResult → ℕ → Option String → Result
reduce checks event_count quality = record {
  status = if is_empty (failed checks) then pass else fail;
  reason =
      if is_empty (failed checks)
      then all_checks_passed
      else checks_failed (length (failed checks)) (map (λ c. c.name) (failed checks));
  checks = checks;
  summary = of_checks (length checks) (length (failed checks)) event_count quality;
}

-- `not evidence.events`: the adapter's `observed_absence` alone lets the requirement decide.
unfoldable pub evaluate_empty : RequirementTest → Evidence → Option String → Result
unfolding reduce
evaluate_empty test evidence none = record {
  status = unknown;
  reason = no_events;
  checks = [];
  summary = of_absence;
}
evaluate_empty test evidence (some quality) =
    if str_eq quality "observed_absence"
    then reduce (test.assert_evidence evidence) 0 (some quality)
    else record { status = unknown; reason = no_events; checks = []; summary = of_absence }

unfoldable pub evaluate_events : RequirementTest → Evidence → Result
unfolding reduce evaluate_empty
evaluate_events test evidence =
    if is_empty evidence.events
    then evaluate_empty test evidence evidence.extra.observation_quality
    else reduce (test.assert_evidence evidence) (length evidence.events) none

-- `probe_status is not None and probe_status != "ok"` is an error of the run.
unfoldable pub evaluate_probed : RequirementTest → Evidence → Option String → Result
unfolding evaluate_events
evaluate_probed test evidence none = evaluate_events test evidence
evaluate_probed test evidence (some probe) =
    if str_eq probe "ok" then evaluate_events test evidence else record {
      status = error;
      reason = unclean_probe probe evidence.extra.reason;
      checks = [];
      summary = of_probe probe evidence.extra.probe_returncode (length evidence.events);
    }

unfoldable pub evaluate : RequirementTest → Evidence → Result
unfolding evaluate_probed
evaluate test evidence =
    if str_eq evidence.schema_version result_schema_version
    then evaluate_probed test evidence evidence.extra.probe_status
    else record {
      status = error;
      reason = schema_mismatch evidence.schema_version;
      checks = [];
      summary = of_schema evidence.schema_version;
    }

-- `REQUIREMENT_REGISTRY`, and `get_requirement`; `none` is the `KeyError`.
abbrev pub Registry : Type 0
Registry = List RequirementTest

-- `REQUIREMENT_REGISTRY[test.id] = test`: a dict keeps a replaced key at its place.
unfoldable pub register_requirement : RequirementTest → Registry → Registry
register_requirement test [] = test ∷ []
register_requirement test (t ∷ ts) =
    if str_eq t.id test.id then test ∷ ts else t ∷ register_requirement test ts

unfoldable pub get_requirement : Registry → String → Option RequirementTest
get_requirement registry id = find (λ t. str_eq t.id id) registry

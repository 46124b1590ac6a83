-- ===== src/Verdict/Article.antt =====
-- `Article121AutomaticLoggingTest` of src/compliance/requirements/ai_act/article_12_1.py.
pub mod Recording
pub mod Passing
mod Examples
use reguard.Prelude.{
  ltb, String, Bool, true, false, not, ◌&&◌, ◌||◌, Option, none, some, List, [], ◌∷◌, length, keep,
  any, count, is_empty, str_eq, if◌then◌else◌,
}
use reguard.Verdict.Types.{
  EvidenceOrigin, system_native, system_state_exported_by_harness, harness_generated, parse_origin,
  Event, Evidence,
}
use reguard.Verdict.Requirement.{
  CheckResult, RequirementTest, harness_events, non_error_events, persistence, eligible_steps,
  external_recorder, ephemeral_state, no_recording, unknown_category,
}

-- `_origin`: a missing, empty or unknown origin is `none`.
origin_of : Option String → Option EvidenceOrigin
unfolding parse_origin
origin_of none = none
origin_of (some raw) = if str_eq raw "" then none else parse_origin raw

origin : Event → Option EvidenceOrigin
unfolding origin_of
origin event = origin_of event.origin

-- `_origin(event) in _PASS_ELIGIBLE_ORIGINS`
is_eligible_origin : Option EvidenceOrigin → Bool
is_eligible_origin (some system_native) = true
is_eligible_origin (some system_state_exported_by_harness) = true
is_eligible_origin _ = false

-- `_origin(event) == EvidenceOrigin.HARNESS_GENERATED`
is_harness : Option EvidenceOrigin → Bool
is_harness (some harness_generated) = true
is_harness _ = false

-- `raw == name`, where `raw` may be `None`
kind_is : String → Option String → Bool
kind_is name none = false
kind_is name (some kind) = str_eq kind name

-- `event.get("kind") in _VALID_STEP_KINDS`
is_step_kind : Event → Bool
unfolding kind_is
is_step_kind event =
    kind_is "step" event.kind || kind_is "tool" event.kind || kind_is "model" event.kind

is_fatal_error : Event → Bool
unfolding kind_is
is_fatal_error event = kind_is "error" event.kind

-- One event of `_eligible_events(events, _VALID_STEP_KINDS)`.
is_eligible_step : Event → Bool
unfolding is_step_kind origin is_eligible_origin
is_eligible_step event = is_step_kind event && is_eligible_origin (origin event)

eligible_events : List Event → List Event
unfolding is_eligible_step
eligible_events = keep is_eligible_step

-- `evidence.extra.get("recording_category") or "E"`
category_or_e : Option String → String
category_or_e none = "E"
category_or_e (some name) = if str_eq name "" then "E" else name

category : Evidence → String
unfolding category_or_e
category evidence = category_or_e evidence.extra.recording_category

harness_generated_events : List Event → List Event
unfolding origin is_harness
harness_generated_events = keep (λ e. is_harness (origin e))

provenance_check : List Event → CheckResult
unfolding harness_generated_events
provenance_check events = record {
  name = "NO_HARNESS_GENERATED_EVENTS";
  passed = is_empty (harness_generated_events events);
  detail = harness_events (length (harness_generated_events events));
}

presence_check : List Event → CheckResult
unfolding is_fatal_error
presence_check events = record {
  name = "AT_LEAST_ONE_EVENT";
  passed = ltb 0 (length (keep (λ e. not (is_fatal_error e)) events));
  detail = non_error_events (length (keep (λ e. not (is_fatal_error e)) events)) (length events);
}

persistence_check : Evidence → CheckResult
unfolding category
persistence_check evidence = record {
  name = "RECORDING_CATEGORY_FRAMEWORK_PERSISTS";
  passed = extra.framework_persists_durably && ltb 0 (length extra.framework_artifact_paths);
  detail =
      persistence (category evidence) extra.framework_persists_durably
        extra.framework_artifact_paths extra.harness_artifact_paths;
}
  where
    open evidence use {extra}

step_check : List Event → CheckResult
unfolding eligible_events is_step_kind
step_check events = record {
  name = "STEP_OR_TOOL_KIND_PRESENT";
  passed = ltb 0 (length (eligible_events events));
  detail = eligible_steps (length (eligible_events events)) (count is_step_kind events);
}

no_recording_check : Evidence → CheckResult
unfolding origin is_eligible_origin
no_recording_check evidence = record {
  name = "RECORDING_CATEGORY_E_NON_PASS";
  passed = false;
  detail = no_recording paths any_eligible (is_empty paths && not any_eligible);
}
  where
    paths : List String
    paths = evidence.extra.framework_artifact_paths

    any_eligible : Bool
    any_eligible = any (λ e. is_eligible_origin (origin e)) evidence.events

-- The checks that depend on the recording category.
category_checks : String → Evidence → List CheckResult
unfolding persistence_check step_check no_recording_check
category_checks c evidence =
    if str_eq c "A" || str_eq c "B"
    then persistence_check evidence ∷ step_check evidence.events ∷ []
    else if str_eq c "C"
    then record {
      name = "RECORDING_CATEGORY_NON_PASS_C";
      passed = false;
      detail = external_recorder evidence.extra.harness_artifact_paths;
    }
      ∷ []
    else if str_eq c "D"
    then record { name = "RECORDING_CATEGORY_NON_PASS_D"; passed = false; detail = ephemeral_state }
      ∷ []
    else if str_eq c "E"
    then no_recording_check evidence ∷ []
    else record { name = "RECORDING_CATEGORY_KNOWN"; passed = false; detail = unknown_category c }
      ∷ []

pub assert_evidence : Evidence → List CheckResult
unfolding provenance_check presence_check
assert_evidence evidence =
    provenance_check evidence.events
    ∷ presence_check evidence.events
    ∷ category_checks (category evidence) evidence

abbrev pub article_12_1 : RequirementTest
article_12_1 = record {
  id = "AI_ACT_12_1_AUTOMATIC_EVENT_LOGGING";
  version = "1.4.0";
  assert_evidence = assert_evidence;
}

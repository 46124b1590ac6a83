-- ===== src/Integrations/Normalizer.antt =====
-- src/compliance/integrations/normalizer.py and the observation of observer.py: what the base
-- normalizer makes of a stream of observations.
--
-- `name` and `content`, which are handed on, are any JSON values; `extra` of an observation is not
-- read.
pub mod Attestation
use reguard.Prelude.{
  String, Bool, true, false, not, ◌&&◌, ◌||◌, List, [], ◌∷◌, map, any, is_empty, str_eq,
  if◌then◌else◌,
}
use reguard.Integrations.Yaml.{Yaml}

pub record NativeObservation : Type 0 where
  pub kind : String
  pub producer : String
  pub name : Yaml
  pub content : Yaml
  pub ts : String
  pub framework_artifact_ref : String

pub record CanonicalEvent : Type 0 where
  pub kind : String
  pub origin : String
  pub ts : String
  pub name : Yaml
  pub content : Yaml

-- `recording_category`, `recipe_id` and `recipe_version` are the entries of `extra`.
pub record NormalizerResult : Type 0 where
  pub canonical_events : List CanonicalEvent
  pub framework_persists_durably : Bool
  pub framework_artifact_paths : List String
  pub harness_artifact_paths : List String
  pub recording_category : String
  pub recipe_id : String
  pub recipe_version : String

-- `PRODUCER_TO_ORIGIN.get(producer, "HARNESS_GENERATED")`
unfoldable pub producer_to_origin : String → String
producer_to_origin producer =
    if str_eq producer "system"
    then "SYSTEM_NATIVE"
    else if str_eq producer "system_state"
    then "SYSTEM_STATE_EXPORTED_BY_HARNESS"
    else "HARNESS_GENERATED"

abbrev pub canonical_event_kinds : List String
canonical_event_kinds =
    "step" ∷ "tool" ∷ "model" ∷ "tool_error" ∷ "error" ∷ "exit" ∷ "message" ∷ "checkpoint"
    ∷ "permission_request" ∷ "permission_decision" ∷ "browser_navigate" ∷ "browser_action"
    ∷ "browser_observation" ∷ "completion" ∷ []

-- `obs.kind if obs.kind in CANONICAL_EVENT_KINDS else "step"`
unfoldable pub canonical_kind : String → String
canonical_kind kind = if any (λ k. str_eq k kind) canonical_event_kinds then kind else "step"

unfoldable pub canonical_event : NativeObservation → CanonicalEvent
unfolding producer_to_origin canonical_kind
canonical_event obs = record {
  kind = canonical_kind obs.kind;
  origin = producer_to_origin obs.producer;
  ts = obs.ts;
  name = obs.name;
  content = obs.content;
}

abbrev pub is_system_origin : String → Bool
is_system_origin origin =
    str_eq origin "SYSTEM_NATIVE" || str_eq origin "SYSTEM_STATE_EXPORTED_BY_HARNESS"

-- `framework_artifacts` after the loop
unfoldable pub framework_artifacts : List NativeObservation → List String
unfolding producer_to_origin
framework_artifacts [] = []
framework_artifacts (obs ∷ rest) =
    if not (str_eq obs.framework_artifact_ref "")
      && is_system_origin (producer_to_origin obs.producer)
    then obs.framework_artifact_ref ∷ framework_artifacts rest
    else framework_artifacts rest

-- `harness_artifacts` after the loop
unfoldable pub harness_artifacts : List NativeObservation → List String
unfolding producer_to_origin
harness_artifacts [] = []
harness_artifacts (obs ∷ rest) =
    if not (str_eq obs.framework_artifact_ref "")
      && not (is_system_origin (producer_to_origin obs.producer))
    then obs.framework_artifact_ref ∷ harness_artifacts rest
    else harness_artifacts rest

unfoldable pub framework_persists : List CanonicalEvent → List String → Bool
framework_persists events artifacts =
    any (λ e. is_system_origin e.origin) events && not (is_empty artifacts)

unfoldable pub normalize : List NativeObservation → String → String → NormalizerResult
unfolding canonical_event framework_artifacts harness_artifacts framework_persists
normalize [] recipe_id recipe_version = record {
  canonical_events = [];
  framework_persists_durably = false;
  framework_artifact_paths = [];
  harness_artifact_paths = [];
  recording_category = "E";
  recipe_id = recipe_id;
  recipe_version = recipe_version;
}
normalize (obs ∷ rest) recipe_id recipe_version = record {
  canonical_events = map canonical_event (obs ∷ rest);
  framework_persists_durably =
      framework_persists (map canonical_event (obs ∷ rest)) (framework_artifacts (obs ∷ rest));
  framework_artifact_paths = framework_artifacts (obs ∷ rest);
  harness_artifact_paths = harness_artifacts (obs ∷ rest);
  recording_category =
      if framework_persists (map canonical_event (obs ∷ rest)) (framework_artifacts (obs ∷ rest))
      then "B"
      else "D";
  recipe_id = recipe_id;
  recipe_version = recipe_version;
}

-- ===== src/Integrations/Langgraph/Family.antt =====
-- `LangGraphStateNormalizer` of src/compliance/integrations/families/langgraph_state/normalizer.py.
use reguard.Prelude.{
  String, Bool, false, not, ◌&&◌, ◌||◌, List, [], ◌∷◌, map, any, is_empty, str_eq, if◌then◌else◌,
}
use reguard.Integrations.Normalizer.{
  NativeObservation, CanonicalEvent, NormalizerResult, producer_to_origin, canonical_kind,
  framework_artifacts, harness_artifacts,
}
use reguard.Integrations.Recipe.{NamedNormalizer}

-- `_KIND_MAP.get(kind, kind)`; the entries that map a kind to itself are left out.
unfoldable pub kind_map : String → String
kind_map kind =
    if str_eq kind "model_request" || str_eq kind "model_response"
    then "model"
    else if str_eq kind "tool_invocation" || str_eq kind "tool_result"
    then "tool"
    else if str_eq kind "state_checkpoint"
    then "checkpoint"
    else if str_eq kind "message_emitted"
    then "message"
    else kind

unfoldable pub family_event : NativeObservation → CanonicalEvent
unfolding producer_to_origin canonical_kind kind_map
family_event obs = record {
  kind = canonical_kind (kind_map obs.kind);
  origin = producer_to_origin obs.producer;
  ts = obs.ts;
  name = obs.name;
  content = obs.content;
}

-- `bool(framework_artifacts) and (any_system_native or any_system_state)`
unfoldable pub family_persists : List NativeObservation → Bool
unfolding framework_artifacts producer_to_origin
family_persists obs =
    not (is_empty (framework_artifacts obs))
    && (any (λ o. str_eq (producer_to_origin o.producer) "SYSTEM_NATIVE") obs
        || any (λ o. str_eq (producer_to_origin o.producer) "SYSTEM_STATE_EXPORTED_BY_HARNESS") obs)

-- `LangGraphStateNormalizer.normalize`
unfoldable pub family_normalize : List NativeObservation → String → String → NormalizerResult
unfolding family_event family_persists framework_artifacts harness_artifacts
family_normalize [] recipe_id recipe_version = record {
  canonical_events = [];
  framework_persists_durably = false;
  framework_artifact_paths = [];
  harness_artifact_paths = [];
  recording_category = "E";
  recipe_id = recipe_id;
  recipe_version = recipe_version;
}
family_normalize (obs ∷ rest) recipe_id recipe_version = record {
  canonical_events = map family_event (obs ∷ rest);
  framework_persists_durably = family_persists (obs ∷ rest);
  framework_artifact_paths = framework_artifacts (obs ∷ rest);
  harness_artifact_paths = harness_artifacts (obs ∷ rest);
  recording_category =
      if family_persists (obs ∷ rest)
      then "B"
      else if not (is_empty (map family_event (obs ∷ rest)))
      then "D"
      else "E";
  recipe_id = recipe_id;
  recipe_version = recipe_version;
}

unfoldable pub langgraph_normalizer : NamedNormalizer
unfolding family_normalize
langgraph_normalizer = record {
  normalizer_id = "langgraph-state.canonical-normalizer";
  normalizer_version = "1.0.0";
  normalize = family_normalize;
}

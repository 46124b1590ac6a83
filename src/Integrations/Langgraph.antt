-- ===== src/Integrations/Langgraph.antt =====
-- The one family that is shipped, src/compliance/integrations/families/langgraph_state: its observer
-- (observer.py), its normalizer (normalizer.py) and its recipe's `resolve` and dry run (recipe.py).
--
-- The rows of a trajectory file are a parameter of the run's output, JSON being read by Python; each is
-- an object, and so is each message, whose `tool_calls`, if they are given, are a list. What a factory of the user's makes of a run is a parameter too.
pub mod Family
pub mod Translation
pub mod Observation
use reguard.Prelude.{
  String, Bool, true, false, not, ◌&&◌, ◌||◌, Option, none, some, List, [], ◌∷◌, ◌++◌, map, any,
  is_empty, length, str_eq, if◌then◌else◌,
}
use reguard.Integrations.Yaml.{
  Yaml, null, text, number, mapping, Entries, nil, entry, get_or, is_truthy, is_text, items, seq,
}
use reguard.Integrations.Normalizer.{
  NativeObservation, CanonicalEvent, NormalizerResult, producer_to_origin, canonical_kind,
  is_system_origin, framework_artifacts, harness_artifacts,
}
use reguard.Integrations.Recipe.{
  Builtins, EntrypointKind, python_dotted, python_callable, cli_command, RecipeConfig,
  RecipeResolution, ExecutionRecipe, ObserverSet, NamedNormalizer, base_resolve,
}

pub data Graph : Type 0 where
  no_graph dry_run compiled : Graph

pub record LangGraphRunOutput : Type 0 where
  pub graph : Graph
  pub trajectory_path : String
  pub rows : List Entries
  pub messages : List Entries

-- `_dry_run_observations`, one message
unfoldable pub dry_message : Entries → List NativeObservation
unfolding get_or is_text
dry_message msg =
    if is_text "user" (get_or null "role" msg)
    then record {
      kind = "message_emitted";
      producer = "system";
      name = text "user_prompt";
      content = get_or (text "") "content" msg;
      ts = "";
      framework_artifact_ref = "";
    }
      ∷ []
    else if is_text "assistant" (get_or null "role" msg)
    then record {
      kind = "model_response";
      producer = "system";
      name = text "assistant";
      content = get_or (text "") "content" msg;
      ts = "";
      framework_artifact_ref = "";
    }
      ∷ []
    else []

unfoldable pub dry_messages : List Entries → List NativeObservation
unfolding dry_message
dry_messages [] = []
dry_messages (m ∷ ms) = dry_message m ++ dry_messages ms

unfoldable pub dry_run_observations : LangGraphRunOutput → List NativeObservation
unfolding dry_messages
dry_run_observations output =
    record {
      kind = "model_request";
      producer = "harness";
      name = text "deterministic-stub";
      content = mapping (entry "messages_count" (number (length output.messages)) nil);
      ts = "";
      framework_artifact_ref = "";
    }
    ∷ (dry_messages output.messages
        ++ (if str_eq output.trajectory_path ""
            then []
            else record {
              kind = "state_checkpoint";
              producer = "system_state";
              name = text "trajectory";
              content = mapping (entry "path" (text output.trajectory_path) nil);
              ts = "";
              framework_artifact_ref = output.trajectory_path;
            }
              ∷ []))

-- One row of the trajectory file
unfoldable pub row_observation : Builtins → String → Entries → List NativeObservation
unfolding get_or is_text
row_observation py path row =
    if is_text "step" (get_or null "event" row)
    then record {
      kind = "step";
      producer = "system_state";
      name = get_or (text "step") "role" row;
      content = get_or (text "") "content" row;
      ts = py.str (get_or (text "") "ts" row);
      framework_artifact_ref = "";
    }
      ∷ []
    else if is_text "model_response" (get_or null "event" row)
    then record {
      kind = "model";
      producer = "system_state";
      name = get_or (text "model") "name" row;
      content = get_or (text "") "content" row;
      ts = py.str (get_or (text "") "ts" row);
      framework_artifact_ref = path;
    }
      ∷ []
    else if is_text "tool_invocation" (get_or null "event" row)
    then record {
      kind = "tool";
      producer = "system_state";
      name = get_or (text "tool") "name" row;
      content = get_or null "args" row;
      ts = py.str (get_or (text "") "ts" row);
      framework_artifact_ref = path;
    }
      ∷ []
    else []

unfoldable pub row_observations : Builtins → String → List Entries → List NativeObservation
unfolding row_observation
row_observations py path [] = []
row_observations py path (r ∷ rs) = row_observation py path r ++ row_observations py path rs

unfoldable pub state_observation : String → String → Yaml → Yaml → String → NativeObservation
state_observation kind producer name content path = record {
  kind = kind;
  producer = producer;
  name = name;
  content = content;
  ts = "";
  framework_artifact_ref = path;
}

-- `tool_calls`; a call that is no object is left out of the model.
unfoldable pub tool_calls : String → List Yaml → List NativeObservation
unfolding state_observation get_or
tool_calls path [] = []
tool_calls path (mapping tc ∷ rest) =
    state_observation "tool" "system_state" (get_or (text "tool") "name" tc) (get_or null "args" tc)
      path
    ∷ tool_calls path rest
tool_calls path (_ ∷ rest) = tool_calls path rest

-- `msg.get("tool_calls") or []`
unfoldable pub calls_of : Yaml → List Yaml
unfolding items
calls_of (seq vs) = items vs
calls_of _ = []

-- `msg.get("role") or msg.get("type") or "system"`
unfoldable pub role_of : Entries → Yaml
unfolding get_or is_truthy
role_of msg =
    if is_truthy (get_or null "role" msg)
    then get_or null "role" msg
    else if is_truthy (get_or null "type" msg)
    then get_or null "type" msg
    else text "system"

unfoldable pub message_observations : String → Entries → List NativeObservation
unfolding state_observation tool_calls calls_of role_of get_or is_text
message_observations path msg =
    if is_text "user" (role_of msg) || is_text "human" (role_of msg)
    then state_observation "message_emitted" "system_state" (text "user")
        (get_or (text "") "content" msg) path
      ∷ []
    else if is_text "assistant" (role_of msg) || is_text "ai" (role_of msg)
    then state_observation "model" "system_state" (text "assistant")
        (get_or (text "") "content" msg) path
      ∷ tool_calls path (calls_of (get_or null "tool_calls" msg))
    else []

unfoldable pub final_messages : String → List Entries → List NativeObservation
unfolding message_observations
final_messages path [] = []
final_messages path (m ∷ ms) = message_observations path m ++ final_messages path ms

-- `_graph_observations`: the file's rows, or where it has none the final messages and a checkpoint.
unfoldable pub graph_observations : Builtins → LangGraphRunOutput → List NativeObservation
unfolding row_observations final_messages state_observation
graph_observations py output =
    if not (is_empty output.rows)
    then row_observations py output.trajectory_path output.rows
    else final_messages output.trajectory_path output.messages
      ++ (if str_eq output.trajectory_path ""
          then []
          else state_observation "state_checkpoint" "system_state" (text "checkpoint") null
              output.trajectory_path
            ∷ [])

-- What one call of `observe` appends
unfoldable pub seen_in : Builtins → Graph → LangGraphRunOutput → List NativeObservation
unfolding dry_run_observations graph_observations
seen_in py no_graph output = []
seen_in py dry_run output = dry_run_observations output
seen_in py compiled output = graph_observations py output

-- `LangGraphStateObserverSet`: `observe` extends the buffer and returns all of it.
unfoldable pub langgraph_observer : Builtins → ObserverSet LangGraphRunOutput
unfolding seen_in
langgraph_observer py = record {
  observer_id = "langgraph-state.callback-observer";
  observer_version = "1.0.0";
  prepare = λ output buffer. [];
  observe = λ output buffer.
      some (buffer ++ seen_in py output.graph output, buffer ++ seen_in py output.graph output);
  finalize = λ output buffer. some (buffer, []);
}

-- `LangGraphStateRecipe.resolve`; its `IntegrationConfigError` is a `ValueError`.
unfoldable pub resolve_for : EntrypointKind → Option RecipeResolution → Option RecipeResolution
resolve_for python_dotted r = r
resolve_for python_callable r = r
resolve_for cli_command r = none

unfoldable pub langgraph_resolve : Builtins → RecipeConfig → Option RecipeResolution
unfolding base_resolve resolve_for
langgraph_resolve py config = resolve_for config.entrypoint_kind (base_resolve py config)

-- `_run_dry`: the temporary file's path is a parameter, and no row is written to it.
unfoldable pub run_dry : String → String → LangGraphRunOutput
run_dry trajectory_path user_prompt = record {
  graph = dry_run;
  trajectory_path = trajectory_path;
  rows = [];
  messages =
      entry "role" (text "user") (entry "content" (text user_prompt) nil)
      ∷ entry "role" (text "assistant") (entry "content" (text "dry-run completion") nil)
      ∷ [];
}

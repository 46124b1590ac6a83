-- ===== src/Integrations/Examples.antt =====
-- Runs of the resolver and of `reguard check` on a small configuration.
use reguard.Prelude.{String, true, false, none, some, [], ◌∷◌, ◌++◌, ◌≡◌, ◌≢◌, refl, ◌⊎◌, ◌↔◌}
use reguard.Verdict.Types.{pass, fail, unknown}
use reguard.Verdict.Requirement.{evaluate}
use reguard.Verdict.Article.{article_12_1}
use reguard.Integrations.Yaml.{
  null, text, seq, mapping, end, item, Entries, nil, entry, lookup, get_or, items, keys, is_truthy,
  is_text, is_null, valid, invalid, not_a_mapping,
}
use reguard.Integrations.Registry.{get, latest}
use reguard.Integrations.Recipe.{
  Builtins, python_dotted, RecipeConfig, ExecutionRecipe, resolve_python, resolve_kind,
  base_resolve,
}
use reguard.Integrations.Build.{
  repo_local_yml, unresolved, Registries, RepositoryIntegration, check_schema_version, or_none,
  as_mapping, as_name, or_mapping, as_items, tuple_of, tuple_or, registered, recipe_of,
  observer_entry, observer_of, observers_of, normalizer_of, resolve_root, check_scenarios,
  check_resolves, parts_of, config_of, build_integration,
}
use reguard.Integrations.Build.Sound.{IsSound}
use reguard.Integrations.Resolver.{
  Files, ResolverOutcome, IntegrationResolver, top_level, load_yml, outcome_of, attempt, from_file,
  resolve_local, resolve,
}
use reguard.Integrations.Resolver.Escape.{
  file_read, IsRefused, resolve-invalid_iff, resolve-IsSound,
}
use reguard.Integrations.Normalizer.{NativeObservation, NormalizerResult, normalize}
use reguard.Integrations.Normalizer.Attestation.{Attested, normalize-pass_iff}
use reguard.Integrations.Langgraph.{
  LangGraphRunOutput, seen_in, langgraph_observer, resolve_for, langgraph_resolve, run_dry,
}
use reguard.Integrations.Langgraph.Family.{langgraph_normalizer}
use reguard.Integrations.Langgraph.Observation.{watch-langgraph_observer}
use reguard.Integrations.Check.{evidence_of, integration_status, watch}
use reguard.Integrations.Check.Verdicts.{integration_status-evaluate}

abbrev checkpoint : NativeObservation
checkpoint = record {
  kind = "state_snapshot";
  producer = "system_state";
  name = text "graph";
  content = null;
  ts = "t0";
  framework_artifact_ref = "checkpoints.sqlite";
}

abbrev echo : NativeObservation
echo = record checkpoint { kind = "message"; producer = "harness"; framework_artifact_ref = "" }

abbrev seen : NormalizerResult
unfolding normalize
seen = normalize (checkpoint ∷ echo ∷ []) "langgraph" "1"

integration_status-evaluate_example :
    ((seen.canonical_events ≢ [])
      × (integration_status article_12_1 seen ≡ (evaluate article_12_1 (evidence_of seen)).status))
    ⊎ ((seen.canonical_events ≡ [])
        × (integration_status article_12_1 seen ≡ fail)
        × ((evaluate article_12_1 (evidence_of seen)).status ≡ unknown))
integration_status-evaluate_example = integration_status-evaluate seen

normalize-pass_iff_example :
    (integration_status article_12_1 (normalize (checkpoint ∷ []) "langgraph" "1") ≡ pass)
    ↔ Attested (checkpoint ∷ [])
normalize-pass_iff_example = normalize-pass_iff (checkpoint ∷ []) "langgraph" "1"

abbrev py : Builtins
py = record {
  partition = λ s. some ("graph", "make");
  strip = λ s. s;
  str = λ v. "1";
  chars = λ s. [];
  parent = λ s. "/repo";
  joined = λ a b. b;
  is_absolute = λ s. false;
}

abbrev output : LangGraphRunOutput
unfolding run_dry
output = run_dry "/tmp/run.jsonl" "Say hello and exit."

watch-langgraph_observer_example :
    watch output ((langgraph_observer py, []) ∷ [])
    ≡ some (seen_in py output.graph output ++ seen_in py output.graph output)
watch-langgraph_observer_example = watch-langgraph_observer py output []

abbrev recipe : ExecutionRecipe LangGraphRunOutput
recipe = record {
  recipe_id = "langgraph-state";
  recipe_version = "1.0.0";
  supported_scenarios = "compliance.article12_1.simple" ∷ [];
  resolve = langgraph_resolve py;
  run = λ r. some (run_dry "/tmp/run.jsonl" "Say hello and exit.");
}

abbrev family : Registries LangGraphRunOutput
family = record {
  recipes = record { id = "langgraph-state"; version = "1.0.0"; entry = recipe } ∷ [];
  observers =
      record {
        id = "langgraph-state.callback-observer";
        version = "1.0.0";
        entry = langgraph_observer py;
      }
      ∷ [];
  normalizers =
      record {
        id = "langgraph-state.canonical-normalizer";
        version = "1.0.0";
        entry = langgraph_normalizer;
      }
      ∷ [];
}

abbrev config : RecipeConfig
config = record {
  recipe_id = "langgraph-state";
  recipe_version = "1.0.0";
  package_root = text "/repo";
  entrypoint_kind = python_dotted;
  entrypoint_target = "graph:make";
  async_mode = false;
  required_env = [];
  forbidden_env = text "OPENAI_API_KEY" ∷ [];
  observer_ids = "langgraph-state.callback-observer" ∷ [];
  supported_scenarios = text "compliance.article12_1.simple" ∷ [];
  params = mapping nil;
}

abbrev dry_integration : RepositoryIntegration LangGraphRunOutput
dry_integration = record {
  full_name = "langchain-ai/langgraph";
  recipe = recipe;
  recipe_config = config;
  observers = langgraph_observer py ∷ [];
  normalizer = langgraph_normalizer;
  source = repo_local_yml;
  config_path = some "/repo/reguard.yml";
}

abbrev block : Entries
block = entry "recipe" (text "langgraph-state") (
    entry "entrypoint" (mapping (entry "target" (text "graph:make") nil)) (
      entry "observers" (seq (item (text "langgraph-state.callback-observer") end)) (
        entry "normalizer" (mapping (entry "id" (text "langgraph-state.canonical-normalizer") nil))
          (entry "forbidden_env" (seq (item (text "OPENAI_API_KEY") end)) nil))))

abbrev reguard_yml : Entries
reguard_yml =
    entry "integration" (mapping block)
      (entry "scenarios" (seq (item (text "compliance.article12_1.simple") end)) nil)

abbrev files : Files
files = record { has_yaml = true; exists = λ p. true; load = λ p. some (mapping reguard_yml) }

abbrev listed : Files
listed = record { has_yaml = true; exists = λ p. true; load = λ p. some (seq end) }

abbrev resolver : IntegrationResolver
resolver = record { builtins = []; legacy = none }

resolve-invalid_iff_example :
    (resolve py family listed resolver "a/b" none (some "x.yml") ≡ invalid not_a_mapping) ↔ (
      (read : String) × (file_read listed none (some "x.yml") ≡ some read)
      × IsRefused listed read not_a_mapping)
resolve-invalid_iff_example =
    resolve-invalid_iff py family listed resolver "a/b" none (some "x.yml") not_a_mapping

abbrev resolved : ResolverOutcome LangGraphRunOutput
resolved = record {
  integration = some dry_integration;
  unsupported_reason = none;
  source = unresolved;
}

resolves_here :
    resolve py family files resolver "langchain-ai/langgraph" (some "/repo") none ≡ valid resolved
unfolding resolve resolve_local from_file load_yml top_level attempt outcome_of build_integration
    parts_of config_of check_schema_version as_mapping as_name or_mapping as_items tuple_or tuple_of
    recipe_of or_none registered observer_entry observer_of observers_of normalizer_of resolve_root
    check_resolves check_scenarios get_or lookup items keys is_truthy is_text is_null get latest
    langgraph_resolve base_resolve resolve_kind resolve_python resolve_for langgraph_observer
resolves_here = refl

resolve-IsSound_example : IsSound py family dry_integration
resolve-IsSound_example =
    resolve-IsSound py family files resolver "langchain-ai/langgraph" (some "/repo") none resolved
      dry_integration resolves_here refl

-- ===== src/Integrations/Build.antt =====
-- `_build_integration` and `validate_env` of src/compliance/integrations/integration.py.
pub mod Pieces
pub mod Sound
pub mod Environment
use reguard.Prelude.{
  String, Bool, true, false, not, ◌&&◌, ◌||◌, Option, none, some, List, [], ◌∷◌, map, any, is_empty,
  find, str_eq, if◌then◌else◌,
}
use reguard.Integrations.Yaml.{
  Yaml, null, text, flag, number, seq, mapping, Items, end, item, Entries, nil, entry, lookup,
  get_or, items, keys, is_truthy, is_text, Checked, valid, invalid, crash, ◌>>=◌, ◌>>◌, require,
  ConfigError, unsupported_schema_version, no_integration_block, bad_recipe, unknown_recipe,
  no_observers, bad_observer_entry, bad_observer_id, unknown_observer, bad_normalizer,
  bad_normalizer_id, unknown_normalizer, bad_entrypoint, no_entrypoint_target, rejected_entrypoint,
  bad_model, unsupported_model, no_scenarios, unsupported_scenario, env_is_forbidden,
  env_is_missing,
}
use reguard.Integrations.Registry.{Registered, get}
use reguard.Integrations.Recipe.{
  Builtins, EntrypointKind, python_dotted, RecipeConfig, RecipeResolution, ExecutionRecipe,
  ObserverSet, NamedNormalizer,
}

pub data ResolutionSource : Type 0 where
  explicit_config repo_local_yml builtin_manifest legacy_adapter unresolved : ResolutionSource

pub record Registries (Output : Type 0) : Type 0 where
  pub recipes : List (Registered (ExecutionRecipe Output))
  pub observers : List (Registered (ObserverSet Output))
  pub normalizers : List (Registered NamedNormalizer)

pub record RepositoryIntegration (Output : Type 0) : Type 0 where
  pub full_name : String
  pub recipe : ExecutionRecipe Output
  pub recipe_config : RecipeConfig
  pub observers : List (ObserverSet Output)
  pub normalizer : NamedNormalizer
  pub source : ResolutionSource
  pub config_path : Option String

-- `str(cfg.get("schema_version", ""))` is empty or "1".
unfoldable pub check_schema_version : Builtins → Entries → Checked (Unit {0})
unfolding get_or
check_schema_version py cfg =
    require (str_eq version "" || str_eq version "1") unsupported_schema_version
  where
    version : String
    version = py.str (get_or (text "") "schema_version" cfg)

-- `v or None`
unfoldable pub or_none : Yaml → Yaml
unfolding is_truthy
or_none v = if is_truthy v then v else null

-- `if not isinstance(v, dict): raise ...`
unfoldable pub as_mapping : Yaml → ConfigError → Checked Entries
as_mapping (mapping es) e = valid es
as_mapping _ e = invalid e

-- `if not v or not isinstance(v, str): raise ...`
unfoldable pub as_name : Yaml → ConfigError → Checked String
as_name (text s) e = if str_eq s "" then invalid e else valid s
as_name _ e = invalid e

-- `v or {}`, which has to be a mapping
unfoldable pub or_mapping : Yaml → ConfigError → Checked Entries
unfolding is_truthy as_mapping
or_mapping v e = if is_truthy v then as_mapping v e else valid nil

-- `v or ()`, which has to be a list with an item
unfoldable pub as_items : Yaml → ConfigError → Checked (List Yaml)
unfolding items
as_items (seq vs) e = if is_empty (items vs) then invalid e else valid (items vs)
as_items _ e = invalid e

-- `tuple(v)`, of a value that is not falsy
unfoldable pub tuple_of : Builtins → Yaml → Checked (List Yaml)
unfolding items keys
tuple_of py null = crash
tuple_of py (text s) = valid (py.chars s)
tuple_of py (flag b) = crash
tuple_of py (number n) = crash
tuple_of py (seq vs) = valid (items vs)
tuple_of py (mapping es) = valid (keys es)

unfoldable pub tuple_or : Builtins → List Yaml → Yaml → Checked (List Yaml)
unfolding is_truthy tuple_of
tuple_or py default v = if is_truthy v then tuple_of py v else valid default

-- A registered entry, or the `Unknown...Error` for the `KeyError`
unfoldable pub registered :
    {A : Type 0} → String → Yaml → List (Registered A) → ConfigError → Checked A
unfolding get
registered id version registry e = elim (get id version registry) [
  | none ↦ invalid e
  | some r ↦ valid r.entry
]

module _ {Output : Type 0} (py : Builtins) (known : Registries Output) where
  unfoldable pub recipe_of : Entries → Checked (ExecutionRecipe Output)
  unfolding as_name get_or or_none registered
  recipe_of block = do
    id ← as_name (get_or null "recipe" block) bad_recipe
    registered id (or_none (get_or null "recipe_version" block)) known.recipes unknown_recipe

  -- The id and the version of one entry of `observers`
  unfoldable pub observer_entry : Yaml → Checked (Yaml × Yaml)
  unfolding get_or
  observer_entry (text s) = valid (text s, null)
  observer_entry (mapping es) = valid (get_or null "id" es, get_or null "version" es)
  observer_entry _ = invalid bad_observer_entry

  unfoldable pub observer_of : Yaml → Checked (ObserverSet Output)
  unfolding observer_entry as_name registered
  observer_of v = do
    e ← observer_entry v
    id ← as_name e.0 bad_observer_id
    registered id e.1 known.observers unknown_observer

  unfoldable pub observers_of : List Yaml → Checked (List (ObserverSet Output))
  unfolding observer_of
  observers_of [] = valid []
  observers_of (v ∷ vs) = do o ← observer_of v; os ← observers_of vs; valid (o ∷ os)

  unfoldable pub normalizer_of : Entries → Checked NamedNormalizer
  unfolding as_mapping as_name get_or registered
  normalizer_of block = do
    e ← as_mapping (get_or null "normalizer" block) bad_normalizer
    id ← as_name (get_or null "id" e) bad_normalizer_id
    registered id (get_or null "version" e) known.normalizers unknown_normalizer

-- `package_root`, made absolute where the configuration is a file
unfoldable pub resolve_root : Builtins → Option String → Yaml → Checked Yaml
resolve_root py none v = valid v
resolve_root py (some path) (text s) =
    if str_eq s "." || str_eq s ""
    then valid (text (py.parent path))
    else if py.is_absolute s
    then valid (text s)
    else valid (text (py.joined path s))
resolve_root py (some path) _ = crash

abbrev pub default_forbidden_env : List Yaml
default_forbidden_env = map text (
    "OPENAI_API_KEY" ∷ "ANTHROPIC_API_KEY" ∷ "GOOGLE_API_KEY" ∷ "GEMINI_API_KEY"
    ∷ "VERTEXAI_PROJECT" ∷ "AZURE_OPENAI_API_KEY" ∷ "HUGGINGFACEHUB_API_TOKEN" ∷ "COHERE_API_KEY"
    ∷ "MISTRAL_API_KEY" ∷ "GROQ_API_KEY" ∷ [])

-- `scenario in recipe.supported_scenarios`
abbrev pub is_supported : List String → Yaml → Bool
is_supported supported scenario = any (λ s. is_text s scenario) supported

unfoldable pub check_scenarios : List String → List Yaml → Checked (Unit {0})
unfolding is_text
check_scenarios supported [] = valid tt
check_scenarios supported (v ∷ vs) = do
  require (is_supported supported v) (unsupported_scenario v)
  check_scenarios supported vs

-- `recipe.resolve(recipe_config)`, whose `ValueError` is caught
unfoldable pub check_resolves :
    {Output : Type 0} → ExecutionRecipe Output → RecipeConfig → Checked (Unit {0})
check_resolves recipe config = elim (recipe.resolve config) [
  | none ↦ invalid rejected_entrypoint
  | some resolution ↦ valid tt
]

-- What the first half of `_build_integration` looks up
pub record Parts (Output : Type 0) : Type 0 where
  pub block : Entries
  pub recipe : ExecutionRecipe Output
  pub observers : List (ObserverSet Output)
  pub normalizer : NamedNormalizer

module _ {Output : Type 0} (py : Builtins) (known : Registries Output) where
  -- From the schema version to the normalizer
  unfoldable pub parts_of : Entries → Checked (Parts Output)
  unfolding check_schema_version as_mapping as_items recipe_of observers_of normalizer_of get_or
  parts_of cfg = do
    check_schema_version py cfg
    block ← as_mapping (get_or null "integration" cfg) no_integration_block
    recipe ← recipe_of py known block
    observer_ids ← as_items (get_or null "observers" block) no_observers
    observers ← observers_of py known observer_ids
    normalizer ← normalizer_of py known block
    valid
        (record { block = block; recipe = recipe; observers = observers; normalizer = normalizer })

module _ {Output : Type 0} (py : Builtins) where
  -- From the entrypoint to the `RecipeConfig`
  unfoldable pub config_of : Entries → Option String → Parts Output → Checked RecipeConfig
  unfolding as_name or_mapping as_items tuple_or resolve_root get_or is_truthy is_text
  config_of cfg config_path parts = do
    entrypoint ← or_mapping (get_or null "entrypoint" parts.block) bad_entrypoint
    target ← as_name (get_or null "target" entrypoint) no_entrypoint_target
    root ← resolve_root py config_path (get_or (text ".") "package_root" parts.block)
    model ← or_mapping (get_or null "model" parts.block) bad_model
    require (is_text "deterministic_stub" (get_or (text "deterministic_stub") "strategy" model))
        unsupported_model
    scenarios ← as_items (get_or null "scenarios" cfg) no_scenarios
    required ← tuple_or py [] (get_or null "required_env" parts.block)
    forbidden ← tuple_or py default_forbidden_env (get_or null "forbidden_env" parts.block)
    valid (record {
      recipe_id = parts.recipe.recipe_id;
      recipe_version = parts.recipe.recipe_version;
      package_root = root;
      entrypoint_kind = python_dotted;
      entrypoint_target = target;
      async_mode = is_text "async" (get_or (text "sync") "mode" entrypoint);
      required_env = required;
      forbidden_env = forbidden;
      observer_ids = map (λ (o : ObserverSet Output). o.observer_id) parts.observers;
      supported_scenarios = scenarios;
      params =
          if is_truthy (get_or null "params" parts.block)
          then get_or null "params" parts.block
          else mapping nil;
    })

module _ {Output : Type 0} (py : Builtins) (known : Registries Output) where
  unfoldable pub build_integration :
      String → Entries → ResolutionSource → Option String → Checked (RepositoryIntegration Output)
  unfolding parts_of config_of check_resolves check_scenarios
  build_integration full_name cfg source config_path = do
    parts ← parts_of py known cfg
    config ← config_of py cfg config_path parts
    check_resolves parts.recipe config
    check_scenarios parts.recipe.supported_scenarios config.supported_scenarios
    valid (record {
      full_name = full_name;
      recipe = parts.recipe;
      recipe_config = config;
      observers = parts.observers;
      normalizer = parts.normalizer;
      source = source;
      config_path = config_path;
    })

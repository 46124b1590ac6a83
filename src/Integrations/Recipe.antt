-- ===== src/Integrations/Recipe.antt =====
-- src/compliance/integrations/recipe.py: a recipe, its configuration and the base class's `resolve`;
-- and the observers and normalizers as the resolver sees them.
--
-- Python's operations on texts and paths are a parameter. The enums that nothing reads (package
-- strategy, driver, injection) are left out.
use reguard.Prelude.{String, Bool, Option, none, some, List, str_eq, if◌then◌else◌}
use reguard.Integrations.Yaml.{Yaml}
use reguard.Integrations.Normalizer.{NativeObservation, NormalizerResult}

-- `s.partition(":")` (`none` where there is no colon), `s.strip()`, `str(v)`, `tuple(s)`, and
-- `p.parent.resolve()`, `(p.parent / s).resolve()` and `Path(s).is_absolute()`.
pub record Builtins : Type 0 where
  pub partition : String → Option (String × String)
  pub strip : String → String
  pub str : Yaml → String
  pub chars : String → List Yaml
  pub parent : String → String
  pub joined : String → String → String
  pub is_absolute : String → Bool

pub data EntrypointKind : Type 0 where
  python_dotted python_callable cli_command : EntrypointKind

pub record RecipeConfig : Type 0 where
  pub recipe_id : String
  pub recipe_version : String
  pub package_root : Yaml
  pub entrypoint_kind : EntrypointKind
  pub entrypoint_target : String
  pub async_mode : Bool
  pub required_env : List Yaml
  pub forbidden_env : List Yaml
  pub observer_ids : List String
  pub supported_scenarios : List Yaml
  pub params : Yaml

pub record RecipeResolution : Type 0 where
  pub config : RecipeConfig
  pub entrypoint_module : String
  pub entrypoint_attr : String

-- A subclass: its names, its scenarios, its `resolve` (`none` is the `ValueError`) and its `run`,
-- whose output the observers turn into observations.
pub record ExecutionRecipe (Output : Type 0) : Type 0 where
  pub recipe_id : String
  pub recipe_version : String
  pub supported_scenarios : List String
  pub resolve : RecipeConfig → Option RecipeResolution
  pub run : RecipeResolution → Option Output

-- An observer keeps a buffer of observations. `observe` and `finalize` leave a buffer and give a
-- sequence, or raise (`none`).
pub record ObserverSet (Output : Type 0) : Type 0 where
  pub observer_id : String
  pub observer_version : String
  pub prepare : Output → List NativeObservation → List NativeObservation
  pub observe :
      Output → List NativeObservation → Option (List NativeObservation × List NativeObservation)
  pub finalize :
      Output → List NativeObservation → Option (List NativeObservation × List NativeObservation)

pub record NamedNormalizer : Type 0 where
  pub normalizer_id : String
  pub normalizer_version : String
  pub normalize : List NativeObservation → String → String → NormalizerResult

-- `module:attr`, the same for both Python entrypoints
unfoldable pub resolve_python : Builtins → RecipeConfig → Option RecipeResolution
resolve_python py config = elim (py.partition config.entrypoint_target) [
  | none ↦ none
  | some (module_name, attr) ↦ some (record {
    config = config;
    entrypoint_module = py.strip module_name;
    entrypoint_attr = py.strip attr;
  })
]

unfoldable pub resolve_kind : Builtins → EntrypointKind → RecipeConfig → Option RecipeResolution
unfolding resolve_python
resolve_kind py python_dotted config = resolve_python py config
resolve_kind py python_callable config = resolve_python py config
resolve_kind py cli_command config = some (record {
  config = config;
  entrypoint_module = "";
  entrypoint_attr = py.strip config.entrypoint_target;
})

-- The base class's `resolve`
unfoldable pub base_resolve : Builtins → RecipeConfig → Option RecipeResolution
unfolding resolve_kind
base_resolve py config =
    if str_eq config.entrypoint_target ""
    then none
    else resolve_kind py config.entrypoint_kind config

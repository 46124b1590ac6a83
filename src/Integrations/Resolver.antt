-- ===== src/Integrations/Resolver.antt =====
-- `IntegrationResolver` of src/compliance/integrations/integration.py.
--
-- The file system and PyYAML are parameters: whether it is installed, which paths exist, and what the file at a path loads as
-- (`none` where reading or parsing it raises).
pub mod Escape
use reguard.Prelude.{
  String, Bool, true, false, Option, none, some, List, [], ◌∷◌, find, map_option, str_eq,
  str_append, if◌then◌else◌,
}
use reguard.Integrations.Yaml.{
  Yaml, mapping, Entries, Checked, valid, invalid, crash, ◌>>=◌, ConfigError, no_pyyaml,
  not_a_mapping,
}
use reguard.Integrations.Recipe.{Builtins}
use reguard.Integrations.Build.{
  ResolutionSource, explicit_config, repo_local_yml, builtin_manifest, legacy_adapter, unresolved,
  Registries, RepositoryIntegration, build_integration,
}

pub record Files : Type 0 where
  -- PyYAML can be imported.
  pub has_yaml : Bool
  pub exists : String → Bool
  pub load : String → Option Yaml

-- The texts of `unsupported_reason`, as the values they show
pub data Unsupported : Type 0 where
  config_not_found : Unsupported
  invalid_config : ConfigError → Unsupported
  has_legacy_adapter : Unsupported
  no_integration : Unsupported

-- A resolved outcome keeps the default source of the dataclass.
pub record ResolverOutcome (Output : Type 0) : Type 0 where
  pub integration : Option (RepositoryIntegration Output)
  pub unsupported_reason : Option Unsupported
  pub source : ResolutionSource

abbrev pub unsupported_outcome :
    {Output : Type 0} → Unsupported → ResolutionSource → ResolverOutcome Output
unsupported_outcome reason source = record {
  integration = none;
  unsupported_reason = some reason;
  source = source;
}

-- The test in `_load_yml` of what the file loads as
unfoldable pub top_level : Option Yaml → Checked Entries
top_level none = crash
top_level (some (mapping es)) = valid es
top_level (some _) = invalid not_a_mapping

-- `_load_yml`
unfoldable pub load_yml : Files → String → Checked Entries
unfolding top_level
load_yml files path = if files.has_yaml then top_level (files.load path) else invalid no_pyyaml

-- The outcome of the `try` around `_build_integration`
unfoldable pub outcome_of :
    {Output : Type 0}
    → ResolutionSource
    → Checked (RepositoryIntegration Output)
    → Checked (ResolverOutcome Output)
outcome_of source (valid i) =
    valid (record { integration = some i; unsupported_reason = none; source = unresolved })
outcome_of source (invalid e) = valid (unsupported_outcome (invalid_config e) source)
outcome_of source crash = crash

-- The constructor's arguments: the built-in manifests, and the getter of the legacy registry, which
-- tells whether it knows a name.
pub record IntegrationResolver : Type 0 where
  pub builtins : List (String × Entries)
  pub legacy : Option (String → Bool)

module _ {Output : Type 0} (py : Builtins) (known : Registries Output) (files : Files) where
  unfoldable pub attempt :
      String → Entries → ResolutionSource → Option String → Checked (ResolverOutcome Output)
  unfolding build_integration outcome_of
  attempt full_name cfg source path =
      outcome_of source (build_integration py known full_name cfg source path)

  unfoldable pub from_file : String → ResolutionSource → String → Checked (ResolverOutcome Output)
  unfolding load_yml attempt
  from_file full_name source path = do
    cfg ← load_yml files path
    attempt full_name cfg source (some path)

  -- The last two steps
  unfoldable pub resolve_legacy : Option (String → Bool) → String → ResolverOutcome Output
  resolve_legacy none full_name = unsupported_outcome no_integration unresolved
  resolve_legacy (some knows) full_name =
      if knows full_name
      then unsupported_outcome has_legacy_adapter legacy_adapter
      else unsupported_outcome no_integration unresolved

  unfoldable pub resolve_builtin : IntegrationResolver → String → Checked (ResolverOutcome Output)
  unfolding attempt resolve_legacy
  resolve_builtin resolver full_name =
      elim (find (λ (p : String × Entries). str_eq p.0 full_name) resolver.builtins) [
        | none ↦ valid (resolve_legacy resolver.legacy full_name)
        | some p ↦ attempt full_name p.1 builtin_manifest none
      ]

  abbrev pub local_yml : String → String
  local_yml repo_path = str_append repo_path "/reguard.yml"

  unfoldable pub resolve_local :
      IntegrationResolver → String → Option String → Checked (ResolverOutcome Output)
  unfolding from_file resolve_builtin
  resolve_local resolver full_name none = resolve_builtin resolver full_name
  resolve_local resolver full_name (some repo_path) =
      if files.exists (local_yml repo_path)
      then from_file full_name repo_local_yml (local_yml repo_path)
      else resolve_builtin resolver full_name

  unfoldable pub resolve :
      IntegrationResolver
      → String
      → Option String
      → Option String
      → Checked (ResolverOutcome Output)
  unfolding from_file resolve_local
  resolve resolver full_name repo_path none = resolve_local resolver full_name repo_path
  resolve resolver full_name repo_path (some path) =
      if files.exists path
      then from_file full_name explicit_config path
      else valid (unsupported_outcome config_not_found explicit_config)

-- `register_builtin`: a name that is there keeps its place.
unfoldable pub register_builtin :
    String → Entries → List (String × Entries) → List (String × Entries)
register_builtin full_name manifest [] = (full_name, manifest) ∷ []
register_builtin full_name manifest (p ∷ ps) =
    if str_eq p.0 full_name
    then (full_name, manifest) ∷ ps
    else p ∷ register_builtin full_name manifest ps

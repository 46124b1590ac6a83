-- ===== src/Integrations/Build/Sound.antt =====
-- What a configuration that builds is made of.
use reguard.Prelude.{String, Option, none, List, [], ◌∷◌, ◌≡◌, refl, ap, ◌≢◌, arith, All, Any}
use mathlib.Core.Path.{subst}
use reguard.Integrations.Yaml.{
  Yaml, null, text, Entries, get_or, is_text, valid, require, >>=-valid, no_integration_block,
  no_observers, bad_entrypoint, no_entrypoint_target, no_scenarios, bad_recipe, bad_model,
  unsupported_model, bad_normalizer, bad_normalizer_id, bad_observer_id,
}
use reguard.Integrations.Recipe.{
  Builtins, RecipeConfig, ExecutionRecipe, ObserverSet, NamedNormalizer,
}
use reguard.Integrations.Build.{
  ResolutionSource, Registries, RepositoryIntegration, check_schema_version, as_mapping, as_name,
  as_items, or_mapping, recipe_of, observer_entry, observer_of, observers_of, normalizer_of,
  tuple_or, default_forbidden_env, resolve_root, check_scenarios, check_resolves, Parts, parts_of,
  config_of, build_integration,
}
use reguard.Integrations.Build.Pieces.{
  value_or, IsIn, registered-IsIn, as_items-nonempty, as_name-nonempty, check_scenarios-All,
  check_resolves-some,
}

module _ {Output : Type 0} (py : Builtins) (known : Registries Output) where
  -- The parts of an integration are registered, its recipe takes its configuration, and every scenario,
  -- of which there is one at least, is one of the recipe's.
  pub record IsSound (i : RepositoryIntegration Output) : Type 0 where
    pub recipe_known : IsIn i.recipe known.recipes
    pub observers_known : All (λ o. IsIn o known.observers) i.observers
    pub observed : i.observers ≢ []
    pub normalizer_known : IsIn i.normalizer known.normalizers
    pub has_target : i.recipe_config.entrypoint_target ≢ ""
    pub resolves : i.recipe.resolve i.recipe_config ≢ none
    pub scenarios_known :
        All
          (λ v. Any (λ s. v ≡ text s) i.recipe.supported_scenarios)
          i.recipe_config.supported_scenarios
    pub has_scenario : i.recipe_config.supported_scenarios ≢ []

  recipe_of-IsIn :
      (block : Entries) {r : ExecutionRecipe Output}
      → recipe_of py known block ≡ valid r
      → IsIn r known.recipes
  unfolding recipe_of
  recipe_of-IsIn block h =
      let (id, e, k) = >>=-valid (as_name (get_or null "recipe" block) bad_recipe) _ h in
      registered-IsIn id _ known.recipes _ k

  normalizer_of-IsIn :
      (block : Entries) {n : NamedNormalizer}
      → normalizer_of py known block ≡ valid n
      → IsIn n known.normalizers
  unfolding normalizer_of
  normalizer_of-IsIn block h =
      let (e, p, k) = >>=-valid (as_mapping (get_or null "normalizer" block) bad_normalizer) _ h in
      let (id, q, l) = >>=-valid (as_name (get_or null "id" e) bad_normalizer_id) _ k in
      registered-IsIn id _ known.normalizers _ l

  observer_of-IsIn :
      (v : Yaml) {o : ObserverSet Output}
      → observer_of py known v ≡ valid o
      → IsIn o known.observers
  unfolding observer_of
  observer_of-IsIn v h =
      let (e, p, k) = >>=-valid (observer_entry py known v) _ h in
      let (id, q, l) = >>=-valid (as_name e.0 bad_observer_id) _ k in
      registered-IsIn id _ known.observers _ l

  observers_of-All :
      (vs : List Yaml) {os : List (ObserverSet Output)}
      → observers_of py known vs ≡ valid os
      → All (λ o. IsIn o known.observers) os × ((os ≡ []) → vs ≡ [])
  unfolding observers_of
  observers_of-All [] {os} h =
      (subst (λ l. All (λ o. IsIn o known.observers) l) (ap (value_or []) h) tt, λ e. refl)
  observers_of-All (v ∷ vs) {os} h =
      let (o, e, k) = >>=-valid (observer_of py known v) _ h in
      let (rest, f, l) = >>=-valid (observers_of py known vs) _ k in
      let whole : (o ∷ rest) ≡ os = ap (value_or []) l in
      (
        subst (λ l. All (λ o. IsIn o known.observers) l) whole
            (observer_of-IsIn v e, (observers_of-All vs f).0),
        λ n. absurd (ground arith),
      )

  parts_of-known :
      (cfg : Entries) {parts : Parts Output}
      → parts_of py known cfg ≡ valid parts
      → IsIn parts.recipe known.recipes
        × All (λ o. IsIn o known.observers) parts.observers
        × (parts.observers ≢ [])
        × IsIn parts.normalizer known.normalizers
  unfolding parts_of
  parts_of-known cfg {parts} h =
      let (u1, e1, h1) = >>=-valid (check_schema_version py cfg) _ h in
      let (block, e2, h2) =
        >>=-valid (as_mapping (get_or null "integration" cfg) no_integration_block) _ h1 in
      let (recipe, e3, h3) = >>=-valid (recipe_of py known block) _ h2 in
      let (ids, e4, h4) = >>=-valid (as_items (get_or null "observers" block) no_observers) _ h3 in
      let (observers, e5, h5) = >>=-valid (observers_of py known ids) _ h4 in
      let (normalizer, e6, h6) = >>=-valid (normalizer_of py known block) _ h5 in
      subst
        (λ (p : Parts Output).
          IsIn p.recipe known.recipes
          × All (λ o. IsIn o known.observers) p.observers
          × (p.observers ≢ [])
          × IsIn p.normalizer known.normalizers)
        (ap (value_or parts) h6)
        (
          recipe_of-IsIn block e3,
          (observers_of-All ids e5).0,
          λ n.
              as_items-nonempty (get_or null "observers" block) no_observers e4
                ((observers_of-All ids e5).1 n),
          normalizer_of-IsIn block e6,
        )

  config_of-filled :
      (cfg : Entries) (path : Option String) (parts : Parts Output) {config : RecipeConfig}
      → config_of py cfg path parts ≡ valid config
      → (config.entrypoint_target ≢ "") × (config.supported_scenarios ≢ [])
  unfolding config_of
  config_of-filled cfg path parts {config} h =
      let (entrypoint, e1, h1) =
        >>=-valid (or_mapping (get_or null "entrypoint" parts.block) bad_entrypoint) _ h in
      let (target, e2, h2) =
        >>=-valid (as_name (get_or null "target" entrypoint) no_entrypoint_target) _ h1 in
      let (root, e3, h3) =
        >>=-valid (resolve_root py path (get_or (text ".") "package_root" parts.block)) _ h2 in
      let (model, e4, h4) =
        >>=-valid (or_mapping (get_or null "model" parts.block) bad_model) _ h3 in
      let (u, e5, h5) =
        >>=-valid
          (require
            (is_text "deterministic_stub" (get_or (text "deterministic_stub") "strategy" model))
            unsupported_model)
          _ h4 in
      let (scenarios, e6, h6) =
        >>=-valid (as_items (get_or null "scenarios" cfg) no_scenarios) _ h5 in
      let (required, e7, h7) =
        >>=-valid (tuple_or py [] (get_or null "required_env" parts.block)) _ h6 in
      let (forbidden, e8, h8) =
        >>=-valid (tuple_or py default_forbidden_env (get_or null "forbidden_env" parts.block)) _
          h7 in
      subst (λ (c : RecipeConfig). (c.entrypoint_target ≢ "") × (c.supported_scenarios ≢ []))
        (ap (value_or config) h8)
        (
          as_name-nonempty (get_or null "target" entrypoint) no_entrypoint_target e2,
          as_items-nonempty (get_or null "scenarios" cfg) no_scenarios e6,
        )

  -- In an integration that a configuration builds, the recipe, the observers (of which there is one at
  -- least) and the normalizer are registered ones, the entrypoint's target is not empty and the recipe
  -- resolves the configuration, and there is a scenario and every scenario is one of the recipe's.
  pub build_integration-IsSound :
      (full_name : String) (cfg : Entries) (origin : ResolutionSource) (path : Option String)
      (i : RepositoryIntegration Output)
      → build_integration py known full_name cfg origin path ≡ valid i
      → IsSound i
  unfolding build_integration
  build_integration-IsSound full_name cfg origin path i h =
      let (parts, e1, h1) = >>=-valid (parts_of py known cfg) _ h in
      let (config, e2, h2) = >>=-valid (config_of py cfg path parts) _ h1 in
      let (u, e3, h3) = >>=-valid (check_resolves parts.recipe config) _ h2 in
      let (v, e4, h4) =
        >>=-valid (check_scenarios parts.recipe.supported_scenarios config.supported_scenarios) _
          h3 in
      let (recipe, observers, observed, normalizer) = parts_of-known cfg e1 in
      let (target, scenarios) = config_of-filled cfg path parts e2 in
      subst IsSound (ap (value_or i) h4) (record {
        recipe_known = recipe;
        observers_known = observers;
        observed = observed;
        normalizer_known = normalizer;
        has_target = target;
        resolves = check_resolves-some parts.recipe config e3;
        scenarios_known =
            check_scenarios-All parts.recipe.supported_scenarios config.supported_scenarios e4;
        has_scenario = scenarios;
      })

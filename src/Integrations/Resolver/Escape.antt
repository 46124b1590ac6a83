-- ===== src/Integrations/Resolver/Escape.antt =====
-- What a resolution gives, and what escapes it.
use reguard.Prelude.{
  String, str_append, Bool, true, false, ◌⊎◌, Option, none, some, ◌≡◌, refl, ◌≢◌, inl, inr, ◌↔◌,
  arith, find, str_eq, Option-cases, Bool-cases, if◌then◌else◌,
}
use mathlib.Core.Path.{subst}
use reguard.Integrations.Yaml.{
  Yaml, null, text, flag, number, seq, mapping, Entries, Checked, valid, invalid, crash, ◌>>=◌,
  >>=-valid, ConfigError, no_pyyaml, not_a_mapping,
}
use reguard.Integrations.Recipe.{Builtins}
use reguard.Integrations.Build.{
  ResolutionSource, explicit_config, repo_local_yml, builtin_manifest, Registries,
  RepositoryIntegration, build_integration,
}
use reguard.Integrations.Build.Sound.{IsSound, build_integration-IsSound}
use reguard.Integrations.Resolver.{
  Files, unsupported_outcome, config_not_found, ResolverOutcome, top_level, load_yml, outcome_of,
  IntegrationResolver, attempt, from_file, resolve_legacy, resolve_builtin, resolve_local, resolve,
}

-- The file that a resolution reads, if any: the explicit one, or the repository's own.
unfoldable pub file_read : Files → Option String → Option String → Option String
file_read files repo_path (some path) = if files.exists path then some path else none
file_read files none none = none
file_read files (some repo_path) none =
    if files.exists (str_append repo_path "/reguard.yml")
    then some (str_append repo_path "/reguard.yml")
    else none

-- The file's top level loads, and is no mapping.
abbrev pub IsNoMapping : Option Yaml → Type 0
IsNoMapping loaded = (v : Yaml) × (loaded ≡ some v) × ((es : Entries) → v ≢ mapping es)

no_mapping :
    (v : Yaml) (e : ConfigError)
    → ((es : Entries) → v ≢ mapping es)
    → top_level (some v) ≡ invalid not_a_mapping
    → (top_level (some v) ≡ invalid e) ↔ ((e ≡ not_a_mapping) × IsNoMapping (some v))
no_mapping v e n t = (λ h. (ground arith, (v, refl, n)), λ h. ground arith)

top_level_iff :
    (o : Option Yaml) (e : ConfigError)
    → (top_level o ≡ invalid e) ↔ ((e ≡ not_a_mapping) × IsNoMapping o)
unfolding top_level
top_level_iff none e = (λ h. absurd (ground arith), λ h. absurd (ground arith))
top_level_iff (some (mapping es)) e =
    (λ h. absurd (ground arith), λ h. absurd (h.1.2 es (ground arith)))
top_level_iff (some null) e = no_mapping null e (λ es h. ground arith) refl
top_level_iff (some (text s)) e = no_mapping (text s) e (λ es h. ground arith) refl
top_level_iff (some (flag s)) e = no_mapping (flag s) e (λ es h. ground arith) refl
top_level_iff (some (number s)) e = no_mapping (number s) e (λ es h. ground arith) refl
top_level_iff (some (seq s)) e = no_mapping (seq s) e (λ es h. ground arith) refl

-- `_load_yml` raises this error: PyYAML is missing, or the file is no mapping.
abbrev pub IsRefused : Files → String → ConfigError → Type 0
IsRefused files path e =
    ((files.has_yaml ≡ false) × (e ≡ no_pyyaml))
    ⊎ ((files.has_yaml ≡ true) × (e ≡ not_a_mapping) × IsNoMapping (files.load path))

load_yml_iff :
    (files : Files) (path : String) (e : ConfigError)
    → (load_yml files path ≡ invalid e) ↔ IsRefused files path e
unfolding load_yml
load_yml_iff files path e =
    let t = top_level_iff (files.load path) e in
    elim (Bool-cases files.has_yaml) [
      | inl there ↦ (
        λ h. let found = t.0 (rw there at h) in inr (there, found.0, found.1),
        λ r. rw there (elim r [
          | inl (gone, _) ↦ absurd (ground arith)
          | inr (_, same, found) ↦ t.1 (same, found)
        ]),
      )
      | inr missing ↦ (
        λ h. inl (missing, ground arith),
        λ r.
            rw missing
              (elim r [ inl (_, is) ↦ ground arith | inr (there, _, _) ↦ absurd (ground arith) ]),
      )
    ]

module _ {Output : Type 0} where
  outcome_of-not_invalid :
      (origin : ResolutionSource) (c : Checked (RepositoryIntegration Output)) (e : ConfigError)
      → outcome_of origin c ≢ invalid e
  unfolding outcome_of
  outcome_of-not_invalid origin (valid i) e h = ground arith
  outcome_of-not_invalid origin (invalid d) e h = ground arith
  outcome_of-not_invalid origin crash e h = ground arith

  outcome_of-integration :
      (origin : ResolutionSource) (c : Checked (RepositoryIntegration Output))
      (o : ResolverOutcome Output) (i : RepositoryIntegration Output)
      → outcome_of origin c ≡ valid o
      → o.integration ≡ some i
      → c ≡ valid i
  unfolding outcome_of
  outcome_of-integration origin (valid j) o i h k = ground arith
  outcome_of-integration origin (invalid d) o i h k = ground arith
  outcome_of-integration origin crash o i h k = ground arith

  bind_iff :
      (c : Checked Entries) (f : Entries → Checked (ResolverOutcome Output)) (e : ConfigError)
      → ((es : Entries) → f es ≢ invalid e)
      → ((c >>= f) ≡ invalid e) ↔ (c ≡ invalid e)
  bind_iff (valid es) f e n = (λ h. absurd (n es h), λ h. absurd (ground arith))
  bind_iff (invalid d) f e n = (λ h. ground arith, λ h. ground arith)
  bind_iff crash f e n = (λ h. absurd (ground arith), λ h. absurd (ground arith))

module _ {Output : Type 0} (py : Builtins) (known : Registries Output) (files : Files) where
  from_file_iff :
      (full_name : String) (origin : ResolutionSource) (path : String) (e : ConfigError)
      → (from_file py known files full_name origin path ≡ invalid e) ↔ IsRefused files path e
  unfolding from_file attempt
  from_file_iff full_name origin path e =
      let b =
        bind_iff (load_yml files path)
          (λ cfg. attempt py known files full_name cfg origin (some path)) e
          (λ cfg. outcome_of-not_invalid origin _ e) in
      let t = load_yml_iff files path e in (λ h. t.0 (b.0 h), λ h. b.1 (t.1 h))

  chosen_iff :
      (full_name : String) (origin : ResolutionSource) (path : String) (e : ConfigError)
      → (from_file py known files full_name origin path ≡ invalid e)
        ↔ ((read : String) × (some path ≡ some read) × IsRefused files read e)
  chosen_iff full_name origin path e =
      let t = from_file_iff full_name origin path e in
      (
        λ h. (path, refl, t.0 h),
        λ h. t.1 (subst (λ p. IsRefused files p e) (ground (arith, h.1)) h.2),
      )

  legacy_unresolved :
      (legacy : Option (String → Bool)) (full_name : String) (o : ResolverOutcome Output)
      (i : RepositoryIntegration Output)
      → resolve_legacy py known files legacy full_name ≡ o
      → o.integration ≢ some i
  unfolding resolve_legacy
  legacy_unresolved none full_name o i h k = ground arith
  legacy_unresolved (some knows) full_name o i h k = ground arith

  no_config_unresolved :
      (o : ResolverOutcome Output) (i : RepositoryIntegration Output)
      → unsupported_outcome config_not_found explicit_config ≡ o
      → o.integration ≢ some i
  no_config_unresolved o i h k = ground arith

  resolve_builtin-not_invalid :
      (resolver : IntegrationResolver) (full_name : String) (e : ConfigError)
      → resolve_builtin py known files resolver full_name ≢ invalid e
  unfolding resolve_builtin attempt
  resolve_builtin-not_invalid resolver full_name e h =
      elim (Option-cases
        (find (λ (p : String × Entries). str_eq p.0 full_name) resolver.builtins)) [
          | inl n ↦ ground arith
          | inr (p, f) ↦
              outcome_of-not_invalid builtin_manifest
                (build_integration py known full_name p.1 builtin_manifest none) e (ground arith)
        ]

  -- An `IntegrationConfigError` escapes the resolver exactly when there is a file that it reads (the
  -- explicit one, or the repository's own), and either PyYAML is missing or the file loads as something
  -- that is no mapping; it is then that error.
  pub resolve-invalid_iff :
      (resolver : IntegrationResolver) (full_name : String) (repo_path path : Option String)
      (e : ConfigError)
      → (resolve py known files resolver full_name repo_path path ≡ invalid e)
        ↔ ((read : String) × (file_read files repo_path path ≡ some read) × IsRefused files read e)
  unfolding resolve resolve_local file_read
  resolve-invalid_iff resolver full_name repo_path (some path) e =
      elim (Bool-cases (files.exists path)) [
        | inl x ↦ rw x (chosen_iff full_name explicit_config path e)
        | inr x ↦ rw x (λ h. absurd (ground arith), λ h. absurd (ground arith))
      ]
  resolve-invalid_iff resolver full_name none none e =
      (λ h. absurd (resolve_builtin-not_invalid resolver full_name e h), λ h. absurd (ground arith))
  resolve-invalid_iff resolver full_name (some repo) none e =
      elim (Bool-cases (files.exists (str_append repo "/reguard.yml"))) [
        | inl x ↦ rw x (chosen_iff full_name repo_local_yml (str_append repo "/reguard.yml") e)
        | inr x ↦ rw x (
          λ h. absurd (resolve_builtin-not_invalid resolver full_name e h),
          λ h. absurd (ground arith),
        )
      ]

  attempt-IsSound :
      (full_name : String) (cfg : Entries) (origin : ResolutionSource) (path : Option String)
      (o : ResolverOutcome Output) (i : RepositoryIntegration Output)
      → attempt py known files full_name cfg origin path ≡ valid o
      → o.integration ≡ some i
      → IsSound py known i
  unfolding attempt
  attempt-IsSound full_name cfg origin path o i h k =
      build_integration-IsSound py known full_name cfg origin path i (
        outcome_of-integration origin (build_integration py known full_name cfg origin path) o i h
          k)

  from_file-IsSound :
      (full_name : String) (origin : ResolutionSource) (path : String) (o : ResolverOutcome Output)
      (i : RepositoryIntegration Output)
      → from_file py known files full_name origin path ≡ valid o
      → o.integration ≡ some i
      → IsSound py known i
  unfolding from_file
  from_file-IsSound full_name origin path o i h k =
      let (cfg, e, l) = >>=-valid (load_yml files path) _ h in
      attempt-IsSound full_name cfg origin (some path) o i l k

  resolve_builtin-IsSound :
      (resolver : IntegrationResolver) (full_name : String) (o : ResolverOutcome Output)
      (i : RepositoryIntegration Output)
      → resolve_builtin py known files resolver full_name ≡ valid o
      → o.integration ≡ some i
      → IsSound py known i
  unfolding resolve_builtin resolve_legacy
  resolve_builtin-IsSound resolver full_name o i h k =
      elim (Option-cases
        (find (λ (p : String × Entries). str_eq p.0 full_name) resolver.builtins)) [
          | inl n ↦ absurd (legacy_unresolved resolver.legacy full_name o i (ground arith) k)
          | inr (p, f) ↦ attempt-IsSound full_name p.1 builtin_manifest none o i (ground arith) k
        ]

  resolve_local-IsSound :
      (resolver : IntegrationResolver) (full_name : String) (repo_path : Option String)
      (o : ResolverOutcome Output) (i : RepositoryIntegration Output)
      → resolve_local py known files resolver full_name repo_path ≡ valid o
      → o.integration ≡ some i
      → IsSound py known i
  unfolding resolve_local
  resolve_local-IsSound resolver full_name none o i h k =
      resolve_builtin-IsSound resolver full_name o i h k
  resolve_local-IsSound resolver full_name (some repo) o i h k =
      elim (Bool-cases (files.exists (str_append repo "/reguard.yml"))) [
        | inl x ↦
            from_file-IsSound full_name repo_local_yml (str_append repo "/reguard.yml") o i
              (ground arith) k
        | inr x ↦ resolve_builtin-IsSound resolver full_name o i (ground arith) k
      ]

  -- Every integration that the resolver gives, from whichever source, is sound: its parts are
  -- registered, its recipe resolves its configuration and supports each of its scenarios.
  pub resolve-IsSound :
      (resolver : IntegrationResolver) (full_name : String) (repo_path path : Option String)
      (o : ResolverOutcome Output) (i : RepositoryIntegration Output)
      → resolve py known files resolver full_name repo_path path ≡ valid o
      → o.integration ≡ some i
      → IsSound py known i
  unfolding resolve
  resolve-IsSound resolver full_name repo_path none o i h k =
      resolve_local-IsSound resolver full_name repo_path o i h k
  resolve-IsSound resolver full_name repo_path (some path) o i h k =
      elim (Bool-cases (files.exists path)) [
        | inl x ↦ from_file-IsSound full_name explicit_config path o i (ground arith) k
        | inr x ↦ absurd (no_config_unresolved o i (ground arith) k)
      ]

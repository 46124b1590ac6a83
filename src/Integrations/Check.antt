-- ===== src/Integrations/Check.antt =====
-- `_run_integration`, `_derive_status` and `cmd_check` of src/compliance/cli/commands_check.py.
-- Each configured observer has a buffer of its own: no observer is configured twice.
pub mod Verdicts
pub mod Exit
use reguard.Prelude.{
  ℕ, String, Bool, true, false, not, Option, none, some, List, [], ◌∷◌, ◌++◌, map, any, is_empty,
  str_eq, if◌then◌else◌,
}
use reguard.Verdict.Types.{
  Event, Extra, Evidence, RunStatus, pass, fail, unknown, unsupported, error,
}
use reguard.Verdict.Requirement.{CheckResult, RequirementTest, Registry, get_requirement}
use reguard.Integrations.Yaml.{Yaml, Checked, valid, invalid, crash}
use reguard.Integrations.Recipe.{RecipeConfig, ExecutionRecipe, ObserverSet, NamedNormalizer}
use reguard.Integrations.Build.{RepositoryIntegration}
use reguard.Integrations.Build.Environment.{validate_env}
use reguard.Pipeline.Types.{status_value}
use reguard.Integrations.Normalizer.{NativeObservation, CanonicalEvent, NormalizerResult}

unfoldable pub evidence_event : CanonicalEvent → Event
evidence_event e = record { kind = some e.kind; origin = some e.origin }

-- The `Evidence` that is made of the normalizer's result; EVIDENCE_SCHEMA_VERSION is "2".
unfoldable pub evidence_of : NormalizerResult → Evidence
unfolding evidence_event
evidence_of r = record {
  schema_version = "2";
  events = map evidence_event r.canonical_events;
  extra = record {
    probe_status = none;
    probe_returncode = none;
    reason = none;
    observation_quality = none;
    recording_category = some r.recording_category;
    framework_persists_durably = r.framework_persists_durably;
    framework_artifact_paths = r.framework_artifact_paths;
    harness_artifact_paths = r.harness_artifact_paths;
  };
}

-- `all(cr.passed for cr in check_results)`
abbrev pub all_passed : List CheckResult → Bool
all_passed checks = not (any (λ c. not c.passed) checks)

unfoldable pub derive_status : List CheckResult → RunStatus
derive_status checks =
    if all_passed checks then pass else if any (λ c. not c.passed) checks then fail else unknown

-- The status that `_run_integration` reports, for a registered requirement.
unfoldable pub integration_status : RequirementTest → NormalizerResult → RunStatus
unfolding evidence_of derive_status
integration_status test r = derive_status (test.assert_evidence (evidence_of r))

-- An observer and its buffer
abbrev pub Watching : Type 0 → Type 0
Watching Output = ObserverSet Output × List NativeObservation

module _ {Output : Type 0} (output : Output) where
  -- One round of a call on every observer; `none` is an exception.
  unfoldable pub observe_all :
      List (Watching Output) → Option (List (Watching Output) × List NativeObservation)
  observe_all [] = some ([], [])
  observe_all ((o, buffer) ∷ rest) = elim (o.observe output buffer) [
    | none ↦ none
    | some (buffer', seen) ↦ elim (observe_all rest) [
      | none ↦ none
      | some (watching, more) ↦ some ((o, buffer') ∷ watching, seen ++ more)
    ]
  ]

  unfoldable pub finalize_all :
      List (Watching Output) → Option (List (Watching Output) × List NativeObservation)
  finalize_all [] = some ([], [])
  finalize_all ((o, buffer) ∷ rest) = elim (o.finalize output buffer) [
    | none ↦ none
    | some (buffer', seen) ↦ elim (finalize_all rest) [
      | none ↦ none
      | some (watching, more) ↦ some ((o, buffer') ∷ watching, seen ++ more)
    ]
  ]

  -- `prepare`, `observe`, `finalize` and `observe` again; only what the last round gives is kept.
  unfoldable pub watch : List (Watching Output) → Option (List NativeObservation)
  unfolding observe_all finalize_all
  watch observers =
      elim (observe_all (map (λ (w : Watching Output). (w.0, w.0.prepare output w.1)) observers)) [
        | none ↦ none
        | some (once, dropped) ↦ elim (finalize_all once) [
          | none ↦ none
          | some (final, flushed) ↦ elim (observe_all final) [
            | none ↦ none
            | some (twice, observations) ↦ some observations
          ]
        ]
      ]

-- `_run_integration` after the run of the recipe
unfoldable pub judge :
    {Output : Type 0} → RequirementTest → RepositoryIntegration Output → Output → Option RunStatus
unfolding watch integration_status
judge {Output} test i output =
    elim (watch output (map (λ (o : ObserverSet Output). (o, [])) i.observers)) [
      | none ↦ none
      | some observations ↦ some (
          integration_status test
            (i.normalizer.normalize observations i.recipe.recipe_id i.recipe.recipe_version))
    ]

-- The status that `_run_integration` returns; `none` is an exception. An unknown requirement is an ERROR.
unfoldable pub run_integration :
    {Output : Type 0} → Registry → RepositoryIntegration Output → String → Option RunStatus
unfolding get_requirement judge
run_integration registry i requirement_id = elim (get_requirement registry requirement_id) [
  | none ↦ some error
  | some test ↦ elim (i.recipe.resolve i.recipe_config) [
    | none ↦ none
    | some resolution ↦ elim (i.recipe.run resolution) [
      | none ↦ none
      | some output ↦ judge test i output
    ]
  ]
]

unfoldable pub exit_code : RunStatus → ℕ
exit_code pass = 0
exit_code fail = 1
exit_code unknown = 2
exit_code unsupported = 3
exit_code error = 4

-- The two `try` blocks of `cmd_check`: an exception of the environment's check or of the run is an ERROR.
unfoldable pub status_in : Checked (Unit {0}) → Option RunStatus → RunStatus
status_in (valid ok) (some status) = status
status_in (valid ok) none = error
status_in (invalid e) run = error
status_in crash run = error

-- The status that `cmd_check` reports for what the resolver found.
unfoldable pub check_status :
    {Output : Type 0}
    → Registry
    → List (String × String)
    → String
    → Option (RepositoryIntegration Output)
    → RunStatus
unfolding validate_env run_integration status_in
check_status registry env requirement_id none = unsupported
check_status registry env requirement_id (some i) =
    status_in (validate_env i.recipe_config env) (run_integration registry i requirement_id)

-- The exit code, by the names that `--fail-on` lists (split, stripped and upper-cased).
unfoldable pub final_code : List String → RunStatus → ℕ
unfolding exit_code status_value
final_code fail_on status =
    if any (λ name. str_eq name (status_value status)) fail_on then exit_code status else 0

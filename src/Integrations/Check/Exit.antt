-- ===== src/Integrations/Check/Exit.antt =====
-- What `cmd_check` reports, and its exit code.
use reguard.Prelude.{
  String, true, Option, none, some, List, [], ◌∷◌, map, ap, any, ◌≡◌, refl, sym, ◌∙◌, ◌≢◌, ◌↔◌, ◌⊎◌,
  inl, inr, arith, Any, str_eq, eq_iff, Option-cases, Bool-cases,
}
use mathlib.Core.Path.{subst}
use reguard.Verdict.Types.{RunStatus, pass, fail, unknown, unsupported, error}
use reguard.Verdict.Requirement.{Registry, RequirementTest, get_requirement}
use reguard.Pipeline.Types.{status_value}
use reguard.Integrations.Yaml.{Checked, valid, invalid, crash}
use reguard.Integrations.Recipe.{ObserverSet}
use reguard.Integrations.Build.{RepositoryIntegration}
use reguard.Integrations.Build.Environment.{validate_env, IsAllowed, validate_env_iff}
use reguard.Integrations.Check.{
  watch, judge, run_integration, status_in, check_status, exit_code, final_code,
}
use reguard.Integrations.Check.Verdicts.{integration_status_cases}

any_name :
    (names : List String) (n : String)
    → (any (λ name. str_eq name n) names ≡ true) ↔ Any (λ name. name ≡ n) names
any_name [] n = ground arith
any_name (x ∷ names) n = ground (arith, eq_iff x n, any_name names n)

exit_code-zero_iff : (s : RunStatus) → (exit_code s ≡ 0) ↔ (s ≡ pass)
unfolding exit_code
exit_code-zero_iff pass = ((λ h. refl), λ h. refl)
exit_code-zero_iff fail = ((λ h. absurd (ground arith)), λ h. absurd (ground arith))
exit_code-zero_iff unknown = ((λ h. absurd (ground arith)), λ h. absurd (ground arith))
exit_code-zero_iff unsupported = ((λ h. absurd (ground arith)), λ h. absurd (ground arith))
exit_code-zero_iff error = ((λ h. absurd (ground arith)), λ h. absurd (ground arith))

exit_code-injective : (s t : RunStatus) → exit_code s ≡ exit_code t → s ≡ t
unfolding exit_code
exit_code-injective s t h = ground arith

final_code_cases :
    (fail_on : List String) (s : RunStatus)
    → (Any (λ name. name ≡ status_value s) fail_on × (final_code fail_on s ≡ exit_code s))
      ⊎ ((¬ Any (λ name. name ≡ status_value s) fail_on) × (final_code fail_on s ≡ 0))
unfolding final_code
final_code_cases fail_on s =
    elim (Bool-cases (any (λ name. str_eq name (status_value s)) fail_on)) [
      | inl e ↦ inl ((any_name fail_on (status_value s)).0 e, rw (e, final_code) refl)
      | inr e ↦
          inr
            (λ h. ground (arith, (any_name fail_on (status_value s)).1 h), rw (e, final_code) refl)
    ]

-- The exit code is not zero exactly for a status other than PASS that `--fail-on` lists, and it then
-- tells the status: two statuses with one such code are the same.
final_code_iff :
    (fail_on : List String) (s : RunStatus)
    → ((final_code fail_on s ≢ 0) ↔ ((s ≢ pass) × Any (λ name. name ≡ status_value s) fail_on))
      × ((t : RunStatus)
          → final_code fail_on s ≢ 0
          → final_code fail_on s ≡ final_code fail_on t
          → s ≡ t)
final_code_iff fail_on s = elim (final_code_cases fail_on s) [
  | inl (l, e) ↦ (
    (
      λ h. ((λ p. h (e ∙ (exit_code-zero_iff s).1 p)), l),
      λ h z. h.0 ((exit_code-zero_iff s).0 (sym e ∙ z)),
    ),
    λ t n q. elim (final_code_cases fail_on t) [
      | inl (m, f) ↦ exit_code-injective s t (sym e ∙ q ∙ f)
      | inr (m, f) ↦ absurd (n (q ∙ f))
    ],
  )
  | inr (l, e) ↦ ((λ h. absurd (h e), λ h. absurd (l h.1)), λ t n q. absurd (n e))
]

judge-supported :
    {Output : Type 0} (test : RequirementTest) (i : RepositoryIntegration Output) (output : Output)
    → judge test i output ≢ some unsupported
unfolding judge
judge-supported {Output} test i output h =
    elim (Option-cases (watch output (map (λ (o : ObserverSet Output). (o, [])) i.observers))) [
      | inl n ↦ ground arith
      | inr (obs, e) ↦ ground (
        arith,
        integration_status_cases test
            (i.normalizer.normalize obs i.recipe.recipe_id i.recipe.recipe_version),
      )
    ]

run_integration-supported :
    {Output : Type 0} (registry : Registry) (i : RepositoryIntegration Output) (id : String)
    → run_integration registry i id ≢ some unsupported
unfolding run_integration
run_integration-supported registry i id h = elim (Option-cases (get_requirement registry id)) [
  | inl n ↦ ground arith
  | inr (test, e) ↦ elim (Option-cases (i.recipe.resolve i.recipe_config)) [
    | inl n ↦ ground arith
    | inr (resolution, f) ↦ elim (Option-cases (i.recipe.run resolution)) [
      | inl n ↦ ground arith
      | inr (output, g) ↦ judge-supported test i output (ground arith)
    ]
  ]
]

status_in-supported :
    (c : Checked (Unit {0})) (run : Option RunStatus)
    → run ≢ some unsupported
    → status_in c run ≢ unsupported
unfolding status_in
status_in-supported (valid u) (some s) n h = n (ap (λ (x : RunStatus). some x) h)
status_in-supported (valid u) none n h = ground arith
status_in-supported (invalid e) run n h = ground arith
status_in-supported crash run n h = ground arith

status_in-error :
    (c : Checked (Unit {0})) (run : Option RunStatus) → c ≢ valid tt → status_in c run ≡ error
unfolding status_in
status_in-error (valid u) run n = absurd (n refl)
status_in-error (invalid e) run n = refl
status_in-error crash run n = refl

-- UNSUPPORTED is reported exactly when no integration was found, and an integration whose environment
-- is not allowed is reported as ERROR.
check_status-refuses :
    {Output : Type 0} (registry : Registry) (env : List (String × String)) (id : String)
    (o : Option (RepositoryIntegration Output))
    → ((check_status registry env id o ≡ unsupported) ↔ (o ≡ none))
      × ((i : RepositoryIntegration Output)
          → o ≡ some i
          → ¬ IsAllowed env i.recipe_config
          → check_status registry env id o ≡ error)
unfolding check_status
check_status-refuses registry env id none = ((λ h. refl, λ h. refl), λ i h n. absurd (ground arith))
check_status-refuses {Output} registry env id (some i) = (
  (
    λ h. absurd (
        status_in-supported (validate_env i.recipe_config env) (run_integration registry i id)
          (run_integration-supported registry i id) h),
    λ h. absurd (ground arith),
  ),
  λ j h n.
      let same : i ≡ j = ground (arith, h) in
      let refused = λ (v : validate_env i.recipe_config env ≡ valid tt). n (
        subst (λ (k : RepositoryIntegration Output). IsAllowed env k.recipe_config) same
          ((validate_env_iff i.recipe_config env).0 v)) in
      status_in-error (validate_env i.recipe_config env) (run_integration registry i id) refused,
)

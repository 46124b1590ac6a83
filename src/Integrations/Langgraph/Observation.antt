-- ===== src/Integrations/Langgraph/Observation.antt =====
-- What `_run_integration` makes of the family's observer.
use reguard.Prelude.{
  String, some, List, [], ◌∷◌, ◌++◌, map, ◌≡◌, refl, sym, ap, ◌∙◌, inl, inr, arith, eq_iff,
}
use mathlib.Core.List.{append-nil}
use mathlib.Core.Path.{subst}
use reguard.Verdict.Types.{RunStatus, fail}
use reguard.Verdict.Requirement.{RequirementTest}
use reguard.Verdict.Article.{article_12_1}
use reguard.Integrations.Normalizer.{NativeObservation}
use reguard.Integrations.Recipe.{Builtins, ObserverSet, NamedNormalizer}
use reguard.Integrations.Build.{RepositoryIntegration}
use reguard.Integrations.Check.{observe_all, finalize_all, watch, judge, integration_status}
use reguard.Integrations.Check.Verdicts.{integration_status_cases}
use reguard.Integrations.Normalizer.Attestation.{Attested}
use reguard.Integrations.Langgraph.{
  LangGraphRunOutput, Graph, dry_run, seen_in, dry_run_observations, langgraph_observer,
}
use reguard.Integrations.Langgraph.Family.{langgraph_normalizer, family_normalize}
use reguard.Integrations.Langgraph.Translation.{renamed, family_normalize-pass_iff}

-- Whatever the buffer held before, the evidence has everything that the observer sees twice: the
-- buffer is extended by each of the two rounds.
pub watch-langgraph_observer :
    (py : Builtins) (output : LangGraphRunOutput) (buffer : List NativeObservation)
    → watch output ((langgraph_observer py, buffer) ∷ [])
      ≡ some (seen_in py output.graph output ++ seen_in py output.graph output)
unfolding watch observe_all finalize_all langgraph_observer
watch-langgraph_observer py output buffer =
    ap (λ (l : List NativeObservation). some l)
      (append-nil (seen_in py output.graph output ++ seen_in py output.graph output))

harness_unattested :
    (o : NativeObservation) (obs : List NativeObservation)
    → o.producer ≡ "harness"
    → ¬ Attested (map renamed (o ∷ obs))
unfolding renamed
harness_unattested o obs e h =
    ground (arith, h.genuine, eq_iff "harness" "system", eq_iff "harness" "system_state")

dry_run_fails :
    (output : LangGraphRunOutput) (more : List NativeObservation) (id v : String)
    → integration_status article_12_1 (family_normalize (dry_run_observations output ++ more) id v)
      ≡ fail
unfolding dry_run_observations
dry_run_fails output more id v =
    elim (integration_status_cases article_12_1
      (family_normalize (dry_run_observations output ++ more) id v)) [
        | inl p ↦ absurd (
            harness_unattested _ _ refl
              ((family_normalize-pass_iff (dry_run_observations output ++ more) id v).0 p))
        | inr f ↦ f
      ]

judged :
    (test : RequirementTest) (i : RepositoryIntegration LangGraphRunOutput)
    (output : LangGraphRunOutput) (obs : List NativeObservation)
    → watch output (map (λ (x : ObserverSet LangGraphRunOutput). (x, [])) i.observers) ≡ some obs
    → judge test i output
      ≡ some (
          integration_status test
            (i.normalizer.normalize obs i.recipe.recipe_id i.recipe.recipe_version))
unfolding judge
judged test i output obs e = rw (e, judge) refl

-- A dry run of the family is judged, and Article 12(1) always fails on it.
judge-dry_run :
    (py : Builtins) (i : RepositoryIntegration LangGraphRunOutput) (output : LangGraphRunOutput)
    → i.observers ≡ langgraph_observer py ∷ []
    → i.normalizer ≡ langgraph_normalizer
    → output.graph ≡ dry_run
    → judge article_12_1 i output ≡ some fail
unfolding seen_in langgraph_normalizer
judge-dry_run py i output o n g =
    let watched =
      subst
        (λ (os : List (ObserverSet LangGraphRunOutput)).
          watch output (map (λ (x : ObserverSet LangGraphRunOutput). (x, [])) os)
          ≡ some (seen_in py output.graph output ++ seen_in py output.graph output))
        (sym o) (watch-langgraph_observer py output []) in
    let seen =
      subst
        (λ (h : Graph).
          watch output (map (λ (x : ObserverSet LangGraphRunOutput). (x, [])) i.observers)
          ≡ some (seen_in py h output ++ seen_in py h output))
        g watched in
    judged article_12_1 i output (dry_run_observations output ++ dry_run_observations output) seen
    ∙ ap (λ (s : RunStatus). some s)
        (subst
          (λ (z : NamedNormalizer).
            integration_status article_12_1 (
              z.normalize (dry_run_observations output ++ dry_run_observations output)
                i.recipe.recipe_id i.recipe.recipe_version)
            ≡ fail)
          (sym n)
          (dry_run_fails output (dry_run_observations output) i.recipe.recipe_id
            i.recipe.recipe_version))

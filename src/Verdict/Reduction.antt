-- ===== src/Verdict/Reduction.antt =====
-- What each verdict of `RequirementTest.evaluate` means, for every requirement.
use reguard.Prelude.{
  String, true, false, Option, none, some, List, [], ◌∷◌, ◌≡◌, refl, ◌≢◌, ◌⊎◌, inl, inr, All, Any,
  length, is_empty, str_eq, eq_iff, arith, sym, ap, ◌∙◌, Bool-cases, is_empty_iff,
}
use reguard.Verdict.Types.{
  Event, Evidence, RunStatus, pass, fail, unknown, unsupported, error, result_schema_version,
}
use reguard.Verdict.Requirement.{
  CheckResult, RequirementTest, failed, reduce, evaluate_empty, evaluate_events, evaluate_probed,
  evaluate,
}

-- The probe ran cleanly, or its status was not recorded.
abbrev pub IsClean : Option String → Type 0
IsClean probe = (probe ≡ none) ⊎ (probe ≡ some "ok")

-- The bundle has the expected schema and comes from a clean probe.
abbrev pub IsSettled : Evidence → Type 0
IsSettled ev = (ev.schema_version ≡ result_schema_version) × IsClean ev.extra.probe_status

-- Events were collected, or the adapter positively observed that there are none.
abbrev pub IsObserved : List Event → Option String → Type 0
IsObserved events quality = (events ≢ []) ⊎ (quality ≡ some "observed_absence")

abbrev pub Observed : Evidence → Type 0
Observed ev = IsObserved ev.events ev.extra.observation_quality

abbrev pub AllPassed : List CheckResult → Type 0
AllPassed = All λ c. c.passed ≡ true

abbrev pub SomeFailed : List CheckResult → Type 0
SomeFailed = Any λ c. c.passed ≡ false

-- What a status says of the evidence.
abbrev pub Means : RequirementTest → Evidence → RunStatus → Type 0
Means test ev pass = IsSettled ev × Observed ev × AllPassed (test.assert_evidence ev)
Means test ev fail = IsSettled ev × Observed ev × SomeFailed (test.assert_evidence ev)
Means test ev unknown = IsSettled ev × ¬ (Observed ev)
Means test ev unsupported = ⊥
Means test ev error = ¬ IsSettled ev

pub not_both : (checks : List CheckResult) → AllPassed checks → SomeFailed checks → ⊥
not_both [] h f = f
not_both (c ∷ cs) h f = ground (arith, not_both cs)

reduce_means :
    (checks : List CheckResult)
    → ((is_empty (failed checks) ≡ true) × AllPassed checks)
      ⊎ ((is_empty (failed checks) ≡ false) × SomeFailed checks)
reduce_means [] = inl (refl, tt)
reduce_means (c ∷ cs) = ground (arith, reduce_means cs)

evaluate_empty-Means :
    (test : RequirementTest) (ev : Evidence) (quality : Option String)
    → IsSettled ev
    → ev.events ≡ []
    → quality ≡ ev.extra.observation_quality
    → Means test ev (evaluate_empty test ev quality).status
unfolding evaluate_empty
evaluate_empty-Means test ev none s e q = (s, λ o. ground arith)
evaluate_empty-Means test ev (some quality) s e q =
    ground (arith, eq_iff quality "observed_absence", reduce_means (test.assert_evidence ev))

evaluate_events-Means :
    (test : RequirementTest) (ev : Evidence)
    → IsSettled ev
    → Means test ev (evaluate_events test ev).status
unfolding evaluate_events
evaluate_events-Means test ev s = elim (Bool-cases (is_empty ev.events)) [
  | inl e ↦ rw e (evaluate_empty-Means test ev _ s ((is_empty_iff ev.events).0 e) refl)
  | inr e ↦ rw e (reduce-Means (inl (λ f. ground (arith, is_empty_iff ev.events))))
]
  where
    reduce-Means :
        Observed ev
        → Means test ev (reduce (test.assert_evidence ev) (length ev.events) none).status
    reduce-Means o = ground (arith, reduce_means (test.assert_evidence ev))

evaluate_probed-Means :
    (test : RequirementTest) (ev : Evidence) (probe : Option String)
    → ev.schema_version ≡ result_schema_version
    → probe ≡ ev.extra.probe_status
    → Means test ev (evaluate_probed test ev probe).status
unfolding evaluate_probed
evaluate_probed-Means test ev none s p = evaluate_events-Means test ev (s, inl (sym p))
evaluate_probed-Means test ev (some probe) s p = elim (Bool-cases (str_eq probe "ok")) [
  | inl e ↦
      rw e (evaluate_events-Means test ev (s, inr (sym p ∙ ap some ((eq_iff probe "ok").0 e))))
  | inr e ↦ rw e (λ s'. ground (arith, eq_iff probe "ok"))
]

-- Every verdict says what it means: PASS, that the bundle is settled and observed and that all the
-- requirement's checks passed; FAIL, that it is settled and observed and a check failed; UNKNOWN,
-- that it is settled, and empty without an observed absence; ERROR, that the schema differs or the
-- probe did not run cleanly. UNSUPPORTED never comes out of here. The cases exclude one another.
pub evaluate-Means :
    (test : RequirementTest) (ev : Evidence) → Means test ev (evaluate test ev).status
unfolding evaluate
evaluate-Means test ev = elim (Bool-cases (str_eq ev.schema_version result_schema_version)) [
  | inl e ↦ rw e (evaluate_probed-Means test ev _ ((eq_iff _ _).0 e) refl)
  | inr e ↦ rw e (λ s. ground (arith, eq_iff ev.schema_version result_schema_version))
]

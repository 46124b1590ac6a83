-- ===== src/Integrations/Check/Verdicts.antt =====
-- What `reguard check` reports, next to what `RequirementTest.evaluate` says of the same evidence.
use reguard.Prelude.{
  ℕ, String, true, false, not, Option, none, List, [], ◌∷◌, map, any, length, is_empty, ◌≡◌, refl,
  ◌≢◌, ◌⊎◌, inl, inr, ◌↔◌, sym, arith, Any, is_empty_iff, Bool-cases,
}
use mathlib.Core.Path.{subst}
use reguard.Verdict.Types.{pass, fail, unknown}
use reguard.Verdict.Requirement.{CheckResult, RequirementTest, failed, reduce, evaluate}
use reguard.Verdict.Article.{article_12_1}
use reguard.Verdict.Article.Recording.{IsActivity, Recorded, assert_evidence_iff}
use reguard.Verdict.Reduction.{AllPassed, SomeFailed, not_both}
use reguard.Integrations.Normalizer.{CanonicalEvent, NormalizerResult}
use reguard.Integrations.Check.{
  all_passed, derive_status, evidence_event, evidence_of, integration_status,
}

derived :
    (checks : List CheckResult)
    → ((any (λ c. not c.passed) checks ≡ false) × AllPassed checks)
      ⊎ ((any (λ c. not c.passed) checks ≡ true) × SomeFailed checks)
derived [] = inl (refl, tt)
derived (c ∷ cs) = ground (arith, derived cs)

-- `_derive_status` says PASS or FAIL, and each truly: its third answer, UNKNOWN, is never given.
pub derive_status_iff :
    (checks : List CheckResult)
    → ((derive_status checks ≡ pass) ↔ AllPassed checks)
      × ((derive_status checks ≡ fail) ↔ SomeFailed checks)
      × (derive_status checks ≢ unknown)
unfolding derive_status
derive_status_iff checks = ground (arith, derived checks, not_both checks)

is_empty-keep : (checks : List CheckResult) → is_empty (failed checks) ≡ all_passed checks
is_empty-keep [] = refl
is_empty-keep (c ∷ cs) = ground (arith, is_empty-keep cs)

reduce-derive_status :
    (checks : List CheckResult) (n : ℕ) (q : Option String)
    → (reduce checks n q).status ≡ derive_status checks
unfolding reduce derive_status
reduce-derive_status checks n q = ground (arith, is_empty-keep checks)

is_empty-map : (es : List CanonicalEvent) → is_empty (map evidence_event es) ≡ is_empty es
is_empty-map [] = refl
is_empty-map (e ∷ es) = refl

evaluated_full :
    (test : RequirementTest) (r : NormalizerResult)
    → is_empty r.canonical_events ≡ false
    → (evaluate test (evidence_of r)).status ≡ integration_status test r
unfolding evaluate integration_status evidence_of
evaluated_full test r e =
    rw (is_empty-map r.canonical_events, e)
      (reduce-derive_status (test.assert_evidence (evidence_of r)) (length (evidence_of r).events)
        none)

evaluated_empty :
    (test : RequirementTest) (r : NormalizerResult)
    → is_empty r.canonical_events ≡ true
    → (evaluate test (evidence_of r)).status ≡ unknown
unfolding evaluate evidence_of
evaluated_empty test r e = rw (is_empty-map r.canonical_events, e)

unrecorded : (r : NormalizerResult) → r.canonical_events ≡ [] → ¬ Recorded (evidence_of r)
unfolding evidence_of
unrecorded r e h =
    subst (λ es. Any IsActivity (map evidence_event es) → ⊥) (sym e) (λ a. a) h.active

empty_fails :
    (r : NormalizerResult) → r.canonical_events ≡ [] → integration_status article_12_1 r ≡ fail
unfolding integration_status
empty_fails r e =
    let checks = article_12_1.assert_evidence (evidence_of r) in
    elim (derived checks) [
      | inl all ↦ absurd (unrecorded r e ((assert_evidence_iff (evidence_of r)).0 all.1))
      | inr bad ↦ ((derive_status_iff checks).1).1 bad.1
    ]

-- On evidence with an event, `reguard check` reports what the engine's own reduction says. Without
-- an event the engine says UNKNOWN and `reguard check` reports FAIL.
pub integration_status-evaluate :
    (r : NormalizerResult)
    → ((r.canonical_events ≢ [])
        × (integration_status article_12_1 r ≡ (evaluate article_12_1 (evidence_of r)).status))
      ⊎ ((r.canonical_events ≡ [])
          × (integration_status article_12_1 r ≡ fail)
          × ((evaluate article_12_1 (evidence_of r)).status ≡ unknown))
integration_status-evaluate r = elim (Bool-cases (is_empty r.canonical_events)) [
  | inl e ↦
      let none_seen = (is_empty_iff r.canonical_events).0 e in
      inr (none_seen, empty_fails r none_seen, evaluated_empty article_12_1 r e)
  | inr e ↦
      inl (
        λ f. ground (arith, is_empty_iff r.canonical_events),
        sym (evaluated_full article_12_1 r e),
      )
]

pub integration_status_cases :
    (test : RequirementTest) (r : NormalizerResult)
    → (integration_status test r ≡ pass) ⊎ (integration_status test r ≡ fail)
unfolding integration_status derive_status
integration_status_cases test r = ground (arith, derived (test.assert_evidence (evidence_of r)))

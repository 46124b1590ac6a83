-- ===== src/Integrations/Normalizer/Attestation.antt =====
-- When the observations that the base normalizer translates pass Article 12(1).
use reguard.Prelude.{
  String, true, false, Option, some, List, [], ◌∷◌, map, any, is_empty, ◌≡◌, ◌≢◌, refl, ◌⊎◌, inl,
  inr, ◌↔◌, arith, All, Any, is_empty_iff, str_eq, eq_iff, Bool-cases,
}
use reguard.Verdict.Types.{pass}
use reguard.Verdict.Article.{article_12_1}
use reguard.Verdict.Article.Recording.{
  IsStep, IsFromSystem, IsActivity, Recorded, assert_evidence_iff,
}
use reguard.Integrations.Normalizer.{
  NativeObservation, producer_to_origin, canonical_event_kinds, canonical_kind, canonical_event,
  is_system_origin, framework_artifacts, framework_persists, normalize,
}
use reguard.Integrations.Check.{evidence_event, evidence_of, integration_status}
use reguard.Integrations.Check.Verdicts.{derive_status_iff}

abbrev pub IsSystemProducer : String → Type 0
IsSystemProducer p = (p ≡ "system") ⊎ (p ≡ "system_state")

-- The kinds that count as activity: the three of them, and every unknown one.
abbrev pub IsActivityKind : String → Type 0
IsActivityKind k =
    (k ≡ "step")
    ⊎ (k ≡ "tool")
    ⊎ (k ≡ "model")
    ⊎ (any (λ c. str_eq c k) canonical_event_kinds ≡ false)

-- Everything was seen by the system itself, which left an artifact and showed some activity.
pub record Attested (obs : List NativeObservation) : Type 0 where
  pub genuine : All (λ o. IsSystemProducer o.producer) obs
  pub artifact : Any (λ o. o.framework_artifact_ref ≢ "") obs
  pub active : Any (λ o. IsActivityKind o.kind) obs

native_not_harness : ◌≢◌ {A = String} "SYSTEM_NATIVE" "HARNESS_GENERATED"
native_not_harness = ground (arith, eq_iff "SYSTEM_NATIVE" "HARNESS_GENERATED")

exported_not_harness : ◌≢◌ {A = String} "SYSTEM_STATE_EXPORTED_BY_HARNESS" "HARNESS_GENERATED"
exported_not_harness = ground (arith, eq_iff "SYSTEM_STATE_EXPORTED_BY_HARNESS" "HARNESS_GENERATED")

producer_cases :
    (p : String)
    → (IsSystemProducer p × IsFromSystem (some (producer_to_origin p)))
      ⊎ ((¬ IsSystemProducer p) × (producer_to_origin p ≡ "HARNESS_GENERATED"))
unfolding producer_to_origin
producer_cases p = elim (Bool-cases (str_eq p "system")) [
  | inl e ↦ inl (inl ((eq_iff p "system").0 e), rw e (inl refl))
  | inr e ↦ elim (Bool-cases (str_eq p "system_state")) [
    | inl f ↦ inl (inr ((eq_iff p "system_state").0 f), rw (e, f) (inr refl))
    | inr f ↦ inr (λ h. ground (arith, eq_iff p "system", eq_iff p "system_state"), rw (e, f) refl)
  ]
]

IsFromSystem-iff : (p : String) → IsFromSystem (some (producer_to_origin p)) ↔ IsSystemProducer p
IsFromSystem-iff p = ground (arith, producer_cases p, native_not_harness, exported_not_harness)

origin_harness_iff :
    (p : String)
    → ◌≢◌ {A = Option String} (some (producer_to_origin p)) (some "HARNESS_GENERATED")
      ↔ IsSystemProducer p
origin_harness_iff p = ground (arith, producer_cases p, native_not_harness, exported_not_harness)

is_system_origin_iff :
    (p : String) → (is_system_origin (producer_to_origin p) ≡ true) ↔ IsSystemProducer p
is_system_origin_iff p = ground (
  arith,
  IsFromSystem-iff p,
  eq_iff (producer_to_origin p) "SYSTEM_NATIVE",
  eq_iff (producer_to_origin p) "SYSTEM_STATE_EXPORTED_BY_HARNESS",
)

IsStep-kind_iff : (k : String) → IsStep (some (canonical_kind k)) ↔ IsActivityKind k
unfolding canonical_kind
IsStep-kind_iff k = elim (Bool-cases (any (λ c. str_eq c k) canonical_event_kinds)) [
  | inl e ↦ rw e (λ h. ground arith, λ h. ground arith)
  | inr e ↦ rw e (λ h. inr (inr (inr refl)), λ h. inl refl)
]

genuine_events_iff :
    (obs : List NativeObservation)
    → All (λ e. e.origin ≢ some "HARNESS_GENERATED") (map evidence_event (map canonical_event obs))
      ↔ All (λ o. IsSystemProducer o.producer) obs
unfolding evidence_event canonical_event
genuine_events_iff [] = ground arith
genuine_events_iff (o ∷ obs) = ground (arith, genuine_events_iff obs, origin_harness_iff o.producer)

active_events_iff :
    (obs : List NativeObservation)
    → All (λ o. IsSystemProducer o.producer) obs
    → Any IsActivity (map evidence_event (map canonical_event obs))
      ↔ Any (λ o. IsActivityKind o.kind) obs
unfolding evidence_event canonical_event
active_events_iff [] h = ground arith
active_events_iff (o ∷ obs) h =
    let rest = active_events_iff obs h.1 in
    let kind = IsStep-kind_iff o.kind in
    let origin = (IsFromSystem-iff o.producer).1 h.0 in
    (
      λ a. elim a [ inl b ↦ inl (kind.0 b.0) | inr b ↦ inr (rest.0 b) ],
      λ a. elim a [ inl b ↦ inl (kind.1 b, origin) | inr b ↦ inr (rest.1 b) ],
    )

artifacts_iff :
    (obs : List NativeObservation)
    → All (λ o. IsSystemProducer o.producer) obs
    → (is_empty (framework_artifacts obs) ≡ false) ↔ Any (λ o. o.framework_artifact_ref ≢ "") obs
unfolding framework_artifacts
artifacts_iff [] h = ground arith
artifacts_iff (o ∷ obs) h =
    ground (
      arith,
      artifacts_iff obs,
      is_system_origin_iff o.producer,
      eq_iff o.framework_artifact_ref "",
    )

any_system :
    (obs : List NativeObservation)
    → All (λ o. IsSystemProducer o.producer) obs
    → Any (λ o. o.framework_artifact_ref ≢ "") obs
    → any (λ e. is_system_origin e.origin) (map canonical_event obs) ≡ true
unfolding canonical_event
any_system [] h a = absurd a
any_system (o ∷ obs) h a = ground (arith, is_system_origin_iff o.producer)

Recorded-iff :
    (obs : List NativeObservation) (id v : String)
    → Recorded (evidence_of (normalize obs id v)) ↔ Attested obs
unfolding normalize evidence_of framework_persists
Recorded-iff [] id v = (λ h. absurd h.active, λ h. absurd h.artifact)
Recorded-iff (o ∷ obs) id v = (
  λ h.
      let genuine = (genuine_events_iff (o ∷ obs)).0 h.genuine in
      record {
        genuine = genuine;
        artifact =
            (artifacts_iff (o ∷ obs) genuine).0
              (ground (arith, h.has_artifact, is_empty_iff (framework_artifacts (o ∷ obs))));
        active = (active_events_iff (o ∷ obs) genuine).0 h.active;
      },
  λ h.
      let sys = any_system (o ∷ obs) h.genuine h.artifact in
      let full = (artifacts_iff (o ∷ obs) h.genuine).1 h.artifact in
      record {
        genuine = (genuine_events_iff (o ∷ obs)).1 h.genuine;
        durable_category = inr (rw (sys, full) refl);
        persists = rw (sys, full) refl;
        has_artifact = ground (arith, full, is_empty_iff (framework_artifacts (o ∷ obs)));
        active = (active_events_iff (o ∷ obs) h.genuine).1 h.active;
      },
)

-- What the base normalizer makes of a list of observations passes Article 12(1) in `reguard check`
-- exactly when the system itself (`system` or `system_state`) made every one of them, one of them
-- names an artifact, and one is a step, a tool call, a model call or of an unknown kind.
pub normalize-pass_iff :
    (obs : List NativeObservation) (id v : String)
    → (integration_status article_12_1 (normalize obs id v) ≡ pass) ↔ Attested obs
unfolding integration_status
normalize-pass_iff obs id v =
    let ev = evidence_of (normalize obs id v) in
    ground (
      arith,
      (derive_status_iff (article_12_1.assert_evidence ev)).0,
      assert_evidence_iff ev,
      Recorded-iff obs id v,
    )

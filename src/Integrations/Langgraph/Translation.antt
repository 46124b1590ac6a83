-- ===== src/Integrations/Langgraph/Translation.antt =====
-- The family's normalizer next to the base class's.
use reguard.Prelude.{
  String, ◌||◌, List, [], ◌∷◌, map, any, is_empty, ◌≡◌, refl, ap, sym, arith, str_eq, ◌↔◌,
}
use mathlib.Core.Path.{subst}
use reguard.Verdict.Types.{pass}
use reguard.Verdict.Article.{article_12_1}
use reguard.Integrations.Normalizer.{
  NativeObservation, CanonicalEvent, NormalizerResult, producer_to_origin, canonical_event,
  is_system_origin, framework_artifacts, harness_artifacts, framework_persists, normalize,
}
use reguard.Integrations.Normalizer.Attestation.{Attested, normalize-pass_iff}
use reguard.Integrations.Check.{integration_status}
use reguard.Integrations.Langgraph.Family.{
  kind_map, family_event, family_persists, family_normalize,
}

-- The observation with its kind translated
unfoldable pub renamed : NativeObservation → NativeObservation
unfolding kind_map
renamed o = record {
  kind = kind_map o.kind;
  producer = o.producer;
  name = o.name;
  content = o.content;
  ts = o.ts;
  framework_artifact_ref = o.framework_artifact_ref;
}

map-family_event :
    (obs : List NativeObservation) → map family_event obs ≡ map canonical_event (map renamed obs)
unfolding family_event canonical_event renamed
map-family_event [] = refl
map-family_event (o ∷ obs) =
    ap (λ (es : List CanonicalEvent). family_event o ∷ es) (map-family_event obs)

framework_artifacts-renamed :
    (obs : List NativeObservation) → framework_artifacts (map renamed obs) ≡ framework_artifacts obs
unfolding framework_artifacts renamed
framework_artifacts-renamed [] = refl
framework_artifacts-renamed (o ∷ obs) = rw (framework_artifacts-renamed obs) refl

harness_artifacts-renamed :
    (obs : List NativeObservation) → harness_artifacts (map renamed obs) ≡ harness_artifacts obs
unfolding harness_artifacts renamed
harness_artifacts-renamed [] = refl
harness_artifacts-renamed (o ∷ obs) = rw (harness_artifacts-renamed obs) refl

either_origin :
    (obs : List NativeObservation)
    → (any (λ o. str_eq (producer_to_origin o.producer) "SYSTEM_NATIVE") obs
        || any (λ o. str_eq (producer_to_origin o.producer) "SYSTEM_STATE_EXPORTED_BY_HARNESS") obs)
      ≡ any (λ e. is_system_origin e.origin) (map canonical_event (map renamed obs))
unfolding canonical_event renamed
either_origin [] = refl
either_origin (o ∷ obs) = ground (arith, either_origin obs)

family_persists-renamed :
    (obs : List NativeObservation)
    → family_persists obs
      ≡ framework_persists
          (map canonical_event (map renamed obs))
          (framework_artifacts (map renamed obs))
unfolding family_persists framework_persists
family_persists-renamed obs =
    ground (arith, either_origin obs, ap (is_empty {A = String}) (framework_artifacts-renamed obs))

-- The family's normalizer is the base class's on observations whose kinds are translated first.
family_normalize-normalize :
    (obs : List NativeObservation) (id v : String)
    → family_normalize obs id v ≡ normalize (map renamed obs) id v
unfolding family_normalize normalize
family_normalize-normalize [] id v = refl
family_normalize-normalize (o ∷ obs) id v =
    rw
      (
        map-family_event (o ∷ obs),
        family_persists-renamed (o ∷ obs),
        sym (framework_artifacts-renamed (o ∷ obs)),
        sym (harness_artifacts-renamed (o ∷ obs)),
      )
      refl

-- In `reguard check`, observations that the family's normalizer translates pass Article 12(1) exactly
-- when, with their kinds translated, the system itself made every one of them, one of them names an
-- artifact, and one is a step, a tool call, a model call or of an unknown kind.
pub family_normalize-pass_iff :
    (obs : List NativeObservation) (id v : String)
    → (integration_status article_12_1 (family_normalize obs id v) ≡ pass)
      ↔ Attested (map renamed obs)
family_normalize-pass_iff obs id v =
    subst
      (λ (r : NormalizerResult).
        (integration_status article_12_1 r ≡ pass) ↔ Attested (map renamed obs))
      (sym (family_normalize-normalize obs id v)) (normalize-pass_iff (map renamed obs) id v)

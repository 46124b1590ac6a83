-- ===== src/Verdict/Article/Examples.antt =====
-- Runs of the Article 12(1) test on concrete bundles.
use mathlib.Core.List.Perm
use reguard.Prelude.{true, none, some, [], ◌∷◌, ◌≡◌, ◌↔◌, refl}
use reguard.Verdict.Types.{Event, Extra, Evidence, pass, fail, unknown, error}
use reguard.Verdict.Requirement.{evaluate}
use reguard.Verdict.Article.{article_12_1, assert_evidence, category_checks}
use reguard.Verdict.Reduction.{IsSettled, Means, evaluate-Means}
use reguard.Verdict.Article.Recording.{Recorded}
use reguard.Verdict.Article.Passing.{evaluate-perm, evaluate-pass_iff}

abbrev turn : Event
turn = record { kind = some "step"; origin = some "SYSTEM_NATIVE" }

abbrev crash : Event
crash = record { kind = some "error"; origin = some "SYSTEM_NATIVE" }

abbrev invented : Event
invented = record { kind = some "step"; origin = some "HARNESS_GENERATED" }

abbrev durable : Extra
durable = record {
  probe_status = some "ok";
  probe_returncode = none;
  reason = none;
  observation_quality = none;
  recording_category = some "A";
  framework_persists_durably = true;
  framework_artifact_paths = "conversation.jsonl" ∷ [];
  harness_artifact_paths = [];
}

abbrev bundle : Evidence
bundle = record { schema_version = "2"; events = turn ∷ crash ∷ []; extra = durable }

abbrev forged : Evidence
forged = record bundle { events = turn ∷ invented ∷ [] }

abbrev silent : Evidence
silent = record bundle { events = [] }

abbrev absent : Evidence
absent = record silent { extra = record durable { observation_quality = some "observed_absence" } }

abbrev crashed : Evidence
crashed = record bundle { extra = record durable { probe_status = some "probe_failed" } }

bundle_passes : (evaluate article_12_1 bundle).status ≡ pass
unfolding evaluate assert_evidence category_checks
bundle_passes = refl

forged_fails : (evaluate article_12_1 forged).status ≡ fail
unfolding evaluate assert_evidence category_checks
forged_fails = refl

silent_unknown : (evaluate article_12_1 silent).status ≡ unknown
unfolding evaluate assert_evidence category_checks
silent_unknown = refl

absent_fails : (evaluate article_12_1 absent).status ≡ fail
unfolding evaluate assert_evidence category_checks
absent_fails = refl

crashed_errs : (evaluate article_12_1 crashed).status ≡ error
unfolding evaluate assert_evidence category_checks
crashed_errs = refl

evaluate-perm_example :
    (evaluate article_12_1 (record bundle { events = crash ∷ turn ∷ [] })).status
    ≡ (evaluate article_12_1 bundle).status
evaluate-perm_example = evaluate-perm bundle (crash ∷ turn ∷ []) (Perm.swap crash turn [])

evaluate-pass_iff_example :
    ((evaluate article_12_1 bundle).status ≡ pass) ↔ (IsSettled bundle × Recorded bundle)
evaluate-pass_iff_example = evaluate-pass_iff bundle

evaluate-Means_example : Means article_12_1 silent (evaluate article_12_1 silent).status
evaluate-Means_example = evaluate-Means article_12_1 silent

-- ===== src/Verdict/Article/Recording.antt =====
-- When Article 12(1) passes, said of the evidence alone.
use reguard.Prelude.{
  ltb, String, true, false, not, ◌||◌, Option, none, some, List, [], ◌∷◌, ◌≡◌, refl, ◌≢◌, ◌⊎◌, ◌↔◌,
  inl, inr, All, Any, length, keep, is_empty, length_pos_iff, str_eq, eq_iff, arith, Bool-cases,
  if_both,
}
use reguard.Verdict.Types.{Event, Evidence}
use reguard.Verdict.Article.{
  origin, is_eligible_origin, origin_of, kind_is, harness_generated_events, eligible_events,
  is_harness, is_step_kind, is_fatal_error, is_eligible_step, category, category_or_e,
  category_checks, persistence_check, step_check, assert_evidence,
}
use reguard.Verdict.Reduction.{AllPassed, SomeFailed, not_both}

-- A step, a tool call or a model call.
abbrev pub IsStep : Option String → Type 0
IsStep kind = (kind ≡ some "step") ⊎ (kind ≡ some "tool") ⊎ (kind ≡ some "model")

abbrev pub IsFromSystem : Option String → Type 0
IsFromSystem o = (o ≡ some "SYSTEM_NATIVE") ⊎ (o ≡ some "SYSTEM_STATE_EXPORTED_BY_HARNESS")

abbrev pub IsActivity : Event → Type 0
IsActivity e = IsStep e.kind × IsFromSystem e.origin

-- The framework recorded its own activity durably, and the harness made up no event.
pub record Recorded (ev : Evidence) : Type 0 where
  pub genuine : All (λ e. e.origin ≢ some "HARNESS_GENERATED") ev.events
  pub durable_category :
      (ev.extra.recording_category ≡ some "A") ⊎ (ev.extra.recording_category ≡ some "B")
  pub persists : ev.extra.framework_persists_durably ≡ true
  pub has_artifact : ev.extra.framework_artifact_paths ≢ []
  pub active : Any IsActivity ev.events

is_harness_iff :
    (o : Option String) → (is_harness (origin_of o) ≡ true) ↔ (o ≡ some "HARNESS_GENERATED")
unfolding is_harness origin_of
is_harness_iff none = ground arith
is_harness_iff (some raw) = ground (
  arith,
  eq_iff raw "",
  eq_iff raw "SYSTEM_NATIVE",
  eq_iff raw "SYSTEM_STATE_EXPORTED_BY_HARNESS",
  eq_iff raw "HARNESS_GENERATED",
  eq_iff "" "HARNESS_GENERATED",
  eq_iff "SYSTEM_NATIVE" "HARNESS_GENERATED",
  eq_iff "SYSTEM_STATE_EXPORTED_BY_HARNESS" "HARNESS_GENERATED",
)

is_eligible_origin_iff :
    (o : Option String) → (is_eligible_origin (origin_of o) ≡ true) ↔ IsFromSystem o
unfolding is_eligible_origin origin_of
is_eligible_origin_iff none = ground arith
is_eligible_origin_iff (some raw) = ground (
  arith,
  eq_iff raw "",
  eq_iff raw "SYSTEM_NATIVE",
  eq_iff raw "SYSTEM_STATE_EXPORTED_BY_HARNESS",
  eq_iff raw "HARNESS_GENERATED",
  eq_iff "" "SYSTEM_NATIVE",
  eq_iff "" "SYSTEM_STATE_EXPORTED_BY_HARNESS",
  eq_iff "SYSTEM_NATIVE" "SYSTEM_STATE_EXPORTED_BY_HARNESS",
)

kind_is_iff : (name : String) (k : Option String) → (kind_is name k ≡ true) ↔ (k ≡ some name)
unfolding kind_is
kind_is_iff name none = ground arith
kind_is_iff name (some kind) = ground (arith, eq_iff kind name)

is_eligible_step_iff : (e : Event) → (is_eligible_step e ≡ true) ↔ IsActivity e
unfolding is_eligible_step is_step_kind origin
is_eligible_step_iff e = ground (
  arith,
  kind_is_iff "step" e.kind,
  kind_is_iff "tool" e.kind,
  kind_is_iff "model" e.kind,
  is_eligible_origin_iff e.origin,
)

step_not_error : (e : Event) → IsActivity e → is_fatal_error e ≡ false
unfolding is_fatal_error
step_not_error e h = ground (arith, kind_is_iff "error" e.kind)

genuine_iff :
    (es : List Event)
    → (is_empty (harness_generated_events es) ≡ true)
      ↔ All (λ e. e.origin ≢ some "HARNESS_GENERATED") es
unfolding harness_generated_events origin
genuine_iff [] = ground arith
genuine_iff (e ∷ es) = ground (arith, is_harness_iff e.origin, genuine_iff es)

active_iff : (es : List Event) → (ltb 0 (length (eligible_events es)) ≡ true) ↔ Any IsActivity es
unfolding eligible_events
active_iff [] = ground arith
active_iff (e ∷ es) = ground (arith, is_eligible_step_iff e, active_iff es)

present_of_active :
    (es : List Event)
    → Any IsActivity es
    → ltb 0 (length (keep (λ e. not (is_fatal_error e)) es)) ≡ true
present_of_active [] h = absurd h
present_of_active (e ∷ es) h = ground (arith, step_not_error e, present_of_active es)

category_or_e_durable :
    (c : Option String)
    → ((str_eq (category_or_e c) "A" || str_eq (category_or_e c) "B") ≡ true)
      ↔ ((c ≡ some "A") ⊎ (c ≡ some "B"))
unfolding category_or_e
category_or_e_durable none = ground (arith, eq_iff "E" "A", eq_iff "E" "B")
category_or_e_durable (some c) = elim (Bool-cases (str_eq c "")) [
  | inl e ↦
      rw e
        (ground (arith, eq_iff c "", eq_iff "E" "A", eq_iff "E" "B", eq_iff "" "A", eq_iff "" "B"))
  | inr e ↦ rw e (ground (arith, eq_iff c "A", eq_iff c "B"))
]

-- Outside the categories A and B one check always fails.
category_checks_fail :
    (c : String) (ev : Evidence)
    → (str_eq c "A" || str_eq c "B") ≡ false
    → SomeFailed (category_checks c ev)
unfolding category_checks
category_checks_fail c ev h = rw h (
    if_both SomeFailed (str_eq c "C") _ _ (inl refl) (
      if_both SomeFailed (str_eq c "D") _ _ (inl refl)
        (if_both SomeFailed (str_eq c "E") _ _ (inl refl) (inl refl))))

category_checks_durable :
    (c : String) (ev : Evidence)
    → (str_eq c "A" || str_eq c "B") ≡ true
    → category_checks c ev ≡ persistence_check ev ∷ step_check ev.events ∷ []
unfolding category_checks
category_checks_durable c ev h = rw h

persistence_check_iff :
    (ev : Evidence)
    → ((persistence_check ev).passed ≡ true)
      ↔ ((ev.extra.framework_persists_durably ≡ true) × (ev.extra.framework_artifact_paths ≢ []))
unfolding persistence_check
persistence_check_iff ev = ground (arith, length_pos_iff ev.extra.framework_artifact_paths)

-- All checks of Article 12(1) pass exactly on a recorded bundle.
pub assert_evidence_iff : (ev : Evidence) → AllPassed (assert_evidence ev) ↔ Recorded ev
unfolding assert_evidence step_check category
assert_evidence_iff ev = elim (Bool-cases (str_eq (category ev) "A" || str_eq (category ev) "B")) [
  | inl e ↦ rw (category_checks_durable (category ev) ev e) (
      ground (
        arith,
        genuine_iff ev.events,
        present_of_active ev.events,
        active_iff ev.events,
        persistence_check_iff ev,
        category_or_e_durable ev.extra.recording_category,
      ))
  | inr e ↦ (
    λ h. absurd (not_both _ h.1.1 (category_checks_fail (category ev) ev e)),
    λ r. ground (arith, category_or_e_durable ev.extra.recording_category),
  )
]

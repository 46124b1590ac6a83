-- ===== src/Legal/Articles/Testable.antt =====
-- When an obligation is proposed as testable at runtime, and what a testable one has.
use reguard.Prelude.{
  String, Bool, true, false, Option, none, ◌≡◌, ◌≢◌, ◌⊎◌, ◌↔◌, arith, if◌then◌else◌,
}
use reguard.Legal.Signals.{
  applicability_title_keywords, definitions_title_keywords, documentation_verb_signals,
  behaviour_verb_signals, prohibited_title_keywords, model_level_signals,
}
use reguard.Legal.Articles.{
  LegalText, runtime_testable, partially_runtime_testable, agent_relevant_not_runtime_testable,
  not_agent_system_relevant, applicability_only, ProposedAssessment, normal, has_keyword, has_any,
  by_signals, propose, prohibited_practice, classify_atomic,
}

-- The six tests that decide, apart from the texts
module _ (definitions scope prohibited is_doc is_beh is_model : Bool) where
  abbrev decided : ProposedAssessment
  decided =
      if definitions
      then propose not_agent_system_relevant false
      else if scope
      then propose applicability_only false
      else if prohibited
      then prohibited_practice
      else by_signals is_doc is_beh is_model

  decided-runtime_iff : (decided.classification ≡ runtime_testable) ↔ (
      (definitions ≡ false)
      × (scope ≡ false)
      × (prohibited ≡ false)
      × (is_doc ≡ false)
      × (is_beh ≡ true)
      × (is_model ≡ false))
  unfolding by_signals
  decided-runtime_iff = ground arith

  decided-partially_iff :
      (decided.classification ≡ partially_runtime_testable)
      ↔ ((definitions ≡ false) × (scope ≡ false) × (prohibited ≡ true))
  unfolding by_signals
  decided-partially_iff = ground arith

  decided-rule_iff : (decided.testability_rule ≢ none) ↔ (
      (decided.classification ≡ runtime_testable)
      ⊎ (decided.classification ≡ partially_runtime_testable))
  unfolding by_signals
  decided-rule_iff = ground arith

  decided-never : decided.classification ≢ agent_relevant_not_runtime_testable
  unfolding by_signals
  decided-never = ground arith

-- An obligation is proposed as testable at runtime exactly if the title of its article has none of the
-- words of the three lists and its text signals behaviour and neither documentation nor a model, and as
-- partially testable exactly if the title has a word of a prohibition and none of the other two. A
-- proposal has a rule exactly if it is one of these two, and is never
-- AGENT_RELEVANT_NOT_RUNTIME_TESTABLE.
pub classify_atomic_iff :
    (text : LegalText) (article_title atomic_text : Option String)
    → let p = classify_atomic text article_title atomic_text in
      let title = normal text article_title in
      let lowered = normal text atomic_text in
      ((p.classification ≡ runtime_testable) ↔ (
        (has_keyword title definitions_title_keywords ≡ false)
        × (has_keyword title applicability_title_keywords ≡ false)
        × (has_keyword title prohibited_title_keywords ≡ false)
        × (has_any text lowered documentation_verb_signals ≡ false)
        × (has_any text lowered behaviour_verb_signals ≡ true)
        × (has_any text lowered model_level_signals ≡ false)))
      × ((p.classification ≡ partially_runtime_testable) ↔ (
          (has_keyword title definitions_title_keywords ≡ false)
          × (has_keyword title applicability_title_keywords ≡ false)
          × (has_keyword title prohibited_title_keywords ≡ true)))
      × ((p.testability_rule ≢ none) ↔ (
          (p.classification ≡ runtime_testable) ⊎ (p.classification ≡ partially_runtime_testable)))
      × (p.classification ≢ agent_relevant_not_runtime_testable)
unfolding classify_atomic
classify_atomic_iff text article_title atomic_text =
    let title = normal text article_title in
    let lowered = normal text atomic_text in
    let d = has_keyword title definitions_title_keywords in
    let s = has_keyword title applicability_title_keywords in
    let x = has_keyword title prohibited_title_keywords in
    let doc = has_any text lowered documentation_verb_signals in
    let beh = has_any text lowered behaviour_verb_signals in
    let mod' = has_any text lowered model_level_signals in
    (
      decided-runtime_iff d s x doc beh mod',
      decided-partially_iff d s x doc beh mod',
      decided-rule_iff d s x doc beh mod',
      decided-never d s x doc beh mod',
    )

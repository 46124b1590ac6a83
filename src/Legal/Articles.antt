-- ===== src/Legal/Articles.antt =====
-- `classify_atomic` of src/compliance/requirements/article_classifier.py.
--
-- `re.search` and Python's `lower` and `strip` are a parameter.
pub mod Testable
use reguard.Prelude.{
  String, Bool, true, false, not, ◌&&◌, Option, none, some, List, [], ◌∷◌, any, contains,
  if◌then◌else◌,
}
use reguard.Legal.Signals.{
  applicability_title_keywords, definitions_title_keywords, documentation_verb_signals,
  behaviour_verb_signals, prohibited_title_keywords, model_level_signals,
}

pub record LegalText : Type 0 where
  pub search : String → String → Bool
  pub lower : String → String
  pub strip : String → String

pub data Label : Type 0 where
  runtime_testable partially_runtime_testable agent_relevant_not_runtime_testable : Label
  process_or_documentation model_level applicability_only not_agent_system_relevant unclear : Label

pub record TestabilityRule : Type 0 where
  pub precondition : String
  pub stimulus : String
  pub observable : String
  pub assertion : String

-- The prose of `notes` is left out.
pub record ProposedAssessment : Type 0 where
  pub classification : Label
  pub agent_system_relevant : Bool
  pub applicability_note : Option String
  pub testability_rule : Option TestabilityRule

abbrev pub propose : Label → Bool → ProposedAssessment
propose label relevant = record {
  classification = label;
  agent_system_relevant = relevant;
  applicability_note = none;
  testability_rule = none;
}

abbrev pub prohibited_practice : ProposedAssessment
prohibited_practice = record {
  classification = partially_runtime_testable;
  agent_system_relevant = true;
  applicability_note =
      some "Triggers: Article 5 list — applies to any AI system, not only high-risk.";
  testability_rule = some (record {
    precondition = "system presents the stimulus described in the provision";
    stimulus = "the specific prohibited input / use case";
    observable = "system output / behaviour";
    assertion = "system does not produce the prohibited outcome";
  });
}

abbrev pub behaviour : ProposedAssessment
behaviour = record {
  classification = runtime_testable;
  agent_system_relevant = true;
  applicability_note = none;
  testability_rule = some (record {
    precondition = "system is deployed in a controlled runtime with logging enabled";
    stimulus = "normal operation of the system in scope";
    observable = "system logs / output / interface state";
    assertion = "observable matches the obligation's required behaviour";
  });
}

-- `(x or "").strip().lower()`
abbrev pub normal : LegalText → Option String → String
normal text none = text.lower (text.strip "")
normal text (some s) = text.lower (text.strip s)

-- `any(k in title_lower for k in keywords)`
unfoldable pub has_keyword : String → List String → Bool
has_keyword title keywords = any (λ k. contains title k) keywords

unfoldable pub has_any : LegalText → String → List String → Bool
has_any text lowered signals = any (λ s. text.search s lowered) signals

-- 4. The heuristic on the obligation's text
unfoldable pub by_signals : Bool → Bool → Bool → ProposedAssessment
by_signals is_doc is_beh is_model =
    if is_model && is_beh
    then propose unclear false
    else if is_model
    then propose model_level false
    else if is_doc
    then propose process_or_documentation true
    else if is_beh
    then behaviour
    else propose unclear true

unfoldable pub classify_atomic : LegalText → Option String → Option String → ProposedAssessment
unfolding has_keyword has_any by_signals
classify_atomic text article_title atomic_text =
    let title = normal text article_title in
    let lowered = normal text atomic_text in
    if has_keyword title definitions_title_keywords
    then propose not_agent_system_relevant false
    else if has_keyword title applicability_title_keywords
    then propose applicability_only false
    else if has_keyword title prohibited_title_keywords
    then prohibited_practice
    else by_signals (has_any text lowered documentation_verb_signals)
        (has_any text lowered behaviour_verb_signals) (has_any text lowered model_level_signals)

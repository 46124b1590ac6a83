-- ===== src/Legal/Examples.antt =====
-- One obligation, and a law of one recital, one article and no annex.
use reguard.Prelude.{
  ℕ, String, str_eq, true, false, Option, none, some, [], ◌∷◌, ◌≡◌, ◌≢◌, ◌⊎◌, ◌↔◌,
}
use reguard.Legal.Signals.{
  applicability_title_keywords, definitions_title_keywords, documentation_verb_signals,
  behaviour_verb_signals, prohibited_title_keywords, model_level_signals,
}
use reguard.Legal.Articles.{
  LegalText, runtime_testable, partially_runtime_testable, agent_relevant_not_runtime_testable,
  normal, has_keyword, has_any, classify_atomic,
}
use reguard.Legal.Articles.Testable.{classify_atomic_iff}
use reguard.Legal.Chunks.{ChunkText, ParsedLaw}

abbrev text : LegalText
text = record {
  search = λ (pattern' : String) (s : String). str_eq pattern' "shall (?:be )?able to";
  lower = λ (s : String). s;
  strip = λ (s : String). s;
}

abbrev record_keeping : Option String
record_keeping = some "record-keeping"

abbrev obligation : Option String
obligation = some "shall be able to record events"

classify_atomic_iff_example :
    let p = classify_atomic text record_keeping obligation in
    let title = normal text record_keeping in
    let lowered = normal text obligation in
    ((p.classification ≡ runtime_testable) ↔ (
      (has_keyword title definitions_title_keywords ≡ false)
      × (has_keyword title applicability_title_keywords ≡ false)
      × (has_keyword title prohibited_title_keywords ≡ false)
      × (has_any text lowered documentation_verb_signals ≡ false)
      × (has_any text lowered behaviour_verb_signals ≡ true)
      × (has_any text lowered model_level_signals ≡ false)))
    × ((p.classification ≡ partially_runtime_testable) ↔ (
        (has_keyword title definitions_title_keywords ≡ false)
        × (has_keyword title applicability_title_keywords ≡ false)
        × (has_keyword title prohibited_title_keywords ≡ true)))
    × ((p.testability_rule ≢ none)
        ↔ ((p.classification ≡ runtime_testable) ⊎ (p.classification ≡ partially_runtime_testable)))
    × (p.classification ≢ agent_relevant_not_runtime_testable)
classify_atomic_iff_example = classify_atomic_iff text record_keeping obligation

abbrev tx : ChunkText
tx = record {
  strip = λ (s : String). s;
  len = λ (s : String). 0;
  markers = λ (s : String). record { start = 0; group = "1" } ∷ [];
  slice = λ (s : String) (i : ℕ) (j : ℕ). s;
  drop_marker = λ (s : String). s;
}

abbrev law : ParsedLaw
law = record {
  recitals = record { number = "1"; text = "Whereas" } ∷ [];
  articles = record { article_number = "12"; title = "Record-keeping"; text = "(1) Systems" } ∷ [];
  annexes = [];
}

-- ===== src/Corpus/Examples.antt =====
-- One repository, classified, found and classified again.
use reguard.Prelude.{
  String, str_eq, true, false, Option, none, some, List, [], ◌∷◌, ◌++◌, ◌≡◌, ◌≢◌, ◌⊎◌, ◌↔◌, arith,
  All, length,
}
use reguard.Corpus.Patterns.Runtime.{general_agent}
use reguard.Corpus.Classifier.{
  RepoText, Repo, accepted, topics, has_agent_runtime_topic, has_desc_hint, rejection,
  matched_categories, classify,
}
use reguard.Corpus.Classifier.Coherence.{
  IsCoherent, Raises, classify-IsCoherent, classify-accepted_iff, classify-Raises,
}
use reguard.Corpus.Repositories.{AgentRepository}
use reguard.Corpus.Reclassify.{reclassify}
use reguard.Corpus.Reclassify.Again.{IsReclassified, Rows, reclassify-again}
use reguard.Corpus.Discovery.{GithubText, GithubItem, discover}
use reguard.Corpus.Discovery.Growth.{Within, IsDiscovered, discover-grows}

-- The one pattern that matches
abbrev text : RepoText
text = record {
  search = λ (pattern' : String) (s : String). str_eq pattern' "\\bagentic\\b";
  lower = λ (s : String). s;
  strip = λ (s : String). s;
  repr = λ (s : String). s;
}

abbrev haystack : Repo
haystack = record {
  name = some "haystack";
  full_name = some "deepset-ai/haystack";
  description = some "an agentic framework";
  topics = "ai-agent" ∷ [];
  archived = false;
  fork = false;
  pushed_at = some "2026-01-01T00:00:00";
  language = some "Python";
  stargazers_count = 150;
}

abbrev row : AgentRepository
row = record {
  id = 1;
  github_id = 40;
  full_name = "deepset-ai/haystack";
  name = "haystack";
  html_url = "https://github.com/deepset-ai/haystack";
  description = some "an agentic framework";
  primary_language = some "Python";
  topics = "ai-agent" ∷ [];
  stars = 150;
  github_pushed_at = some "2026-01-01T00:00:00";
  archived = false;
  fork = false;
  agent_category = general_agent;
  relevance_status = accepted;
  relevance_confidence = 6500;
  relevance_reason = "";
  discovery_query = "topic:ai-agent";
  reclassified_at = none;
  enabled = true;
}

abbrev tx : GithubText
tx = record { text = text; last_part = λ (s : String). s; parse_iso = λ (s : Option String). s }

abbrev search : String → Option (List GithubItem)
search query = some (record { id = some 41; html_url = none; repo = haystack } ∷ [])

classify-IsCoherent_example : IsCoherent (classify text haystack)
classify-IsCoherent_example = classify-IsCoherent text haystack

classify-accepted_iff_example : ((classify text haystack).relevance_status ≡ accepted) ↔ (
    (rejection text haystack ≡ none)
    × ((has_agent_runtime_topic (topics text haystack) ≡ true)
        ⊎ ((has_desc_hint text haystack ≡ true) × (matched_categories text haystack ≢ []))))
classify-accepted_iff_example = classify-accepted_iff text haystack

classify-Raises_example :
    Raises
      (classify text (record haystack { stargazers_count = 20 }))
      (classify text (record haystack { stargazers_count = 150 }))
classify-Raises_example = classify-Raises text haystack 20 150 (omega arith)

reclassify-again_example :
    let first = reclassify text none none false 5 (row ∷ []) in
    let second = reclassify text none none false 6 first.0 in
    Rows (IsReclassified text none 5) (row ∷ []) first.0
    × (second.0 ≡ first.0)
    × (second.1.updated ≡ 0)
    × ((reclassify text none none true 5 (row ∷ [])).0 ≡ row ∷ [])
reclassify-again_example = reclassify-again text none 5 6 (row ∷ []) (tt, tt)

discover-grows_example :
    let out = discover tx search ("topic:ai-agent" ∷ []) 20 (some 3) (row ∷ []) in
    (added : List AgentRepository) × (out.1 ≡ (row ∷ []) ++ added)
    × All (IsDiscovered tx.text 20 (row ∷ [])) added
    × (out.0.inserted ≡ length added)
    × Within (some 3) (length added)
discover-grows_example = discover-grows tx search ("topic:ai-agent" ∷ []) 20 (some 3) (row ∷ [])

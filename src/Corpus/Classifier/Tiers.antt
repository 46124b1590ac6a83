-- ===== src/Corpus/Classifier/Tiers.antt =====
-- The ways through the tiers of `classify`, after the checks.
use reguard.Prelude.{
  ℕ, ◌*◌, ◌/◌, leb, String, true, false, List, [], ◌≡◌, ◌≢◌, refl, inl, inr, any, Bool-cases,
  if◌then◌else◌,
}
use reguard.Corpus.Patterns.Runtime.{
  AgentCategory, other_agent, unknown, category_name, category_eq,
}
use reguard.Corpus.Classifier.{
  RepoText, Repo, RelevanceStatus, accepted, candidate, Classification, topics, has_desc_hint,
  has_agent_runtime_topic, matched_categories, by_topic, by_hint, tier,
}
use reguard.Corpus.Classifier.Categories.{
  base, IsAgent, IsAgent-not_unknown, best_category_cases, matched_categories-IsAgent,
}

abbrev pub given : RelevanceStatus → AgentCategory → ℕ → String → Classification
given status category confidence reason = record {
  relevance_status = status;
  agent_category = category;
  confidence = confidence;
  reason = reason;
}

module _ (text : RepoText) (r : Repo) where
  abbrev pub matched : List AgentCategory
  matched = matched_categories text r

  abbrev pub with_stars : ℕ → Repo
  with_stars n = record r { stargazers_count = n }

  -- The five ways through the tiers, for every number of stars.
  pub data Shape : Type 0 where
    by_topic_alone :
        has_agent_runtime_topic (topics text r) ≡ true
        → ((n : ℕ)
            → tier text (with_stars n)
              ≡ given accepted other_agent
                  (if leb 100 n then 7500 else 6000)
                  "agent-runtime topic, no category-specific match")
        → Shape
    by_topic_and_category :
        has_agent_runtime_topic (topics text r) ≡ true
        → (c : AgentCategory) → IsAgent c
        → any (category_eq c) matched ≡ true
        → ((n : ℕ)
            → tier text (with_stars n)
              ≡ given accepted c (base n) "agent-runtime topic matched a category")
        → Shape
    by_hint_and_category :
        has_agent_runtime_topic (topics text r) ≡ false
        → has_desc_hint text r ≡ true
        → matched ≢ []
        → (c : AgentCategory) → IsAgent c
        → any (category_eq c) matched ≡ true
        → ((n : ℕ)
            → tier text (with_stars n)
              ≡ given accepted c (base n * 85 / 100) "agent description + category-specific match")
        → Shape
    unmatched :
        has_agent_runtime_topic (topics text r) ≡ false
        → matched ≡ []
        → ((n : ℕ)
            → tier text (with_stars n)
              ≡ given candidate unknown 4500 "agent description but no category-specific match")
        → Shape
    unsignalled :
        has_agent_runtime_topic (topics text r) ≡ false
        → has_desc_hint text r ≡ false
        → ((n : ℕ)
            → tier text (with_stars n)
              ≡ given candidate unknown 2000 "no agent-runtime topic or description hint detected")
        → Shape

  topic_shape : has_agent_runtime_topic (topics text r) ≡ true → Shape
  unfolding tier by_topic category_eq category_name
  topic_shape topic = elim (best_category_cases matched (matched_categories-IsAgent text r)) [
    | inl (empty, best) ↦ by_topic_alone topic (λ n. rw (topic, tier) (rw (best n, by_topic) refl))
    | inr (some', (c, agent, hit, best)) ↦ by_topic_and_category topic c agent hit (λ n.
        rw (topic, tier) (rw (best n, by_topic) (rw (IsAgent-not_unknown c agent, by_topic) refl)))
  ]

  hint_shape : has_agent_runtime_topic (topics text r) ≡ false → has_desc_hint text r ≡ true → Shape
  unfolding tier by_hint category_eq category_name
  hint_shape plain hint = elim (best_category_cases matched (matched_categories-IsAgent text r)) [
    | inl (empty, best) ↦
        unmatched plain empty (λ n. rw (plain, tier) (rw (hint, tier) (rw (best n, by_hint) refl)))
    | inr (some', (c, agent, hit, best)) ↦ by_hint_and_category plain hint some' c agent hit (λ n.
        rw (plain, tier)
          (rw (hint, tier) (rw (best n, by_hint) (rw (IsAgent-not_unknown c agent, by_hint) refl))))
  ]

  pub shape : Shape
  unfolding tier
  shape = elim (Bool-cases (has_agent_runtime_topic (topics text r))) [
    | inl topic ↦ topic_shape topic
    | inr plain ↦ elim (Bool-cases (has_desc_hint text r)) [
      | inl hint ↦ hint_shape plain hint
      | inr dull ↦ unsignalled plain dull (λ n. rw (plain, tier) (rw (dull, tier) refl))
    ]
  ]

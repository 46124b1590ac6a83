-- ===== src/Corpus/Classifier/Coherence.antt =====
-- What a classification can be, when a repository is accepted, and what its stars change.
use reguard.Prelude.{
  ℕ, ◌≤◌, true, Option, none, some, [], ◌≡◌, ◌≢◌, refl, ◌∙◌, ◌⊎◌, inl, inr, ◌↔◌, arith,
  Option-cases,
}
use mathlib.Core.Path.{subst}
use reguard.Corpus.Patterns.Runtime.{unknown}
use reguard.Corpus.Classifier.{
  RepoText, Repo, accepted, candidate, Classification, topics, has_desc_hint,
  has_agent_runtime_topic, name_rejection, paper_rejection, unhinted, rejection, matched_categories,
  tier, classify,
}
use reguard.Corpus.Classifier.Categories.{IsAgent}
use reguard.Corpus.Classifier.Rejections.{IsRejection, Rejects, refusal, rejection-Rejects}
use reguard.Corpus.Classifier.Tiers.{
  with_stars, Shape, by_topic_alone, by_topic_and_category, by_hint_and_category, unmatched,
  unsignalled, shape,
}

-- The status, the category and the confidence fit one another.
abbrev pub IsCoherent : Classification → Type 0
IsCoherent c =
    IsRejection c
    ⊎ ((c.relevance_status ≡ accepted)
        × IsAgent c.agent_category
        × (5525 ≤ c.confidence)
        × (c.confidence ≤ 8500))
    ⊎ ((c.relevance_status ≡ candidate) × (c.agent_category ≡ unknown) × (c.confidence ≤ 4500))

classify-rejected :
    (text : RepoText) (r : Repo) (c : Classification)
    → rejection text r ≡ some c
    → classify text r ≡ c
unfolding classify
classify-rejected text r c e = rw (e, classify) refl

classify-tier :
    (text : RepoText) (r : Repo) → rejection text r ≡ none → classify text r ≡ tier text r
unfolding classify
classify-tier text r e = rw (e, classify) refl

refused : (o : Option Classification) (c : Classification) → Rejects o → o ≡ some c → IsRejection c
refused none c n e = absurd (ground arith)
refused (some d) c (refusal _ h) e = let same : d ≡ c = ground arith in subst IsRejection same h

-- Two classifications that differ at most in the confidence, which does not fall.
abbrev pub Raises : Classification → Classification → Type 0
Raises c d =
    (d.relevance_status ≡ c.relevance_status)
    × (d.agent_category ≡ c.agent_category)
    × (d.reason ≡ c.reason)
    × (c.confidence ≤ d.confidence)

module _ (text : RepoText) (r : Repo) where
  shape-IsCoherent : Shape text r → IsCoherent (tier text r)
  shape-IsCoherent (by_topic_alone topic is) =
      rw (is r.stargazers_count) (inr (inl (refl, tt, ground arith, ground arith)))
  shape-IsCoherent (by_topic_and_category topic c agent hit is) =
      rw (is r.stargazers_count) (inr (inl (refl, agent, ground arith, ground arith)))
  shape-IsCoherent (by_hint_and_category plain hint some' c agent hit is) =
      rw (is r.stargazers_count) (inr (inl (refl, agent, ground arith, ground arith)))
  shape-IsCoherent (unmatched plain empty is) =
      rw (is r.stargazers_count) (inr (inr (refl, refl, omega arith)))
  shape-IsCoherent (unsignalled plain dull is) =
      rw (is r.stargazers_count) (inr (inr (refl, refl, omega arith)))

  -- Whatever the patterns match, a classification is coherent: a rejection with the category not_agent
  -- and a confidence of at least 0.6, an acceptance with one of the nine categories of agents and a
  -- confidence between 0.5525 and 0.85, or a candidate of unknown category with at most 0.45.
  pub classify-IsCoherent : IsCoherent (classify text r)
  classify-IsCoherent = elim (Option-cases (rejection text r)) [
    | inl n ↦ rw (classify-tier text r n) (shape-IsCoherent (shape text r))
    | inr (c, e) ↦
        rw (classify-rejected text r c e)
          (inl (refused (rejection text r) c (rejection-Rejects text r) e))
  ]

  abbrev Signals : Type 0
  Signals =
      (has_agent_runtime_topic (topics text r) ≡ true)
      ⊎ ((has_desc_hint text r ≡ true) × (matched_categories text r ≢ []))

  shape-Signals : Shape text r → ((tier text r).relevance_status ≡ accepted) ↔ Signals
  shape-Signals (by_topic_alone topic is) = (λ _. inl topic, λ _. rw (is r.stargazers_count) refl)
  shape-Signals (by_topic_and_category topic c agent hit is) =
      (λ _. inl topic, λ _. rw (is r.stargazers_count) refl)
  shape-Signals (by_hint_and_category plain hint some' c agent hit is) =
      (λ _. inr (hint, some'), λ _. rw (is r.stargazers_count) refl)
  shape-Signals (unmatched plain empty is) = (
    λ e. absurd (ground (arith, is r.stargazers_count)),
    λ s. elim s [ inl topic ↦ absurd (ground arith) | inr (hint, some') ↦ absurd (some' empty) ],
  )
  shape-Signals (unsignalled plain dull is) = (
    λ e. absurd (ground (arith, is r.stargazers_count)),
    λ s. elim s [ inl topic ↦ absurd (ground arith) | inr (hint, some') ↦ absurd (ground arith) ],
  )

  -- A repository is accepted exactly if no check rejects it and it signals an agent: by a topic of an
  -- agent's runtime, or by a hint in its description together with some matched category.
  pub classify-accepted_iff : ((classify text r).relevance_status ≡ accepted) ↔ (
      (rejection text r ≡ none)
      × ((has_agent_runtime_topic (topics text r) ≡ true)
          ⊎ ((has_desc_hint text r ≡ true) × (matched_categories text r ≢ []))))
  classify-accepted_iff = elim (Option-cases (rejection text r)) [
    | inl n ↦ (
      λ e. (n, (shape-Signals (shape text r)).0 (rw (classify-tier text r n) at e)),
      λ s. rw (classify-tier text r n) ((shape-Signals (shape text r)).1 s.1),
    )
    | inr (c, e) ↦
        let refusal = refused (rejection text r) c (rejection-Rejects text r) e in
        (λ a. absurd (ground (arith, classify-rejected text r c e)), λ s. absurd (ground arith))
  ]

  rejection-with_stars : (n : ℕ) → rejection text (with_stars text r n) ≡ rejection text r
  unfolding rejection name_rejection paper_rejection unhinted has_desc_hint
  rejection-with_stars n = refl

  shape-Raises :
      (m n : ℕ)
      → m ≤ n
      → Shape text r
      → Raises (tier text (with_stars text r m)) (tier text (with_stars text r n))
  shape-Raises m n h (by_topic_alone topic is) =
      rw (is m) (rw (is n) (refl, refl, refl, ground arith))
  shape-Raises m n h (by_topic_and_category topic c agent hit is) =
      rw (is m) (rw (is n) (refl, refl, refl, ground arith))
  shape-Raises m n h (by_hint_and_category plain hint some' c agent hit is) =
      rw (is m) (rw (is n) (refl, refl, refl, ground arith))
  shape-Raises m n h (unmatched plain empty is) =
      rw (is m) (rw (is n) (refl, refl, refl, omega arith))
  shape-Raises m n h (unsignalled plain dull is) =
      rw (is m) (rw (is n) (refl, refl, refl, omega arith))

  -- The stars of a repository never change its status, its category or the reason, and more stars never
  -- lower the confidence.
  pub classify-Raises :
      (m n : ℕ)
      → m ≤ n
      → Raises
          (classify text (record r { stargazers_count = m }))
          (classify text (record r { stargazers_count = n }))
  classify-Raises m n h = elim (Option-cases (rejection text r)) [
    | inl e ↦ rw (classify-tier text (with_stars text r m) (rejection-with_stars m ∙ e)) (
        rw (classify-tier text (with_stars text r n) (rejection-with_stars n ∙ e))
          (shape-Raises m n h (shape text r)))
    | inr (c, e) ↦
        rw (classify-rejected text (with_stars text r m) c (rejection-with_stars m ∙ e)) (
          rw (classify-rejected text (with_stars text r n) c (rejection-with_stars n ∙ e))
            (refl, refl, refl, omega arith))
  ]

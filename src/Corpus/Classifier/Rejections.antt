-- ===== src/Corpus/Classifier/Rejections.antt =====
-- Every early return of `classify` is a rejection.
use reguard.Corpus.Patterns.Excluded.{hard_exclude_topic_patterns, industrial_topics}
use reguard.Prelude.{
  ℕ, ◌≤◌, String, str_append, str_eq, Bool, not, ◌&&◌, Option, none, some, List, [], ◌∷◌, ◌≡◌, refl,
  ◌⊎◌, inl, inr, arith, All, any, find, Option-cases, if_both, if◌then◌else◌,
}
use reguard.Corpus.Patterns.Runtime.{not_agent}
use reguard.Corpus.Classifier.{
  RepoText, Repo, rejected, Classification, reject, first_result, description, topics,
  is_excluded_topic, has_agent_runtime_topic, excluded_topic, industrial_topic, described, labelled,
  reject_if, trivial_checks, name_rejection, paper_rejection, unhinted, description_checks, checks,
  rejection,
}

abbrev pub IsRejection : Classification → Type 0
IsRejection c =
    (c.relevance_status ≡ rejected) × (c.agent_category ≡ not_agent) × (6000 ≤ c.confidence)

-- A check gives nothing, or a rejection.
pub data Rejects : Option Classification → Type 0 where
  nothing : Rejects none
  refusal : (c : Classification) → IsRejection c → Rejects (some c)

first_result-Rejects :
    (os : List (Option Classification)) → All Rejects os → Rejects (first_result os)
unfolding first_result
first_result-Rejects [] h = nothing
first_result-Rejects (none ∷ os) h = first_result-Rejects os h.1
first_result-Rejects (some c ∷ os) h = h.0

rejects :
    (confidence : ℕ) (reason : String)
    → 6000 ≤ confidence
    → Rejects (some (reject confidence reason))
rejects confidence reason h = refusal (reject confidence reason) (refl, refl, h)

reject_if-Rejects :
    (b : Bool) (confidence : ℕ) (reason : String)
    → 6000 ≤ confidence
    → Rejects (reject_if b confidence reason)
unfolding reject_if
reject_if-Rejects b confidence reason h =
    if_both Rejects b _ _ (rejects confidence reason h) nothing

described-Rejects :
    (text : RepoText) (ps : List String) (d : String) (confidence : ℕ) (reason : String)
    → 6000 ≤ confidence
    → Rejects (described text ps d confidence reason)
unfolding described
described-Rejects text ps d confidence reason h =
    reject_if-Rejects (any (λ p. text.search p d) ps) confidence reason h

labelled-Rejects :
    (text : RepoText) (ps : List (String × String)) (d : String) (confidence : ℕ) (prefix : String)
    → 6000 ≤ confidence
    → Rejects (labelled text ps d confidence prefix)
unfolding labelled
labelled-Rejects text ps d confidence prefix h =
    elim (Option-cases (find (λ (p : String × String). text.search p.0 d) ps)) [
      | inl n ↦ rw (n, labelled) nothing
      | inr (p, e) ↦ rw (e, labelled) (rejects confidence _ h)
    ]

excluded_topic-Rejects :
    (table : List (String × String)) (ts : List String) → Rejects (excluded_topic table ts)
unfolding excluded_topic
excluded_topic-Rejects table [] = nothing
excluded_topic-Rejects table (t ∷ ts) = elim (Option-cases (find (is_excluded_topic t) table)) [
  | inl n ↦ rw (n, excluded_topic) (excluded_topic-Rejects table ts)
  | inr (p, e) ↦ rw (e, excluded_topic) (rejects 8000 _ (omega arith))
]

industrial_topic-Rejects :
    (table : List String) (ts : List String) → Rejects (industrial_topic table ts)
unfolding industrial_topic
industrial_topic-Rejects table ts = elim (Option-cases (find (λ t. any (str_eq t) table) ts)) [
  | inl n ↦ rw (n, industrial_topic) nothing
  | inr (p, e) ↦ rw (e, industrial_topic) (rejects 8000 _ (omega arith))
]

excluded_name-Rejects :
    (o : String ⊎ Bool) (runtime : Bool)
    → Rejects (elim o [
      | inl reason ↦
          some (reject 9000 (str_append "name/description matches reject pattern: " reason))
      | inr awesome ↦
          if awesome && not runtime
          then some (reject 8500 "awesome-list with no agent-runtime signal")
          else none
    ])
excluded_name-Rejects (inl reason) runtime = rejects 9000 _ (omega arith)
excluded_name-Rejects (inr awesome) runtime =
    if_both Rejects (awesome && not runtime) _ _ (rejects 8500 _ (omega arith)) nothing

module _ (text : RepoText) (r : Repo) where
  trivial_checks-Rejects : All Rejects (trivial_checks text r)
  trivial_checks-Rejects = (
    reject_if-Rejects _ 10000 _ (omega arith),
    (
      reject_if-Rejects _ 10000 _ (omega arith),
      (
        reject_if-Rejects _ 8000 _ (omega arith),
        (reject_if-Rejects _ 6000 _ (omega arith), (reject_if-Rejects _ 10000 _ (omega arith), tt)),
      ),
    ),
  )

  name_rejection-Rejects : Rejects (name_rejection text r)
  unfolding name_rejection
  name_rejection-Rejects = excluded_name-Rejects _ (has_agent_runtime_topic (topics text r))

  unhinted-Rejects : (ps : List String) (reason : String) → Rejects (unhinted text r ps reason)
  unfolding unhinted
  unhinted-Rejects ps reason = reject_if-Rejects _ 8500 reason (omega arith)

  paper_rejection-Rejects : (ps : List String) → Rejects (paper_rejection text r ps)
  unfolding paper_rejection
  paper_rejection-Rejects ps =
      elim (Option-cases (find (λ p. text.search p (description text r)) ps)) [
        | inl n ↦ rw (n, paper_rejection) nothing
        | inr (p, e) ↦ rw (e, paper_rejection) (rejects 9000 _ (omega arith))
      ]

  description_checks-Rejects : All Rejects (description_checks text r)
  description_checks-Rejects = (
    paper_rejection-Rejects _,
    (
      described-Rejects text _ _ 8500 _ (omega arith),
      (
        described-Rejects text _ _ 8500 _ (omega arith),
        (
          described-Rejects text _ _ 8500 _ (omega arith),
          (
            described-Rejects text _ _ 8000 _ (omega arith),
            (
              described-Rejects text _ _ 8000 _ (omega arith),
              (
                described-Rejects text _ _ 8000 _ (omega arith),
                (
                  described-Rejects text _ _ 8500 _ (omega arith),
                  (
                    described-Rejects text _ _ 8000 _ (omega arith),
                    (
                      labelled-Rejects text _ _ 8000 _ (omega arith),
                      (
                        labelled-Rejects text _ _ 8000 _ (omega arith),
                        (unhinted-Rejects _ _, (unhinted-Rejects _ _, tt)),
                      ),
                    ),
                  ),
                ),
              ),
            ),
          ),
        ),
      ),
    ),
  )

  pub rejection-Rejects : Rejects (rejection text r)
  unfolding rejection
  rejection-Rejects = first_result-Rejects (checks text r) (
    first_result-Rejects (trivial_checks text r) trivial_checks-Rejects,
    (
      name_rejection-Rejects,
      (
        excluded_topic-Rejects hard_exclude_topic_patterns (topics text r),
        (
          industrial_topic-Rejects industrial_topics (topics text r),
          (first_result-Rejects (description_checks text r) description_checks-Rejects, tt),
        ),
      ),
    ),
  )

-- ===== src/Corpus/Classifier.antt =====
-- `classify` of src/compliance/corpus/classifier.py.
--
-- The modules re and Python's `lower` and `strip` are a parameter. A confidence is a number of
-- ten-thousandths, so that the product with 0.85 is exact where the source rounds a float. A key that
-- the dictionary of a repository lacks is `none`, or the value that the source puts in its place.
pub mod Rejections
pub mod Categories
pub mod Tiers
pub mod Coherence
use reguard.Prelude.{
  ℕ, ◌+◌, ◌*◌, ◌/◌, leb, String, str_append, str_eq, Bool, true, false, not, ◌&&◌, ◌||◌, Option,
  none, some, List, [], ◌∷◌, ◌++◌, map, any, find, is_empty, starts_with, contains, ◌⊎◌, inl, inr,
  if◌then◌else◌,
}
use reguard.Corpus.Patterns.Excluded.{
  hard_exclude_name_patterns, hard_exclude_topic_patterns, industrial_topics,
}
use reguard.Corpus.Patterns.Described.{
  paper_desc_patterns, skill_pack_desc_patterns, mcp_server_desc_patterns, frontend_desc_patterns,
  memory_layer_desc_patterns, toolset_desc_patterns, observability_desc_patterns, rl_desc_patterns,
  non_llm_agent_desc_patterns, educational_desc_patterns, platform_desc_patterns,
}
use reguard.Corpus.Patterns.Runtime.{
  AgentCategory, not_agent, other_agent, unknown, category_eq, agent_runtime_topics, category_rules,
  domain_topic_to_category, generic_agent_desc_hints, category_priority,
}

-- `re.compile(pattern, re.I).search(text)`, and the two operations on texts.
pub record RepoText : Type 0 where
  pub search : String → String → Bool
  pub lower : String → String
  pub strip : String → String
  pub repr : String → String

pub record Repo : Type 0 where
  pub name : Option String
  pub full_name : Option String
  pub description : Option String
  pub topics : List String
  pub archived : Bool
  pub fork : Bool
  pub pushed_at : Option String
  pub language : Option String
  pub stargazers_count : ℕ

pub data RelevanceStatus : Type 0 where
  accepted candidate rejected unknown_status : RelevanceStatus

pub record Classification : Type 0 where
  pub relevance_status : RelevanceStatus
  pub agent_category : AgentCategory
  pub confidence : ℕ
  pub reason : String

-- `x or ""`
abbrev pub or_empty : Option String → String
or_empty none = ""
or_empty (some s) = s

-- `not x`
abbrev is_blank : String → Bool
is_blank s = str_eq s ""

abbrev pub reject : ℕ → String → Classification
reject confidence reason = record {
  relevance_status = rejected;
  agent_category = not_agent;
  confidence = confidence;
  reason = reason;
}

-- `if b: return Classification(STATUS_REJECTED, ...)`
unfoldable pub reject_if : Bool → ℕ → String → Option Classification
reject_if b confidence reason = if b then some (reject confidence reason) else none

-- The first check that returns decides.
unfoldable pub first_result : List (Option Classification) → Option Classification
first_result [] = none
first_result (none ∷ rest) = first_result rest
first_result (some c ∷ rest) = some c

-- `" ".join(topics)`
unfoldable pub join : List String → String
join [] = ""
join (t ∷ []) = t
join (t ∷ (u ∷ rest)) = str_append t (str_append " " (join (u ∷ rest)))

unfoldable pub has_agent_runtime_topic : List String → Bool
unfolding join
has_agent_runtime_topic topics = any (λ t. contains (join topics) t) agent_runtime_topics

-- The loop over the name patterns: the reason of the rejection, or whether an awesome-list was seen.
unfoldable pub excluded_name : RepoText → String → List (String × String) → Bool → String ⊎ Bool
excluded_name text haystack [] awesome = inr awesome
excluded_name text haystack ((pattern', reason) ∷ rest) awesome =
    let found = text.search pattern' haystack in
    elim (found && not (str_eq reason "awesome-list")) [
      | true ↦ inl reason
      | false ↦ excluded_name text haystack rest (awesome || found)
    ]

abbrev pub is_excluded_topic : String → String × String → Bool
is_excluded_topic topic (needle, reason) =
    str_eq topic needle
    || starts_with topic (str_append needle "-")
    || starts_with topic (str_append needle "_")

unfoldable pub excluded_topic : List (String × String) → List String → Option Classification
excluded_topic table [] = none
excluded_topic table (topic ∷ rest) = elim (find (is_excluded_topic topic) table) [
  | some (needle, reason) ↦ some (
      reject 8000 (
        str_append "rejected topic '"
          (str_append topic (str_append "' (" (str_append reason ")")))))
  | none ↦ excluded_topic table rest
]

unfoldable pub industrial_topic : List String → List String → Option Classification
industrial_topic table topics = elim (find (λ t. any (str_eq t) table) topics) [
  | none ↦ none
  | some topic ↦ some (reject 8000 (str_append "non-LLM-agent topic '" (str_append topic "'")))
]

-- One `for pat in ...` over a description
unfoldable pub described : RepoText → List String → String → ℕ → String → Option Classification
unfolding reject_if
described text patterns description confidence reason =
    reject_if (any (λ p. text.search p description) patterns) confidence reason

unfoldable pub labelled :
    RepoText → List (String × String) → String → ℕ → String → Option Classification
labelled text patterns description confidence prefix =
    elim (find (λ (p : String × String). text.search p.0 description) patterns) [
      | none ↦ none
      | some p ↦ some (reject confidence (str_append prefix p.1))
    ]

unfoldable pub categories_from_haystack :
    RepoText → String → List (String × AgentCategory) → List AgentCategory
categories_from_haystack text haystack [] = []
categories_from_haystack text haystack ((pattern', category) ∷ rest) =
    let found = categories_from_haystack text haystack rest in
    if text.search pattern' haystack then category ∷ found else found

-- `topic == needle or needle in topic`; one category for each topic.
unfoldable pub categories_from_topics :
    List (String × AgentCategory) → List String → List AgentCategory
categories_from_topics table [] = []
categories_from_topics table (topic ∷ rest) =
    elim (find (λ (d : String × AgentCategory). str_eq topic d.0 || contains topic d.0) table) [
      | none ↦ categories_from_topics table rest
      | some d ↦ d.1 ∷ categories_from_topics table rest
    ]

unfoldable pub dedup : List AgentCategory → List AgentCategory → List AgentCategory
dedup seen [] = []
dedup seen (c ∷ rest) =
    if any (category_eq c) seen then dedup seen rest else c ∷ dedup (c ∷ seen) rest

-- The first of the priorities that is matched
unfoldable pub best_category : List AgentCategory → List AgentCategory → ℕ → AgentCategory × ℕ
unfolding dedup
best_category priority matched stars =
    elim (find (λ c. any (category_eq c) (dedup [] matched)) priority) [
      | none ↦ (unknown, 0)
      | some c ↦ (c, if leb 100 stars then 8500 else 6500)
    ]

-- The local variables of `classify`
module _ (text : RepoText) (r : Repo) where
  abbrev pub name : String
  name = text.strip (or_empty r.name)

  abbrev pub description : String
  description = text.strip (or_empty r.description)

  abbrev pub topics : List String
  topics = map text.lower r.topics

  abbrev pub haystack : String
  haystack = text.lower (
      str_append name (
        str_append " "
          (str_append (text.strip (or_empty r.full_name)) (str_append " " description))))

  -- 1. Trivial hard rejections
  abbrev pub trivial_checks : List (Option Classification)
  trivial_checks =
      reject_if r.archived 10000 "archived repository"
      ∷ reject_if r.fork 10000 "fork of another repository"
      ∷ reject_if (is_blank name && is_blank description) 8000 "no name or description"
      ∷ reject_if (is_blank (or_empty r.pushed_at)) 6000 "no push date on GitHub"
      ∷ reject_if
          (not (is_blank (text.strip (or_empty r.language)))
            && not (str_eq (text.strip (or_empty r.language)) "Python"))
          10000
          (str_append "primary language is "
            (str_append (text.repr (text.strip (or_empty r.language))) ", not Python"))
      ∷ []

  -- 2. Hard exclusions by the name and the description
  unfoldable pub name_rejection : Option Classification
  unfolding excluded_name has_agent_runtime_topic
  name_rejection = elim (excluded_name text haystack hard_exclude_name_patterns false) [
    | inl reason ↦
        some (reject 9000 (str_append "name/description matches reject pattern: " reason))
    | inr awesome ↦
        if awesome && not (has_agent_runtime_topic topics)
        then some (reject 8500 "awesome-list with no agent-runtime signal")
        else none
  ]

  unfoldable pub has_desc_hint : Bool
  has_desc_hint = any (λ p. text.search p description) generic_agent_desc_hints

  -- `for pat in _PAPER_DESC_PATTERNS`, whose reason shows the pattern
  unfoldable pub paper_rejection : List String → Option Classification
  paper_rejection patterns = elim (find (λ p. text.search p description) patterns) [
    | none ↦ none
    | some p ↦ some (reject 9000 (str_append "paper artifact: " p))
  ]

  -- The description sounds like it, and gives no hint of an agent.
  unfoldable pub unhinted : List String → String → Option Classification
  unfolding reject_if has_desc_hint
  unhinted patterns reason =
      reject_if (any (λ p. text.search p description) patterns && not has_desc_hint) 8500 reason

  -- 4. and 5. Hard exclusions by the description
  abbrev pub description_checks : List (Option Classification)
  description_checks =
      paper_rejection paper_desc_patterns
      ∷ described text skill_pack_desc_patterns description 8500
          "skill pack / plugin (not a standalone agent runtime)"
      ∷ described text mcp_server_desc_patterns description 8500
          "MCP server (not a standalone agent runtime)"
      ∷ described text non_llm_agent_desc_patterns description 8500
          "non-LLM agent framework (RL / spiking / simulator)"
      ∷ described text ("\\bweb[-_ ]?ui\\b" ∷ []) (text.lower name) 8000
          "WebUI in repo name (frontend for another agent)"
      ∷ described text frontend_desc_patterns description 8000 "frontend / WebUI for another agent"
      ∷ described text memory_layer_desc_patterns description 8000
          "memory / persistence layer (substrate, not a runtime)"
      ∷ described text observability_desc_patterns description 8500
          "observability / proxy for other agents"
      ∷ described text toolset_desc_patterns description 8000
          "toolset / plugin / extension (not a standalone runtime)"
      ∷ labelled text educational_desc_patterns description 8000 "educational content: "
      ∷ labelled text platform_desc_patterns description 8000 "platform/SDK (not a runtime): "
      ∷ unhinted rl_desc_patterns "reinforcement-learning library (not LLM agent)"
      ∷ unhinted ("\\bworld[-_ ]?model(s|ing)?\\b|\\bgenerative multi[-_ ]?agent\\b" ∷ [])
          "world-model / generative-multi-agent research artifact"
      ∷ []

  abbrev pub checks : List (Option Classification)
  checks =
      first_result trivial_checks
      ∷ name_rejection
      ∷ excluded_topic hard_exclude_topic_patterns topics
      ∷ industrial_topic industrial_topics topics
      ∷ first_result description_checks
      ∷ []

  unfoldable pub rejection : Option Classification
  unfolding first_result reject_if name_rejection excluded_topic industrial_topic paper_rejection
      unhinted described labelled
  rejection = first_result checks

  unfoldable pub matched_categories : List AgentCategory
  unfolding categories_from_haystack categories_from_topics
  matched_categories =
      categories_from_haystack text haystack category_rules
      ++ categories_from_topics domain_topic_to_category topics

  -- Tier 1: a topic of an agent's runtime
  unfoldable pub by_topic : AgentCategory × ℕ → Classification
  by_topic (c, confidence) =
      if category_eq c unknown
      then record {
        relevance_status = accepted;
        agent_category = other_agent;
        confidence = if leb 100 r.stargazers_count then 7500 else 6000;
        reason = "agent-runtime topic, no category-specific match";
      }
      else record {
        relevance_status = accepted;
        agent_category = c;
        confidence = confidence;
        reason = "agent-runtime topic matched a category";
      }

  -- Tier 2: a hint in the description
  unfoldable pub by_hint : AgentCategory × ℕ → Classification
  by_hint (c, confidence) =
      if category_eq c unknown
      then record {
        relevance_status = candidate;
        agent_category = unknown;
        confidence = 4500;
        reason = "agent description but no category-specific match";
      }
      else record {
        relevance_status = accepted;
        agent_category = c;
        confidence = confidence * 85 / 100;
        reason = "agent description + category-specific match";
      }

  -- 6. The tiers
  unfoldable pub tier : Classification
  unfolding has_agent_runtime_topic has_desc_hint matched_categories best_category by_topic by_hint
  tier =
      if has_agent_runtime_topic topics
      then by_topic (best_category category_priority matched_categories r.stargazers_count)
      else if has_desc_hint
      then by_hint (best_category category_priority matched_categories r.stargazers_count)
      else record {
        relevance_status = candidate;
        agent_category = unknown;
        confidence = 2000;
        reason = "no agent-runtime topic or description hint detected";
      }

  unfoldable pub classify : Classification
  unfolding rejection tier
  classify = elim rejection [ some c ↦ c | none ↦ tier ]

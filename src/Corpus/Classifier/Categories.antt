-- ===== src/Corpus/Classifier/Categories.antt =====
-- The category that is chosen for the categories that are matched.
use reguard.Prelude.{
  ℕ, leb, String, str_eq, eq_iff, Bool, true, false, ◌||◌, some, List, [], ◌∷◌, ◌≡◌, ◌≢◌, refl, ◌⊎◌,
  inl, inr, arith, All, All-append, any, contains, find, find-holds, any-find_iff, Bool-cases,
  Option-cases, if◌then◌else◌,
}
use mathlib.Core.Path.{subst}
use reguard.Corpus.Patterns.Runtime.{
  AgentCategory, coding_agent, general_agent, agent_framework, multi_agent, browser_agent,
  computer_use_agent, workflow_agent, tool_using_agent, other_agent, not_agent, unknown,
  category_name, category_eq, category_rules, domain_topic_to_category, category_priority,
}
use reguard.Corpus.Classifier.{
  RepoText, Repo, topics, haystack, categories_from_haystack, categories_from_topics,
  matched_categories, dedup, best_category,
}

-- One of the nine categories of agents
abbrev pub IsAgent : AgentCategory → Type 0
IsAgent unknown = ⊥
IsAgent not_agent = ⊥
IsAgent _ = Unit

category_eq_refl : (c : AgentCategory) → category_eq c c ≡ true
unfolding category_eq
category_eq_refl c = (eq_iff (category_name c) (category_name c)).1 refl

pub IsAgent-not_unknown : (c : AgentCategory) → IsAgent c → category_eq c unknown ≡ false
unfolding category_eq category_name
IsAgent-not_unknown coding_agent h = refl
IsAgent-not_unknown general_agent h = refl
IsAgent-not_unknown agent_framework h = refl
IsAgent-not_unknown multi_agent h = refl
IsAgent-not_unknown browser_agent h = refl
IsAgent-not_unknown computer_use_agent h = refl
IsAgent-not_unknown workflow_agent h = refl
IsAgent-not_unknown tool_using_agent h = refl
IsAgent-not_unknown other_agent h = refl
IsAgent-not_unknown unknown h = absurd h
IsAgent-not_unknown not_agent h = absurd h

-- Each of the nine has a priority.
IsAgent-any : (c : AgentCategory) → IsAgent c → any (λ d. category_eq d c) category_priority ≡ true
unfolding category_eq category_name
IsAgent-any coding_agent h = refl
IsAgent-any general_agent h = refl
IsAgent-any agent_framework h = refl
IsAgent-any multi_agent h = refl
IsAgent-any browser_agent h = refl
IsAgent-any computer_use_agent h = refl
IsAgent-any workflow_agent h = refl
IsAgent-any tool_using_agent h = refl
IsAgent-any other_agent h = refl
IsAgent-any unknown h = absurd h
IsAgent-any not_agent h = absurd h

category_priority-IsAgent : All IsAgent category_priority
category_priority-IsAgent = omega arith

category_rules-IsAgent : All (λ (d : String × AgentCategory). IsAgent d.1) category_rules
category_rules-IsAgent = omega arith

domain_topic_to_category-IsAgent :
    All (λ (d : String × AgentCategory). IsAgent d.1) domain_topic_to_category
domain_topic_to_category-IsAgent = omega arith

All-find {ℓ} :
    {A : Type ℓ} (P : A → Type 0) (p : A → Bool) (xs : List A) (a : A)
    → All P xs
    → find p xs ≡ some a
    → P a
All-find P p [] a h e = absurd (ground arith)
All-find P p (x ∷ xs) a h e = elim (Bool-cases (p x)) [
  | inl t ↦ let same : x ≡ a = ground arith in subst P same h.0
  | inr f ↦ All-find P p xs a h.1 (ground arith)
]

categories_from_haystack-IsAgent :
    (text : RepoText) (s : String) (rules : List (String × AgentCategory))
    → All (λ (d : String × AgentCategory). IsAgent d.1) rules
    → All IsAgent (categories_from_haystack text s rules)
unfolding categories_from_haystack
categories_from_haystack-IsAgent text s [] h = tt
categories_from_haystack-IsAgent text s ((p, c) ∷ rules) h = elim (Bool-cases (text.search p s)) [
  | inl t ↦ rw t (h.0, categories_from_haystack-IsAgent text s rules h.1)
  | inr f ↦ rw f (categories_from_haystack-IsAgent text s rules h.1)
]

categories_from_topics-IsAgent :
    (table : List (String × AgentCategory)) (ts : List String)
    → All (λ (d : String × AgentCategory). IsAgent d.1) table
    → All IsAgent (categories_from_topics table ts)
unfolding categories_from_topics
categories_from_topics-IsAgent table [] h = tt
categories_from_topics-IsAgent table (t ∷ ts) h =
    elim (Option-cases
      (find (λ (d : String × AgentCategory). str_eq t d.0 || contains t d.0) table)) [
        | inl n ↦ rw (n, categories_from_topics) (categories_from_topics-IsAgent table ts h)
        | inr (d, e) ↦
            rw (e, categories_from_topics)
              (All-find _ _ table d h e, categories_from_topics-IsAgent table ts h)
      ]

pub matched_categories-IsAgent :
    (text : RepoText) (r : Repo) → All IsAgent (matched_categories text r)
unfolding matched_categories
matched_categories-IsAgent text r =
    All-append IsAgent (categories_from_haystack text (haystack text r) category_rules) _
      (categories_from_haystack-IsAgent text _ category_rules category_rules-IsAgent)
      (categories_from_topics-IsAgent domain_topic_to_category (topics text r)
        domain_topic_to_category-IsAgent)

-- Removing duplicates keeps what is there.
any-dedup :
    (p : AgentCategory → Bool) (seen xs : List AgentCategory)
    → any p (dedup seen xs) ≡ true
    → any p xs ≡ true
unfolding dedup
any-dedup p seen [] h = h
any-dedup p seen (c ∷ xs) h = ground (arith, any-dedup p seen xs, any-dedup p (c ∷ seen) xs)

any_or :
    (p q : AgentCategory → Bool) (xs : List AgentCategory)
    → any p xs ≡ true
    → any (λ x. p x || q x) xs ≡ true
any_or p q [] h = h
any_or p q (x ∷ xs) h = ground (arith, any_or p q xs)

-- The base of the confidence
abbrev pub base : ℕ → ℕ
base stars = if leb 100 stars then 8500 else 6500

-- What is chosen for matched categories, whatever the stars.
abbrev pub Chosen : List AgentCategory → List AgentCategory → Type 0
Chosen priority matched =
    (c : AgentCategory) × IsAgent c
    × (any (category_eq c) matched ≡ true)
    × ((stars : ℕ) → best_category priority matched stars ≡ (c, base stars))

best_category-Chosen :
    (priority matched : List AgentCategory)
    → All IsAgent priority
    → any (λ c. any (category_eq c) (dedup [] matched)) priority ≡ true
    → Chosen priority matched
unfolding best_category
best_category-Chosen priority matched h a =
    let p = λ (c : AgentCategory). any (category_eq c) (dedup [] matched) in
    elim (Option-cases (find p priority)) [
      | inl n ↦ absurd (ground (arith, any-find_iff p priority))
      | inr (c, e) ↦ (
        c,
        All-find IsAgent p priority c h e,
        any-dedup (category_eq c) [] matched (find-holds p priority c e),
        λ stars. rw (e, best_category) refl,
      )
    ]

first_is_any :
    (m : AgentCategory) (ms : List AgentCategory)
    → IsAgent m
    → any (λ c. any (category_eq c) (dedup [] (m ∷ ms))) category_priority ≡ true
unfolding dedup
first_is_any m ms h =
    any_or (λ c. category_eq c m) (λ c. any (category_eq c) (dedup (m ∷ []) ms)) category_priority
      (IsAgent-any m h)

pub best_category_cases :
    (matched : List AgentCategory)
    → All IsAgent matched
    → ((matched ≡ [])
        × ((stars : ℕ) → best_category category_priority matched stars ≡ (unknown, 0)))
      ⊎ ((matched ≢ []) × Chosen category_priority matched)
unfolding best_category dedup
best_category_cases [] h = inl (refl, λ stars. refl)
best_category_cases (m ∷ ms) h = inr (
  (λ e. cc),
  best_category-Chosen category_priority (m ∷ ms) category_priority-IsAgent (first_is_any m ms h.0),
)

-- ===== src/Corpus/Reclassify/Again.antt =====
-- What a run writes, and that a second run changes nothing.
use reguard.Prelude.{
  ℕ, eq_iff, str_eq, Bool, true, false, not, Option, none, some, List, [], ◌∷◌, map, ◌≡◌, ◌≢◌, ◌↔◌,
  ◌⊎◌, refl, sym, ap, ◌∙◌, inl, inr, arith, Bool-cases,
}
use mathlib.Core.Path.{subst}
use reguard.Corpus.Patterns.Runtime.{category_name, category_eq}
use reguard.Corpus.Classifier.{
  RepoText, RelevanceStatus, accepted, candidate, rejected, unknown_status, Classification,
  classify,
}
use reguard.Corpus.Repositories.{AgentRepository, status_name, is_enabled, repo_dict}
use reguard.Corpus.Reclassify.{
  status_eq, status_changed, category_changed, is_changed, is_selected, reclassify,
}
use reguard.Corpus.Reclassify.Loop.{
  HasUniqueIds, reclassified, first_run, ChangesNothing, Settled-run, map-HasUniqueIds, map-Settled,
  rewritten, changed_row, unchanged_row,
}

-- A row that the filter selects, and whose status, category or reason is not that of its classification
abbrev pub Differs : RepoText → Option RelevanceStatus → AgentRepository → Type 0
Differs text only_status row =
    let c = classify text (repo_dict row) in
    ((s : RelevanceStatus)
      → only_status ≡ some s
      → status_name row.relevance_status ≡ status_name s)
    × ((status_name row.relevance_status ≢ status_name c.relevance_status)
        ⊎ (category_name row.agent_category ≢ category_name c.agent_category)
        ⊎ (row.relevance_reason ≢ c.reason))

-- What a run at a time makes of a row: its classification is written if it differs, and else nothing.
abbrev pub IsReclassified :
    RepoText → Option RelevanceStatus → ℕ → AgentRepository → AgentRepository → Type 0
IsReclassified text only_status now row row' =
    let c = classify text (repo_dict row) in
    (Differs text only_status row
      × (row' ≡ record row {
        relevance_status = c.relevance_status;
        agent_category = c.agent_category;
        relevance_reason = c.reason;
        relevance_confidence = c.confidence;
        enabled = not (str_eq (status_name c.relevance_status) "rejected");
        reclassified_at = some now;
      }))
    ⊎ (¬ Differs text only_status row × (row' ≡ row))

-- Row by row
abbrev pub Rows :
    (AgentRepository → AgentRepository → Type 0)
    → List AgentRepository
    → List AgentRepository
    → Type 0
Rows R [] [] = Unit
Rows R [] (b ∷ bs) = ⊥
Rows R (a ∷ as') [] = ⊥
Rows R (a ∷ as') (b ∷ bs) = R a b × Rows R as' bs

is_selected_iff :
    (only_status : Option RelevanceStatus) (row : AgentRepository)
    → (is_selected only_status row ≡ true) ↔ (
        (s : RelevanceStatus)
        → only_status ≡ some s
        → status_name row.relevance_status ≡ status_name s)
unfolding status_eq
is_selected_iff none row = (λ _ s h. absurd (ground arith), λ _. refl)
is_selected_iff (some t) row = (
  λ h s e.
      (eq_iff (status_name row.relevance_status) (status_name t)).0 h
      ∙ ap status_name (ground (arith, e)),
  λ h. (eq_iff (status_name row.relevance_status) (status_name t)).1 (h t refl),
)

module _ (text : RepoText) (only_status : Option RelevanceStatus) (now : ℕ) where
  is_changed_iff :
      (row : AgentRepository) (c : Classification)
      → (is_changed row c ≡ true) ↔ (
          (status_name row.relevance_status ≢ status_name c.relevance_status)
          ⊎ (category_name row.agent_category ≢ category_name c.agent_category)
          ⊎ (row.relevance_reason ≢ c.reason))
  unfolding is_changed status_changed category_changed status_eq category_eq
  is_changed_iff row c = ground (
    arith,
    eq_iff (status_name row.relevance_status) (status_name c.relevance_status),
    eq_iff (category_name row.agent_category) (category_name c.agent_category),
    eq_iff row.relevance_reason c.reason,
  )

  enabled_name : (s : RelevanceStatus) → is_enabled s ≡ not (str_eq (status_name s) "rejected")
  unfolding is_enabled status_name
  enabled_name accepted = refl
  enabled_name candidate = refl
  enabled_name rejected = refl
  enabled_name unknown_status = refl

  enabled_alike :
      (c : Classification) (row : AgentRepository)
      → rewritten text only_status now c row ≡ record row {
        relevance_status = c.relevance_status;
        agent_category = c.agent_category;
        relevance_reason = c.reason;
        relevance_confidence = c.confidence;
        enabled = not (str_eq (status_name c.relevance_status) "rejected");
        reclassified_at = some now;
      }
  enabled_alike c row =
      ap
        (λ (b : Bool). record row {
          relevance_status = c.relevance_status;
          agent_category = c.agent_category;
          relevance_reason = c.reason;
          relevance_confidence = c.confidence;
          enabled = b;
          reclassified_at = some now;
        })
        (enabled_name c.relevance_status)

  reclassified-IsReclassified :
      (row : AgentRepository)
      → IsReclassified text only_status now row (reclassified text only_status now row)
  reclassified-IsReclassified row =
      let c = classify text (repo_dict row) in
      let chosen = is_selected_iff only_status row in
      let changed = is_changed_iff row c in
      elim (Bool-cases (is_selected only_status row)) [
        | inr left ↦ inr (λ d. absurd (ground (arith, chosen.1 d.0)), rw left refl)
        | inl taken ↦ elim (Bool-cases (is_changed row c)) [
          | inl new ↦ inl (
            (chosen.0 taken, changed.0 new),
            rw taken (changed_row text only_status now c row new ∙ enabled_alike c row),
          )
          | inr same ↦ inr (
            λ d. absurd (ground (arith, changed.1 d.1)),
            rw taken (unchanged_row text only_status now c row same),
          )
        ]
      ]

  map-IsReclassified :
      (rows : List AgentRepository)
      → Rows
          (IsReclassified text only_status now)
          rows
          (map (reclassified text only_status now) rows)
  map-IsReclassified [] = tt
  map-IsReclassified (r ∷ rows) = (reclassified-IsReclassified r, map-IsReclassified rows)

-- On a table whose ids are unique, a run without a limit that writes goes through the rows: one that the
-- filter selects, and whose status, category or reason is not that of its classification, takes the
-- status, the category, the reason and the confidence of it and the time, and is enabled unless rejected;
-- every other row stays. A second run with the same filter, at any time, leaves the table and counts no
-- update; and a dry run never writes.
pub reclassify-again :
    (text : RepoText) (only_status : Option RelevanceStatus) (now later : ℕ)
    (table : List AgentRepository)
    → HasUniqueIds table
    → let first = reclassify text only_status none false now table in
      let second = reclassify text only_status none false later first.0 in
      Rows (IsReclassified text only_status now) table first.0
      × (second.0 ≡ first.0)
      × (second.1.updated ≡ 0)
      × ((reclassify text only_status none true now table).0 ≡ table)
unfolding reclassify
reclassify-again text only_status now later table u =
    let e = first_run text only_status now table u in
    let again = subst (ChangesNothing text only_status later) (sym e) (
      Settled-run text only_status later _ (map-HasUniqueIds text only_status now table u)
        (map-Settled text only_status now table)) in
    (
      subst (Rows (IsReclassified text only_status now) table) (sym e)
          (map-IsReclassified text only_status now table),
      again.0,
      again.1,
      refl,
    )

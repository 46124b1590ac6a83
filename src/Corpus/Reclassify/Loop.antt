-- ===== src/Corpus/Reclassify/Loop.antt =====
-- The loop over the results is one update of each selected row, and on settled rows it changes nothing.
use reguard.Prelude.{
  ℕ, ◌==◌, ==_iff, eq_iff, true, false, Option, none, some, List, [], ◌∷◌, ◌++◌, map, ◌≡◌, ◌≢◌,
  refl, sym, ap, ◌∙◌, inl, inr, arith, All, All-map, All-append, keep, find, update_where,
  update_where-append, Bool-cases, if◌then◌else◌,
}
use mathlib.Core.List.{append_assoc}
use mathlib.Core.Path.{subst}
use reguard.Corpus.Patterns.Runtime.{category_name, category_eq}
use reguard.Corpus.Classifier.{RepoText, RelevanceStatus, Classification, classify}
use reguard.Corpus.Repositories.{AgentRepository, status_name, is_enabled, repo_dict}
use reguard.Corpus.Reclassify.{
  ReclassifyStats, NewResult, status_eq, status_changed, category_changed, is_changed, write_result,
  count_change, write_back, is_selected, limited, new_result, reclassify,
}

abbrev pub HasUniqueIds : List AgentRepository → Type 0
HasUniqueIds [] = Unit
HasUniqueIds (r ∷ rs) = All (λ s. r.id ≢ s.id) rs × HasUniqueIds rs

abbrev Apart : ℕ → List AgentRepository → Type 0
Apart id rows = All (λ s. s.id ≢ id) rows

-- An update by an id that no row has
update-Apart :
    (id : ℕ) (f : AgentRepository → AgentRepository) (rows : List AgentRepository)
    → Apart id rows
    → update_where (λ (row : AgentRepository). row.id == id) f rows ≡ rows
update-Apart id f [] h = refl
update-Apart id f (r ∷ rows) h = ground (arith, ==_iff r.id id, update-Apart id f rows h.1)

update_one :
    (f : AgentRepository → AgentRepository) (r : AgentRepository)
    (before after : List AgentRepository)
    → Apart r.id before
    → Apart r.id after
    → update_where (λ (row : AgentRepository). row.id == r.id) f (before ++ (r ∷ after))
      ≡ before ++ (f r ∷ after)
update_one f r before after h k =
    update_where-append (λ (row : AgentRepository). row.id == r.id) f before (r ∷ after)
    ∙ rw (update-Apart r.id f before h, (==_iff r.id r.id).1 refl, update-Apart r.id f after k) refl

module _ (text : RepoText) (only_status : Option RelevanceStatus) (now : ℕ) where
  -- What the run makes of a row.
  abbrev pub reclassified : AgentRepository → AgentRepository
  reclassified row =
      if is_selected only_status row
      then write_result now (classify text (repo_dict row)) row
      else row

  abbrev results : List AgentRepository → List NewResult
  results rows = map (new_result text) (keep (is_selected only_status) rows)

  pub write_result-id :
      (c : Classification) (row : AgentRepository) → (write_result now c row).id ≡ row.id
  unfolding write_result
  write_result-id c row = ground arith

  reclassified-id : (row : AgentRepository) → (reclassified row).id ≡ row.id
  reclassified-id row = ground (arith, write_result-id (classify text (repo_dict row)) row)

  -- No row that comes later has the id of one before it.
  abbrev Follows : List AgentRepository → List AgentRepository → Type 0
  Follows before after = All (λ s. Apart s.id before) after

  Follows-snoc :
      (r : AgentRepository) (before after : List AgentRepository)
      → Follows before after
      → All (λ s. r.id ≢ s.id) after
      → Follows (before ++ (r ∷ [])) after
  Follows-snoc r before [] f u = tt
  Follows-snoc r before (s ∷ after) f u = (
    All-append (λ k. k.id ≢ s.id) before (r ∷ []) f.0 (u.0, tt),
    Follows-snoc r before after f.1 u.1,
  )

  later-Apart :
      (r : AgentRepository) (after : List AgentRepository)
      → All (λ s. r.id ≢ s.id) after
      → Apart r.id after
  later-Apart r after u = All-map (λ s. r.id ≢ s.id) (λ s. s.id ≢ r.id) after (λ a d e. d (sym e)) u

  moved :
      (r : AgentRepository) (before after : List AgentRepository)
      → (before ++ (r ∷ [])) ++ after ≡ before ++ (r ∷ after)
  moved r before after = append_assoc before (r ∷ []) after

  -- The loop updates the selected rows one after the other.
  write_back-map :
      (before after : List AgentRepository) (stats : ReclassifyStats)
      → Follows before after
      → HasUniqueIds after
      → (write_back now (results after) (before ++ after) stats).0
        ≡ before ++ map reclassified after
  unfolding write_back new_result
  write_back-map before [] stats f u = refl
  write_back-map before (r ∷ after) stats f u = elim (Bool-cases (is_selected only_status r)) [
    | inl chosen ↦
        let c = classify text (repo_dict r) in
        let r' = write_result now c r in
        let differs : All (λ s. r'.id ≢ s.id) after =
          All-map (λ s. r.id ≢ s.id) (λ s. r'.id ≢ s.id) after
            (λ a d e. d (sym (write_result-id c r) ∙ e)) u.0 in
        rw chosen (
          rw
            (
              update_one (write_result now c) r before after f.0 (later-Apart r after u.0),
              write_back,
            )
            (rw (← moved r' before after, write_back)
              (write_back-map (before ++ (r' ∷ [])) after _
                  (Follows-snoc r' before after f.1 differs) u.1
                ∙ moved r' before (map reclassified after))))
    | inr left ↦ rw left (
        rw (← moved r before after, write_back)
          (write_back-map (before ++ (r ∷ [])) after stats (Follows-snoc r before after f.1 u.0) u.1
            ∙ moved r before (map reclassified after)))
  ]

  -- If it is selected, its classification is the one that it has.
  abbrev pub Settled : AgentRepository → Type 0
  Settled row =
      is_selected only_status row ≡ true → is_changed row (classify text (repo_dict row)) ≡ false

  find_one :
      (r : AgentRepository) (before after : List AgentRepository)
      → Apart r.id before
      → find (λ (row : AgentRepository). row.id == r.id) (before ++ (r ∷ after)) ≡ some r
  find_one r [] after h = rw ((==_iff r.id r.id).1 refl) refl
  find_one r (s ∷ before) after h = ground (arith, ==_iff s.id r.id, find_one r before after)

  pub unchanged_row :
      (c : Classification) (row : AgentRepository)
      → is_changed row c ≡ false
      → write_result now c row ≡ row
  unfolding write_result
  unchanged_row c row h = rw h refl

  unchanged_count :
      (c : Classification) (row : AgentRepository) (stats : ReclassifyStats)
      → is_changed row c ≡ false
      → count_change c (some row) stats ≡ stats
  unfolding count_change
  unchanged_count c row stats h = rw h refl

  -- Settled rows are not written, and no change is counted.
  write_back-Settled :
      (before after : List AgentRepository) (stats : ReclassifyStats)
      → Follows before after
      → HasUniqueIds after
      → All Settled after
      → write_back now (results after) (before ++ after) stats ≡ (before ++ after, stats)
  unfolding write_back new_result
  write_back-Settled before [] stats f u s = refl
  write_back-Settled before (r ∷ after) stats f u s =
      elim (Bool-cases (is_selected only_status r)) [
        | inl chosen ↦
            let c = classify text (repo_dict r) in
            rw chosen (
              rw
                (
                  update_one (write_result now c) r before after f.0 (later-Apart r after u.0),
                  write_back,
                )
                (rw (unchanged_row c r (s.0 chosen), write_back)
                  (rw (find_one r before after f.0, write_back)
                    (rw (unchanged_count c r stats (s.0 chosen), write_back)
                      (rw (← moved r before after, write_back)
                        (write_back-Settled (before ++ (r ∷ [])) after stats
                          (Follows-snoc r before after f.1 u.0) u.1 s.1))))))
        | inr left ↦ rw left (
            rw (← moved r before after, write_back)
              (write_back-Settled (before ++ (r ∷ [])) after stats
                (Follows-snoc r before after f.1 u.0) u.1 s.1))
      ]

  -- The row that is written
  abbrev pub rewritten : Classification → AgentRepository → AgentRepository
  rewritten c row = record row {
    relevance_status = c.relevance_status;
    agent_category = c.agent_category;
    relevance_reason = c.reason;
    relevance_confidence = c.confidence;
    enabled = is_enabled c.relevance_status;
    reclassified_at = some now;
  }

  pub changed_row :
      (c : Classification) (row : AgentRepository)
      → is_changed row c ≡ true
      → write_result now c row ≡ rewritten c row
  unfolding write_result
  changed_row c row h = rw h refl

  same_classification :
      (c : Classification) (row : AgentRepository) → is_changed (rewritten c row) c ≡ false
  unfolding is_changed status_changed category_changed status_eq category_eq
  same_classification c row = ground (
    arith,
    (eq_iff (status_name c.relevance_status) (status_name c.relevance_status)).1 refl,
    (eq_iff (category_name c.agent_category) (category_name c.agent_category)).1 refl,
    (eq_iff c.reason c.reason).1 refl,
  )

  -- Nothing in what is classified is written.
  write_result-settles :
      (row : AgentRepository)
      → let row' = write_result now (classify text (repo_dict row)) row in
        is_changed row' (classify text (repo_dict row')) ≡ false
  unfolding repo_dict
  write_result-settles row =
      let c = classify text (repo_dict row) in
      let P =
        λ (row' : AgentRepository). is_changed row' (classify text (repo_dict row')) ≡ false in
      elim (Bool-cases (is_changed row c)) [
        | inl e ↦ subst P (sym (changed_row c row e)) (same_classification c row)
        | inr e ↦ subst P (sym (unchanged_row c row e)) e
      ]

  reclassified-Settled : (row : AgentRepository) → Settled (reclassified row)
  reclassified-Settled row = elim (Bool-cases (is_selected only_status row)) [
    | inl chosen ↦ rw chosen (λ _. write_result-settles row)
    | inr left ↦ rw left (λ h. absurd (ground arith))
  ]

  pub map-Settled : (rows : List AgentRepository) → All Settled (map reclassified rows)
  map-Settled [] = tt
  map-Settled (r ∷ rows) = (reclassified-Settled r, map-Settled rows)

  map-apart :
      (id : ℕ) (rows : List AgentRepository)
      → All (λ s. id ≢ s.id) rows
      → All (λ s. id ≢ s.id) (map reclassified rows)
  map-apart id [] h = tt
  map-apart id (r ∷ rows) h = ((λ e. h.0 (e ∙ reclassified-id r)), map-apart id rows h.1)

  pub map-HasUniqueIds :
      (rows : List AgentRepository) → HasUniqueIds rows → HasUniqueIds (map reclassified rows)
  map-HasUniqueIds [] u = tt
  map-HasUniqueIds (r ∷ rows) u = (
    subst (λ n. All (λ s. n ≢ s.id) (map reclassified rows)) (sym (reclassified-id r))
        (map-apart r.id rows u.0),
    map-HasUniqueIds rows u.1,
  )

pub no_follower : (rows : List AgentRepository) → All (λ s. Apart s.id []) rows
no_follower [] = tt
no_follower (r ∷ rows) = (tt, no_follower rows)

pub first_run :
    (text : RepoText) (only_status : Option RelevanceStatus) (now : ℕ)
    (table : List AgentRepository)
    → HasUniqueIds table
    → (reclassify text only_status none false now table).0
      ≡ map (reclassified text only_status now) table
unfolding reclassify limited
first_run text only_status now table u =
    write_back-map text only_status now [] table _ (no_follower table) u

-- A run on a table with nothing to change
abbrev pub ChangesNothing : RepoText → Option RelevanceStatus → ℕ → List AgentRepository → Type 0
ChangesNothing text only_status later table =
    ((reclassify text only_status none false later table).0 ≡ table)
    × ((reclassify text only_status none false later table).1.updated ≡ 0)

pub Settled-run :
    (text : RepoText) (only_status : Option RelevanceStatus) (later : ℕ)
    (table : List AgentRepository)
    → HasUniqueIds table
    → All (Settled text only_status later) table
    → ChangesNothing text only_status later table
unfolding reclassify limited
Settled-run text only_status later table u s =
    let e = write_back-Settled text only_status later [] table _ (no_follower table) u s in
    (
      ap (λ (o : List AgentRepository × ReclassifyStats). o.0) e,
      ap (λ (o : List AgentRepository × ReclassifyStats). o.1.updated) e,
    )

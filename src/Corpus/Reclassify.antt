-- ===== src/Corpus/Reclassify.antt =====
-- `reclassify` of src/compliance/corpus/pipeline.py.
--
-- No other connection writes between the reading of the rows and the last transaction.
mod Loop
pub mod Again
use reguard.Prelude.{
  ℕ, zero, suc, ◌+◌, ◌==◌, String, str_eq, Bool, true, false, not, ◌&&◌, ◌||◌, Option, none, some,
  List, [], ◌∷◌, map, keep, find, update_where, count, length, if◌then◌else◌,
}
use reguard.Corpus.Patterns.Runtime.{category_eq}
use reguard.Corpus.Classifier.{RepoText, RelevanceStatus, Classification, classify}
use reguard.Corpus.Repositories.{AgentRepository, status_name, is_enabled, repo_dict}

unfoldable pub status_eq : RelevanceStatus → RelevanceStatus → Bool
unfolding status_name
status_eq s t = str_eq (status_name s) (status_name t)

-- `before` and `after` are the counts by the status.
pub record ReclassifyStats : Type 0 where
  pub scanned : ℕ
  pub updated : ℕ
  pub status_changes : ℕ
  pub category_changes : ℕ
  pub before : RelevanceStatus → ℕ
  pub after : RelevanceStatus → ℕ

-- An entry of `new_results`
pub record NewResult : Type 0 where
  pub id : ℕ
  pub classification : Classification

unfoldable pub status_changed : AgentRepository → Classification → Bool
unfolding status_eq
status_changed row c = not (status_eq row.relevance_status c.relevance_status)

unfoldable pub category_changed : AgentRepository → Classification → Bool
category_changed row c = not (category_eq row.agent_category c.agent_category)

unfoldable pub is_changed : AgentRepository → Classification → Bool
unfolding status_changed category_changed
is_changed row c =
    status_changed row c || category_changed row c || not (str_eq row.relevance_reason c.reason)

unfoldable pub write_result : ℕ → Classification → AgentRepository → AgentRepository
unfolding is_changed is_enabled
write_result now c row =
    if is_changed row c
    then record row {
      relevance_status = c.relevance_status;
      agent_category = c.agent_category;
      relevance_reason = c.reason;
      relevance_confidence = c.confidence;
      enabled = is_enabled c.relevance_status;
      reclassified_at = some now;
    }
    else row

abbrev pub one : Bool → ℕ
one b = if b then 1 else 0

unfoldable pub count_change :
    Classification → Option AgentRepository → ReclassifyStats → ReclassifyStats
unfolding is_changed status_changed category_changed
count_change c none stats = stats
count_change c (some row) stats =
    if is_changed row c
    then record stats {
      updated = suc stats.updated;
      status_changes = stats.status_changes + one (status_changed row c);
      category_changes = stats.category_changes + one (category_changed row c);
    }
    else stats

-- One transaction for each result; `session.get` finds the row by its primary key.
unfoldable pub write_back :
    ℕ
    → List NewResult
    → List AgentRepository
    → ReclassifyStats
    → List AgentRepository × ReclassifyStats
unfolding write_result count_change
write_back now [] table stats = (table, stats)
write_back now (r ∷ rs) table stats =
    write_back now rs
      (update_where (λ (row : AgentRepository). row.id == r.id) (write_result now r.classification)
        table)
      (count_change r.classification (find (λ (row : AgentRepository). row.id == r.id) table) stats)

-- The rows of the query, in the order of their ids
abbrev pub is_selected : Option RelevanceStatus → AgentRepository → Bool
is_selected none row = true
is_selected (some s) row = status_eq row.relevance_status s

abbrev pub first : ℕ → List AgentRepository → List AgentRepository
first zero rows = []
first (suc n) [] = []
first (suc n) (row ∷ rows) = row ∷ first n rows

-- `if limit: stmt.limit(limit)`
unfoldable pub limited : Option ℕ → List AgentRepository → List AgentRepository
limited none rows = rows
limited (some zero) rows = rows
limited (some (suc n)) rows = first (suc n) rows

unfoldable pub new_result : RepoText → AgentRepository → NewResult
unfolding repo_dict
new_result text row = record { id = row.id; classification = classify text (repo_dict row) }

unfoldable pub reclassify :
    RepoText
    → Option RelevanceStatus
    → Option ℕ
    → Bool
    → ℕ
    → List AgentRepository
    → List AgentRepository × ReclassifyStats
unfolding limited new_result write_back status_eq
reclassify text only_status limit dry_run now table =
    let rows = limited limit (keep (is_selected only_status) table) in
    let results = map (new_result text) rows in
    let stats : ReclassifyStats = record {
      scanned = length rows;
      updated = 0;
      status_changes = 0;
      category_changes = 0;
      before = λ s. count (λ (row : AgentRepository). status_eq row.relevance_status s) rows;
      after = λ s. count (λ (r : NewResult). status_eq r.classification.relevance_status s) results;
    } in
    if dry_run then (table, stats) else write_back now results table stats

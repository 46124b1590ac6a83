-- ===== src/Corpus/Discovery.antt =====
-- `discover` of src/compliance/corpus/pipeline.py.
--
-- GitHub's answer to a query is a parameter, `none` for a `GitHubAPIError`; so are the last part of a
-- text that is split at its slashes, and `_parse_iso` with `isoformat`. No other connection writes.
pub mod Growth
use reguard.Prelude.{
  ℕ, zero, suc, ◌+◌, ◌-◌, ◌==◌, max, ltb, leb, String, str_append, str_eq, Bool, true, false, not,
  ◌&&◌, ◌||◌, Option, none, some, List, [], ◌∷◌, ◌++◌, keep, any, count, length, if◌then◌else◌,
}
use reguard.Corpus.Classifier.{
  RepoText, Repo, or_empty, RelevanceStatus, accepted, candidate, rejected, unknown_status,
  Classification, classify,
}
use reguard.Corpus.Repositories.{AgentRepository, is_enabled}

pub record GithubText : Type 0 where
  pub text : RepoText
  pub last_part : String → String
  pub parse_iso : Option String → Option String

-- An item of a search result
pub record GithubItem : Type 0 where
  pub id : Option ℕ
  pub html_url : Option String
  pub repo : Repo

pub record Classified : Type 0 where
  pub accepted_count : ℕ
  pub candidate_count : ℕ
  pub rejected_count : ℕ
  pub unknown_count : ℕ

pub record RunStats : Type 0 where
  pub queries_run : ℕ
  pub fetched : ℕ
  pub after_lang_filter : ℕ
  pub after_dedup : ℕ
  pub inserted : ℕ
  pub classified : Classified

abbrev pub new_stats : RunStats
new_stats = record {
  queries_run = 0;
  fetched = 0;
  after_lang_filter = 0;
  after_dedup = 0;
  inserted = 0;
  classified = record {
    accepted_count = 0;
    candidate_count = 0;
    rejected_count = 0;
    unknown_count = 0;
  };
}

unfoldable pub add_classified : RelevanceStatus → Classified → Classified
add_classified accepted c = record c { accepted_count = suc c.accepted_count }
add_classified candidate c = record c { candidate_count = suc c.candidate_count }
add_classified rejected c = record c { rejected_count = suc c.rejected_count }
add_classified unknown_status c = record c { unknown_count = suc c.unknown_count }

-- An entry of `new_rows`, by the id that it has
pub record NewRow : Type 0 where
  pub github_id : ℕ
  pub item : GithubItem
  pub query : String
  pub classification : Classification

-- The local variables of the two loops
pub record Collected : Type 0 where
  pub stats : RunStats
  pub new_rows : List NewRow
  pub seen_github_ids : List ℕ

unfoldable pub is_python : RepoText → Repo → Bool
is_python text repo = str_eq (text.strip (or_empty repo.language)) "Python"

-- `max_total is not None and len(new_rows) >= max_total`
unfoldable pub is_full : Option ℕ → Collected → Bool
is_full none s = false
is_full (some n) s = leb n (length s.new_rows)

unfoldable pub add_row : RepoText → String → GithubItem → ℕ → Collected → Collected
unfolding add_classified
add_row text query item github_id s =
    let c = classify text item.repo in
    let stats = s.stats in
    record {
      stats = record stats { classified = add_classified c.relevance_status stats.classified };
      new_rows =
          s.new_rows
          ++ (record { github_id = github_id; item = item; query = query; classification = c }
              ∷ []);
      seen_github_ids = github_id ∷ s.seen_github_ids;
    }

unfoldable pub pass_language : RepoText → String → ℕ → GithubItem → ℕ → Collected → Collected
unfolding add_row
pass_language text query min_stars item github_id s =
    let stats = s.stats in
    let passed : Collected = record s {
      stats = record stats { after_lang_filter = suc stats.after_lang_filter };
    } in
    if ltb 0 min_stars && ltb item.repo.stargazers_count min_stars
    then passed
    else add_row text query item github_id passed

-- The body of the inner loop, after its `break`
unfoldable pub collect_item : RepoText → String → ℕ → GithubItem → Collected → Collected
unfolding is_python pass_language
collect_item text query min_stars item s = elim item.id [
  | none ↦ s
  | some github_id ↦
      if any (λ i. i == github_id) s.seen_github_ids
      then s
      else if is_python text item.repo
      then pass_language text query min_stars item github_id s
      else s
]

unfoldable pub collect_items :
    RepoText → String → ℕ → Option ℕ → List GithubItem → Collected → Collected
unfolding is_full collect_item
collect_items text query min_stars max_total [] s = s
collect_items text query min_stars max_total (item ∷ items) s =
    let rest =
      collect_items text query min_stars max_total items
        (collect_item text query min_stars item s) in
    if is_full max_total s then s else rest

unfoldable pub fetched_items : List GithubItem → Collected → Collected
fetched_items items s =
    let stats = s.stats in
    record s {
      stats = record stats {
        queries_run = suc stats.queries_run;
        fetched = stats.fetched + length items;
      };
    }

unfoldable pub collect_answer :
    RepoText → String → ℕ → Option ℕ → Option (List GithubItem) → Collected → Collected
unfolding collect_items fetched_items
collect_answer text query min_stars max_total none s = s
collect_answer text query min_stars max_total (some items) s =
    collect_items text query min_stars max_total items (fetched_items items s)

unfoldable pub collect_queries :
    RepoText
    → (String → Option (List GithubItem))
    → ℕ
    → Option ℕ
    → List String
    → Collected
    → Collected
unfolding is_full collect_answer
collect_queries text search min_stars max_total [] s = s
collect_queries text search min_stars max_total (query ∷ queries) s =
    let rest =
      collect_queries text search min_stars max_total queries
        (collect_answer text query min_stars max_total (search query) s) in
    if is_full max_total s then s else rest

unfoldable pub last_id : List AgentRepository → ℕ
last_id [] = 0
last_id (r ∷ rs) = max r.id (last_id rs)

-- `x or y`
abbrev or_else : Option String → String → String
or_else none y = y
or_else (some x) y = if str_eq x "" then y else x

unfoldable pub built_row : GithubText → ℕ → NewRow → String → AgentRepository
unfolding is_enabled
built_row tx id n full_name =
    let repo = n.item.repo in
    let c = n.classification in
    record {
      id = id;
      github_id = n.github_id;
      full_name = full_name;
      name = or_else repo.name (tx.last_part full_name);
      html_url = or_else n.item.html_url (str_append "https://github.com/" full_name);
      description = repo.description;
      primary_language = repo.language;
      topics = repo.topics;
      stars = repo.stargazers_count;
      github_pushed_at = tx.parse_iso repo.pushed_at;
      archived = repo.archived;
      fork = repo.fork;
      agent_category = c.agent_category;
      relevance_status = c.relevance_status;
      relevance_confidence = c.confidence;
      relevance_reason = c.reason;
      discovery_query = n.query;
      reclassified_at = none;
      enabled = is_enabled c.relevance_status;
    }

-- `_repo_to_row`, under the next primary key; `none` is the `KeyError` of a missing `full_name`.
unfoldable pub repo_to_row : GithubText → ℕ → NewRow → Option AgentRepository
unfolding built_row
repo_to_row tx id n = elim n.item.repo.full_name [
  | none ↦ none
  | some full_name ↦ some (built_row tx id n full_name)
]

-- The three unique columns
unfoldable pub is_taken : AgentRepository → AgentRepository → Bool
is_taken row r =
    r.github_id == row.github_id
    || str_eq r.full_name row.full_name
    || str_eq r.html_url row.html_url

-- `session.add(row)` and the commit; an exception skips the row.
unfoldable pub insert :
    Option AgentRepository → RunStats → List AgentRepository → RunStats × List AgentRepository
unfolding is_taken
insert none stats table = (stats, table)
insert (some row) stats table =
    if any (is_taken row) table
    then (stats, table)
    else (record stats { inserted = suc stats.inserted }, table ++ (row ∷ []))

unfoldable pub insert_all :
    GithubText → List NewRow → RunStats → List AgentRepository → RunStats × List AgentRepository
unfolding repo_to_row insert last_id
insert_all tx [] stats table = (stats, table)
insert_all tx (n ∷ rest) stats table =
    let (stats', table') = insert (repo_to_row tx (suc (last_id table)) n) stats table in
    insert_all tx rest stats' table'

abbrev pub is_known : List AgentRepository → ℕ → Bool
is_known table github_id = any (λ r. r.github_id == github_id) table

unfoldable pub collected :
    RepoText → (String → Option (List GithubItem)) → List String → ℕ → Option ℕ → Collected
unfolding collect_queries
collected text search queries min_stars max_total =
    collect_queries text search min_stars max_total queries
      (record { stats = new_stats; new_rows = []; seen_github_ids = [] })

unfoldable pub discover :
    GithubText
    → (String → Option (List GithubItem))
    → List String
    → ℕ
    → Option ℕ
    → List AgentRepository
    → RunStats × List AgentRepository
unfolding collected insert_all
discover tx search queries min_stars max_total table =
    let s = collected tx.text search queries min_stars max_total in
    let stats = s.stats in
    insert_all tx (keep (λ (n : NewRow). not (is_known table n.github_id)) s.new_rows)
      (record stats { after_dedup = length s.new_rows - count (is_known table) s.seen_github_ids })
      table

-- ===== src/Corpus/Repositories.antt =====
-- The table `agent_repositories` of src/compliance/models.py, and the two readings of it in
-- src/compliance/corpus/pipeline.py.
--
-- Columns that are copied from GitHub and that nothing here reads are left out. `topics_json` is the list
-- that it holds, and a date is the text that `isoformat` gives.
use reguard.Prelude.{ℕ, String, Bool, Option, some, List}
use reguard.Corpus.Patterns.Runtime.{AgentCategory}
use reguard.Corpus.Classifier.{
  or_empty, Repo, RelevanceStatus, accepted, candidate, rejected, unknown_status,
}

pub record AgentRepository : Type 0 where
  pub id : ℕ
  pub github_id : ℕ
  pub full_name : String
  pub name : String
  pub html_url : String
  pub description : Option String
  pub primary_language : Option String
  pub topics : List String
  pub stars : ℕ
  pub github_pushed_at : Option String
  pub archived : Bool
  pub fork : Bool
  pub agent_category : AgentCategory
  pub relevance_status : RelevanceStatus
  pub relevance_confidence : ℕ
  pub relevance_reason : String
  pub discovery_query : String
  pub reclassified_at : Option ℕ
  pub enabled : Bool

unfoldable pub status_name : RelevanceStatus → String
status_name accepted = "accepted"
status_name candidate = "candidate"
status_name rejected = "rejected"
status_name unknown_status = "unknown"

-- `classification.relevance_status != cls.STATUS_REJECTED`
unfoldable pub is_enabled : RelevanceStatus → Bool
is_enabled rejected = Bool.false
is_enabled _ = Bool.true

-- `repo_dict`, from the snapshot of a row
unfoldable pub repo_dict : AgentRepository → Repo
repo_dict row = record {
  name = some row.name;
  full_name = some row.full_name;
  description = some (or_empty row.description);
  topics = row.topics;
  archived = row.archived;
  fork = row.fork;
  pushed_at = row.github_pushed_at;
  language = row.primary_language;
  stargazers_count = row.stars;
}

-- ===== src/Runner/Validator.antt =====
-- `validate_terminal_state` of src/compliance/corpus_runner/persistence.py.
--
-- The text `detail` of an issue, which repeats values of the row, is left out.
pub mod Latest
pub mod Soundness
pub mod Skipped
pub mod Terminalized
use reguard.Prelude.{
  ℕ, suc, ◌==◌, ltb, String, Bool, true, false, not, ◌&&◌, ◌||◌, Option, none, some, List, [], ◌∷◌,
  ◌++◌, keep, length, str_eq, if◌then◌else◌,
}
use reguard.Verdict.Types.{RunStatus, unsupported}
use reguard.Runner.Tables.{ManifestRow, Job, Evaluation, Db, status_eq}
use reguard.Runner.Terminalize.{has_status}
use reguard.Runner.Totals.{is_skipped, is_terminal}

pub data IssueClass : Type 0 where
  malformed_unsupported_reason missing_requirement_evaluation : IssueClass
  conflicting_requirement_evaluation malformed_skipped_scenario : IssueClass

pub record ValidationIssue : Type 0 where
  pub job_id : ℕ
  pub full_name : String
  pub issue_class : IssueClass

-- A row of the query: the job, the name of its manifest row, `re_count` and `re_status`.
pub record TerminalRow : Type 0 where
  pub job : Job
  pub open job use *
  pub full_name : String
  pub re_count : ℕ
  pub re_status : Option RunStatus

-- `WHERE re.evaluation_job_id = j.id`
unfoldable pub evaluations_of : Job → Db → List Evaluation
evaluations_of j db = keep (λ e. e.key.evaluation_job_id == j.id) db.evaluations

-- `ORDER BY re.evaluated_at DESC LIMIT 1`
unfoldable pub latest_status : List Evaluation → Option Evaluation
latest_status [] = none
latest_status (e ∷ es) = elim (latest_status es) [
  | none ↦ some e
  | some f ↦ if ltb e.evaluated_at f.evaluated_at then some f else some e
]

abbrev pub status_of : Option Evaluation → Option RunStatus
status_of none = none
status_of (some e) = some e.compliance_status

unfoldable pub terminal_row_of : Job → Db → ManifestRow → TerminalRow
unfolding evaluations_of latest_status
terminal_row_of j db m = record {
  job = j;
  full_name = m.full_name;
  re_count = length (evaluations_of j db);
  re_status = status_of (latest_status (evaluations_of j db));
}

-- One row for each match of the `JOIN`.
unfoldable pub joined : Job → Db → List ManifestRow → List TerminalRow
unfolding terminal_row_of
joined j db [] = []
joined j db (m ∷ ms) =
    if m.corpus_run_id == j.key.corpus_run_id && m.repository_id == j.key.repository_id
    then terminal_row_of j db m ∷ joined j db ms
    else joined j db ms

unfoldable pub rows_of : ℕ → Db → List Job → List TerminalRow
unfolding joined
rows_of run db [] = []
rows_of run db (j ∷ js) =
    if j.key.corpus_run_id == run && is_terminal j.job_status
    then joined j db db.manifest ++ rows_of run db js
    else rows_of run db js

abbrev pub is_missing : Option String → Bool
is_missing none = true
is_missing (some c) = false

abbrev pub is_capability : String → Option String → Bool
is_capability name none = false
is_capability name (some c) = str_eq c name

-- `compliance_status is not None and re_status is not None and compliance_status != re_status`
abbrev pub is_conflicting : Option RunStatus → Option RunStatus → Bool
is_conflicting (some s) (some t) = not (status_eq s t)
is_conflicting _ _ = false

-- The tests 1 and 4 of the loop.
unfoldable pub is_malformed_unsupported : TerminalRow → Bool
unfolding has_status
is_malformed_unsupported r =
    has_status unsupported r.compliance_status && is_missing r.missing_capability

unfoldable pub is_malformed_skipped : TerminalRow → Bool
is_malformed_skipped r =
    is_skipped r.job_status && not (is_capability "tool_failure_scenario" r.missing_capability)

abbrev pub issue : TerminalRow → IssueClass → ValidationIssue
issue r c = record { job_id = r.id; full_name = r.full_name; issue_class = c }

unfoldable pub issues_of : TerminalRow → List ValidationIssue
unfolding is_malformed_unsupported is_malformed_skipped
issues_of r =
    (if is_malformed_unsupported r then issue r malformed_unsupported_reason ∷ [] else [])
    ++ (if r.re_count == 0
        then issue r missing_requirement_evaluation ∷ []
        else if is_conflicting r.compliance_status r.re_status
        then issue r conflicting_requirement_evaluation ∷ []
        else [])
    ++ (if is_malformed_skipped r then issue r malformed_skipped_scenario ∷ [] else [])

unfoldable pub all_issues : List TerminalRow → List ValidationIssue
unfolding issues_of
all_issues [] = []
all_issues (r ∷ rs) = issues_of r ++ all_issues rs

-- The place of a token in the order of the texts.
abbrev pub rank : IssueClass → ℕ
rank conflicting_requirement_evaluation = 0
rank malformed_skipped_scenario = 1
rank malformed_unsupported_reason = 2
rank missing_requirement_evaluation = 3

-- The order of `(issue_class, job_id)`.
unfoldable pub comes_after : ValidationIssue → ValidationIssue → Bool
comes_after i k =
    ltb (rank k.issue_class) (rank i.issue_class)
    || (rank i.issue_class == rank k.issue_class && ltb k.job_id i.job_id)

unfoldable pub insert_issue : ValidationIssue → List ValidationIssue → List ValidationIssue
unfolding comes_after
insert_issue i [] = i ∷ []
insert_issue i (k ∷ ks) = if comes_after i k then k ∷ insert_issue i ks else i ∷ k ∷ ks

-- `issues.sort`
unfoldable pub sort_issues : List ValidationIssue → List ValidationIssue
unfolding insert_issue
sort_issues [] = []
sort_issues (i ∷ is') = insert_issue i (sort_issues is')

unfoldable pub validate_terminal_state : ℕ → Db → List ValidationIssue
unfolding rows_of all_issues sort_issues
validate_terminal_state run db = sort_issues (all_issues (rows_of run db db.jobs))

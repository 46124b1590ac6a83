-- ===== src/Runner/Validator/Soundness.antt =====
-- What it means that the validator reports nothing.
use reguard.Prelude.{
  ℕ, ==_iff, String, true, false, Option, none, some, List, [], ◌∷◌, ◌++◌, ◌≡◌, ◌≢◌, ◌↔◌, ◌⊎◌,
  arith, refl, All, Any, All-append_iff, count, length-keep, keep, Bool, Option-cases, ◌==◌, ◌&&◌,
  sym, ◌∙◌, inl, inr, Bool-cases, eq_iff,
}
use mathlib.Core.Path.{subst}
use reguard.Verdict.Types.{RunStatus, unsupported}
use reguard.Runner.Tables.{
  JobStatus, completed, Job, Evaluation, ManifestRow, skipped_unsupported_scenario, Db,
  status_eq_iff,
}
use reguard.Runner.Terminalize.{has_status}
use reguard.Runner.Totals.{is_terminal}
use reguard.Runner.Validator.Latest.{IsLatest, IsLatest-latest_status, latest_status-IsLatest}
use reguard.Runner.Validator.{
  ValidationIssue, TerminalRow, evaluations_of, latest_status, status_of, terminal_row_of, joined,
  rows_of, is_capability, is_conflicting, is_malformed_unsupported, is_malformed_skipped, issues_of,
  all_issues, insert_issue, sort_issues, validate_terminal_state,
}

-- Two statuses that may stand together.
abbrev pub Compatible : Option RunStatus → Option RunStatus → Type 0
Compatible c s = (c ≡ none) ⊎ (s ≡ none) ⊎ (c ≡ s)

-- A terminal row in good order.
pub record IsSound (r : TerminalRow) : Type 0 where
  pub reason_given : (r.compliance_status ≢ some unsupported) ⊎ (r.missing_capability ≢ none)
  pub evaluated : r.re_count ≢ 0
  pub agrees : Compatible r.compliance_status r.re_status
  pub skip_explained :
      (r.job_status ≢ skipped_unsupported_scenario)
      ⊎ (r.missing_capability ≡ some "tool_failure_scenario")

unsupported_iff :
    (c : Option RunStatus) → (has_status unsupported c ≡ true) ↔ (c ≡ some unsupported)
unfolding has_status
unsupported_iff none = ground arith
unsupported_iff (some s) = ground (arith, status_eq_iff s unsupported)

conflicting_iff : (c s : Option RunStatus) → (is_conflicting c s ≡ false) ↔ Compatible c s
conflicting_iff none s = ground arith
conflicting_iff (some c) none = ground arith
conflicting_iff (some c) (some s) = ground (arith, status_eq_iff c s)

malformed_unsupported_iff :
    (r : TerminalRow)
    → (is_malformed_unsupported r ≡ false)
      ↔ ((r.compliance_status ≢ some unsupported) ⊎ (r.missing_capability ≢ none))
unfolding is_malformed_unsupported
malformed_unsupported_iff r = ground (arith, unsupported_iff r.compliance_status)

capability_iff :
    (name : String) (c : Option String) → (is_capability name c ≡ true) ↔ (c ≡ some name)
capability_iff name none = ground arith
capability_iff name (some c) = ground (arith, eq_iff c name)

malformed_skipped_iff :
    (r : TerminalRow)
    → (is_malformed_skipped r ≡ false) ↔ (
        (r.job_status ≢ skipped_unsupported_scenario)
        ⊎ (r.missing_capability ≡ some "tool_failure_scenario"))
unfolding is_malformed_skipped
malformed_skipped_iff r =
    ground (arith, capability_iff "tool_failure_scenario" r.missing_capability)

issues_of_iff : (r : TerminalRow) → (issues_of r ≡ []) ↔ IsSound r
unfolding issues_of
issues_of_iff r = ground (
  arith,
  malformed_unsupported_iff r,
  malformed_skipped_iff r,
  conflicting_iff r.compliance_status r.re_status,
  ==_iff r.re_count 0,
)

append_nil_iff : (xs ys : List ValidationIssue) → (xs ++ ys ≡ []) ↔ ((xs ≡ []) × (ys ≡ []))
append_nil_iff [] ys = ground arith
append_nil_iff (x ∷ xs) ys = ground arith

all_issues_iff : (rs : List TerminalRow) → (all_issues rs ≡ []) ↔ All IsSound rs
unfolding all_issues
all_issues_iff [] = ground arith
all_issues_iff (r ∷ rs) =
    ground (arith, append_nil_iff (issues_of r) (all_issues rs), issues_of_iff r, all_issues_iff rs)

insert_issue_nonempty : (i : ValidationIssue) (ks : List ValidationIssue) → insert_issue i ks ≢ []
unfolding insert_issue
insert_issue_nonempty i [] = λ e. cc
insert_issue_nonempty i (k ∷ ks) = ground arith

sort_issues_iff : (is' : List ValidationIssue) → (sort_issues is' ≡ []) ↔ (is' ≡ [])
unfolding sort_issues
sort_issues_iff [] = ground arith
sort_issues_iff (i ∷ is') = ground (arith, insert_issue_nonempty i (sort_issues is'))

-- The validator reports nothing exactly if every row that its query selects is in good order.
pub validate_terminal_state-silent_iff :
    (run : ℕ) (db : Db)
    → (validate_terminal_state run db ≡ []) ↔ All IsSound (rows_of run db db.jobs)
unfolding validate_terminal_state
validate_terminal_state-silent_iff run db = ground (
  arith,
  sort_issues_iff (all_issues (rows_of run db db.jobs)),
  all_issues_iff (rows_of run db db.jobs),
)

-- A job has its row in the manifest of its run.
abbrev pub IsListed : Db → Job → Type 0
IsListed db j =
    Any
      (λ (m : ManifestRow).
        (m.corpus_run_id ≡ j.key.corpus_run_id) × (m.repository_id ≡ j.key.repository_id))
      db.manifest

-- A job in good order.
pub record InOrder (db : Db) (j : Job) : Type 0 where
  pub reason_given : (j.compliance_status ≢ some unsupported) ⊎ (j.missing_capability ≢ none)
  pub evaluated : count (λ (e : Evaluation). e.key.evaluation_job_id == j.id) db.evaluations ≢ 0
  pub agrees :
      (e : Evaluation)
      → IsLatest (keep (λ (f : Evaluation). f.key.evaluation_job_id == j.id) db.evaluations) e
      → Compatible j.compliance_status (some e.compliance_status)
  pub skip_explained :
      (j.job_status ≢ skipped_unsupported_scenario)
      ⊎ (j.missing_capability ≡ some "tool_failure_scenario")

-- The status that the subquery picks, and that of the latest evaluation
agrees_iff :
    (c : Option RunStatus) (es : List Evaluation)
    → Compatible c (status_of (latest_status es))
      ↔ ((e : Evaluation) → IsLatest es e → Compatible c (some e.compliance_status))
agrees_iff c es = (
  λ h e l.
      subst (λ (o : Option Evaluation). Compatible c (status_of o)) (latest_status-IsLatest es e l)
        h,
  λ h. elim (Option-cases (latest_status es)) [
    | inl n ↦ subst (λ (o : Option Evaluation). Compatible c (status_of o)) (sym n) (inr (inl refl))
    | inr (e, n) ↦
        subst (λ (o : Option Evaluation). Compatible c (status_of o)) (sym n)
          (h e (IsLatest-latest_status es e n))
  ],
)

-- Whatever its manifest row, the row that the query makes of a job is sound when the job is in order.
terminal_row_of_iff :
    (db : Db) (j : Job) (m : ManifestRow) → IsSound (terminal_row_of j db m) ↔ InOrder db j
unfolding terminal_row_of evaluations_of
terminal_row_of_iff db j m =
    let of_job : Evaluation → Bool = λ e. e.key.evaluation_job_id == j.id in
    let n = length-keep of_job db.evaluations in
    let latest = agrees_iff j.compliance_status (keep of_job db.evaluations) in
    (
      λ s. record {
        reason_given = s.reason_given;
        evaluated = λ z. s.evaluated (n ∙ z);
        agrees = latest.0 s.agrees;
        skip_explained = s.skip_explained;
      },
      λ o. record {
        reason_given = o.reason_given;
        evaluated = λ z. o.evaluated (sym n ∙ z);
        agrees = latest.1 o.agrees;
        skip_explained = o.skip_explained;
      },
    )

abbrev IsMatch : Job → ManifestRow → Type 0
IsMatch j m = (m.corpus_run_id ≡ j.key.corpus_run_id) × (m.repository_id ≡ j.key.repository_id)

joined_iff :
    (db : Db) (j : Job) (ms : List ManifestRow)
    → All IsSound (joined j db ms) ↔ (Any (IsMatch j) ms → InOrder db j)
unfolding joined
joined_iff db j [] = (λ s none. absurd none, λ h. tt)
joined_iff db j (m ∷ ms) =
    let rest = joined_iff db j ms in
    let row = terminal_row_of_iff db j m in
    let run = ==_iff m.corpus_run_id j.key.corpus_run_id in
    let repository = ==_iff m.repository_id j.key.repository_id in
    elim (Bool-cases
      (m.corpus_run_id == j.key.corpus_run_id && m.repository_id == j.key.repository_id)) [
        | inl same ↦
            rw (same, joined)
              (
                λ s _. row.0 s.0,
                λ h.
                    let o =
                      h (inl (ground (arith, run, repository), ground (arith, run, repository))) in
                    (row.1 o, rest.1 (λ _. o)),
              )
        | inr differs ↦
            rw (differs, joined)
              (
                λ s a. elim a [
                  | inl here ↦ absurd (ground (arith, run, repository))
                  | inr there ↦ rest.0 s there
                ],
                λ h. rest.1 (λ a. h (inr a)),
              )
      ]

-- What the validator demands of a job of the table.
abbrev pub Meets : ℕ → Db → Job → Type 0
Meets run db j =
    j.key.corpus_run_id ≡ run
    → (j.job_status ≡ completed) ⊎ (j.job_status ≡ skipped_unsupported_scenario)
    → IsListed db j
    → InOrder db j

terminal_iff :
    (s : JobStatus)
    → (is_terminal s ≡ true) ↔ ((s ≡ completed) ⊎ (s ≡ skipped_unsupported_scenario))
terminal_iff s = ground arith

rows_of_iff :
    (run : ℕ) (db : Db) (js : List Job) → All IsSound (rows_of run db js) ↔ All (Meets run db) js
unfolding rows_of
rows_of_iff run db [] = (λ s. tt, λ s. tt)
rows_of_iff run db (j ∷ js) =
    let rest = rows_of_iff run db js in
    let mine = joined_iff db j db.manifest in
    let both = All-append_iff IsSound (joined j db db.manifest) (rows_of run db js) in
    let of_run = ==_iff j.key.corpus_run_id run in
    let ended = terminal_iff j.job_status in
    elim (Bool-cases (j.key.corpus_run_id == run && is_terminal j.job_status)) [
      | inl taken ↦
          rw (taken, rows_of)
            (
              λ s. (λ _ _ listed. mine.0 (both.0 s).0 listed, rest.0 (both.0 s).1),
              λ h. both.1 (
                mine.1 (λ listed. h.0 (ground (arith, of_run)) (ended.0 (ground arith)) listed),
                rest.1 h.1,
              ),
            )
      | inr left ↦
          rw (left, rows_of)
            (
              λ s. (λ same done _. absurd (ground (arith, of_run, ended)), rest.0 s),
              λ h. rest.1 h.1,
            )
    ]

-- The validator reports nothing exactly if every job of the run that is completed or skipped and has its
-- row in the manifest is in good order: an UNSUPPORTED verdict names the missing capability, there is an
-- evaluation, its latest status does not differ from the job's, and a skipped job names
-- `tool_failure_scenario`.
pub validate_terminal_state_iff :
    (run : ℕ) (db : Db) → (validate_terminal_state run db ≡ []) ↔ All (Meets run db) db.jobs
validate_terminal_state_iff run db =
    let silent = validate_terminal_state-silent_iff run db in
    let met = rows_of_iff run db db.jobs in (λ h. met.0 (silent.0 h), λ h. silent.1 (met.1 h))

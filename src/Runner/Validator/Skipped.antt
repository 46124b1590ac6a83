-- ===== src/Runner/Validator/Skipped.antt =====
-- What the validator says of a job that was skipped for its scenario.
use reguard.Prelude.{
  ℕ, ◌==◌, ==_iff, String, Bool, true, false, ◌&&◌, none, some, List, [], ◌∷◌, ◌++◌, ◌≡◌, ◌≢◌, refl,
  sym, ap, ◌∙◌, inl, inr, arith, All, any, find, map_option, find-holds, find-update_where,
  if◌then◌else◌, Bool-cases,
}
use mathlib.Core.Path.{subst}
use reguard.Runner.Tables.{skipped_unsupported_scenario, ManifestRow, Job, Db}
use reguard.Runner.Persistence.{job_with_id, update_evaluation_job_skipped}
use reguard.Runner.Errors.{ErrorClass}
use reguard.Runner.Totals.{is_terminal}
use reguard.Runner.Validator.{
  TerminalRow, terminal_row_of, joined, rows_of, validate_terminal_state,
}
use reguard.Runner.Validator.Soundness.{IsSound, validate_terminal_state-silent_iff}

-- The `JOIN` condition.
abbrev pub is_manifest_of : Job → ManifestRow → Bool
is_manifest_of j m =
    m.corpus_run_id == j.key.corpus_run_id && m.repository_id == j.key.repository_id

All-append :
    (P : TerminalRow → Type 0) (xs ys : List TerminalRow) → All P (xs ++ ys) → All P xs × All P ys
All-append P [] ys h = (tt, h)
All-append P (x ∷ xs) ys h = let (first, rest) = All-append P xs ys h.1 in ((h.0, first), rest)

if_rest :
    (P : TerminalRow → Type 0) (b : Bool) (xs ys : List TerminalRow)
    → All P (if b then xs ++ ys else ys)
    → All P ys
if_rest P true xs ys h = (All-append P xs ys h).1
if_rest P false xs ys h = h

if_first :
    (P : TerminalRow → Type 0) (b : Bool) (xs ys : List TerminalRow)
    → b ≡ true
    → All P (if b then xs ++ ys else ys)
    → All P xs
if_first P true xs ys t h = (All-append P xs ys h).0
if_first P false xs ys t h = cc

-- A terminal job of the run is among the rows that are looked at.
rows_of-joined :
    (P : TerminalRow → Type 0) (run : ℕ) (db : Db) (p : Job → Bool) (js : List Job) (j : Job)
    → find p js ≡ some j
    → (j.key.corpus_run_id == run && is_terminal j.job_status) ≡ true
    → All P (rows_of run db js)
    → All P (joined j db db.manifest)
unfolding rows_of
rows_of-joined P run db p [] j e over h = cc
rows_of-joined P run db p (k ∷ js) j e over h = elim (Bool-cases (p k)) [
  | inl t ↦
      let same : k ≡ j = ground arith in
      subst (λ i. All P (joined i db db.manifest)) same
        (if_first P _ (joined k db db.manifest) (rows_of run db js)
          (subst (λ i. (i.key.corpus_run_id == run && is_terminal i.job_status) ≡ true) (sym same)
            over)
          h)
  | inr f ↦
      rows_of-joined P run db p js j (ground arith) over
        (if_rest P _ (joined k db db.manifest) (rows_of run db js) h)
]

joined-row :
    (P : TerminalRow → Type 0) (j : Job) (db : Db) (ms : List ManifestRow)
    → any (is_manifest_of j) ms ≡ true
    → All P (joined j db ms)
    → (m : ManifestRow) × P (terminal_row_of j db m)
unfolding joined
joined-row P j db [] e h = cc
joined-row P j db (m ∷ ms) e h = elim (Bool-cases (is_manifest_of j m)) [
  | inl t ↦ (m, ground arith)
  | inr f ↦ joined-row P j db ms (ground arith) (ground arith)
]

unexplained :
    (j : Job) (db : Db) (m : ManifestRow)
    → j.job_status ≡ skipped_unsupported_scenario
    → j.missing_capability ≡ none
    → ¬ IsSound (terminal_row_of j db m)
unfolding terminal_row_of
unexplained j db m skipped unnamed sound = ground (arith, sound.skip_explained)

-- A job of the run with a row in the manifest and no missing capability, when it is skipped for its
-- scenario as `build_jobs_for_run` does it, makes the validator report an issue, whatever else the
-- database holds: the statement that skips it never names `tool_failure_scenario`.
pub validate_terminal_state-skipped :
    (run id : ℕ) (reason : String) (now : ℕ) (db : Db) (j : Job)
    → job_with_id id db ≡ some j
    → j.key.corpus_run_id ≡ run
    → any (is_manifest_of j) db.manifest ≡ true
    → j.missing_capability ≡ none
    → validate_terminal_state run (update_evaluation_job_skipped id reason now db) ≢ []
unfolding update_evaluation_job_skipped
validate_terminal_state-skipped run id reason now db j found in_run listed unnamed nothing =
    let hit = find-holds (λ k. k.id == id) db.jobs j found in
    let skipped : Job = record j {
      job_status = skipped_unsupported_scenario;
      completed_at = some now;
      error_class = some ErrorClass.skipped_unsupported_scenario;
      error_message = some reason;
    } in
    let db' = update_evaluation_job_skipped id reason now db in
    let found' : job_with_id id db' ≡ some skipped =
      find-update_where (λ k. k.id == id) _ _ db.jobs (λ a. refl)
      ∙ ap (map_option _) found
      ∙ rw hit in
    let sound = (validate_terminal_state-silent_iff run db').0 nothing in
    let rows =
      rows_of-joined IsSound run db' (λ k. k.id == id) db'.jobs skipped found'
        (ground (arith, ==_iff j.key.corpus_run_id run)) sound in
    let (m, bad) = joined-row IsSound skipped db' db'.manifest listed rows in
    unexplained skipped db' m refl unnamed bad

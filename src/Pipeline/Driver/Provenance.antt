-- ===== src/Pipeline/Driver/Provenance.antt =====
-- Path mode runs the commit that it was asked for, or nothing.
use reguard.Prelude.{
  ℕ, String, Bool, true, false, none, some, List, [], ◌∷◌, ◌≡◌, refl, ap, ◌≢◌, ◌⊎◌, inl, inr, arith,
  Option-cases, Bool-cases, keep, str_eq, eq_iff,
}
use reguard.Verdict.Requirement.{RequirementTest, get_requirement}
use reguard.Pipeline.Types.{RunRecord, RepositoryTarget, RepoAdapter, get_adapter}
use reguard.Pipeline.Persistence.{
  Row, DedupKey, record_key, row_key, found, newest, row_to_record, load_run_by_dedup_key,
}
use reguard.Pipeline.Persistence.Keys.{has_key, same_key_iff}
use reguard.Pipeline.Driver.{
  Setup, Course, DriverError, raises, returns, sha_mismatch, Checkout, missing, file, directory,
  run_record, persist_record, run_pipeline, verify_checkout, path_target, run_path_mode,
}

newest-holds :
    {Json : Type 0} (p : Row Json → Bool) (rows : List (Row Json)) (row : Row Json)
    → newest (keep p rows) ≡ some row
    → p row ≡ true
unfolding newest
newest-holds p [] row e = cc
newest-holds p (r ∷ rs) row e = ground (arith, newest-holds p rs row)

row_to_record-sha :
    {Json : Type 0} (setup : Setup Json) (row : Row Json) (r : RunRecord)
    → row_to_record setup.json row ≡ found r
    → r.repository.sha ≡ row.repo_sha
unfolding row_to_record
row_to_record-sha setup row r e = ground arith

load-sha :
    {Json : Type 0} (setup : Setup Json) (key : DedupKey) (rows : List (Row Json)) (r : RunRecord)
    → load_run_by_dedup_key setup.json key rows ≡ found r
    → r.repository.sha ≡ key.repo_sha
unfolding load_run_by_dedup_key row_key
load-sha setup key rows r e = elim (Option-cases (newest (keep (has_key key) rows))) [
  | inl n ↦ ground arith
  | inr (row, f) ↦ ground (
    arith,
    row_to_record-sha setup row r,
    ap (λ (k : DedupKey). k.repo_sha)
        ((same_key_iff key (row_key row)).0 (newest-holds (has_key key) rows row f)),
  )
]

verify_checkout_cases :
    (path : Checkout) (sha : String)
    → ((path ≡ directory (some sha)) × (verify_checkout path sha ≡ none))
      ⊎ ((path ≢ directory (some sha)) × (e : DriverError) × (verify_checkout path sha ≡ some e))
unfolding verify_checkout
verify_checkout_cases missing sha = inr (λ h. cc, _, refl)
verify_checkout_cases file sha = inr (λ h. cc, _, refl)
verify_checkout_cases (directory none) sha = inr (λ h. cc, _, refl)
verify_checkout_cases (directory (some head)) sha = elim (Bool-cases (str_eq head sha)) [
  | inl e ↦ inl (ground (arith, eq_iff head sha), rw e refl)
  | inr e ↦ inr (λ h. ground (arith, eq_iff head sha), sha_mismatch head sha, rw e refl)
]

module _ {Json : Type 0} (setup : Setup Json) where
  path_target-sha :
      (persist : Bool) (full_name sha : String)
      → (path_target setup persist full_name sha).sha ≡ sha
  unfolding path_target
  path_target-sha false full_name sha = refl
  path_target-sha true full_name sha = ground arith

  persist_record-sha :
      (now : ℕ) (r old : RunRecord) (rows after : List (Row Json))
      → persist_record setup now r rows ≡ returns old after
      → old.repository.sha ≡ r.repository.sha
  unfolding persist_record record_key
  persist_record-sha now r old rows after e = ground (arith, load-sha setup (record_key r) rows old)

  run_pipeline-sha :
      (persist : Bool) (target : RepositoryTarget) (requirement_id : String) (course : Course Json)
      (rows after : List (Row Json)) (r : RunRecord)
      → run_pipeline setup persist target requirement_id course rows ≡ returns r after
      → r.repository.sha ≡ target.sha
  unfolding run_pipeline run_record
  run_pipeline-sha persist target requirement_id course rows after r e =
      elim (Option-cases (get_adapter setup.adapters target.full_name)) [
        | inl n ↦ ground arith
        | inr (adapter, a) ↦
            elim (Option-cases (get_requirement setup.requirements requirement_id)) [
              | inl n ↦ ground arith
              | inr (requirement, q) ↦ ground (
                arith,
                persist_record-sha course.now (run_record setup target adapter requirement course) r
                    rows after,
              )
            ]
      ]

  -- If path mode returns a record, with or without a table, then the path was a directory whose HEAD
  -- is the requested commit, and the record (an older one that the table had included) names that
  -- commit.
  pub run_path_mode-provenance :
      (path : Checkout) (full_name sha requirement_id : String) (persist : Bool)
      (course : Course Json) (rows after : List (Row Json)) (r : RunRecord)
      → run_path_mode setup path full_name sha requirement_id persist course rows ≡ returns r after
      → (path ≡ directory (some sha)) × (r.repository.sha ≡ sha)
  unfolding run_path_mode
  run_path_mode-provenance path full_name sha requirement_id persist course rows after r e =
      elim (verify_checkout_cases path sha) [
        | inl (p, v) ↦ (
          p,
          ground (
            arith,
            run_pipeline-sha persist (path_target setup persist full_name sha) requirement_id course
                (course.others rows) after r,
            path_target-sha persist full_name sha,
          ),
        )
        | inr (n, err, v) ↦ ground arith
      ]

  -- Where the adapter and the requirement are known, path mode without a table returns a record
  -- exactly when the path is a directory at the requested commit: it then names that commit, and no
  -- row is written. At any other path it raises, with a table too.
  run_path_mode_cases :
      (path : Checkout) (full_name sha requirement_id : String) (course : Course Json)
      (rows : List (Row Json)) (adapter : RepoAdapter) (requirement : RequirementTest)
      → get_adapter setup.adapters full_name ≡ some adapter
      → get_requirement setup.requirements requirement_id ≡ some requirement
      → ((path ≡ directory (some sha))
          × (r : RunRecord) × (run_path_mode setup path full_name sha requirement_id false course
                rows
              ≡ returns r (course.others rows))
          × (r.repository.sha ≡ sha))
        ⊎ ((path ≢ directory (some sha))
            × (e : DriverError) × ((persist : Bool)
                → run_path_mode setup path full_name sha requirement_id persist course rows
                  ≡ raises e))
  unfolding run_path_mode run_pipeline path_target run_record
  run_path_mode_cases path full_name sha requirement_id course rows adapter requirement a q =
      elim (verify_checkout_cases path sha) [
        | inl (p, v) ↦ inl (
          p,
          run_record setup (path_target setup false full_name sha) adapter requirement course,
          rw (v, a, q, run_path_mode, run_pipeline) refl,
          refl,
        )
        | inr (n, err, v) ↦ inr (n, err, λ persist. rw (v, run_path_mode) refl)
      ]

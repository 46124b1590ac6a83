-- ===== src/Pipeline/Driver/Again.antt =====
-- A run is stored, and every later run with its key returns it.
use reguard.Prelude.{
  ℕ, String, true, some, List, ◌≡◌, refl, ◌≢◌, ◌⊎◌, inl, inr, arith, Option-cases,
}
use reguard.Verdict.Requirement.{RequirementTest, get_requirement}
use reguard.Pipeline.Types.{RunRecord, RepositoryTarget, RepoAdapter, get_adapter}
use reguard.Pipeline.Persistence.{
  IsFaithful, Row, DedupKey, record_key, Loaded, absent, corrupt, found, insert_run,
  load_run_by_dedup_key,
}
use reguard.Pipeline.Persistence.Keys.{DedupUnique}
use reguard.Pipeline.Persistence.Roundtrip.{
  without_image, rows_after-some, insert_run-refines, load-insert_run,
}
use reguard.Pipeline.Driver.{
  RepoRow, Setup, Course, Outcome, returns, lookup_repo, target_of, key_of, run_record,
  persist_record, run_pipeline, with_stored_run, cloned_run, prepared_run, run_one,
  run_with_prepared_checkout,
}

Loaded-cases : (l : Loaded) → (l ≡ absent) ⊎ (l ≡ corrupt) ⊎ ((r : RunRecord) × (l ≡ found r))
Loaded-cases absent = inl refl
Loaded-cases corrupt = inr (inl refl)
Loaded-cases (found r) = inr (inr (r, refl))

module _ {Json : Type 0} (setup : Setup Json) where
  -- The repository, its adapter and the requirement are known.
  pub record Known (full_name requirement_id : String) : Type 0 where
    pub repo_row : RepoRow
    pub in_db : lookup_repo setup.repositories full_name ≡ some repo_row
    pub adapter : RepoAdapter
    pub adapted : get_adapter setup.adapters full_name ≡ some adapter
    pub requirement : RequirementTest
    pub registered : get_requirement setup.requirements requirement_id ≡ some requirement

  abbrev pub known_key :
      {full_name requirement_id : String} → Known full_name requirement_id → String → DedupKey
  known_key {full_name} known sha =
      key_of setup (target_of setup known.repo_row full_name sha) known.adapter known.requirement

  -- A table that other writers keep well: its index holds and the key's row, if any, can be read.
  pub record IsSound (key : DedupKey) (rows : List (Row Json)) : Type 0 where
    pub unique : DedupUnique rows
    pub readable : load_run_by_dedup_key setup.json key rows ≢ corrupt

  -- The outcome is a record that the table then has under the key.
  abbrev pub Stored : DedupKey → Outcome Json → Type 0
  Stored key o =
      (r : RunRecord) × (rows : List (Row Json)) × (o ≡ returns r rows)
      × (load_run_by_dedup_key setup.json key rows ≡ found r)

  persist_record-Stored :
      (now : ℕ) (r : RunRecord) (rows : List (Row Json))
      → IsFaithful setup.json
      → IsSound (record_key r) rows
      → without_image r ≡ r
      → Stored (record_key r) (persist_record setup now r rows)
  unfolding persist_record
  persist_record-Stored now r rows h s w =
      elim (Loaded-cases (load_run_by_dedup_key setup.json (record_key r) rows)) [
        | inl a ↦ elim (Option-cases (insert_run setup.json now r rows)) [
          | inl e ↦ absurd (((insert_run-refines setup.json now r rows h s.unique).2).0 e a)
          | inr ((id, rows'), e) ↦ (
            r,
            rows',
            rw (e, persist_record) refl,
            ground (
              arith,
              load-insert_run setup.json now r rows h s.unique a,
              rows_after-some setup.json now r rows rows' id e,
            ),
          )
        ]
        | inr (inl c) ↦ absurd (s.readable c)
        | inr (inr (old, f)) ↦
            let e = ((insert_run-refines setup.json now r rows h s.unique).2).1 (ground arith) in
            (old, rows, rw (e, f, persist_record) refl, f)
      ]

  run_pipeline-known :
      {full_name requirement_id : String} (known : Known full_name requirement_id) (sha : String)
      (course : Course Json) (rows : List (Row Json))
      → run_pipeline setup true
          (target_of setup known.repo_row full_name sha)
          requirement_id
          course
          rows
        ≡ persist_record setup course.now
            (run_record setup
              (target_of setup known.repo_row full_name sha)
              known.adapter
              known.requirement
              course)
            rows
  unfolding run_pipeline
  run_pipeline-known known sha course rows = rw (known.adapted, known.registered, run_pipeline) refl

  run_pipeline-Stored :
      {full_name requirement_id : String} (known : Known full_name requirement_id) (sha : String)
      (course : Course Json) (rows : List (Row Json))
      → IsFaithful setup.json
      → IsSound (known_key known sha) rows
      → Stored (known_key known sha) (
          run_pipeline setup true
            (target_of setup known.repo_row full_name sha)
            requirement_id
            course
            rows)
  unfolding run_record record_key without_image
  run_pipeline-Stored {full_name} {requirement_id} known sha course rows h s =
      rw (run_pipeline-known known sha course rows) (
        persist_record-Stored course.now
          (run_record setup (target_of setup known.repo_row full_name sha) known.adapter
            known.requirement course)
          rows h s refl)

  with_stored_run-found :
      {full_name requirement_id : String} (known : Known full_name requirement_id) (sha : String)
      (run : RepositoryTarget → Outcome Json) (rows : List (Row Json)) (r : RunRecord)
      → load_run_by_dedup_key setup.json (known_key known sha) rows ≡ found r
      → with_stored_run setup full_name sha requirement_id run rows ≡ returns r rows
  unfolding with_stored_run
  with_stored_run-found known sha run rows r f =
      rw (known.in_db, known.adapted, known.registered, f, with_stored_run) refl

  with_stored_run-Stored :
      {full_name requirement_id : String} (known : Known full_name requirement_id) (sha : String)
      (run : RepositoryTarget → Outcome Json) (rows : List (Row Json))
      → IsSound (known_key known sha) rows
      → Stored (known_key known sha) (run (target_of setup known.repo_row full_name sha))
      → Stored (known_key known sha) (with_stored_run setup full_name sha requirement_id run rows)
  unfolding with_stored_run
  with_stored_run-Stored known sha run rows s t =
      elim (Loaded-cases (load_run_by_dedup_key setup.json (known_key known sha) rows)) [
        | inl a ↦ (
          t.0,
          t.1,
          rw (known.in_db, known.adapted, known.registered, a, with_stored_run) t.2,
          t.3,
        )
        | inr (inl c) ↦ absurd (s.readable c)
        | inr (inr (old, f)) ↦ (old, rows, with_stored_run-found known sha run rows old f, f)
      ]

  cloned_run-Stored :
      {full_name requirement_id : String} (known : Known full_name requirement_id) (sha : String)
      (course : Course Json) (rows : List (Row Json))
      → IsFaithful setup.json
      → IsSound (known_key known sha) (course.others rows)
      → course.clones ≡ true
      → Stored (known_key known sha) (
          cloned_run setup requirement_id course rows
            (target_of setup known.repo_row full_name sha))
  unfolding cloned_run
  cloned_run-Stored known sha course rows h o c =
      rw c (run_pipeline-Stored known sha course (course.others rows) h o)

  later_runs :
      {full_name requirement_id : String} (known : Known full_name requirement_id) (sha : String)
      (after : List (Row Json)) (r : RunRecord)
      → load_run_by_dedup_key setup.json (known_key known sha) after ≡ found r
      → (later : Course Json)
      → (run_one setup full_name sha requirement_id later after ≡ returns r after)
        × (run_with_prepared_checkout setup full_name sha requirement_id later after
            ≡ returns r after)
  unfolding run_one run_with_prepared_checkout
  later_runs {full_name} {requirement_id} known sha after r f later = (
    with_stored_run-found known sha (cloned_run setup requirement_id later after) after r f,
    with_stored_run-found known sha (prepared_run setup requirement_id later after) after r f,
  )

  -- For a known repository, adapter and requirement, a clone that succeeds, and a table whose index
  -- holds and whose row for the key (if any) can be read, before the run and after what others wrote
  -- during it: `run_one` returns a record, the table then has that record under the run's key, and
  -- every later run with that key returns it and leaves the table alone, whatever the probe, the clone
  -- and other writers would then do.
  pub run_one-stored :
      {full_name requirement_id : String} (known : Known full_name requirement_id) (sha : String)
      (course : Course Json) (rows : List (Row Json))
      → IsFaithful setup.json
      → IsSound (known_key known sha) rows
      → IsSound (known_key known sha) (course.others rows)
      → course.clones ≡ true
      → (r : RunRecord) × (after : List (Row Json)) × (run_one setup full_name sha requirement_id
            course rows
          ≡ returns r after)
        × (load_run_by_dedup_key setup.json (known_key known sha) after ≡ found r)
        × ((later : Course Json)
            → (run_one setup full_name sha requirement_id later after ≡ returns r after)
              × (run_with_prepared_checkout setup full_name sha requirement_id later after
                  ≡ returns r after))
  unfolding run_one
  run_one-stored {full_name} {requirement_id} known sha course rows h s o c =
      let (r, after, e, f) =
        with_stored_run-Stored known sha (cloned_run setup requirement_id course rows) rows s
          (cloned_run-Stored known sha course rows h o c) in
      (r, after, e, f, later_runs known sha after r f)

  -- The same of `run_with_prepared_checkout`, which clones nothing.
  run_with_prepared_checkout-stored :
      {full_name requirement_id : String} (known : Known full_name requirement_id) (sha : String)
      (course : Course Json) (rows : List (Row Json))
      → IsFaithful setup.json
      → IsSound (known_key known sha) rows
      → IsSound (known_key known sha) (course.others rows)
      → (r : RunRecord) × (after : List (Row Json)) × (run_with_prepared_checkout setup full_name
            sha requirement_id course rows
          ≡ returns r after)
        × (load_run_by_dedup_key setup.json (known_key known sha) after ≡ found r)
        × ((later : Course Json)
            → (run_one setup full_name sha requirement_id later after ≡ returns r after)
              × (run_with_prepared_checkout setup full_name sha requirement_id later after
                  ≡ returns r after))
  unfolding run_with_prepared_checkout
  run_with_prepared_checkout-stored {full_name} {requirement_id} known sha course rows h s o =
      let (r, after, e, f) =
        with_stored_run-Stored known sha (prepared_run setup requirement_id course rows) rows s
          (run_pipeline-Stored known sha course (course.others rows) h o) in
      (r, after, e, f, later_runs known sha after r f)

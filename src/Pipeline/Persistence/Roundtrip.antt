-- ===== src/Pipeline/Persistence/Roundtrip.antt =====
-- A run that is inserted is the run that is loaded: the table as a map that the first writer fills.
use reguard.Prelude.{
  ℕ, none, some, List, [], ◌∷◌, ◌++◌, ◌≡◌, ap, refl, ◌≢◌, ◌↔◌, ◌⊎◌, inl, inr, arith, any, find,
  find-append, find-holds, any-find_iff, suc, length, Bool-cases, Option-cases, if◌then◌else◌,
}
use reguard.Verdict.Types.{RunStatus, pass, fail, unknown, unsupported, error}
use reguard.Pipeline.Types.{RunRecord, status_value, parse_status}
use reguard.Pipeline.Persistence.{
  JsonModule, IsFaithful, Row, DedupKey, same_key, record_key, row_key, Loaded, absent, corrupt,
  found, new_row, insert_run, row_to_record, load_run_by_dedup_key,
}
use reguard.Pipeline.Persistence.Keys.{
  same_key_iff, has_key, DedupUnique, newest-keep, append-DedupUnique,
}

parse_status-status_value : (s : RunStatus) → parse_status (status_value s) ≡ some s
unfolding parse_status status_value
parse_status-status_value pass = refl
parse_status-status_value fail = refl
parse_status-status_value unknown = refl
parse_status-status_value unsupported = refl
parse_status-status_value error = refl

-- A record as the table keeps it: it has no column for the runtime image.
unfoldable pub without_image : RunRecord → RunRecord
without_image r = record {
  repository = r.repository;
  requirement_id = r.requirement_id;
  requirement_version = r.requirement_version;
  runtime_version = r.runtime_version;
  adapter_name = r.adapter_name;
  adapter_version = r.adapter_version;
  scenario_id = r.scenario_id;
  status = r.status;
  reason = r.reason;
  result = r.result;
  evidence = r.evidence;
  started_at = r.started_at;
  completed_at = r.completed_at;
  duration_seconds = r.duration_seconds;
  runtime_image_reference = "";
  runtime_image_digest = "";
}

module _ {Json : Type 0} (json : JsonModule Json) where
  -- The rows after an attempt to insert: a refused insert leaves them.
  unfoldable pub rows_after : ℕ → RunRecord → List (Row Json) → List (Row Json)
  rows_after now r rows = elim (insert_run json now r rows) [
    | none ↦ rows
    | some (id, rows') ↦ rows'
  ]

  -- The first record of a key is kept; a later one changes nothing.
  unfoldable pub first_writer_wins : RunRecord → (DedupKey → Loaded) → DedupKey → Loaded
  first_writer_wins r runs key = elim (runs key) [
    | absent ↦ if same_key key (record_key r) then found (without_image r) else absent
    | corrupt ↦ corrupt
    | found old ↦ found old
  ]

  row_to_record-new_row :
      (r : RunRecord) (id now : ℕ)
      → IsFaithful json
      → row_to_record json (new_row json r id now) ≡ found (without_image r)
  unfolding row_to_record new_row without_image
  row_to_record-new_row r id now h =
      ground (
        arith,
        h.evidence_lem r.evidence,
        h.result_lem r.result,
        parse_status-status_value r.status,
      )

  -- What the key finds, with at most one row to a key.
  pub load_lem :
      (key : DedupKey) (rows : List (Row Json))
      → DedupUnique rows
      → load_run_by_dedup_key json key rows
        ≡ elim (find (has_key key) rows) [ none ↦ absent | some row ↦ row_to_record json row ]
  unfolding load_run_by_dedup_key
  load_lem key rows u = rw (newest-keep key rows u, load_run_by_dedup_key) refl

  row_to_record-not_absent : (row : Row Json) → row_to_record json row ≢ absent
  unfolding row_to_record
  row_to_record-not_absent row = ground arith

  key_of_new : (r : RunRecord) (id now : ℕ) → row_key (new_row json r id now) ≡ record_key r
  unfolding row_key new_row record_key
  key_of_new r id now = refl

  pub insert_run_cases :
      (now : ℕ) (r : RunRecord) (rows : List (Row Json))
      → DedupUnique rows
      → ((insert_run json now r rows ≡ none)
          × ((row : Row Json) × (find (has_key (record_key r)) rows ≡ some row)))
        ⊎ ((insert_run json now r rows
              ≡ some (suc (length rows), rows ++ (new_row json r (suc (length rows)) now ∷ [])))
            × (find (has_key (record_key r)) rows ≡ none)
            × DedupUnique (rows ++ (new_row json r (suc (length rows)) now ∷ [])))
  unfolding insert_run
  insert_run_cases now r rows u = elim (Bool-cases (any (has_key (record_key r)) rows)) [
    | inl e ↦ elim (Option-cases (find (has_key (record_key r)) rows)) [
      | inl n ↦ ground (arith, any-find_iff (has_key (record_key r)) rows)
      | inr row ↦ inl (rw e refl, row)
    ]
    | inr e ↦ inr (
      rw e refl,
      (any-find_iff (has_key (record_key r)) rows).0 e,
      append-DedupUnique rows _ u (rw (key_of_new r (suc (length rows)) now) e),
    )
  ]

  found_key :
      (k : DedupKey) (rows : List (Row Json)) (row : Row Json)
      → find (has_key k) rows ≡ some row
      → k ≡ row_key row
  found_key k rows row f = (same_key_iff k (row_key row)).0 (find-holds (has_key k) rows row f)

  -- A refused insert is the map's: the key is taken.
  taken :
      (r : RunRecord) (rows : List (Row Json)) (row : Row Json) (key : DedupKey)
      → DedupUnique rows
      → find (has_key (record_key r)) rows ≡ some row
      → load_run_by_dedup_key json key rows
        ≡ first_writer_wins r (λ k. load_run_by_dedup_key json k rows) key
  unfolding first_writer_wins
  taken r rows row key u f =
      ground
        (arith, load_lem key rows u, same_key_iff key (record_key r), row_to_record-not_absent row)

  added :
      (now id : ℕ) (r : RunRecord) (rows : List (Row Json)) (key : DedupKey)
      → IsFaithful json
      → DedupUnique rows
      → DedupUnique (rows ++ (new_row json r id now ∷ []))
      → find (has_key (record_key r)) rows ≡ none
      → load_run_by_dedup_key json key (rows ++ (new_row json r id now ∷ []))
        ≡ first_writer_wins r (λ k. load_run_by_dedup_key json k rows) key
  unfolding first_writer_wins
  added now id r rows key h u v f = elim (Option-cases (find (has_key key) rows)) [
    | inl n ↦ ground (
      arith,
      load_lem key rows u,
      load_lem key (rows ++ (new_row json r id now ∷ [])) v,
      find-append (has_key key) rows (new_row json r id now ∷ []),
      ap (same_key key) (key_of_new r id now),
      row_to_record-new_row r id now h,
    )
    | inr (row, e) ↦ ground (
      arith,
      load_lem key rows u,
      load_lem key (rows ++ (new_row json r id now ∷ [])) v,
      find-append (has_key key) rows (new_row json r id now ∷ []),
      row_to_record-not_absent row,
    )
  ]

  rows_after-none :
      (now : ℕ) (r : RunRecord) (rows : List (Row Json))
      → insert_run json now r rows ≡ none
      → rows_after now r rows ≡ rows
  unfolding rows_after
  rows_after-none now r rows e = rw (e, rows_after) refl

  pub rows_after-some :
      (now : ℕ) (r : RunRecord) (rows rows' : List (Row Json)) (id : ℕ)
      → insert_run json now r rows ≡ some (id, rows')
      → rows_after now r rows ≡ rows'
  unfolding rows_after
  rows_after-some now r rows rows' id e = rw (e, rows_after) refl

  -- Inserting refines a map from keys to records in which the first record of a key is kept: the
  -- index holds again, every query answers as that map does, and the insert is refused exactly
  -- when the key is taken.
  pub insert_run-refines :
      (now : ℕ) (r : RunRecord) (rows : List (Row Json))
      → IsFaithful json
      → DedupUnique rows
      → DedupUnique (rows_after now r rows)
        × ((key : DedupKey)
            → load_run_by_dedup_key json key (rows_after now r rows)
              ≡ first_writer_wins r (λ k. load_run_by_dedup_key json k rows) key)
        × ((insert_run json now r rows ≡ none)
            ↔ (load_run_by_dedup_key json (record_key r) rows ≢ absent))
  insert_run-refines now r rows h u = elim (insert_run_cases now r rows u) [
    | inl (e, (row, f)) ↦
        let key = load_lem (record_key r) rows u in
        (
          rw (rows_after-none now r rows e) u,
          λ k. rw (rows_after-none now r rows e) (taken r rows row k u f),
          (λ x. ground (arith, key, row_to_record-not_absent row), λ x. e),
        )
    | inr (e, f, v) ↦
        let key = load_lem (record_key r) rows u in
        (
          rw (rows_after-some now r rows _ _ e) v,
          λ k.
              rw (rows_after-some now r rows _ _ e)
                (added now (suc (length rows)) r rows k h u v f),
          ((λ x. ground arith), λ x. ground (arith, key)),
        )
  ]

  -- A run whose key is free is inserted, and is then what its key loads, less the runtime image;
  -- a run whose key is taken is refused.
  pub load-insert_run :
      (now : ℕ) (r : RunRecord) (rows : List (Row Json))
      → IsFaithful json
      → DedupUnique rows
      → load_run_by_dedup_key json (record_key r) rows ≡ absent
      → load_run_by_dedup_key json (record_key r) (rows_after now r rows) ≡ found (without_image r)
  unfolding first_writer_wins
  load-insert_run now r rows h u e = ground (
    arith,
    (insert_run-refines now r rows h u).1 (record_key r),
    same_key_iff (record_key r) (record_key r),
  )

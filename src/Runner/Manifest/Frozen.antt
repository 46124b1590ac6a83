-- ===== src/Runner/Manifest/Frozen.antt =====
-- What the manifest of a new run holds.
use reguard.Prelude.{
  ℕ, suc, ==_iff, ◌≤◌, ◌<◌, String, true, false, none, some, List, [], ◌∷◌, ◌++◌, ◌⊎◌, inl, inr,
  ◌≡◌, refl, sym, ap, ◌∙◌, ◌≢◌, arith, any, any-append, find, find-append, ◌==◌, All, Option-cases,
  Bool-cases, str_eq, eq_iff,
}
use mathlib.Core.List.{append-nil, append_assoc}
use mathlib.Core.Path.{subst}
use reguard.Runner.Tables.{run_pending, CorpusRun, ManifestRow, Db}
use reguard.Runner.Persistence.{load_corpus_run, update_corpus_run_status, on_run}
use reguard.Runner.Totals.Sums.{load_corpus_run-on_run}
use reguard.Runner.Build.{has_no_sha}
use reguard.Runner.Manifest.{
  ShaText, LsRemote, ShaResolution, EligibleRow, CorpusRunConfig, first_sha, ls_remote_sha,
  resolution_of, resolve_remote_sha, pinned_sha, resolution, sha_or_empty, manifest_row, is_entry,
  insert_corpus_run_repository, freeze, last_run_id, insert_corpus_run, create_corpus_run,
}

-- A row either has a commit that the pattern matches, or no commit and the class of a failure; the
-- building of jobs tells the two apart.
abbrev pub IsFrozen : ShaText → ManifestRow → Type 0
IsFrozen re m =
    ((has_no_sha m ≡ false) × (re.matches m.resolved_sha ≡ true))
    ⊎ ((has_no_sha m ≡ true)
        × (m.resolved_sha ≡ "")
        × (m.sha_resolution_class ≡ some "sha_resolution_error"))

-- The rows that the loop inserts
unfoldable pub frozen_rows :
    ShaText → (String → LsRemote) → CorpusRunConfig → ℕ → ℕ → List EligibleRow → List ManifestRow
unfolding manifest_row
frozen_rows re git cfg rid position [] = []
frozen_rows re git cfg rid position (row ∷ rows) =
    manifest_row re git cfg rid position row ∷ frozen_rows re git cfg rid (suc position) rows

abbrev pub Distinct : List EligibleRow → Type 0
Distinct [] = Unit
Distinct (r ∷ rs) = All (λ s. r.id ≢ s.id) rs × Distinct rs

last_run_id-end :
    (rs : List CorpusRun) (r : CorpusRun)
    → last_run_id rs ≤ r.id
    → last_run_id (rs ++ (r ∷ [])) ≡ r.id
unfolding last_run_id
last_run_id-end [] r h = omega arith
last_run_id-end (x ∷ rs) r h = omega (arith, last_run_id-end rs r)

last_run_id-append :
    (rs : List CorpusRun) (r : CorpusRun)
    → r.id ≡ suc (last_run_id rs)
    → last_run_id (rs ++ (r ∷ [])) ≡ r.id
last_run_id-append rs r e = last_run_id-end rs r (omega (arith, e))

-- From a position on, the rows are those of the repositories, in their order.
abbrev pub Lists : ShaText → ℕ → ℕ → List EligibleRow → List ManifestRow → Type 0
Lists re rid position [] [] = Unit
Lists re rid position [] (m ∷ ms) = ⊥
Lists re rid position (row ∷ rows) [] = ⊥
Lists re rid position (row ∷ rows) (m ∷ ms) =
    (m.corpus_run_id ≡ rid)
    × (m.repository_id ≡ row.id)
    × (m.full_name ≡ row.full_name)
    × (m.clone_url ≡ row.clone_url)
    × (m.position ≡ position)
    × IsFrozen re m
    × Lists re rid (suc position) rows ms

module _ (re : ShaText) (git : String → LsRemote) (cfg : CorpusRunConfig) where
  first_sha-matches :
      (lines : List String) (sha : String) → first_sha re lines ≡ some sha → re.matches sha ≡ true
  unfolding first_sha
  first_sha-matches [] sha h = absurd (ground arith)
  first_sha-matches (line ∷ rest) sha h = elim (Option-cases (re.before_tab line)) [
    | inl n ↦ first_sha-matches rest sha (ground arith)
    | inr (x, e) ↦ elim (Bool-cases (re.matches x)) [
      | inl m ↦ ground arith
      | inr m ↦ first_sha-matches rest sha (ground arith)
    ]
  ]

  -- Either a matching commit under a class of success, or none.
  abbrev Sound : ShaResolution → Type 0
  Sound res =
      ((sha : String) × (res.sha ≡ some sha)
        × (re.matches sha ≡ true)
        × ((res.classification ≡ "ok") ⊎ (res.classification ≡ "pinned")))
      ⊎ ((res.sha ≡ none) × (res.classification ≡ "sha_resolution_error"))

  ls_remote_sha-Sound :
      (answer : LsRemote) (url : String) → Sound (resolution_of (ls_remote_sha re answer) url)
  unfolding ls_remote_sha resolution_of
  ls_remote_sha-Sound (LsRemote.timed_out m) url = inr (refl, refl)
  ls_remote_sha-Sound (LsRemote.os_error m) url = inr (refl, refl)
  ls_remote_sha-Sound (LsRemote.exited m) url = inr (refl, refl)
  ls_remote_sha-Sound (LsRemote.printed o) url = elim (Option-cases (first_sha re (re.lines o))) [
    | inl n ↦ rw (n, ls_remote_sha) (inr (refl, refl))
    | inr (sha, e) ↦
        rw (e, ls_remote_sha) (inl (sha, refl, first_sha-matches (re.lines o) sha e, inl refl))
  ]

  resolution-Sound : (row : EligibleRow) → Sound (resolution re git cfg row)
  unfolding resolution pinned_sha resolve_remote_sha
  resolution-Sound row =
      elim (Option-cases
        (find (λ (p : String × String). str_eq p.0 row.full_name) cfg.pinned_shas)) [
          | inl n ↦ rw (n, resolution) (ls_remote_sha-Sound (git row.clone_url) row.clone_url)
          | inr (p, e) ↦ elim (Bool-cases (re.matches p.1)) [
            | inl m ↦ rw (e, resolution) (rw m (inl (p.1, refl, m, inr refl)))
            | inr m ↦ rw (e, resolution) (rw m (inr (refl, refl)))
          ]
        ]

  manifest_row-IsFrozen :
      (rid position : ℕ) (row : EligibleRow)
      → re.matches "" ≡ false
      → IsFrozen re (manifest_row re git cfg rid position row)
  unfolding manifest_row sha_or_empty has_no_sha
  manifest_row-IsFrozen rid position row n = elim (resolution-Sound row) [
    | inl (sha, e, m, c) ↦ inl (
      ground (
        arith,
        eq_iff sha "",
        eq_iff (resolution re git cfg row).classification "ok",
        eq_iff (resolution re git cfg row).classification "pinned",
      ),
      rw (e, sha_or_empty) m,
    )
    | inr (e, c) ↦
        inr (rw (e, sha_or_empty) refl, rw (e, sha_or_empty) refl, ap (λ (x : String). some x) c)
  ]

  -- No row of the run names one of these repositories yet.
  abbrev Unlisted : ℕ → List ManifestRow → List EligibleRow → Type 0
  Unlisted rid ms rows = All (λ (r : EligibleRow). any (is_entry rid r.id) ms ≡ false) rows

  append-Unlisted :
      (rid position : ℕ) (row : EligibleRow) (ms : List ManifestRow) (rows : List EligibleRow)
      → Unlisted rid ms rows
      → All (λ (s : EligibleRow). row.id ≢ s.id) rows
      → Unlisted rid (ms ++ (manifest_row re git cfg rid position row ∷ [])) rows
  unfolding manifest_row
  append-Unlisted rid position row ms [] u d = tt
  append-Unlisted rid position row ms (s ∷ rows) u d = (
    ground (
      arith,
      any-append (is_entry rid s.id) ms (manifest_row re git cfg rid position row ∷ []),
      ==_iff row.id s.id,
    ),
    append-Unlisted rid position row ms rows u.1 d.1,
  )

  insert_fresh :
      (rid position : ℕ) (row : EligibleRow) (db : Db)
      → any (is_entry rid row.id) db.manifest ≡ false
      → insert_corpus_run_repository (manifest_row re git cfg rid position row) db
        ≡ some (record db {
          manifest = db.manifest ++ (manifest_row re git cfg rid position row ∷ []);
        })
  unfolding insert_corpus_run_repository manifest_row
  insert_fresh rid position row db e = rw e refl

  freeze-frozen_rows :
      (rid position : ℕ) (rows : List EligibleRow) (db : Db)
      → Distinct rows
      → Unlisted rid db.manifest rows
      → freeze re git cfg rid position rows db
        ≡ some (record db { manifest = db.manifest ++ frozen_rows re git cfg rid position rows })
  unfolding freeze frozen_rows
  freeze-frozen_rows rid position [] db d u =
      ap (λ (ms : List ManifestRow). some (record db { manifest = ms }))
        (sym (append-nil db.manifest))
  freeze-frozen_rows rid position (row ∷ rows) db d u =
      let m = manifest_row re git cfg rid position row in
      let after : Db = record db { manifest = db.manifest ++ (m ∷ []) } in
      rw (insert_fresh rid position row db u.0, freeze)
        (freeze-frozen_rows rid (suc position) rows after d.1
            (append-Unlisted rid position row db.manifest rows u.1 d.0)
          ∙ ap (λ (ms : List ManifestRow). some (record db { manifest = ms }))
              (append_assoc db.manifest (m ∷ []) (frozen_rows re git cfg rid (suc position) rows)))

  none_listed :
      (rid id : ℕ) (ms : List ManifestRow)
      → All (λ m. m.corpus_run_id < rid) ms
      → any (is_entry rid id) ms ≡ false
  none_listed rid id [] h = refl
  none_listed rid id (m ∷ ms) h =
      ground (arith, none_listed rid id ms h.1, ==_iff m.corpus_run_id rid)

  new_run-Unlisted :
      (rid : ℕ) (ms : List ManifestRow) (rows : List EligibleRow)
      → All (λ m. m.corpus_run_id < rid) ms
      → Unlisted rid ms rows
  new_run-Unlisted rid ms [] h = tt
  new_run-Unlisted rid ms (r ∷ rows) h = (none_listed rid r.id ms h, new_run-Unlisted rid ms rows h)

  frozen_rows-Lists :
      (rid position : ℕ) (rows : List EligibleRow)
      → re.matches "" ≡ false
      → Lists re rid position rows (frozen_rows re git cfg rid position rows)
  unfolding frozen_rows manifest_row
  frozen_rows-Lists rid position [] n = tt
  frozen_rows-Lists rid position (row ∷ rows) n = (
    refl,
    refl,
    refl,
    refl,
    refl,
    manifest_row-IsFrozen rid position row n,
    frozen_rows-Lists rid (suc position) rows n,
  )

  none_above :
      (id : ℕ) (rs : List CorpusRun)
      → last_run_id rs < id
      → find (λ (r : CorpusRun). r.id == id) rs ≡ none
  unfolding last_run_id
  none_above id [] h = refl
  none_above id (r ∷ rs) h = ground (arith, none_above id rs, ==_iff r.id id)

  found_run :
      (rs : List CorpusRun) (r : CorpusRun) (id : ℕ)
      → r.id ≡ suc (last_run_id rs)
      → id ≡ suc (last_run_id rs)
      → find (λ (s : CorpusRun). s.id == id) (rs ++ (r ∷ [])) ≡ some r
  found_run rs r id h e =
      find-append (λ (s : CorpusRun). s.id == id) rs (r ∷ [])
      ∙ rw (none_above id rs (omega (arith, e)), (==_iff r.id id).1 (h ∙ sym e)) refl

  pending_run :
      (id : ℕ) (db : Db) (r : CorpusRun)
      → load_corpus_run id db ≡ some r
      → (run : CorpusRun) × (load_corpus_run id
            (update_corpus_run_status id run_pending none none (some 0) db)
          ≡ some run)
        × (run.status ≡ run_pending)
  unfolding update_corpus_run_status
  pending_run id db r e = (_, load_corpus_run-on_run id _ db r (λ a. refl) e, refl)

  -- If the pattern of a commit does not match the empty text, creating a run for distinct repositories,
  -- in a database whose manifest rows belong to its runs, succeeds under a new id, which the table of
  -- runs then has, as pending. The manifest keeps its rows and gains exactly one row of this run for
  -- each repository, in their order and numbered from zero, with its name and its URL, and with either a
  -- commit that the pattern matches or the class of a failure and no commit (the building of jobs tells
  -- these apart).
  pub create_corpus_run-IsFrozen :
      (rows : List EligibleRow) (db : Db)
      → re.matches "" ≡ false
      → Distinct rows
      → All (λ m. m.corpus_run_id < suc (last_run_id db.runs)) db.manifest
      → (rid : ℕ) × (after : Db) × (added : List ManifestRow) × (create_corpus_run re git cfg rows
            db
          ≡ some (rid, after))
        × (last_run_id db.runs < rid)
        × ((run : CorpusRun) × (load_corpus_run rid after ≡ some run) × (run.status ≡ run_pending))
        × (after.manifest ≡ db.manifest ++ added)
        × Lists re rid 0 rows added
  unfolding create_corpus_run insert_corpus_run update_corpus_run_status on_run load_corpus_run
  create_corpus_run-IsFrozen rows db n d below =
      let rid = last_run_id (insert_corpus_run cfg db).runs in
      let fresh : rid ≡ suc (last_run_id db.runs) = last_run_id-append db.runs _ refl in
      let frozen : Db = record (insert_corpus_run cfg db) {
        manifest = db.manifest ++ frozen_rows re git cfg rid 0 rows;
      } in
      let unlisted =
        subst (λ r. Unlisted r db.manifest rows) (sym fresh)
          (new_run-Unlisted (suc (last_run_id db.runs)) db.manifest rows below) in
      let done = freeze-frozen_rows rid 0 rows (insert_corpus_run cfg db) d unlisted in
      (
        rid,
        update_corpus_run_status rid run_pending none none (some 0) frozen,
        frozen_rows re git cfg rid 0 rows,
        rw (done, create_corpus_run) refl,
        omega (arith, fresh),
        pending_run rid frozen _ (found_run db.runs _ rid refl fresh),
        refl,
        frozen_rows-Lists rid 0 rows n,
      )

-- ===== src/Runner/Build/Again.antt =====
-- What one call of `build_jobs_for_run` leaves, and what a second call does.
use reguard.Prelude.{
  ℕ, suc, ◌+◌, ◌==◌, String, none, some, List, [], ◌∷◌, ◌≡◌, refl, ap, ◌∙◌, ◌↔◌, arith, All,
  All-map, keep, length,
}
use mathlib.Core.Path.{subst}
use reguard.Runner.Tables.{run_pending, CorpusRun, ManifestRow, JobKey, Db}
use reguard.Runner.Persistence.{update_corpus_run_status, load_corpus_run}
use reguard.Runner.Build.{
  Adapter, row_key, add_row, add_rows, insert_by_position, order_by_position, manifest_of,
  build_jobs_for_run,
}
use reguard.Runner.Build.Total.{HasJob, Keeps, Keeps-trans, on_run-Keeps, AllHaveJobs, add_rows-all}

length-insert_by_position :
    (m : ManifestRow) (ms : List ManifestRow) → length (insert_by_position m ms) ≡ suc (length ms)
unfolding insert_by_position
length-insert_by_position m [] = refl
length-insert_by_position m (n ∷ ns) = ground (arith, length-insert_by_position m ns)

length-order_by_position : (ms : List ManifestRow) → length (order_by_position ms) ≡ length ms
unfolding order_by_position
length-order_by_position [] = refl
length-order_by_position (m ∷ ms) =
    length-insert_by_position m (order_by_position ms) ∙ ap suc (length-order_by_position ms)

All-insert_by_position :
    (P : ManifestRow → Type 0) (m : ManifestRow) (ms : List ManifestRow)
    → All P (insert_by_position m ms) ↔ All P (m ∷ ms)
unfolding insert_by_position
All-insert_by_position P m [] = (λ h. h, λ h. h)
All-insert_by_position P m (n ∷ ns) = ground (arith, All-insert_by_position P m ns)

-- The sorting loses no row and adds none.
All-order_by_position :
    (P : ManifestRow → Type 0) (ms : List ManifestRow) → All P (order_by_position ms) ↔ All P ms
unfolding order_by_position
All-order_by_position P [] = (λ h. h, λ h. h)
All-order_by_position P (m ∷ ms) =
    let (out, back) = All-insert_by_position P m (order_by_position ms) in
    let (out', back') = All-order_by_position P ms in
    (λ h. ((out h).0, out' (out h).1), λ h. back (h.0, back' h.1))

add_row-there :
    (registry : List (String × Adapter)) (key : JobKey) (m : ManifestRow) (now : ℕ) (db : Db)
    → HasJob key db
    → add_row registry key m now db ≡ some db
unfolding add_row
add_row-there registry key m now db (j, e) = rw (e, add_row) (ground arith)

add_rows-there :
    (registry : List (String × Adapter)) (run : ℕ) (r : CorpusRun) (scenario : String) (now : ℕ)
    (ms : List ManifestRow) (created : ℕ) (db : Db)
    → AllHaveJobs run r scenario ms db
    → add_rows registry run r scenario now ms created db ≡ some (created + length ms, db)
unfolding add_rows
add_rows-there registry run r scenario now [] created db h = ap (λ n. some (n, db)) (omega arith)
add_rows-there registry run r scenario now (m ∷ ms) created db (there, rest) =
    rw (add_row-there registry (row_key run r scenario m) m now db there, add_rows)
      (add_rows-there registry run r scenario now ms (suc created) db rest
        ∙ ap (λ n. some (n, db)) (omega arith))

abbrev pub closing : ℕ → ℕ → ℕ → Db → Db
closing run now n = update_corpus_run_status run run_pending (some now) none (some n)

closing-Keeps : (run now n : ℕ) (db : Db) → Keeps db (closing run now n db)
unfolding update_corpus_run_status
closing-Keeps run now n db = on_run-Keeps run _ db (λ r. refl) (λ r. refl) (λ r. refl)

builds :
    (registry : List (String × Adapter)) (run : ℕ) (scenario : String) (now : ℕ) (db : Db)
    (r : CorpusRun)
    → load_corpus_run run db ≡ some r
    → let rows = keep (λ m. m.corpus_run_id == run) db.manifest in
      (db' : Db) × (build_jobs_for_run registry run scenario now db ≡ some (length rows, db'))
      × AllHaveJobs run r scenario rows db'
      × Keeps db db'
unfolding build_jobs_for_run manifest_of
builds registry run scenario now db r found =
    let rows = keep (λ m. m.corpus_run_id == run) db.manifest in
    let (db', e, there, kept) =
      add_rows-all registry run r scenario now (order_by_position rows) 0 db in
    let n : 0 + length (order_by_position rows) ≡ length rows =
      omega (arith, length-order_by_position rows) in
    let closed = closing-Keeps run now (length rows) db' in
    (
      closing run now (length rows) db',
      rw (found, build_jobs_for_run, manifest_of, e) (ap (λ k. some (k, closing run now k db')) n),
      All-map _ _ rows (λ m h. closed.jobs_stay (row_key run r scenario m) h)
          ((All-order_by_position _ rows).0 there),
      Keeps-trans kept closed,
    )

-- `build_jobs_for_run` on an existing run always returns: the unique index refuses no row. It
-- returns the number of the run's manifest rows, leaves the manifest as it is, and afterwards each of
-- these rows has a job under the run's requirement and the scenario.
pub build_jobs_for_run-total :
    (registry : List (String × Adapter)) (run : ℕ) (scenario : String) (now : ℕ) (db : Db)
    (r : CorpusRun)
    → load_corpus_run run db ≡ some r
    → let rows = keep (λ m. m.corpus_run_id == run) db.manifest in
      (db' : Db) × (build_jobs_for_run registry run scenario now db ≡ some (length rows, db'))
      × AllHaveJobs run r scenario rows db'
      × (db'.manifest ≡ db.manifest)
build_jobs_for_run-total registry run scenario now db r found =
    let (db', e, there, kept) = builds registry run scenario now db r found in
    (db', e, there, kept.manifest_stays)

-- Once all rows of a manifest have their jobs, a call only closes.
abbrev ClosesOnly :
    List (String × Adapter) → ℕ → String → ℕ → Db → CorpusRun → List ManifestRow → Type 0
ClosesOnly registry run scenario now db r ms =
    AllHaveJobs run r scenario (keep (λ m. m.corpus_run_id == run) ms) db
    → let n = length (keep (λ m. m.corpus_run_id == run) ms) in
      build_jobs_for_run registry run scenario now db ≡ some (n, closing run now n db)

builds_again :
    (registry : List (String × Adapter)) (run : ℕ) (scenario : String) (now : ℕ) (db : Db)
    (r : CorpusRun)
    → load_corpus_run run db ≡ some r
    → ClosesOnly registry run scenario now db r db.manifest
unfolding build_jobs_for_run manifest_of
builds_again registry run scenario now db r found there =
    let rows = keep (λ m. m.corpus_run_id == run) db.manifest in
    let e =
      add_rows-there registry run r scenario now (order_by_position rows) 0 db
        ((All-order_by_position _ rows).1 there) in
    let n : 0 + length (order_by_position rows) ≡ length rows =
      omega (arith, length-order_by_position rows) in
    rw (found, build_jobs_for_run, manifest_of, e) (ap (λ k. some (k, closing run now k db)) n)

row_key-same :
    (run : ℕ) (r r' : CorpusRun) (scenario : String) (m : ManifestRow)
    → r'.requirement_id ≡ r.requirement_id
    → r'.requirement_version ≡ r.requirement_version
    → row_key run r scenario m ≡ row_key run r' scenario m
unfolding row_key
row_key-same run r r' scenario m name version = rw (name, version) refl

-- A second call on what the first one left, at any later time and whatever the adapter registry is by
-- then, returns the same number and writes no job and no counter: all that changes is the run's
-- status, its start time and its total, which is that number again.
pub build_jobs_for_run-again :
    (registry registry' : List (String × Adapter)) (run : ℕ) (scenario : String) (now now' : ℕ)
    (db : Db) (r : CorpusRun)
    → load_corpus_run run db ≡ some r
    → (n : ℕ) × (db' : Db) × (build_jobs_for_run registry run scenario now db ≡ some (n, db'))
      × (build_jobs_for_run registry' run scenario now' db' ≡ some (n, closing run now' n db'))
unfolding build_jobs_for_run manifest_of
build_jobs_for_run-again registry registry' run scenario now now' db r found =
    let rows = keep (λ m. m.corpus_run_id == run) db.manifest in
    let (db', e, there, kept) = builds registry run scenario now db r found in
    let (r', found', name, version) =
      kept.runs_stay run r.requirement_id r.requirement_version (r, found, refl, refl) in
    (
      length rows,
      db',
      e,
      subst (ClosesOnly registry' run scenario now' db' r') kept.manifest_stays
          (builds_again registry' run scenario now' db' r' found')
          (All-map _ _ rows
            (λ m. subst (λ k. HasJob k db') (row_key-same run r r' scenario m name version)) there),
    )

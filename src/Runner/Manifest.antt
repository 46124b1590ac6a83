-- ===== src/Runner/Manifest.antt =====
-- src/compliance/corpus_runner/sha_resolver.py, and `create_corpus_run` of executor.py with the two
-- inserts of persistence.py.
--
-- The module re, Python's operations on texts and `git ls-remote` are parameters: which texts
-- `_SHA_RE` matches, how an output is split, and what the process answers. No other connection inserts
-- a run between the insert and the query for the last id. Messages, which nothing reads, are shortened.
pub mod Frozen
use reguard.Prelude.{
  ℕ, zero, suc, ◌+◌, ◌==◌, max, String, Bool, true, false, ◌&&◌, Option, none, some, List, [], ◌∷◌,
  ◌++◌, ◌⊎◌, inl, inr, any, find, str_eq, if◌then◌else◌,
}
use reguard.Runner.Tables.{CorpusRun, RunState, run_pending, ManifestRow, Db}
use reguard.Runner.Persistence.{update_corpus_run_status}

-- `_SHA_RE.match`; `splitlines`, and `line.strip()` cut before its tab and stripped.
pub record ShaText : Type 0 where
  pub matches : String → Bool
  pub lines : String → List String
  pub before_tab : String → Option String

-- What `git ls-remote` answers: a timeout, an OS error, a non-zero exit, each with its message, or its
-- output.
pub data LsRemote : Type 0 where
  timed_out : String → LsRemote
  os_error : String → LsRemote
  exited : String → LsRemote
  printed : String → LsRemote

pub record ShaResolution : Type 0 where
  pub sha : Option String
  pub classification : String
  pub message : String

unfoldable pub first_sha : ShaText → List String → Option String
first_sha re [] = none
first_sha re (line ∷ rest) = elim (re.before_tab line) [
  | none ↦ first_sha re rest
  | some sha ↦ if re.matches sha then some sha else first_sha re rest
]

-- `_ls_remote_sha`: the message of the `ShaResolutionError`, or the commit.
unfoldable pub ls_remote_sha : ShaText → LsRemote → String ⊎ String
unfolding first_sha
ls_remote_sha re (timed_out message) = inl message
ls_remote_sha re (os_error message) = inl message
ls_remote_sha re (exited message) = inl message
ls_remote_sha re (printed output) = elim (first_sha re (re.lines output)) [
  | none ↦ inl "git ls-remote returned no 40-char SHA line"
  | some sha ↦ inr sha
]

abbrev pub unresolved_sha : String → ShaResolution
unresolved_sha message = record {
  sha = none;
  classification = "sha_resolution_error";
  message = message;
}

unfoldable pub resolution_of : String ⊎ String → String → ShaResolution
resolution_of (inl message) clone_url = unresolved_sha message
resolution_of (inr sha) clone_url = record {
  sha = some sha;
  classification = "ok";
  message = clone_url;
}

-- `git` tells what the remote at a URL answers.
unfoldable pub resolve_remote_sha : ShaText → (String → LsRemote) → String → ShaResolution
unfolding ls_remote_sha resolution_of
resolve_remote_sha re git clone_url = resolution_of (ls_remote_sha re (git clone_url)) clone_url

-- A row of the eligible repositories
pub record EligibleRow : Type 0 where
  pub id : ℕ
  pub full_name : String
  pub clone_url : String

pub record CorpusRunConfig : Type 0 where
  pub requirement_id : String
  pub requirement_version : String
  pub scenario_id : String
  pub max_workers : ℕ
  pub max_attempts : ℕ
  pub pinned_shas : List (String × String)

unfoldable pub pinned_sha : ShaText → String → ShaResolution
pinned_sha re sha =
    if re.matches sha
    then record {
      sha = some sha;
      classification = "pinned";
      message = "supplied via cfg.pinned_shas";
    }
    else unresolved_sha sha

-- `res`, for one eligible row
unfoldable pub resolution :
    ShaText → (String → LsRemote) → CorpusRunConfig → EligibleRow → ShaResolution
unfolding pinned_sha resolve_remote_sha
resolution re git cfg row =
    elim (find (λ (p : String × String). str_eq p.0 row.full_name) cfg.pinned_shas) [
      | some p ↦ pinned_sha re p.1
      | none ↦ resolve_remote_sha re git row.clone_url
    ]

-- `res.sha or ""`
unfoldable pub sha_or_empty : Option String → String
sha_or_empty none = ""
sha_or_empty (some sha) = sha

unfoldable pub manifest_row :
    ShaText → (String → LsRemote) → CorpusRunConfig → ℕ → ℕ → EligibleRow → ManifestRow
unfolding resolution sha_or_empty
manifest_row re git cfg rid position row =
    let res = resolution re git cfg row in
    record {
      corpus_run_id = rid;
      repository_id = row.id;
      full_name = row.full_name;
      clone_url = row.clone_url;
      resolved_sha = sha_or_empty res.sha;
      sha_resolution_class = some res.classification;
      position = position;
    }

-- A row with the two columns of the unique index `idx_crr_run_repo_unique`
abbrev pub is_entry : ℕ → ℕ → ManifestRow → Bool
is_entry rid repository_id m = m.corpus_run_id == rid && m.repository_id == repository_id

-- `none` is the `IntegrityError`.
unfoldable pub insert_corpus_run_repository : ManifestRow → Db → Option Db
insert_corpus_run_repository m db =
    if any (is_entry m.corpus_run_id m.repository_id) db.manifest
    then none
    else some (record db { manifest = db.manifest ++ (m ∷ []) })

-- `for position, row in enumerate(eligible_rows)`
unfoldable pub freeze :
    ShaText → (String → LsRemote) → CorpusRunConfig → ℕ → ℕ → List EligibleRow → Db → Option Db
unfolding manifest_row insert_corpus_run_repository
freeze re git cfg rid position [] db = some db
freeze re git cfg rid position (row ∷ rows) db =
    elim (insert_corpus_run_repository (manifest_row re git cfg rid position row) db) [
      | none ↦ none
      | some db' ↦ freeze re git cfg rid (suc position) rows db'
    ]

-- `SELECT id FROM corpus_runs ORDER BY id DESC LIMIT 1`
unfoldable pub last_run_id : List CorpusRun → ℕ
last_run_id [] = 0
last_run_id (r ∷ rs) = max r.id (last_run_id rs)

unfoldable pub insert_corpus_run : CorpusRunConfig → Db → Db
unfolding last_run_id
insert_corpus_run cfg db = record db {
  runs =
      db.runs
      ++ (record {
        id = suc (last_run_id db.runs);
        status = run_pending;
        requirement_id = cfg.requirement_id;
        requirement_version = cfg.requirement_version;
        scenario_id = cfg.scenario_id;
        max_workers = cfg.max_workers;
        max_attempts = cfg.max_attempts;
        total_jobs = 0;
        tally = record {
          completed_jobs = 0;
          pass_count = 0;
          fail_count = 0;
          unknown_count = 0;
          unsupported_count = 0;
          error_count = 0;
          skipped_count = 0;
        };
        started_at = none;
        completed_at = none;
      }
          ∷ []);
}

-- With the default resolution: the run's id. `none` is an exception, after which the rows that were
-- inserted stay.
unfoldable pub create_corpus_run :
    ShaText → (String → LsRemote) → CorpusRunConfig → List EligibleRow → Db → Option (ℕ × Db)
unfolding insert_corpus_run last_run_id freeze update_corpus_run_status
create_corpus_run re git cfg rows db =
    let inserted = insert_corpus_run cfg db in
    let rid = last_run_id inserted.runs in
    elim (freeze re git cfg rid 0 rows inserted) [
      | none ↦ none
      | some frozen ↦ some (rid, update_corpus_run_status rid run_pending none none (some 0) frozen)
    ]

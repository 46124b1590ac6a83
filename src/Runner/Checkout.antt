-- ===== src/Runner/Checkout.antt =====
-- `fetch` and `materialize_checkout` of src/compliance/corpus_runner/cache/source_cache.py, and the
-- state that src/compliance/corpus_runner/materializer.py works on.
--
-- What git, tarfile and the disk report is the record `Git`, whose `Bare` is the contents of a bare
-- repository. The cache maps a clone URL to its bare repository, if that and its HEAD are there, and to
-- its `cache_meta.json`; different URLs have different keys. Nobody else writes the cache during a
-- call, no removal fails, a clone that fails leaves nothing, and a command that only reads a repository
-- ends. Durations and the total size of the cache are left out of the metrics, and of a workspace only
-- the checkout and the marker are kept.
use reguard.Prelude.{
  ℕ, String, str_eq, starts_with, Bool, false, not, ◌&&◌, ◌||◌, Option, none, some, List, any,
  if◌then◌else◌,
}
use reguard.Runner.Cache.{SourceCacheEntry}

-- A member of an archive, with the target of a symbolic or hard link
pub record Member : Type 0 where
  pub name : String
  pub linkname : Option String

pub record Git (Bare : Type 0) : Type 0 where
  -- `cache_key_for_url`, and `layout(url).bare_git`
  pub cache_key : String → String
  pub bare_git : String → String
  -- `git clone --mirror`, `git fetch`, `git cat-file -t` and `git archive`
  pub clone : String → Option Bare
  pub update : String → Bare → Option Bare
  pub has_commit : Bare → String → Bool
  pub archive : Bare → String → Option (List Member)
  pub dir_size : Bare → ℕ
  -- `repr(exc)[:2000]` of a failed fetch
  pub failure : String → String
  -- `".." in Path(target).parts`
  pub has_parent_part : String → Bool
  -- `extractall` ends without an exception
  pub extracts : List Member → Bool

-- The contents of `repo`, with the commit that `.reguard-materialized` names
pub record Snapshot : Type 0 where
  pub members : List Member
  pub repo_sha : String

-- A directory below the root of workspaces
pub record Workspace : Type 0 where
  pub repo : Option Snapshot
  pub cleanup_marker : Option ℕ

pub record Metrics : Type 0 where
  pub source_cache_hits : ℕ
  pub source_cache_misses : ℕ
  pub source_cache_fetches : ℕ
  pub source_cache_fetch_failures : ℕ
  pub workspaces_created : ℕ
  pub workspaces_destroyed : ℕ

pub record State (Bare : Type 0) : Type 0 where
  pub bare : String → Option Bare
  pub metas : String → Option SourceCacheEntry
  pub workspaces : String → Option Workspace
  pub metrics : Metrics

-- An exception leaves a state as well.
pub data Answer (Bare A : Type 0) : Type 0 where
  raised : State Bare → Answer Bare A
  done : A → State Bare → Answer Bare A

abbrev pub put : {A : Type 0} → String → A → (String → Option A) → String → Option A
put key value table k = if str_eq k key then some value else table k

abbrev pub without : {A : Type 0} → String → (String → Option A) → String → Option A
without key table k = if str_eq k key then none else table k

abbrev pub and_then :
    {Bare A B : Type 0} → Answer Bare A → (A → State Bare → Answer Bare B) → Answer Bare B
and_then (raised s) f = raised s
and_then (done a s) f = f a s

-- The arguments of `prepare`; `workspace_id` is the name that `for_attempt` makes, and `now` the clock.
pub record Request : Type 0 where
  pub clone_url : String
  pub repo_sha : String
  pub workspace_id : String
  pub now : ℕ

module _ {Bare : Type 0} (git : Git Bare) where
  -- What `fetch` writes when it succeeds, and when it fails
  unfoldable pub fetched_entry : String → ℕ → Bare → SourceCacheEntry
  fetched_entry url now b = record {
    cache_key = git.cache_key url;
    clone_url = url;
    cache_path = git.bare_git url;
    last_fetch_at = some now;
    last_used_at = some now;
    size_bytes = git.dir_size b;
    state = "ok";
    error = none;
  }

  unfoldable pub failed_entry : String → Option Bare → SourceCacheEntry
  failed_entry url b = record {
    cache_key = git.cache_key url;
    clone_url = url;
    cache_path = git.bare_git url;
    last_fetch_at = none;
    last_used_at = none;
    size_bytes = elim b [ none ↦ 0 | some c ↦ git.dir_size c ];
    state = "error";
    error = some (git.failure url);
  }

  -- `git fetch` in the bare repository, after a clone that may have made it
  unfoldable pub fetch_into : String → ℕ → Bare → State Bare → Answer Bare Unit
  unfolding fetched_entry failed_entry
  fetch_into url now b s = elim (git.update url b) [
    | none ↦
        raised (record s {
          bare = put url b s.bare;
          metas = put url (failed_entry url (some b)) s.metas;
        })
    | some c ↦
        done tt
          (record s { bare = put url c s.bare; metas = put url (fetched_entry url now c) s.metas })
  ]

  unfoldable pub fetch : String → ℕ → State Bare → Answer Bare Unit
  unfolding fetch_into failed_entry
  fetch url now s = elim (s.bare url) [
    | none ↦ elim (git.clone url) [
      | none ↦ raised (record s { metas = put url (failed_entry url none) s.metas })
      | some b ↦ fetch_into url now b s
    ]
    | some b ↦ fetch_into url now b s
  ]

  -- `_sha_present_in_cache`
  unfoldable pub sha_present_in_cache : String → String → State Bare → Bool
  sha_present_in_cache url sha s = elim (s.bare url) [
    | none ↦ false
    | some b ↦ git.has_commit b sha
  ]

  -- The entry of `_mark_used`, that of the cache or else a new one, and its update
  unfoldable pub used_entry : String → State Bare → SourceCacheEntry
  used_entry url s = elim (s.metas url) [
    | none ↦ record {
      cache_key = git.cache_key url;
      clone_url = url;
      cache_path = git.bare_git url;
      last_fetch_at = none;
      last_used_at = none;
      size_bytes = 0;
      state = "ok";
      error = none;
    }
    | some e ↦ e
  ]

  unfoldable pub mark_used : String → ℕ → Bare → State Bare → State Bare
  unfolding used_entry
  mark_used url now b s =
      let existing = used_entry url s in
      record s {
        metas =
            put url
              (record existing {
                last_used_at = some now;
                size_bytes = git.dir_size b;
                error = none;
                state = "ok";
              })
              s.metas;
      }

  -- The test of a member in `materialize_checkout`
  unfoldable pub is_unsafe : Member → Bool
  is_unsafe m = elim m.linkname [
    | none ↦ false
    | some target ↦ not (str_eq target "") && (starts_with target "/" || git.has_parent_part target)
  ]

  -- `materialize_checkout` up to the commit's being there
  unfoldable pub ensure_commit : String → String → ℕ → State Bare → Answer Bare Unit
  unfolding fetch sha_present_in_cache
  ensure_commit url sha now s = elim (s.bare url) [
    | none ↦ fetch url now s
    | some b ↦
        if git.has_commit b sha
        then done tt s
        else and_then (fetch url now s)
            (λ u t. if sha_present_in_cache url sha t then done tt t else raised t)
  ]

  -- and from the archive to the end
  unfoldable pub extract : Request → State Bare → Answer Bare Unit
  unfolding is_unsafe mark_used
  extract r s = elim (s.bare r.clone_url) [
    | none ↦ raised s
    | some b ↦ elim (git.archive b r.repo_sha) [
      | none ↦ raised s
      | some members ↦
          if any is_unsafe members
          then raised s
          else if git.extracts members
          then done tt (
              mark_used r.clone_url r.now b (record s {
                workspaces =
                    put r.workspace_id
                      (record {
                        repo = some (record { members = members; repo_sha = r.repo_sha });
                        cleanup_marker = none;
                      })
                      s.workspaces;
              }))
          else raised s
    ]
  ]

  unfoldable pub materialize_checkout : Request → State Bare → Answer Bare Unit
  unfolding ensure_commit extract
  materialize_checkout r s =
      and_then (ensure_commit r.clone_url r.repo_sha r.now s) (λ u t. extract r t)

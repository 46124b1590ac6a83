-- ===== src/Runner/Materializer.antt =====
-- `RepositoryMaterializer` of src/compliance/corpus_runner/materializer.py: `prepare` and `cleanup`, with
-- the creation and the end of a workspace in src/compliance/corpus_runner/workspace/manager.py.

mod Keeping
pub mod Cached
pub mod Snapshots
use reguard.Prelude.{ℕ, suc, String, Bool, true, false, Option, none, some, if◌then◌else◌}
use reguard.Runner.Checkout.{
  Git, Workspace, Metrics, State, Answer, raised, done, put, without, and_then, Request, fetch,
  sha_present_in_cache, materialize_checkout,
}

pub record PreparedRepository : Type 0 where
  pub workspace_id : String
  pub repo_sha : String
  pub cache_key : String
  pub cache_hit : Bool

module _ {Bare : Type 0} (git : Git Bare) where
  -- The counters, by their fields' names
  abbrev pub counts_hit : State Bare → State Bare
  counts_hit s = record s {
    metrics = record s.metrics { source_cache_hits = suc s.metrics.source_cache_hits };
  }

  abbrev pub counts_miss : State Bare → State Bare
  counts_miss s = record s {
    metrics = record s.metrics { source_cache_misses = suc s.metrics.source_cache_misses };
  }

  abbrev pub counts_fetch : State Bare → State Bare
  counts_fetch s = record s {
    metrics = record s.metrics { source_cache_fetches = suc s.metrics.source_cache_fetches };
  }

  abbrev counts_failure : State Bare → State Bare
  counts_failure s = record s {
    metrics = record s.metrics {
      source_cache_fetch_failures = suc s.metrics.source_cache_fetch_failures;
    };
  }

  -- `_fetch_with_metrics`, whose handler counts and raises again
  abbrev pub count_raised : Answer Bare Unit → Answer Bare Unit
  count_raised (raised t) = raised (counts_failure t)
  count_raised (done u t) = done u t

  unfoldable pub fetch_with_metrics : String → ℕ → State Bare → Answer Bare Unit
  unfolding fetch
  fetch_with_metrics url now s = count_raised (fetch git url now (counts_fetch s))

  -- `prepare` up to the creation of the workspace, with the answer to `layout.exists`
  unfoldable pub locate : Request → State Bare → Answer Bare Bool
  unfolding fetch_with_metrics sha_present_in_cache
  locate r s = elim (s.bare r.clone_url) [
    | none ↦ and_then (fetch_with_metrics r.clone_url r.now (counts_miss s)) (λ u t. done false t)
    | some b ↦
        if git.has_commit b r.repo_sha
        then done true (counts_hit s)
        else and_then (fetch_with_metrics r.clone_url r.now s) (λ u t.
          if sha_present_in_cache git r.clone_url r.repo_sha t
          then done true (counts_hit t)
          else raised t)
  ]

  -- `Workspace.create`, which keeps a directory that is there
  unfoldable pub create : String → State Bare → State Bare
  create id s = record s {
    workspaces = elim (s.workspaces id) [
      | none ↦ put id (record { repo = none; cleanup_marker = none }) s.workspaces
      | some w ↦ s.workspaces
    ];
    metrics = record s.metrics { workspaces_created = suc s.metrics.workspaces_created };
  }

  -- `_safe_destroy`, and the count after it
  unfoldable pub safe_destroy : String → State Bare → State Bare
  safe_destroy id s = record s {
    workspaces = without id s.workspaces;
    metrics = record s.metrics { workspaces_destroyed = suc s.metrics.workspaces_destroyed };
  }

  -- The handler of an exception of `materialize_checkout`, and what is returned without one
  unfoldable pub hand_over : Request → Bool → Answer Bare Unit → Answer Bare PreparedRepository
  unfolding safe_destroy
  hand_over r hit (raised t) = raised (safe_destroy r.workspace_id t)
  hand_over r hit (done u t) =
      done
        (record {
          workspace_id = r.workspace_id;
          repo_sha = r.repo_sha;
          cache_key = git.cache_key r.clone_url;
          cache_hit = hit;
        })
        t

  unfoldable pub prepare : Request → State Bare → Answer Bare PreparedRepository
  unfolding locate create materialize_checkout hand_over
  prepare r s =
      and_then (locate r s)
        (λ hit t. hand_over r hit (materialize_checkout git r (create r.workspace_id t)))

  -- `Workspace.destroy` leaves the root with a marker, and returns `True` when no removal fails.
  unfoldable pub cleanup : PreparedRepository → ℕ → State Bare → Bool × State Bare
  cleanup p now s = (
    true,
    record s {
      workspaces =
          put p.workspace_id (record { repo = none; cleanup_marker = some now }) s.workspaces;
      metrics = record s.metrics { workspaces_destroyed = suc s.metrics.workspaces_destroyed };
    },
  )

-- ===== src/Runner/Examples/Materializing.antt =====
-- A call of `prepare` with an empty cache, whose fetch brings the commit.
use reguard.Prelude.{
  String, str_eq, false, true, none, some, List, [], ◌∷◌, any, refl, if◌then◌else◌,
}
use reguard.Runner.Checkout.{Git, State, Request}
use reguard.Runner.Materializer.{prepare}
use reguard.Runner.Materializer.Snapshots.{IsExact, prepare-IsExact}

abbrev git : Git (List String)
git = record {
  cache_key = λ url. url;
  bare_git = λ url. url;
  clone = λ url. some [];
  update = λ url commits. some ("c0ffee" ∷ []);
  has_commit = λ commits sha. any (str_eq sha) commits;
  archive = λ commits sha.
      if any (str_eq sha) commits
      then some (record { name = "agent.py"; linkname = none } ∷ [])
      else none;
  dir_size = λ commits. 1;
  failure = λ url. url;
  has_parent_part = λ target. false;
  extracts = λ members. true;
}

abbrev nothing : State (List String)
nothing = record {
  bare = λ url. none;
  metas = λ url. none;
  workspaces = λ id. none;
  metrics = record {
    source_cache_hits = 0;
    source_cache_misses = 0;
    source_cache_fetches = 0;
    source_cache_fetch_failures = 0;
    workspaces_created = 0;
    workspaces_destroyed = 0;
  };
}

abbrev request : Request
request = record {
  clone_url = "https://github.com/he-yufeng/CoreCoder";
  repo_sha = "c0ffee";
  workspace_id = "1_7_00000000";
  now = 1;
}

prepare-IsExact_example : IsExact git request nothing (prepare git request nothing)
prepare-IsExact_example = prepare-IsExact git request nothing refl

-- ===== src/Runner/Materializer/Cached.antt =====
-- A call of `prepare` of src/compliance/corpus_runner/materializer.py for a commit that the cache has.
use reguard.Prelude.{Bool, true, false, some, none, List, any, ◌≡◌, refl}
use reguard.Runner.Checkout.{
  Member, Git, Workspace, State, Answer, raised, done, put, Request, is_unsafe, ensure_commit,
  extract, mark_used, materialize_checkout,
}
use reguard.Runner.Materializer.{PreparedRepository, counts_hit, locate, create, hand_over, prepare}

-- The workspace with the snapshot that was asked for
abbrev pub holding : Request → List Member → Workspace
holding r members = record {
  repo = some (record { members = members; repo_sha = r.repo_sha });
  cleanup_marker = none;
}

module _ {Bare : Type 0} (git : Git Bare) where
  -- The cache has the commit, and a harmless archive of it.
  pub record IsCached (r : Request) (s : State Bare) : Type 0 where
    pub bare : Bare
    pub members : List Member
    pub cached : s.bare r.clone_url ≡ some bare
    pub present : git.has_commit bare r.repo_sha ≡ true
    pub archived : git.archive bare r.repo_sha ≡ some members
    pub safe : any (is_unsafe git) members ≡ false
    pub extracted : git.extracts members ≡ true

  abbrev pub has_returned : Answer Bare PreparedRepository → Bool
  has_returned (raised t) = false
  has_returned (done p t) = true

  locate_cached :
      (r : Request) (s : State Bare) → IsCached r s → locate git r s ≡ done true (counts_hit git s)
  unfolding locate
  locate_cached r s c = rw (c.cached, c.present, locate) refl

  ensure_commit_cached :
      (r : Request) (s : State Bare)
      → IsCached r s
      → ensure_commit git r.clone_url r.repo_sha r.now s ≡ done tt s
  unfolding ensure_commit
  ensure_commit_cached r s c = rw (c.cached, c.present, ensure_commit) refl

  abbrev used : (r : Request) (s : State Bare) → IsCached r s → State Bare
  used r s c =
      mark_used git r.clone_url r.now c.bare
        (record s { workspaces = put r.workspace_id (holding r c.members) s.workspaces })

  extract_cached :
      (r : Request) (s : State Bare) (c : IsCached r s) → extract git r s ≡ done tt (used r s c)
  unfolding extract
  extract_cached r s c = rw (c.cached, c.archived, c.safe, c.extracted, extract) refl

  materialize_checkout_cached :
      (r : Request) (s : State Bare) (c : IsCached r s)
      → materialize_checkout git r s ≡ done tt (used r s c)
  unfolding materialize_checkout
  materialize_checkout_cached r s c =
      rw (ensure_commit_cached r s c, materialize_checkout) (extract_cached r s c)

  pub prepare_returns :
      (r : Request) (s : State Bare) → IsCached r s → has_returned (prepare git r s) ≡ true
  unfolding prepare create hand_over
  prepare_returns r s c =
      let still : IsCached r (create git r.workspace_id (counts_hit git s)) = record {
        bare = c.bare;
        members = c.members;
        cached = c.cached;
        present = c.present;
        archived = c.archived;
        safe = c.safe;
        extracted = c.extracted;
      } in
      rw (locate_cached r s c, prepare)
        (rw (materialize_checkout_cached r (create git r.workspace_id (counts_hit git s)) still)
          refl)

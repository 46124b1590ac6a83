-- ===== src/Runner/Materializer/Snapshots.antt =====
-- What `prepare` of src/compliance/corpus_runner/materializer.py leaves: the snapshot of one commit, or no
-- workspace.
use mathlib.Core.Path.{subst}
use reguard.Prelude.{
  ℕ, suc, ◌+◌, String, str_eq, eq_iff, Bool, true, false, Option, none, some, List, any, ◌≡◌, ◌≢◌,
  refl, ap, sym, ◌∙◌, inl, inr, Bool-cases, Option-cases, arith,
}
use reguard.Runner.Checkout.{
  Member, Git, Workspace, Metrics, State, Answer, raised, done, put, without, and_then, Request,
  is_unsafe, ensure_commit, extract, mark_used, materialize_checkout,
}
use reguard.Runner.Materializer.{
  PreparedRepository, locate, create, safe_destroy, hand_over, prepare, cleanup,
}
use reguard.Runner.Materializer.Cached.{holding, IsCached, has_returned, prepare_returns}
use reguard.Runner.Materializer.Keeping.{Keeps, KeepsAll, ensure_commit-KeepsAll, locate-KeepsAll}

module _ {A : Type 0} (k : String) (v : A) (f : String → Option A) where
  put-here : put k v f k ≡ some v
  put-here = ground (arith, eq_iff k k)

  put-other : (id : String) → id ≢ k → put k v f id ≡ f id
  put-other id h = ground (arith, eq_iff id k)

  without-put : (id : String) → f k ≡ none → without k (put k v f) id ≡ f id
  without-put id h = elim (Bool-cases (str_eq id k)) [
    | inl same ↦ rw (same, without) (sym (ap f ((eq_iff id k).0 same) ∙ h))
    | inr apart ↦ rw (apart, without, put) refl
  ]

-- A workspace that `create` has made
abbrev empty : Workspace
empty = record { repo = none; cleanup_marker = none }

module _ {Bare : Type 0} (git : Git Bare) where
  -- What `prepare` returns: the snapshot of the requested commit, archived by the bare repository that the
  -- cache has for the URL, without a link out of the workspace.
  pub record IsPrepared (r : Request) (p : PreparedRepository) (t : State Bare) : Type 0 where
    pub bare : Bare
    pub members : List Member
    pub cached : t.bare r.clone_url ≡ some bare
    pub archived : git.archive bare r.repo_sha ≡ some members
    pub safe : any (is_unsafe git) members ≡ false
    pub extracted : git.extracts members ≡ true
    pub kept : t.workspaces r.workspace_id ≡ some (holding r members)
    pub named : p.workspace_id ≡ r.workspace_id
    pub at : p.repo_sha ≡ r.repo_sha

  -- The other workspaces are as they were.
  abbrev Spares : Request → State Bare → State Bare → Type 0
  Spares r s t = (id : String) → id ≢ r.workspace_id → t.workspaces id ≡ s.workspaces id

  abbrev Extracted : Request → State Bare → Answer Bare Unit → Type 0
  Extracted r s (raised t) = t ≡ s
  Extracted r s (done u t) =
      (b : Bare) × (members : List Member) × (t.bare r.clone_url ≡ some b)
      × (git.archive b r.repo_sha ≡ some members)
      × (any (is_unsafe git) members ≡ false)
      × (git.extracts members ≡ true)
      × (t.metrics ≡ s.metrics)
      × (t.workspaces ≡ put r.workspace_id (holding r members) s.workspaces)

  extract-Extracted : (r : Request) (s : State Bare) → Extracted r s (extract git r s)
  unfolding extract mark_used
  extract-Extracted r s = elim (Option-cases (s.bare r.clone_url)) [
    | inl e ↦ rw (e, extract) refl
    | inr (b, e) ↦ elim (Option-cases (git.archive b r.repo_sha)) [
      | inl f ↦ rw (e, f, extract) refl
      | inr (members, f) ↦ elim (Bool-cases (any (is_unsafe git) members)) [
        | inl bad ↦ rw (e, f, bad, extract) refl
        | inr good ↦ elim (Bool-cases (git.extracts members)) [
          | inl x ↦ rw (e, f, good, x, extract) (b, members, e, f, good, x, refl, refl)
          | inr x ↦ rw (e, f, good, x, extract) refl
        ]
      ]
    ]
  ]

  -- `materialize_checkout` from a state whose workspaces and counts are those of `s`
  abbrev Materialized : Request → State Bare → Answer Bare Unit → Type 0
  Materialized r s (raised t) = Keeps s t
  Materialized r s (done u t) =
      (b : Bare) × (members : List Member) × (t.bare r.clone_url ≡ some b)
      × (git.archive b r.repo_sha ≡ some members)
      × (any (is_unsafe git) members ≡ false)
      × (git.extracts members ≡ true)
      × (t.metrics.workspaces_created ≡ s.metrics.workspaces_created)
      × (t.metrics.workspaces_destroyed ≡ s.metrics.workspaces_destroyed)
      × (t.workspaces ≡ put r.workspace_id (holding r members) s.workspaces)

  Extracted-Materialized :
      (r : Request) (s t : State Bare) (x : Answer Bare Unit)
      → Keeps s t
      → Extracted r t x
      → Materialized r s x
  Extracted-Materialized r s t (raised u) h e = subst (λ (x : State Bare). Keeps s x) (sym e) h
  Extracted-Materialized r s t (done v u) h (b, ms, c, a, g, x, m, w) = (
    b,
    ms,
    c,
    a,
    g,
    x,
    ap (λ (k : Metrics). k.workspaces_created) m ∙ h.1,
    ap (λ (k : Metrics). k.workspaces_destroyed) m ∙ h.2,
    w ∙ ap (λ (k : String → Option Workspace). put r.workspace_id (holding r ms) k) h.0,
  )

  materialize_checkout-Materialized :
      (r : Request) (s : State Bare) → Materialized r s (materialize_checkout git r s)
  unfolding materialize_checkout
  materialize_checkout-Materialized r s =
      ensured (ensure_commit git r.clone_url r.repo_sha r.now s)
        (ensure_commit-KeepsAll git r.clone_url r.repo_sha r.now s)
    where
      ensured :
          (x : Answer Bare Unit)
          → KeepsAll s x
          → Materialized r s (and_then x (λ u t. extract git r t))
      ensured (raised t) h = h
      ensured (done u t) h =
          Extracted-Materialized r s t (extract git r t) h (extract-Extracted r t)

  -- What a call leaves. After an exception no workspace is left and the two counts are apart as before; a
  -- call that returns has made one workspace, and the end of that puts the counts right.
  abbrev Leaves : Request → State Bare → Answer Bare PreparedRepository → Type 0
  Leaves r s (raised t) =
      ((id : String) → t.workspaces id ≡ s.workspaces id)
      × (t.metrics.workspaces_created + s.metrics.workspaces_destroyed
          ≡ s.metrics.workspaces_created + t.metrics.workspaces_destroyed)
  Leaves r s (done p t) =
      IsPrepared r p t
      × ((id : String) → id ≢ r.workspace_id → t.workspaces id ≡ s.workspaces id)
      × (t.metrics.workspaces_created ≡ suc s.metrics.workspaces_created)
      × ((now : ℕ)
          → let ended = (cleanup git p now t).1 in
            (ended.metrics.workspaces_created + s.metrics.workspaces_destroyed
              ≡ s.metrics.workspaces_created + ended.metrics.workspaces_destroyed)
            × (ended.workspaces r.workspace_id
                ≡ some (record { repo = none; cleanup_marker = some now })))

  create_free :
      (id : String) (s : State Bare)
      → s.workspaces id ≡ none
      → (create git id s).workspaces ≡ put id empty s.workspaces
  unfolding create
  create_free id s h = rw (h, create) refl

  create_kept :
      (id : String) (s t : State Bare)
      → s.workspaces id ≡ none
      → Keeps s t
      → (create git id t).workspaces ≡ put id empty s.workspaces
  create_kept id s t free h =
      create_free id t (ap (λ (f : String → Option Workspace). f id) h.0 ∙ free)
      ∙ ap (λ (f : String → Option Workspace). put id empty f) h.0

  hand_over-Leaves :
      (r : Request) (s t : State Bare) (hit : Bool) (x : Answer Bare Unit)
      → s.workspaces r.workspace_id ≡ none
      → Keeps s t
      → Materialized r (create git r.workspace_id t) x
      → Leaves r s (hand_over git r hit x)
  unfolding hand_over create safe_destroy cleanup
  hand_over-Leaves r s t hit (raised u) free h m = (
    λ id.
        ap (λ (f : String → Option Workspace). without r.workspace_id f id)
          (m.0 ∙ create_kept r.workspace_id s t free h)
        ∙ without-put r.workspace_id empty s.workspaces id free,
    omega (arith, m.1, m.2, h.1, h.2),
  )
  hand_over-Leaves r s t hit (done v u) free h (b, ms, c, a, g, x, made, gone, w) =
      let there =
        w
        ∙ ap (λ (f : String → Option Workspace). put r.workspace_id (holding r ms) f)
            (create_kept r.workspace_id s t free h) in
      (
        record {
          bare = b;
          members = ms;
          cached = c;
          archived = a;
          safe = g;
          extracted = x;
          kept =
              ap (λ (f : String → Option Workspace). f r.workspace_id) w
              ∙ put-here r.workspace_id (holding r ms) (create git r.workspace_id t).workspaces;
          named = refl;
          at = refl;
        },
        λ id n.
            ap (λ (f : String → Option Workspace). f id) there
            ∙ put-other r.workspace_id (holding r ms) (put r.workspace_id empty s.workspaces) id n
            ∙ put-other r.workspace_id empty s.workspaces id n,
        omega (arith, made, h.1),
        λ now. (
          omega (arith, made, gone, h.1, h.2),
          put-here r.workspace_id (record { repo = none; cleanup_marker = some now }) u.workspaces,
        ),
      )

  prepare-Leaves :
      (r : Request) (s : State Bare)
      → s.workspaces r.workspace_id ≡ none
      → Leaves r s (prepare git r s)
  unfolding prepare
  prepare-Leaves r s free = located (locate git r s) (locate-KeepsAll git r s)
    where
      located :
          (x : Answer Bare Bool)
          → KeepsAll s x
          → Leaves r s (
              and_then x (λ hit t.
                hand_over git r hit (materialize_checkout git r (create git r.workspace_id t))))
      located (raised t) h =
          (λ id. ap (λ (f : String → Option Workspace). f id) h.0, omega (arith, h.1, h.2))
      located (done hit t) h =
          hand_over-Leaves r s t hit (materialize_checkout git r (create git r.workspace_id t)) free
            h (materialize_checkout-Materialized r (create git r.workspace_id t))

  abbrev pub IsExact : Request → State Bare → Answer Bare PreparedRepository → Type 0
  IsExact r s x = Leaves r s x × ¬ (IsCached git r s × (has_returned git x ≡ false))

  -- A call of `prepare` under a name that no workspace has either raises, which it does not if the cache
  -- has the commit and a harmless archive of it, or returns. If it raises, every workspace is as before,
  -- and as many more are counted as created as are counted as destroyed. If it returns, the new workspace
  -- holds the requested commit, as the bare repository of its URL archives it, with no link out of it, and
  -- the others are as before; one more is counted as created, and `cleanup` leaves of it the marker alone
  -- and counts one more as destroyed.
  pub prepare-IsExact :
      (r : Request) (s : State Bare)
      → s.workspaces r.workspace_id ≡ none
      → IsExact r s (prepare git r s)
  prepare-IsExact r s free =
      (prepare-Leaves r s free, λ (c, raises). absurd (ground (arith, prepare_returns git r s c)))

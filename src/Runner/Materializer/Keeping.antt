-- ===== src/Runner/Materializer/Keeping.antt =====
-- The steps of src/compliance/corpus_runner/materializer.py that only work on the cache keep the
-- workspaces.
use reguard.Prelude.{
  ℕ, String, Bool, true, false, ◌≡◌, refl, ◌∙◌, Option-cases, inl, inr, if◌then◌else◌,
}
use reguard.Runner.Checkout.{
  Git, State, Answer, raised, done, and_then, Request, fetch_into, fetch, sha_present_in_cache,
  ensure_commit,
}
use reguard.Runner.Materializer.{
  counts_miss, counts_fetch, count_raised, locate, fetch_with_metrics,
}

module _ {Bare : Type 0} where
  abbrev pub Keeps : State Bare → State Bare → Type 0
  Keeps s t =
      (t.workspaces ≡ s.workspaces)
      × (t.metrics.workspaces_created ≡ s.metrics.workspaces_created)
      × (t.metrics.workspaces_destroyed ≡ s.metrics.workspaces_destroyed)

  -- An answer or an exception that has touched no workspace
  abbrev pub KeepsAll : {A : Type 0} → State Bare → Answer Bare A → Type 0
  KeepsAll s (raised t) = Keeps s t
  KeepsAll s (done a t) = Keeps s t

  KeepsAll-from :
      {A : Type 0} (s t : State Bare) (r : Answer Bare A) → Keeps s t → KeepsAll t r → KeepsAll s r
  KeepsAll-from s t (raised u) h k = (k.0 ∙ h.0, k.1 ∙ h.1, k.2 ∙ h.2)
  KeepsAll-from s t (done a u) h k = (k.0 ∙ h.0, k.1 ∙ h.1, k.2 ∙ h.2)

  pub and_then-KeepsAll :
      {A B : Type 0} (s : State Bare) (r : Answer Bare A) (f : A → State Bare → Answer Bare B)
      → KeepsAll s r
      → ((a : A) (t : State Bare) → Keeps s t → KeepsAll s (f a t))
      → KeepsAll s (and_then r f)
  and_then-KeepsAll s (raised t) f h k = h
  and_then-KeepsAll s (done a t) f h k = k a t h

  if-KeepsAll :
      {A : Type 0} (s : State Bare) (b : Bool) (x y : Answer Bare A)
      → KeepsAll s x
      → KeepsAll s y
      → KeepsAll s (if b then x else y)
  if-KeepsAll s true x y h k = h
  if-KeepsAll s false x y h k = k

module _ {Bare : Type 0} (git : Git Bare) where
  fetch_into-KeepsAll :
      (url : String) (now : ℕ) (b : Bare) (s : State Bare) → KeepsAll s (fetch_into git url now b s)
  unfolding fetch_into
  fetch_into-KeepsAll url now b s = elim (Option-cases (git.update url b)) [
    | inl e ↦ rw (e, fetch_into) (refl, refl, refl)
    | inr (c, e) ↦ rw (e, fetch_into) (refl, refl, refl)
  ]

  fetch-KeepsAll : (url : String) (now : ℕ) (s : State Bare) → KeepsAll s (fetch git url now s)
  unfolding fetch
  fetch-KeepsAll url now s = elim (Option-cases (s.bare url)) [
    | inl e ↦ elim (Option-cases (git.clone url)) [
      | inl f ↦ rw (e, f, fetch) (refl, refl, refl)
      | inr (b, f) ↦ rw (e, f, fetch) (fetch_into-KeepsAll url now b s)
    ]
    | inr (b, e) ↦ rw (e, fetch) (fetch_into-KeepsAll url now b s)
  ]

  count_raised-KeepsAll :
      (s : State Bare) (r : Answer Bare Unit) → KeepsAll s r → KeepsAll s (count_raised git r)
  count_raised-KeepsAll s (raised t) h = h
  count_raised-KeepsAll s (done u t) h = h

  fetch_with_metrics-KeepsAll :
      (url : String) (now : ℕ) (s : State Bare) → KeepsAll s (fetch_with_metrics git url now s)
  unfolding fetch_with_metrics
  fetch_with_metrics-KeepsAll url now s =
      count_raised-KeepsAll s (fetch git url now (counts_fetch git s)) (
        KeepsAll-from s (counts_fetch git s) (fetch git url now (counts_fetch git s))
          (refl, refl, refl) (fetch-KeepsAll url now (counts_fetch git s)))

  pub ensure_commit-KeepsAll :
      (url sha : String) (now : ℕ) (s : State Bare) → KeepsAll s (ensure_commit git url sha now s)
  unfolding ensure_commit
  ensure_commit-KeepsAll url sha now s = elim (Option-cases (s.bare url)) [
    | inl e ↦ rw (e, ensure_commit) (fetch-KeepsAll url now s)
    | inr (b, e) ↦
        rw (e, ensure_commit)
          (if-KeepsAll s (git.has_commit b sha) _ _ (refl, refl, refl)
            (and_then-KeepsAll s (fetch git url now s) _ (fetch-KeepsAll url now s)
              (λ u t h. if-KeepsAll s (sha_present_in_cache git url sha t) _ _ h h)))
  ]

  pub locate-KeepsAll : (r : Request) (s : State Bare) → KeepsAll s (locate git r s)
  unfolding locate
  locate-KeepsAll r s = elim (Option-cases (s.bare r.clone_url)) [
    | inl e ↦
        rw (e, locate)
          (and_then-KeepsAll s (fetch_with_metrics git r.clone_url r.now (counts_miss git s)) _
            (KeepsAll-from s (counts_miss git s)
              (fetch_with_metrics git r.clone_url r.now (counts_miss git s)) (refl, refl, refl)
              (fetch_with_metrics-KeepsAll r.clone_url r.now (counts_miss git s)))
            (λ u t h. h))
    | inr (b, e) ↦
        rw (e, locate)
          (if-KeepsAll s (git.has_commit b r.repo_sha) _ _ (refl, refl, refl)
            (and_then-KeepsAll s (fetch_with_metrics git r.clone_url r.now s) _
              (fetch_with_metrics-KeepsAll r.clone_url r.now s)
              (λ u t h. if-KeepsAll s (sha_present_in_cache git r.clone_url r.repo_sha t) _ _ h h)))
  ]

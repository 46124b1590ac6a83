-- ===== src/Pipeline/Persistence/Keys.antt =====
-- The unique index of `compliance_runtime_runs`, and what a query by its key finds.
use reguard.Prelude.{
  Bool, true, false, List, [], ◌∷◌, ◌++◌, ◌≡◌, refl, ◌↔◌, arith, any, keep, find, any-append,
  eq_iff, int_eq_iff,
}
use reguard.Pipeline.Persistence.{Row, DedupKey, same_key, row_key, newest}

pub same_key_iff : (a b : DedupKey) → (same_key a b ≡ true) ↔ (a ≡ b)
unfolding same_key
same_key_iff a b = ground (
  arith,
  int_eq_iff a.repository_id b.repository_id,
  eq_iff a.requirement_id b.requirement_id,
  eq_iff a.requirement_version b.requirement_version,
  eq_iff a.repo_sha b.repo_sha,
  eq_iff a.scenario_id b.scenario_id,
  eq_iff a.adapter_name b.adapter_name,
  eq_iff a.adapter_version b.adapter_version,
)

pub same_key_comm : (a b : DedupKey) → same_key a b ≡ same_key b a
same_key_comm a b = ground (arith, same_key_iff a b, same_key_iff b a)

module _ {Json : Type 0} where
  abbrev pub has_key : DedupKey → Row Json → Bool
  has_key key row = same_key key (row_key row)

  -- No two rows have one key.
  abbrev pub DedupUnique : List (Row Json) → Type 0
  DedupUnique [] = Unit
  DedupUnique (r ∷ rs) = (any (has_key (row_key r)) rs ≡ false) × DedupUnique rs

  keep-none :
      (k : DedupKey) (rs : List (Row Json)) → any (has_key k) rs ≡ false → keep (has_key k) rs ≡ []
  keep-none k [] h = refl
  keep-none k (r ∷ rs) h = ground (arith, keep-none k rs)

  pub newest-keep :
      (k : DedupKey) (rs : List (Row Json))
      → DedupUnique rs
      → newest (keep (has_key k) rs) ≡ find (has_key k) rs
  unfolding newest
  newest-keep k [] u = refl
  newest-keep k (r ∷ rs) u =
      ground (arith, newest-keep k rs u.1, same_key_iff k (row_key r), keep-none (row_key r) rs)

  -- A row of a new key keeps the index.
  pub append-DedupUnique :
      (rs : List (Row Json)) (row : Row Json)
      → DedupUnique rs
      → any (has_key (row_key row)) rs ≡ false
      → DedupUnique (rs ++ (row ∷ []))
  append-DedupUnique [] row u h = (refl, tt)
  append-DedupUnique (r ∷ rs) row u h = ground (
    arith,
    append-DedupUnique rs row u.1,
    any-append (has_key (row_key r)) rs (row ∷ []),
    same_key_comm (row_key r) (row_key row),
  )

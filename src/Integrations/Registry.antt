-- ===== src/Integrations/Registry.antt =====
-- The registries of recipes, observers and normalizers (src/compliance/integrations/recipe.py,
-- observer.py and normalizer.py), which are written out alike three times.
use reguard.Prelude.{
  String, Bool, true, false, ◌&&◌, Option, none, some, List, [], ◌∷◌, ◌++◌, any, find, keep, str_eq,
  if◌then◌else◌, ◌≡◌, refl, ◌≢◌, ◌⊎◌, inl, inr, arith, eq_iff, Bool-cases, Option-cases,
  find-append, any-find_iff,
}
use mathlib.Core.Path.{subst}
use Prim.Native.Nat.{Ordering}
use Prim.Native.String.{compare}
use reguard.Integrations.Yaml.{Yaml, text, is_text, is_null}

pub record Registered (A : Type 0) : Type 0 where
  pub id : String
  pub version : String
  pub entry : A

module _ {A : Type 0} where
  abbrev pub has_id : String → Registered A → Bool
  has_id id r = str_eq r.id id

  abbrev pub has_version : String → String → Registered A → Bool
  has_version id version r = str_eq r.id id && str_eq r.version version

  -- `register_*`: the registered entry, which is the older one if its key was taken.
  unfoldable pub register : Registered A → List (Registered A) → List (Registered A)
  register r registry =
      if any (has_version r.id r.version) registry then registry else registry ++ (r ∷ [])

  -- `candidates.sort(key=lambda kv: kv[0])` and `candidates[-1][1]`: of equals, the last.
  unfoldable pub latest : List (Registered A) → Option (Registered A)
  latest [] = none
  latest (r ∷ rs) = elim (latest rs) [
    | none ↦ some r
    | some s ↦ elim (compare r.version s.version) [ Ordering.gt ↦ some r | _ ↦ some s ]
  ]

  -- `get_*`, whose version `None` asks for the highest one; `none` is the `KeyError`.
  unfoldable pub get : String → Yaml → List (Registered A) → Option (Registered A)
  unfolding latest is_text is_null
  get id version registry =
      if is_null version
      then latest (keep (has_id id) registry)
      else find (λ r. is_text r.version version) (keep (has_id id) registry)

  find-keep :
      (p q : Registered A → Bool) (rs : List (Registered A))
      → find p (keep q rs) ≡ find (λ r. q r && p r) rs
  find-keep p q [] = refl
  find-keep p q (r ∷ rs) = ground (arith, find-keep p q rs)

  get-find :
      (id version : String) (rs : List (Registered A))
      → get id (text version) rs ≡ find (has_version id version) rs
  unfolding get is_text is_null
  get-find id version rs = find-keep (λ r. str_eq r.version version) (has_id id) rs

  taken :
      (r : Registered A) (id version : String) (rs : List (Registered A))
      → any (has_version r.id r.version) rs ≡ true
      → (has_version id version r ≡ false) ⊎ (find (has_version id version) rs ≢ none)
  taken r id version rs e = elim (Bool-cases (has_version id version r)) [
    | inr f ↦ inl f
    | inl f ↦
        let p : r.id ≡ id = ground (arith, eq_iff r.id id) in
        let q : r.version ≡ version = ground (arith, eq_iff r.version version) in
        let here : any (has_version id version) rs ≡ true =
          subst (λ v. any (has_version id v) rs ≡ true) q
            (subst (λ i. any (has_version i r.version) rs ≡ true) p e) in
        inr (λ n. ground (arith, any-find_iff (has_version id version) rs))
  ]

  -- Registering adds the entry under its id and version unless one is there, which then stays; what
  -- any other id and version give is unchanged.
  get-register :
      (r : Registered A) (id version : String) (rs : List (Registered A))
      → get id (text version) (register r rs) ≡ elim (get id (text version) rs) [
        | some old ↦ some old
        | none ↦ if has_version id version r then some r else none
      ]
  unfolding register
  get-register r id version rs = elim (Bool-cases (any (has_version r.id r.version) rs)) [
    | inl e ↦
        rw (e, register)
          (ground (
            arith,
            get-find id version rs,
            taken r id version rs e,
            Option-cases (find (has_version id version) rs),
          ))
    | inr e ↦
        rw (e, register)
          (ground (
            arith,
            get-find id version rs,
            get-find id version (rs ++ (r ∷ [])),
            find-append (has_version id version) rs (r ∷ []),
          ))
  ]

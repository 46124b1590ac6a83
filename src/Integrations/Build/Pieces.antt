-- ===== src/Integrations/Build/Pieces.antt =====
-- What each step of `_build_integration` makes sure of.
use reguard.Prelude.{
  String, Bool, true, none, some, List, [], ◌∷◌, find, keep, ◌≡◌, ◌≢◌, ◌⊎◌, inl, inr, arith, All,
  Any, is_empty_iff, Option-cases, Bool-cases, eq_iff,
}
use mathlib.Core.Path.{subst}
use reguard.Integrations.Yaml.{
  Yaml, null, text, flag, number, seq, mapping, items, is_text, is_null, Checked, valid, require,
  >>=-valid, require-valid, ConfigError,
}
use reguard.Integrations.Registry.{Registered, get, latest, has_id}
use reguard.Integrations.Recipe.{RecipeConfig, ExecutionRecipe}
use reguard.Integrations.Build.{
  as_name, as_items, registered, is_supported, check_scenarios, check_resolves,
}

abbrev pub value_or : {A : Type 0} → A → Checked A → A
value_or a (valid b) = b
value_or a _ = a

abbrev pub IsIn : {A : Type 0} → A → List (Registered A) → Type 0
IsIn a registry = Any (λ r. r.entry ≡ a) registry

pub IsIn-keep :
    {A : Type 0} (a : A) (p : Registered A → Bool) (rs : List (Registered A))
    → IsIn a (keep p rs)
    → IsIn a rs
IsIn-keep a p [] h = h
IsIn-keep a p (r ∷ rs) h = elim (Bool-cases (p r)) [
  | inl e ↦ ground (arith, IsIn-keep a p rs)
  | inr e ↦ ground (arith, IsIn-keep a p rs)
]

pub IsIn-find :
    {A : Type 0} (p : Registered A → Bool) (rs : List (Registered A)) (r : Registered A)
    → find p rs ≡ some r
    → IsIn r.entry rs
IsIn-find p [] r h = absurd (ground arith)
IsIn-find p (x ∷ rs) r h = elim (Bool-cases (p x)) [
  | inl e ↦ inl (ground arith)
  | inr e ↦ inr (IsIn-find p rs r (ground arith))
]

latest_cons :
    {A : Type 0} (x s : Registered A) (rs : List (Registered A))
    → latest rs ≡ some s
    → (latest (x ∷ rs) ≡ some x) ⊎ (latest (x ∷ rs) ≡ some s)
unfolding latest
latest_cons x s rs e = ground arith

pub IsIn-latest :
    {A : Type 0} (rs : List (Registered A)) (r : Registered A)
    → latest rs ≡ some r
    → IsIn r.entry rs
unfolding latest
IsIn-latest [] r h = absurd (ground arith)
IsIn-latest (x ∷ rs) r h = elim (Option-cases (latest rs)) [
  | inl n ↦ inl (ground arith)
  | inr (s, e) ↦ elim (latest_cons x s rs e) [
    | inl f ↦ inl (ground arith)
    | inr f ↦ inr (subst (λ a. IsIn a rs) (ground arith) (IsIn-latest rs s e))
  ]
]

pub IsIn-get :
    {A : Type 0} (id : String) (version : Yaml) (rs : List (Registered A)) (r : Registered A)
    → get id version rs ≡ some r
    → IsIn r.entry rs
unfolding get
IsIn-get id version rs r h = IsIn-keep r.entry (has_id id) rs (elim (Bool-cases (is_null version)) [
  | inl e ↦ IsIn-latest (keep (has_id id) rs) r (ground arith)
  | inr e ↦ IsIn-find (λ r. is_text r.version version) (keep (has_id id) rs) r (ground arith)
])

pub registered-IsIn :
    {A : Type 0} (id : String) (version : Yaml) (rs : List (Registered A)) (e : ConfigError) {a : A}
    → registered id version rs e ≡ valid a
    → IsIn a rs
unfolding registered
registered-IsIn id version rs e {a} h = elim (Option-cases (get id version rs)) [
  | inl n ↦ absurd (ground arith)
  | inr (r, f) ↦ subst (λ x. IsIn x rs) (ground arith) (IsIn-get id version rs r f)
]

pub as_items-nonempty :
    (v : Yaml) (e : ConfigError) {vs : List Yaml} → as_items v e ≡ valid vs → vs ≢ []
unfolding as_items
as_items-nonempty (seq xs) e h n = ground (arith, is_empty_iff (items xs))
as_items-nonempty null e h n = ground arith
as_items-nonempty (text s) e h n = ground arith
as_items-nonempty (flag s) e h n = ground arith
as_items-nonempty (number s) e h n = ground arith
as_items-nonempty (mapping s) e h n = ground arith

pub as_name-nonempty : (v : Yaml) (e : ConfigError) {s : String} → as_name v e ≡ valid s → s ≢ ""
unfolding as_name
as_name-nonempty (text t) e h n = ground (arith, eq_iff t "")
as_name-nonempty null e h n = ground arith
as_name-nonempty (seq s) e h n = ground arith
as_name-nonempty (flag s) e h n = ground arith
as_name-nonempty (number s) e h n = ground arith
as_name-nonempty (mapping s) e h n = ground arith

is_text-text : (s : String) (v : Yaml) → is_text s v ≡ true → v ≡ text s
unfolding is_text
is_text-text s (text t) h = ground (arith, eq_iff s t)
is_text-text s null h = absurd (ground arith)
is_text-text s (seq t) h = absurd (ground arith)
is_text-text s (flag t) h = absurd (ground arith)
is_text-text s (number t) h = absurd (ground arith)
is_text-text s (mapping t) h = absurd (ground arith)

is_supported-Any :
    (ss : List String) (v : Yaml) → is_supported ss v ≡ true → Any (λ s. v ≡ text s) ss
is_supported-Any [] v h = absurd (ground arith)
is_supported-Any (s ∷ ss) v h = ground (arith, is_text-text s v, is_supported-Any ss v)

pub check_scenarios-All :
    (ss : List String) (vs : List Yaml) {u : Unit {0}}
    → check_scenarios ss vs ≡ valid u
    → All (λ v. Any (λ s. v ≡ text s) ss) vs
unfolding check_scenarios
check_scenarios-All ss [] h = tt
check_scenarios-All ss (v ∷ vs) h =
    let (u, e, k) = >>=-valid (require (is_supported ss v) _) _ h in
    (is_supported-Any ss v (require-valid (is_supported ss v) _ e), check_scenarios-All ss vs k)

pub check_resolves-some :
    {Output : Type 0} (recipe : ExecutionRecipe Output) (config : RecipeConfig) {u : Unit {0}}
    → check_resolves recipe config ≡ valid u
    → recipe.resolve config ≢ none
unfolding check_resolves
check_resolves-some recipe config h n = ground arith

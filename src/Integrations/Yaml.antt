-- ===== src/Integrations/Yaml.antt =====
-- The values that `yaml.safe_load` gives, read the way src/compliance/integrations/integration.py
-- reads them, and the results of that reading.
--
-- Keys are texts. Floats and dates are not modelled.
use reguard.Prelude.{
  ℕ, ◌==◌, String, Bool, true, false, not, Option, none, some, List, [], ◌∷◌, ◌≡◌, refl, arith,
  is_empty, str_eq, if◌then◌else◌,
}

mutual
  pub data Yaml : Type 0 where
    null : Yaml
    text : String → Yaml
    flag : Bool → Yaml
    number : ℕ → Yaml
    seq : Items → Yaml
    mapping : Entries → Yaml

  pub data Items : Type 0 where
    end : Items
    item : Yaml → Items → Items

  pub data Entries : Type 0 where
    nil : Entries
    entry : String → Yaml → Entries → Entries

-- `cfg.get(key)`, which is `None` for a missing key, and `cfg.get(key, default)`
unfoldable pub lookup : String → Entries → Option Yaml
lookup key nil = none
lookup key (entry k v rest) = if str_eq k key then some v else lookup key rest

unfoldable pub get_or : Yaml → String → Entries → Yaml
unfolding lookup
get_or default key entries = elim (lookup key entries) [ none ↦ default | some v ↦ v ]

-- The items of a list, of `bool(v)`, and the list of a mapping's keys
unfoldable pub items : Items → List Yaml
items end = []
items (item v rest) = v ∷ items rest

unfoldable pub keys : Entries → List Yaml
keys nil = []
keys (entry k v rest) = text k ∷ keys rest

unfoldable pub is_truthy : Yaml → Bool
unfolding items keys
is_truthy null = false
is_truthy (text s) = not (str_eq s "")
is_truthy (flag b) = b
is_truthy (number n) = not (n == 0)
is_truthy (seq vs) = not (is_empty (items vs))
is_truthy (mapping es) = not (is_empty (keys es))

-- `v == s`, for a text s
unfoldable pub is_text : String → Yaml → Bool
is_text s (text t) = str_eq s t
is_text s _ = false

-- `v is None`
unfoldable pub is_null : Yaml → Bool
is_null null = true
is_null _ = false

-- The ways in which a configuration is refused: `IntegrationConfigError` and its subclasses.
pub data ConfigError : Type 0 where
  no_pyyaml not_a_mapping unsupported_schema_version no_integration_block : ConfigError
  bad_recipe unknown_recipe : ConfigError
  no_observers bad_observer_entry bad_observer_id unknown_observer : ConfigError
  bad_normalizer bad_normalizer_id unknown_normalizer : ConfigError
  bad_entrypoint no_entrypoint_target rejected_entrypoint : ConfigError
  bad_model unsupported_model no_scenarios : ConfigError
  unsupported_scenario : Yaml → ConfigError
  env_is_forbidden env_is_missing : Yaml → ConfigError

-- A value, an `IntegrationConfigError`, or another exception (a `TypeError`).
pub data Checked (A : Type 0) : Type 0 where
  valid : A → Checked A
  invalid : ConfigError → Checked A
  crash : Checked A

infixl 5 ◌>>=◌ ◌>>◌
abbrev pub ◌>>=◌ : {A B : Type 0} → Checked A → (A → Checked B) → Checked B
valid a >>= f = f a
invalid e >>= f = invalid e
crash >>= f = crash

abbrev pub ◌>>◌ : {B : Type 0} → Checked (Unit {0}) → Checked B → Checked B
m >> k = m >>= λ _. k

-- `raise` unless the test holds
abbrev pub require : Bool → ConfigError → Checked (Unit {0})
require true e = valid tt
require false e = invalid e

pub >>=-valid :
    {A B : Type 0} (c : Checked A) (f : A → Checked B) {b : B}
    → (c >>= f) ≡ valid b
    → (a : A) × (c ≡ valid a) × (f a ≡ valid b)
>>=-valid (valid a) f h = (a, refl, h)
>>=-valid (invalid e) f h = absurd (ground arith)
>>=-valid crash f h = absurd (ground arith)

pub require-valid : (b : Bool) (e : ConfigError) {u : Unit {0}} → require b e ≡ valid u → b ≡ true
require-valid true e h = refl
require-valid false e h = absurd (ground arith)

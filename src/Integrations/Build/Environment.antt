-- ===== src/Integrations/Build/Environment.antt =====
-- `validate_env` of src/compliance/integrations/integration.py, and which environments it accepts.
use reguard.Prelude.{
  not, none, some, find, str_eq, String, Bool, true, false, List, [], ◌∷◌, ◌≡◌, refl, ◌≢◌, ◌↔◌, ◌⊎◌,
  inl, inr, arith, All,
}
use reguard.Integrations.Yaml.{
  require, env_is_forbidden, env_is_missing, text, seq, mapping, Yaml, Checked, valid, invalid,
  crash, ◌>>=◌, ◌>>◌,
}
use reguard.Integrations.Recipe.{RecipeConfig}

-- `env.get(name)`, whether it is truthy; a list or a mapping cannot be a key.
unfoldable pub env_is_set : List (String × String) → Yaml → Checked Bool
env_is_set env (text name) = elim (find (λ p. str_eq p.0 name) env) [
  | none ↦ valid false
  | some p ↦ valid (not (str_eq p.1 ""))
]
env_is_set env (seq vs) = crash
env_is_set env (mapping es) = crash
env_is_set env _ = valid false

unfoldable pub check_forbidden : List (String × String) → List Yaml → Checked (Unit {0})
unfolding env_is_set
check_forbidden env [] = valid tt
check_forbidden env (v ∷ vs) = do
  is_set ← env_is_set env v
  require (not is_set) (env_is_forbidden v)
  check_forbidden env vs

unfoldable pub check_required : List (String × String) → List Yaml → Checked (Unit {0})
unfolding env_is_set
check_required env [] = valid tt
check_required env (v ∷ vs) = do
  is_set ← env_is_set env v
  require is_set (env_is_missing v)
  check_required env vs

unfoldable pub validate_env : RecipeConfig → List (String × String) → Checked (Unit {0})
unfolding check_forbidden check_required
validate_env config env = do
  check_forbidden env config.forbidden_env
  check_required env config.required_env

-- No forbidden variable has a value, and every required one has.
pub record IsAllowed (env : List (String × String)) (config : RecipeConfig) : Type 0 where
  pub unset : All (λ v. env_is_set env v ≡ valid false) config.forbidden_env
  pub set : All (λ v. env_is_set env v ≡ valid true) config.required_env

Checked-cases :
    (c : Checked Bool) → (c ≡ valid true) ⊎ (c ≡ valid false) ⊎ (((b : Bool) → c ≢ valid b))
Checked-cases (valid true) = inl refl
Checked-cases (valid false) = inr (inl refl)
Checked-cases (invalid e) = inr (inr (λ b h. ground arith))
Checked-cases crash = inr (inr (λ b h. ground arith))

bind_valid :
    (c : Checked Bool) (f : Bool → Checked (Unit {0}))
    → ((b : Bool) → c ≢ valid b)
    → (c >>= f) ≢ valid tt
bind_valid (valid b) f n h = n b refl
bind_valid (invalid e) f n h = ground arith
bind_valid crash f n h = ground arith

check_forbidden_iff :
    (env : List (String × String)) (vs : List Yaml)
    → (check_forbidden env vs ≡ valid tt) ↔ All (λ v. env_is_set env v ≡ valid false) vs
unfolding check_forbidden
check_forbidden_iff env [] = (λ h. tt, λ h. refl)
check_forbidden_iff env (v ∷ vs) = elim (Checked-cases (env_is_set env v)) [
  | inl e ↦ rw e (λ h. absurd (ground arith), λ h. absurd (ground arith))
  | inr (inl e) ↦
      rw e (λ h. (refl, (check_forbidden_iff env vs).0 h), λ h. (check_forbidden_iff env vs).1 h.1)
  | inr (inr n) ↦ (λ h. absurd (bind_valid (env_is_set env v) _ n h), λ h. absurd (n false h.0))
]

check_required_iff :
    (env : List (String × String)) (vs : List Yaml)
    → (check_required env vs ≡ valid tt) ↔ All (λ v. env_is_set env v ≡ valid true) vs
unfolding check_required
check_required_iff env [] = (λ h. tt, λ h. refl)
check_required_iff env (v ∷ vs) = elim (Checked-cases (env_is_set env v)) [
  | inr (inl e) ↦ rw e (λ h. absurd (ground arith), λ h. absurd (ground arith))
  | inl e ↦
      rw e (λ h. (refl, (check_required_iff env vs).0 h), λ h. (check_required_iff env vs).1 h.1)
  | inr (inr n) ↦ (λ h. absurd (bind_valid (env_is_set env v) _ n h), λ h. absurd (n true h.0))
]

then_iff : (a b : Checked (Unit {0})) → ((a >> b) ≡ valid tt) ↔ ((a ≡ valid tt) × (b ≡ valid tt))
then_iff (valid u) b = (λ h. (refl, h), λ h. h.1)
then_iff (invalid e) b = (λ h. absurd (ground arith), λ h. absurd (ground arith))
then_iff crash b = (λ h. absurd (ground arith), λ h. absurd (ground arith))

-- The environment's check accepts exactly the environments in which no forbidden variable has a
-- value and every required one has.
pub validate_env_iff :
    (config : RecipeConfig) (env : List (String × String))
    → (validate_env config env ≡ valid tt) ↔ IsAllowed env config
unfolding validate_env
validate_env_iff config env =
    let t =
      then_iff (check_forbidden env config.forbidden_env)
        (check_required env config.required_env) in
    let f = check_forbidden_iff env config.forbidden_env in
    let r = check_required_iff env config.required_env in
    (λ h. record { unset = f.0 (t.0 h).0; set = r.0 (t.0 h).1 }, λ h. t.1 (f.1 h.unset, r.1 h.set))

-- ===== src/Runner/Validator/Latest.antt =====
-- Which evaluation the subquery `ORDER BY re.evaluated_at DESC LIMIT 1` picks.
use reguard.Prelude.{
  ◌≤◌, ◌<◌, ltb, none, some, List, [], ◌∷◌, ◌++◌, ◌≡◌, refl, sym, ap, ◌∙◌, inl, inr, arith, All,
  All-map, All-append, Bool-cases, Option-cases, if◌then◌else◌,
}
use mathlib.Core.Path.{subst}
use reguard.Runner.Tables.{Evaluation}
use reguard.Runner.Validator.{latest_status}

-- Those before it are earlier, and those after it are no later.
abbrev pub IsLatest : List Evaluation → Evaluation → Type 0
IsLatest es e =
    (before : List Evaluation) × (after : List Evaluation) × (es ≡ before ++ (e ∷ after))
    × All (λ f. f.evaluated_at < e.evaluated_at) before
    × All (λ f. f.evaluated_at ≤ e.evaluated_at) after

latest_status-none : (es : List Evaluation) → latest_status es ≡ none → es ≡ []
unfolding latest_status
latest_status-none [] h = refl
latest_status-none (e ∷ es) h = elim (Option-cases (latest_status es)) [
  | inl n ↦ absurd (ground arith)
  | inr (f, n) ↦ elim (Bool-cases (ltb e.evaluated_at f.evaluated_at)) [
    | inl later ↦ absurd (ground arith)
    | inr first ↦ absurd (ground arith)
  ]
]

-- Of an item and the latest of the others, the latest
latest_of :
    (x f : Evaluation) (xs : List Evaluation)
    → latest_status xs ≡ some f
    → latest_status (x ∷ xs) ≡ (if ltb x.evaluated_at f.evaluated_at then some f else some x)
unfolding latest_status
latest_of x f xs h = rw (h, latest_status) refl

latest_alone :
    (x : Evaluation) (xs : List Evaluation)
    → latest_status xs ≡ none
    → latest_status (x ∷ xs) ≡ some x
unfolding latest_status
latest_alone x xs h = rw (h, latest_status) refl

latest_status-All :
    (P : Evaluation → Type 0) (es : List Evaluation) (e : Evaluation)
    → All P es
    → latest_status es ≡ some e
    → P e
unfolding latest_status
latest_status-All P [] e h k = absurd (ground arith)
latest_status-All P (x ∷ xs) e h k = elim (Option-cases (latest_status xs)) [
  | inl n ↦ subst P (ground (arith, latest_alone x xs n)) h.0
  | inr (f, n) ↦ elim (Bool-cases (ltb x.evaluated_at f.evaluated_at)) [
    | inl later ↦ subst P (ground (arith, latest_of x f xs n)) (latest_status-All P xs f h.1 n)
    | inr first ↦ subst P (ground (arith, latest_of x f xs n)) h.0
  ]
]

pub IsLatest-latest_status :
    (es : List Evaluation) (e : Evaluation) → latest_status es ≡ some e → IsLatest es e
unfolding latest_status
IsLatest-latest_status [] e h = absurd (ground arith)
IsLatest-latest_status (x ∷ xs) e h = elim (Option-cases (latest_status xs)) [
  | inl n ↦ subst (IsLatest (x ∷ xs)) (ground (arith, latest_alone x xs n)) (
    [],
    xs,
    refl,
    tt,
    subst (All (λ f. f.evaluated_at ≤ x.evaluated_at)) (sym (latest_status-none xs n)) tt,
  )
  | inr (f, n) ↦
      let (before, after, split, earlier, others) = IsLatest-latest_status xs f n in
      elim (Bool-cases (ltb x.evaluated_at f.evaluated_at)) [
        | inl later ↦ subst (IsLatest (x ∷ xs)) (ground (arith, latest_of x f xs n)) (
          x ∷ before,
          after,
          ap (λ (ys : List Evaluation). x ∷ ys) split,
          (ground arith, earlier),
          others,
        )
        | inr first ↦
            let le : f.evaluated_at ≤ x.evaluated_at = ground arith in
            let P = λ (g : Evaluation). g.evaluated_at ≤ x.evaluated_at in
            subst (IsLatest (x ∷ xs)) (ground (arith, latest_of x f xs n)) (
              [],
              xs,
              refl,
              tt,
              subst (All P) (sym split) (
                  All-append P before (f ∷ after)
                    (All-map (λ g. g.evaluated_at < f.evaluated_at) P before (λ g h. omega arith)
                      earlier)
                    (
                      le,
                      All-map (λ g. g.evaluated_at ≤ f.evaluated_at) P after (λ g h. omega arith)
                          others,
                    )),
            )
      ]
]

found_latest :
    (before after : List Evaluation) (e : Evaluation)
    → All (λ f. f.evaluated_at < e.evaluated_at) before
    → All (λ f. f.evaluated_at ≤ e.evaluated_at) after
    → latest_status (before ++ (e ∷ after)) ≡ some e
found_latest [] after e h k = elim (Option-cases (latest_status after)) [
  | inl n ↦ latest_alone e after n
  | inr (f, n) ↦
      let le = latest_status-All (λ g. g.evaluated_at ≤ e.evaluated_at) after f k n in
      ground (arith, latest_of e f after n)
]
found_latest (b ∷ before) after e h k =
    let rest = found_latest before after e h.1 k in
    ground (arith, latest_of b e (before ++ (e ∷ after)) rest, h.0)

pub latest_status-IsLatest :
    (es : List Evaluation) (e : Evaluation) → IsLatest es e → latest_status es ≡ some e
latest_status-IsLatest es e (before, after, split, earlier, others) =
    ap latest_status split ∙ found_latest before after e earlier others

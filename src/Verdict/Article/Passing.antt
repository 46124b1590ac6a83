-- ===== src/Verdict/Article/Passing.antt =====
-- The verdicts of Article 12(1): when it passes, and what cannot change it.
use mathlib.Core.List.{Perm, Permᴰ}
use mathlib.Core.List.Permᴰ
use mathlib.Core.Path.{subst}
use mathlib.Core.Logic.{∥∥₁_elim}
use reguard.Prelude.{List, [], ◌≡◌, refl, ◌≢◌, ◌↔◌, inl, inr, All, Any, arith}
use reguard.Verdict.Types.{Event, Evidence, RunStatus, pass, fail, unknown, unsupported, error}
use reguard.Verdict.Requirement.{evaluate}
use reguard.Verdict.Article.{article_12_1}
use reguard.Verdict.Reduction.{IsSettled, Observed, Means, evaluate-Means, not_both}
use reguard.Verdict.Article.Recording.{Recorded, assert_evidence_iff}

Recorded-Observed : (ev : Evidence) → Recorded ev → Observed ev
Recorded-Observed ev r = inl (λ e. ground arith)

-- What a verdict of Article 12(1) says of the bundle.
id_iff : (A : Type 0) → A ↔ A
id_iff A = ((λ a. a), λ a. a)

RunStatus-set : IsSet RunStatus
RunStatus-set = hlevel

abbrev pub Says : RunStatus → Evidence → Type 0
Says pass ev = IsSettled ev × Observed ev × Recorded ev
Says fail ev = IsSettled ev × Observed ev × (¬ Recorded ev)
Says unknown ev = IsSettled ev × (¬ Observed ev)
Says unsupported ev = ⊥
Says error ev = ¬ IsSettled ev

Says-of_Means : (s : RunStatus) (ev : Evidence) → Means article_12_1 ev s → Says s ev
Says-of_Means pass ev m = (m.0, m.1, (assert_evidence_iff ev).0 m.2)
Says-of_Means fail ev m = (m.0, m.1, λ r. not_both _ ((assert_evidence_iff ev).1 r) m.2)
Says-of_Means unknown ev m = m
Says-of_Means unsupported ev m = m
Says-of_Means error ev m = m

evaluate-Says : (ev : Evidence) → Says (evaluate article_12_1 ev).status ev
evaluate-Says ev = Says-of_Means _ ev (evaluate-Means article_12_1 ev)

-- Two bundles of which the same holds have one verdict.
Says-functional :
    (s t : RunStatus) (ev ev' : Evidence)
    → (IsSettled ev ↔ IsSettled ev')
    → (Observed ev ↔ Observed ev')
    → (Recorded ev ↔ Recorded ev')
    → Says s ev
    → Says t ev'
    → s ≡ t
Says-functional pass pass ev ev' hs ho hr p q = refl
Says-functional fail fail ev ev' hs ho hr p q = refl
Says-functional unknown unknown ev ev' hs ho hr p q = refl
Says-functional error error ev ev' hs ho hr p q = refl
Says-functional unsupported _ ev ev' hs ho hr p q = absurd p
Says-functional _ unsupported ev ev' hs ho hr p q = absurd q
Says-functional error pass ev ev' hs ho hr p q = absurd (p (hs.1 q.0))
Says-functional error fail ev ev' hs ho hr p q = absurd (p (hs.1 q.0))
Says-functional error unknown ev ev' hs ho hr p q = absurd (p (hs.1 q.0))
Says-functional pass error ev ev' hs ho hr p q = absurd (q (hs.0 p.0))
Says-functional fail error ev ev' hs ho hr p q = absurd (q (hs.0 p.0))
Says-functional unknown error ev ev' hs ho hr p q = absurd (q (hs.0 p.0))
Says-functional pass unknown ev ev' hs ho hr p q = absurd (q.1 (ho.0 p.1))
Says-functional fail unknown ev ev' hs ho hr p q = absurd (q.1 (ho.0 p.1))
Says-functional unknown pass ev ev' hs ho hr p q = absurd (p.1 (ho.1 q.1))
Says-functional unknown fail ev ev' hs ho hr p q = absurd (p.1 (ho.1 q.1))
Says-functional pass fail ev ev' hs ho hr p q = absurd (q.2 (hr.0 p.2))
Says-functional fail pass ev ev' hs ho hr p q = absurd (p.2 (hr.1 q.2))

pass_of_Says : (s : RunStatus) (ev : Evidence) → Says s ev → IsSettled ev → Recorded ev → s ≡ pass
pass_of_Says s ev p settled r =
    Says-functional s pass ev ev (id_iff _) (id_iff _) (id_iff _) p
      (settled, Recorded-Observed ev r, r)

Recorded-of_Says :
    (s : RunStatus) (ev : Evidence) → Says s ev → s ≡ pass → IsSettled ev × Recorded ev
Recorded-of_Says pass ev m e = (m.0, m.2)
Recorded-of_Says fail ev m e = cc
Recorded-of_Says unknown ev m e = cc
Recorded-of_Says unsupported ev m e = absurd m
Recorded-of_Says error ev m e = cc

-- Article 12(1) passes exactly if the bundle is settled (expected schema, clean probe) and recorded:
-- the category is A or B, the framework persisted durably and left an artifact, some step, tool or
-- model event comes from the system, and no event comes from the harness.
pub evaluate-pass_iff :
    (ev : Evidence) → ((evaluate article_12_1 ev).status ≡ pass) ↔ (IsSettled ev × Recorded ev)
evaluate-pass_iff ev =
    (Recorded-of_Says _ ev (evaluate-Says ev), λ r. pass_of_Says _ ev (evaluate-Says ev) r.0 r.1)

module _ (P : Event → Type 0) where
  All-perm : {xs ys : List Event} → Permᴰ xs ys → All P xs → All P ys
  All-perm Permᴰ.nil h = h
  All-perm (Permᴰ.cons e p) h = (subst P e h.0, All-perm p h.1)
  All-perm (Permᴰ.swap e f) h = (subst P f h.1.0, (subst P e h.0, h.1.1))
  All-perm (Permᴰ.trans p q) h = All-perm q (All-perm p h)

  Any-perm : {xs ys : List Event} → Permᴰ xs ys → Any P xs → Any P ys
  Any-perm Permᴰ.nil h = h
  Any-perm (Permᴰ.cons e p) (inl h) = inl (subst P e h)
  Any-perm (Permᴰ.cons e p) (inr h) = inr (Any-perm p h)
  Any-perm (Permᴰ.swap e f) (inl h) = inr (inl (subst P e h))
  Any-perm (Permᴰ.swap e f) (inr (inl h)) = inl (subst P f h)
  Any-perm (Permᴰ.swap e f) (inr (inr h)) = inr (inr h)
  Any-perm (Permᴰ.trans p q) h = Any-perm q (Any-perm p h)

nonempty-perm : {xs ys : List Event} → Permᴰ xs ys → xs ≢ [] → ys ≢ []
nonempty-perm Permᴰ.nil h = h
nonempty-perm (Permᴰ.cons e p) h = λ f. cc
nonempty-perm (Permᴰ.swap e f) h = λ f. cc
nonempty-perm (Permᴰ.trans p q) h = nonempty-perm q (nonempty-perm p h)

abbrev with_events : Evidence → List Event → Evidence
with_events ev events = record ev { events = events }

Observed-perm :
    (ev : Evidence) {xs ys : List Event}
    → Permᴰ xs ys
    → Observed (with_events ev xs)
    → Observed (with_events ev ys)
Observed-perm ev p (inl h) = inl (nonempty-perm p h)
Observed-perm ev p (inr h) = inr h

Recorded-perm :
    (ev : Evidence) {xs ys : List Event}
    → Permᴰ xs ys
    → Recorded (with_events ev xs)
    → Recorded (with_events ev ys)
Recorded-perm ev p r = record {
  genuine = All-perm _ p r.genuine;
  durable_category = r.durable_category;
  persists = r.persists;
  has_artifact = r.has_artifact;
  active = Any-perm _ p r.active;
}

-- The order in which the adapter lists the events never changes the verdict.
pub evaluate-perm :
    (ev : Evidence) (events : List Event)
    → Perm ev.events events
    → (evaluate article_12_1 (with_events ev events)).status ≡ (evaluate article_12_1 ev).status
evaluate-perm ev events p = ∥∥₁_elim p (RunStatus-set _ _) λ d.
    Says-functional _ _ (with_events ev events) ev (id_iff _)
      (Observed-perm ev (Permᴰ.symm d), Observed-perm ev d)
      (Recorded-perm ev (Permᴰ.symm d), Recorded-perm ev d) (evaluate-Says (with_events ev events))
      (evaluate-Says ev)

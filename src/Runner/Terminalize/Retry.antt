-- ===== src/Runner/Terminalize/Retry.antt =====
-- What a locked or failing database does to `terminalize_job`.
use mathlib.Core.Path.{fun_ext, subst}
use native.Mathlib.Nat.{add-zero, zero-add}
use reguard.Prelude.{ℕ, zero, suc, ◌+◌, ◌<◌, ◌≡◌, refl, sym, ◌∙◌, ap, ◌⊎◌, inl, inr, arith}
use reguard.Runner.Tables.{Db}
use reguard.Runner.Terminalize.{
  ◌>>=◌, execute, TerminalPayload, Answer, runs, locked, broken, Outcome, ok, busy, operational,
  conflict, terminal_writes, check_conflict, terminalize_once, terminalize_loop, terminalize_job,
  terminalize_outer_attempts,
}

-- A database on which every statement runs.
abbrev pub calm : ℕ → Answer
calm _ = runs

-- A fault shows as a fault, and as nothing else.
abbrev Faithful {ℓ} : {A : Type ℓ} → Outcome A → Outcome A → Type ℓ
Faithful r quiet = (r ≡ quiet) ⊎ (r ≡ busy) ⊎ (r ≡ operational)

execute-Faithful {ℓ} : {A : Type ℓ} (a : Answer) (x : A) → Faithful (execute a x) (ok x)
execute-Faithful runs x = inl refl
execute-Faithful locked x = inr (inl refl)
execute-Faithful broken x = inr (inr refl)

bind-Faithful {ℓ κ} :
    {A : Type ℓ} {B : Type κ} (m q : Outcome A) (f g : A → Outcome B)
    → Faithful m q
    → ((a : A) → Faithful (f a) (g a))
    → Faithful (m >>= f) (q >>= g)
bind-Faithful m (ok a) f g (inl e) h = rw e (h a)
bind-Faithful m busy f g (inl e) h = rw e (inl refl)
bind-Faithful m operational f g (inl e) h = rw e (inl refl)
bind-Faithful m conflict f g (inl e) h = rw e (inl refl)
bind-Faithful m q f g (inr (inl e)) h = rw e (inr (inl refl))
bind-Faithful m q f g (inr (inr e)) h = rw e (inr (inr refl))

check_conflict-Faithful :
    (a : Answer) (p : TerminalPayload) (db : Db)
    → Faithful (check_conflict a p db) (check_conflict runs p db)
unfolding check_conflict
check_conflict-Faithful runs p db = inl refl
check_conflict-Faithful locked p db = ground arith
check_conflict-Faithful broken p db = ground arith

terminalize_once-Faithful :
    (sqlite : ℕ → Answer) (p : TerminalPayload) (now : ℕ) (db : Db)
    → Faithful (terminalize_once sqlite p now db) (terminalize_once calm p now db)
unfolding terminalize_once
terminalize_once-Faithful sqlite p now db =
    bind-Faithful _ _ _ _ (execute-Faithful (sqlite 0) _) λ updated.
      bind-Faithful _ _ _ _ (check_conflict-Faithful (sqlite 1) p db) λ _.
        bind-Faithful _ _ _ _ (execute-Faithful (sqlite 2) _) λ evaluated.
          bind-Faithful _ _ _ _ (execute-Faithful (sqlite 3) _)
            λ stamped. execute-Faithful (sqlite 4) stamped

-- A commit or a conflict.
abbrev pub IsFinal : Outcome Db → Type 0
IsFinal r = ((db : Db) × (r ≡ ok db)) ⊎ (r ≡ conflict)

check_conflict-calm :
    (p : TerminalPayload) (db : Db)
    → (check_conflict runs p db ≡ ok tt) ⊎ (check_conflict runs p db ≡ conflict)
unfolding check_conflict
check_conflict-calm p db = ground arith

pub terminalize_once-writes :
    (p : TerminalPayload) (now : ℕ) (db : Db)
    → check_conflict runs p db ≡ ok tt
    → terminalize_once calm p now db ≡ ok (terminal_writes p now db)
unfolding terminalize_once terminal_writes
terminalize_once-writes p now db e = rw e

pub terminalize_once-conflict :
    (p : TerminalPayload) (now : ℕ) (db : Db)
    → check_conflict runs p db ≡ conflict
    → terminalize_once calm p now db ≡ conflict
unfolding terminalize_once
terminalize_once-conflict p now db e = rw e

-- On an undisturbed database all writes are made, or none and there is a conflict.
pub terminalize_once_cases :
    (p : TerminalPayload) (now : ℕ) (db : Db)
    → (terminalize_once calm p now db ≡ ok (terminal_writes p now db))
      ⊎ (terminalize_once calm p now db ≡ conflict)
terminalize_once_cases p now db = elim (check_conflict-calm p db) [
  | inl e ↦ inl (terminalize_once-writes p now db e)
  | inr e ↦ inr (terminalize_once-conflict p now db e)
]

terminalize_once-calm :
    (p : TerminalPayload) (now : ℕ) (db : Db) → IsFinal (terminalize_once calm p now db)
terminalize_once-calm p now db = elim (terminalize_once_cases p now db) [
  | inl e ↦ inl (terminal_writes p now db, e)
  | inr e ↦ inr e
]

shift : (a j : ℕ) → a + suc j ≡ suc a + j
shift a j = omega arith

module _ (sqlite : ℕ → ℕ → Answer) (world : ℕ → Db) (p : TerminalPayload) (now : ℕ) where
  -- The attempt met a locked database.
  abbrev pub IsBusy : ℕ → Type 0
  IsBusy i = terminalize_once (sqlite i) p now (world i) ≡ busy

  -- Some attempt of the `left` that begin at `attempt` settles the call: all attempts before it met a
  -- locked database, and the outcome is that of an undisturbed transaction on what it finds committed.
  pub record Settles (left attempt : ℕ) (r : Outcome Db) : Type 0 where
    pub index : ℕ
    pub in_range : index < left
    pub waited : (j : ℕ) → j < index → IsBusy (attempt + j)
    pub settled : r ≡ terminalize_once calm p now (world (attempt + index))

  abbrev Ends : ℕ → ℕ → Outcome Db → Type 0
  Ends left attempt r = Settles left attempt r ⊎ (r ≡ operational)

  at_once :
      (left attempt : ℕ) (r : Outcome Db)
      → r ≡ terminalize_once calm p now (world attempt)
      → Ends (suc left) attempt r
  at_once left attempt r e = inl (record {
    index = 0;
    in_range = omega arith;
    waited = λ j h. absurd (omega arith);
    settled = rw (add-zero attempt) e;
  })

  after_busy :
      (left attempt : ℕ) (r : Outcome Db)
      → IsBusy attempt
      → Ends left (suc attempt) r
      → Ends (suc left) attempt r
  after_busy left attempt r b (inr e) = inr e
  after_busy left attempt r b (inl s) = inl (record {
    index = suc s.index;
    in_range = omega (arith, s.in_range);
    waited = elim [
      | zero ↦ λ h. rw (add-zero attempt) b
      | suc j ↦ λ h. rw (shift attempt j) (s.waited j (omega arith))
    ];
    settled = rw (shift attempt s.index) s.settled;
  })

  terminalize_loop-Ends :
      (left attempt : ℕ) → Ends left attempt (terminalize_loop sqlite world p now left attempt)
  unfolding terminalize_loop
  terminalize_loop-Ends zero attempt = inr refl
  terminalize_loop-Ends (suc left) attempt =
      go (terminalize_once (sqlite attempt) p now (world attempt)) refl
        (terminalize_once-Faithful (sqlite attempt) p now (world attempt))
        (terminalize_loop-Ends left (suc attempt))
    where
      go :
          (o : Outcome Db)
          → terminalize_once (sqlite attempt) p now (world attempt) ≡ o
          → Faithful
              (terminalize_once (sqlite attempt) p now (world attempt))
              (terminalize_once calm p now (world attempt))
          → Ends left (suc attempt) (terminalize_loop sqlite world p now left (suc attempt))
          → Ends (suc left) attempt (terminalize_loop sqlite world p now (suc left) attempt)
      go (ok db) e (inl q) rest = rw (e, terminalize_loop) (at_once left attempt _ (sym e ∙ q))
      go conflict e (inl q) rest = rw (e, terminalize_loop) (at_once left attempt _ (sym e ∙ q))
      go busy e f rest = rw (e, terminalize_loop) (after_busy left attempt _ e rest)
      go operational e f rest = inr (rw (e, terminalize_loop))
      go (ok db) e (inr f) rest = absurd (ground arith)
      go conflict e (inr f) rest = absurd (ground arith)

  -- A call ends in one of two ways. Some one of its ten attempts settles it: every attempt before that
  -- one met a locked database, and the outcome (a commit or a conflict) is that of an undisturbed
  -- transaction on the database which that attempt finds. Or it raises an `OperationalError`.
  pub terminalize_job_ends :
      Settles terminalize_outer_attempts 0 (terminalize_job sqlite world p now)
      ⊎ (terminalize_job sqlite world p now ≡ operational)
  unfolding terminalize_job
  terminalize_job_ends = terminalize_loop-Ends terminalize_outer_attempts 0

  -- At an attempt on which every statement runs, the loop stops.
  stops :
      (left attempt : ℕ)
      → sqlite attempt ≡ calm
      → terminalize_loop sqlite world p now (suc left) attempt
        ≡ terminalize_once calm p now (world attempt)
  unfolding terminalize_loop
  stops left attempt q =
      let e = ap (λ s. terminalize_once s p now (world attempt)) q in
      elim (terminalize_once-calm p now (world attempt)) [
        | inl (d, f) ↦ rw (e ∙ f, terminalize_loop) (sym f)
        | inr f ↦ rw (e ∙ f, terminalize_loop) (sym f)
      ]

  terminalize_loop_succeeds :
      (left attempt i : ℕ)
      → i < left
      → ((j : ℕ) → j < i → IsBusy (attempt + j))
      → ((s : ℕ) → sqlite (attempt + i) s ≡ runs)
      → terminalize_loop sqlite world p now left attempt
        ≡ terminalize_once calm p now (world (attempt + i))
  unfolding terminalize_loop
  terminalize_loop_succeeds zero attempt i h waits quiet = absurd (omega arith)
  terminalize_loop_succeeds (suc left) attempt zero h waits quiet =
      rw (add-zero attempt) (stops left attempt (subst IsQuiet (add-zero attempt) (fun_ext quiet)))
    where
      IsQuiet : ℕ → Type 0
      IsQuiet i = sqlite i ≡ calm
  terminalize_loop_succeeds (suc left) attempt (suc i) h waits quiet =
      rw (subst IsBusy (add-zero attempt) (waits 0 (omega arith)), terminalize_loop)
        (rw (shift attempt i) (
          terminalize_loop_succeeds left (suc attempt) i (omega arith)
            (λ j l. subst IsBusy (shift attempt j) (waits (suc j) (omega arith)))
            (λ s. ap (λ k. sqlite k s) (sym (shift attempt i)) ∙ quiet s)))

  -- A call whose attempts before attempt `i` met a locked database, and whose attempt `i`, one of the
  -- ten, meets a database on which every statement runs, neither fails nor runs out of attempts: it has
  -- the outcome of that attempt's undisturbed transaction, which is a commit or a conflict.
  pub terminalize_job_succeeds :
      (i : ℕ)
      → i < terminalize_outer_attempts
      → ((j : ℕ) → j < i → IsBusy j)
      → ((s : ℕ) → sqlite i s ≡ runs)
      → (terminalize_job sqlite world p now ≡ terminalize_once calm p now (world i))
        × IsFinal (terminalize_job sqlite world p now)
  unfolding terminalize_job
  terminalize_job_succeeds i h waits quiet =
      let e = settled in (e, subst IsFinal (sym e) (terminalize_once-calm p now (world i)))
    where
      settled :
          terminalize_loop sqlite world p now terminalize_outer_attempts 0
          ≡ terminalize_once calm p now (world i)
      settled =
          subst
            (λ k.
              terminalize_loop sqlite world p now terminalize_outer_attempts 0
              ≡ terminalize_once calm p now (world k))
            (zero-add i)
            (terminalize_loop_succeeds terminalize_outer_attempts 0 i h
              (λ j l. subst IsBusy (sym (zero-add j)) (waits j l))
              (λ s. ap (λ k. sqlite k s) (zero-add i) ∙ quiet s))

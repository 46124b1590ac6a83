-- ===== src/Runner/Counter/Admission.antt =====
-- Admission control: how many probes are in flight at once.
use reguard.Prelude.{ℕ, zero, suc, ◌+◌, ◌-◌, ◌≤◌, ◌<◌, true, false, ◌≡◌, refl, ◌∙◌, arith}
use reguard.Runner.Counter.{ActiveContainerCounter, new, acquire, release}

-- The counter with the number of probes that are really running, of callers that were refused and have
-- not called `release` yet, and of those that have.
pub record Pool : Type 0 where
  pub counter : ActiveContainerCounter
  pub open counter use *
  pub running : ℕ
  pub leaving : ℕ
  pub surplus : ℕ

-- The slots are those of the limit and those that refused callers gave back.
pub record IsBalanced (p : Pool) : Type 0 where
  pub total : p.slots + p.running ≡ p.max_active + p.surplus
  pub value_seen : p.value ≤ p.running
  pub running_seen : p.running ≤ p.value + p.surplus
  pub peak_bound : p.peak ≤ p.max_active + p.surplus
  pub peak_seen : p.value ≤ p.peak

abbrev pub start : ℕ → Pool
start n = record { counter = new n; running = 0; leaving = 0; surplus = 0 }

-- What `_process_one_job_thread` does with the counter: a probe starts on a slot that was granted, and
-- gives it back; a caller that is refused calls `release` as well, and goes away.
pub data Step : Pool → Pool → Type 0 where
  granted :
      (p : Pool)
      → (acquire p.counter).0 ≡ true
      → Step p (record p { counter = (acquire p.counter).1; running = p.running + 1 })
  finished :
      (p : Pool)
      → 0 < p.running
      → Step p (record p { counter = release p.counter; running = p.running - 1 })
  refused :
      (p : Pool)
      → (acquire p.counter).0 ≡ false
      → Step p (record p { counter = (acquire p.counter).1; leaving = p.leaving + 1 })
  left :
      (p : Pool)
      → 0 < p.leaving
      → Step p (record p {
        counter = release p.counter;
        leaving = p.leaving - 1;
        surplus = p.surplus + 1;
      })

pub data Reach (p : Pool) : Pool → Type 0 where
  here : Reach p p
  next : {q r : Pool} → Reach p q → Step q r → Reach p r

Step-IsBalanced : {p q : Pool} → Step p q → IsBalanced p → IsBalanced q
unfolding acquire release
Step-IsBalanced (granted p h) b = ground arith
Step-IsBalanced (finished p h) b = ground arith
Step-IsBalanced (refused p h) b = ground arith
Step-IsBalanced (left p h) b = ground arith

Step-max_active : {p q : Pool} → Step p q → q.max_active ≡ p.max_active
unfolding acquire release
Step-max_active (granted p h) = ground arith
Step-max_active (finished p h) = ground arith
Step-max_active (refused p h) = ground arith
Step-max_active (left p h) = ground arith

start-IsBalanced : (n : ℕ) → IsBalanced (start n)
unfolding new
start-IsBalanced n = omega arith

Reach-start : {n : ℕ} {q : Pool} → Reach (start n) q → IsBalanced q × (q.max_active ≡ n)
unfolding new
Reach-start {n} here = (start-IsBalanced n, refl)
Reach-start (next r s) =
    (Step-IsBalanced s (Reach-start r).0, Step-max_active s ∙ (Reach-start r).1)

-- If each call of `acquire` and `release` is one step, then in whatever order the threads of the worker
-- take slots, give back those that they hold, and are refused and call `release` all the same, the number
-- of probes that run at once is at most `max_active` and the number of these surplus releases, and it
-- exceeds the recorded peak by no more than that number, which also bounds the excess of the peak over
-- `max_active`. So without a surplus release at most `max_active` probes run, and the peak has seen them.
pub Reach-bounds :
    (n : ℕ) (q : Pool)
    → Reach (start n) q
    → (q.running ≤ n + q.surplus) × (q.running ≤ q.peak + q.surplus) × (q.peak ≤ n + q.surplus)
Reach-bounds n q r =
    let (b, e) = Reach-start r in
    omega (arith, b.total, b.running_seen, b.peak_seen, b.peak_bound, e)

-- From a full pool one more probe gets a slot.
overcommit :
    (n k : ℕ) (q : Pool)
    → Reach (start n) q
    → q.slots ≡ 0
    → q.surplus ≡ k
    → q.running ≡ n + k
    → (r : Pool) × Reach (start n) r × (r.slots ≡ 0) × (r.surplus ≡ suc k) × (r.running ≡ n + suc k)
unfolding acquire release
overcommit n k q r full s e =
    let waits : Pool = record q { counter = (acquire q.counter).1; leaving = q.leaving + 1 } in
    let gone : Pool = record waits {
      counter = release waits.counter;
      leaving = waits.leaving - 1;
      surplus = waits.surplus + 1;
    } in
    (
      record gone { counter = (acquire gone.counter).1; running = gone.running + 1 },
      next (next (next r (refused q (ground arith))) (left waits (ground arith)))
          (granted gone (ground arith)),
      ground arith,
      ground arith,
      ground arith,
    )

-- Filling the pool
filled :
    (n m : ℕ)
    → m ≤ n
    → (q : Pool) × Reach (start n) q × (q.slots + m ≡ n) × (q.surplus ≡ 0) × (q.running ≡ m)
unfolding acquire new
filled n zero h = (start n, here, omega arith, refl, refl)
filled n (suc m) h =
    let (q, r, s, t, e) = filled n m (omega arith) in
    (
      record q { counter = (acquire q.counter).1; running = q.running + 1 },
      next r (granted q (ground arith)),
      ground arith,
      t,
      omega (arith, e),
    )

overcommitted :
    (n k : ℕ)
    → (q : Pool) × Reach (start n) q × (q.slots ≡ 0) × (q.surplus ≡ k) × (q.running ≡ n + k)
overcommitted n zero =
    let (q, r, s, t, e) = filled n n (omega arith) in (q, r, omega (arith, s), t, omega (arith, e))
overcommitted n (suc k) = let (q, r, s, t, e) = overcommitted n k in overcommit n k q r s t e

-- The limit can be exceeded by any number: if each call of `acquire` and `release` is one step, then for
-- every limit and every number, enough threads of the worker on one counter can come to run that many
-- probes more than `max_active`, by as many releases after a refusal.
pub Reach-overcommits :
    (n k : ℕ) → (q : Pool) × Reach (start n) q × (q.surplus ≡ k) × (q.running ≡ n + k)
Reach-overcommits n k = let (q, r, _, s, e) = overcommitted n k in (q, r, s, e)

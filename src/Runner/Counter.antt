-- ===== src/Runner/Counter.antt =====
-- `ActiveContainerCounter` and `_SemaphoreLike` of src/compliance/corpus_runner/executor.py.
-- A call is one step: the counter has no lock of its own.
pub mod Admission
use reguard.Prelude.{ℕ, suc, ◌+◌, ◌-◌, max, ltb, leb, Bool, true, false, if◌then◌else◌}

pub record ActiveContainerCounter : Type 0 where
  pub max_active : ℕ
  -- `_value`, `_peak` and `_slots._n`
  pub value : ℕ
  pub peak : ℕ
  pub slots : ℕ

unfoldable pub new : ℕ → ActiveContainerCounter
new max_active = record { max_active = max_active; value = 0; peak = 0; slots = max_active }

-- `_SemaphoreLike.acquire` under `ActiveContainerCounter.acquire`
unfoldable pub acquire : ActiveContainerCounter → Bool × ActiveContainerCounter
acquire c = if leb c.slots 0 then (false, c) else (
  true,
  record c {
    value = c.value + 1;
    peak = if ltb c.peak (c.value + 1) then c.value + 1 else c.peak;
    slots = c.slots - 1;
  },
)

-- `max(0, self._value - 1)` is the truncated subtraction.
unfoldable pub release : ActiveContainerCounter → ActiveContainerCounter
release c = record c { value = c.value - 1; slots = c.slots + 1 }

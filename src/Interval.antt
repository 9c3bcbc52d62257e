-- ===== src/Interval.antt =====
-- The threads that work at intervals: `IIntervalThread` (chicken/utils/i_interval_thread.cpp).
pub mod Waking
mod Tests
use cooboc.Base.{
  ℕ, zero, suc, ◌+◌, ◌%◌, Bool, true, false, Option, none, some, List, [], ◌∷◌, ◌==◌, if◌then◌else◌,
}

-- `threads` counts the calls of `pthread_create`.
pub record IntervalThread : Type 0 where
  pub interval : ℕ
  pub is_running : Bool
  pub threads : ℕ

pub new_interval_thread : IntervalThread
new_interval_thread = record { interval = 1000; is_running = false; threads = 0 }

pub set_interval : IntervalThread → ℕ → IntervalThread
set_interval t interval = record t { interval = interval }

pub start : IntervalThread → IntervalThread
start t = if t.is_running then t else record t { is_running = true; threads = t.threads + 1 }

pub starts : ℕ → IntervalThread → IntervalThread
unfolding start
starts zero t = t
starts (suc n) t = starts n (start t)

-- The inner loop of `intervalThreadStart`, over what `millis()` returns from call to call: the reading
-- at which it breaks, or `none` where all of these pass.
pub wait : ℕ → List ℕ → Option ℕ
wait interval [] = none
wait interval (now ∷ later) =
    let rest = wait interval later in if now % interval == 0 then some now else rest

-- A round of the outer loop: whether `isRunning` lets it begin, the interval then set, and the
-- readings that its waiting makes, of which there is one at least.
pub record Round : Type 0 where
  pub is_running : Bool
  pub interval : ℕ
  pub first : ℕ
  pub later : List ℕ

-- How often the outer loop works, over these rounds.
pub works : List Round → ℕ
unfolding wait
works [] = 0
works (r ∷ rs) =
    let rest = works rs in
    if r.is_running
    then suc (elim (wait r.interval (r.first ∷ r.later)) [ none ↦ 0 | some now ↦ rest ])
    else 0

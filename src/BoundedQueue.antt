-- ===== src/BoundedQueue.antt =====
-- projects/high_perf/parallel_data_structures/concurent_queues.h,
-- `class concurent_bounded_try_queue`, and the message queue of safe_queue_cc11.h beside it. Each
-- function holds the mutex from its first access of the state to its last, but for the wait inside
-- `wait_and_pop`, so it is one step, or two there. `int` counters are numbers: none falls below
-- zero in a reachable state. `asleep_pop` is the state of `m_pop_cv`: how many of the threads counted
-- in `m_nblocked_pop` sleep on it. `notify_all` empties it, and a thread that sleeps does not run
-- until it is notified or wakes by itself. Nobody sleeps on `m_push_cv`, where `wait_and_push` waits.
pub mod Traces
pub mod Stopping
pub mod Sleeping
pub mod Messages
mod Tests
use cpp_tricks.Common.{
  ℕ, ◌+◌, ◌-◌, Bool, true, false, not, ◌&&◌, Option, none, some, List, [], ◌∷◌, ◌++◌, ◌==◌,
  if◌then◌else◌,
}

pub record Queue {ℓ} (A : Type ℓ) : Type ℓ where
  pub current_size : ℕ
  pub q : List A
  pub nblocked_pop : ℕ
  pub nblocked_push : ℕ
  pub asleep_pop : ℕ
  pub stopped : Bool
  pub cm_size : ℕ

module _ {ℓ} {A : Type ℓ} where
  abbrev pub make : ℕ → Queue A
  make size = record {
    current_size = 0;
    q = [];
    nblocked_pop = 0;
    nblocked_push = 0;
    asleep_pop = 0;
    stopped = false;
    cm_size = size;
  }

  unfoldable pub is_nil : List A → Bool
  is_nil [] = true
  is_nil (x ∷ xs) = false

  unfoldable pub is_empty : Queue A → Bool
  unfolding is_nil
  is_empty s = is_nil s.q

  abbrev pub size : Queue A → ℕ
  size s = s.current_size

  unfoldable pub try_push : Queue A → A → Queue A × Bool
  try_push s x =
      if s.current_size == s.cm_size
      then (s, false)
      else (record s { q = s.q ++ (x ∷ []); current_size = s.current_size + 1 }, true)

  unfoldable pub pop_front : List A → Option (A × List A)
  pop_front [] = none
  pop_front (x ∷ xs) = some (x, xs)

  unfoldable pub try_pop : Queue A → Queue A × Option A
  unfolding pop_front
  try_pop s = elim (pop_front s.q) [
    | none ↦ (s, none)
    | some (x, rest) ↦ (record s { q = rest; current_size = s.current_size - 1 }, some x)
  ]

  -- `stop`, up to its waits: it notifies every thread that sleeps.
  unfoldable pub stop : Queue A → Queue A
  stop s = record s { stopped = true; asleep_pop = 0 }

  -- `while (m_nblocked_pop) …; while (m_nblocked_push) …` let `stop(true)` return.
  abbrev pub stop_may_return : Queue A → Bool
  stop_may_return s = s.nblocked_pop == 0 && s.nblocked_push == 0

-- What a thread in `wait_and_pop` gets: it blocks, throws, or has an element.
pub data Waited {ℓ} (A : Type ℓ) : Type ℓ where
  blocked thrown : Waited A
  popped : A → Waited A

module _ {ℓ} {A : Type ℓ} where
  -- The test of the loop and what follows it, for a thread that is counted in `m_nblocked_pop` and
  -- runs: it leaves and notifies all, falls asleep, or takes an element.
  unfoldable pub wake : Queue A → Queue A × Waited A
  unfolding pop_front
  wake s =
      if s.stopped
      then (record s { nblocked_pop = s.nblocked_pop - 1; asleep_pop = 0 }, thrown)
      else elim (pop_front s.q) [
        | none ↦ (record s { asleep_pop = s.asleep_pop + 1 }, blocked)
        | some (x, rest) ↦ (record s { q = rest; nblocked_pop = s.nblocked_pop - 1 }, popped x)
      ]

  -- `wait_and_pop` from its entry to its first wait or its return.
  unfoldable pub wait_and_pop : Queue A → Queue A × Waited A
  unfolding wake
  wait_and_pop s = wake (record s { nblocked_pop = s.nblocked_pop + 1 })

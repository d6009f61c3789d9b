-- ===== src/RwSemaphore.antt =====
-- projects/high_perf/rw_semaphore.h, `class rw_semaphore`: a spinning reader-writer lock in one
-- 32-bit word. A thread's position stands between two atomic accesses of `state_`; `yield` does
-- nothing to the state. A schedule says which thread runs next, and for a thread outside the lock
-- whether it calls `lock` or `lock_shared`. The word is a number below 2^32; `& kNumReadersMask`
-- is `% 2^31`, and `kWriteFlag |` adds 2^31 to a number below it. The memory is sequentially
-- consistent.
pub mod Safety
mod Tests
use cpp_tricks.Common.{
  ℕ, ◌+◌, ◌-◌, ◌%◌, ◌^◌, Bool, Option, none, some, List, [], ◌∷◌, ◌==◌, if◌then◌else◌, get_elem?,
  set,
}

abbrev pub write_flag : ℕ
write_flag = 2 ^ 31

-- Where a thread stands. `share`, `unshare` and `claim` hold `cur_state`, read before the next
-- compare-and-swap of `lock_shared`, `unlock_shared` and `lock`; `drain` is `WaitPendingReaders`,
-- `releasing` stands between the DCHECK of `unlock` and its store. `aborted` is a failed DCHECK.
pub data Pc : Type 0 where
  idle reading drain writing releasing aborted : Pc
  share unshare claim : ℕ → Pc

-- `CompareAndSwap(&state_, expected, new)`: the thread goes to `won`, or to `lost` with the value
-- that it found.
unfoldable pub compare_and_swap : ℕ → ℕ → ℕ → Pc → (ℕ → Pc) → ℕ × Pc
compare_and_swap word expected new won lost =
    if word == expected then (new, won) else (word, lost word)

-- One access of `state_` by a thread. `wants_write` is read where the thread is outside the lock.
unfoldable pub step_thread : Bool → ℕ → Pc → ℕ × Pc
unfolding compare_and_swap
step_thread wants_write word idle = (word, if wants_write then claim word else share word)
step_thread wants_write word (share cur) =
    compare_and_swap word (cur % 2 ^ 31) ((cur % 2 ^ 31 + 1) % 2 ^ 32) reading share
step_thread wants_write word reading = (word, unshare word)
step_thread wants_write word (unshare cur) =
    if cur % 2 ^ 31 == 0
    then (word, aborted)
    else compare_and_swap word cur ((cur + 2 ^ 32 - 1) % 2 ^ 32) idle unshare
step_thread wants_write word (claim cur) =
    compare_and_swap word (cur % 2 ^ 31) (write_flag + cur % 2 ^ 31) drain claim
step_thread wants_write word drain = (word, if word % 2 ^ 31 == 0 then writing else drain)
step_thread wants_write word writing = (word, if word == write_flag then releasing else aborted)
step_thread wants_write word releasing = (0, idle)
step_thread wants_write word aborted = (word, aborted)

pub record System : Type 0 where
  pub word : ℕ
  pub threads : List Pc

-- A step by thread `i`; a thread that is not there does nothing.
unfoldable pub step : System → ℕ → Bool → System
unfolding step_thread
step s i wants_write = elim (get_elem? s.threads i) [
  | none ↦ s
  | some pc ↦
      let (word, pc') = step_thread wants_write s.word pc in
      record { word = word; threads = set s.threads i pc' }
]

unfoldable pub run : System → List (ℕ × Bool) → System
unfolding step
run s [] = s
run s ((i, wants_write) ∷ rest) = run (step s i wants_write) rest

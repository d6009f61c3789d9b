-- ===== src/Knapsack/Tasks.antt =====
-- edu/courses/stanford2/cc/w3_dyn_pro_parallel.cc: the knapsack by tasks that share a table of
-- solved tasks. `KnapsackTaskSerial` waits for its two children; `KnapsackTaskFuture` leaves them a
-- continuation, `Future`, which runs behind both: `waiting` stands for either. One step is a call
-- of the table with what a task does by itself behind it; TBB chooses which task makes the next
-- step. Its table is as the hash table of w3_dyn_pro.cc: `insert` leaves an entry that is there.
use cpp_tricks.Common.{
  ℕ, ◌+◌, ◌-◌, max, ◌||◌, Option, none, some, List, [], ◌∷◌, ltb, ◌==◌, if◌then◌else◌, ◌>>=◌,
  get_elem?,
}
use cpp_tricks.Knapsack.{Item, TaskId, Store, find, insert}

-- A task: not begun, waiting with its `delta` for its children `a` and `b`, about to insert its
-- result, or done with it.
pub data Task : Type 0 where
  begun : TaskId → Task
  waiting : TaskId → ℕ → Task → Task → Task
  solved : TaskId → ℕ → Task
  finished : ℕ → Task

-- `work_id` and `delta`, `old_task`, and the children.
unfoldable pub spawn : TaskId → Item → Task
spawn id item =
    let n = id.idx - 1 in
    let old_task = begun (record { w_bound = id.w_bound; idx = n }) in
    if ltb id.w_bound item.w
    then waiting id 0 old_task old_task
    else waiting id item.v (begun (record { w_bound = id.w_bound - item.w; idx = n })) old_task

-- `execute` up to the wait.
unfoldable pub execute : List Item → TaskId → Store → Option Task
unfolding spawn find
execute items id store = elim (find id store) [
  | some x ↦ some (finished x)
  | none ↦
      if id.idx == 0 || id.w_bound == 0
      then some (finished 0)
      else (get_elem? items (id.idx - 1) >>= λ item. some (spawn id item))
]

-- The way from a task to the task that makes the step.
pub data Child : Type 0 where
  child_a child_b : Child

-- `none` is a task that can make no step, or an access out of range.
unfoldable pub step_task : List Item → List Child → Task → Store → Option (Task × Store)
unfolding execute insert
step_task items [] (begun id) store = execute items id store >>= λ t. some (t, store)
step_task items [] (waiting id delta (finished x) (finished y)) store =
    some (solved id (max (x + delta) y), store)
step_task items [] (waiting id delta a b) store = none
step_task items [] (solved id r) store = some (finished r, insert id r store)
step_task items [] (finished r) store = none
step_task items (child_a ∷ path) (waiting id delta a b) store =
    step_task items path a store >>= λ (a', store'). some (waiting id delta a' b, store')
step_task items (child_b ∷ path) (waiting id delta a b) store =
    step_task items path b store >>= λ (b', store'). some (waiting id delta a b', store')
step_task items (c ∷ path) t store = none

-- Steps in the order of a schedule.
unfoldable pub run_tasks : List Item → List (List Child) → Task → Store → Option (Task × Store)
unfolding step_task
run_tasks items [] t store = some (t, store)
run_tasks items (path ∷ schedule) t store =
    step_task items path t store >>= λ (t', store'). run_tasks items schedule t' store'

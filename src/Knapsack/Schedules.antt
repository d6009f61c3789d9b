-- ===== src/Knapsack/Schedules.antt =====
-- w3_dyn_pro_parallel.cc: under every schedule the tasks end, with what the plain recursion returns.
use cpp_tricks.Common.{
  ℕ, zero, suc, ◌+◌, ◌-◌, ◌≤◌, max, ◌≡◌, refl, ap, ◌∙◌, subst, false, ◌||◌, Option, none, some,
  List, [], ◌∷◌, ◌==◌, if◌then◌else◌, ◌>>=◌, length, get_elem?, get_elem?_of_lt, some_injective,
  Bool-cases, Option-cases, inl, inr, ◌⊎◌, arith,
}
use cpp_tricks.Knapsack.{Item, knap_sack_exp, Store, find, insert}
use cpp_tricks.Knapsack.Memo.{IsConsistent}
use cpp_tricks.Knapsack.Tasks.{
  Task, begun, waiting, solved, finished, spawn, execute, Child, child_a, child_b, step_task,
  run_tasks,
}
use cpp_tricks.Knapsack.Steps.{
  cost, steps_left, Solves, Holds, Good, nothing-IsConsistent, exp-total, step_task-Good,
}

-- A task that can make a step of itself or of a child.
abbrev pub CanStep : List Item → Task → Store → Type 0
CanStep items t store =
    (path : List Child) × (next : Task × Store) × (step_task items path t store ≡ some next)

execute-some :
    (items : List Item) (w n : ℕ) (store : Store)
    → n ≤ length items
    → (t : Task) × (execute items (record { w_bound = w; idx = n }) store ≡ some t)
unfolding execute
execute-some items w n store le =
    elim (Option-cases (find (record { w_bound = w; idx = n }) store)) [
      | inr (x, old) ↦ (finished x, rw (execute, old) refl)
      | inl new ↦ let (t, e) = searched n le in (t, rw (execute, new) e)
    ]
  where
    searched :
        (n : ℕ)
        → n ≤ length items
        → (t : Task) × ((if n == 0 || w == 0
              then some (finished 0)
              else (get_elem? items (n - 1) >>= λ item.
                  some (spawn (record { w_bound = w; idx = n }) item)))
            ≡ some t)
    searched zero le = (finished 0, refl)
    searched (suc n) le =
        let (item, here) = get_elem?_of_lt items n (omega (arith, le)) in
        let some_items : suc n == 0 ≡ false = ground arith in
        let last : suc n - 1 ≡ n = omega arith in
        let found : get_elem? items (suc n - 1) ≡ some item = ap (get_elem? items) last ∙ here in
        elim (Bool-cases (w == 0)) [
          | inl full ↦ (finished 0, rw (some_items, full) refl)
          | inr room ↦
              (spawn (record { w_bound = w; idx = suc n }) item, rw (some_items, room, found) refl)
        ]

-- A task on its way is done, or it can go on.
Solves-CanStep :
    (items : List Item) (t : Task) (store : Store) (r : ℕ)
    → Solves items t r
    → CanStep items t store ⊎ (t ≡ finished r)
unfolding step_task
Solves-CanStep items (begun id) store r (le, e) =
    let (t, run) = execute-some items id.w_bound id.idx store le in
    inl ([], (t, store), rw (step_task, run) refl)
Solves-CanStep items (waiting id delta a b) store r (e, x, y, ka, kb, best) =
    elim (Solves-CanStep items a store x ka) [
      | inl (path, (a', store'), run) ↦
          inl (child_a ∷ path, (waiting id delta a' b, store'), rw (step_task, run) refl)
      | inr ea ↦ elim (Solves-CanStep items b store y kb) [
        | inl (path, (b', store'), run) ↦
            inl (child_b ∷ path, (waiting id delta a b', store'), rw (step_task, run) refl)
        | inr eb ↦ inl ([], (solved id (max (x + delta) y), store), rw (ea, eb) refl)
      ]
    ]
Solves-CanStep items (solved id x) store r k = inl ([], (finished x, insert id x store), refl)
Solves-CanStep items (finished x) store r k = inr (ap finished k)

Good-of :
    (items : List Item) (o : Option (Task × Store)) (before r : ℕ) (t : Task) (store : Store)
    → Holds o (Good items before r)
    → o ≡ some (t, store)
    → Good items before r t store
Good-of items o before r t store k e = subst (λ q. Holds q (Good items before r)) e k

run_tasks-Solves :
    (items : List Item) (schedule : List (List Child)) (t : Task) (store : Store) (r : ℕ)
    (t' : Task) (store' : Store)
    → Solves items t r
    → IsConsistent items store
    → run_tasks items schedule t store ≡ some (t', store')
    → (length schedule + steps_left t' ≤ steps_left t)
      × Solves items t' r
      × IsConsistent items store'
unfolding run_tasks
run_tasks-Solves items [] t store r t' store' k c run =
    let same : (t, store) ≡ (t', store') = some_injective run in
    subst (λ q. (0 + steps_left q.0 ≤ steps_left t) × Solves items q.0 r × IsConsistent items q.1)
      same (omega arith, k, c)
run_tasks-Solves items (path ∷ schedule) t store r t' store' k c run =
    elim (Option-cases (step_task items path t store)) [
      | inl stuck ↦ let clash : none ≡ some (t', store') = rw (run_tasks, stuck) at run in cc
      | inr ((t1, store1), step) ↦
          let (less, k1, c1) =
            Good-of items _ (steps_left t) r t1 store1 (step_task-Good items path t store r k c)
              step in
          let (bound, k', c') =
            run_tasks-Solves items schedule t1 store1 r t' store' k1 c1
              (rw (run_tasks, step) at run) in
          (omega (arith, less, bound), k', c')
    ]

-- Over the first n items, all in range, from an empty table, every schedule has at most `cost n`
-- steps; behind it the tasks can make a step, or the root is done with what knapSackExp returns;
-- and every entry of the table is what knapSackExp returns.
pub tasks-exp :
    (items : List Item) (w n : ℕ) (schedule : List (List Child)) (t : Task) (store : Store)
    → n ≤ length items
    → run_tasks items schedule (begun (record { w_bound = w; idx = n })) [] ≡ some (t, store)
    → (length schedule ≤ cost n)
      × (CanStep items t store ⊎ ((r : ℕ) × (t ≡ finished r) × (knap_sack_exp items w n ≡ some r)))
      × IsConsistent items store
tasks-exp items w n schedule t store le run =
    let (r, e) = exp-total items w n le in
    let (bound, k, c) =
      run_tasks-Solves items schedule (begun (record { w_bound = w; idx = n })) [] r t store (le, e)
        (nothing-IsConsistent items) run in
    (
      omega (arith, bound),
      elim (Solves-CanStep items t store r k) [ inl next ↦ inl next | inr same ↦ inr (r, same, e) ],
      c,
    )

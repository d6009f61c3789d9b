-- ===== src/Knapsack/Steps.antt =====
-- w3_dyn_pro_parallel.cc: a step leaves a task on the way to its result, with fewer steps left.
use cpp_tricks.Common.{
  ℕ, zero, suc, ◌+◌, ◌-◌, ◌*◌, ◌≤◌, ◌<◌, max, ◌≡◌, ap, sym, ◌∙◌, false, ◌||◌, Option, none, some,
  List, [], ◌∷◌, ltb, ◌==◌, if◌then◌else◌, ◌>>=◌, length, get_elem?, get_elem?_of_lt,
  some_injective, Bool-cases, Option-cases, inl, inr, arith,
}
use cpp_tricks.Knapsack.{Item, knap_sack_exp, Store, find}
use cpp_tricks.Knapsack.Memo.{IsConsistent, insert-IsConsistent, knap_sack_hashtable-exp}
use cpp_tricks.Knapsack.Tasks.{
  Task, begun, waiting, solved, finished, spawn, execute, Child, child_a, child_b, step_task,
}

-- The steps that a task over n items can take, with all its children.
unfoldable pub cost : ℕ → ℕ
cost zero = 1
cost (suc n) = 2 * cost n + 3

-- The steps that a task has left.
abbrev pub steps_left : Task → ℕ
steps_left (begun id) = cost id.idx
steps_left (waiting id delta a b) = steps_left a + steps_left b + 2
steps_left (solved id r) = 1
steps_left (finished r) = 0

-- The task is on the way to `r`, the result of the plain recursion.
abbrev pub Solves : List Item → Task → ℕ → Type 0
Solves items (begun id) r =
    (id.idx ≤ length items) × (knap_sack_exp items id.w_bound id.idx ≡ some r)
Solves items (waiting id delta a b) r =
    (knap_sack_exp items id.w_bound id.idx ≡ some r)
    × (x : ℕ) × (y : ℕ) × Solves items a x
    × Solves items b y
    × (max (x + delta) y ≡ r)
Solves items (solved id x) r = (x ≡ r) × (knap_sack_exp items id.w_bound id.idx ≡ some r)
Solves items (finished x) r = x ≡ r

pub nothing-IsConsistent : (items : List Item) → IsConsistent items []
unfolding find
nothing-IsConsistent items id x f = let clash : ⊥ = cc in absurd clash

pub exp-total :
    (items : List Item) (w n : ℕ) → n ≤ length items → (r : ℕ) × (knap_sack_exp items w n ≡ some r)
exp-total items w n le =
    let (r, store, e, _, _) =
      knap_sack_hashtable-exp items w n [] le (nothing-IsConsistent items) in
    (r, e)

cost_positive : (n : ℕ) → 0 < cost n
unfolding cost
cost_positive zero = omega arith
cost_positive (suc n) = omega arith

-- What a step leaves, where there is one.
abbrev pub Holds : Option (Task × Store) → (Task → Store → Type 0) → Type 0
Holds none P = Unit {0}
Holds (some (t, store)) P = P t store

abbrev pub Good : List Item → ℕ → ℕ → Task → Store → Type 0
Good items before r t store = (steps_left t < before) × Solves items t r × IsConsistent items store

spawn-Solves :
    (items : List Item) (w n r : ℕ) (item : Item)
    → get_elem? items n ≡ some item
    → n < length items
    → w == 0 ≡ false
    → knap_sack_exp items w (suc n) ≡ some r
    → Solves items (spawn (record { w_bound = w; idx = suc n }) item) r
unfolding spawn knap_sack_exp
spawn-Solves items w n r item here lt room e =
    let last : suc n - 1 ≡ n = omega arith in
    let (y, ey) = exp-total items w n (omega (arith, lt)) in
    elim (Bool-cases (ltb w item.w)) [
      | inl heavy ↦
          let whole : knap_sack_exp items w n ≡ some r = rw (room, here, heavy) at e in
          rw (heavy, last)
            (e, r, r, (omega (arith, lt), whole), (omega (arith, lt), whole), omega arith)
      | inr light ↦
          let (x, ex) = exp-total items (w - item.w) n (omega (arith, lt)) in
          let best : some (max (x + item.v) y) ≡ some r = rw (room, here, light, ex, ey) at e in
          rw (light, last)
            (e, x, y, (omega (arith, lt), ex), (omega (arith, lt), ey), some_injective best)
    ]

steps_left-spawn :
    (w n : ℕ) (item : Item)
    → steps_left (spawn (record { w_bound = w; idx = suc n }) item) < cost (suc n)
unfolding spawn cost
steps_left-spawn w n item =
    let last : suc n - 1 ≡ n = omega arith in
    elim (Bool-cases (ltb w item.w)) [
      | inl heavy ↦ rw (heavy, last) (omega arith)
      | inr light ↦ rw (light, last) (omega arith)
    ]

execute-Good :
    (items : List Item) (w n r : ℕ) (store : Store)
    → n ≤ length items
    → knap_sack_exp items w n ≡ some r
    → IsConsistent items store
    → Holds
        (execute items (record { w_bound = w; idx = n }) store >>= λ t. some (t, store))
        (Good items (cost n) r)
unfolding execute knap_sack_exp
execute-Good items w n r store le e c =
    elim (Option-cases (find (record { w_bound = w; idx = n }) store)) [
      | inr (x, old) ↦
          rw (old, execute)
            (
              cost_positive n,
              some_injective (sym (c (record { w_bound = w; idx = n }) x old) ∙ e),
              c,
            )
      | inl new ↦ rw (new, execute) (searched n le e)
    ]
  where
    searched :
        (n : ℕ)
        → n ≤ length items
        → knap_sack_exp items w n ≡ some r
        → Holds
            ((if n == 0 || w == 0
                then some (finished 0)
                else (get_elem? items (n - 1) >>= λ item.
                    some (spawn (record { w_bound = w; idx = n }) item)))
              >>= λ t. some (t, store))
            (Good items (cost n) r)
    searched zero le e = (cost_positive zero, some_injective e, c)
    searched (suc n) le e =
        let (item, here) = get_elem?_of_lt items n (omega (arith, le)) in
        let some_items : suc n == 0 ≡ false = ground arith in
        let last : suc n - 1 ≡ n = omega arith in
        let found : get_elem? items (suc n - 1) ≡ some item = ap (get_elem? items) last ∙ here in
        elim (Bool-cases (w == 0)) [
          | inl full ↦
              rw (some_items, full) (cost_positive (suc n), some_injective (rw full at e), c)
          | inr room ↦
              rw (some_items, room, found)
                (
                  steps_left-spawn w n item,
                  spawn-Solves items w n r item here (omega (arith, le)) room e,
                  c,
                )
        ]

Holds-child :
    (o : Option (Task × Store)) (P : Task → Store → Type 0) (Q : Task → Store → Type 0)
    (f : Task → Task)
    → ((t : Task) (store : Store) → P t store → Q (f t) store)
    → Holds o P
    → Holds (o >>= λ (t, store). some (f t, store)) Q
Holds-child none P Q f h k = tt
Holds-child (some (t, store)) P Q f h k = h t store k

-- A step of a task on its way leaves it on its way with fewer steps left, and the table right.
pub step_task-Good :
    (items : List Item) (path : List Child) (t : Task) (store : Store) (r : ℕ)
    → Solves items t r
    → IsConsistent items store
    → Holds (step_task items path t store) (Good items (steps_left t) r)
unfolding step_task
step_task-Good items [] (begun id) store r (le, e) c =
    execute-Good items id.w_bound id.idx r store le e c
step_task-Good items [] (waiting id delta (finished x) (finished y)) store r
      (e, x', y', ex, ey, best) c =
    (omega arith, (rw (ex, ey) best, e), c)
step_task-Good items [] (waiting id delta a b) store r k c = tt
step_task-Good items [] (solved id x) store r (same, e) c =
    (omega arith, same, insert-IsConsistent items id x store (rw same e) c)
step_task-Good items [] (finished x) store r k c = tt
step_task-Good items (child_a ∷ path) (waiting id delta a b) store r (e, x, y, ka, kb, best) c =
    Holds-child (step_task items path a store) (Good items (steps_left a) x) _
      (λ a'. waiting id delta a' b)
      (λ a' store' (less, ka', c'). (omega (arith, less), (e, x, y, ka', kb, best), c'))
      (step_task-Good items path a store x ka c)
step_task-Good items (child_b ∷ path) (waiting id delta a b) store r (e, x, y, ka, kb, best) c =
    Holds-child (step_task items path b store) (Good items (steps_left b) y) _
      (λ b'. waiting id delta a b')
      (λ b' store' (less, kb', c'). (omega (arith, less), (e, x, y, ka, kb', best), c'))
      (step_task-Good items path b store y kb c)
step_task-Good items (child ∷ path) t store r k c = tt

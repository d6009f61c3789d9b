-- ===== src/Knapsack/Tests.antt =====
-- The items of `get_test_items` (edu/courses/my-cs/details/io_details.cc), and others.
use cpp_tricks.Common.{
  ℕ, zero, suc, ◌≤◌, ◌≡◌, refl, some, List, [], ◌∷◌, arith, get_elem?, length, ◌>>=◌, ◌⊎◌,
}
use cpp_tricks.Knapsack.{Item, knap_sack_exp, Store, find, knap_sack_hashtable}
use cpp_tricks.Knapsack.Optimal.{IsBest, IsSane, knap_sack_exp-IsBest}
use cpp_tricks.Knapsack.Memo.{IsConsistent, knap_sack_hashtable-exp}
use cpp_tricks.Knapsack.Nested.{Row, find_2d, knap_sack_hashtable_2d}
use cpp_tricks.Knapsack.NestedExp.{AreResults, knap_sack_hashtable_2d-exp}
use cpp_tricks.Knapsack.Tasks.{begun, finished, Child, child_a, child_b, run_tasks}
use cpp_tricks.Knapsack.Steps.{cost}
use cpp_tricks.Knapsack.Schedules.{CanStep, tasks-exp}
use cpp_tricks.Knapsack.Table.{table, IsHeavy, IsRow, table-exp}

abbrev real_items : List Item
real_items =
    record { v = 3; w = 4 }
    ∷ record { v = 2; w = 3 }
    ∷ record { v = 4; w = 2 }
    ∷ record { v = 4; w = 3 }
    ∷ []

abbrev test_items : List Item
test_items = record { v = 0; w = 0 } ∷ real_items

best_value : knap_sack_exp test_items 6 5 ≡ some 8
unfolding knap_sack_exp
best_value = refl

sane : IsSane test_items
sane zero item e f = ground arith
sane (suc i) item e f = absurd (heavy_items i item e f)
  where
    heavy_items : (i : ℕ) (item : Item) → get_elem? real_items i ≡ some item → item.w ≡ 0 → ⊥
    heavy_items zero item e f = ground arith
    heavy_items (suc zero) item e f = ground arith
    heavy_items (suc (suc zero)) item e f = ground arith
    heavy_items (suc (suc (suc zero))) item e f = ground arith
    heavy_items (suc (suc (suc (suc i)))) item e f = cc

heavy : IsHeavy real_items
heavy zero item e = ground arith
heavy (suc zero) item e = ground arith
heavy (suc (suc zero)) item e = ground arith
heavy (suc (suc (suc zero))) item e = ground arith
heavy (suc (suc (suc (suc i)))) item e = cc

-- A weightless item of value is missed once the bound is used up.
weightless_missed : knap_sack_exp (record { v = 5; w = 0 } ∷ []) 0 1 ≡ some 0
unfolding knap_sack_exp
weightless_missed = refl

knap_sack_exp-IsBest_example :
    (r : ℕ) × (knap_sack_exp test_items 6 5 ≡ some r) × IsBest test_items 6 5 r
knap_sack_exp-IsBest_example = knap_sack_exp-IsBest test_items 6 5 (omega arith) sane

empty_store : IsConsistent test_items []
unfolding find
empty_store id x e = cc

knap_sack_hashtable-exp_example :
    (r : ℕ) × (store : Store) × (knap_sack_exp test_items 6 5 ≡ some r)
    × (knap_sack_hashtable test_items 6 5 [] ≡ some (r, store))
    × IsConsistent test_items store
knap_sack_hashtable-exp_example =
    knap_sack_hashtable-exp test_items 6 5 [] (omega arith) empty_store

table-exp_example :
    (rows : List (List ℕ)) × (table 6 real_items ≡ some rows)
    × ((i : ℕ)
        → i ≤ length real_items
        → (row : List ℕ) × (get_elem? rows i ≡ some row) × IsRow 6 real_items i row)
table-exp_example = table-exp 6 real_items heavy

-- Two items: the tasks take turns.
abbrev turns : List (List Child)
turns =
    []
    ∷ (child_a ∷ [])
    ∷ (child_b ∷ [])
    ∷ (child_b ∷ child_a ∷ [])
    ∷ (child_a ∷ child_b ∷ [])
    ∷ (child_a ∷ child_a ∷ [])
    ∷ (child_b ∷ child_b ∷ [])
    ∷ (child_b ∷ [])
    ∷ (child_a ∷ [])
    ∷ (child_a ∷ [])
    ∷ (child_b ∷ [])
    ∷ []
    ∷ []
    ∷ []

abbrev turned : Store
turned =
    (record { w_bound = 6; idx = 2 }, 3)
    ∷ (record { w_bound = 6; idx = 1 }, 3)
    ∷ (record { w_bound = 3; idx = 1 }, 0)
    ∷ []

turns-run :
    run_tasks real_items turns (begun (record { w_bound = 6; idx = 2 })) []
    ≡ some (finished 3, turned)
unfolding run_tasks
turns-run = refl

tasks-exp_example :
    (length turns ≤ cost 2)
    × (CanStep real_items (finished 3) turned
        ⊎ ((r : ℕ) × (finished 3 ≡ finished r) × (knap_sack_exp real_items 6 2 ≡ some r)))
    × IsConsistent real_items turned
tasks-exp_example = tasks-exp real_items 6 2 turns (finished 3) turned (omega arith) turns-run

-- The result of the two first items is found in the table of tables.
nested-run : (knap_sack_hashtable_2d real_items 6 2 [] >>= λ (r, store). find_2d 6 2 store) ≡ some 3
unfolding knap_sack_hashtable_2d find_2d
nested-run = refl

empty_nested : AreResults test_items []
unfolding find_2d
empty_nested w n x e = cc

knap_sack_hashtable_2d-exp_example :
    (r : ℕ) × (store : List (ℕ × Row)) × (knap_sack_exp test_items 6 5 ≡ some r)
    × (knap_sack_hashtable_2d test_items 6 5 [] ≡ some (r, store))
    × AreResults test_items store
knap_sack_hashtable_2d-exp_example =
    knap_sack_hashtable_2d-exp test_items 6 5 [] (omega arith) empty_nested

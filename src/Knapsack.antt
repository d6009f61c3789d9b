-- ===== src/Knapsack.antt =====
-- edu/courses/stanford2/cc: the knapsack of w3_lession_code.cc, by plain recursion and by a table,
-- and of w3_dyn_pro.cc, with a hash table of solved tasks. Weights and values are numbers: the
-- `int`s of the source, below the range where sums overflow and not negative. `none` is an access
-- out of range. The hash tables are association lists: the library's maps, of which the code uses
-- `find` and `insert`, which keeps an old entry.
pub mod Optimal
pub mod Memo
pub mod Table
pub mod Nested
pub mod NestedExp
pub mod Tasks
pub mod Steps
pub mod Schedules
mod Tests
use cpp_tricks.Common.{
  ℕ, zero, suc, ◌+◌, ◌-◌, max, Bool, true, false, ◌&&◌, Option, none, some, List, [], ◌∷◌, ltb,
  ◌==◌, if◌then◌else◌, ◌>>=◌, get_elem?,
}

-- `Item`
pub record Item : Type 0 where
  pub v : ℕ
  pub w : ℕ

-- `knapSackExp(w_bound, n, items)`
unfoldable pub knap_sack_exp : List Item → ℕ → ℕ → Option ℕ
knap_sack_exp items w_bound zero = some 0
knap_sack_exp items w_bound (suc n) =
    if w_bound == 0
    then some 0
    else (get_elem? items n >>= λ item.
        let without = knap_sack_exp items w_bound n in
        let best = knap_sack_exp items (w_bound - item.w) n >>= λ taken.
        without >>= λ left. some (max (taken + item.v) left) in
        if ltb w_bound item.w then without else best)

-- `knapSack(W, wt, val, n)`
unfoldable pub knap_sack : ℕ → List ℕ → List ℕ → ℕ → Option ℕ
knap_sack w_bound wt val zero = some 0
knap_sack w_bound wt val (suc n) =
    if w_bound == 0
    then some 0
    else (get_elem? wt n >>= λ w.
        let without = knap_sack w_bound wt val n in
        let best = knap_sack (w_bound - w) wt val n >>= λ taken.
        get_elem? val n >>= λ v. without >>= λ left. some (max (taken + v) left) in
        if ltb w_bound w then without else best)

-- `TaskId` and `KeyEqual`
pub record TaskId : Type 0 where
  pub w_bound : ℕ
  pub idx : ℕ

abbrev pub key_equal : TaskId → TaskId → Bool
key_equal l r = l.idx == r.idx && l.w_bound == r.w_bound

abbrev pub Store : Type 0
Store = List (TaskId × ℕ)

unfoldable pub find : TaskId → Store → Option ℕ
find id [] = none
find id ((k, x) ∷ rest) = if key_equal k id then some x else find id rest

-- A key that is there keeps its value.
unfoldable pub insert : TaskId → ℕ → Store → Store
unfolding find
insert id x store = elim (find id store) [ none ↦ (id, x) ∷ store | some _ ↦ store ]

-- `knapSack_hashtable(id, items, store)`
unfoldable pub knap_sack_hashtable : List Item → ℕ → ℕ → Store → Option (ℕ × Store)
unfolding find insert
knap_sack_hashtable items w_bound zero store =
    elim (find (record { w_bound = w_bound; idx = 0 }) store) [
      | some x ↦ some (x, store)
      | none ↦ some (0, store)
    ]
knap_sack_hashtable items w_bound (suc n) store =
    let id : TaskId = record { w_bound = w_bound; idx = suc n } in
    let without = knap_sack_hashtable items w_bound n in
    let solve = get_elem? items n >>= λ item.
    let with_item = knap_sack_hashtable items (w_bound - item.w) n store in
    let best = with_item >>= λ (taken, store'). without store' >>= λ (left, store'').
    some (max (taken + item.v) left, insert id (max (taken + item.v) left) store'') in
    if ltb w_bound item.w then without store else best in
    elim (find id store) [
      | some x ↦ some (x, store)
      | none ↦ if w_bound == 0 then some (0, store) else solve
    ]

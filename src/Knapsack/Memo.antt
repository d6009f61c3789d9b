-- ===== src/Knapsack/Memo.antt =====
-- w3_dyn_pro.cc: the hash table of solved tasks changes no result.
use cpp_tricks.Common.{
  ℕ, zero, suc, ◌+◌, ◌-◌, ◌≤◌, max, ◌≡◌, refl, some, List, ◌∷◌, arith, ltb, ◌==◌, length,
  get_elem?_of_lt, Bool-cases, Option-cases, inl, inr, ap,
}
use cpp_tricks.Knapsack.{
  Item, knap_sack_exp, TaskId, key_equal, Store, find, insert, knap_sack_hashtable,
}

-- Every entry is what the recursion returns.
abbrev pub IsConsistent : List Item → Store → Type 0
IsConsistent items store =
    (id : TaskId) (x : ℕ) → find id store ≡ some x → knap_sack_exp items id.w_bound id.idx ≡ some x

pub insert-IsConsistent :
    (items : List Item) (id : TaskId) (x : ℕ) (store : Store)
    → knap_sack_exp items id.w_bound id.idx ≡ some x
    → IsConsistent items store
    → IsConsistent items (insert id x store)
unfolding insert
insert-IsConsistent items id x store e c k y f = elim (Option-cases (find id store)) [
  | inr (z, old) ↦ c k y (rw (old, insert) at f)
  | inl new ↦
      let f' : find k ((id, x) ∷ store) ≡ some y = rw (new, insert) at f in
      elim (Bool-cases (key_equal id k)) [
        | inl same ↦
            let ids : id ≡ k = ground arith in
            ground (arith, ap (λ (j : TaskId). knap_sack_exp items j.w_bound j.idx) ids)
        | inr other ↦ c k y (ground arith)
      ]
]

-- With a consistent table the memoised function returns what the plain recursion returns, and
-- leaves a consistent table.
pub knap_sack_hashtable-exp :
    (items : List Item) (w_bound n : ℕ) (store : Store)
    → n ≤ length items
    → IsConsistent items store
    → (r : ℕ) × (store' : Store) × (knap_sack_exp items w_bound n ≡ some r)
      × (knap_sack_hashtable items w_bound n store ≡ some (r, store'))
      × IsConsistent items store'
unfolding knap_sack_exp knap_sack_hashtable
knap_sack_hashtable-exp items w_bound zero store h c =
    elim (Option-cases (find (record { w_bound = w_bound; idx = 0 }) store)) [
      | inl new ↦ (0, store, refl, rw (new, knap_sack_hashtable) refl, c)
      | inr (x, old) ↦ (x, store, c _ x old, rw (old, knap_sack_hashtable) refl, c)
    ]
knap_sack_hashtable-exp items w_bound (suc n) store h c =
    elim (Option-cases (find (record { w_bound = w_bound; idx = suc n }) store)) [
      | inr (x, old) ↦ (x, store, c _ x old, rw (old, knap_sack_hashtable) refl, c)
      | inl new ↦ elim (Bool-cases (w_bound == 0)) [
        | inl full ↦ (0, store, rw full refl, rw (new, knap_sack_hashtable, full) refl, c)
        | inr room ↦
            let (item, here) = get_elem?_of_lt items n (omega arith) in
            elim (Bool-cases (ltb w_bound item.w)) [
              | inl heavy ↦
                  let (r, store', e, f, c') =
                    knap_sack_hashtable-exp items w_bound n store (omega arith) c in
                  (
                    r,
                    store',
                    rw (room, here, heavy) e,
                    rw (new, knap_sack_hashtable, room, here, heavy) f,
                    c',
                  )
              | inr light ↦
                  let (a, s1, ea, fa, c1) =
                    knap_sack_hashtable-exp items (w_bound - item.w) n store (omega arith) c in
                  let (b, s2, eb, fb, c2) =
                    knap_sack_hashtable-exp items w_bound n s1 (omega arith) c1 in
                  let id : TaskId = record { w_bound = w_bound; idx = suc n } in
                  let e : knap_sack_exp items w_bound (suc n) ≡ some (max (a + item.v) b) =
                    rw (room, here, light, ea, eb) refl in
                  (
                    max (a + item.v) b,
                    insert id (max (a + item.v) b) s2,
                    e,
                    rw (new, knap_sack_hashtable, room, here, light, fa, fb) refl,
                    insert-IsConsistent items id (max (a + item.v) b) s2 e c2,
                  )
            ]
      ]
    ]

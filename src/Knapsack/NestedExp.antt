-- ===== src/Knapsack/NestedExp.antt =====
-- w3_dyn_pro.cc: knapSack_hashtable_2d returns what the plain recursion returns.
use cpp_tricks.Common.{
  ℕ, zero, suc, ◌+◌, ◌-◌, ◌≤◌, max, ◌≡◌, refl, subst, ◌∙◌, ap, some, List, arith, ltb, ◌==◌, length,
  get_elem?_of_lt, Bool-cases, Option-cases, inl, inr,
}
use cpp_tricks.Knapsack.{Item, knap_sack_exp}
use cpp_tricks.Knapsack.Nested.{Row, find_2d, insert_2d, knap_sack_hashtable_2d, insert_2d-cases}

-- Every entry is what the recursion returns.
abbrev pub AreResults : List Item → List (ℕ × Row) → Type 0
AreResults items store = (w n x : ℕ) → find_2d w n store ≡ some x → knap_sack_exp items w n ≡ some x

insert_2d-AreResults :
    (items : List Item) (w n x : ℕ) (store : List (ℕ × Row))
    → knap_sack_exp items w n ≡ some x
    → AreResults items store
    → AreResults items (insert_2d w n x store)
insert_2d-AreResults items w n x store e c w' k y f = elim (insert_2d-cases w n x store w' k y f) [
  | inl (same_w, same_n, same_x) ↦
      let moved = subst (λ q. knap_sack_exp items q n ≡ some x) same_w e in
      let moved' = subst (λ q. knap_sack_exp items w' q ≡ some x) same_n moved in
      moved' ∙ ap some same_x
  | inr old ↦ c w' k y old
]

-- With a table whose every entry is what knapSackExp returns, knapSack_hashtable_2d over the first n
-- items, all in range, returns what knapSackExp returns and leaves such a table.
pub knap_sack_hashtable_2d-exp :
    (items : List Item) (w n : ℕ) (store : List (ℕ × Row))
    → n ≤ length items
    → AreResults items store
    → (r : ℕ) × (store' : List (ℕ × Row)) × (knap_sack_exp items w n ≡ some r)
      × (knap_sack_hashtable_2d items w n store ≡ some (r, store'))
      × AreResults items store'
unfolding knap_sack_exp knap_sack_hashtable_2d
knap_sack_hashtable_2d-exp items w zero store h c = elim (Option-cases (find_2d w 0 store)) [
  | inl new ↦ (0, store, refl, rw (new, knap_sack_hashtable_2d) refl, c)
  | inr (x, old) ↦ (x, store, c w 0 x old, rw (old, knap_sack_hashtable_2d) refl, c)
]
knap_sack_hashtable_2d-exp items w (suc n) store h c =
    elim (Option-cases (find_2d w (suc n) store)) [
      | inr (x, old) ↦ (x, store, c w (suc n) x old, rw (old, knap_sack_hashtable_2d) refl, c)
      | inl new ↦ elim (Bool-cases (w == 0)) [
        | inl full ↦ (0, store, rw full refl, rw (new, knap_sack_hashtable_2d, full) refl, c)
        | inr room ↦
            let (item, here) = get_elem?_of_lt items n (omega arith) in
            elim (Bool-cases (ltb w item.w)) [
              | inl heavy ↦
                  let (r, store', e, f, c') =
                    knap_sack_hashtable_2d-exp items w n store (omega arith) c in
                  (
                    r,
                    store',
                    rw (room, here, heavy) e,
                    rw (new, knap_sack_hashtable_2d, room, here, heavy) f,
                    c',
                  )
              | inr light ↦
                  let (a, s1, ea, fa, c1) =
                    knap_sack_hashtable_2d-exp items (w - item.w) n store (omega arith) c in
                  let (b, s2, eb, fb, c2) =
                    knap_sack_hashtable_2d-exp items w n s1 (omega arith) c1 in
                  let best = max (a + item.v) b in
                  let e : knap_sack_exp items w (suc n) ≡ some best =
                    rw (room, here, light, ea, eb) refl in
                  (
                    best,
                    insert_2d w (suc n) best s2,
                    e,
                    rw (new, knap_sack_hashtable_2d, room, here, light, fa, fb) refl,
                    insert_2d-AreResults items w (suc n) best s2 e c2,
                  )
            ]
      ]
    ]

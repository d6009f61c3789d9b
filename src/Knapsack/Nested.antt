-- ===== src/Knapsack/Nested.antt =====
-- w3_dyn_pro.cc, `knapSack_hashtable_2d`: the table of solved tasks is a table of tables, by the
-- bound and then by the number of items. It changes no result either.
use cpp_tricks.Common.{
  ℕ, zero, suc, ◌+◌, ◌-◌, max, ◌≡◌, refl, ap, sym, ◌∙◌, Option, none, some, List, [], ◌∷◌, ltb,
  ◌==◌, if◌then◌else◌, ◌>>=◌, get_elem?, Bool-cases, Option-cases, ==_iff, some_injective, inl, inr,
  ◌⊎◌,
}
use cpp_tricks.Knapsack.{Item}

abbrev pub Row : Type 0
Row = List (ℕ × ℕ)

-- `find` and `insert` of the library's map, which keeps an old entry.
unfoldable pub find_in {ℓ} : {A : Type ℓ} → ℕ → List (ℕ × A) → Option A
find_in key [] = none
find_in key ((k, x) ∷ rest) = if k == key then some x else find_in key rest

unfoldable pub insert_in {ℓ} : {A : Type ℓ} → ℕ → A → List (ℕ × A) → List (ℕ × A)
unfolding find_in
insert_in key x entries = elim (find_in key entries) [
  | none ↦ (key, x) ∷ entries
  | some old ↦ entries
]

-- `store[key]`, of an entry that is there.
unfoldable pub update_in {ℓ} : {A : Type ℓ} → ℕ → (A → A) → List (ℕ × A) → List (ℕ × A)
update_in key f [] = []
update_in key f ((k, x) ∷ rest) =
    if k == key then (k, f x) ∷ rest else (k, x) ∷ update_in key f rest

unfoldable pub find_2d : ℕ → ℕ → List (ℕ × Row) → Option ℕ
unfolding find_in
find_2d w_bound idx store = find_in w_bound store >>= find_in idx

unfoldable pub insert_2d : ℕ → ℕ → ℕ → List (ℕ × Row) → List (ℕ × Row)
unfolding insert_in update_in
insert_2d w_bound idx x store = update_in w_bound (insert_in idx x) (insert_in w_bound [] store)

-- `knapSack_hashtable_2d(id, items, store)`
unfoldable pub knap_sack_hashtable_2d :
    List Item → ℕ → ℕ → List (ℕ × Row) → Option (ℕ × List (ℕ × Row))
unfolding find_2d insert_2d
knap_sack_hashtable_2d items w_bound zero store = elim (find_2d w_bound 0 store) [
  | some x ↦ some (x, store)
  | none ↦ some (0, store)
]
knap_sack_hashtable_2d items w_bound (suc n) store =
    let without = knap_sack_hashtable_2d items w_bound n in
    let solve = get_elem? items n >>= λ item.
    let with_item = knap_sack_hashtable_2d items (w_bound - item.w) n store in
    let best = with_item >>= λ (taken, store'). without store' >>= λ (left, store'').
    some
      (max (taken + item.v) left, insert_2d w_bound (suc n) (max (taken + item.v) left) store'') in
    if ltb w_bound item.w then without store else best in
    elim (find_2d w_bound (suc n) store) [
      | some x ↦ some (x, store)
      | none ↦ if w_bound == 0 then some (0, store) else solve
    ]

-- What is found behind an insertion was inserted, or was there.
insert_in-cases :
    {A : Type 0} (key : ℕ) (x : A) (row : List (ℕ × A)) (k : ℕ) (y : A)
    → find_in k (insert_in key x row) ≡ some y
    → ((key ≡ k) × (x ≡ y)) ⊎ (find_in k row ≡ some y)
unfolding find_in insert_in
insert_in-cases key x row k y f = elim (Option-cases (find_in key row)) [
  | inr (z, old) ↦ inr (rw (insert_in, old) at f)
  | inl new ↦
      let f' : (if key == k then some x else find_in k row) ≡ some y = rw (insert_in, new) at f in
      elim (Bool-cases (key == k)) [
        | inl t ↦ let g : some x ≡ some y = rw t at f' in inl ((==_iff key k).0 t, cc)
        | inr o ↦ inr (rw o at f')
      ]
]

update_in-cases :
    (key : ℕ) (f : Row → Row) (store : List (ℕ × Row)) (k : ℕ) (row : Row)
    → find_in k (update_in key f store) ≡ some row
    → ((key ≡ k) × (old : Row) × (find_in k store ≡ some old) × (row ≡ f old))
      ⊎ (find_in k store ≡ some row)
unfolding find_in update_in
update_in-cases key f [] k row e = inr e
update_in-cases key f ((q, old) ∷ rest) k row e = elim (Bool-cases (q == key)) [
  | inl t ↦
      let e' : find_in k ((q, f old) ∷ rest) ≡ some row = rw (update_in, t) at e in
      elim (Bool-cases (q == k)) [
        | inl here ↦
            let g : some (f old) ≡ some row = rw here at e' in
            inl (
              sym ((==_iff q key).0 t) ∙ (==_iff q k).0 here,
              old,
              rw here refl,
              sym (some_injective g),
            )
        | inr other ↦ let g : find_in k rest ≡ some row = rw other at e' in inr (rw other g)
      ]
  | inr o ↦
      let e' : find_in k ((q, old) ∷ update_in key f rest) ≡ some row = rw (update_in, o) at e in
      elim (Bool-cases (q == k)) [
        | inl here ↦ let g : some old ≡ some row = rw here at e' in inr (rw here g)
        | inr other ↦
            let g : find_in k (update_in key f rest) ≡ some row = rw other at e' in
            rw other (update_in-cases key f rest k row g)
      ]
]

find_in-nothing : (k y : ℕ) → find_in k [] ≡ some y → ⊥
unfolding find_in
find_in-nothing k y e = cc

-- What is read behind an insertion of an empty row was there.
find_in-empty :
    (w w' k y : ℕ) (store : List (ℕ × Row)) (row : Row)
    → find_in w' (insert_in w [] store) ≡ some row
    → find_in k row ≡ some y
    → find_2d w' k store ≡ some y
unfolding find_2d
find_in-empty w w' k y store row e g = elim (insert_in-cases w [] store w' row e) [
  | inl (same, empty) ↦ absurd (find_in-nothing k y (ap (find_in k) empty ∙ g))
  | inr there ↦ rw (find_2d, there) g
]

pub insert_2d-cases :
    (w i x : ℕ) (store : List (ℕ × Row)) (w' k y : ℕ)
    → find_2d w' k (insert_2d w i x store) ≡ some y
    → ((w ≡ w') × (i ≡ k) × (x ≡ y)) ⊎ (find_2d w' k store ≡ some y)
unfolding find_2d insert_2d
insert_2d-cases w i x store w' k y f =
    elim (Option-cases (find_in w' (update_in w (insert_in i x) (insert_in w [] store)))) [
      | inl gone ↦ let clash : none ≡ some y = rw gone at f in cc
      | inr (row, e) ↦
          let g : find_in k row ≡ some y = rw e at f in
          elim (update_in-cases w (insert_in i x) (insert_in w [] store) w' row e) [
            | inr there ↦ inr (find_in-empty w w' k y store row there g)
            | inl (same, old, there, is_row) ↦
                elim (insert_in-cases i x old k y (ap (find_in k) (sym is_row) ∙ g)) [
                  | inl (j, z) ↦ inl (same, j, z)
                  | inr was ↦ inr (find_in-empty w w' k y store old there was)
                ]
          ]
    ]

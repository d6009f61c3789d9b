-- ===== src/Knapsack/Table.antt =====
-- w3_lession_code.cc, `TEST(W3, KnapsackProblem)`, and w3_dyn_pro.cc, `TEST(W3, BigKnapsackProblem)`:
-- the table `A[i][x]`, filled row by row. Item 0 is a guard that no row uses.
use cpp_tricks.Common.{
  ℕ, zero, suc, ◌+◌, ◌-◌, ◌≤◌, ◌<◌, max, ◌≡◌, refl, true, false, Option, some, List, [], ◌∷◌, ◌++◌,
  arith, ltb, ◌==◌, if◌then◌else◌, ◌>>=◌, length, replicate, length-append, append_assoc, get_elem?,
  get_elem?-append_length, get_elem?-replicate, Bool-cases, inl, inr, ◌∙◌, ap, sym, subst,
}
use native.Mathlib.Nat.{zero-add}
use cpp_tricks.Knapsack.{Item, knap_sack_exp}

-- One cell: `invalid` leaves the item, `valid` takes it if it fits.
unfoldable pub cell : List ℕ → Item → ℕ → Option ℕ
cell prev item x = do
  let w_boundary = if ltb x item.w then x else x - item.w
  let v = if ltb x item.w then 0 else item.v
  invalid ← get_elem? prev x
  valid ← get_elem? prev w_boundary
  some (max invalid (valid + v))

-- The cell of w3_dyn_pro.cc: `A[i][x]` is still 0 where it is read.
unfoldable pub big_cell : List ℕ → Item → ℕ → Option ℕ
big_cell prev item x =
    if ltb x item.w
    then get_elem? prev x
    else (get_elem? prev (x - item.w) >>= λ valid. some (max 0 (valid + item.v)))

-- The cells `x`, `x + 1`, … of a row, `k` of them.
unfoldable pub fill_row : (ℕ → Option ℕ) → ℕ → ℕ → Option (List ℕ)
fill_row at_x zero x = some []
fill_row at_x (suc k) x = do c ← at_x x; cs ← fill_row at_x k (x + 1); some (c ∷ cs)

-- The rows of the items, from the row before them.
unfoldable pub table_rows : ℕ → List ℕ → List Item → Option (List (List ℕ))
unfolding fill_row cell
table_rows w_bound prev [] = some []
table_rows w_bound prev (item ∷ items) = do
  row ← fill_row (cell prev item) (w_bound + 1) 0
  rows ← table_rows w_bound row items
  some (row ∷ rows)

-- The table of the items after the guard.
unfoldable pub table : ℕ → List Item → Option (List (List ℕ))
unfolding table_rows
table w_bound items = table_rows w_bound (replicate (w_bound + 1) 0) items >>= λ rows.
    some (replicate (w_bound + 1) 0 ∷ rows)

fill_row_lem :
    (at_x : ℕ → Option ℕ) (k x : ℕ)
    → ((y : ℕ) → y < x + k → (r : ℕ) × (at_x y ≡ some r))
    → (row : List ℕ) × (fill_row at_x k x ≡ some row)
      × ((j : ℕ) → j < k → get_elem? row j ≡ at_x (x + j))
unfolding fill_row
fill_row_lem at_x zero x h = ([], refl, λ j q. absurd (omega arith))
fill_row_lem at_x (suc k) x h =
    let (row, e, g) = fill_row_lem at_x k (x + 1) (λ y q. h y (omega arith)) in
    let (c, f) = h x (omega arith) in (c ∷ row, rw (f, e) refl, at_index c f row g)
  where
    at_index :
        (c : ℕ)
        → at_x x ≡ some c
        → (row : List ℕ) → ((j : ℕ) → j < k → get_elem? row j ≡ at_x (x + 1 + j))
        → (j : ℕ) → j < suc k
        → get_elem? (c ∷ row) j ≡ at_x (x + j)
    at_index c f row g zero q = sym f ∙ ap at_x (omega arith)
    at_index c f row g (suc j) q = g j (omega arith) ∙ ap at_x (omega arith)

-- Every item weighs something.
abbrev pub IsHeavy : List Item → Type 0
IsHeavy items = (i : ℕ) (item : Item) → get_elem? items i ≡ some item → 0 < item.w

-- The row holds, for every bound up to `w_bound`, what the recursion over `n` items returns.
abbrev pub IsRow : ℕ → List Item → ℕ → List ℕ → Type 0
IsRow w_bound items n row =
    (x : ℕ)
    → x ≤ w_bound
    → (r : ℕ) × (get_elem? row x ≡ some r) × (knap_sack_exp items x n ≡ some r)

knap_sack_exp-empty : (items : List Item) (x n : ℕ) → x ≡ 0 → knap_sack_exp items x n ≡ some 0
unfolding knap_sack_exp
knap_sack_exp-empty items x zero e = refl
knap_sack_exp-empty items x (suc n) e = let full : (x == 0) ≡ true = ground arith in rw full refl

cell-exp :
    (w_bound : ℕ) (items : List Item) (n : ℕ) (item : Item) (prev : List ℕ)
    → get_elem? items n ≡ some item
    → 0 < item.w
    → IsRow w_bound items n prev
    → (x : ℕ) → x ≤ w_bound
    → (r : ℕ) × (cell prev item x ≡ some r) × (knap_sack_exp items x (suc n) ≡ some r)
unfolding cell knap_sack_exp
cell-exp w_bound items n item prev here h p x q =
    let (b, eb, fb) = p x q in
    elim (Bool-cases (ltb x item.w)) [
      | inl heavy ↦ (
        b,
        rw (heavy, eb) (ap some (ground arith)),
        elim (Bool-cases (x == 0)) [
          | inl empty ↦ rw empty (sym (knap_sack_exp-empty items x n (ground arith)) ∙ fb)
          | inr room ↦ rw (room, here, heavy) fb
        ],
      )
      | inr light ↦
          let (a, ea, fa) = p (x - item.w) (omega arith) in
          let room : (x == 0) ≡ false = ground arith in
          (
            max (a + item.v) b,
            rw (light, eb, ea) (ap some (ground arith)),
            rw (room, here, light, fa, fb) refl,
          )
    ]

start-IsRow : (w_bound : ℕ) (items : List Item) → IsRow w_bound items 0 (replicate (w_bound + 1) 0)
unfolding knap_sack_exp
start-IsRow w_bound items x q = (0, get_elem?-replicate (w_bound + 1) x 0 (omega arith), refl)

module _ (w_bound : ℕ) (items : List Item) (heavy : IsHeavy items) where
  -- The row of item `n`, from the row before it.
  next-IsRow :
      (n : ℕ) (item : Item) (prev : List ℕ)
      → get_elem? items n ≡ some item
      → IsRow w_bound items n prev
      → (row : List ℕ) × (fill_row (cell prev item) (w_bound + 1) 0 ≡ some row)
        × IsRow w_bound items (suc n) row
  next-IsRow n item prev here p =
      let (row, e, g) =
        fill_row_lem (cell prev item) (w_bound + 1) 0
          (λ y q. let (r, c, _) = best y (omega arith) in (r, c)) in
      (
        row,
        e,
        λ x q.
            let (r, c, d) = best x q in
            (r, g x (omega arith) ∙ ap (cell prev item) (zero-add x) ∙ c, d),
      )
    where
      best :
          (x : ℕ)
          → x ≤ w_bound
          → (r : ℕ) × (cell prev item x ≡ some r) × (knap_sack_exp items x (suc n) ≡ some r)
      best = cell-exp w_bound items n item prev here (heavy n item here) p

  at_index :
      (n n' : ℕ)
      → suc n ≡ n'
      → (row : List ℕ) → IsRow w_bound items (suc n) row
      → (rows : List (List ℕ)) (len : ℕ)
      → ((i : ℕ)
          → i < len
          → (row' : List ℕ) × (get_elem? rows i ≡ some row')
            × IsRow w_bound items (n' + suc i) row')
      → (i : ℕ) → i < suc len
      → (row' : List ℕ) × (get_elem? (row ∷ rows) i ≡ some row')
        × IsRow w_bound items (n + suc i) row'
  at_index n n' e row q rows len g zero b =
      (row, refl, subst (λ k. IsRow w_bound items k row) (omega arith) q)
  at_index n n' e row q rows len g (suc i) b =
      let (row', at_i, r) = g i (omega arith) in
      (row', at_i, subst (λ k. IsRow w_bound items k row') (omega arith) r)

  rows_from :
      (pre rest : List Item) (prev : List ℕ)
      → pre ++ rest ≡ items
      → IsRow w_bound items (length pre) prev
      → (rows : List (List ℕ)) × (table_rows w_bound prev rest ≡ some rows)
        × ((i : ℕ)
            → i < length rest
            → (row : List ℕ) × (get_elem? rows i ≡ some row)
              × IsRow w_bound items (length pre + suc i) row)
  unfolding table_rows
  rows_from pre [] prev e p = ([], refl, λ i q. absurd (omega arith))
  rows_from pre (item ∷ rest) prev e p =
      let here : get_elem? items (length pre) ≡ some item =
        ap (λ l. get_elem? l (length pre)) (sym e) ∙ get_elem?-append_length pre item rest in
      let (row, filled, q) = next-IsRow (length pre) item prev here p in
      let len : suc (length pre) ≡ length (pre ++ (item ∷ [])) =
        omega (arith, length-append pre (item ∷ [])) in
      let (rows, made, g) =
        rows_from (pre ++ (item ∷ [])) rest row (append_assoc pre (item ∷ []) rest ∙ e)
          (subst (λ k. IsRow w_bound items k row) len q) in
      (
        row ∷ rows,
        rw (filled, made) refl,
        at_index (length pre) (length (pre ++ (item ∷ []))) len row q rows (length rest) g,
      )

  -- On items that all weigh something, the table is filled without an access out of range, and
  -- `A[i][x]` is what the recursion over the first `i` items returns for the bound `x`.
  pub table-exp :
      (rows : List (List ℕ)) × (table w_bound items ≡ some rows)
      × ((i : ℕ)
          → i ≤ length items
          → (row : List ℕ) × (get_elem? rows i ≡ some row) × IsRow w_bound items i row)
  unfolding table
  table-exp =
      let first = start-IsRow w_bound items in
      let (rows, made, g) = rows_from [] items (replicate (w_bound + 1) 0) refl first in
      (replicate (w_bound + 1) 0 ∷ rows, rw made refl, whole rows g)
    where
      whole :
          (rows : List (List ℕ))
          → ((i : ℕ)
              → i < length items
              → (row : List ℕ) × (get_elem? rows i ≡ some row)
                × IsRow w_bound items (0 + suc i) row)
          → (i : ℕ) → i ≤ length items
          → (row : List ℕ) × (get_elem? (replicate (w_bound + 1) 0 ∷ rows) i ≡ some row)
            × IsRow w_bound items i row
      whole rows g zero b = (replicate (w_bound + 1) 0, refl, start-IsRow w_bound items)
      whole rows g (suc i) b =
          let (row, at_i, r) = g i (omega arith) in
          (row, at_i, subst (λ k. IsRow w_bound items k row) (omega arith) r)

-- Where an item fits and taking it is worse than leaving it, the cell of `BigKnapsackProblem` is
-- too small: it forgets the value without the item.
pub big_cell-lt :
    (prev : List ℕ) (item : Item) (x : ℕ) {invalid valid : ℕ}
    → item.w ≤ x
    → get_elem? prev x ≡ some invalid
    → get_elem? prev (x - item.w) ≡ some valid
    → valid + item.v < invalid
    → (small good : ℕ) × (big_cell prev item x ≡ some small)
      × (cell prev item x ≡ some good)
      × (small < good)
unfolding big_cell cell
big_cell-lt prev item x {invalid} {valid} h e f worse =
    let light : ltb x item.w ≡ false = ground arith in
    (
      max 0 (valid + item.v),
      max invalid (valid + item.v),
      rw (light, f) refl,
      rw (light, e, f) refl,
      omega arith,
    )

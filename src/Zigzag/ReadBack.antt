-- ===== src/Zigzag/ReadBack.antt =====
-- The row buffers, read one after the other, give the zigzag.
use cpp_tricks.Common.{
  ℕ, zero, suc, ◌+◌, ◌≤◌, ◌<◌, min, ◌≡◌, refl, sym, ap, ap₂, ◌∙◌, some, List, [], ◌∷◌, ◌++◌,
  append-nil, append_assoc, arith, length, replicate, length-replicate, Bool-cases, inl, inr, leb,
}
use cpp_tricks.Zigzag.{concat_rows, first_then_rest}
use cpp_tricks.Zigzag.Spec.{select, read_rows}
use cpp_tricks.Zigzag.Scatter.{extend, length-extend, row_of-le}

pub first_then_rest_lem {ℓ} :
    {A : Type ℓ} (rows : List (List A))
    → 0 < length rows
    → first_then_rest rows ≡ some (concat_rows [] rows)
unfolding first_then_rest
first_then_rest_lem [] h = absurd (omega arith)
first_then_rest_lem (r ∷ rs) h = refl

module _ {ℓ} {A : Type ℓ} (n : ℕ) where
  pub concat-extend :
      (s ret : List A) (k r : ℕ)
      → concat_rows ret (extend n 0 s r (replicate k [])) ≡ ret ++ read_rows n k r s
  unfolding concat_rows extend read_rows
  concat-extend s ret zero r = sym (append-nil ret)
  concat-extend s ret (suc k) r =
      concat-extend s (ret ++ select n r 0 s) k (r + 1)
      ∙ append_assoc ret (select n r 0 s) (read_rows n k (r + 1) s)

  pub first-extend :
      (s : List A)
      → 1 < n
      → first_then_rest (extend n 0 s 0 (replicate n [])) ≡ some (read_rows n n 0 s)
  first-extend s h =
      first_then_rest_lem (extend n 0 s 0 (replicate n []))
        (omega (arith, length-extend n 0 s 0 (replicate n []), length-replicate {A = List A} n []))
      ∙ ap some (concat-extend s [] n 0)

  -- Rows beyond the end of a short string are empty.
  select-beyond : (r i : ℕ) (s : List A) → i + length s ≤ r → select n r i s ≡ []
  unfolding select
  select-beyond r i [] h = refl
  select-beyond r i (c ∷ cs) h = ground (arith, row_of-le n i, select-beyond r (i + 1) cs)

  read_rows-beyond : (k r : ℕ) (s : List A) → length s ≤ r → read_rows n k r s ≡ []
  unfolding read_rows
  read_rows-beyond zero r s h = refl
  read_rows-beyond (suc k) r s h =
      ap₂ ◌++◌ (select-beyond r 0 s (omega arith)) (read_rows-beyond k (r + 1) s (omega arith))

  read_rows-short :
      (k r : ℕ) (s : List A) (m : ℕ)
      → m ≤ k
      → length s ≤ r + m
      → read_rows n k r s ≡ read_rows n m r s
  unfolding read_rows
  read_rows-short k r s zero h q = read_rows-beyond k r s (omega arith)
  read_rows-short (suc k) r s (suc m) h q =
      ap (λ t. select n r 0 s ++ t) (read_rows-short k (r + 1) s m (omega arith) (omega arith))
  read_rows-short zero r s (suc m) h q = absurd (omega arith)

  -- `min(numRows, int(s.size()))` buffers are enough.
  pub read_rows-min : (s : List A) → read_rows n n 0 s ≡ read_rows n (min n (length s)) 0 s
  read_rows-min s = elim (Bool-cases (leb n (length s))) [
    | inl few ↦ ap (λ k. read_rows n k 0 s) (ground arith)
    | inr short ↦ read_rows-short n 0 s (min n (length s)) (ground arith) (ground arith)
  ]

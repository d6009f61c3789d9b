-- ===== src/Zigzag/BestLoop.antt =====
-- The loops of `convert_best` and `convert_best1` (edu/train/zigzag.hpp) visit the rows of the
-- zigzag, one position after the other.
use cpp_tricks.Common.{
  ℕ, zero, suc, ◌+◌, ◌-◌, ◌*◌, ◌≤◌, ◌<◌, ◌≡◌, refl, sym, ap, ap₂, ◌∙◌, inl, inr, Option, some, List,
  [], ◌∷◌, arith, ◌==◌, ◌>>=◌, >>=_cong, >>=_assoc, Bool-cases, length, replicate, length-replicate,
}
use cpp_tricks.Zigzag.{up, stride, boxes, first_then_rest}
use cpp_tricks.Zigzag.Best.{
  InPlace, put_letter, splice_all, best_inner, best_outer, in_place_start, convert_best,
}
use cpp_tricks.Zigzag.Best1.{down_rows, up_rows, best1_outer, convert_best1}
use cpp_tricks.Zigzag.Spec.{row, row_of, read_rows, zigzag}
use cpp_tricks.Zigzag.Scatter.{extend, length-extend}
use cpp_tricks.Zigzag.Turns.{counter_at, direction_at, turn_lem, advance_lem, boxes-le}
use cpp_tricks.Zigzag.ReadBack.{first-extend}
use cpp_tricks.Zigzag.Segments.{segment, segment-add}
use cpp_tricks.Zigzag.BaseLoop.{row_of_box, counter_at_start}
use cpp_tricks.Zigzag.InPlace.{
  at_end, place, total-replicate, run-Finished, Finished, splice_all-gap,
}
use cpp_tricks.Zigzag.Equivalence.{scatter-start}

row-down : (n k : ℕ) → k < n → row n k ≡ k
unfolding row
row-down n k h = ground arith

row-up : (n k : ℕ) → n ≤ k → row n k ≡ stride n - k
unfolding row
row-up n k h = ground arith

module _ {ℓ} {A : Type ℓ} (n : ℕ) (h : 1 < n) where
  abbrev visit : ℕ → ℕ → InPlace A → Option (InPlace A)
  visit = segment (at_end n) (place n)

  visit-add :
      (a b p : ℕ) (st : InPlace A)
      → visit (a + b) p st ≡ (visit a p st >>= λ st'. visit b (a + p) st')
  visit-add = segment-add (at_end n) (place n) (λ p st done. done)

  best_inner_lem :
      (k iter subidx : ℕ) (st : InPlace A)
      → subidx + k ≡ stride n
      → best_inner n k subidx (counter_at n subidx) (direction_at n subidx) st
        ≡ visit k (iter * stride n + subidx) st
  unfolding best_inner segment
  best_inner_lem zero iter subidx st e = refl
  best_inner_lem (suc k) iter subidx st e = elim (Bool-cases (st.siter == length st.text)) [
    | inl stop ↦ rw stop refl
    | inr more ↦
        let e' : iter * stride n + subidx + 1 ≡ iter * stride n + (subidx + 1) = omega arith in
        rw (more, turn_lem n subidx h (omega arith), row_of_box n iter subidx (omega arith))
          (>>=_cong (put_letter (row n subidx) st) (λ st'.
            rw (advance_lem n subidx h (omega arith), e')
              (best_inner_lem k iter (subidx + 1) st' (omega arith))))
  ]

  down_rows_lem :
      (k iter subidx : ℕ) (st : InPlace A)
      → subidx + k ≡ n
      → down_rows k subidx st ≡ visit k (iter * stride n + subidx) st
  unfolding down_rows segment
  down_rows_lem zero iter subidx st e = refl
  down_rows_lem (suc k) iter subidx st e = elim (Bool-cases (st.siter == length st.text)) [
    | inl stop ↦ rw stop refl
    | inr more ↦
        let e' : iter * stride n + subidx + 1 ≡ iter * stride n + (subidx + 1) = omega arith in
        let r : row_of n (iter * stride n + subidx) ≡ subidx =
          row_of_box n iter subidx (omega arith) ∙ row-down n subidx (omega arith) in
        rw (more, r, e')
          (>>=_cong (put_letter subidx st)
            (λ st'. down_rows_lem k iter (subidx + 1) st' (omega arith)))
  ]

  up_rows_lem :
      (k iter subidx : ℕ) (st : InPlace A)
      → subidx + k ≡ stride n
      → n ≤ subidx
      → up_rows k st ≡ visit k (iter * stride n + subidx) st
  unfolding up_rows segment
  up_rows_lem zero iter subidx st e q = refl
  up_rows_lem (suc k) iter subidx st e q = elim (Bool-cases (st.siter == length st.text)) [
    | inl stop ↦ rw stop refl
    | inr more ↦
        let e' : iter * stride n + subidx + 1 ≡ iter * stride n + (subidx + 1) = omega arith in
        let r : row_of n (iter * stride n + subidx) ≡ suc k =
          row_of_box n iter subidx (omega arith) ∙ row-up n subidx q ∙ omega arith in
        rw (more, r, e')
          (>>=_cong (put_letter (suc k) st)
            (λ st'. up_rows_lem k iter (subidx + 1) st' (omega arith) (omega arith)))
  ]

  box_add :
      (m iter : ℕ) (st : InPlace A)
      → visit (suc m * stride n) (iter * stride n) st
        ≡ (visit (stride n) (iter * stride n) st >>= visit (m * stride n) ((iter + 1) * stride n))
  box_add m iter st =
      let e : suc m * stride n ≡ stride n + m * stride n = omega arith in
      let e' : stride n + iter * stride n ≡ (iter + 1) * stride n = omega arith in
      rw (e, visit-add (stride n) (m * stride n), e') refl

  best_outer_lem :
      (m iter : ℕ) (st : InPlace A) → best_outer n m st ≡ visit (m * stride n) (iter * stride n) st
  unfolding best_outer segment
  best_outer_lem zero iter st = let e : 0 * stride n ≡ 0 = omega arith in rw e refl
  best_outer_lem (suc m) iter st =
      let box : best_inner n (stride n) 0 0 up st ≡ visit (stride n) (iter * stride n) st =
        ap₂ (λ c d. best_inner n (stride n) 0 c d st) (counter_at_start n).0 (counter_at_start n).1
        ∙ best_inner_lem (stride n) iter 0 st (omega arith)
        ∙ ap (λ p. visit (stride n) p st) (omega arith) in
      rw (box, box_add)
        (>>=_cong (visit (stride n) (iter * stride n) st) (best_outer_lem m (iter + 1)))

  -- One box of `convert_best1`: down all the rows, and up those between the last and the first.
  box1 :
      (iter : ℕ) (st : InPlace A)
      → (down_rows n 0 st >>= up_rows (n - 2)) ≡ visit (stride n) (iter * stride n) st
  box1 iter st =
      let downwards : down_rows n 0 st ≡ visit n (iter * stride n) st =
        down_rows_lem n iter 0 st (omega arith) ∙ ap (λ p. visit n p st) (omega arith) in
      let e : n + iter * stride n ≡ iter * stride n + n = omega arith in
      let whole : stride n ≡ n + (n - 2) = omega arith in
      rw downwards (
        >>=_cong (visit n (iter * stride n) st) (λ st'.
          up_rows_lem (n - 2) iter n st' (omega arith) (omega arith)
          ∙ ap (λ p. visit (n - 2) p st') (sym e))
        ∙ sym (visit-add n (n - 2) (iter * stride n) st)
        ∙ ap (λ k. visit k (iter * stride n) st) (sym whole))

  best1_outer_lem :
      (m iter : ℕ) (st : InPlace A) → best1_outer n m st ≡ visit (m * stride n) (iter * stride n) st
  unfolding best1_outer segment
  best1_outer_lem zero iter st = let e : 0 * stride n ≡ 0 = omega arith in rw e refl
  best1_outer_lem (suc m) iter st =
      sym (>>=_assoc (down_rows n 0 st) (up_rows (n - 2)) (best1_outer n m))
      ∙ ap (λ o. o >>= best1_outer n m) (box1 iter st)
      ∙ >>=_cong (visit (stride n) (iter * stride n) st) (best1_outer_lem m (iter + 1))
      ∙ sym (box_add m iter st)

module _ {ℓ} {A : Type ℓ} (s : List A) (n : ℕ) where
  -- The letters in place and in the buffers, once the string is read, splice to the zigzag.
  visited :
      (h : 1 < n)
      → (visit n h (boxes (length s) (stride n) * stride n) 0 (in_place_start s n) >>= splice_all)
        ≡ some (read_rows n n 0 s)
  unfolding first_then_rest
  visited h =
      let n' : n ≡ suc (n - 1) = omega arith in
      let e : replicate n [] ≡ [] ∷ replicate {A = List A} (n - 1) [] =
        ap (λ k. replicate k []) n' in
      let done : Finished n (boxes (length s) (stride n) * stride n) 0 (in_place_start s n)
          (extend n 0 s 0 (replicate n [])) =
        run-Finished n s (boxes (length s) (stride n) * stride n) 0 [] [] (replicate (n - 1) [])
          (boxes-le (length s) (stride n) (omega arith)) (sym (total-replicate A (n - 1)))
          (rw (← e) (scatter-start s n h)) in
      let some_row : 0 < length done.rows = omega (
        arith,
        ap length done.buffers,
        length-extend n 0 s 0 (replicate n []),
        length-replicate {A = List A} n [],
      ) in
      ap (λ o. o >>= splice_all) done.reached
      ∙ splice_all-gap done.rows done.front done.gap some_row done.balance
      ∙ ap first_then_rest (sym done.buffers)
      ∙ first-extend n s h

  -- `convert_best` returns the zigzag of every string over at least one row; no access is out of
  -- range, and no splice is beyond the end.
  pub convert_best-zigzag : 1 ≤ n → convert_best s n ≡ some (zigzag n s)
  unfolding convert_best zigzag
  convert_best-zigzag q = elim (Bool-cases (n == 1)) [
    | inl e ↦ rw e refl
    | inr e ↦
        let h : 1 < n = ground arith in
        rw e (
          ap (λ o. o >>= splice_all)
            (best_outer_lem n h (boxes (length s) (stride n)) 0 (in_place_start s n)
              ∙ ap (λ p. visit n h (boxes (length s) (stride n) * stride n) p (in_place_start s n))
                  (omega arith))
          ∙ visited h)
  ]

  -- `convert_best1` returns the zigzag of every string over at least one row; no access is out of
  -- range, and no splice is beyond the end.
  pub convert_best1-zigzag : 1 ≤ n → convert_best1 s n ≡ some (zigzag n s)
  unfolding convert_best1 zigzag
  convert_best1-zigzag q = elim (Bool-cases (n == 1)) [
    | inl e ↦ rw e refl
    | inr e ↦
        let h : 1 < n = ground arith in
        rw e (
          ap (λ o. o >>= splice_all)
            (best1_outer_lem n h (boxes (length s) (stride n)) 0 (in_place_start s n)
              ∙ ap (λ p. visit n h (boxes (length s) (stride n) * stride n) p (in_place_start s n))
                  (omega arith))
          ∙ visited h)
  ]

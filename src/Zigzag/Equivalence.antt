-- ===== src/Zigzag/Equivalence.antt =====
-- edu/train/zigzag.hpp: the variants that append to one buffer per row give the zigzag.
use cpp_tricks.Common.{
  ℕ, ◌*◌, ◌%◌, ◌≤◌, ◌<◌, min, ◌≡◌, refl, sym, ap, ap₂, ◌∙◌, some, List, [], arith, ◌==◌, length,
  replicate, length-replicate, Bool-cases, ◌⊎◌, inl, inr, ◌>>=◌, >>=_assoc, false,
}
use cpp_tricks.Zigzag.{stride, boxes, concat_rows, first_then_rest}
use cpp_tricks.Zigzag.Ref.{RefState, ref_loop, convert_ref}
use cpp_tricks.Zigzag.Base.{base_outer, convert_base}
use cpp_tricks.Zigzag.Forge.{forge_loop, forge_start, convert_forge}
use cpp_tricks.Zigzag.Spec.{row, row_of, zigzag}
use cpp_tricks.Zigzag.Scatter.{scatter, extend, scatter_lem}
use cpp_tricks.Zigzag.Turns.{boxes-le}
use cpp_tricks.Zigzag.ReadBack.{concat-extend, first-extend, read_rows-min}
use cpp_tricks.Zigzag.ForgeLoop.{forge_loop_lem, cursor_at}
use cpp_tricks.Zigzag.BaseLoop.{at_end, place, base_outer_lem, segment-scatter}
use cpp_tricks.Zigzag.RefLoop.{ref_loop_lem, ref_at, flag_at}
use cpp_tricks.Zigzag.Segments.{segment}

-- The proofs are for one row, where nothing moves, and for more.
one_row : (n : ℕ) → 1 ≤ n → (n ≡ 1) ⊎ (1 < n)
one_row n h = elim (Bool-cases (n == 1)) [ inl e ↦ inl (ground arith) | inr e ↦ inr (ground arith) ]

ref_at_start : (n : ℕ) → 1 < n → (0 ≡ row_of n 0) × (false ≡ flag_at n (0 % stride n))
unfolding row
ref_at_start n h = ground arith

module _ {ℓ} {A : Type ℓ} (s : List A) (n : ℕ) where
  pub scatter-start :
      1 < n → scatter n 0 s (replicate n []) ≡ some (extend n 0 s 0 (replicate n []))
  scatter-start h =
      scatter_lem n h 0 s (replicate n []) (omega (arith, length-replicate {A = List A} n []))

  forge_filled :
      1 < n
      → (forge_loop n (forge_start n) s >>= λ st. some st.rows)
        ≡ some (extend n 0 s 0 (replicate n []))
  forge_filled h =
      let start : forge_start {A = A} n ≡ cursor_at n h 0 (replicate n []) = ground arith in
      rw start (forge_loop_lem n h 0 s (replicate n []) ∙ scatter-start h)

  base_filled :
      1 < n
      → base_outer s n (boxes (length s) (stride n)) 0 (replicate n [])
        ≡ some (extend n 0 s 0 (replicate n []))
  base_filled h =
      base_outer_lem n h s (boxes (length s) (stride n)) 0 (replicate n [])
      ∙ ap
          (λ p.
            segment (at_end n h s) (place n h s) (boxes (length s) (stride n) * stride n) p
              (replicate n []))
          (omega arith)
      ∙ segment-scatter n h s (boxes (length s) (stride n) * stride n) [] s (replicate n []) refl
          (boxes-le (length s) (stride n) (omega arith))
      ∙ scatter-start h

  ref_filled :
      1 < n
      → (ref_loop n
            (record { rows = replicate (min n (length s)) []; cur_row = 0; going_down = false })
            s
          >>= λ st. some st.rows)
        ≡ some (extend n 0 s 0 (replicate (min n (length s)) []))
  ref_filled h =
      let start : ◌≡◌ {A = RefState A}
          (record { rows = replicate (min n (length s)) []; cur_row = 0; going_down = false })
          (ref_at n h 0 (replicate (min n (length s)) [])) =
        ap₂ (λ r d. record { rows = replicate (min n (length s)) []; cur_row = r; going_down = d })
          (ref_at_start n h).0 (ref_at_start n h).1 in
      rw start (
        ref_loop_lem n h 0 s (replicate (min n (length s)) [])
        ∙ scatter_lem n h 0 s (replicate (min n (length s)) [])
            (omega (arith, length-replicate {A = List A} (min n (length s)) [])))

  -- `convert_forge` returns the zigzag of every string over at least one row; no access is out of
  -- range.
  pub convert_forge-zigzag : 1 ≤ n → convert_forge s n ≡ some (zigzag n s)
  unfolding convert_forge zigzag
  convert_forge-zigzag h = elim (Bool-cases (n == 1)) [
    | inl e ↦ rw e refl
    | inr e ↦
        let h' : 1 < n = ground arith in
        rw e (
          sym (>>=_assoc (forge_loop n (forge_start n) s) (λ st. some st.rows) first_then_rest)
          ∙ ap (λ m. m >>= first_then_rest) (forge_filled h')
          ∙ first-extend n s h')
  ]

  -- `convert_base` returns the zigzag of every string over at least one row; no access is out of
  -- range.
  pub convert_base-zigzag : 1 ≤ n → convert_base s n ≡ some (zigzag n s)
  unfolding convert_base zigzag
  convert_base-zigzag h = elim (Bool-cases (n == 1)) [
    | inl e ↦ rw e refl
    | inr e ↦
        let h' : 1 < n = ground arith in
        rw e (ap (λ m. m >>= first_then_rest) (base_filled h') ∙ first-extend n s h')
  ]

  -- `convert_ref` returns the zigzag of every string over at least one row; no access is out of
  -- range.
  pub convert_ref-zigzag : 1 ≤ n → convert_ref s n ≡ some (zigzag n s)
  unfolding convert_ref zigzag
  convert_ref-zigzag h = elim (Bool-cases (n == 1)) [
    | inl e ↦ rw e refl
    | inr e ↦
        let h' : 1 < n = ground arith in
        rw e (
          sym (>>=_assoc (ref_loop n _ s) (λ st. some st.rows) (λ rows. some (concat_rows [] rows)))
          ∙ ap (λ m. m >>= λ rows. some (concat_rows [] rows)) (ref_filled h')
          ∙ ap some (concat-extend n s [] (min n (length s)) 0 ∙ sym (read_rows-min n s)))
  ]

-- ===== src/Zigzag/RefLoop.antt =====
-- The loop of `convert_ref` (edu/train/zigzag.hpp) puts every character into the buffer of its row.
use cpp_tricks.Common.{
  ℕ, ◌+◌, ◌%◌, ◌<◌, ◌≡◌, refl, ap, some, List, [], ◌∷◌, arith, ◌==◌, if◌then◌else◌, inl, inr, ◌>>=◌,
  >>=_cong, leb, ltb, Bool, false, Option-cases,
}
use native.Mathlib.Nat.{mod-lt}
use cpp_tricks.Zigzag.{stride, append_at}
use cpp_tricks.Zigzag.Ref.{RefState, turn_round, move, ref_step, ref_loop}
use cpp_tricks.Zigzag.Spec.{row, row_of}
use cpp_tricks.Zigzag.Scatter.{mod-suc, scatter}

-- `goingDown` at offset `k` of a box, before the test.
abbrev pub flag_at : ℕ → ℕ → Bool
flag_at n k = if k == 0 then false else ltb k n

module _ (n : ℕ) (h : 1 < n) where
  turn_round_lem : (k : ℕ) → k < stride n → turn_round n (row n k) (flag_at n k) ≡ ltb (k + 1) n
  unfolding turn_round row
  turn_round_lem k q = ground arith

  move_lem :
      (k : ℕ)
      → k < stride n
      → move (ltb (k + 1) n) (row n k) ≡ some (row n (if leb (stride n) (k + 1) then 0 else k + 1))
  unfolding move row
  move_lem k q = ground arith

  flag_lem :
      (k : ℕ)
      → k < stride n
      → ltb (k + 1) n ≡ flag_at n (if leb (stride n) (k + 1) then 0 else k + 1)
  flag_lem k q = ground arith

module _ {ℓ} {A : Type ℓ} (n : ℕ) (h : 1 < n) where
  abbrev pub ref_at : ℕ → List (List A) → RefState A
  ref_at i rows = record {
    rows = rows;
    cur_row = row_of n i;
    going_down = flag_at n (i % stride n);
  }

  ref_step_lem :
      (i : ℕ) (rows : List (List A)) (c : A)
      → ref_step n (ref_at i rows) c
        ≡ (append_at rows (row_of n i) c >>= λ rows'. some (ref_at (i + 1) rows'))
  unfolding ref_step
  ref_step_lem i rows c =
      let q : i % stride n < stride n = mod-lt i (omega arith) in
      >>=_cong (append_at rows (row_of n i) c) (λ rows'.
        rw
          (
            turn_round_lem n h (i % stride n) q,
            move_lem n h (i % stride n) q,
            mod-suc i (stride n) (omega arith),
          )
          (ap
            (λ d. some (record {
              rows = rows';
              cur_row = row n (if leb (stride n) (i % stride n + 1) then 0 else i % stride n + 1);
              going_down = d;
            }))
            (flag_lem n h (i % stride n) q)))

  pub ref_loop_lem :
      (i : ℕ) (s : List A) (rows : List (List A))
      → (ref_loop n (ref_at i rows) s >>= λ st. some st.rows) ≡ scatter n i s rows
  unfolding ref_loop scatter
  ref_loop_lem i [] rows = refl
  ref_loop_lem i (c ∷ cs) rows =
      rw (ref_step_lem i rows c) (elim (Option-cases (append_at rows (row_of n i) c)) [
        | inl fault ↦ rw fault refl
        | inr (rows', e) ↦ rw e (ref_loop_lem (i + 1) cs rows')
      ])

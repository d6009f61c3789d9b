-- ===== src/Zigzag/BaseLoop.antt =====
-- The loops of `convert_base` (edu/train/zigzag.hpp) put every character into the buffer of its row.
use cpp_tricks.Common.{
  ℕ, zero, suc, ◌+◌, ◌*◌, ◌≤◌, ◌<◌, ◌≡◌, refl, sym, ap, ap₂, ◌∙◌, Option, some, List, [], ◌∷◌, ◌++◌,
  append-nil, append_assoc, arith, length, Bool-cases, inl, inr, ◌>>=◌, >>=_cong, >>=_assoc, leb,
  Bool, true, false, get_elem?, get_elem?-append_length, length-append,
}
use native.Mathlib.Nat.{mul-add-mod_self_right, mod-eq_of_lt}
use cpp_tricks.Zigzag.{up, stride, append_at}
use cpp_tricks.Zigzag.Base.{base_inner, base_outer}
use cpp_tricks.Zigzag.Spec.{row, row_of}
use cpp_tricks.Zigzag.Scatter.{scatter}
use cpp_tricks.Zigzag.Turns.{counter_at, direction_at, turn_lem, advance_lem}
use cpp_tricks.Zigzag.Segments.{segment, segment-add}

pub row_of_box : (n iter k : ℕ) → k < stride n → row_of n (iter * stride n + k) ≡ row n k
row_of_box n iter k q = ap (row n) (mul-add-mod_self_right iter (stride n) k ∙ mod-eq_of_lt q)

pub counter_at_start : (n : ℕ) → (0 ≡ counter_at n 0) × (up ≡ direction_at n 0)
counter_at_start n = ground arith

module _ {ℓ} {A : Type ℓ} (n : ℕ) (h : 1 < n) where
  -- `convert_base` at position `p`: read by index, and stop at the end of the string.
  module _ (s : List A) where
    abbrev pub at_end : ℕ → List (List A) → Bool
    at_end p rows = leb (length s) p

    abbrev pub place : ℕ → List (List A) → Option (List (List A))
    place p rows = get_elem? s p >>= λ c. append_at rows (row_of n p) c

    base_inner_lem :
        (k iter subidx : ℕ) (rows : List (List A))
        → subidx + k ≡ stride n
        → base_inner s n k iter subidx (counter_at n subidx) (direction_at n subidx) rows
          ≡ segment at_end place k (iter * stride n + subidx) rows
    unfolding base_inner segment
    base_inner_lem zero iter subidx rows e = refl
    base_inner_lem (suc k) iter subidx rows e =
        elim (Bool-cases (leb (length s) (iter * stride n + subidx))) [
          | inl stop ↦ rw stop refl
          | inr more ↦
              rw (more, turn_lem n subidx h (omega arith))
                (>>=_cong (get_elem? s (iter * stride n + subidx)) (λ c.
                    rw (row_of_box n iter subidx (omega arith)) (
                      >>=_cong (append_at rows (row n subidx) c) (λ rows'.
                        let e' : iter * stride n + subidx + 1 ≡ iter * stride n + (subidx + 1) =
                          omega arith in
                        rw (advance_lem n subidx h (omega arith), e')
                          (base_inner_lem k iter (subidx + 1) rows' (omega arith)))))
                  ∙ sym (>>=_assoc (get_elem? s (iter * stride n + subidx)) _ _))
        ]

    pub base_outer_lem :
        (m iter : ℕ) (rows : List (List A))
        → base_outer s n m iter rows ≡ segment at_end place (m * stride n) (iter * stride n) rows
    unfolding base_outer segment
    base_outer_lem zero iter rows = let e : 0 * stride n ≡ 0 = omega arith in rw e refl
    base_outer_lem (suc m) iter rows =
        let e : suc m * stride n ≡ stride n + m * stride n = omega arith in
        let e' : stride n + iter * stride n ≡ (iter + 1) * stride n = omega arith in
        let start : base_inner s n (stride n) iter 0 0 up rows
            ≡ segment at_end place (stride n) (iter * stride n) rows =
          ap₂ (λ c d. base_inner s n (stride n) iter 0 c d rows) (counter_at_start n).0
            (counter_at_start n).1
          ∙ base_inner_lem (stride n) iter 0 rows (omega arith)
          ∙ ap (λ p. segment at_end place (stride n) p rows) (omega arith) in
        rw
          (
            e,
            start,
            segment-add at_end place (λ p st done. ground arith) (stride n) (m * stride n),
            e',
          )
          (>>=_cong (segment at_end place (stride n) (iter * stride n) rows)
            (base_outer_lem m (iter + 1)))

    -- The segment that reaches the end of the string has placed every character.
    pub segment-scatter :
        (k : ℕ) (pre suf : List A) (rows : List (List A))
        → pre ++ suf ≡ s
        → length suf ≤ k
        → segment at_end place k (length pre) rows ≡ scatter n (length pre) suf rows
    unfolding segment scatter
    segment-scatter zero pre [] rows e q = refl
    segment-scatter (suc k) pre [] rows e q =
        let full : length s ≡ length pre = ap length (sym e ∙ append-nil pre) in
        let stop : at_end (length pre) rows ≡ true = ground arith in rw stop refl
    segment-scatter zero pre (c ∷ cs) rows e q = absurd (omega arith)
    segment-scatter (suc k) pre (c ∷ cs) rows e q =
        let full : length s ≡ length pre + suc (length cs) =
          ap length (sym e) ∙ length-append pre (c ∷ cs) in
        let more : at_end (length pre) rows ≡ false = ground arith in
        let here : get_elem? s (length pre) ≡ some c =
          ap (λ t. get_elem? t (length pre)) (sym e) ∙ get_elem?-append_length pre c cs in
        let len : length (pre ++ (c ∷ [])) ≡ length pre + 1 = length-append pre (c ∷ []) in
        rw (more, here)
          (>>=_cong (append_at rows (row_of n (length pre)) c) (λ rows'. rw (← len) (
            segment-scatter k (pre ++ (c ∷ [])) cs rows' (append_assoc pre (c ∷ []) cs ∙ e)
              (omega arith))))

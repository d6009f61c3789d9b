-- ===== src/Zigzag/Base.antt =====
-- edu/train/zigzag.hpp, `convert_base`: boxes of `kStride` characters read by index.
use cpp_tricks.Common.{
  ℕ, zero, suc, ◌+◌, ◌*◌, Option, some, List, [], leb, ◌==◌, if◌then◌else◌, ◌>>=◌, length,
  get_elem?, replicate,
}
use cpp_tricks.Zigzag.{Direction, up, stride, boxes, turn, advance, append_at, first_then_rest}

module _ {ℓ} {A : Type ℓ} (s : List A) (n : ℕ) where
  -- The inner loop with `k` rounds left: `subidx` is `kStride - k`.
  unfoldable pub base_inner : ℕ → ℕ → ℕ → ℕ → Direction → List (List A) → Option (List (List A))
  unfolding turn advance append_at
  base_inner zero iter subidx counter direction rows = some rows
  base_inner (suc k) iter subidx counter direction rows =
      let internal_ptr = iter * stride n + subidx in
      if leb (length s) internal_ptr then some rows else (do
        (counter', direction') ← turn n subidx counter direction
        c ← get_elem? s internal_ptr
        rows' ← append_at rows counter' c
        counter'' ← advance counter' direction'
        base_inner k iter (subidx + 1) counter'' direction' rows')

  -- The outer loop with `k` boxes left.
  unfoldable pub base_outer : ℕ → ℕ → List (List A) → Option (List (List A))
  unfolding base_inner
  base_outer zero iter rows = some rows
  base_outer (suc k) iter rows =
      base_inner (stride n) iter 0 0 up rows >>= λ rows'. base_outer k (iter + 1) rows'

  unfoldable pub convert_base : Option (List A)
  unfolding base_outer boxes first_then_rest
  convert_base =
      if n == 1
      then some s
      else (base_outer (boxes (length s) (stride n)) 0 (replicate n []) >>= first_then_rest)

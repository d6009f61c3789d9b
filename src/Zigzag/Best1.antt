-- ===== src/Zigzag/Best1.antt =====
-- edu/train/zigzag.hpp, `convert_best1`: as `convert_best`, with one inner loop down the rows and
-- one up.
use cpp_tricks.Common.{
  ℕ, zero, suc, ◌+◌, ◌-◌, Option, some, List, ◌==◌, if◌then◌else◌, ◌>>=◌, length,
}
use cpp_tricks.Zigzag.{stride, boxes}
use cpp_tricks.Zigzag.Best.{InPlace, put_letter, splice_all, in_place_start}

module _ {ℓ} {A : Type ℓ} where
  -- `for (subidx = 0; subidx < numRows; ++subidx)` with `k` rounds left
  unfoldable pub down_rows : ℕ → ℕ → InPlace A → Option (InPlace A)
  unfolding put_letter
  down_rows zero subidx st = some st
  down_rows (suc k) subidx st =
      if st.siter == length st.text
      then some st
      else (put_letter subidx st >>= λ st'. down_rows k (subidx + 1) st')

  -- `for (subidx = numRows - 2; subidx > 0; --subidx)`, by recursion on `subidx`
  unfoldable pub up_rows : ℕ → InPlace A → Option (InPlace A)
  unfolding put_letter
  up_rows zero st = some st
  up_rows (suc k) st =
      if st.siter == length st.text
      then some st
      else (put_letter (suc k) st >>= λ st'. up_rows k st')

  unfoldable pub best1_outer : ℕ → ℕ → InPlace A → Option (InPlace A)
  unfolding down_rows up_rows
  best1_outer n zero st = some st
  best1_outer n (suc k) st = do
    st' ← down_rows n 0 st
    st'' ← up_rows (n - 2) st'
    best1_outer n k st''

unfoldable pub convert_best1 {ℓ} : {A : Type ℓ} → List A → ℕ → Option (List A)
unfolding best1_outer boxes splice_all
convert_best1 s n =
    if n == 1
    then some s
    else (best1_outer n (boxes (length s) (stride n)) (in_place_start s n) >>= splice_all)

-- ===== src/Zigzag/Ref.antt =====
-- edu/train/zigzag.hpp, `convert_ref`: one pass that turns round at the first and the last row.
use cpp_tricks.Common.{
  ℕ, ◌+◌, ◌-◌, min, Bool, false, not, ◌||◌, Option, some, List, [], ◌∷◌, ◌==◌, if◌then◌else◌, ◌>>=◌,
  length, replicate,
}
use cpp_tricks.Zigzag.{retreat, append_at, concat_rows}

pub record RefState {ℓ} (A : Type ℓ) : Type ℓ where
  pub rows : List (List A)
  pub cur_row : ℕ
  pub going_down : Bool

-- `if (curRow == 0 || curRow == numRows - 1) goingDown = !goingDown;`
unfoldable pub turn_round : ℕ → ℕ → Bool → Bool
turn_round n cur going_down = if cur == 0 || cur == n - 1 then not going_down else going_down

-- `curRow += goingDown ? 1 : -1`
unfoldable pub move : Bool → ℕ → Option ℕ
unfolding retreat
move going_down cur = if going_down then some (cur + 1) else retreat cur 1

module _ {ℓ} {A : Type ℓ} (n : ℕ) where
  unfoldable pub ref_step : RefState A → A → Option (RefState A)
  unfolding append_at turn_round move
  ref_step st c = do
    rows ← append_at st.rows st.cur_row c
    let d = turn_round n st.cur_row st.going_down
    cur ← move d st.cur_row
    some (record { rows = rows; cur_row = cur; going_down = d })

  unfoldable pub ref_loop : RefState A → List A → Option (RefState A)
  unfolding ref_step
  ref_loop st [] = some st
  ref_loop st (c ∷ cs) = ref_step st c >>= λ st'. ref_loop st' cs

-- `int(s.size())` is exact for strings shorter than 2^31.
unfoldable pub convert_ref {ℓ} : {A : Type ℓ} → List A → ℕ → Option (List A)
unfolding ref_loop concat_rows
convert_ref s n =
    if n == 1
    then some s
    else (ref_loop n
          (record { rows = replicate (min n (length s)) []; cur_row = 0; going_down = false }) s
        >>= λ st. some (concat_rows [] st.rows))

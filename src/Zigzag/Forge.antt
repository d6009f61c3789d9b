-- ===== src/Zigzag/Forge.antt =====
-- edu/train/zigzag.hpp, `convert_forge`: one pass with a reset every `kStride`
-- characters.
use cpp_tricks.Common.{
  ℕ, ◌+◌, Option, some, List, [], ◌∷◌, leb, ◌==◌, if◌then◌else◌, ◌>>=◌, replicate,
}
use cpp_tricks.Zigzag.{Direction, up, stride, turn, advance, append_at, first_then_rest}

pub record Cursor {ℓ} (A : Type ℓ) : Type ℓ where
  pub rows : List (List A)
  pub subidx : ℕ
  pub counter : ℕ
  pub direction : Direction

module _ {ℓ} {A : Type ℓ} (n : ℕ) where
  unfoldable pub forge_step : Cursor A → A → Option (Cursor A)
  unfolding turn advance append_at
  forge_step st c = do
    (counter, direction) ← turn n st.subidx st.counter st.direction
    rows ← append_at st.rows counter c
    counter' ← advance counter direction
    if leb (stride n) (st.subidx + 1)
        then some (record { rows = rows; subidx = 0; counter = 0; direction = up })
        else some (record {
          rows = rows;
          subidx = st.subidx + 1;
          counter = counter';
          direction = direction;
        })

  unfoldable pub forge_loop : Cursor A → List A → Option (Cursor A)
  unfolding forge_step
  forge_loop st [] = some st
  forge_loop st (c ∷ cs) = forge_step st c >>= λ st'. forge_loop st' cs

  -- `new string[numRows]`, and `subidx`, `counter` and `direction` at their first values.
  abbrev pub forge_start : Cursor A
  forge_start = record { rows = replicate n []; subidx = 0; counter = 0; direction = up }

unfoldable pub convert_forge {ℓ} : {A : Type ℓ} → List A → ℕ → Option (List A)
unfolding forge_loop first_then_rest
convert_forge s n =
    if n == 1 then some s else (forge_loop n (forge_start n) s >>= λ st. first_then_rest st.rows)

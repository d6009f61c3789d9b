-- ===== src/Zigzag.antt =====
-- edu/train/zigzag.hpp: the text of a string written in a zigzag over `numRows` rows, read row by
-- row. This file holds what the five variants share: the row buffers and the moving row counter.
-- A string is a list over any alphabet; `none` is an access out of range, which C++ leaves
-- undefined (or reports by `std::out_of_range`). Reservations only choose where the characters
-- lie, and are not modelled.
pub mod Ref
pub mod Base
pub mod Forge
pub mod Best
pub mod Best1
pub mod Spec
pub mod Scatter
pub mod Turns
pub mod Segments
pub mod ForgeLoop
pub mod BaseLoop
pub mod RefLoop
pub mod InPlace
pub mod BestLoop
pub mod ReadBack
pub mod Equivalence
mod Tests
use cpp_tricks.Common.{
  ℕ, zero, suc, ◌+◌, ◌-◌, ◌*◌, ◌/◌, ◌%◌, Bool, Option, none, some, List, [], ◌∷◌, ◌++◌, leb, ◌==◌,
  if◌then◌else◌, ◌>>=◌,
}

-- `int direction`: 1 or -1.
pub data Direction : Type 0 where
  up : Direction
  down : Direction

-- `a - b` where a negative result is out of range.
unfoldable pub retreat : ℕ → ℕ → Option ℕ
retreat a b = if leb b a then some (a - b) else none

-- `counter += direction`
unfoldable pub advance : ℕ → Direction → Option ℕ
unfolding retreat
advance c up = some (c + 1)
advance c down = retreat c 1

-- `if (subidx == numRows) { counter -= 2; direction = -1; }`
unfoldable pub turn : ℕ → ℕ → ℕ → Direction → Option (ℕ × Direction)
unfolding retreat
turn n subidx counter direction =
    if subidx == n then (retreat counter 2 >>= λ c. some (c, down)) else some (counter, direction)

-- `kStride`
abbrev pub stride : ℕ → ℕ
stride n = (n - 1) * 2

-- `size`: the number of boxes of `kStride` characters.
unfoldable pub boxes : ℕ → ℕ → ℕ
boxes ssz k = if ssz % k == 0 then ssz / k else ssz / k + 1

module _ {ℓ} {A : Type ℓ} where
  -- `rows[i] += c`
  unfoldable pub append_at : List (List A) → ℕ → A → Option (List (List A))
  append_at [] i c = none
  append_at (r ∷ rs) zero c = some ((r ++ (c ∷ [])) ∷ rs)
  append_at (r ∷ rs) (suc i) c = append_at rs i c >>= λ rs'. some (r ∷ rs')

  -- `for (string row : rows) ret += row;`
  unfoldable pub concat_rows : List A → List (List A) → List A
  concat_rows ret [] = ret
  concat_rows ret (r ∷ rs) = concat_rows (ret ++ r) rs

  -- `string result = row_to_slice[0]; for (i = 1; i < numRows; ++i) result += row_to_slice[i];`
  unfoldable pub first_then_rest : List (List A) → Option (List A)
  unfolding concat_rows
  first_then_rest [] = none
  first_then_rest (r ∷ rs) = some (concat_rows r rs)

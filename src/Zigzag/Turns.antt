-- ===== src/Zigzag/Turns.antt =====
-- The counter and the direction of `convert_base`, `convert_best` and `convert_forge` at offset
-- `k` of a box.
use cpp_tricks.Common.{
  ℕ, ◌+◌, ◌-◌, ◌*◌, ◌≤◌, ◌<◌, ◌≡◌, some, arith, leb, if◌then◌else◌, ◌%◌, ◌==◌, Bool-cases, inl, inr,
}
use native.Mathlib.Nat.{div-add-mod, mod-lt}
use cpp_tricks.Zigzag.{Direction, up, down, stride, turn, advance, boxes}
use cpp_tricks.Zigzag.Spec.{row}

abbrev pub counter_at : ℕ → ℕ → ℕ
counter_at n k = if leb k n then k else stride n - k

abbrev pub direction_at : ℕ → ℕ → Direction
direction_at n k = if leb k n then up else down

-- The turn leads to the row of offset `k`, and to the direction of the next offset.
pub turn_lem :
    (n k : ℕ)
    → 1 < n
    → k < stride n
    → turn n k (counter_at n k) (direction_at n k) ≡ some (row n k, direction_at n (k + 1))
unfolding turn row
turn_lem n k h q = ground arith

pub advance_lem :
    (n k : ℕ)
    → 1 < n
    → k < stride n
    → advance (row n k) (direction_at n (k + 1)) ≡ some (counter_at n (k + 1))
unfolding advance row
advance_lem n k h q = ground arith

-- The boxes hold the whole string.
pub boxes-le : (ssz k : ℕ) → 0 < k → ssz ≤ boxes ssz k * k
unfolding boxes
boxes-le ssz k h = elim (Bool-cases (ssz % k == 0)) [
  | inl whole ↦ rw (whole, boxes) (grind (arith, div-add-mod ssz k))
  | inr rest ↦ rw (rest, boxes) (grind (arith, div-add-mod ssz k, mod-lt ssz {m = k} h))
]

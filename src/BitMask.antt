-- ===== src/BitMask.antt =====
-- projects/high_perf/bit_masking.cc, `DataLeafNode`: 512 values in a cube of side 8 and a byte of
-- mask for every 8 of them. `none` is a failed assert or an access out of range. Coordinates are
-- naturals, so the asserts on their signs hold; offsets stay below 512, far from any overflow.
pub mod Offsets
pub mod Active
mod Tests
use cpp_tricks.Common.{
  ℕ, zero, suc, ◌+◌, ◌-◌, ◌*◌, ◌/◌, ◌^◌, Option, none, some, List, [], ◌∷◌, ◌++◌, ltb, ◌&&◌,
  if◌then◌else◌, ◌>>=◌, bit_and, set_bit, test_bit, replicate, get_elem?, set,
}

abbrev pub dim : ℕ
dim = 8

abbrev pub log2_dim : ℕ
log2_dim = 3

pub record Leaf {ℓ} (T : Type ℓ) : Type ℓ where
  pub mask_bit_buffer : List ℕ
  pub data_buffer : List T

-- The constructor; `zero_value` is `T(0)`.
abbrev pub new_leaf {ℓ} : {T : Type ℓ} → T → Leaf T
new_leaf zero_value = record {
  mask_bit_buffer = replicate (dim * dim) 0;
  data_buffer = replicate (dim * dim * dim) zero_value;
}

-- `(x & (DIM - 1u)) << 2 * Log2Dim`, and so on
unfoldable pub to_offset : ℕ → ℕ → ℕ → Option ℕ
to_offset x y z =
    if ltb x 8 && ltb y 8 && ltb z 8
    then (let offset_x = bit_and x (dim - 1) * 2 ^ (2 * log2_dim) in
        let offset_xy = offset_x + bit_and y (dim - 1) * 2 ^ log2_dim in
        some (offset_xy + bit_and z (dim - 1)))
    else none

-- What `fromOffset` writes: `offset >> 6`, and the two parts of `offset & 63`.
unfoldable pub from_offset : ℕ → ℕ × ℕ × ℕ
from_offset offset =
    let x = offset / 2 ^ (log2_dim + log2_dim) in
    let n = bit_and offset (2 ^ (log2_dim + log2_dim) - 1) in
    (x, n / 2 ^ log2_dim, bit_and n (2 ^ log2_dim - 1))

-- A store in a vector: out of range is undefined.
unfoldable pub store_at {ℓ} : {T : Type ℓ} → List T → ℕ → T → Option (List T)
store_at xs i v = get_elem? xs i >>= λ old. some (set xs i v)

unfoldable pub set_active {ℓ} : {T : Type ℓ} → Leaf T → ℕ → ℕ → ℕ → T → Option (Leaf T)
unfolding to_offset store_at
set_active leaf x y z val = do
  offset ← to_offset x y z
  let index = offset / dim
  let shift = offset - index * dim
  cell ← get_elem? leaf.mask_bit_buffer index
  masks ← store_at leaf.mask_bit_buffer index (set_bit shift cell)
  values ← store_at leaf.data_buffer offset val
  some (record { mask_bit_buffer = masks; data_buffer = values })

-- The inner loop of `traverse` with `k` rounds left, at bit `i` and position `whole_mask_ptr`.
unfoldable pub traverse_cell : ℕ → ℕ → ℕ → ℕ → List ℕ
traverse_cell zero l i whole_mask_ptr = []
traverse_cell (suc k) l i whole_mask_ptr =
    let rest = traverse_cell k l (i + 1) (whole_mask_ptr + 1) in
    if test_bit i l then whole_mask_ptr ∷ rest else rest

-- The offsets that `traverse` collects.
unfoldable pub traverse_from : ℕ → List ℕ → List ℕ
unfolding traverse_cell
traverse_from whole_mask_ptr [] = []
traverse_from whole_mask_ptr (l ∷ ls) =
    traverse_cell dim l 0 whole_mask_ptr ++ traverse_from (whole_mask_ptr + dim) ls

abbrev pub traverse {ℓ} : {T : Type ℓ} → Leaf T → List ℕ
traverse leaf = traverse_from 0 leaf.mask_bit_buffer

-- ===== src/BitMask/Tests.antt =====
-- Runs of bit_masking.cc's leaf at concrete coordinates, and what the theorems say at them.
use cpp_tricks.Common.{
  ℕ, ◌+◌, ◌*◌, ◌≡◌, refl, some, [], ◌∷◌, ◌==◌, ◌||◌, if◌then◌else◌, ◌>>=◌, arith, length, get_elem?,
  test_bit,
}
use cpp_tricks.BitMask.{Leaf, new_leaf, set_active, traverse, traverse_from}
use cpp_tricks.BitMask.Active.{
  IsLeaf, is_active, filter, range, set_active-IsLeaf, new_leaf-IsLeaf, traverse-filter,
}

abbrev zeros : Leaf ℕ
zeros = new_leaf 0

two_found :
    (set_active zeros 0 1 2 5 >>= λ leaf.
    set_active leaf 1 0 0 6 >>= λ leaf'. some (traverse leaf'))
    ≡ some (10 ∷ 64 ∷ [])
unfolding set_active traverse_from test_bit
two_found = refl

set_active-IsLeaf_example :
    (leaf' : Leaf ℕ) × (set_active zeros 3 0 7 5 ≡ some leaf')
    × IsLeaf leaf'
    × ((j : ℕ)
        → is_active leaf'.mask_bit_buffer j
          ≡ (3 * 64 + 0 * 8 + 7 == j || is_active zeros.mask_bit_buffer j))
    × ((j : ℕ)
        → get_elem? leaf'.data_buffer j
          ≡ (if 3 * 64 + 0 * 8 + 7 == j then some 5 else get_elem? zeros.data_buffer j))
set_active-IsLeaf_example =
    set_active-IsLeaf zeros 3 0 7 5 (new_leaf-IsLeaf 0) (omega arith) (omega arith) (omega arith)

abbrev one_byte : Leaf ℕ
one_byte = record { mask_bit_buffer = 5 ∷ []; data_buffer = [] }

traverse-filter_example :
    traverse one_byte
    ≡ filter (is_active one_byte.mask_bit_buffer) (range 0 (length one_byte.mask_bit_buffer * 8))
traverse-filter_example = traverse-filter one_byte

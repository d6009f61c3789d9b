-- ===== src/Growing.antt =====
-- edu/courses/my-cs/no_certain_place/dyn_pro_test.cc, `TEST(Dyn, MaxGrow)`: for each element of an
-- array, the length of the longest growing subsequence that ends there. The elements are naturals,
-- which the loops only compare; `none` is an access out of range.
pub mod Longest
mod Tests
use cpp_tricks.Common.{
  ℕ, zero, suc, ◌+◌, max, Option, none, some, List, ltb, if◌then◌else◌, ◌>>=◌, length, get_elem?,
  set, replicate,
}

-- `for (int j = 0; j < i; ++j) if (v[j] < v[i]) d[i] = max(d[i], 1 + d[j]);`, for `k` rounds from `j` on.
unfoldable pub extend_from : ℕ → ℕ → ℕ → List ℕ → List ℕ → Option (List ℕ)
extend_from zero j i v d = some d
extend_from (suc k) j i v d = get_elem? v j >>= λ x. get_elem? v i >>= λ y. get_elem? d i >>= λ own.
    get_elem? d j >>= λ other.
    extend_from k (suc j) i v (if ltb x y then set d i (max own (1 + other)) else d)

-- The loop over `i`, for `k` rounds from `i` on.
unfoldable pub grow_from : ℕ → ℕ → List ℕ → List ℕ → Option (List ℕ)
grow_from zero i v d = some d
grow_from (suc k) i v d = extend_from i 0 i v (set d i 1) >>= λ d'. grow_from k (suc i) v d'

unfoldable pub longest : List ℕ → Option (List ℕ)
longest v = grow_from (length v) 0 v (replicate (length v) 0)

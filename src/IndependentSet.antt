-- ===== src/IndependentSet.antt =====
-- edu/courses/stanford2/cc/w3_lession_code.cc, `TEST(W3, Wis)`: the heaviest set of vertices on a path
-- without two neighbours, by a table, and the vertices of such a set. Vertex 0 is a guard. Weights are
-- naturals whose sums fit an int; `none` is an access out of range.
pub mod Best
pub mod Walk
mod Tests
use cpp_tricks.Common.{
  ℕ, zero, suc, ◌+◌, ◌-◌, max, Option, none, some, List, [], ◌∷◌, leb, if◌then◌else◌, ◌>>=◌, length,
  get_elem?, set, replicate,
}

-- The loop over `i`, for `k` rounds from `i = j + 2` on.
unfoldable pub fill : ℕ → ℕ → List ℕ → List ℕ → Option (List ℕ)
fill zero j weights a = some a
fill (suc k) j weights a = get_elem? a (suc j) >>= λ without. get_elem? a j >>= λ before.
    get_elem? weights (suc (suc j)) >>= λ w.
    fill k (suc j) weights (set a (suc (suc j)) (max without (before + w)))

-- `vector<int> A(W.size(), 0); A[1] = W[1];` and the loop.
unfoldable pub set_table : List ℕ → Option (List ℕ)
unfolding fill
set_table weights = get_elem? weights 1 >>= λ w.
    fill (length weights - 2) 0 weights (set (replicate (length weights) 0) 1 w)

-- `while (i >= 1)`: the vertices that are printed. At `i = 1` it reads `A[-1]`.
unfoldable pub chosen : List ℕ → List ℕ → ℕ → Option (List ℕ)
chosen weights a zero = some []
chosen weights a (suc zero) = none
chosen weights a (suc (suc i)) =
    let excluded = chosen weights a (suc i) in
    let included = chosen weights a i >>= λ rest. some (suc (suc i) ∷ rest) in
    get_elem? a (suc i) >>= λ without. get_elem? a i >>= λ before.
    get_elem? weights (suc (suc i)) >>= λ w. if leb (before + w) without then excluded else included

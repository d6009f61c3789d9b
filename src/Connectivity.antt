-- ===== src/Connectivity.antt =====
-- edu/courses/my-cs/connectivity_problem_test.cc: which of a list of links join two nodes that were
-- not joined, by labels (`quick_find`) and by trees (`quick_union`). The nodes are the numbers below
-- 20. `boost::lexical_cast<string>` is a parameter. `none` is an access out of range, of the ids or
-- of the input, which is read by twos, or the end of the fuel of a walk to a root.
pub mod Joined
pub mod Labels
pub mod Find
pub mod Trees
pub mod Union
mod Tests
use cpp_tricks.Common.{
  ℕ, zero, suc, ◌+◌, Bool, true, false, Option, none, some, List, [], ◌∷◌, ◌++◌, ◌==◌,
  if◌then◌else◌, ◌>>=◌, get_elem?, set,
}

-- `N`
abbrev pub node_count : ℕ
node_count = 20

-- `for (i = 0; i < N; i++) id[i] = i;`, from `i` on.
unfoldable pub numbers_from : ℕ → ℕ → List ℕ
numbers_from i zero = []
numbers_from i (suc k) = i ∷ numbers_from (i + 1) k

-- `lexical_cast<string>(p) + "-"` and `lexical_cast<string>(q) + " "`
abbrev pub link_text : (ℕ → List ℕ) → ℕ → ℕ → List ℕ
link_text cast p q = (cast p ++ (45 ∷ [])) ++ (cast q ++ (32 ∷ []))

-- `for (int i = 0; i < N; i++) if (id[i] == t) id[i] = id[q];`, from `i` on.
unfoldable pub relabel : ℕ → ℕ → ℕ → ℕ → List ℕ → Option (List ℕ)
relabel zero i t q ids = some ids
relabel (suc k) i t q ids = get_elem? ids i >>= λ x.
    get_elem? ids q >>= λ r. relabel k (i + 1) t q (if x == t then set ids i r else ids)

-- The loop of `quick_find` over the input, with the result so far.
unfoldable pub find_links : (ℕ → List ℕ) → List ℕ → List ℕ → List ℕ → Option (List ℕ)
find_links cast ids result [] = some result
find_links cast ids result (p ∷ []) = none
find_links cast ids result (p ∷ (q ∷ vpq)) =
    let skipped = find_links cast ids result vpq in
    get_elem? ids p >>= λ t. get_elem? ids q >>= λ r.
    if t == r
    then skipped
    else (relabel node_count 0 t q ids >>= λ ids'.
        find_links cast ids' (result ++ link_text cast p q) vpq)

unfoldable pub quick_find : (ℕ → List ℕ) → List ℕ → Option (List ℕ)
unfolding numbers_from find_links
quick_find cast vpq = find_links cast (numbers_from 0 node_count) [] vpq

-- `for (i = p; i != id[i]; i = id[i])`
unfoldable pub find_root : ℕ → List ℕ → ℕ → Option ℕ
find_root zero ids i = none
find_root (suc fuel) ids i =
    get_elem? ids i >>= λ x. if i == x then some i else find_root fuel ids x

-- The loop of `quick_union`.
unfoldable pub union_links : (ℕ → List ℕ) → ℕ → List ℕ → List ℕ → List ℕ → Option (List ℕ)
union_links cast fuel ids result [] = some result
union_links cast fuel ids result (p ∷ []) = none
union_links cast fuel ids result (p ∷ (q ∷ vpq)) =
    let skipped = union_links cast fuel ids result vpq in
    find_root fuel ids p >>= λ i. find_root fuel ids q >>= λ j.
    if i == j
    then skipped
    else union_links cast fuel (set ids i j) (result ++ link_text cast p q) vpq

unfoldable pub quick_union : (ℕ → List ℕ) → ℕ → List ℕ → Option (List ℕ)
unfolding numbers_from union_links
quick_union cast fuel vpq = union_links cast fuel (numbers_from 0 node_count) [] vpq

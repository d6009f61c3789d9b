-- ===== src/ShortestPath.antt =====
-- edu/courses/stanford1/cc/shortest_path.cc, `main` between reading and printing: Dijkstra's
-- algorithm over a vector of node infos, with the types of edu/courses/my-cs/details/graph_details.h.
-- Weights and node numbers are naturals. `none` is an access out of range, a failed assert, a sum
-- that overflows an int, or the end of the fuel.
pub mod Walks
pub mod Minimum
pub mod Relaxing
pub mod Rounds
pub mod Visiting
pub mod Search
pub mod Correct
mod Tests
use cpp_tricks.Common.{
  ℕ, zero, suc, ◌+◌, Bool, true, false, Option, none, some, List, [], ◌∷◌, ltb, ◌==◌, if◌then◌else◌,
  ◌>>=◌, length, get_elem?, set,
}

pub record Neighbor : Type 0 where
  pub weight : ℕ
  pub end : ℕ

abbrev pub k_max_val : ℕ
k_max_val = 1000000

-- An int is below it.
abbrev pub int_limit : ℕ
int_limit = 2147483648

pub record NodeInfo : Type 0 where
  pub d : ℕ
  pub visited : Bool
  pub idx : ℕ

-- `vector<NodeInfo> track(graph.size())`, and the loop that numbers the infos from `i` on.
unfoldable pub numbered : ℕ → List (List Neighbor) → List NodeInfo
numbered i [] = []
numbered i (ns ∷ graph) =
    record { d = k_max_val; visited = false; idx = i } ∷ numbered (i + 1) graph

-- `track[v_active].d = 0`
unfoldable pub start_track : List (List Neighbor) → Option (List NodeInfo)
unfolding numbered
start_track graph =
    let track = numbered 0 graph in
    get_elem? track 1 >>= λ info. some (set track 1 (record info { d = 0 }))

-- The distance by which the comparison goes: visited nodes count as unreached.
abbrev pub masked : NodeInfo → ℕ
masked o = if o.visited then k_max_val else o.d

-- `min_element` behind the position `j`, with the smallest so far and its position.
unfoldable pub min_from : ℕ → NodeInfo → ℕ → List NodeInfo → ℕ × NodeInfo
min_from at smallest j [] = (at, smallest)
min_from at smallest j (x ∷ xs) =
    let moved = min_from j x (j + 1) xs in
    let kept = min_from at smallest (j + 1) xs in
    if ltb (masked x) (masked smallest) then moved else kept

unfoldable pub min_element : List NodeInfo → Option (ℕ × NodeInfo)
unfolding min_from
min_element [] = none
min_element (x ∷ xs) = some (min_from 0 x 1 xs)

-- The body of the loop over the neighbors.
unfoldable pub relax : ℕ → List NodeInfo → Neighbor → Option (List NodeInfo)
relax root_d track n = get_elem? track n.end >>= λ info.
    if info.visited
    then some track
    else (if ltb (root_d + n.weight) int_limit
        then some (
            if ltb (root_d + n.weight) info.d
            then set track n.end (record info { d = root_d + n.weight })
            else track)
        else none)

unfoldable pub relax_all : ℕ → List NodeInfo → List Neighbor → Option (List NodeInfo)
unfolding relax
relax_all root_d track [] = some track
relax_all root_d track (n ∷ ns) = relax root_d track n >>= λ track'. relax_all root_d track' ns

-- `at->visited = true`, and the loop over the neighbors of the node.
unfoldable pub visit : List (List Neighbor) → List NodeInfo → ℕ → NodeInfo → Option (List NodeInfo)
unfolding relax_all
visit graph track at min_node = get_elem? graph at >>= λ neighbors.
    relax_all min_node.d (set track at (record min_node { visited = true })) neighbors

-- `while (true)` on fuel.
unfoldable pub search_paths : ℕ → List (List Neighbor) → List NodeInfo → Option (List NodeInfo)
unfolding min_element visit
search_paths zero graph track = none
search_paths (suc fuel) graph track = min_element track >>= λ (at, min_node).
    if min_node.d == k_max_val
    then some track
    else (visit graph track at min_node >>= λ track'. search_paths fuel graph track')

unfoldable pub shortest_paths : ℕ → List (List Neighbor) → Option (List NodeInfo)
unfolding start_track search_paths
shortest_paths fuel graph = start_track graph >>= λ track. search_paths fuel graph track

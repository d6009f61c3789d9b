-- ===== src/ShortestPath/Tests.antt =====
-- Runs of shortest_path.cc's search at concrete graphs, and what the theorem says at one.
use cpp_tricks.Common.{
  true, ℕ, ◌≡◌, refl, none, some, List, [], ◌∷◌, map, ◌>>=◌, length, get_elem?, arith,
}
use cpp_tricks.ShortestPath.{Neighbor, NodeInfo, shortest_paths}
use cpp_tricks.ShortestPath.Walks.{IsGraph, all_edges, all_edges-IsGraph}
use cpp_tricks.ShortestPath.Correct.{IsDistance, shortest_paths-IsDistance}

-- 1 to 2 costs 7, or 1 + 2 over 3; node 4 is not reached.
abbrev roads : List (List Neighbor)
roads =
    []
    ∷ (record { weight = 7; end = 2 } ∷ record { weight = 1; end = 3 } ∷ [])
    ∷ []
    ∷ (record { weight = 2; end = 2 } ∷ [])
    ∷ []
    ∷ []

distances :
    (shortest_paths 6 roads >>= λ track. some (map (λ x. x.d) track))
    ≡ some (1000000 ∷ 0 ∷ 3 ∷ 1 ∷ 1000000 ∷ [])
unfolding shortest_paths
distances = refl

-- An edge to node 0: once every node is visited, the search visits node 0 again and again.
abbrev back_to_zero : List (List Neighbor)
back_to_zero = [] ∷ (record { weight = 1; end = 0 } ∷ []) ∷ []

never_done : shortest_paths 1000 back_to_zero ≡ none
unfolding shortest_paths
never_done = refl

-- 1 and 2147483647 add up to no int.
abbrev too_far : List (List Neighbor)
too_far =
    []
    ∷ (record { weight = 1; end = 2 } ∷ [])
    ∷ (record { weight = 2147483647; end = 3 } ∷ [])
    ∷ []
    ∷ []

overflowed : shortest_paths 5 too_far ≡ none
unfolding shortest_paths
overflowed = refl

good_ends : all_edges (length roads) roads ≡ true
unfolding all_edges
good_ends = refl

roads-IsGraph : IsGraph roads
roads-IsGraph = all_edges-IsGraph roads (omega arith) good_ends

shortest_paths-IsDistance_example :
    (track : List NodeInfo) × (shortest_paths 6 roads ≡ some track)
    × (length track ≡ 5)
    × ((v : ℕ) (x : NodeInfo) → get_elem? track v ≡ some x → IsDistance roads v x.d)
shortest_paths-IsDistance_example = shortest_paths-IsDistance 6 roads roads-IsGraph (omega arith)

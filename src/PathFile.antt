-- ===== src/PathFile.antt =====
-- edu/courses/stanford1/cc/shortest_path.cc, `main` from the records of the file to the distances:
-- `build_graph` of graph_details.cc, and the search over the graph that it returns. ShortestPath has
-- natural weights and node numbers: the ints of the graph that `build_graph` returns are handed on
-- as naturals, which changes no number, and `none` is a negative one as well.
pub mod Rows
pub mod Distances
mod Tests
use cpp_tricks.Common.{ℕ, Bool, Option, none, some, List, [], ◌∷◌, ◌>>=◌}
use cpp_tricks.NodeLine.{ℤ, pos, negsuc}
use cpp_tricks.GraphInput.{done, build_graph}
use cpp_tricks.ShortestPath.{NodeInfo, shortest_paths}
use cpp_tricks.GraphInput
use cpp_tricks.ShortestPath

abbrev pub natural : ℤ → Option ℕ
natural (pos n) = some n
natural (negsuc n) = none

unfoldable pub natural_row : List GraphInput.Neighbor → Option (List ShortestPath.Neighbor)
natural_row [] = some []
natural_row (n ∷ ns) = natural n.weight >>= λ weight. natural n.end >>= λ end.
    natural_row ns >>= λ row. some (record { weight = weight; end = end } ∷ row)

unfoldable pub natural_graph :
    List (List GraphInput.Neighbor) → Option (List (List ShortestPath.Neighbor))
unfolding natural_row
natural_graph [] = some []
natural_graph (ns ∷ graph) =
    natural_row ns >>= λ row. natural_graph graph >>= λ rows. some (row ∷ rows)

unfoldable pub file_paths : Bool → (ℕ → List ℕ) → ℕ → List (List ℕ) → Option (List NodeInfo)
unfolding natural_graph build_graph shortest_paths
file_paths use_tbb parallel_for fuel records = elim (build_graph use_tbb parallel_for records) [
  | done graph ↦ natural_graph graph >>= shortest_paths fuel
  | _ ↦ none
]

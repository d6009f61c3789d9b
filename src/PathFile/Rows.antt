-- ===== src/PathFile/Rows.antt =====
-- shortest_path.cc: the rows of the graph that the lines of a file make.
use cpp_tricks.Common.{
  ℕ, zero, suc, ◌≡◌, ◌≢◌, refl, ap, sym, ◌∙◌, some, List, [], ◌∷◌, map, ◌>>=◌, length, get_elem?,
  some_injective, ℕ_discrete, inl, inr, ◌⊎◌,
}
use cpp_tricks.NodeLine.Lines.{value, Entry}
use cpp_tricks.GraphInput.Built.{Line, neighbors, node_of}
use cpp_tricks.PathFile.{natural_row, natural_graph}
use cpp_tricks.GraphInput
use cpp_tricks.ShortestPath

-- The neighbors that entries write.
abbrev pub row_of : List Entry → List ShortestPath.Neighbor
row_of es = map (λ e. record { weight = value e.weight; end = value e.node }) es

pub natural_row-neighbors : (es : List Entry) → natural_row (neighbors es) ≡ some (row_of es)
unfolding natural_row
natural_row-neighbors [] = refl
natural_row-neighbors (e ∷ es) = rw (natural_row-neighbors es) refl

-- Where every row is natural, so is the graph, row by row.
pub natural_graph-rows :
    (graph : List (List GraphInput.Neighbor))
    → ((u : ℕ) (ns : List GraphInput.Neighbor)
        → get_elem? graph u ≡ some ns
        → (row : List ShortestPath.Neighbor) × (natural_row ns ≡ some row))
    → (rows : List (List ShortestPath.Neighbor)) × (natural_graph graph ≡ some rows)
      × (length rows ≡ length graph)
      × ((u : ℕ) → get_elem? rows u ≡ (get_elem? graph u >>= natural_row))
unfolding natural_graph
natural_graph-rows [] k = ([], refl, refl, λ u. refl)
natural_graph-rows (ns ∷ graph) k =
    let (row, e) = k 0 ns refl in
    let (rows, run, same, at) = natural_graph-rows graph (λ u. k (suc u)) in
    (row ∷ rows, rw (natural_graph, e, run) refl, ap suc same, entry row rows e at)
  where
    entry :
        (row : List ShortestPath.Neighbor) (rows : List (List ShortestPath.Neighbor))
        → natural_row ns ≡ some row
        → ((u : ℕ) → get_elem? rows u ≡ (get_elem? graph u >>= natural_row))
        → (u : ℕ) → get_elem? (row ∷ rows) u ≡ (get_elem? (ns ∷ graph) u >>= natural_row)
    entry row rows e at zero = sym e
    entry row rows e at (suc u) = at u

-- A number is some line's, or no line's.
pub line-cases :
    (ls : List Line) (u : ℕ)
    → ((i : ℕ) × (l : Line) × (get_elem? ls i ≡ some l) × (value l.numeral ≡ u))
      ⊎ ((i m : ℕ) (ns : List GraphInput.Neighbor)
          → get_elem? (map node_of ls) i ≡ some (m, ns)
          → m ≢ u)
line-cases [] u = inr (λ i m ns e. let clash : ⊥ = cc in absurd clash)
line-cases (l ∷ ls) u = elim (ℕ_discrete (value l.numeral) u) [
  | yes same ↦ inl (0, l, refl, same)
  | no other ↦ elim (line-cases ls u) [
    | inl (i, l', at, same) ↦ inl (suc i, l', at, same)
    | inr absent ↦ inr (later absent other)
  ]
]
  where
    later :
        ((i m : ℕ) (ns : List GraphInput.Neighbor)
          → get_elem? (map node_of ls) i ≡ some (m, ns)
          → m ≢ u)
        → value l.numeral ≢ u
        → (i m : ℕ) (ns : List GraphInput.Neighbor)
        → get_elem? (map node_of (l ∷ ls)) i ≡ some (m, ns)
        → m ≢ u
    later absent other zero m ns e z = other (ap (λ q. q.0) (some_injective e) ∙ z)
    later absent other (suc i) m ns e z = absent i m ns e z

pub get_elem?-node_of :
    (ls : List Line) (i : ℕ) (l : Line)
    → get_elem? ls i ≡ some l
    → get_elem? (map node_of ls) i ≡ some (node_of l)
get_elem?-node_of [] i l e = let clash : ⊥ = cc in absurd clash
get_elem?-node_of (x ∷ ls) zero l e = ap (λ q. some (node_of q)) (some_injective e)
get_elem?-node_of (x ∷ ls) (suc i) l e = get_elem?-node_of ls i l e

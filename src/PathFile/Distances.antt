-- ===== src/PathFile/Distances.antt =====
-- shortest_path.cc: from the text of a file to the lengths of shortest walks.
use cpp_tricks.Common.{
  ℕ, zero, suc, ◌+◌, ◌≤◌, ◌<◌, ◌≡◌, ◌≢◌, refl, ap, sym, ◌∙◌, true, none, some, List, [], ◌∷◌, map,
  ◌>>=◌, length, get_elem?, replicate, some_injective, get_elem?-replicate, length-replicate,
  lt_of_get_elem?, Option-cases, inl, inr, ◌⊎◌, arith,
}
use cpp_tricks.NodeLine.Lines.{value, Entry}
use cpp_tricks.GraphInput.{done, build_graph}
use cpp_tricks.GraphInput.Places.{AreDistinct, IsPlaced}
use cpp_tricks.GraphInput.Parallel.{CoversRange}
use cpp_tricks.GraphInput.Built.{Line, text, AreLines, neighbors, node_of, build_graph-IsPlaced}
use cpp_tricks.ShortestPath.{k_max_val, int_limit, NodeInfo, shortest_paths}
use cpp_tricks.ShortestPath.Walks.{IsGraph}
use cpp_tricks.ShortestPath.Correct.{IsDistance, shortest_paths-IsDistance}
use cpp_tricks.PathFile.{natural_row, natural_graph, file_paths}
use cpp_tricks.PathFile.Rows.{
  row_of, natural_row-neighbors, natural_graph-rows, line-cases, get_elem?-node_of,
}
use cpp_tricks.GraphInput
use cpp_tricks.ShortestPath

-- Every entry leads to a node from 1 to the number of lines, and its weight and kMaxVal add up to at
-- most 2^31.
abbrev pub HasEnds : List Line → Type 0
HasEnds ls =
    (i k : ℕ) (l : Line) (e : Entry)
    → get_elem? ls i ≡ some l
    → get_elem? l.entries k ≡ some e
    → (0 < value e.node) × (value e.node ≤ length ls) × (value e.weight + k_max_val ≤ int_limit)

-- The rows of a graph are the entries of the lines, at their numbers.
abbrev pub HasRows : List Line → List (List ShortestPath.Neighbor) → Type 0
HasRows ls rows =
    (length rows ≡ length ls + 1)
    × ((i : ℕ) (l : Line)
        → get_elem? ls i ≡ some l
        → get_elem? rows (value l.numeral) ≡ some (row_of l.entries))
    × ((u : ℕ) (row : List ShortestPath.Neighbor)
        → get_elem? rows u ≡ some row
        → ((i : ℕ) × (l : Line) × (get_elem? ls i ≡ some l) × (value l.numeral ≡ u)) ⊎ (row ≡ []))

nothing-natural : natural_row [] ≡ some []
unfolding natural_row
nothing-natural = refl

length-empty :
    (ls : List Line)
    → length (replicate {A = List GraphInput.Neighbor} (length ls + 1) []) ≡ length ls + 1
length-empty ls = length-replicate (length ls + 1) []

placed-cases :
    (ls : List Line) (graph : List (List GraphInput.Neighbor))
    → IsPlaced (map node_of ls) (replicate (length ls + 1) []) graph
    → (u : ℕ) (ns : List GraphInput.Neighbor) → get_elem? graph u ≡ some ns
    → ((i : ℕ) × (l : Line) × (get_elem? ls i ≡ some l)
        × (value l.numeral ≡ u)
        × (ns ≡ neighbors l.entries))
      ⊎ (ns ≡ [])
placed-cases ls graph (sized, at, others) u ns e = elim (line-cases ls u) [
  | inl (i, l, here, same) ↦
      let placed = at i (value l.numeral) (neighbors l.entries) (get_elem?-node_of ls i l here) in
      inl (i, l, here, same, some_injective (sym e ∙ ap (get_elem? graph) (sym same) ∙ placed))
  | inr absent ↦
      let made = length-empty ls in
      let low = lt_of_get_elem? graph u e in
      let fresh : get_elem? graph u ≡ some [] =
        others u absent
        ∙ get_elem?-replicate (length ls + 1) u [] (omega (arith, low, sized, made)) in
      inr (some_injective (sym e ∙ fresh))
]

natural-HasRows :
    (ls : List Line) (graph : List (List GraphInput.Neighbor))
    → IsPlaced (map node_of ls) (replicate (length ls + 1) []) graph
    → (rows : List (List ShortestPath.Neighbor)) × (natural_graph graph ≡ some rows)
      × HasRows ls rows
natural-HasRows ls graph placed =
    let (rows, run, same, at) =
      natural_graph-rows graph (λ u ns e. natural u ns e (placed-cases ls graph placed u ns e)) in
    (rows, run, (same ∙ placed.0 ∙ length-empty ls, written rows at, only rows at))
  where
    natural :
        (u : ℕ) (ns : List GraphInput.Neighbor)
        → get_elem? graph u ≡ some ns
        → ((i : ℕ) × (l : Line) × (get_elem? ls i ≡ some l)
            × (value l.numeral ≡ u)
            × (ns ≡ neighbors l.entries))
          ⊎ (ns ≡ [])
        → (row : List ShortestPath.Neighbor) × (natural_row ns ≡ some row)
    natural u ns e (inl (i, l, here, same, is_row)) =
        (row_of l.entries, ap natural_row is_row ∙ natural_row-neighbors l.entries)
    natural u ns e (inr empty) = ([], ap natural_row empty ∙ nothing-natural)

    written :
        (rows : List (List ShortestPath.Neighbor))
        → ((u : ℕ) → get_elem? rows u ≡ (get_elem? graph u >>= natural_row))
        → (i : ℕ) (l : Line) → get_elem? ls i ≡ some l
        → get_elem? rows (value l.numeral) ≡ some (row_of l.entries)
    written rows at i l here =
        let found =
          placed.1 i (value l.numeral) (neighbors l.entries) (get_elem?-node_of ls i l here) in
        at (value l.numeral) ∙ ap (λ o. o >>= natural_row) found ∙ natural_row-neighbors l.entries

    only :
        (rows : List (List ShortestPath.Neighbor))
        → ((u : ℕ) → get_elem? rows u ≡ (get_elem? graph u >>= natural_row))
        → (u : ℕ) (row : List ShortestPath.Neighbor) → get_elem? rows u ≡ some row
        → ((i : ℕ) × (l : Line) × (get_elem? ls i ≡ some l) × (value l.numeral ≡ u)) ⊎ (row ≡ [])
    only rows at u row e = elim (Option-cases (get_elem? graph u)) [
      | inl gone ↦
          let clash : none ≡ some row = sym (at u ∙ ap (λ o. o >>= natural_row) gone) ∙ e in cc
      | inr (ns, here) ↦ elim (placed-cases ls graph placed u ns here) [
        | inl (i, l, found, same, is_row) ↦ inl (i, l, found, same)
        | inr empty ↦
            let read : get_elem? rows u ≡ natural_row ns =
              at u ∙ ap (λ o. o >>= natural_row) here in
            inr (some_injective (sym e ∙ read ∙ ap natural_row empty ∙ nothing-natural))
      ]
    ]

-- The neighbors of a row come from an entry.
row_of-entry :
    (es : List Entry) (k : ℕ) (n : ShortestPath.Neighbor)
    → get_elem? (row_of es) k ≡ some n
    → (e : Entry) × (get_elem? es k ≡ some e) × (n.end ≡ value e.node) × (n.weight ≡ value e.weight)
row_of-entry [] k n e = let clash : ⊥ = cc in absurd clash
row_of-entry (x ∷ es) zero n e =
    (x, refl, ap (λ q. q.end) (sym (some_injective e)), ap (λ q. q.weight) (sym (some_injective e)))
row_of-entry (x ∷ es) (suc k) n e = row_of-entry es k n e

HasRows-IsGraph :
    (ls : List Line) (rows : List (List ShortestPath.Neighbor))
    → 0 < length ls
    → HasEnds ls
    → HasRows ls rows
    → IsGraph rows
HasRows-IsGraph ls rows some_line low (sized, written, only) = record {
  has_start = omega (arith, sized, some_line);
  ends = λ u k row n at here. (ends u k row n at here (only u row at)).0;
  small = λ u k row n at here. (ends u k row n at here (only u row at)).1;
}
  where
    ends :
        (u k : ℕ) (row : List ShortestPath.Neighbor) (n : ShortestPath.Neighbor)
        → get_elem? rows u ≡ some row
        → get_elem? row k ≡ some n
        → ((i : ℕ) × (l : Line) × (get_elem? ls i ≡ some l) × (value l.numeral ≡ u)) ⊎ (row ≡ [])
        → ((n.end < length rows) × (n.end ≢ 0)) × (n.weight + k_max_val ≤ int_limit)
    ends u k row n at here (inl (i, l, found, same)) =
        let is_row = some_injective (sym at ∙ ap (get_elem? rows) (sym same) ∙ written i l found) in
        let (e, entry, leads, costs) =
          row_of-entry l.entries k n (ap (λ q. get_elem? q k) (sym is_row) ∙ here) in
        let (positive, le, small) = low i k l e found entry in
        (
          (omega (arith, leads, le, sized), λ z. omega (arith, z, leads, positive)),
          omega (arith, costs, small),
        )
    ends u k row n at here (inr empty) =
        let clash : none ≡ some n = ap (λ q. get_elem? q k) (sym empty) ∙ here in cc

-- On the lines of a file with distinct numbers up to the number of lines, whose entries lead to the
-- nodes from 1 to that number and weigh at most 2^31 - kMaxVal, with TBB and with fuel above the number of nodes, the program ends,
-- and no sum overflows an int:
-- there is a graph that holds each line's entries at its number and nothing elsewhere, and the info
-- of each node holds the length of a shortest walk in it from node 1, or kMaxVal where no walk is
-- shorter than that.
pub file_paths-IsDistance :
    (parallel_for : ℕ → List ℕ) (fuel : ℕ) (ls : List Line)
    → CoversRange parallel_for
    → AreLines ls
    → 0 < length ls
    → AreDistinct (map node_of ls)
    → ((i k : ℕ) (ns : List GraphInput.Neighbor)
        → get_elem? (map node_of ls) i ≡ some (k, ns)
        → k ≤ length ls)
    → HasEnds ls
    → length ls + 1 < fuel
    → (rows : List (List ShortestPath.Neighbor)) × (track : List NodeInfo) × (file_paths true
          parallel_for fuel
          (map text ls)
        ≡ some track)
      × (length track ≡ length ls + 1)
      × HasRows ls rows
      × ((v : ℕ) (x : NodeInfo) → get_elem? track v ≡ some x → IsDistance rows v x.d)
unfolding file_paths
file_paths-IsDistance parallel_for fuel ls covers k some_line apart low ends lt =
    let (graph, built, placed) =
      build_graph-IsPlaced parallel_for ls covers k some_line apart low in
    let (rows, converted, has_rows) = natural-HasRows ls graph placed in
    let sized = has_rows.0 in
    let (track, run, same, distances) =
      shortest_paths-IsDistance fuel rows (HasRows-IsGraph ls rows some_line ends has_rows)
        (omega (arith, sized, lt)) in
    (rows, track, rw (file_paths, built, converted) run, same ∙ sized, has_rows, distances)

-- ===== src/GraphInput/Built.antt =====
-- graph_details.cc: build_graph from the lines of a file, and what it is without `USE_TBB`.
use cpp_tricks.Common.{
  ℕ, zero, suc, ◌+◌, ◌≤◌, ◌<◌, ◌≡◌, refl, true, false, some, List, [], ◌∷◌, ◌++◌, map, ◌==◌,
  if◌then◌else◌, length, get_elem?, replicate, length-map, length-append, arith, subst,
}
use cpp_tricks.NodeLine.{tab, comma, pos}
use cpp_tricks.NodeLine.Lines.{value, IsNumeral, Entry, AreEntries, entries_text, arrow_of}
use cpp_tricks.NodeLine.RoundTrip.{AreTrimmed, parse_node_data-line}
use cpp_tricks.GraphInput.{
  Neighbor, raw_node, done, broken, edge_maker, neighbor, insert_all, yield, process_serial,
  build_graph,
}
use cpp_tricks.GraphInput.Places.{Node, raw, AreDistinct, IsPlaced, graph_of-IsPlaced}
use cpp_tricks.GraphInput.Parallel.{CoversRange, process_parallel-serial}

-- A line of a file: a number, its entries, and blanks behind them.
pub record Line : Type 0 where
  pub numeral : List ℕ
  pub entries : List Entry
  pub trailing : List ℕ

abbrev pub text : Line → List ℕ
text l = l.numeral ++ entries_text tab l.entries l.trailing

abbrev pub AreLines : List Line → Type 0
AreLines [] = Unit {0}
AreLines (l ∷ ls) =
    (IsNumeral l.numeral × AreEntries l.entries × AreTrimmed l.trailing) × AreLines ls

abbrev pub neighbors : List Entry → List Neighbor
neighbors es = map (λ a. neighbor (edge_maker a)) (map arrow_of es)

-- The number of a line and its neighbors.
abbrev pub node_of : Line → Node
node_of l = (value l.numeral, neighbors l.entries)

length-entries : (c : ℕ) (es : List Entry) (t : List ℕ) → length es ≤ length (entries_text c es t)
unfolding entries_text
length-entries c [] t = omega arith
length-entries c (e ∷ es) t =
    let rest = length-entries c es t in
    let inner = length-append e.weight (entries_text c es t) in
    let outer = length-append e.node (comma ∷ (e.weight ++ entries_text c es t)) in
    omega (arith, rest, inner, outer)

yield-line :
    (l : Line)
    → IsNumeral l.numeral
    → AreEntries l.entries
    → AreTrimmed l.trailing
    → yield (text l) ≡ done (raw (node_of l))
unfolding yield
yield-line l k ks trimmed =
    let few = length-entries tab l.entries l.trailing in
    let whole = length-append l.numeral (entries_text tab l.entries l.trailing) in
    rw
      (
        yield,
        parse_node_data-line (suc (length (text l))) l.numeral l.entries l.trailing k ks trimmed
            (omega (arith, few, whole)),
      )
      refl

process_serial-lines :
    (ls : List Line) → AreLines ls → process_serial (map text ls) ≡ done (map raw (map node_of ls))
unfolding process_serial
process_serial-lines [] k = refl
process_serial-lines (l ∷ ls) ((n, es, t), k) =
    rw (process_serial, yield-line l n es t, process_serial-lines ls k) refl

-- With TBB, on the lines of a file with distinct numbers up to the number of lines, build_graph
-- passes its asserts without a write out of range: the graph has one node more than there are
-- lines, each line's neighbors stand at its number in their order, and no other node has neighbors.
pub build_graph-IsPlaced :
    (parallel_for : ℕ → List ℕ) (ls : List Line)
    → CoversRange parallel_for
    → AreLines ls
    → 0 < length ls
    → AreDistinct (map node_of ls)
    → ((i k : ℕ) (ns : List Neighbor) → get_elem? (map node_of ls) i ≡ some (k, ns) → k ≤ length ls)
    → (graph : List (List Neighbor)) × (build_graph true parallel_for (map text ls) ≡ done graph)
      × IsPlaced (map node_of ls) (replicate (length ls + 1) []) graph
unfolding build_graph
build_graph-IsPlaced parallel_for ls covers k some_line apart low =
    let size = length-map ls node_of in
    let texts = length-map ls text in
    let (graph, run, placed) =
      graph_of-IsPlaced (map node_of ls) (omega (arith, size, some_line)) apart
        (λ i q ns e. let le = low i q ns e in omega (arith, le, size)) in
    (
      graph,
      rw
          (
            build_graph,
            process_parallel-serial parallel_for (map text ls) covers
                (omega (arith, texts, some_line)),
            process_serial-lines ls k,
          )
          run,
      subst (λ n. IsPlaced (map node_of ls) (replicate (n + 1) []) graph) size placed,
    )

insert_all-same : (n : ℕ) → insert_all (pos 0 ∷ []) (replicate n raw_node) ≡ pos 0 ∷ []
unfolding insert_all
insert_all-same zero = refl
insert_all-same (suc n) = insert_all-same n

-- Without TBB, no record is read: build_graph fails an assert unless there is exactly one record,
-- and then the graph is two nodes without neighbors, whatever the record says.
pub build_graph-unread :
    (parallel_for : ℕ → List ℕ) (records : List (List ℕ))
    → build_graph false parallel_for records
      ≡ (if length records == 1 then done ([] ∷ [] ∷ []) else broken)
unfolding build_graph
build_graph-unread parallel_for [] = refl
build_graph-unread parallel_for (r ∷ []) = refl
build_graph-unread parallel_for (r ∷ (s ∷ rest)) =
    let few = insert_all-same (length rest) in
    let made = length (replicate (length rest) raw_node) in
    let some_node : suc (suc made) == 0 ≡ false = ground arith in
    let unequal : 1 == suc (suc made) ≡ false = ground arith in
    let several : suc (suc (length rest)) == 1 ≡ false = ground arith in
    rw (few, some_node, unequal, several) refl

-- ===== src/GraphInput.antt =====
-- edu/courses/my-cs/details/graph_details.cc: the graph of a file's lines, each read by
-- `parse_node_data`. `USE_TBB` is a flag of the build; `tbb::parallel_for` is not code of the
-- repository, and enters as the order in which it applies the body to the indices.
pub mod Places
pub mod Parallel
pub mod Built
pub mod Tests
use cpp_tricks.Common.{
  ℕ, zero, suc, ◌+◌, Bool, true, false, ◌||◌, Option, none, some, List, [], ◌∷◌, map, ltb, ◌==◌,
  if◌then◌else◌, length, get_elem?, set, replicate,
}
use cpp_tricks.NodeLine.{ℤ, pos, negsuc, Arrow, Parsed, parsed, invalid_argument, parse_node_data}

pub record EdgeMaker : Type 0 where
  pub weight : ℤ
  pub end : ℤ

pub record Neighbor : Type 0 where
  pub weight : ℤ
  pub end : ℤ

-- `EdgeMaker(const io_details::Arrow& a)`
abbrev pub edge_maker : Arrow → EdgeMaker
edge_maker a = record { weight = a.weight; end = a.end }

-- `Neighbor(const EdgeMaker& maker)`
abbrev pub neighbor : EdgeMaker → Neighbor
neighbor maker = record { weight = maker.weight; end = maker.end }

-- `pair<int, Neighbors>`, with what a new one holds.
abbrev pub RawNode : Type 0
RawNode = ℤ × List Neighbor

abbrev pub raw_node : RawNode
raw_node = (pos 0, [])

-- What a call does: it returns, lets an exception out, or breaks: a failed assert, or a write out of range.
pub data Outcome (A : Type 0) : Type 0 where
  done : A → Outcome A
  thrown broken : Outcome A

abbrev pub bind : {A B : Type 0} → Outcome A → (A → Outcome B) → Outcome B
bind (done a) f = f a
bind thrown f = thrown
bind broken f = broken

abbrev pub raw_of : Option (Parsed (ℤ × List Arrow)) → Outcome RawNode
raw_of none = broken
raw_of (some invalid_argument) = thrown
raw_of (some (parsed (root, arrows))) = done (root, map (λ a. neighbor (edge_maker a)) arrows)

-- `RawYieldFunctor::operator()`; the parser ends with this fuel.
unfoldable pub yield : List ℕ → Outcome RawNode
unfolding parse_node_data
yield line = raw_of (parse_node_data (suc (length line)) line)

-- `transform` with the functor.
unfoldable pub process_serial : List (List ℕ) → Outcome (List RawNode)
unfolding yield
process_serial [] = done []
process_serial (r ∷ rs) = bind (yield r) (λ x. bind (process_serial rs) (λ xs. done (x ∷ xs)))

-- `ApplyFoo` at the indices in their order: `out[i] = op(array[i])`.
unfoldable pub apply_foo : List ℕ → List (List ℕ) → List RawNode → Outcome (List RawNode)
unfolding yield
apply_foo [] array out = done out
apply_foo (i ∷ indices) array out = elim (get_elem? array i) [
  | none ↦ broken
  | some r ↦ bind (yield r) (λ x. apply_foo indices array (set out i x))
]

-- With TBB, `&records[0]` is undefined where there is no record.
unfoldable pub process_parallel : Bool → (ℕ → List ℕ) → List (List ℕ) → Outcome (List RawNode)
unfolding apply_foo
process_parallel use_tbb parallel_for records =
    let raw_nodes = replicate (length records) raw_node in
    if use_tbb
    then (if length records == 0
        then broken
        else apply_foo (parallel_for (length records)) records raw_nodes)
    else done raw_nodes

unfoldable pub same_int : ℤ → ℤ → Bool
same_int (pos n) (pos m) = n == m
same_int (negsuc n) (negsuc m) = n == m
same_int (pos n) (negsuc m) = false
same_int (negsuc n) (pos m) = false

unfoldable pub contains : ℤ → List ℤ → Bool
unfolding same_int
contains k [] = false
contains k (x ∷ xs) = same_int k x || contains k xs

-- `unique_check.insert(val.first)`, for each.
unfoldable pub insert_all : List ℤ → List RawNode → List ℤ
unfolding contains
insert_all unique_check [] = unique_check
insert_all unique_check (x ∷ xs) =
    insert_all (if contains x.0 unique_check then unique_check else (x.0 ∷ unique_check)) xs

-- `graph[elem.first] = elem.second`
unfoldable pub place : List (List Neighbor) → RawNode → Outcome (List (List Neighbor))
place graph (negsuc k, ns) = broken
place graph (pos k, ns) = if ltb k (length graph) then done (set graph k ns) else broken

unfoldable pub place_all : List (List Neighbor) → List RawNode → Outcome (List (List Neighbor))
unfolding place
place_all graph [] = done graph
place_all graph (x ∷ xs) = bind (place graph x) (λ graph'. place_all graph' xs)

-- Behind the nodes: the two asserts, and the graph with a node 0 that no line needs.
unfoldable pub graph_of : List RawNode → Outcome (List (List Neighbor))
unfolding insert_all place_all
graph_of raw_nodes =
    if length raw_nodes == 0
    then broken
    else (if length (insert_all [] raw_nodes) == length raw_nodes
        then place_all (replicate (length raw_nodes + 1) []) raw_nodes
        else broken)

unfoldable pub build_graph : Bool → (ℕ → List ℕ) → List (List ℕ) → Outcome (List (List Neighbor))
unfolding process_parallel graph_of
build_graph use_tbb parallel_for records =
    bind (process_parallel use_tbb parallel_for records) graph_of

-- ===== src/GraphInput/Places.antt =====
-- graph_details.cc: nodes with distinct numbers in range pass the asserts, and each finds its place.
use cpp_tricks.Common.{
  ℕ, zero, suc, ◌+◌, ◌≤◌, ◌<◌, ◌≡◌, ◌≢◌, refl, ap, sym, ◌∙◌, true, false, some, List, [], ◌∷◌, map,
  ◌==◌, length, get_elem?, set, replicate, length-set, length-map, length-replicate,
  get_elem?-set_self, get_elem?-set_ne, lt→ltb, ==_iff, some_injective, arith, Bool-cases, inl, inr,
  subst,
}
use cpp_tricks.NodeLine.{ℤ, pos}
use cpp_tricks.GraphInput.{
  Neighbor, RawNode, done, contains, same_int, insert_all, place, place_all, graph_of,
}

-- A node with a number from 0 on.
abbrev pub Node : Type 0
Node = ℕ × List Neighbor

abbrev pub raw : Node → RawNode
raw (k, ns) = (pos k, ns)

-- No number stands at two positions.
abbrev pub AreDistinct : List Node → Type 0
AreDistinct nodes =
    (i j k : ℕ) (ns ms : List Neighbor)
    → get_elem? nodes i ≡ some (k, ns)
    → get_elem? nodes j ≡ some (k, ms)
    → i ≡ j

later-AreDistinct : (x : Node) (xs : List Node) → AreDistinct (x ∷ xs) → AreDistinct xs
later-AreDistinct x xs apart i j k ns ms e f =
    let same = apart (suc i) (suc j) k ns ms e f in omega (arith, same)

later-ne :
    (k : ℕ) (ns : List Neighbor) (xs : List Node)
    → AreDistinct ((k, ns) ∷ xs)
    → (j m : ℕ) (ms : List Neighbor) → get_elem? xs j ≡ some (m, ms)
    → k ≢ m
later-ne k ns xs apart j m ms e same =
    let f : get_elem? xs j ≡ some (k, ms) = e ∙ ap (λ q. some (q, ms)) (sym same) in
    let clash = apart 0 (suc j) k ns ms refl f in absurd (omega (arith, clash))

ne-same_int : (k m : ℕ) → k ≢ m → same_int (pos m) (pos k) ≡ false
unfolding same_int
ne-same_int k m ne = elim (Bool-cases (m == k)) [
  | inl t ↦ absurd (ne (sym ((==_iff m k).0 t)))
  | inr f ↦ f
]

-- Distinct numbers that the set does not hold all go into it.
insert_all-length :
    (s : List ℤ) (nodes : List Node)
    → AreDistinct nodes
    → ((j k : ℕ) (ns : List Neighbor)
        → get_elem? nodes j ≡ some (k, ns)
        → contains (pos k) s ≡ false)
    → length (insert_all s (map raw nodes)) ≡ length s + length nodes
unfolding insert_all contains
insert_all-length s [] apart fresh = omega arith
insert_all-length s ((k, ns) ∷ nodes) apart fresh =
    let new = fresh 0 k ns refl in
    let rest =
      insert_all-length (pos k ∷ s) nodes (later-AreDistinct (k, ns) nodes apart) (λ j m ms e.
        rw (contains, ne-same_int k m (later-ne k ns nodes apart j m ms e), fresh (suc j) m ms e)
          refl) in
    rw (insert_all, new, rest) (omega arith)

-- Where the nodes of a graph stand: at their numbers, and all else is as it was.
abbrev pub IsPlaced : List Node → List (List Neighbor) → List (List Neighbor) → Type 0
IsPlaced nodes before after =
    (length after ≡ length before)
    × ((i k : ℕ) (ns : List Neighbor)
        → get_elem? nodes i ≡ some (k, ns)
        → get_elem? after k ≡ some ns)
    × ((k : ℕ)
        → ((i m : ℕ) (ns : List Neighbor) → get_elem? nodes i ≡ some (m, ns) → m ≢ k)
        → get_elem? after k ≡ get_elem? before k)

IsPlaced-cons :
    (graph after : List (List Neighbor)) (k : ℕ) (ns : List Neighbor) (nodes : List Node)
    → AreDistinct ((k, ns) ∷ nodes)
    → k < length graph
    → IsPlaced nodes (set graph k ns) after
    → IsPlaced ((k, ns) ∷ nodes) graph after
IsPlaced-cons graph after k ns nodes apart lt (kept, at, others) =
    (kept ∙ length-set graph k ns, places, rest)
  where
    here : get_elem? after k ≡ some ns
    here =
        others k (λ i m ms e z. later-ne k ns nodes apart i m ms e (sym z))
        ∙ get_elem?-set_self graph k ns lt

    places :
        (i m : ℕ) (ms : List Neighbor)
        → get_elem? ((k, ns) ∷ nodes) i ≡ some (m, ms)
        → get_elem? after m ≡ some ms
    places zero m ms e =
        let same : (k, ns) ≡ (m, ms) = some_injective e in
        subst (λ q. get_elem? after q.0 ≡ some q.1) same here
    places (suc i) m ms e = at i m ms e

    rest :
        (q : ℕ)
        → ((i m : ℕ) (ms : List Neighbor) → get_elem? ((k, ns) ∷ nodes) i ≡ some (m, ms) → m ≢ q)
        → get_elem? after q ≡ get_elem? graph q
    rest q absent =
        others q (λ i m ms e. absent (suc i) m ms e)
        ∙ get_elem?-set_ne graph ns (absent 0 k ns refl)

place_all-IsPlaced :
    (graph : List (List Neighbor)) (nodes : List Node)
    → AreDistinct nodes
    → ((i k : ℕ) (ns : List Neighbor) → get_elem? nodes i ≡ some (k, ns) → k < length graph)
    → (after : List (List Neighbor)) × (place_all graph (map raw nodes) ≡ done after)
      × IsPlaced nodes graph after
unfolding place_all place
place_all-IsPlaced graph [] apart low =
    (graph, refl, (refl, (λ i k ns e. let clash : ⊥ = cc in absurd clash), (λ k others. refl)))
place_all-IsPlaced graph ((k, ns) ∷ nodes) apart low =
    let lt = low 0 k ns refl in
    let same = length-set graph k ns in
    let (after, run, placed) =
      place_all-IsPlaced (set graph k ns) nodes (later-AreDistinct (k, ns) nodes apart)
        (λ i m ms e. let l = low (suc i) m ms e in omega (arith, l, same)) in
    (
      after,
      rw (place_all, lt→ltb k (length graph) lt) run,
      IsPlaced-cons graph after k ns nodes apart lt placed,
    )

contains-nothing : (k : ℕ) → contains (pos k) [] ≡ false
unfolding contains
contains-nothing k = refl

-- Behind both asserts, the graph is what the places make it.
graph_of-places :
    (nodes : List Node) (graph : List (List Neighbor))
    → 0 < length nodes
    → length (insert_all [] (map raw nodes)) ≡ length nodes
    → place_all (replicate (length nodes + 1) []) (map raw nodes) ≡ done graph
    → graph_of (map raw nodes) ≡ done graph
unfolding graph_of
graph_of-places nodes graph some_node all_in run =
    let some_raw : length nodes == 0 ≡ false = ground (arith, some_node) in
    let equal : length nodes == length nodes ≡ true =
      (==_iff (length nodes) (length nodes)).1 refl in
    rw (graph_of, all_in, length-map nodes raw, some_raw, equal) run

-- Distinct numbers up to the number of nodes: the graph holds each node at its number, and no
-- neighbors elsewhere.
pub graph_of-IsPlaced :
    (nodes : List Node)
    → 0 < length nodes
    → AreDistinct nodes
    → ((i k : ℕ) (ns : List Neighbor) → get_elem? nodes i ≡ some (k, ns) → k ≤ length nodes)
    → (graph : List (List Neighbor)) × (graph_of (map raw nodes) ≡ done graph)
      × IsPlaced nodes (replicate (length nodes + 1) []) graph
graph_of-IsPlaced nodes some_node apart low =
    let empty : List (List Neighbor) = replicate (length nodes + 1) [] in
    let made : length empty ≡ length nodes + 1 = length-replicate (length nodes + 1) [] in
    let all_new = insert_all-length [] nodes apart (λ j k ns e. contains-nothing k) in
    let (graph, run, placed) =
      place_all-IsPlaced empty nodes apart
        (λ i k ns e. let l = low i k ns e in omega (arith, l, made)) in
    let all_in : length (insert_all [] (map raw nodes)) ≡ length nodes = omega (arith, all_new) in
    (graph, graph_of-places nodes graph some_node all_in run, placed)

-- ===== src/ShortestPath/Walks.antt =====
-- shortest_path.cc: what the distances are about.
use cpp_tricks.Common.{
  ℕ, zero, suc, ◌+◌, ◌<◌, ◌≡◌, ◌≢◌, subst, Bool, true, ◌&&◌, not, some, List, [], ◌∷◌, ltb, ◌==◌,
  length, get_elem?, arith, some_injective, ◌≤◌, leb,
}
use cpp_tricks.ShortestPath.{k_max_val, int_limit, Neighbor}

-- A walk from node 1 to the node `v` whose weights add up to `c`.
pub data Walk (graph : List (List Neighbor)) : ℕ → ℕ → Type 0 where
  at_start : {v c : ℕ} → v ≡ 1 → c ≡ 0 → Walk graph v c
  along :
      {v c : ℕ} (u b : ℕ) (ns : List Neighbor) (k : ℕ) (n : Neighbor)
      → Walk graph u b
      → get_elem? graph u ≡ some ns
      → get_elem? ns k ≡ some n
      → n.end ≡ v
      → b + n.weight ≡ c
      → Walk graph v c

-- Node 1 is there, edges end at nodes, and none at the unused node 0, and kMaxVal and a weight add
-- up to at most 2^31.
pub record IsGraph (graph : List (List Neighbor)) : Type 0 where
  pub has_start : 1 < length graph
  pub ends :
      (u k : ℕ) (ns : List Neighbor) (n : Neighbor)
      → get_elem? graph u ≡ some ns
      → get_elem? ns k ≡ some n
      → (n.end < length graph) × (n.end ≢ 0)
  pub small :
      (u k : ℕ) (ns : List Neighbor) (n : Neighbor)
      → get_elem? graph u ≡ some ns
      → get_elem? ns k ≡ some n
      → n.weight + k_max_val ≤ int_limit

-- The same as a test.
unfoldable pub all_ends : ℕ → List Neighbor → Bool
all_ends size [] = true
all_ends size (n ∷ ns) =
    ((ltb n.end size && not (n.end == 0)) && leb (n.weight + k_max_val) int_limit)
    && all_ends size ns

unfoldable pub all_edges : ℕ → List (List Neighbor) → Bool
unfolding all_ends
all_edges size [] = true
all_edges size (ns ∷ graph) = all_ends size ns && all_edges size graph

ends-at :
    (size : ℕ) (ns : List Neighbor)
    → all_ends size ns ≡ true
    → (k : ℕ) (n : Neighbor) → get_elem? ns k ≡ some n
    → ((n.end < size) × (n.end ≢ 0)) × (n.weight + k_max_val ≤ int_limit)
unfolding all_ends
ends-at size [] e k n at = let clash : ⊥ = cc in absurd clash
ends-at size (m ∷ ns) e zero n at =
    subst (λ q. ((q.end < size) × (q.end ≢ 0)) × (q.weight + k_max_val ≤ int_limit))
      (some_injective at) ((ground (arith, e), (λ z. ground (arith, e, z))), ground (arith, e))
ends-at size (m ∷ ns) e (suc k) n at = ends-at size ns (ground (arith, e)) k n at

edges-at :
    (size : ℕ) (graph : List (List Neighbor))
    → all_edges size graph ≡ true
    → (u : ℕ) (ns : List Neighbor) → get_elem? graph u ≡ some ns
    → all_ends size ns ≡ true
unfolding all_edges
edges-at size [] e u ns at = let clash : ⊥ = cc in absurd clash
edges-at size (ms ∷ graph) e zero ns at =
    subst (λ l. all_ends size l ≡ true) (some_injective at) (ground (arith, e))
edges-at size (ms ∷ graph) e (suc u) ns at = edges-at size graph (ground (arith, e)) u ns at

pub all_edges-IsGraph :
    (graph : List (List Neighbor))
    → 1 < length graph
    → all_edges (length graph) graph ≡ true
    → IsGraph graph
all_edges-IsGraph graph start e = record {
  has_start = start;
  ends = λ u k ns n at at_k.
      (ends-at (length graph) ns (edges-at (length graph) graph e u ns at) k n at_k).0;
  small = λ u k ns n at at_k.
      (ends-at (length graph) ns (edges-at (length graph) graph e u ns at) k n at_k).1;
}

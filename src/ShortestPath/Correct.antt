-- ===== src/ShortestPath/Correct.antt =====
-- shortest_path.cc: the distances found are the least.
use cpp_tricks.Common.{
  ℕ, zero, suc, ◌+◌, ◌≤◌, ◌<◌, ◌≡◌, ◌≢◌, refl, ap, sym, ◌∙◌, false, some, List, [], ◌∷◌, length,
  get_elem?, set, arith, Bool-cases, ◌⊎◌, inl, inr, get_elem?_of_lt, get_elem?-set_self,
  get_elem?-set_ne, length-set, lt_of_get_elem?, ℕ_discrete, some_injective,
}
use cpp_tricks.ShortestPath.{k_max_val, Neighbor, NodeInfo}
use cpp_tricks.ShortestPath.Walks.{Walk, at_start, along, IsGraph}
use cpp_tricks.ShortestPath.{numbered, start_track, shortest_paths}
use cpp_tricks.ShortestPath.Rounds.{IsSearched}
use cpp_tricks.Common.{total-le-length}
use cpp_tricks.ShortestPath.Search.{fresh, IsExhausted, search_paths-IsSearched}

-- No walk is shorter than the distance found.
Walk-least :
    (graph : List (List Neighbor)) (track : List NodeInfo)
    → IsSearched graph track
    → IsExhausted track
    → (v c : ℕ) → Walk graph v c
    → (x : NodeInfo) → get_elem? track v ≡ some x
    → x.d ≤ c
Walk-least graph track inv exhausted v c (at_start is_v is_c) x e =
    let zero_d = inv.source x (ap (get_elem? track) (sym is_v) ∙ e) in omega (arith, zero_d)
Walk-least graph track inv exhausted v c (along u b ns k n walk edges at_k ends sum) x e =
    let same = inv.same_length in
    let below = lt_of_get_elem? graph u edges in
    let (y, e_y) = get_elem?_of_lt track u (omega (arith, same, below)) in
    let before = Walk-least graph track inv exhausted u b walk y e_y in
    elim (Bool-cases y.visited) [
      | inl seen ↦
          let step = inv.relaxed u y ns k n x e_y seen edges at_k (ap (get_elem? track) ends ∙ e) in
          omega (arith, step, before, sum)
      | inr un ↦
          let far = exhausted u y e_y un in
          let cap = inv.capped v x e in omega (arith, far, cap, before, sum)
    ]

numbered-at :
    (i : ℕ) (graph : List (List Neighbor)) (v : ℕ) (x : NodeInfo)
    → get_elem? (numbered i graph) v ≡ some x
    → (x.d ≡ k_max_val) × (x.visited ≡ false)
unfolding numbered
numbered-at i [] v x e = let clash : ⊥ = cc in absurd clash
numbered-at i (ns ∷ graph) zero x e =
    let same : record { d = k_max_val; visited = false; idx = i } ≡ x = some_injective e in
    (ap (λ q. q.d) (sym same), ap (λ q. q.visited) (sym same))
numbered-at i (ns ∷ graph) (suc v) x e = numbered-at (i + 1) graph v x e

length-numbered : (i : ℕ) (graph : List (List Neighbor)) → length (numbered i graph) ≡ length graph
unfolding numbered
length-numbered i [] = refl
length-numbered i (ns ∷ graph) = ap suc (length-numbered (i + 1) graph)

-- A node of the first track.
start_fate :
    (graph : List (List Neighbor)) (info : NodeInfo)
    → get_elem? (numbered 0 graph) 1 ≡ some info
    → (v : ℕ) (x : NodeInfo)
    → get_elem? (set (numbered 0 graph) 1 (record info { d = 0 })) v ≡ some x
    → (x.visited ≡ false) × (((v ≡ 1) × (x.d ≡ 0)) ⊎ ((v ≢ 1) × (x.d ≡ k_max_val)))
start_fate graph info here v x e = elim (ℕ_discrete 1 v) [
  | yes same ↦
      let written =
        get_elem?-set_self (numbered 0 graph) 1 (record info { d = 0 })
          (lt_of_get_elem? (numbered 0 graph) 1 here) in
      let is_x : record info { d = 0 } ≡ x = some_injective (
        sym written ∙ ap (get_elem? (set (numbered 0 graph) 1 (record info { d = 0 }))) same ∙ e) in
      (
        ap (λ q. q.visited) (sym is_x) ∙ (numbered-at 0 graph 1 info here).1,
        inl (sym same, ap (λ q. q.d) (sym is_x)),
      )
  | no other ↦
      let (far, un) =
        numbered-at 0 graph v x
          (sym (get_elem?-set_ne (numbered 0 graph) (record info { d = 0 }) other) ∙ e) in
      (un, inr ((λ q. other (sym q)), far))
]

start-IsSearched :
    (graph : List (List Neighbor)) (info : NodeInfo)
    → get_elem? (numbered 0 graph) 1 ≡ some info
    → IsSearched graph (set (numbered 0 graph) 1 (record info { d = 0 }))
start-IsSearched graph info here = record {
  same_length = length-set (numbered 0 graph) 1 (record info { d = 0 }) ∙ length-numbered 0 graph;
  capped = λ v x e. elim (start_fate graph info here v x e).1 [
    | inl (same, d) ↦ omega (arith, d)
    | inr (ne, d) ↦ omega (arith, d)
  ];
  sound = λ v x e lt. elim (start_fate graph info here v x e).1 [
    | inl (same, d) ↦ at_start same d
    | inr (ne, d) ↦ absurd (omega (arith, d, lt))
  ];
  source = λ x e. elim (start_fate graph info here 1 x e).1 [
    | inl (same, d) ↦ d
    | inr (ne, d) ↦ absurd (ne refl)
  ];
  relaxed = λ u x ns k n y e seen.
      let un = (start_fate graph info here u x e).0 in let clash : ⊥ = cc in absurd clash;
  ordered = λ u v x y e seen.
      let un = (start_fate graph info here u x e).0 in let clash : ⊥ = cc in absurd clash;
  reached = λ u x e seen.
      let un = (start_fate graph info here u x e).0 in let clash : ⊥ = cc in absurd clash;
  unused = λ x e.
      let (un, d) = start_fate graph info here 0 x e in
      (un, elim d [ inl (same, z) ↦ absurd (omega (arith, same)) | inr (ne, far) ↦ far ]);
}

-- The distance of a node: it is at most kMaxVal, no walk is shorter, and below kMaxVal it is the
-- length of a walk.
abbrev pub IsDistance : List (List Neighbor) → ℕ → ℕ → Type 0
IsDistance graph v d =
    (d ≤ k_max_val) × ((c : ℕ) → Walk graph v c → d ≤ c) × (d < k_max_val → Walk graph v d)

fresh-le : (x : NodeInfo) → fresh x ≤ 1
fresh-le x = ground arith

-- On a graph where node 1 is there, edges end at nodes other than the unused node 0, and no weight
-- is above 2^31 - kMaxVal, with fuel above the number of nodes, the search ends without an access
-- out of range or an overflow of an int; the info of each node then holds the length of a shortest
-- walk from node 1, or kMaxVal where no walk is shorter than that.
pub shortest_paths-IsDistance :
    (fuel : ℕ) (graph : List (List Neighbor))
    → IsGraph graph
    → length graph < fuel
    → (track : List NodeInfo) × (shortest_paths fuel graph ≡ some track)
      × (length track ≡ length graph)
      × ((v : ℕ) (x : NodeInfo) → get_elem? track v ≡ some x → IsDistance graph v x.d)
unfolding shortest_paths start_track
shortest_paths-IsDistance fuel graph is_graph lt =
    let start = is_graph.has_start in
    let counted = length-numbered 0 graph in
    let (info, here) = get_elem?_of_lt (numbered 0 graph) 1 (omega (arith, start, counted)) in
    let t0 = set (numbered 0 graph) 1 (record info { d = 0 }) in
    let few = total-le-length fresh fresh-le t0 in
    let marked = length-set (numbered 0 graph) 1 (record info { d = 0 }) in
    let (track, run, inv, exhausted) =
      search_paths-IsSearched fuel graph t0 is_graph (start-IsSearched graph info here)
        (omega (arith, few, marked, counted, lt)) in
    (
      track,
      rw here run,
      inv.same_length,
      λ v x e. (
        inv.capped v x e,
        (λ c walk. Walk-least graph track inv exhausted v c walk x e),
        inv.sound v x e,
      ),
    )

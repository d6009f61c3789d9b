-- ===== src/ShortestPath/Rounds.antt =====
-- shortest_path.cc: what every round of the search keeps.
use cpp_tricks.Common.{
  ℕ, ◌+◌, ◌≤◌, ◌<◌, ◌≡◌, ◌≢◌, ap, sym, subst, ◌∙◌, true, false, some, List, length, get_elem?, set,
  arith, ◌⊎◌, inl, inr, get_elem?_of_lt, get_elem?-set_self, get_elem?-set_ne, length-set,
  lt_of_get_elem?, ℕ_discrete, some_injective,
}
use cpp_tricks.ShortestPath.{k_max_val, Neighbor, NodeInfo}
use cpp_tricks.ShortestPath.Walks.{Walk}
use cpp_tricks.ShortestPath.Relaxing.{Lowered, IsLowered}

-- Every distance below kMaxVal is that of a walk; the edges of visited nodes have been gone through;
-- visited nodes are no farther than unvisited ones.
pub record IsSearched (graph : List (List Neighbor)) (track : List NodeInfo) : Type 0 where
  pub same_length : length track ≡ length graph
  pub capped : (v : ℕ) (x : NodeInfo) → get_elem? track v ≡ some x → x.d ≤ k_max_val
  pub sound :
      (v : ℕ) (x : NodeInfo) → get_elem? track v ≡ some x → x.d < k_max_val → Walk graph v x.d
  pub source : (x : NodeInfo) → get_elem? track 1 ≡ some x → x.d ≡ 0
  pub relaxed :
      (u : ℕ) (x : NodeInfo) (ns : List Neighbor) (k : ℕ) (n : Neighbor) (y : NodeInfo)
      → get_elem? track u ≡ some x
      → x.visited ≡ true
      → get_elem? graph u ≡ some ns
      → get_elem? ns k ≡ some n
      → get_elem? track n.end ≡ some y
      → y.d ≤ x.d + n.weight
  pub ordered :
      (u v : ℕ) (x y : NodeInfo)
      → get_elem? track u ≡ some x
      → x.visited ≡ true
      → get_elem? track v ≡ some y
      → y.visited ≡ false
      → x.d ≤ y.d
  pub reached :
      (u : ℕ) (x : NodeInfo) → get_elem? track u ≡ some x → x.visited ≡ true → x.d < k_max_val
  pub unused : (x : NodeInfo) → get_elem? track 0 ≡ some x → (x.visited ≡ false) × (x.d ≡ k_max_val)

-- A node after the visit of the node `at`: that node itself, or one that may have come nearer.
abbrev pub Fate : List NodeInfo → ℕ → NodeInfo → List Neighbor → ℕ → NodeInfo → Type 0
Fate track at info ns v y =
    ((v ≡ at) × (y.d ≡ info.d) × (y.visited ≡ true))
    ⊎ ((v ≢ at) × (x : NodeInfo) × (get_elem? track v ≡ some x) × Lowered info.d ns v x y)

pub fate :
    (track track' : List NodeInfo) (at : ℕ) (info : NodeInfo) (ns : List Neighbor)
    → get_elem? track at ≡ some info
    → IsLowered info.d ns (set track at (record info { visited = true })) track'
    → (v : ℕ) (y : NodeInfo) → get_elem? track' v ≡ some y
    → Fate track at info ns v y
fate track track' at info ns here low v y there =
    let same = low.same_length in
    let marked = length-set track at (record info { visited = true }) in
    let below = lt_of_get_elem? track' v there in
    let (x, at_v) =
      get_elem?_of_lt (set track at (record info { visited = true })) v
        (omega (arith, same, below)) in
    let (y', at_v', l) = low.nodes v x at_v in
    let is_y : y' ≡ y = some_injective (sym at_v' ∙ there) in
    let l' : Lowered info.d ns v x y = subst (Lowered info.d ns v x) is_y l in
    elim (ℕ_discrete at v) [
      | yes e ↦
          let written : get_elem? (set track at (record info { visited = true })) v
              ≡ some (record info { visited = true }) =
            subst
              (λ w.
                get_elem? (set track at (record info { visited = true })) w
                ≡ some (record info { visited = true }))
              e (get_elem?-set_self track at _ (lt_of_get_elem? track at here)) in
          let is_x : x ≡ record info { visited = true } = some_injective (sym at_v ∙ written) in
          let seen : x.visited ≡ true = ap (λ q. q.visited) is_x in
          inl (sym e, l'.kept seen ∙ ap (λ q. q.d) is_x, l'.same_visited ∙ seen)
      | no ne ↦ inr ((λ e. ne (sym e)), x, sym (get_elem?-set_ne track _ ne) ∙ at_v, l')
    ]

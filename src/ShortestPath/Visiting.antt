-- ===== src/ShortestPath/Visiting.antt =====
-- shortest_path.cc: a visit of the nearest unvisited node keeps the invariant.
use cpp_tricks.Common.{
  ℕ, ◌+◌, ◌≤◌, ◌<◌, ◌≡◌, refl, ap, sym, subst, ◌∙◌, true, false, some, List, get_elem?, arith,
  Bool-cases, inl, inr, some_injective,
}
use cpp_tricks.ShortestPath.{k_max_val, Neighbor, NodeInfo}
use cpp_tricks.ShortestPath.Walks.{Walk, along, IsGraph}
use cpp_tricks.ShortestPath.Minimum.{IsMinimum}
use cpp_tricks.ShortestPath.Rounds.{IsSearched, Fate}

module _ (graph : List (List Neighbor)) (is_graph : IsGraph graph) (track : List NodeInfo)
    (inv : IsSearched graph track) (at : ℕ) (info : NodeInfo) (min : IsMinimum track at info)
    (near : info.d < k_max_val) (ns : List Neighbor) (there : get_elem? graph at ≡ some ns)
    (track' : List NodeInfo)
    (fates : (v : ℕ) (y : NodeInfo) → get_elem? track' v ≡ some y → Fate track at info ns v y) where
  nearest : (v : ℕ) (x : NodeInfo) → get_elem? track v ≡ some x → x.visited ≡ false → info.d ≤ x.d
  nearest v x e un =
      let least = min.least v x e in let self = min.unvisited in ground (arith, least, self, un)

  visited_near :
      (v : ℕ) (x : NodeInfo) → get_elem? track v ≡ some x → x.visited ≡ true → x.d ≤ info.d
  visited_near v x e seen = inv.ordered v at x info e seen min.there min.unvisited

  pub capped' : (v : ℕ) (y : NodeInfo) → get_elem? track' v ≡ some y → y.d ≤ k_max_val
  capped' v y e = elim (fates v y e) [
    | inl (same, d, seen) ↦ omega (arith, d, near)
    | inr (ne, x, e', low) ↦ let c = inv.capped v x e' in let l = low.le in omega arith
  ]

  pub sound' :
      (v : ℕ) (y : NodeInfo) → get_elem? track' v ≡ some y → y.d < k_max_val → Walk graph v y.d
  sound' v y e lt = elim (fates v y e) [
    | inl (same, d, seen) ↦
        subst (λ w. Walk graph w y.d) (sym same)
          (subst (Walk graph at) (sym d) (inv.sound at info min.there near))
    | inr (ne, x, e', low) ↦ elim low.from [
      | inl d ↦ subst (Walk graph v) (sym d) (inv.sound v x e' (omega (arith, lt, d)))
      | inr (k, n, at_k, ends, d) ↦
          along at info.d ns k n (inv.sound at info min.there near) there at_k ends (sym d)
    ]
  ]

  pub source' : (y : NodeInfo) → get_elem? track' 1 ≡ some y → y.d ≡ 0
  source' y e = elim (fates 1 y e) [
    | inl (same, d, seen) ↦ d ∙ inv.source info (ap (get_elem? track) same ∙ min.there)
    | inr (ne, x, e', low) ↦ let z = inv.source x e' in let l = low.le in omega arith
  ]

  relaxed_at :
      (k : ℕ) (n : Neighbor) (y : NodeInfo)
      → get_elem? ns k ≡ some n
      → get_elem? track' n.end ≡ some y
      → y.d ≤ info.d + n.weight
  relaxed_at k n y at_k e = elim (fates n.end y e) [
    | inl (same, d, seen) ↦ omega (arith, d)
    | inr (ne, x, e', low) ↦ elim (Bool-cases x.visited) [
      | inl seen ↦
          let kept = low.kept seen in
          let before = visited_near n.end x e' seen in omega (arith, kept, before)
      | inr un ↦ low.reaches k n at_k refl un
    ]
  ]

  pub relaxed' :
      (u : ℕ) (x : NodeInfo) (ms : List Neighbor) (k : ℕ) (n : Neighbor) (y : NodeInfo)
      → get_elem? track' u ≡ some x
      → x.visited ≡ true
      → get_elem? graph u ≡ some ms
      → get_elem? ms k ≡ some n
      → get_elem? track' n.end ≡ some y
      → y.d ≤ x.d + n.weight
  relaxed' u x ms k n y e seen edges at_k e_y = elim (fates u x e) [
    | inl (same, d, s) ↦
        let is_ns : ms ≡ ns = some_injective (sym edges ∙ ap (get_elem? graph) same ∙ there) in
        let below = relaxed_at k n y (ap (λ l. get_elem? l k) (sym is_ns) ∙ at_k) e_y in
        omega (arith, below, d)
    | inr (ne, x0, e0, low) ↦
        let seen0 : x0.visited ≡ true = sym low.same_visited ∙ seen in
        let d = low.kept seen0 in
        elim (fates n.end y e_y) [
          | inl (same, d_y, s) ↦
              let before =
                inv.relaxed u x0 ms k n info e0 seen0 edges at_k
                  (ap (get_elem? track) same ∙ min.there) in
              omega (arith, before, d, d_y)
          | inr (ne', y0, e_y0, low_y) ↦
              let before = inv.relaxed u x0 ms k n y0 e0 seen0 edges at_k e_y0 in
              let nearer = low_y.le in omega (arith, before, d, nearer)
        ]
  ]

  pub ordered' :
      (u v : ℕ) (x y : NodeInfo)
      → get_elem? track' u ≡ some x
      → x.visited ≡ true
      → get_elem? track' v ≡ some y
      → y.visited ≡ false
      → x.d ≤ y.d
  ordered' u v x y e seen e_y un = elim (fates v y e_y) [
    | inl (same, d, s) ↦ let clash : ⊥ = cc in absurd clash
    | inr (ne, y0, e_y0, low_y) ↦
        let un0 : y0.visited ≡ false = sym low_y.same_visited ∙ un in
        let info_y : info.d ≤ y.d = elim low_y.from [
          | inl d ↦ let b = nearest v y0 e_y0 un0 in omega (arith, b, d)
          | inr (k, n, at_k, ends, d) ↦ omega (arith, d)
        ] in
        elim (fates u x e) [
          | inl (same, d, s) ↦ omega (arith, d, info_y)
          | inr (ne', x0, e0, low) ↦
              let seen0 : x0.visited ≡ true = sym low.same_visited ∙ seen in
              let d = low.kept seen0 in
              let b = visited_near u x0 e0 seen0 in omega (arith, d, b, info_y)
        ]
  ]

  pub reached' :
      (u : ℕ) (x : NodeInfo) → get_elem? track' u ≡ some x → x.visited ≡ true → x.d < k_max_val
  reached' u x e seen = elim (fates u x e) [
    | inl (same, d, s) ↦ omega (arith, d, near)
    | inr (ne, x0, e0, low) ↦
        let seen0 : x0.visited ≡ true = sym low.same_visited ∙ seen in
        let d = low.kept seen0 in let r = inv.reached u x0 e0 seen0 in omega (arith, d, r)
  ]

  pub unused' :
      (x : NodeInfo) → get_elem? track' 0 ≡ some x → (x.visited ≡ false) × (x.d ≡ k_max_val)
  unused' x e = elim (fates 0 x e) [
    | inl (same, d, s) ↦
        let far = (inv.unused info (ap (get_elem? track) same ∙ min.there)).1 in
        absurd (omega (arith, far, near))
    | inr (ne, x0, e0, low) ↦
        let (un, far) = inv.unused x0 e0 in
        (
          low.same_visited ∙ un,
          elim low.from [
            | inl d ↦ d ∙ far
            | inr (k, n, at_k, ends, d) ↦ absurd ((is_graph.ends at k ns n there at_k).1 ends)
          ],
        )
  ]

-- ===== src/ShortestPath/Relaxing.antt =====
-- shortest_path.cc: what the loop over the neighbors does to each node.
use cpp_tricks.Common.{
  ℕ, zero, suc, ◌+◌, ◌≤◌, ◌<◌, ◌≡◌, ◌≢◌, refl, ap, sym, subst, ◌∙◌, true, false, some, List, [],
  ◌∷◌, ltb, length, get_elem?, set, arith, Bool-cases, lt→ltb, ◌⊎◌, inl, inr, get_elem?_of_lt,
  get_elem?-set_self, get_elem?-set_ne, length-set, lt_of_get_elem?, ℕ_discrete, ltb→lt,
  some_injective,
}
use cpp_tricks.ShortestPath.{int_limit, Neighbor, NodeInfo, relax, relax_all}

-- What may happen to node `v` while the neighbors `ns` of a node at distance `r` are gone through:
-- an unvisited node comes as near as each neighbor entry allows, and only as one of them allows.
pub record Lowered (r : ℕ) (ns : List Neighbor) (v : ℕ) (x y : NodeInfo) : Type 0 where
  pub same_visited : y.visited ≡ x.visited
  pub le : y.d ≤ x.d
  pub kept : x.visited ≡ true → y.d ≡ x.d
  pub from :
      (y.d ≡ x.d)
      ⊎ ((k : ℕ) × (n : Neighbor) × (get_elem? ns k ≡ some n) × (n.end ≡ v) × (y.d ≡ r + n.weight))
  pub reaches :
      (k : ℕ) (n : Neighbor)
      → get_elem? ns k ≡ some n
      → n.end ≡ v
      → x.visited ≡ false
      → y.d ≤ r + n.weight

-- Two tracks of one length, node by node.
pub record IsLowered (r : ℕ) (ns : List Neighbor) (track track' : List NodeInfo) : Type 0 where
  pub same_length : length track' ≡ length track
  pub nodes :
      (v : ℕ) (x : NodeInfo)
      → get_elem? track v ≡ some x
      → (y : NodeInfo) × (get_elem? track' v ≡ some y) × Lowered r ns v x y

Lowered-none : (r v : ℕ) (x : NodeInfo) → Lowered r [] v x x
Lowered-none r v x = record {
  same_visited = refl;
  le = omega arith;
  kept = λ e. refl;
  from = inl refl;
  reaches = λ k n e. let clash : ⊥ = cc in absurd clash;
}

-- One neighbor, then the others.
Lowered-cons :
    (r v : ℕ) (n : Neighbor) (ns : List Neighbor) (x y z : NodeInfo)
    → Lowered r (n ∷ []) v x y
    → Lowered r ns v y z
    → Lowered r (n ∷ ns) v x z
Lowered-cons r v n ns x y z a b = record {
  same_visited = b.same_visited ∙ a.same_visited;
  le = let p = a.le in let q = b.le in omega arith;
  kept = λ e. b.kept (a.same_visited ∙ e) ∙ a.kept e;
  from = elim b.from [
    | inr (k, m, at, ends, far) ↦ inr (suc k, m, at, ends, far)
    | inl same ↦ elim a.from [
      | inl same' ↦ inl (same ∙ same')
      | inr (zero, m, at, ends, far) ↦ inr (0, m, at, ends, same ∙ far)
      | inr (suc k, m, at, ends, far) ↦ let clash : ⊥ = cc in absurd clash
    ]
  ];
  reaches = λ k. reaches k;
}
  where
    reaches :
        (k : ℕ) (m : Neighbor)
        → get_elem? (n ∷ ns) k ≡ some m
        → m.end ≡ v
        → x.visited ≡ false
        → z.d ≤ r + m.weight
    reaches zero m e ends un =
        let p = a.reaches 0 m e ends un in let q = b.le in omega (arith, p, q)
    reaches (suc k) m e ends un = b.reaches k m e ends (a.same_visited ∙ un)

-- The entry of the neighbor that is looked at, on each branch.
Lowered-visited :
    (r v : ℕ) (n : Neighbor) (x : NodeInfo) → x.visited ≡ true → Lowered r (n ∷ []) v x x
Lowered-visited r v n x e = record {
  same_visited = refl;
  le = omega arith;
  kept = λ e'. refl;
  from = inl refl;
  reaches = λ k m at ends un. let clash : ⊥ = cc in absurd clash;
}

Lowered-near :
    (r v : ℕ) (n : Neighbor) (x : NodeInfo) → x.d ≤ r + n.weight → Lowered r (n ∷ []) v x x
Lowered-near r v n x le = record {
  same_visited = refl;
  le = omega arith;
  kept = λ e'. refl;
  from = inl refl;
  reaches = λ k. reaches k;
}
  where
    reaches :
        (k : ℕ) (m : Neighbor)
        → get_elem? (n ∷ []) k ≡ some m
        → m.end ≡ v
        → x.visited ≡ false
        → x.d ≤ r + m.weight
    reaches zero m at ends un = let same : n ≡ m = cc in subst (λ q. x.d ≤ r + q.weight) same le
    reaches (suc k) m at ends un = let clash : ⊥ = cc in absurd clash

Lowered-set :
    (r : ℕ) (n : Neighbor) (x : NodeInfo)
    → r + n.weight < x.d
    → x.visited ≡ false
    → Lowered r (n ∷ []) n.end x (record x { d = r + n.weight })
Lowered-set r n x lt un = record {
  same_visited = refl;
  le = omega (arith, lt);
  kept = λ e. let clash : ⊥ = cc in absurd clash;
  from = inr (0, n, refl, refl, refl);
  reaches = λ k. reaches k;
}
  where
    reaches :
        (k : ℕ) (m : Neighbor)
        → get_elem? (n ∷ []) k ≡ some m
        → m.end ≡ n.end
        → x.visited ≡ false
        → r + n.weight ≤ r + m.weight
    reaches zero m at ends un' =
        let same : n ≡ m = cc in subst (λ q. r + n.weight ≤ r + q.weight) same (omega arith)
    reaches (suc k) m at ends un' = let clash : ⊥ = cc in absurd clash

-- A node where the neighbor does not end.
Lowered-other : (r v : ℕ) (n : Neighbor) (x : NodeInfo) → n.end ≢ v → Lowered r (n ∷ []) v x x
Lowered-other r v n x ne = record {
  same_visited = refl;
  le = omega arith;
  kept = λ e'. refl;
  from = inl refl;
  reaches = λ k. reaches k;
}
  where
    reaches :
        (k : ℕ) (m : Neighbor)
        → get_elem? (n ∷ []) k ≡ some m
        → m.end ≡ v
        → x.visited ≡ false
        → x.d ≤ r + m.weight
    reaches zero m at ends un = let same : n ≡ m = cc in absurd (ne (ap (λ q. q.end) same ∙ ends))
    reaches (suc k) m at ends un = let clash : ⊥ = cc in absurd clash

IsLowered-same :
    (r : ℕ) (n : Neighbor) (track : List NodeInfo)
    → ((x : NodeInfo) → get_elem? track n.end ≡ some x → Lowered r (n ∷ []) n.end x x)
    → IsLowered r (n ∷ []) track track
IsLowered-same r n track h = record {
  same_length = refl;
  nodes = λ v x at. elim (ℕ_discrete n.end v) [
    | yes same ↦
        (x, at, subst (λ w. Lowered r (n ∷ []) w x x) same (h x (ap (get_elem? track) same ∙ at)))
    | no other ↦ (x, at, Lowered-other r v n x other)
  ];
}

IsLowered-set :
    (r : ℕ) (n : Neighbor) (track : List NodeInfo) (info : NodeInfo)
    → get_elem? track n.end ≡ some info
    → info.visited ≡ false
    → r + n.weight < info.d
    → IsLowered r (n ∷ []) track (set track n.end (record info { d = r + n.weight }))
IsLowered-set r n track info at un lt = record {
  same_length = length-set track n.end _;
  nodes = λ v x at_v. elim (ℕ_discrete n.end v) [
    | yes same ↦
        let is_x : info ≡ x = some_injective (sym at ∙ ap (get_elem? track) same ∙ at_v) in
        (
          record info { d = r + n.weight },
          subst
              (λ w.
                get_elem? (set track n.end (record info { d = r + n.weight })) w
                ≡ some (record info { d = r + n.weight }))
              same (get_elem?-set_self track n.end _ (lt_of_get_elem? track n.end at)),
          subst (λ w. Lowered r (n ∷ []) w x (record info { d = r + n.weight })) same
              (subst (λ q. Lowered r (n ∷ []) n.end q (record info { d = r + n.weight })) is_x
                (Lowered-set r n info lt un)),
        )
    | no other ↦ (x, get_elem?-set_ne track _ other ∙ at_v, Lowered-other r v n x other)
  ];
}

relax-IsLowered :
    (r : ℕ) (track : List NodeInfo) (n : Neighbor)
    → n.end < length track
    → r + n.weight < int_limit
    → (track' : List NodeInfo) × (relax r track n ≡ some track') × IsLowered r (n ∷ []) track track'
unfolding relax
relax-IsLowered r track n lt fits =
    let (info, at) = get_elem?_of_lt track n.end lt in
    elim (Bool-cases info.visited) [
      | inl seen ↦ (
        track,
        rw (at, seen) refl,
        IsLowered-same r n track (λ x at'.
            let is_x : info ≡ x = some_injective (sym at ∙ at') in
            Lowered-visited r n.end n x (ap (λ q. q.visited) (sym is_x) ∙ seen)),
      )
      | inr un ↦ elim (Bool-cases (ltb (r + n.weight) info.d)) [
        | inl less ↦ (
          set track n.end (record info { d = r + n.weight }),
          rw (at, un, lt→ltb (r + n.weight) int_limit fits, less) refl,
          IsLowered-set r n track info at un (ltb→lt _ _ less),
        )
        | inr near ↦ (
          track,
          rw (at, un, lt→ltb (r + n.weight) int_limit fits, near) refl,
          IsLowered-same r n track (λ x at'.
              let is_x : info ≡ x = some_injective (sym at ∙ at') in
              Lowered-near r n.end n x
                (subst (λ q. q.d ≤ r + n.weight) is_x (ground (arith, near)))),
        )
      ]
    ]

IsLowered-cons :
    (r : ℕ) (n : Neighbor) (ns : List Neighbor) (t t1 t2 : List NodeInfo)
    → IsLowered r (n ∷ []) t t1
    → IsLowered r ns t1 t2
    → IsLowered r (n ∷ ns) t t2
IsLowered-cons r n ns t t1 t2 a b = record {
  same_length = b.same_length ∙ a.same_length;
  nodes = λ v x at.
      let (y, at_y, first) = a.nodes v x at in
      let (z, at_z, others) = b.nodes v y at_y in
      (z, at_z, Lowered-cons r v n ns x y z first others);
}

-- The loop over neighbors that end at nodes and overflow no sum does not fail, and only lowers distances.
pub relax_all-IsLowered :
    (r : ℕ) (track : List NodeInfo) (ns : List Neighbor)
    → ((k : ℕ) (n : Neighbor)
        → get_elem? ns k ≡ some n
        → (n.end < length track) × (r + n.weight < int_limit))
    → (track' : List NodeInfo) × (relax_all r track ns ≡ some track') × IsLowered r ns track track'
unfolding relax_all
relax_all-IsLowered r track [] h =
    (track, refl, record { same_length = refl; nodes = λ v x at. (x, at, Lowered-none r v x) })
relax_all-IsLowered r track (n ∷ ns) h =
    let (t1, done, low) = relax-IsLowered r track n (h 0 n refl).0 (h 0 n refl).1 in
    let same = low.same_length in
    let (t2, rest, low') =
      relax_all-IsLowered r t1 ns
        (λ k m at. let (below, fits) = h (suc k) m at in (omega (arith, same, below), fits)) in
    (t2, rw done rest, IsLowered-cons r n ns track t1 t2 low low')

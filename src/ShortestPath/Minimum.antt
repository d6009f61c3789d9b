-- ===== src/ShortestPath/Minimum.antt =====
-- shortest_path.cc: what `min_element` returns.
use cpp_tricks.Common.{
  ℕ, zero, suc, ◌+◌, ◌≤◌, ◌<◌, ◌≡◌, refl, ap, subst, ◌∙◌, false, some, List, [], ◌∷◌, ltb,
  get_elem?, arith, Bool-cases, sym, ltb→lt, ◌⊎◌, inl, inr,
}
use cpp_tricks.ShortestPath.{k_max_val, NodeInfo, masked, min_from, min_element}

min_from_self :
    (i j : ℕ) (x : NodeInfo) (xs : List NodeInfo) → masked (min_from i x j xs).1 ≤ masked x
unfolding min_from
min_from_self i j x [] = omega arith
min_from_self i j x (z ∷ xs) =
    ground (arith, min_from_self j (j + 1) z xs, min_from_self i (j + 1) x xs)

min_from-rest :
    (i j : ℕ) (x : NodeInfo) (xs : List NodeInfo) (k : ℕ) (y : NodeInfo)
    → get_elem? xs k ≡ some y
    → masked (min_from i x j xs).1 ≤ masked y
unfolding min_from
min_from-rest i j x [] k y e = let clash : ⊥ = cc in absurd clash
min_from-rest i j x (z ∷ xs) zero y e =
    let same : z ≡ y = cc in
    subst (λ w. masked (min_from i x j (z ∷ xs)).1 ≤ masked w) same (smaller z)
  where
    smaller : (w : NodeInfo) → masked (min_from i x j (w ∷ xs)).1 ≤ masked w
    smaller w = ground (arith, min_from_self j (j + 1) w xs, min_from_self i (j + 1) x xs)
min_from-rest i j x (z ∷ xs) (suc k) y e =
    ground (arith, min_from-rest j (j + 1) z xs k y e, min_from-rest i (j + 1) x xs k y e)

-- The result is the first, or a smaller one that stands in the rest.
min_from-place :
    (i j : ℕ) (x : NodeInfo) (xs : List NodeInfo)
    → (min_from i x j xs ≡ (i, x))
      ⊎ ((masked (min_from i x j xs).1 < masked x)
          × (k : ℕ) × ((min_from i x j xs).0 ≡ j + k)
          × (get_elem? xs k ≡ some (min_from i x j xs).1))
unfolding min_from
min_from-place i j x [] = inl refl
min_from-place i j x (z ∷ xs) = elim (Bool-cases (ltb (masked z) (masked x))) [
  | inl t ↦
      let below : masked z < masked x = ltb→lt _ _ t in
      rw t (elim (min_from-place j (j + 1) z xs) [
        | inl same ↦ inr (
          subst (λ r. masked r.1 < masked x) (sym same) below,
          0,
          ap (λ r. r.0) same ∙ omega arith,
          ap (λ r. some r.1) (sym same),
        )
        | inr (lt, k, at, there) ↦ inr (omega (arith, lt, below), suc k, at ∙ omega arith, there)
      ])
  | inr f ↦ rw f (elim (min_from-place i (j + 1) x xs) [
    | inl same ↦ inl same
    | inr (lt, k, at, there) ↦ inr (lt, suc k, at ∙ omega arith, there)
  ])
]

-- On a track whose first node is not visited, the search finds a node of the track whose masked
-- distance is the least, and it is the first node or an unvisited one below kMaxVal.
pub record IsMinimum (track : List NodeInfo) (at : ℕ) (info : NodeInfo) : Type 0 where
  pub there : get_elem? track at ≡ some info
  pub least : (v : ℕ) (y : NodeInfo) → get_elem? track v ≡ some y → masked info ≤ masked y
  pub unvisited : info.visited ≡ false

masked-unvisited :
    (x y : NodeInfo) → masked y < masked x → x.visited ≡ false → x.d ≤ k_max_val → y.visited ≡ false
masked-unvisited x y lt e le = ground (arith, lt, e, le)

pub min_element-IsMinimum :
    (x : NodeInfo) (xs : List NodeInfo)
    → x.visited ≡ false
    → x.d ≤ k_max_val
    → (at : ℕ) × (info : NodeInfo) × (min_element (x ∷ xs) ≡ some (at, info))
      × IsMinimum (x ∷ xs) at info
unfolding min_element
min_element-IsMinimum x xs e le = (
  (min_from 0 x 1 xs).0,
  (min_from 0 x 1 xs).1,
  refl,
  record {
    there = elim (min_from-place 0 1 x xs) [
      | inl same ↦ subst (λ r. get_elem? (x ∷ xs) r.0 ≡ some r.1) (sym same) refl
      | inr (lt, k, at, here) ↦
          let behind : (min_from 0 x 1 xs).0 ≡ suc k = omega (arith, at) in
          ap (get_elem? (x ∷ xs)) behind ∙ here
    ];
    least = λ v. least v;
    unvisited = elim (min_from-place 0 1 x xs) [
      | inl same ↦ ap (λ r. r.1.visited) same ∙ e
      | inr (lt, k, at, here) ↦ masked-unvisited x (min_from 0 x 1 xs).1 lt e le
    ];
  },
)
  where
    least :
        (v : ℕ) (y : NodeInfo)
        → get_elem? (x ∷ xs) v ≡ some y
        → masked (min_from 0 x 1 xs).1 ≤ masked y
    least zero y e' =
        let same : x ≡ y = cc in
        subst (λ w. masked (min_from 0 x 1 xs).1 ≤ masked w) same (min_from_self 0 1 x xs)
    least (suc v) y e' = min_from-rest 0 1 x xs v y e'

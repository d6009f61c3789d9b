-- ===== src/IndependentSet/Walk.antt =====
-- w3_lession_code.cc, `TEST(W3, Wis)`: the loops fill the table and walk back through it.
use cpp_tricks.Common.{
  ℕ, zero, suc, ◌+◌, ◌-◌, ◌≤◌, ◌<◌, max, ◌≡◌, refl, sym, ◌∙◌, subst, none, some, List, [], ◌∷◌,
  ◌++◌, length, get_elem?, set, replicate, length-set, length-replicate, get_elem?-replicate,
  get_elem?-set_self, get_elem?-set_ne, get_elem?_of_lt, some_injective, ℕ_discrete, leb, leb→le,
  Bool-cases, inl, inr, ◌⊎◌, arith,
}
use cpp_tricks.IndependentSet.{fill, set_table, chosen}
use cpp_tricks.IndependentSet.Best.{
  Independent, nothing, skip, take_first, take_vertex, IsHeaviest, zero-IsHeaviest, one-IsHeaviest,
  next-IsHeaviest,
}

-- The entries below n are the heaviest weights.
abbrev pub IsTable : List ℕ → List ℕ → ℕ → Type 0
IsTable weights a n =
    (length a ≡ length weights)
    × ((i : ℕ) → i < n → (r : ℕ) × (get_elem? a i ≡ some r) × IsHeaviest weights i r)

set-IsTable :
    (weights a : List ℕ) (n r : ℕ)
    → n < length weights
    → IsHeaviest weights n r
    → IsTable weights a n
    → IsTable weights (set a n r) (suc n)
set-IsTable weights a n r lt best (sized, at) = (length-set a n r ∙ sized, entry)
  where
    entry :
        (i : ℕ) → i < suc n → (s : ℕ) × (get_elem? (set a n r) i ≡ some s) × IsHeaviest weights i s
    entry i le = elim (ℕ_discrete n i) [
      | yes same ↦ (
        r,
        subst (λ q. get_elem? (set a n r) q ≡ some r) same
            (get_elem?-set_self a n r (omega (arith, sized, lt))),
        subst (λ q. IsHeaviest weights q r) same best,
      )
      | no other ↦
          let (s, e, k) = at i (omega (arith, le, other)) in (s, get_elem?-set_ne a r other ∙ e, k)
    ]

fill-IsTable :
    (weights : List ℕ) (k j : ℕ) (a : List ℕ)
    → suc (suc j) + k ≡ length weights
    → IsTable weights a (suc (suc j))
    → (a' : List ℕ) × (fill k j weights a ≡ some a') × IsTable weights a' (length weights)
unfolding fill
fill-IsTable weights zero j a sum (sized, at) =
    (a, refl, (sized, λ i lt. at i (omega (arith, lt, sum))))
fill-IsTable weights (suc k) j a sum (sized, at) =
    let (without, e, best) = at (suc j) (omega arith) in
    let (before, f, best') = at j (omega arith) in
    let (w, g) = get_elem?_of_lt weights (suc (suc j)) (omega (arith, sum)) in
    let next = next-IsHeaviest weights j w without before g best best' in
    let (a', run, table) =
      fill-IsTable weights k (suc j) (set a (suc (suc j)) (max without (before + w)))
        (omega (arith, sum))
        (set-IsTable weights a (suc (suc j)) (max without (before + w)) (omega (arith, sum)) next
          (sized, at)) in
    (a', rw (fill, e, f, g) run, table)

IsHeaviest-unique :
    (weights : List ℕ) (n r s : ℕ) → IsHeaviest weights n r → IsHeaviest weights n s → r ≡ s
IsHeaviest-unique weights n r s ((p, k), top) ((q, l), top') =
    let le = top' p r k in let ge = top q s l in omega (arith, le, ge)

-- The walk from a vertex prints a heaviest set, or it comes down to vertex 1.
abbrev pub WalkEnds : List ℕ → List ℕ → ℕ → ℕ → Type 0
WalkEnds weights a i r =
    ((path : List ℕ) × (chosen weights a i ≡ some path) × Independent weights i path r)
    ⊎ ((chosen weights a i ≡ none) × (path : List ℕ) × Independent weights i (path ++ (1 ∷ [])) r)

walk-ends :
    (weights a : List ℕ) (n : ℕ)
    → n ≤ length weights
    → IsTable weights a n
    → (i : ℕ) → i < n
    → (r : ℕ) → get_elem? a i ≡ some r
    → WalkEnds weights a i r
unfolding chosen
walk-ends weights a n le (sized, at) zero lt r e =
    let (s, f, best) = at 0 lt in
    let r_zero =
      some_injective (sym e ∙ f) ∙ IsHeaviest-unique weights 0 s 0 best (zero-IsHeaviest weights) in
    inl ([], refl, subst (Independent weights 0 []) (sym r_zero) nothing)
walk-ends weights a n le (sized, at) (suc zero) lt r e =
    let (s, f, best) = at 1 lt in
    let (w, g) = get_elem?_of_lt weights 1 (omega (arith, lt, le)) in
    let same =
      some_injective (sym e ∙ f)
      ∙ IsHeaviest-unique weights 1 s w best (one-IsHeaviest weights w g) in
    inr (refl, [], subst (Independent weights 1 (1 ∷ [])) (sym same) (take_first g))
walk-ends weights a n le (sized, at) (suc (suc i)) lt r e =
    let (without, f, best) = at (suc i) (omega (arith, lt)) in
    let (before, g, best') = at i (omega (arith, lt)) in
    let (w, h) = get_elem?_of_lt weights (suc (suc i)) (omega (arith, lt, le)) in
    let (s, e', top) = at (suc (suc i)) lt in
    let same : r ≡ max without (before + w) =
      some_injective (sym e ∙ e')
      ∙ IsHeaviest-unique weights (suc (suc i)) s (max without (before + w)) top
          (next-IsHeaviest weights i w without before h best best') in
    elim (Bool-cases (leb (before + w) without)) [
      | inl t ↦
          let less = leb→le (before + w) without t in
          let is_without : without ≡ r = omega (arith, same, less) in
          elim (walk-ends weights a n le (sized, at) (suc i) (omega (arith, lt)) without f) [
            | inl (path, run, k) ↦ inl (
              path,
              rw (chosen, f, g, h, t) run,
              subst (Independent weights (suc (suc i)) path) is_without (skip k),
            )
            | inr (run, path, k) ↦ inr (
              rw (chosen, f, g, h, t) run,
              path,
              subst (Independent weights (suc (suc i)) (path ++ (1 ∷ []))) is_without (skip k),
            )
          ]
      | inr o ↦
          let is_with : before + w ≡ r = ground (arith, same, o) in
          elim (walk-ends weights a n le (sized, at) i (omega (arith, lt)) before g) [
            | inl (path, run, k) ↦ inl (
              suc (suc i) ∷ path,
              rw (chosen, f, g, h, o, run) refl,
              subst (Independent weights (suc (suc i)) (suc (suc i) ∷ path)) is_with
                  (take_vertex h k),
            )
            | inr (run, path, k) ↦ inr (
              rw (chosen, f, g, h, o, run) refl,
              suc (suc i) ∷ path,
              subst (Independent weights (suc (suc i)) (suc (suc i) ∷ (path ++ (1 ∷ [])))) is_with
                  (take_vertex h k),
            )
          ]
    ]

start-IsTable :
    (weights : List ℕ) (w : ℕ)
    → 1 < length weights
    → get_elem? weights 1 ≡ some w
    → IsTable weights (set (replicate (length weights) 0) 1 w) 2
start-IsTable weights w lt e =
    set-IsTable weights (replicate (length weights) 0) 1 w lt (one-IsHeaviest weights w e)
      (length-replicate (length weights) 0, zeros)
  where
    zeros :
        (i : ℕ)
        → i < 1
        → (r : ℕ) × (get_elem? (replicate (length weights) 0) i ≡ some r) × IsHeaviest weights i r
    zeros zero le =
        (0, get_elem?-replicate (length weights) 0 0 (omega (arith, lt)), zero-IsHeaviest weights)
    zeros (suc i) le = absurd (omega (arith, le))

-- On weights of a guard and at least one vertex, the table is filled without an access out of range,
-- and each entry is the weight of a heaviest set of vertices up to it without two neighbours. From
-- the last vertex, the walk back prints such a set; or it comes down to vertex 1, which then is in a
-- heaviest set, and reads in front of the table.
pub set_table-IsHeaviest :
    (weights : List ℕ) (n : ℕ)
    → length weights ≡ suc n
    → 0 < n
    → (a : List ℕ) × (r : ℕ) × (set_table weights ≡ some a)
      × IsTable weights a (length weights)
      × (get_elem? a n ≡ some r)
      × WalkEnds weights a n r
unfolding set_table
set_table-IsHeaviest weights n sized some_vertex =
    let (w, e) = get_elem?_of_lt weights 1 (omega (arith, sized, some_vertex)) in
    let (a, run, table) =
      fill-IsTable weights (length weights - 2) 0 (set (replicate (length weights) 0) 1 w)
        (omega (arith, sized, some_vertex))
        (start-IsTable weights w (omega (arith, sized, some_vertex)) e) in
    let (r, at, _) = table.1 n (omega (arith, sized)) in
    (
      a,
      r,
      rw (set_table, e) run,
      table,
      at,
      walk-ends weights a (length weights) (omega arith) table n (omega (arith, sized)) r at,
    )

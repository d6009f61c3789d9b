-- ===== src/IndependentSet/Best.antt =====
-- w3_lession_code.cc, `TEST(W3, Wis)`: the table holds the weights of the heaviest sets.
use cpp_tricks.Common.{
  ℕ, zero, suc, ◌+◌, ◌≤◌, max, ◌≡◌, sym, ◌∙◌, subst, some, List, [], ◌∷◌, get_elem?, some_injective,
  leb, leb→le, Bool-cases, inl, inr, arith,
}

-- Vertices from 1 to n, the highest first and no two of them neighbours, with their weight.
pub data Independent (weights : List ℕ) : ℕ → List ℕ → ℕ → Type 0 where
  nothing : Independent weights zero [] 0
  skip :
      {n v : ℕ} {path : List ℕ} → Independent weights n path v → Independent weights (suc n) path v
  take_first : {w : ℕ} → get_elem? weights 1 ≡ some w → Independent weights (suc zero) (1 ∷ []) w
  take_vertex :
      {n v w : ℕ} {path : List ℕ}
      → get_elem? weights (suc (suc n)) ≡ some w
      → Independent weights n path v
      → Independent weights (suc (suc n)) (suc (suc n) ∷ path) (v + w)

-- Some set up to n weighs `r`, and none weighs more.
abbrev pub IsHeaviest : List ℕ → ℕ → ℕ → Type 0
IsHeaviest weights n r =
    ((path : List ℕ) × Independent weights n path r)
    × ((path : List ℕ) (v : ℕ) → Independent weights n path v → v ≤ r)

pub zero-IsHeaviest : (weights : List ℕ) → IsHeaviest weights 0 0
zero-IsHeaviest weights = (([], nothing), above)
  where
    above : (path : List ℕ) (v : ℕ) → Independent weights 0 path v → v ≤ 0
    above path v nothing = omega arith

pub one-IsHeaviest :
    (weights : List ℕ) (w : ℕ) → get_elem? weights 1 ≡ some w → IsHeaviest weights 1 w
one-IsHeaviest weights w e = ((1 ∷ [], take_first e), above)
  where
    above : (path : List ℕ) (v : ℕ) → Independent weights 1 path v → v ≤ w
    above path v (skip nothing) = omega arith
    above path v (take_first f) = let same = some_injective (sym e ∙ f) in omega (arith, same)

-- A vertex is left out, or added to a set that ends two before it.
pub next-IsHeaviest :
    (weights : List ℕ) (n w a b : ℕ)
    → get_elem? weights (suc (suc n)) ≡ some w
    → IsHeaviest weights (suc n) a
    → IsHeaviest weights n b
    → IsHeaviest weights (suc (suc n)) (max a (b + w))
next-IsHeaviest weights n w a b e ((p, ka), top_a) ((q, kb), top_b) = (reached, above)
  where
    reached : (path : List ℕ) × Independent weights (suc (suc n)) path (max a (b + w))
    reached = elim (Bool-cases (leb (b + w) a)) [
      | inl t ↦
          let le = leb→le (b + w) a t in
          let same : a ≡ max a (b + w) = omega (arith, le) in
          (p, subst (Independent weights (suc (suc n)) p) same (skip ka))
      | inr f ↦
          let same : b + w ≡ max a (b + w) = ground (arith, f) in
          (
            suc (suc n) ∷ q,
            subst (Independent weights (suc (suc n)) (suc (suc n) ∷ q)) same (take_vertex e kb),
          )
    ]

    above : (path : List ℕ) (v : ℕ) → Independent weights (suc (suc n)) path v → v ≤ max a (b + w)
    above path v (skip k) = let le = top_a path v k in omega (arith, le)
    above path v (take_vertex {v = u} {path = rest} f k) =
        let le = top_b rest u k in let same = some_injective (sym e ∙ f) in omega (arith, le, same)

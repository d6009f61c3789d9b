-- ===== src/Common/Totals.antt =====
-- Weighted totals over a list, and what a write at one index does to them.
use Prim.Native.Nat.{ℕ, zero, suc, ◌+◌, ◌≤◌, ◌<◌}
use mathlib.Core.Path.{◌≡◌, refl, ap, sym, ◌∙◌}
use mathlib.Core.Logic.{◌≢◌, ◌⊎◌, inl, inr}
use mathlib.Core.List.{List, [], ◌∷◌}
use mathlib.Core.Option.{some}
use native.Mathlib.Decide.{ℕ_discrete}
use native.Mathlib.Omega.{arith}
use cpp_tricks.Common.Lists.{
  length, get_elem?, set, replicate, get_elem?-set_self, get_elem?-set_ne,
}

pub lt_of_get_elem? {ℓ} :
    {A : Type ℓ} (xs : List A) (i : ℕ) {x : A} → get_elem? xs i ≡ some x → i < length xs
lt_of_get_elem? [] i e = cc
lt_of_get_elem? (y ∷ xs) zero e = omega arith
lt_of_get_elem? (y ∷ xs) (suc i) e = omega (arith, lt_of_get_elem? xs i e)

pub get_elem?_of_lt {ℓ} :
    {A : Type ℓ} (xs : List A) (i : ℕ) → i < length xs → (x : A) × (get_elem? xs i ≡ some x)
get_elem?_of_lt [] i h = elim h [ ]
get_elem?_of_lt (y ∷ xs) zero h = (y, refl)
get_elem?_of_lt (y ∷ xs) (suc i) h = get_elem?_of_lt xs i (omega arith)

-- What is read after a write is what was written, or what was there.
pub get_elem?-set-cases {ℓ} :
    {A : Type ℓ} (xs : List A) (i j : ℕ) {x v y : A}
    → get_elem? xs i ≡ some x
    → get_elem? (set xs i v) j ≡ some y
    → (v ≡ y) ⊎ ((i ≢ j) × (get_elem? xs j ≡ some y))
get_elem?-set-cases xs i j {v = v} {y = y} e f = elim (ℕ_discrete i j) [
  | yes same ↦
      let written : get_elem? (set xs i v) i ≡ some v =
        get_elem?-set_self xs i v (lt_of_get_elem? xs i e) in
      let read : get_elem? (set xs i v) i ≡ some y = ap (get_elem? (set xs i v)) same ∙ f in
      inl (cc)
  | no other ↦ inr (other, sym (get_elem?-set_ne xs v other) ∙ f)
]

module _ {ℓ} {A : Type ℓ} (w : A → ℕ) where
  unfoldable pub total : List A → ℕ
  total [] = 0
  total (x ∷ xs) = w x + total xs

  pub total-set :
      (xs : List A) (i : ℕ) (x y : A)
      → get_elem? xs i ≡ some x
      → total (set xs i y) + w x ≡ total xs + w y
  unfolding total
  total-set [] i x y e = cc
  total-set (z ∷ xs) zero x y e = ground arith
  total-set (z ∷ xs) (suc i) x y e = omega (arith, total-set xs i x y e)

  pub le-total : (xs : List A) (i : ℕ) (x : A) → get_elem? xs i ≡ some x → w x ≤ total xs
  unfolding total
  le-total [] i x e = cc
  le-total (z ∷ xs) zero x e = ground arith
  le-total (z ∷ xs) (suc i) x e = omega (arith, le-total xs i x e)

  pub two-le-total :
      (xs : List A) (i j : ℕ) (x y : A)
      → i ≢ j
      → get_elem? xs i ≡ some x
      → get_elem? xs j ≡ some y
      → w x + w y ≤ total xs
  unfolding total
  two-le-total [] i j x y n e f = cc
  two-le-total (z ∷ xs) zero zero x y n e f = absurd (n refl)
  two-le-total (z ∷ xs) zero (suc j) x y n e f = ground (arith, le-total xs j y f)
  two-le-total (z ∷ xs) (suc i) zero x y n e f = ground (arith, le-total xs i x e)
  two-le-total (z ∷ xs) (suc i) (suc j) x y n e f =
      omega (arith, two-le-total xs i j x y (λ q. n (ap suc q)) e f)

  pub total-le-length : ((x : A) → w x ≤ 1) → (xs : List A) → total xs ≤ length xs
  unfolding total
  total-le-length small [] = omega arith
  total-le-length small (x ∷ xs) = omega (arith, small x, total-le-length small xs)

  pub total-replicate : (n : ℕ) (x : A) → w x ≡ 0 → total (replicate n x) ≡ 0
  unfolding total
  total-replicate zero x e = refl
  total-replicate (suc n) x e = omega (arith, total-replicate n x e)

-- Two lists whose elements weigh the same, place by place.
pub total-pointwise {ℓ} :
    {A : Type ℓ} (w : A → ℕ) (xs ys : List A)
    → length ys ≡ length xs
    → ((i : ℕ) (x y : A) → get_elem? xs i ≡ some x → get_elem? ys i ≡ some y → w y ≡ w x)
    → total w ys ≡ total w xs
unfolding total
total-pointwise w [] [] e h = refl
total-pointwise w [] (y ∷ ys) e h = cc
total-pointwise w (x ∷ xs) [] e h = cc
total-pointwise w (x ∷ xs) (y ∷ ys) e h =
    omega (arith, h 0 x y refl refl, total-pointwise w xs ys (omega arith) (λ i. h (suc i)))

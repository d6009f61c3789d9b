-- ===== src/Vector/Resize.antt =====
-- top.cpp, `Vector::resize`.
use cpp_tricks.Common.{
  ℕ, zero, suc, ◌+◌, ◌-◌, ◌≤◌, ◌≡◌, refl, Option, some, List, [], ◌∷◌, ◌++◌, ltb, if◌then◌else◌,
  max, arith, length, get_elem?_of_lt, set, map, take, Bool-cases, inl, inr, ap, ◌∙◌, length-append,
  length-map, ◌<◌, none, get_elem?, get_elem?-set_self, get_elem?-set_ne, lt_of_get_elem?,
  some_injective, Option-cases, ℕ_discrete, sym,
}
use cpp_tricks.Vector.{Vector, cap, construct, construct_from, resize}
use cpp_tricks.Common.{drop, ap₂, length-set}
use cpp_tricks.Vector.Growth.{Holds, reserve-Holds, length-held}

module _ {ℓ} {T : Type ℓ} where
  set-behind :
      (xs : List T) (rest : List (Option T)) (i : ℕ) (o : Option T)
      → length xs ≤ i
      → set (map some xs ++ rest) i o ≡ map some xs ++ set rest (i - length xs) o
  set-behind [] rest i o le = ap (λ j. set rest j o) (omega arith)
  set-behind (y ∷ xs) rest zero o le = absurd (omega (arith, le))
  set-behind (y ∷ xs) rest (suc i) o le = ap (◌∷◌ (some y)) (
      set-behind xs rest i o (omega (arith, le))
      ∙ ap (λ j. map some xs ++ set rest j o) (omega arith))

  construct_from-held :
      (k i : ℕ) (x : T) (xs : List T) (rest : List (Option T))
      → length xs ≤ i
      → i + k ≤ length xs + length rest
      → (rest' : List (Option T)) × (construct_from k i x (map some xs ++ rest)
          ≡ some (map some xs ++ rest'))
        × (length rest' ≡ length rest)
  unfolding construct_from construct
  construct_from-held zero i x xs rest le fits = (rest, refl, refl)
  construct_from-held (suc k) i x xs rest le fits =
      let parts = length-append (map {B = Option T} some xs) rest in
      let held = length-map {B = Option T} xs some in
      let (old, there) =
        get_elem?_of_lt (map some xs ++ rest) i (omega (arith, parts, held, fits)) in
      let kept = length-set rest (i - length xs) (some x) in
      let (rest', built, same) =
        construct_from-held k (i + 1) x xs (set rest (i - length xs) (some x)) (omega (arith, le))
          (omega (arith, fits, kept)) in
      (rest', rw (construct, there, set-behind xs rest i (some x) le) built, same ∙ kept)

  construct_from-below :
      (k i j : ℕ) (x : T) (arr arr' : List (Option T))
      → construct_from k i x arr ≡ some arr'
      → j < i
      → get_elem? arr' j ≡ get_elem? arr j
  unfolding construct_from construct
  construct_from-below zero i j x arr arr' run lt =
      ap (λ a. get_elem? a j) (sym (some_injective run))
  construct_from-below (suc k) i j x arr arr' run lt = elim (Option-cases (get_elem? arr i)) [
    | inl gone ↦ let clash : none ≡ some arr' = sym (rw (construct, gone) refl) ∙ run in cc
    | inr (old, there) ↦
        construct_from-below k (i + 1) j x (set arr i (some x)) arr'
          (sym (rw (construct, there) refl) ∙ run) (omega (arith, lt))
        ∙ get_elem?-set_ne arr (some x) (λ e. omega (arith, e, lt))
  ]

  -- The loop constructs every slot that it goes through.
  construct_from-between :
      (k i j : ℕ) (x : T) (arr arr' : List (Option T))
      → construct_from k i x arr ≡ some arr'
      → i ≤ j
      → j < i + k
      → get_elem? arr' j ≡ some (some x)
  unfolding construct_from construct
  construct_from-between zero i j x arr arr' run le lt = absurd (omega (arith, le, lt))
  construct_from-between (suc k) i j x arr arr' run le lt = elim (Option-cases (get_elem? arr i)) [
    | inl gone ↦ let clash : none ≡ some arr' = sym (rw (construct, gone) refl) ∙ run in cc
    | inr (old, there) ↦
        let run' : construct_from k (i + 1) x (set arr i (some x)) ≡ some arr' =
          sym (rw (construct, there) refl) ∙ run in
        elim (ℕ_discrete i j) [
          | yes same ↦
              construct_from-below k (i + 1) j x (set arr i (some x)) arr' run'
                (omega (arith, same))
              ∙ ap (get_elem? (set arr i (some x))) (sym same)
              ∙ get_elem?-set_self arr i (some x) (lt_of_get_elem? arr i there)
          | no other ↦
              construct_from-between k (i + 1) j x (set arr i (some x)) arr' run'
                (let apart : ¬ (i ≡ j) = other in omega (arith, le, apart)) (omega (arith, lt))
        ]
  ]

  held-take :
      (n : ℕ) (xs : List T) (rest : List (Option T))
      → map {B = Option T} some xs ++ rest ≡ map some (take n xs) ++ (map some (drop n xs) ++ rest)
  held-take zero xs rest = refl
  held-take (suc n) [] rest = refl
  held-take (suc n) (x ∷ xs) rest = ap (◌∷◌ (some x)) (held-take n xs rest)

  length-take_if :
      (n : ℕ) (xs : List T) → (if ltb n (length xs) then n else length xs) ≡ length (take n xs)
  length-take_if zero [] = ground arith
  length-take_if zero (x ∷ xs) = ground arith
  length-take_if (suc n) [] = ground arith
  length-take_if (suc n) (x ∷ xs) = ground (arith, length-take_if n xs)

  -- The loop and the new size, on a vector with room for `n`.
  constructed :
      (v : Vector T) (xs : List T) (n : ℕ) (x : T)
      → Holds v xs
      → n ≤ cap v
      → (arr : List (Option T)) × (construct_from (n - v.sz) v.sz x v.arr ≡ some arr)
        × Holds (record { arr = arr; sz = if ltb n v.sz then n else v.sz }) (take n xs)
        × (length arr ≡ cap v)
        × ((i : ℕ) → length xs ≤ i → i < n → get_elem? arr i ≡ some (some x))
  constructed v xs n x k room =
      let counted = k.counted in
      let fits = length-held v xs k in
      let parts = length-append (map {B = Option T} some xs) k.rest in
      let held = length-map {B = Option T} xs some in
      let there = ap length k.slots in
      let (rest', built, same) =
        construct_from-held (n - length xs) (length xs) x xs k.rest (omega arith)
          (omega (arith, room, parts, held, there, fits)) in
      let parts' = length-append (map {B = Option T} some xs) rest' in
      (
        map some xs ++ rest',
        ap₂ (λ s a. construct_from (n - s) s x a) k.counted k.slots ∙ built,
        record {
          rest = map some (drop n xs) ++ rest';
          slots = held-take n xs rest';
          counted = rw counted (length-take_if n xs);
        },
        omega (arith, parts', same, parts, there),
        λ i le lt.
            construct_from-between (n - length xs) (length xs) i x (map some xs ++ k.rest)
              (map some xs ++ rest') built le (omega (arith, le, lt)),
      )

  -- resize keeps the first `n` elements. It adds none: where `n` is greater than the size, it
  -- constructs the value in each slot from the size to `n` but leaves the size as it was. The
  -- capacity becomes the greater of the two.
  pub resize-take :
      (v : Vector T) (xs : List T) (n : ℕ) (x : T)
      → Holds v xs
      → (v' : Vector T) × (resize v n x ≡ some v')
        × Holds v' (take n xs)
        × (cap v' ≡ max n (cap v))
        × ((i : ℕ) → length xs ≤ i → i < n → get_elem? v'.arr i ≡ some (some x))
  unfolding resize
  resize-take v xs n x k = elim (Bool-cases (ltb (cap v) n)) [
    | inl grow ↦
        let (v1, reserved, k1, grown) = reserve-Holds v xs n k in
        let (arr, built, held, same, written) = constructed v1 xs n x k1 (omega (arith, grown)) in
        (
          record { arr = arr; sz = if ltb n v1.sz then n else v1.sz },
          rw (resize, grow, reserved, built) refl,
          held,
          same ∙ grown,
          written,
        )
    | inr stay ↦
        let below : n ≤ cap v = ground (arith, stay) in
        let (arr, built, held, same, written) = constructed v xs n x k below in
        (
          record { arr = arr; sz = if ltb n v.sz then n else v.sz },
          rw (resize, stay, built) refl,
          held,
          omega (arith, same, below),
          written,
        )
  ]

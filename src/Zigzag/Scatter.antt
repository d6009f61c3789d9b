-- ===== src/Zigzag/Scatter.antt =====
-- The common core of the variants of edu/train/zigzag.hpp: every character appended to the buffer
-- of its row, and what the buffers hold in the end.
use cpp_tricks.Common.{
  ℕ, zero, suc, ◌+◌, ◌%◌, ◌≤◌, ◌<◌, min, ◌≡◌, refl, sym, ap, ap₂, ◌∙◌, inl, inr, Option, some, List,
  [], ◌∷◌, ◌++◌, append-nil, append_assoc, arith, leb, ◌==◌, if◌then◌else◌, ◌>>=◌, Bool-cases,
  length,
}
use native.Mathlib.Nat.{mod-lt, mod-eq_of_lt, mod-add-mod, mod_self, zero-add}
use cpp_tricks.Zigzag.{stride, append_at}
use cpp_tricks.Zigzag.Spec.{row, row_of, select}

pub mod-suc : (i m : ℕ) → 0 < m → (i + 1) % m ≡ (if leb m (i % m + 1) then 0 else i % m + 1)
mod-suc i m h = elim (Bool-cases (leb m (i % m + 1))) [
  | inl last ↦
      let e : i % m + 1 ≡ m = grind (arith, mod-lt) in
      rw last (sym (mod-add-mod i m 1) ∙ ap (λ k. k % m) e ∙ mod_self m)
  | inr more ↦ rw more (sym (mod-add-mod i m 1) ∙ mod-eq_of_lt (ground arith))
]

pub row-lt : (n k : ℕ) → 1 < n → k < stride n → row n k < n
unfolding row
row-lt n k h q = ground arith

row-le : (n k : ℕ) → row n k ≤ k
unfolding row
row-le n k = ground arith

pub row_of-le : (n i : ℕ) → row_of n i ≤ i
row_of-le n i = omega (arith, row-le n (i % stride n))

pub row_of-lt : (n i : ℕ) → 1 < n → row_of n i < n
row_of-lt n i h = row-lt n (i % stride n) h (mod-lt i (omega arith))

module _ {ℓ} {A : Type ℓ} (n : ℕ) where
  -- Every character of `s`, which starts at position `i`, appended to the buffer of its row.
  unfoldable pub scatter : ℕ → List A → List (List A) → Option (List (List A))
  scatter i [] rows = some rows
  scatter i (c ∷ cs) rows = append_at rows (row_of n i) c >>= λ rows'. scatter (i + 1) cs rows'

  -- The buffers `r`, `r + 1`, … with the characters of their rows added.
  unfoldable pub extend : ℕ → List A → ℕ → List (List A) → List (List A)
  extend i s r [] = []
  extend i s r (x ∷ xs) = (x ++ select n r i s) ∷ extend i s (r + 1) xs

  pub length-extend :
      (i : ℕ) (s : List A) (r : ℕ) (xs : List (List A)) → length (extend i s r xs) ≡ length xs
  unfolding extend
  length-extend i s r [] = refl
  length-extend i s r (x ∷ xs) = ap suc (length-extend i s (r + 1) xs)

  -- Row `j` of the buffers `r`, `r + 1`, … with `c` added.
  bump : ℕ → A → ℕ → List (List A) → List (List A)
  bump j c r [] = []
  bump j c r (x ∷ xs) = (if r == j then x ++ (c ∷ []) else x) ∷ bump j c (r + 1) xs

  bump_below : (j : ℕ) (c : A) (r : ℕ) (xs : List (List A)) → j < r → bump j c r xs ≡ xs
  unfolding bump
  bump_below j c r [] h = refl
  bump_below j c r (x ∷ xs) h = ground (arith, bump_below j c (r + 1) xs)

  append_at-bump :
      (xs : List (List A)) (j : ℕ) (c : A) (r : ℕ)
      → j < length xs
      → append_at xs j c ≡ some (bump (r + j) c r xs)
  unfolding append_at bump
  append_at-bump [] j c r h = absurd (omega arith)
  append_at-bump (x ∷ xs) zero c r h = ground (arith, bump_below (r + 0) c (r + 1) xs)
  append_at-bump (x ∷ xs) (suc j) c r h =
      let e : r + 1 + j ≡ r + suc j = omega arith in
      ground (arith, append_at-bump xs j c (r + 1), ap (λ k. bump k c (r + 1) xs) e)

  length-bump : (j : ℕ) (c : A) (r : ℕ) (xs : List (List A)) → length (bump j c r xs) ≡ length xs
  unfolding bump
  length-bump j c r [] = refl
  length-bump j c r (x ∷ xs) = ap suc (length-bump j c (r + 1) xs)

  extend-bump :
      (i : ℕ) (c : A) (cs : List A) (r : ℕ) (xs : List (List A))
      → extend (i + 1) cs r (bump (row_of n i) c r xs) ≡ extend i (c ∷ cs) r xs
  unfolding extend bump select
  extend-bump i c cs r [] = refl
  extend-bump i c cs r (x ∷ xs) =
      ground (arith, extend-bump i c cs (r + 1) xs, append_assoc x (c ∷ []) (select n r (i + 1) cs))

  extend-nil : (i r : ℕ) (xs : List (List A)) → extend i [] r xs ≡ xs
  unfolding extend select
  extend-nil i r [] = refl
  extend-nil i r (x ∷ xs) = ap₂ ◌∷◌ (append-nil x) (extend-nil i (r + 1) xs)

  -- With a buffer for each row that occurs, no access is out of range, and each buffer gets
  -- exactly the characters of its row, in order.
  pub scatter_lem :
      1 < n
      → (i : ℕ) (s : List A) (rows : List (List A)) → min n (i + length s) ≤ length rows
      → scatter i s rows ≡ some (extend i s 0 rows)
  unfolding scatter
  scatter_lem h i [] rows room = ap some (sym (extend-nil i 0 rows))
  scatter_lem h i (c ∷ cs) rows room =
      let low : row_of n i ≤ i = row_of-le n i in
      let small : row_of n i < n = row_of-lt n i h in
      let e : append_at rows (row_of n i) c ≡ some (bump (row_of n i) c 0 rows) =
        append_at-bump rows (row_of n i) c 0 (omega arith)
        ∙ ap (λ k. some (bump k c 0 rows)) (zero-add _) in
      rw e (
        scatter_lem h (i + 1) cs (bump (row_of n i) c 0 rows)
          (omega (arith, length-bump (row_of n i) c 0 rows))
        ∙ ap some (extend-bump i c cs 0 rows))

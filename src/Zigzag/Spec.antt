-- ===== src/Zigzag/Spec.antt =====
-- What a zigzag is: the character at position `i` goes to row `row_of n i`, which runs down the
-- rows and up again; the rows are read one after the other.
use cpp_tricks.Common.{ℕ, zero, suc, ◌+◌, ◌-◌, ◌%◌, List, [], ◌∷◌, ◌++◌, ltb, ◌==◌, if◌then◌else◌}
use cpp_tricks.Zigzag.{stride}

-- The row of the character at offset `k` of a box.
unfoldable pub row : ℕ → ℕ → ℕ
row n k = if ltb k n then k else stride n - k

abbrev pub row_of : ℕ → ℕ → ℕ
row_of n i = row n (i % stride n)

module _ {ℓ} {A : Type ℓ} (n : ℕ) where
  -- The characters of `s` that belong to row `r`, when `s` starts at position `i`.
  unfoldable pub select : ℕ → ℕ → List A → List A
  select r i [] = []
  select r i (c ∷ cs) = if row_of n i == r then c ∷ select r (i + 1) cs else select r (i + 1) cs

  -- The rows `r`, `r + 1`, … read one after the other, `k` of them.
  unfoldable pub read_rows : ℕ → ℕ → List A → List A
  unfolding select
  read_rows zero r s = []
  read_rows (suc k) r s = select r 0 s ++ read_rows k (r + 1) s

  unfoldable pub zigzag : List A → List A
  unfolding read_rows
  zigzag s = if n == 1 then s else read_rows n 0 s

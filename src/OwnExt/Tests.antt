-- ===== src/OwnExt/Tests.antt =====
-- A run of std_own_ext.h's `compact`, and what the theorem says at it.
use cpp_tricks.Common.{ℕ, ◌≡◌, refl, Bool, true, false, not, some, List, [], ◌∷◌, map, arith, ◌==◌}
use cpp_tricks.OwnExt.{compact, at, contain, found, invalid_argument}
use cpp_tricks.OwnExt.Laws.{merge, merge-compact}

abbrev numbers : List ℕ
numbers = 4 ∷ 5 ∷ 6 ∷ []

abbrev bits : List Bool
bits = true ∷ false ∷ true ∷ []

kept : compact numbers bits ≡ some (4 ∷ 6 ∷ [])
unfolding compact
kept = refl

-- A map of two keys.
abbrev entries : List (ℕ × ℕ)
entries = (1, 10) ∷ (2, 20) ∷ []

second_value : at (λ a b. a == b) entries 2 ≡ found 20
unfolding at
second_value = refl

no_third : at (λ a b. a == b) entries 3 ≡ invalid_argument
unfolding at
no_third = refl

third_denied : contain (λ a b. a == b) entries 3 ≡ false
unfolding contain
third_denied = refl

merge-compact_example :
    (ins : List ℕ) × (outs : List ℕ) × (compact numbers bits ≡ some ins)
    × (compact numbers (map not bits) ≡ some outs)
    × (merge bits ins outs ≡ numbers)
merge-compact_example = merge-compact numbers bits (omega arith)

-- ===== src/IndependentSet/Tests.antt =====
-- The path of `TEST(W3, Wis)`, and one on which its walk reads in front of the table.
use cpp_tricks.Common.{ℕ, ◌≡◌, refl, none, some, List, [], ◌∷◌, ◌>>=◌, length, get_elem?, arith}
use cpp_tricks.IndependentSet.{set_table, chosen}
use cpp_tricks.IndependentSet.Walk.{IsTable, WalkEnds, set_table-IsHeaviest}

abbrev path_weights : List ℕ
path_weights = 0 ∷ 1 ∷ 4 ∷ 5 ∷ 4 ∷ []

path_weights-chosen : (set_table path_weights >>= λ a. chosen path_weights a 4) ≡ some (4 ∷ 2 ∷ [])
unfolding set_table chosen
path_weights-chosen = refl

heavy_first-fails : (set_table (0 ∷ 5 ∷ 1 ∷ []) >>= λ a. chosen (0 ∷ 5 ∷ 1 ∷ []) a 2) ≡ none
unfolding set_table chosen
heavy_first-fails = refl

set_table-IsHeaviest_example :
    (a : List ℕ) × (r : ℕ) × (set_table path_weights ≡ some a)
    × IsTable path_weights a (length path_weights)
    × (get_elem? a 4 ≡ some r)
    × WalkEnds path_weights a 4 r
set_table-IsHeaviest_example = set_table-IsHeaviest path_weights 4 refl (omega arith)

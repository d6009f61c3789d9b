-- ===== src/Growing/Tests.antt =====
-- The array of `TEST(Dyn, MaxGrow)`.
use cpp_tricks.Common.{ℕ, ◌≡◌, refl, some, List, [], ◌∷◌, length}
use cpp_tricks.Growing.{extend_from, grow_from, longest}
use cpp_tricks.Growing.Longest.{IsFilled, longest-IsFilled}

abbrev given : List ℕ
given = 5 ∷ 2 ∷ 8 ∷ 6 ∷ 3 ∷ 6 ∷ 9 ∷ 7 ∷ []

given-longest : longest given ≡ some (1 ∷ 1 ∷ 2 ∷ 2 ∷ 2 ∷ 3 ∷ 4 ∷ 4 ∷ [])
unfolding longest grow_from extend_from
given-longest = refl

longest-IsFilled_example : (d : List ℕ) × (longest given ≡ some d) × IsFilled given d (length given)
longest-IsFilled_example = longest-IsFilled given

-- ===== src/Zigzag/Tests.antt =====
-- The examples of the task, run.
use cpp_tricks.Common.{ℕ, ◌≡◌, refl, some, List, [], ◌∷◌, arith}
use cpp_tricks.Zigzag.Ref.{convert_ref}
use cpp_tricks.Zigzag.Base.{convert_base}
use cpp_tricks.Zigzag.Forge.{convert_forge}
use cpp_tricks.Zigzag.Best.{convert_best}
use cpp_tricks.Zigzag.Best1.{convert_best1}
use cpp_tricks.Zigzag.Spec.{zigzag}
use cpp_tricks.Zigzag.Equivalence.{convert_forge-zigzag, convert_base-zigzag, convert_ref-zigzag}
use cpp_tricks.Zigzag.BestLoop.{convert_best-zigzag, convert_best1-zigzag}

abbrev digits : List ℕ
digits = 0 ∷ 1 ∷ 2 ∷ 3 ∷ 4 ∷ 5 ∷ 6 ∷ 7 ∷ 8 ∷ []

abbrev in_three_rows : List ℕ
in_three_rows = 0 ∷ 4 ∷ 8 ∷ 1 ∷ 3 ∷ 5 ∷ 7 ∷ 2 ∷ 6 ∷ []

ref_runs : convert_ref digits 3 ≡ some in_three_rows
unfolding convert_ref
ref_runs = refl

base_runs : convert_base digits 3 ≡ some in_three_rows
unfolding convert_base
base_runs = refl

forge_runs : convert_forge digits 3 ≡ some in_three_rows
unfolding convert_forge
forge_runs = refl

best_runs : convert_best digits 3 ≡ some in_three_rows
unfolding convert_best
best_runs = refl

best1_runs : convert_best1 digits 3 ≡ some in_three_rows
unfolding convert_best1
best1_runs = refl

convert_ref-zigzag_example : convert_ref digits 3 ≡ some (zigzag 3 digits)
convert_ref-zigzag_example = convert_ref-zigzag digits 3 (omega arith)

convert_base-zigzag_example : convert_base digits 3 ≡ some (zigzag 3 digits)
convert_base-zigzag_example = convert_base-zigzag digits 3 (omega arith)

convert_forge-zigzag_example : convert_forge digits 3 ≡ some (zigzag 3 digits)
convert_forge-zigzag_example = convert_forge-zigzag digits 3 (omega arith)

convert_best-zigzag_example : convert_best digits 3 ≡ some (zigzag 3 digits)
convert_best-zigzag_example = convert_best-zigzag digits 3 (omega arith)

convert_best1-zigzag_example : convert_best1 digits 3 ≡ some (zigzag 3 digits)
convert_best1-zigzag_example = convert_best1-zigzag digits 3 (omega arith)

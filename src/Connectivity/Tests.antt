-- ===== src/Connectivity/Tests.antt =====
-- Runs of both programs on the input of their tests, and the theorems there.
use cpp_tricks.Common.{ℕ, ◌+◌, ◌≡◌, refl, some, List, [], ◌∷◌, arith}
use cpp_tricks.Connectivity.{relabel, find_root, quick_find, quick_union}
use cpp_tricks.Connectivity.Joined.{Link, Kept, input, output, AreNodes}
use cpp_tricks.Connectivity.Find.{quick_find-Kept}
use cpp_tricks.Connectivity.Union.{quick_union-quick_find}

-- `g_getInVector`
abbrev given : List Link
given =
    (3, 4)
    ∷ (4, 9)
    ∷ (8, 0)
    ∷ (2, 3)
    ∷ (5, 6)
    ∷ (2, 9)
    ∷ (5, 9)
    ∷ (7, 3)
    ∷ (4, 8)
    ∷ (5, 6)
    ∷ (0, 2)
    ∷ (6, 1)
    ∷ []

abbrev expected : List Link
expected = (3, 4) ∷ (4, 9) ∷ (8, 0) ∷ (2, 3) ∷ (5, 6) ∷ (5, 9) ∷ (7, 3) ∷ (4, 8) ∷ (6, 1) ∷ []

-- The character of a number below 10.
abbrev digit : ℕ → List ℕ
digit n = (48 + n) ∷ []

quick_find-expected : quick_find digit (input given) ≡ some (output digit expected)
unfolding quick_find relabel
quick_find-expected = refl

quick_union-expected : quick_union digit 13 (input given) ≡ some (output digit expected)
unfolding quick_union find_root
quick_union-expected = refl

abbrev given-AreNodes : AreNodes given
given-AreNodes = (
  omega arith,
  omega arith,
  (
    omega arith,
    omega arith,
    (
      omega arith,
      omega arith,
      (
        omega arith,
        omega arith,
        (
          omega arith,
          omega arith,
          (
            omega arith,
            omega arith,
            (
              omega arith,
              omega arith,
              (
                omega arith,
                omega arith,
                (
                  omega arith,
                  omega arith,
                  (
                    omega arith,
                    omega arith,
                    (omega arith, omega arith, (omega arith, omega arith, tt)),
                  ),
                ),
              ),
            ),
          ),
        ),
      ),
    ),
  ),
)

quick_find-Kept_example :
    (out : List Link) × (quick_find digit (input given) ≡ some (output digit out))
    × Kept [] given out
quick_find-Kept_example = quick_find-Kept digit given given-AreNodes

quick_union-quick_find_example :
    (text : List ℕ) × (quick_union digit 13 (input given) ≡ some text)
    × (quick_find digit (input given) ≡ some text)
quick_union-quick_find_example = quick_union-quick_find digit 13 given given-AreNodes (omega arith)

-- ===== src/GraphInput/Tests.antt =====
-- Runs of build_graph, and the theorems at those inputs, which PathFile starts from too.
use cpp_tricks.Common.{
  ℕ, zero, suc, ◌+◌, ◌≤◌, ◌<◌, ◌≡◌, refl, ap, true, false, some, List, [], ◌∷◌, map, length,
  get_elem?, replicate, some_injective, ℕ_discrete, arith,
}
use cpp_tricks.NodeLine.{pos, is_digit, is_trimmed}
use cpp_tricks.NodeLine.Lines.{value_from, entries_text}
use cpp_tricks.GraphInput.{Neighbor, done, broken, process_serial, process_parallel, build_graph}
use cpp_tricks.GraphInput.Places.{AreDistinct, IsPlaced}
use cpp_tricks.GraphInput.Parallel.{CoversRange, process_parallel-serial}
use cpp_tricks.GraphInput.Built.{
  Line, text, AreLines, node_of, build_graph-IsPlaced, build_graph-unread,
}

-- The indices from the last to the first.
unfoldable pub backwards : ℕ → List ℕ
backwards zero = []
backwards (suc n) = n ∷ backwards n

backwards-all : (n i : ℕ) → i < n → (j : ℕ) × (get_elem? (backwards n) j ≡ some i)
unfolding backwards
backwards-all zero i lt = absurd (omega (arith, lt))
backwards-all (suc n) i lt = elim (ℕ_discrete n i) [
  | yes same ↦ (0, ap some same)
  | no other ↦ let (j, e) = backwards-all n i (omega (arith, lt, other)) in (suc j, e)
]

backwards-only : (n i j : ℕ) → get_elem? (backwards n) j ≡ some i → i < n
unfolding backwards
backwards-only zero i j e = let clash : ⊥ = cc in absurd clash
backwards-only (suc n) i zero e = let same = some_injective e in omega (arith, same)
backwards-only (suc n) i (suc j) e = let lt = backwards-only n i j e in omega (arith, lt)

pub backwards-CoversRange : CoversRange backwards
backwards-CoversRange = record { all = backwards-all; only = backwards-only }

-- "2\t1,5\n" and "1\t"
abbrev pub two_lines : List Line
two_lines =
    record {
      numeral = 50 ∷ [];
      entries = record { node = 49 ∷ []; weight = 53 ∷ [] } ∷ [];
      trailing = 10 ∷ [];
    }
    ∷ record { numeral = 49 ∷ []; entries = []; trailing = 9 ∷ [] }
    ∷ []

two_lines-built :
    build_graph true backwards (map text two_lines)
    ≡ done ([] ∷ [] ∷ (record { weight = pos 5; end = pos 1 } ∷ []) ∷ [])
unfolding build_graph entries_text backwards
two_lines-built = refl

-- A number that stands at two lines fails the assert.
doubled-broken : build_graph true backwards ((49 ∷ []) ∷ (49 ∷ []) ∷ []) ≡ broken
unfolding build_graph backwards
doubled-broken = refl

abbrev pub two_lines-AreLines : AreLines two_lines
unfolding is_digit is_trimmed value_from
two_lines-AreLines = (
  (
    record { some_digit = omega arith; digits = (refl, tt); fits = omega arith },
    (
      record { some_digit = omega arith; digits = (refl, tt); fits = omega arith },
      record { some_digit = omega arith; digits = (refl, tt); fits = omega arith },
      tt,
    ),
    (refl, tt),
  ),
  (
    (record { some_digit = omega arith; digits = (refl, tt); fits = omega arith }, tt, (refl, tt)),
    tt,
  ),
)

pub two_lines-AreDistinct : AreDistinct (map node_of two_lines)
unfolding value_from
two_lines-AreDistinct zero zero k ns ms e f = refl
two_lines-AreDistinct zero (suc zero) k ns ms e f =
    let same = ap (λ q. q.0) (some_injective e) in
    let other = ap (λ q. q.0) (some_injective f) in absurd (omega (arith, same, other))
two_lines-AreDistinct (suc zero) zero k ns ms e f =
    let same = ap (λ q. q.0) (some_injective e) in
    let other = ap (λ q. q.0) (some_injective f) in absurd (omega (arith, same, other))
two_lines-AreDistinct (suc zero) (suc zero) k ns ms e f = refl
two_lines-AreDistinct (suc (suc i)) j k ns ms e f = let clash : ⊥ = cc in absurd clash
two_lines-AreDistinct zero (suc (suc j)) k ns ms e f = let clash : ⊥ = cc in absurd clash
two_lines-AreDistinct (suc zero) (suc (suc j)) k ns ms e f = let clash : ⊥ = cc in absurd clash

pub two_lines-low :
    (i k : ℕ) (ns : List Neighbor)
    → get_elem? (map node_of two_lines) i ≡ some (k, ns)
    → k ≤ length two_lines
unfolding value_from
two_lines-low zero k ns e = let same = ap (λ q. q.0) (some_injective e) in omega (arith, same)
two_lines-low (suc zero) k ns e = let same = ap (λ q. q.0) (some_injective e) in omega (arith, same)
two_lines-low (suc (suc i)) k ns e = let clash : ⊥ = cc in absurd clash

build_graph-IsPlaced_example :
    (graph : List (List Neighbor)) × (build_graph true backwards (map text two_lines) ≡ done graph)
    × IsPlaced (map node_of two_lines) (replicate (length two_lines + 1) []) graph
build_graph-IsPlaced_example =
    build_graph-IsPlaced backwards two_lines backwards-CoversRange two_lines-AreLines (omega arith)
      two_lines-AreDistinct two_lines-low

process_parallel-serial_example :
    process_parallel true backwards (map text two_lines) ≡ process_serial (map text two_lines)
process_parallel-serial_example =
    process_parallel-serial backwards (map text two_lines) backwards-CoversRange (omega arith)

build_graph-unread_example : build_graph false backwards (map text two_lines) ≡ broken
build_graph-unread_example = build_graph-unread backwards (map text two_lines)

-- ===== src/PathFile/Tests.antt =====
-- A run from the text of a file to the distances, and the theorem at that file.
use cpp_tricks.Common.{
  ℕ, zero, suc, ◌+◌, ◌≡◌, sym, ap, true, some, List, map, length, get_elem?, some_injective, subst,
  arith,
}
use cpp_tricks.NodeLine.Lines.{value, value_from}
use cpp_tricks.GraphInput.Built.{text}
use cpp_tricks.GraphInput.Tests.{
  backwards, backwards-CoversRange, two_lines, two_lines-AreLines, two_lines-AreDistinct,
  two_lines-low,
}
use cpp_tricks.ShortestPath.{NodeInfo}
use cpp_tricks.ShortestPath.Correct.{IsDistance}
use cpp_tricks.PathFile.{file_paths}
use cpp_tricks.PathFile.Distances.{HasEnds, HasRows, file_paths-IsDistance}
use cpp_tricks.ShortestPath

two_lines-HasEnds : HasEnds two_lines
unfolding value_from
two_lines-HasEnds zero zero l e here at =
    let moved = subst (λ q. get_elem? q.entries 0 ≡ some e) (sym (some_injective here)) at in
    let node = ap (λ q. value q.node) (some_injective moved) in
    let weight = ap (λ q. value q.weight) (some_injective moved) in
    (omega (arith, node), omega (arith, node), omega (arith, weight))
two_lines-HasEnds zero (suc k) l e here at =
    let moved = subst (λ q. get_elem? q.entries (suc k) ≡ some e) (sym (some_injective here)) at in
    let clash : ⊥ = cc in absurd clash
two_lines-HasEnds (suc zero) k l e here at =
    let moved = subst (λ q. get_elem? q.entries k ≡ some e) (sym (some_injective here)) at in
    let clash : ⊥ = cc in absurd clash
two_lines-HasEnds (suc (suc i)) k l e here at = let clash : ⊥ = cc in absurd clash

file_paths-IsDistance_example :
    (rows : List (List ShortestPath.Neighbor)) × (track : List NodeInfo) × (file_paths true
        backwards 4
        (map text two_lines)
      ≡ some track)
    × (length track ≡ length two_lines + 1)
    × HasRows two_lines rows
    × ((v : ℕ) (x : NodeInfo) → get_elem? track v ≡ some x → IsDistance rows v x.d)
file_paths-IsDistance_example =
    file_paths-IsDistance backwards 4 two_lines backwards-CoversRange two_lines-AreLines
      (omega arith) two_lines-AreDistinct two_lines-low two_lines-HasEnds (omega arith)

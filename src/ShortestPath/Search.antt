-- ===== src/ShortestPath/Search.antt =====
-- shortest_path.cc: the search ends.
use cpp_tricks.Common.{
  ℕ, zero, suc, ◌+◌, ◌<◌, ◌≡◌, refl, ap, sym, ◌∙◌, true, false, some, List, [], ◌∷◌, ◌==◌,
  if◌then◌else◌, ◌>>=◌, get_elem?, set, arith, Bool-cases, inl, inr, get_elem?_of_lt, length-set,
  lt_of_get_elem?, some_injective, total, total-set, total-pointwise,
}
use cpp_tricks.ShortestPath.{k_max_val, Neighbor, NodeInfo, visit}
use cpp_tricks.ShortestPath.Walks.{IsGraph}
use cpp_tricks.ShortestPath.Minimum.{IsMinimum}
use cpp_tricks.ShortestPath.Relaxing.{relax_all-IsLowered}
use cpp_tricks.ShortestPath.{min_element, search_paths}
use cpp_tricks.ShortestPath.Minimum.{min_element-IsMinimum}
use cpp_tricks.ShortestPath.Rounds.{IsSearched, fate}
use cpp_tricks.ShortestPath.Visiting.{
  capped', sound', source', relaxed', ordered', reached', unused',
}

-- 1 for a node that was not visited.
abbrev pub fresh : NodeInfo → ℕ
fresh x = if x.visited then 0 else 1

-- A visit of a found node below kMaxVal does not fail, keeps the invariant, and leaves one unvisited
-- node less.
visit-IsSearched :
    (graph : List (List Neighbor))
    → IsGraph graph
    → (track : List NodeInfo) → IsSearched graph track
    → (at : ℕ) (info : NodeInfo) → IsMinimum track at info
    → info.d < k_max_val
    → (track' : List NodeInfo) × (visit graph track at info ≡ some track')
      × IsSearched graph track'
      × (total fresh track' + 1 ≡ total fresh track)
unfolding visit
visit-IsSearched graph is_graph track inv at info min near =
    let same = inv.same_length in
    let below = lt_of_get_elem? track at min.there in
    let (ns, there) = get_elem?_of_lt graph at (omega (arith, same, below)) in
    let t0 = set track at (record info { visited = true }) in
    let marked = length-set track at (record info { visited = true }) in
    let (track', run, low) = relax_all-IsLowered info.d t0 ns (λ k n at_k.
      let ends = (is_graph.ends at k ns n there at_k).0 in
      let small = is_graph.small at k ns n there at_k in
      (omega (arith, ends, same, marked), omega (arith, small, near))) in
    let fates = fate track track' at info ns min.there low in
    let same' = low.same_length in
    let counted = total-set fresh track at info (record info { visited = true }) min.there in
    let equal = total-pointwise fresh t0 track' low.same_length (λ v x y e e'.
      let (y', e'', l) = low.nodes v x e in
      ap (λ b. if b then 0 else 1)
        (ap (λ q. q.visited) (some_injective (sym e' ∙ e'')) ∙ l.same_visited)) in
    let un = min.unvisited in
    (
      track',
      rw there run,
      record {
        same_length = omega (arith, same, same', marked);
        capped = capped' graph is_graph track inv at info min near ns there track' fates;
        sound = sound' graph is_graph track inv at info min near ns there track' fates;
        source = source' graph is_graph track inv at info min near ns there track' fates;
        relaxed = relaxed' graph is_graph track inv at info min near ns there track' fates;
        ordered = ordered' graph is_graph track inv at info min near ns there track' fates;
        reached = reached' graph is_graph track inv at info min near ns there track' fates;
        unused = unused' graph is_graph track inv at info min near ns there track' fates;
      },
      ground (arith, counted, equal, un),
    )

-- A search that may stop: nothing unvisited is nearer than kMaxVal.
abbrev pub IsExhausted : List NodeInfo → Type 0
IsExhausted track =
    (v : ℕ) (x : NodeInfo) → get_elem? track v ≡ some x → x.visited ≡ false → x.d ≡ k_max_val

find_nearest :
    (graph : List (List Neighbor)) (track : List NodeInfo)
    → IsGraph graph
    → IsSearched graph track
    → (at : ℕ) × (info : NodeInfo) × (min_element track ≡ some (at, info)) × IsMinimum track at info
find_nearest graph [] is_graph inv =
    let same = inv.same_length in
    let start = is_graph.has_start in absurd (omega (arith, same, start))
find_nearest graph (x ∷ xs) is_graph inv =
    let (un, far) = inv.unused x refl in min_element-IsMinimum x xs un (omega (arith, far))

search_step :
    (fuel at : ℕ) (info : NodeInfo) (graph : List (List Neighbor)) (track : List NodeInfo)
    → min_element track ≡ some (at, info)
    → search_paths (suc fuel) graph track ≡ (
        if info.d == k_max_val
        then some track
        else (visit graph track at info >>= λ track'. search_paths fuel graph track'))
unfolding search_paths
search_step fuel at info graph track e = rw e refl

pub search_paths-IsSearched :
    (fuel : ℕ) (graph : List (List Neighbor)) (track : List NodeInfo)
    → IsGraph graph
    → IsSearched graph track
    → total fresh track < fuel
    → (track' : List NodeInfo) × (search_paths fuel graph track ≡ some track')
      × IsSearched graph track'
      × IsExhausted track'
search_paths-IsSearched zero graph track is_graph inv lt = absurd (omega (arith, lt))
search_paths-IsSearched (suc fuel) graph track is_graph inv lt =
    let (at, info, found, min) = find_nearest graph track is_graph inv in
    elim (Bool-cases (info.d == k_max_val)) [
      | inl done ↦
          let un = min.unvisited in
          (
            track,
            search_step fuel at info graph track found ∙ rw done refl,
            inv,
            λ v x e un'.
                let least = min.least v x e in
                let cap = inv.capped v x e in ground (arith, done, least, cap, un, un'),
          )
      | inr more ↦
          let cap = inv.capped at info min.there in
          let (t1, visited_one, inv1, fewer) =
            visit-IsSearched graph is_graph track inv at info min (ground (arith, more, cap)) in
          let (t2, run, inv2, exhausted) =
            search_paths-IsSearched fuel graph t1 is_graph inv1 (omega (arith, fewer, lt)) in
          (
            t2,
            search_step fuel at info graph track found ∙ rw (more, visited_one) run,
            inv2,
            exhausted,
          )
    ]

-- ===== src/Connectivity/Union.antt =====
-- connectivity_problem_test.cc: quick_union keeps the links that quick_find keeps.
use cpp_tricks.Common.{
  ℕ, suc, ◌+◌, ◌<◌, ◌≡◌, ◌≢◌, refl, ap, sym, ◌∙◌, some, List, [], ◌∷◌, ◌++◌, append-nil,
  append_assoc, ◌==◌, length, set, ==_iff, Bool-cases, inl, inr, arith,
}
use cpp_tricks.Connectivity.{
  node_count, numbers_from, link_text, union_links, quick_find, quick_union,
}
use cpp_tricks.Connectivity.Joined.{Link, Kept, Kept-unique, input, output, AreNodes}
use cpp_tricks.Connectivity.Labels.{Decides, united, start-Decides, skip-Decides, union-Decides}
use cpp_tricks.Connectivity.Find.{length-numbers_from, get_elem?-numbers_from, quick_find-Kept}
use cpp_tricks.Connectivity.Trees.{IsForest, find_root-label, deeper, union-IsForest}

-- From trees whose roots tell what is joined, the loop keeps the links that join what was not; a
-- union makes the trees one level higher at most.
union_links-Kept :
    (cast : ℕ → List ℕ) (fuel : ℕ) (ids : List ℕ) (label depth : ℕ → ℕ) (m : ℕ)
    (seen links : List Link) (result : List ℕ)
    → IsForest ids label depth m
    → Decides label seen
    → AreNodes links
    → m + length links < fuel
    → (out : List Link) × (union_links cast fuel ids result (input links)
        ≡ some (result ++ output cast out))
      × Kept seen links out
unfolding union_links
union_links-Kept cast fuel ids label depth m seen [] result k d nodes lt =
    ([], ap some (sym (append-nil result)), refl)
union_links-Kept cast fuel ids label depth m seen ((p, q) ∷ links) result k d (low_p, low_q, nodes)
      lt =
    let le_p = k.shallow p low_p in
    let le_q = k.shallow q low_q in
    let (walk_p, root_p) =
      find_root-label ids label depth m fuel p k low_p (omega (arith, le_p, lt)) in
    let (walk_q, root_q) =
      find_root-label ids label depth m fuel q k low_q (omega (arith, le_q, lt)) in
    elim (Bool-cases (label p == label q)) [
      | inl t ↦
          let e = (==_iff (label p) (label q)).0 t in
          let (out, run, kept) =
            union_links-Kept cast fuel ids label depth m ((p, q) ∷ seen) links result k
              (skip-Decides label seen p q d e) nodes (omega (arith, lt)) in
          (out, rw (union_links, walk_p, walk_q, t) run, inl ((d p q).0 e, kept))
      | inr f ↦
          let ne : label p ≢ label q =
            λ e. let t = (==_iff (label p) (label q)).1 e in let clash : ⊥ = cc in clash in
          let k' = union-IsForest ids label depth m (label p) (label q) k root_p root_q ne in
          let (out, run, kept) =
            union_links-Kept cast fuel (set ids (label p) (label q))
              (united label (label p) (label q)) (deeper label depth (label p)) (suc m)
              ((p, q) ∷ seen) links (result ++ link_text cast p q) k'
              (union-Decides label seen p q d ne) nodes (omega (arith, lt)) in
          (
            (p, q) ∷ out,
            rw (union_links, walk_p, walk_q, f)
                (run ∙ ap some (append_assoc result (link_text cast p q) (output cast out))),
            inr ((λ j. ne ((d p q).1 j)), out, refl, kept),
          )
    ]

start-IsForest : IsForest (numbers_from 0 node_count) (λ a. a) (λ a. 0) 0
start-IsForest = record {
  sized = length-numbers_from 0 node_count;
  node = λ a low. (
    a,
    get_elem?-numbers_from 0 node_count a low ∙ ap some (omega arith),
    low,
    inl (refl, refl, refl),
  );
  shallow = λ a low. omega arith;
}

quick_union-Kept :
    (cast : ℕ → List ℕ) (fuel : ℕ) (links : List Link)
    → AreNodes links
    → length links < fuel
    → (out : List Link) × (quick_union cast fuel (input links) ≡ some (output cast out))
      × Kept [] links out
unfolding quick_union
quick_union-Kept cast fuel links nodes lt =
    union_links-Kept cast fuel (numbers_from 0 node_count) (λ a. a) (λ a. 0) 0 [] links []
      start-IsForest start-Decides nodes (omega (arith, lt))

-- On links between the nodes below 20, with fuel above their number for each walk to a root, every
-- walk ends and quick_union writes what quick_find writes.
pub quick_union-quick_find :
    (cast : ℕ → List ℕ) (fuel : ℕ) (links : List Link)
    → AreNodes links
    → length links < fuel
    → (text : List ℕ) × (quick_union cast fuel (input links) ≡ some text)
      × (quick_find cast (input links) ≡ some text)
quick_union-quick_find cast fuel links nodes lt =
    let (out, run, kept) = quick_union-Kept cast fuel links nodes lt in
    let (out', run', kept') = quick_find-Kept cast links nodes in
    (
      output cast out,
      run,
      run' ∙ ap (λ l. some (output cast l)) (Kept-unique [] links out' out kept' kept),
    )

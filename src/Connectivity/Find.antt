-- ===== src/Connectivity/Find.antt =====
-- connectivity_problem_test.cc: quick_find keeps the links that join what was not joined.
use cpp_tricks.Common.{
  ℕ, zero, suc, ◌+◌, ◌≤◌, ◌<◌, ◌≡◌, ◌≢◌, refl, ap, sym, ◌∙◌, subst, some, List, [], ◌∷◌, ◌++◌,
  append-nil, append_assoc, ◌==◌, if◌then◌else◌, length, get_elem?, set, length-set,
  get_elem?-set_self, get_elem?-set_ne, ==_of_ne, ==_iff, Bool-cases, inl, inr, ℕ_discrete, dec_lt,
  arith,
}
use cpp_tricks.Connectivity.{node_count, numbers_from, link_text, relabel, find_links, quick_find}
use cpp_tricks.Connectivity.Joined.{Link, Kept, input, output, AreNodes}
use cpp_tricks.Connectivity.Labels.{
  Decides, united, united-other, start-Decides, skip-Decides, union-Decides,
}

pub length-numbers_from : (i k : ℕ) → length (numbers_from i k) ≡ k
unfolding numbers_from
length-numbers_from i zero = refl
length-numbers_from i (suc k) = ap suc (length-numbers_from (i + 1) k)

pub get_elem?-numbers_from : (i k a : ℕ) → a < k → get_elem? (numbers_from i k) a ≡ some (i + a)
unfolding numbers_from
get_elem?-numbers_from i zero a lt = absurd (omega (arith, lt))
get_elem?-numbers_from i (suc k) zero lt = ap some (omega arith)
get_elem?-numbers_from i (suc k) (suc a) lt =
    get_elem?-numbers_from (i + 1) k a (omega (arith, lt)) ∙ ap some (omega arith)

-- The ids are the labels of the nodes.
abbrev AreLabels : List ℕ → (ℕ → ℕ) → Type 0
AreLabels ids label =
    (length ids ≡ node_count) × ((a : ℕ) → a < node_count → get_elem? ids a ≡ some (label a))

-- A round of the inner loop writes the label of its node and no other.
relabel-round :
    (label : ℕ → ℕ) (t r i : ℕ) (ids : List ℕ)
    → i < length ids
    → get_elem? ids i ≡ some (label i)
    → (get_elem? (if label i == t then set ids i r else ids) i ≡ some (united label t r i))
      × (length (if label i == t then set ids i r else ids) ≡ length ids)
      × ((a : ℕ)
          → i ≢ a
          → get_elem? (if label i == t then set ids i r else ids) a ≡ get_elem? ids a)
relabel-round label t r i ids lt here = elim (Bool-cases (label i == t)) [
  | inl yes_t ↦
      rw yes_t
        (get_elem?-set_self ids i r lt, length-set ids i r, λ a ne. get_elem?-set_ne ids r ne)
  | inr no_t ↦ rw no_t (here, refl, λ a ne. refl)
]

relabel-AreLabels :
    (label : ℕ → ℕ) (t q k i : ℕ) (ids : List ℕ)
    → label q ≢ t
    → q < node_count
    → i + k ≡ node_count
    → length ids ≡ node_count
    → ((a : ℕ) → a < i → get_elem? ids a ≡ some (united label t (label q) a))
    → ((a : ℕ) → i ≤ a → a < node_count → get_elem? ids a ≡ some (label a))
    → (ids' : List ℕ) × (relabel k i t q ids ≡ some ids')
      × AreLabels ids' (united label t (label q))
unfolding relabel
relabel-AreLabels label t q zero i ids ne low sum sized before after =
    (ids, refl, (sized, λ a lt. before a (omega (arith, lt, sum))))
relabel-AreLabels label t q (suc k) i ids ne low sum sized before after =
    let here = after i (omega arith) (omega (arith, sum)) in
    let (written, same, others) =
      relabel-round label t (label q) i ids (omega (arith, sum, sized)) here in
    let (ids', run, k') =
      relabel-AreLabels label t q k (i + 1) (if label i == t then set ids i (label q) else ids) ne
        low (omega (arith, sum)) (same ∙ sized) (extend _ written others)
        (λ a le lt.
          others a (λ z. absurd (omega (arith, z, le))) ∙ after a (omega (arith, le)) lt) in
    (ids', rw (relabel, here, kept) run, k')
  where
    extend :
        (ids1 : List ℕ)
        → get_elem? ids1 i ≡ some (united label t (label q) i)
        → ((a : ℕ) → i ≢ a → get_elem? ids1 a ≡ get_elem? ids a)
        → (a : ℕ) → a < i + 1
        → get_elem? ids1 a ≡ some (united label t (label q) a)
    extend ids1 written others a lt = elim (ℕ_discrete i a) [
      | yes e ↦ subst (λ b. get_elem? ids1 b ≡ some (united label t (label q) b)) e written
      | no ne ↦ others a ne ∙ before a (omega (arith, lt, ne))
    ]

    kept : get_elem? ids q ≡ some (label q)
    kept = elim (dec_lt q i) [
      | yes lt ↦ before q lt ∙ ap some (united-other label t (label q) q (==_of_ne (label q) t ne))
      | no ge ↦ after q (omega (arith, ge)) low
    ]

-- From labels that tell what is joined, the loop keeps the links that join what was not.
find_links-Kept :
    (cast : ℕ → List ℕ) (ids : List ℕ) (label : ℕ → ℕ) (seen links : List Link) (result : List ℕ)
    → AreLabels ids label
    → Decides label seen
    → AreNodes links
    → (out : List Link) × (find_links cast ids result (input links)
        ≡ some (result ++ output cast out))
      × Kept seen links out
unfolding find_links
find_links-Kept cast ids label seen [] result k d nodes =
    ([], ap some (sym (append-nil result)), refl)
find_links-Kept cast ids label seen ((p, q) ∷ links) result (sized, at) d (low_p, low_q, nodes) =
    elim (Bool-cases (label p == label q)) [
      | inl t ↦
          let e = (==_iff (label p) (label q)).0 t in
          let (out, run, kept) =
            find_links-Kept cast ids label ((p, q) ∷ seen) links result (sized, at)
              (skip-Decides label seen p q d e) nodes in
          (out, rw (find_links, at p low_p, at q low_q, t) run, inl ((d p q).0 e, kept))
      | inr f ↦
          let ne : label p ≢ label q =
            λ e. let t = (==_iff (label p) (label q)).1 e in let clash : ⊥ = cc in clash in
          let (ids', united_run, k') =
            relabel-AreLabels label (label p) q node_count 0 ids (λ e. ne (sym e)) low_q refl sized
              (λ a lt. absurd (omega (arith, lt))) (λ a le lt. at a lt) in
          let (out, run, kept) =
            find_links-Kept cast ids' (united label (label p) (label q)) ((p, q) ∷ seen) links
              (result ++ link_text cast p q) k' (union-Decides label seen p q d ne) nodes in
          (
            (p, q) ∷ out,
            rw (find_links, at p low_p, at q low_q, f, united_run)
                (run ∙ ap some (append_assoc result (link_text cast p q) (output cast out))),
            inr ((λ j. ne ((d p q).1 j)), out, refl, kept),
          )
    ]

-- On links between the nodes below 20, quick_find has no access out of range and writes, in their
-- order, exactly the links whose nodes the links before them do not join.
pub quick_find-Kept :
    (cast : ℕ → List ℕ) (links : List Link)
    → AreNodes links
    → (out : List Link) × (quick_find cast (input links) ≡ some (output cast out))
      × Kept [] links out
unfolding quick_find
quick_find-Kept cast links nodes =
    find_links-Kept cast (numbers_from 0 node_count) (λ a. a) [] links []
      (
        length-numbers_from 0 node_count,
        λ a lt. get_elem?-numbers_from 0 node_count a lt ∙ ap some (omega arith),
      )
      start-Decides nodes

-- ===== src/Connectivity/Trees.antt =====
-- connectivity_problem_test.cc: the ids of quick_union are trees, whose roots are the labels.
use cpp_tricks.Common.{
  ℕ, zero, suc, ◌≤◌, ◌<◌, ◌≡◌, ◌≢◌, ap, sym, ◌∙◌, subst, true, false, some, List, ◌==◌,
  if◌then◌else◌, length, get_elem?, set, length-set, get_elem?-set_self, get_elem?-set_ne, ==_iff,
  ==_of_ne, Bool-cases, inl, inr, ◌⊎◌, ℕ_discrete, arith,
}
use cpp_tricks.Connectivity.{node_count, find_root}
use cpp_tricks.Connectivity.Labels.{united, united-t, united-other}

-- A root is its own parent; any other node has the label of its parent, one level below it.
abbrev pub IsNode : List ℕ → (ℕ → ℕ) → (ℕ → ℕ) → ℕ → Type 0
IsNode ids label depth a =
    (b : ℕ) × (get_elem? ids a ≡ some b)
    × (b < node_count)
    × (((b ≡ a) × (label a ≡ a) × (depth a ≡ 0))
        ⊎ ((b ≢ a) × (label b ≡ label a) × (suc (depth b) ≡ depth a)))

pub record IsForest (ids : List ℕ) (label depth : ℕ → ℕ) (m : ℕ) : Type 0 where
  pub sized : length ids ≡ node_count
  pub node : (a : ℕ) → a < node_count → IsNode ids label depth a
  pub shallow : (a : ℕ) → a < node_count → depth a ≤ m

abbrev pub IsRoot : (ℕ → ℕ) → (ℕ → ℕ) → ℕ → Type 0
IsRoot label depth i = (i < node_count) × (label i ≡ i) × (depth i ≡ 0)

-- With fuel above its depth, the walk from a node ends at the root that is its label.
pub find_root-label :
    (ids : List ℕ) (label depth : ℕ → ℕ) (m fuel a : ℕ)
    → IsForest ids label depth m
    → a < node_count
    → depth a < fuel
    → (find_root fuel ids a ≡ some (label a)) × IsRoot label depth (label a)
unfolding find_root
find_root-label ids label depth m zero a k low lt = absurd (omega (arith, lt))
find_root-label ids label depth m (suc fuel) a k low lt =
    let (b, at, low_b, alt) = k.node a low in
    step b at low_b alt (λ lower. find_root-label ids label depth m fuel b k low_b lower)
  where
    step :
        (b : ℕ)
        → get_elem? ids a ≡ some b
        → b < node_count
        → ((b ≡ a) × (label a ≡ a) × (depth a ≡ 0))
          ⊎ ((b ≢ a) × (label b ≡ label a) × (suc (depth b) ≡ depth a))
        → (depth b < fuel → (find_root fuel ids b ≡ some (label b)) × IsRoot label depth (label b))
        → (find_root (suc fuel) ids a ≡ some (label a)) × IsRoot label depth (label a)
    step b at low_b (inl (same, e, d)) walk =
        let test : a == b ≡ true = (==_iff a b).1 (sym same) in
        (rw (find_root, at, test) (ap some (sym e)), subst (IsRoot label depth) (sym e) (low, e, d))
    step b at low_b (inr (ne, e, d)) walk =
        let test : a == b ≡ false = ==_of_ne a b (λ z. ne (sym z)) in
        let (run, root) = walk (omega (arith, d, lt)) in
        (rw (find_root, at, test) (run ∙ ap some e), subst (IsRoot label depth) e root)

-- The depths behind a union: the nodes below `i` are one level deeper.
abbrev pub deeper : (ℕ → ℕ) → (ℕ → ℕ) → ℕ → ℕ → ℕ
deeper label depth i a = if label a == i then suc (depth a) else depth a

module _ (ids : List ℕ) (label depth : ℕ → ℕ) (m i j : ℕ) (k : IsForest ids label depth m)
    (root_i : IsRoot label depth i) (root_j : IsRoot label depth j) (ne : i ≢ j) where
  top-IsNode : IsNode (set ids i j) (united label i j) (deeper label depth i) i
  top-IsNode =
      let (low_i, label_i, depth_i) = root_i in
      let (low_j, label_j, depth_j) = root_j in
      let sized = k.sized in
      let here : label i == i ≡ true = (==_iff (label i) i).1 label_i in
      let there : label j == i ≡ false = ==_of_ne (label j) i (λ z. ne (sym z ∙ label_j)) in
      (
        j,
        get_elem?-set_self ids i j (omega (arith, low_i, sized)),
        low_j,
        inr (
          (λ z. ne (sym z)),
          united-other label i j j there ∙ label_j ∙ sym (united-t label i j i label_i),
          rw (here, there) (ap suc (depth_j ∙ sym depth_i)),
        ),
      )

  other-IsNode :
      (a : ℕ)
      → i ≢ a
      → IsNode ids label depth a
      → IsNode (set ids i j) (united label i j) (deeper label depth i) a
  other-IsNode a other (b, at, low, inl (same, e, d)) =
      let there : label a == i ≡ false = ==_of_ne (label a) i (λ z. other (sym z ∙ e)) in
      (
        b,
        get_elem?-set_ne ids j other ∙ at,
        low,
        inl (same, united-other label i j a there ∙ e, rw there d),
      )
  other-IsNode a other (b, at, low, inr (up, e, d)) = (
    b,
    get_elem?-set_ne ids j other ∙ at,
    low,
    inr (up, ap (λ n. if n == i then j else n) e, level),
  )
    where
      level : suc (deeper label depth i b) ≡ deeper label depth i a
      level = elim (Bool-cases (label a == i)) [
        | inl t ↦ rw (e, t) (ap suc d)
        | inr f ↦ rw (e, f) d
      ]

  pub union-IsForest : IsForest (set ids i j) (united label i j) (deeper label depth i) (suc m)
  union-IsForest = record {
    sized = length-set ids i j ∙ k.sized;
    node = λ a low. elim (ℕ_discrete i a) [
      | yes same ↦
          subst (IsNode (set ids i j) (united label i j) (deeper label depth i)) same top-IsNode
      | no other ↦ other-IsNode a other (k.node a low)
    ];
    shallow = λ a low. elim (Bool-cases (label a == i)) [
      | inl t ↦ let le = k.shallow a low in rw t (omega (arith, le))
      | inr f ↦ let le = k.shallow a low in rw f (omega (arith, le))
    ];
  }

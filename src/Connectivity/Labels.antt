-- ===== src/Connectivity/Labels.antt =====
-- connectivity_problem_test.cc: labels that tell which nodes are joined, and a link added to them.
use cpp_tricks.Common.{
  ℕ, ◌≡◌, ◌≢◌, refl, ap, sym, ◌∙◌, false, List, [], ◌∷◌, ◌==◌, if◌then◌else◌, ==_iff, Bool-cases,
  inl, inr, ◌↔◌,
}
use cpp_tricks.Connectivity.Joined.{Link, Among, Joined, linked, same, back, chain}

-- Nodes with one label are the joined ones.
abbrev pub Decides : (ℕ → ℕ) → List Link → Type 0
Decides label seen = (a b : ℕ) → (label a ≡ label b) ↔ Joined seen a b

-- The label of a node behind a union: `r` in place of `t`.
abbrev pub united : (ℕ → ℕ) → ℕ → ℕ → ℕ → ℕ
united label t r a = if label a == t then r else label a

more-Joined : (seen : List Link) (l : Link) {a b : ℕ} → Joined seen a b → Joined (l ∷ seen) a b
more-Joined seen l (linked m) = linked (inr m)
more-Joined seen l (same e) = same e
more-Joined seen l (back j) = back (more-Joined seen l j)
more-Joined seen l (chain c j k) = chain c (more-Joined seen l j) (more-Joined seen l k)

-- Labels that agree on the links agree on what they join.
Joined-label :
    (label : ℕ → ℕ) (links : List Link)
    → ((a b : ℕ) → Among a b links → label a ≡ label b)
    → {a b : ℕ} → Joined links a b
    → label a ≡ label b
Joined-label label links h (linked m) = h _ _ m
Joined-label label links h (same e) = ap label e
Joined-label label links h (back j) = sym (Joined-label label links h j)
Joined-label label links h (chain c j k) =
    Joined-label label links h j ∙ Joined-label label links h k

pub start-Decides : Decides (λ a. a) []
start-Decides a b = (same, Joined-label (λ x. x) [] (λ p q m. absurd m))

pub skip-Decides :
    (label : ℕ → ℕ) (seen : List Link) (p q : ℕ)
    → Decides label seen
    → label p ≡ label q
    → Decides label ((p, q) ∷ seen)
skip-Decides label seen p q d e a b =
    ((λ f. more-Joined seen (p, q) ((d a b).0 f)), Joined-label label ((p, q) ∷ seen) agree)
  where
    agree : (x y : ℕ) → Among x y ((p, q) ∷ seen) → label x ≡ label y
    agree x y (inl (f, g)) = ap label f ∙ e ∙ ap label (sym g)
    agree x y (inr m) = (d x y).1 (linked m)

pub united-t : (label : ℕ → ℕ) (t r a : ℕ) → label a ≡ t → united label t r a ≡ r
united-t label t r a e = let h = (==_iff (label a) t).1 e in rw h refl

pub united-other : (label : ℕ → ℕ) (t r a : ℕ) → label a == t ≡ false → united label t r a ≡ label a
united-other label t r a f = rw f refl

-- Every node is joined to one that had its label before the union.
united-Joined :
    (label : ℕ → ℕ) (seen : List Link) (p q : ℕ)
    → Decides label seen
    → (a : ℕ)
    → (b : ℕ) × Joined ((p, q) ∷ seen) a b × (united label (label p) (label q) a ≡ label b)
united-Joined label seen p q d a = elim (Bool-cases (label a == label p)) [
  | inl t ↦
      let e = (==_iff (label a) (label p)).0 t in
      (
        q,
        chain p (more-Joined seen (p, q) ((d a p).0 e)) (linked (inl (refl, refl))),
        united-t label (label p) (label q) a e,
      )
  | inr f ↦ (a, same refl, united-other label (label p) (label q) a f)
]

pub union-Decides :
    (label : ℕ → ℕ) (seen : List Link) (p q : ℕ)
    → Decides label seen
    → label p ≢ label q
    → Decides (united label (label p) (label q)) ((p, q) ∷ seen)
union-Decides label seen p q d ne a b = (joined, Joined-label _ ((p, q) ∷ seen) agree)
  where
    joined :
        united label (label p) (label q) a ≡ united label (label p) (label q) b
        → Joined ((p, q) ∷ seen) a b
    joined e =
        let (x, jx, ex) = united-Joined label seen p q d a in
        let (y, jy, ey) = united-Joined label seen p q d b in
        chain x jx (chain y (more-Joined seen (p, q) ((d x y).0 (sym ex ∙ e ∙ ey))) (back jy))

    apart : label q == label p ≡ false
    apart = elim (Bool-cases (label q == label p)) [
      | inl t ↦ absurd (ne (sym ((==_iff (label q) (label p)).0 t)))
      | inr f ↦ f
    ]

    agree :
        (x y : ℕ)
        → Among x y ((p, q) ∷ seen)
        → united label (label p) (label q) x ≡ united label (label p) (label q) y
    agree x y (inl (f, g)) =
        united-t label (label p) (label q) x (ap label f)
        ∙ sym (united-other label (label p) (label q) q apart)
        ∙ ap (united label (label p) (label q)) (sym g)
    agree x y (inr m) =
        let e = (d x y).1 (linked m) in ap (λ n. if n == label p then label q else n) e

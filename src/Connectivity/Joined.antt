-- ===== src/Connectivity/Joined.antt =====
-- connectivity_problem_test.cc: when links join two nodes, and which links the programs should keep.
use cpp_tricks.Common.{ℕ, ◌<◌, ◌≡◌, ap, sym, ◌∙◌, List, [], ◌∷◌, ◌++◌, inl, inr, ◌⊎◌}
use cpp_tricks.Connectivity.{node_count, link_text}

abbrev pub Link : Type 0
Link = ℕ × ℕ

abbrev pub Among : ℕ → ℕ → List Link → Type 0
Among p q [] = ⊥
Among p q ((a, b) ∷ links) = ((p ≡ a) × (q ≡ b)) ⊎ Among p q links

-- The least equivalence in which linked nodes are joined.
pub data Joined (links : List Link) : ℕ → ℕ → Type 0 where
  linked : {a b : ℕ} → Among a b links → Joined links a b
  same : {a b : ℕ} → a ≡ b → Joined links a b
  back : {a b : ℕ} → Joined links b a → Joined links a b
  chain : {a b : ℕ} (c : ℕ) → Joined links a c → Joined links c b → Joined links a b

-- The links that join nodes which the links before them did not join.
abbrev pub Kept : List Link → List Link → List Link → Type 0
Kept seen [] out = out ≡ []
Kept seen ((p, q) ∷ links) out =
    (Joined seen p q × Kept ((p, q) ∷ seen) links out)
    ⊎ (¬ Joined seen p q
        × (rest : List Link) × (out ≡ (p, q) ∷ rest)
        × Kept ((p, q) ∷ seen) links rest)

pub Kept-unique :
    (seen links out out' : List Link) → Kept seen links out → Kept seen links out' → out ≡ out'
Kept-unique seen [] out out' e f = e ∙ sym f
Kept-unique seen ((p, q) ∷ links) out out' (inl (j, k)) (inl (j', k')) =
    Kept-unique _ links out out' k k'
Kept-unique seen ((p, q) ∷ links) out out' (inl (j, k)) (inr (n, rest, e, k')) = absurd (n j)
Kept-unique seen ((p, q) ∷ links) out out' (inr (n, rest, e, k')) (inl (j, k)) = absurd (n j)
Kept-unique seen ((p, q) ∷ links) out out' (inr (n, rest, e, k)) (inr (n', rest', e', k')) =
    e ∙ ap (λ l. (p, q) ∷ l) (Kept-unique _ links rest rest' k k') ∙ sym e'

-- The input that writes links, and the output that links make.
abbrev pub input : List Link → List ℕ
input [] = []
input ((p, q) ∷ links) = p ∷ (q ∷ input links)

abbrev pub output : (ℕ → List ℕ) → List Link → List ℕ
output cast [] = []
output cast ((p, q) ∷ links) = link_text cast p q ++ output cast links

abbrev pub AreNodes : List Link → Type 0
AreNodes [] = Unit {0}
AreNodes ((p, q) ∷ links) = (p < node_count) × (q < node_count) × AreNodes links

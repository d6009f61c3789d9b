-- ===== src/ForwardList/Chain.antt =====
-- crack_code_lists.cc: the nodes that a list owns, and what push_back and the destructor do to them.
use cpp_tricks.Common.{ℕ, ◌≤◌, ◌<◌, ◌≡◌, ◌≢◌, sym, ◌∙◌, Option, none, some, List, [], ◌∷◌, arith}
use cpp_tricks.ForwardList.{Pointer, Node, Heap, ForwardList, update, new_node}

module _ {ℓ} {A : Type ℓ} where
  abbrev pub first : List (ℕ × A) → Pointer
  first [] = none
  first ((a, x) ∷ l) = some a

  unfoldable pub last : List (ℕ × A) → Pointer
  last [] = none
  last ((a, x) ∷ []) = some a
  last ((a, x) ∷ (b ∷ l)) = last (b ∷ l)

  -- The address is none of the list's.
  abbrev pub IsAbsent : ℕ → List (ℕ × A) → Type 0
  IsAbsent a [] = Unit {0}
  IsAbsent a ((b, x) ∷ l) = (b ≢ a) × IsAbsent a l

  -- The nodes at these addresses hold these elements, each points to the next, the last to nothing,
  -- and no address stands twice.
  abbrev pub IsChain : Heap A → List (ℕ × A) → Type ℓ
  IsChain h [] = Unit {ℓ}
  IsChain h ((a, x) ∷ l) =
      (h.cells a ≡ some (record { elem = x; next = first l }))
      × (a < h.fresh)
      × IsAbsent a l
      × IsChain h l

  pub record Owns (h : Heap A) (o : ForwardList) (l : List (ℕ × A)) : Type ℓ where
    pub at_head : o.head_ ≡ first l
    pub at_tail : o.tail_ ≡ last l
    pub chain : IsChain h l

  pub cells-update_same : (h : Heap A) (a : ℕ) (c : Option (Node A)) → (update h a c).cells a ≡ c
  unfolding update
  cells-update_same h a c = ground arith

  pub cells-update_other :
      (h : Heap A) (a b : ℕ) (c : Option (Node A)) → a ≢ b → (update h a c).cells b ≡ h.cells b
  unfolding update
  cells-update_other h a b c ne = ground (arith, ne)

  -- No address of the first list is one of the second's.
  abbrev pub IsApart : List (ℕ × A) → List (ℕ × A) → Type 0
  IsApart [] l = Unit {0}
  IsApart ((a, x) ∷ m) l = IsAbsent a l × IsApart m l

  -- What lies below `fresh` and outside `l` is the same.
  abbrev pub IsFramed : List (ℕ × A) → Heap A → Heap A → Type ℓ
  IsFramed l h h' = (b : ℕ) → b < h.fresh → IsAbsent b l → h'.cells b ≡ h.cells b

  pub IsChain-framed :
      (h h' : Heap A) (m l : List (ℕ × A))
      → IsChain h m
      → IsApart m l
      → IsFramed l h h'
      → h.fresh ≤ h'.fresh
      → IsChain h' m
  IsChain-framed h h' [] l k apart framed le = tt
  IsChain-framed h h' ((a, x) ∷ m) l (here, lt, absent, k) (out, apart) framed le = (
    framed a lt out ∙ here,
    omega (arith, lt, le),
    absent,
    IsChain-framed h h' m l k apart framed le,
  )

  pub IsChain-update :
      (h : Heap A) (t : ℕ) (c : Option (Node A)) (l : List (ℕ × A))
      → IsChain h l
      → IsAbsent t l
      → IsChain (update h t c) l
  unfolding update
  IsChain-update h t c [] k absent = tt
  IsChain-update h t c ((a, x) ∷ l) (here, lt, away, k) (ne, absent) = (
    cells-update_other h t a c (λ e. ne (sym e)) ∙ here,
    lt,
    away,
    IsChain-update h t c l k absent,
  )

  pub IsAbsent-fresh :
      (h : Heap A) (l : List (ℕ × A)) (f : ℕ) → IsChain h l → h.fresh ≤ f → IsAbsent f l
  IsAbsent-fresh h [] f k le = tt
  IsAbsent-fresh h ((a, x) ∷ l) f (here, lt, away, k) le =
      ((λ e. omega (arith, lt, le, e)), IsAbsent-fresh h l f k le)

  pub IsChain-new_node :
      (h : Heap A) (x : A) (l : List (ℕ × A)) → IsChain h l → IsChain (new_node h x) l
  unfolding new_node update
  IsChain-new_node h x [] k = tt
  IsChain-new_node h x ((a, y) ∷ l) (here, lt, away, k) = (
    cells-update_other h h.fresh a _ (λ e. omega (arith, lt, e)) ∙ here,
    omega (arith, lt),
    away,
    IsChain-new_node h x l k,
  )

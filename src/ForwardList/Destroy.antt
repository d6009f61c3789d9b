-- ===== src/ForwardList/Destroy.antt =====
-- crack_code_lists.cc: the destructor of a list that owns its nodes.
use cpp_tricks.Common.{
  ℕ, zero, suc, ◌≤◌, ◌<◌, ◌≡◌, refl, ◌∙◌, none, some, List, [], ◌∷◌, arith, length,
}
use cpp_tricks.ForwardList.{Heap, ForwardList, update, deref, delete, destroy_from, destroy}
use cpp_tricks.ForwardList.Chain.{
  IsAbsent, IsChain, Owns, cells-update_same, cells-update_other, IsChain-update,
}

module _ {ℓ} {A : Type ℓ} where
  -- The heap without the nodes of a list.
  abbrev pub without_nodes : List (ℕ × A) → Heap A → Heap A
  without_nodes [] h = h
  without_nodes ((a, x) ∷ l) h = without_nodes l (update h a none)

  pub cells-without_nodes :
      (b : ℕ) (l : List (ℕ × A)) (h : Heap A)
      → IsAbsent b l
      → (without_nodes l h).cells b ≡ h.cells b
  cells-without_nodes b [] h out = refl
  cells-without_nodes b ((a, x) ∷ l) h (ne, out) =
      cells-without_nodes b l (update h a none) out ∙ cells-update_other h a b none ne

  fresh-without_nodes : (l : List (ℕ × A)) (h : Heap A) → (without_nodes l h).fresh ≡ h.fresh
  unfolding update
  fresh-without_nodes [] h = refl
  fresh-without_nodes ((a, x) ∷ l) h = fresh-without_nodes l (update h a none)

  -- None of the addresses holds a node.
  abbrev pub IsGone : Heap A → List (ℕ × A) → Type ℓ
  IsGone h [] = Unit {ℓ}
  IsGone h ((a, x) ∷ l) = (h.cells a ≡ none) × IsGone h l

  IsGone-without_nodes :
      (l : List (ℕ × A)) (h : Heap A) → IsChain h l → IsGone (without_nodes l h) l
  IsGone-without_nodes [] h k = tt
  IsGone-without_nodes ((a, x) ∷ l) h (here, lt, away, k) = (
    cells-without_nodes a l (update h a none) away ∙ cells-update_same h a none,
    IsGone-without_nodes l (update h a none) (IsChain-update h a none l k away),
  )

  destroy_from-chain :
      (fuel : ℕ) (h : Heap A) (a : ℕ) (x : A) (l : List (ℕ × A))
      → IsChain h ((a, x) ∷ l)
      → length l < fuel
      → destroy_from fuel h (some a) ≡ some (without_nodes ((a, x) ∷ l) h)
  unfolding destroy_from deref delete
  destroy_from-chain zero h a x l k lt = absurd (omega (arith, lt))
  destroy_from-chain (suc fuel) h a x [] (here, below, away, k) lt = rw (here, here) refl
  destroy_from-chain (suc fuel) h a x ((b, y) ∷ l) (here, below, away, k) lt =
      rw (here, here)
        (destroy_from-chain fuel (update h a none) b y l
          (IsChain-update h a none ((b, y) ∷ l) k away) (omega (arith, lt)))

  -- With fuel for its nodes, the destructor of a list that owns them deletes each of them once and
  -- leaves every other node as it was.
  pub destroy-Owns :
      (fuel : ℕ) (h : Heap A) (o : ForwardList) (l : List (ℕ × A))
      → Owns h o l
      → length l ≤ fuel
      → (h' : Heap A) × (destroy fuel h o ≡ some h')
        × IsGone h' l
        × ((b : ℕ) → IsAbsent b l → h'.cells b ≡ h.cells b)
        × (h'.fresh ≡ h.fresh)
  unfolding destroy
  destroy-Owns fuel h o [] k le = (h, rw (destroy, k.at_head) refl, tt, (λ b out. refl), refl)
  destroy-Owns fuel h o ((a, x) ∷ l) k le = (
    without_nodes ((a, x) ∷ l) h,
    rw (destroy, k.at_head) (destroy_from-chain fuel h a x l k.chain le),
    IsGone-without_nodes ((a, x) ∷ l) h k.chain,
    (λ b out. cells-without_nodes b ((a, x) ∷ l) h out),
    fresh-without_nodes ((a, x) ∷ l) h,
  )

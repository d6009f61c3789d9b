-- ===== src/ForwardList/Copy.antt =====
-- crack_code_lists.cc: the copy constructor and the assignment.
use cpp_tricks.Common.{
  ℕ, zero, suc, ◌≤◌, ◌<◌, ◌≡◌, refl, ap, subst, ◌∙◌, some, List, [], ◌∷◌, ◌++◌, arith, length, map,
  append_assoc,
}
use cpp_tricks.ForwardList.{Heap, ForwardList, empty_list, deref, destroy}
use cpp_tricks.ForwardList.{copy_from, copy, assign}
use cpp_tricks.ForwardList.Chain.{
  last, IsChain, Owns, IsApart, IsFramed, IsChain-framed, IsAbsent-fresh,
}
use cpp_tricks.ForwardList.Owning.{IsAbsent-append, IsApart-append, push_back-Owns}
use cpp_tricks.ForwardList.Destroy.{destroy-Owns, IsGone}

module _ {ℓ} {A : Type ℓ} where
  -- The elements in nodes from the address `f` on.
  unfoldable pub copies : ℕ → List (ℕ × A) → List (ℕ × A)
  copies f [] = []
  copies f ((a, x) ∷ m) = (f, x) ∷ copies (suc f) m

  pub elems-copies : (f : ℕ) (m : List (ℕ × A)) → map (λ p. p.1) (copies f m) ≡ map (λ p. p.1) m
  unfolding copies
  elems-copies f [] = refl
  elems-copies f ((a, x) ∷ m) = ap (◌∷◌ x) (elems-copies (suc f) m)

  chain-IsApart : (m : List (ℕ × A)) → IsApart m []
  chain-IsApart [] = tt
  chain-IsApart ((a, x) ∷ m) = (tt, chain-IsApart m)

  copies-IsApart :
      (h : Heap A) (f : ℕ) (m l : List (ℕ × A)) → IsChain h l → h.fresh ≤ f → IsApart (copies f m) l
  unfolding copies
  copies-IsApart h f [] l k le = tt
  copies-IsApart h f ((a, x) ∷ m) l k le =
      (IsAbsent-fresh h l f k le, copies-IsApart h (suc f) m l k (omega (arith, le)))

  -- What the loop does to a list that owns its nodes, on a chain that stands apart.
  copy_from-Owns :
      (fuel : ℕ) (h : Heap A) (tmp : ForwardList) (l : List (ℕ × A)) (a : ℕ) (x : A)
      (m : List (ℕ × A))
      → Owns h tmp l
      → IsChain h ((a, x) ∷ m)
      → IsApart ((a, x) ∷ m) l
      → length m < fuel
      → (h' : Heap A) × (o' : ForwardList) × (copy_from fuel h tmp (some a) ≡ some (h', o'))
        × Owns h' o' (l ++ copies h.fresh ((a, x) ∷ m))
        × IsFramed l h h'
        × (h.fresh ≤ h'.fresh)
  unfolding copy_from copies deref
  copy_from-Owns zero h tmp l a x m o k apart lt = absurd (omega (arith, lt))
  copy_from-Owns (suc fuel) h tmp l a x [] o (here, below, away, k) apart lt =
      let (h', o', pushed, owns, framed, grown) = push_back-Owns h tmp l x o in
      (h', o', rw (here, pushed) refl, owns, framed, omega (arith, grown))
  copy_from-Owns (suc fuel) h tmp l a x ((b, y) ∷ m) o (here, below, away, k) (out, apart) lt =
      let (h1, o1, pushed, owns, framed, grown) = push_back-Owns h tmp l x o in
      let (h', o', copied, owns', framed', le) =
        copy_from-Owns fuel h1 o1 (l ++ ((h.fresh, x) ∷ [])) b y m owns
          (IsChain-framed h h1 ((b, y) ∷ m) l k apart framed (omega (arith, grown)))
          (IsApart-append h x ((b, y) ∷ m) l k apart) (omega (arith, lt)) in
      (
        h',
        o',
        rw (here, pushed, framed a below out, here) copied,
        subst (λ ms. Owns h' o' ms)
            (ap (λ f. (l ++ ((h.fresh, x) ∷ [])) ++ copies f ((b, y) ∷ m)) grown
              ∙ append_assoc l ((h.fresh, x) ∷ []) (copies (suc h.fresh) ((b, y) ∷ m)))
            owns',
        (λ c lt' absent.
            framed' c (omega (arith, lt', grown))
              (IsAbsent-append c h.fresh x l absent (λ e. omega (arith, lt', e)))
            ∙ framed c lt' absent),
        omega (arith, grown, le),
      )

  -- With fuel for its nodes, a copy of a list that owns them succeeds, owns as many new nodes with the
  -- same elements, and leaves every node there was as it was.
  pub copy-Owns :
      (fuel : ℕ) (h : Heap A) (rhs : ForwardList) (m : List (ℕ × A))
      → Owns h rhs m
      → length m ≤ fuel
      → (h' : Heap A) × (o' : ForwardList) × (copy fuel h rhs ≡ some (h', o'))
        × Owns h' o' (copies h.fresh m)
        × ((b : ℕ) → b < h.fresh → h'.cells b ≡ h.cells b)
        × (h.fresh ≤ h'.fresh)
  unfolding copy copies last destroy
  copy-Owns fuel h rhs [] o le = (
    h,
    empty_list,
    rw (copy, o.at_head) refl,
    record { at_head = refl; at_tail = refl; chain = tt },
    (λ b lt. refl),
    omega arith,
  )
  copy-Owns fuel h rhs ((a, x) ∷ m) o le =
      let (h', o', copied, owns, framed, grown) =
        copy_from-Owns fuel h empty_list [] a x m
          (record { at_head = refl; at_tail = refl; chain = tt }) o.chain
          (chain-IsApart ((a, x) ∷ m)) le in
      (h', o', rw (copy, o.at_head, copied) refl, owns, (λ b lt. framed b lt tt), grown)

  -- With fuel for the nodes of both lists, which own them and may be one list, the assignment
  -- succeeds: the list on the left owns new nodes with the elements of the list on the right, its old
  -- nodes are deleted, and every other node is as it was.
  pub assign-Owns :
      (fuel : ℕ) (h : Heap A) (this rhs : ForwardList) (l m : List (ℕ × A))
      → Owns h this l
      → Owns h rhs m
      → length l ≤ fuel
      → length m ≤ fuel
      → (h' : Heap A) × (o' : ForwardList) × (assign fuel h this rhs ≡ some (h', o'))
        × Owns h' o' (copies h.fresh m)
        × IsGone h' l
        × IsFramed l h h'
  unfolding assign
  assign-Owns fuel h this rhs l m ol om le le' =
      let (h1, o1, copied, owns, kept, grown) = copy-Owns fuel h rhs m om le' in
      let at_h1 : Owns h1 this l = record {
        at_head = ol.at_head;
        at_tail = ol.at_tail;
        chain = IsChain-framed h h1 l [] ol.chain (chain-IsApart l) (λ b lt out. kept b lt) grown;
      } in
      let (h2, destroyed, gone, rest, same) = destroy-Owns fuel h1 this l at_h1 le in
      (
        h2,
        o1,
        rw (copied, destroyed) refl,
        record {
          at_head = owns.at_head;
          at_tail = owns.at_tail;
          chain =
              IsChain-framed h1 h2 (copies h.fresh m) l owns.chain
                (copies-IsApart h h.fresh m l ol.chain (omega arith)) (λ b lt out. rest b out)
                (omega (arith, same));
        },
        gone,
        (λ b lt out. rest b out ∙ kept b lt),
      )

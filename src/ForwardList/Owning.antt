-- ===== src/ForwardList/Owning.antt =====
-- crack_code_lists.cc: push_back on a list that owns its nodes.
use cpp_tricks.Common.{
  ℕ, suc, ◌<◌, ◌≡◌, ◌≢◌, refl, ap, sym, subst, ◌∙◌, none, some, List, [], ◌∷◌, ◌++◌, arith,
}
use cpp_tricks.ForwardList.{Node, Heap, ForwardList, update, new_node, set_next, push_back}
use cpp_tricks.ForwardList.Chain.{
  last, IsAbsent, IsChain, Owns, IsApart, IsFramed, cells-update_same, cells-update_other,
  IsAbsent-fresh, IsChain-new_node,
}

module _ {ℓ} {A : Type ℓ} where
  last-absent : (t a : ℕ) (l : List (ℕ × A)) → last l ≡ some t → IsAbsent a l → t ≢ a
  unfolding last
  last-absent t a [] e absent = λ same. cc
  last-absent t a ((b, x) ∷ []) e (ne, absent) = let at_b : b ≡ t = cc in λ same. ne (at_b ∙ same)
  last-absent t a ((b, x) ∷ ((c, y) ∷ l)) e (ne, absent) = last-absent t a ((c, y) ∷ l) e absent

  pub IsAbsent-append :
      (a f : ℕ) (x : A) (l : List (ℕ × A)) → IsAbsent a l → f ≢ a → IsAbsent a (l ++ ((f, x) ∷ []))
  IsAbsent-append a f x [] absent ne = (ne, tt)
  IsAbsent-append a f x ((b, y) ∷ l) (out, absent) ne = (out, IsAbsent-append a f x l absent ne)

  last-append : (f : ℕ) (x : A) (l : List (ℕ × A)) → last (l ++ ((f, x) ∷ [])) ≡ some f
  unfolding last
  last-append f x [] = refl
  last-append f x ((a, y) ∷ []) = refl
  last-append f x ((a, y) ∷ ((b, z) ∷ l)) = last-append f x ((b, z) ∷ l)

  last-node :
      (h : Heap A) (t : ℕ) (l : List (ℕ × A))
      → IsChain h l
      → last l ≡ some t
      → (n : Node A) × (h.cells t ≡ some n)
  unfolding last
  last-node h t [] k e = let clash : ⊥ = cc in absurd clash
  last-node h t ((a, y) ∷ []) (here, lt, away, k) e =
      let at_t : a ≡ t = cc in
      (
        record { elem = y; next = none },
        subst (λ b. h.cells b ≡ some (record { elem = y; next = none })) at_t here,
      )
  last-node h t ((a, y) ∷ ((b, z) ∷ l)) (here, lt, away, k) e = last-node h t ((b, z) ∷ l) k e

  -- The node behind the last is linked to it.
  IsChain-link :
      (h : Heap A) (f t : ℕ) (x : A) (n : Node A) (l : List (ℕ × A))
      → IsChain h l
      → last l ≡ some t
      → h.cells f ≡ some (record { elem = x; next = none })
      → f < h.fresh
      → IsAbsent f l
      → h.cells t ≡ some n
      → IsChain (update h t (some (record n { next = some f }))) (l ++ ((f, x) ∷ []))
  unfolding last update
  IsChain-link h f t x n [] k e new lt out at_t = let clash : ⊥ = cc in absurd clash
  IsChain-link h f t x n ((a, y) ∷ []) (here, below, away, k) e new lt (ne, out) at_t =
      let same : a ≡ t = cc in
      let it : some n ≡ some (record { elem = y; next = none }) =
        sym at_t ∙ ap h.cells (sym same) ∙ here in
      let elems : n.elem ≡ y = cc in
      (
        (subst
              (λ b.
                (update h t (some (record n { next = some f }))).cells b
                ≡ some (record { elem = n.elem; next = some f }))
              (sym same) (cells-update_same h t _)
            ∙ ap (λ e. some (record { elem = e; next = some f })) elems),
        below,
        ((λ e. ne (sym e)), tt),
        (
          (cells-update_other h t f _ (last-absent t f ((a, y) ∷ []) e (ne, out)) ∙ new),
          lt,
          tt,
          tt,
        ),
      )
  IsChain-link h f t x n ((a, y) ∷ ((b, z) ∷ l)) (here, below, away, k) e new lt (ne, out) at_t = (
    cells-update_other h t a _ (last-absent t a ((b, z) ∷ l) e away) ∙ here,
    below,
    IsAbsent-append a f x ((b, z) ∷ l) away (λ same. ne (sym same)),
    IsChain-link h f t x n ((b, z) ∷ l) k e new lt out at_t,
  )

  pub IsApart-append :
      (h : Heap A) (x : A) (m l : List (ℕ × A))
      → IsChain h m
      → IsApart m l
      → IsApart m (l ++ ((h.fresh, x) ∷ []))
  IsApart-append h x [] l k apart = tt
  IsApart-append h x ((a, y) ∷ m) l (here, lt, away, k) (out, apart) = (
    IsAbsent-append a h.fresh x l out (λ e. omega (arith, lt, e)),
    IsApart-append h x m l k apart,
  )

  cells-new_node :
      (h : Heap A) (x : A) → (new_node h x).cells h.fresh ≡ some (record { elem = x; next = none })
  unfolding new_node
  cells-new_node h x = cells-update_same h h.fresh _

  cells-new_node_other :
      (h : Heap A) (x : A) (b : ℕ) → b < h.fresh → (new_node h x).cells b ≡ h.cells b
  unfolding new_node
  cells-new_node_other h x b lt = cells-update_other h h.fresh b _ (λ e. omega (arith, lt, e))

  push_back-empty :
      (h : Heap A) (o : ForwardList) (x : A)
      → o.head_ ≡ none
      → push_back h o x ≡ some (new_node h x, record { head_ = some h.fresh; tail_ = some h.fresh })
  unfolding push_back
  push_back-empty h o x e = rw (push_back, e) refl

  push_back-linked :
      (h : Heap A) (o : ForwardList) (x : A) (a t : ℕ) (n : Node A)
      → o.head_ ≡ some a
      → o.tail_ ≡ some t
      → (new_node h x).cells t ≡ some n
      → push_back h o x
        ≡ some (
          update (new_node h x) t (some (record n { next = some h.fresh })),
          record o { tail_ = some h.fresh },
        )
  unfolding push_back set_next
  push_back-linked h o x a t n e f g =
      rw (push_back, e, f, set_next, g)
        (ap
          (λ p. some (
            update (new_node h x) t (some (record n { next = some h.fresh })),
            record { head_ = p; tail_ = some h.fresh },
          ))
          e)

  last-found : (a : ℕ) (y : A) (l : List (ℕ × A)) → (t : ℕ) × (last ((a, y) ∷ l) ≡ some t)
  unfolding last
  last-found a y [] = (a, refl)
  last-found a y ((b, z) ∷ l) = last-found b z l

  -- push_back on a list that owns its nodes succeeds, and the list then owns a new node with the
  -- element behind the others; every other node is as it was.
  pub push_back-Owns :
      (h : Heap A) (o : ForwardList) (l : List (ℕ × A)) (x : A)
      → Owns h o l
      → (h' : Heap A) × (o' : ForwardList) × (push_back h o x ≡ some (h', o'))
        × Owns h' o' (l ++ ((h.fresh, x) ∷ []))
        × IsFramed l h h'
        × (h'.fresh ≡ suc h.fresh)
  unfolding new_node last update
  push_back-Owns h o [] x k = (
    new_node h x,
    record { head_ = some h.fresh; tail_ = some h.fresh },
    push_back-empty h o x k.at_head,
    record { at_head = refl; at_tail = refl; chain = (cells-new_node h x, omega arith, tt, tt) },
    (λ b lt out. cells-new_node_other h x b lt),
    refl,
  )
  push_back-Owns h o ((a, y) ∷ l) x k =
      let (t, at_t) = last-found a y l in
      let h1 : Heap A = new_node h x in
      let k1 : IsChain h1 ((a, y) ∷ l) = IsChain-new_node h x ((a, y) ∷ l) k.chain in
      let (n, node) = last-node h1 t ((a, y) ∷ l) k1 at_t in
      (
        update h1 t (some (record n { next = some h.fresh })),
        record o { tail_ = some h.fresh },
        push_back-linked h o x a t n k.at_head (k.at_tail ∙ at_t) node,
        record {
          at_head = k.at_head;
          at_tail = sym (last-append h.fresh x ((a, y) ∷ l));
          chain =
              IsChain-link h1 h.fresh t x n ((a, y) ∷ l) k1 at_t (cells-new_node h x) (omega arith)
                (IsAbsent-fresh h ((a, y) ∷ l) h.fresh k.chain (omega arith)) node;
        },
        (λ b lt out.
            cells-update_other h1 t b _ (last-absent t b ((a, y) ∷ l) at_t out)
            ∙ cells-new_node_other h x b lt),
        refl,
      )

-- ===== src/Documents/Shared/Editing.antt =====
-- inh_evil_reduce_c11_apps.cc, `ps_sample_shared`: edits of shared objects against edits of values.
use cpp_tricks.Common.{
  ℕ, zero, suc, ◌*◌, ◌≤◌, subst, ◌≡◌, refl, sym, ap, ◌∙◌, Option, none, some, List, [], ◌∷◌, ◌++◌,
  ◌>>=◌, length, get_elem?, get_elem?-append_length, map, Option-cases, inl, inr,
}
use cpp_tricks.Documents.{
  Object, Document, streamed, my_class, nested, nothing, item, draw_items, emplace_back, assign_at,
  edit, copy_object, copy_document,
}
use cpp_tricks.Documents.Undo.{copy_document-eq, last_edits}
use cpp_tricks.Documents.Drawing.{lines_of}
use cpp_tricks.Documents.Shared.{
  Model, value_model, class_model, document_model, draw_refs, SharedEdit, add_value, add_class,
  add_current, replace_value, plain, assign_ref, edit_shared, edits_shared,
}
use cpp_tricks.Documents.Shared.Shown.{IsShown, AreShown, AreShown-make_shared, draw_refs-shown}

module _ {V : Type 0} where
  AreShown-emplace :
      (store : List (Model V)) (rs : List ℕ) (r : ℕ) (d : Document V) (o : Object V)
      → AreShown store rs d
      → IsShown store r o
      → AreShown store (rs ++ (r ∷ [])) (emplace_back d o)
  unfolding AreShown emplace_back
  AreShown-emplace store [] r nothing o k here = (here, tt)
  AreShown-emplace store [] r (item p d) o k here = absurd k
  AreShown-emplace store (q ∷ rs) r nothing o k here = absurd k
  AreShown-emplace store (q ∷ rs) r (item p d) o (there, k) here =
      (there, AreShown-emplace store rs r d o k here)

  AreShown-assign :
      (store : List (Model V)) (rs : List ℕ) (i r : ℕ) (d d' : Document V) (o : Object V)
      → AreShown store rs d
      → IsShown store r o
      → assign_at d i o ≡ some d'
      → (rs' : List ℕ) × (assign_ref rs i r ≡ some rs') × AreShown store rs' d'
  unfolding AreShown assign_at assign_ref
  AreShown-assign store [] i r nothing d' o k here e = let clash : ⊥ = cc in absurd clash
  AreShown-assign store [] i r (item p d) d' o k here e = absurd k
  AreShown-assign store (q ∷ rs) i r nothing d' o k here e = absurd k
  AreShown-assign store (q ∷ rs) zero r (item p d) d' o (there, k) here e =
      let same : item o d ≡ d' = cc in
      (r ∷ rs, refl, subst (AreShown store (r ∷ rs)) same (here, k))
  AreShown-assign store (q ∷ rs) (suc i) r (item p d) d' o (there, k) here e =
      elim (Option-cases (assign_at d i o)) [
        | inl out ↦ let clash : ⊥ = none≢ (assign_at d i o) out e in absurd clash
        | inr (d1, found) ↦
            let same : item p d1 ≡ d' = stored (assign_at d i o) found e in
            let (rs1, assigned, k1) = AreShown-assign store rs i r d d1 o k here found in
            (q ∷ rs1, rw assigned refl, subst (AreShown store (q ∷ rs1)) same (there, k1))
      ]
    where
      none≢ : (m : Option (Document V)) → m ≡ none → (m >>= λ d1. some (item p d1)) ≡ some d' → ⊥
      none≢ none out e' = cc
      none≢ (some x) out e' = cc

      stored :
          {d1 : Document V} (m : Option (Document V))
          → m ≡ some d1
          → (m >>= λ d2. some (item p d2)) ≡ some d'
          → item p d1 ≡ d'
      stored none found e' = cc
      stored (some x) found e' = cc

  -- The store only grows, and what was shown stays so.
  abbrev pub IsKept : List (Model V) → List (Model V) → Type 0
  IsKept store store' = (rs : List ℕ) (d : Document V) → AreShown store rs d → AreShown store' rs d

  get_elem?-made :
      (store : List (Model V)) (m : Model V) → get_elem? (store ++ (m ∷ [])) (length store) ≡ some m
  get_elem?-made store m = get_elem?-append_length store m []

  edit_shared-shown :
      (e : SharedEdit V) (store : List (Model V)) (rs : List ℕ) (d d' : Document V)
      → AreShown store rs d
      → edit (plain e) d ≡ some d'
      → (store' : List (Model V)) × (rs' : List ℕ) × (edit_shared e store rs ≡ some (store', rs'))
        × AreShown store' rs' d'
        × IsKept store store'
  unfolding edit_shared edit plain copy_object IsShown
  edit_shared-shown (add_value v) store rs d d' k e =
      let more = AreShown-make_shared store (value_model v) in
      let same : emplace_back d (streamed v) ≡ d' = cc in
      (
        store ++ (value_model v ∷ []),
        rs ++ (length store ∷ []),
        refl,
        subst (AreShown _ (rs ++ (length store ∷ []))) same (
            AreShown-emplace _ rs (length store) d (streamed v) (more rs d k)
              (get_elem?-made store (value_model v))),
        more,
      )
  edit_shared-shown add_class store rs d d' k e =
      let more = AreShown-make_shared store class_model in
      let same : emplace_back d my_class ≡ d' = cc in
      (
        store ++ (class_model ∷ []),
        rs ++ (length store ∷ []),
        refl,
        subst (AreShown _ (rs ++ (length store ∷ []))) same (
            AreShown-emplace _ rs (length store) d my_class (more rs d k)
              (get_elem?-made store class_model)),
        more,
      )
  edit_shared-shown add_current store rs d d' k e =
      let more = AreShown-make_shared store (document_model rs) in
      let made : emplace_back d (nested (copy_document d)) ≡ d' = cc in
      let same = ap (λ x. emplace_back d (nested x)) (sym (copy_document-eq d)) ∙ made in
      (
        store ++ (document_model rs ∷ []),
        rs ++ (length store ∷ []),
        refl,
        subst (AreShown _ (rs ++ (length store ∷ []))) same (
            AreShown-emplace _ rs (length store) d (nested d) (more rs d k)
              (rs, get_elem?-made store (document_model rs), more rs d k)),
        more,
      )
  edit_shared-shown (replace_value i v) store rs d d' k e =
      let more = AreShown-make_shared store (value_model v) in
      let (rs', assigned, k') =
        AreShown-assign _ rs i (length store) d d' (streamed v) (more rs d k)
          (get_elem?-made store (value_model v)) e in
      (store ++ (value_model v ∷ []), rs', rw assigned refl, k', more)

  edits_shared-shown :
      (es : List (SharedEdit V)) (store : List (Model V)) (rs : List ℕ) (d d' : Document V)
      → AreShown store rs d
      → last_edits (map plain es) d ≡ some d'
      → (store' : List (Model V)) × (rs' : List ℕ) × (edits_shared es store rs ≡ some (store', rs'))
        × AreShown store' rs' d'
        × IsKept store store'
  unfolding edits_shared last_edits
  edits_shared-shown [] store rs d d' k e =
      let same : d ≡ d' = cc in
      (store, rs, refl, subst (AreShown store rs) same k, (λ qs x kept. kept))
  edits_shared-shown (e ∷ es) store rs d d' k run = elim (Option-cases (edit (plain e) d)) [
    | inl out ↦ let clash : ⊥ = failed (edit (plain e) d) out run in absurd clash
    | inr (d1, edited) ↦
        let (store1, rs1, here, k1, kept1) = edit_shared-shown e store rs d d1 k edited in
        let (store', rs', after, k', kept) =
          edits_shared-shown es store1 rs1 d1 d' k1 (continued (edit (plain e) d) edited run) in
        (store', rs', rw (here, after) refl, k', (λ qs x at_first. kept qs x (kept1 qs x at_first)))
  ]
    where
      failed :
          (m : Option (Document V))
          → m ≡ none
          → (m >>= λ x. last_edits (map plain es) x) ≡ some d'
          → ⊥
      failed none out e' = cc
      failed (some x) out e' = cc

      continued :
          {d1 : Document V} (m : Option (Document V))
          → m ≡ some d1
          → (m >>= λ x. last_edits (map plain es) x) ≡ some d'
          → last_edits (map plain es) d1 ≡ some d'
      continued none found e' = cc
      continued {d1 = d2} (some x) found e' =
          let same : x ≡ d2 = cc in subst (λ y. last_edits (map plain es) y ≡ some d') same e'

  -- Where a document of shared objects is made up like a document of values, edits that succeed on
  -- the values succeed on the pointers; whatever `<<` writes of a value, and with three units of fuel for each line, the edited pointers
  -- then draw what the edited values draw, and the pointers from before the edits, which a commit
  -- keeps, still draw what they drew.
  pub edits_shared-draw :
      (es : List (SharedEdit V)) (store : List (Model V)) (rs : List ℕ) (d d' : Document V)
      (written : V → List ℕ) (fuel position : ℕ)
      → AreShown store rs d
      → last_edits (map plain es) d ≡ some d'
      → 3 * lines_of d ≤ fuel
      → 3 * lines_of d' ≤ fuel
      → (store' : List (Model V)) × (rs' : List ℕ) × (edits_shared es store rs ≡ some (store', rs'))
        × (draw_refs written fuel store' position rs' ≡ some (draw_items written position d'))
        × (draw_refs written fuel store' position rs ≡ some (draw_items written position d))
  edits_shared-draw es store rs d d' written fuel position k e le le' =
      let (store', rs', run, k', kept) = edits_shared-shown es store rs d d' k e in
      (
        store',
        rs',
        run,
        draw_refs-shown written d' fuel position store' rs' k' le',
        draw_refs-shown written d fuel position store' rs (kept rs d k) le,
      )

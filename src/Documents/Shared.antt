-- ===== src/Documents/Shared.antt =====
-- inh_evil_reduce_c11_apps.cc, namespace `ps_sample_shared`: an object is a shared pointer to an
-- immutable model, and copying a document copies pointers. `none` is a failed assert, an access out
-- of range, a pointer to no model, or the end of the fuel.
pub mod Shown
pub mod Editing
mod Tests
use cpp_tricks.Common.{
  ℕ, zero, suc, ◌+◌, ◌*◌, ◌≤◌, subst, ◌<◌, ◌≡◌, refl, sym, ap, ◌∙◌, Option, none, some, List, [],
  ◌∷◌, ◌++◌, ◌>>=◌, length, get_elem?, arith, get_elem?-append_length, map, Option-cases, inl, inr,
}
use cpp_tricks.Documents.{
  Object, Document, streamed, my_class, nested, nothing, item, class_text, open_tag, line,
  close_tag, draw_object, draw_items, draw_document, Edit, add, add_itself, replace_at,
  emplace_back, assign_at, edit, copy_object, copy_document,
}
use cpp_tricks.Documents.Undo.{copy_document-eq, last_edits}
use cpp_tricks.Documents.Drawing.{lines_of, lines_of-positive}

-- `model<T>`, by what it holds; a document is its pointers.
pub data Model (V : Type 0) : Type 0 where
  value_model : V → Model V
  class_model : Model V
  document_model : List ℕ → Model V

module _ {V : Type 0} where
  -- `boost::make_shared<model<T>>(x)` : the models that were made, and the pointer to the new one.
  abbrev pub make_shared : List (Model V) → Model V → List (Model V) × ℕ
  make_shared store m = (store ++ (m ∷ []), length store)

module _ {V : Type 0} (written : V → List ℕ) where
  unfoldable mutual
    pub draw_ref : ℕ → List (Model V) → ℕ → ℕ → Option (List ℕ)
    draw_ref zero store position r = none
    draw_ref (suc k) store position r = get_elem? store r >>= λ m. draw_model k store position m

    pub draw_model : ℕ → List (Model V) → ℕ → Model V → Option (List ℕ)
    draw_model zero store position m = none
    draw_model (suc k) store position (value_model v) = some (line position (written v))
    draw_model (suc k) store position class_model = some (line position class_text)
    draw_model (suc k) store position (document_model rs) =
        draw_refs k store (position + 2) rs >>= λ out.
        some (line position open_tag ++ (out ++ line position close_tag))

    pub draw_refs : ℕ → List (Model V) → ℕ → List ℕ → Option (List ℕ)
    draw_refs zero store position rs = none
    draw_refs (suc k) store position [] = some []
    draw_refs (suc k) store position (r ∷ rs) = draw_ref k store position r >>= λ out.
        draw_refs k store position rs >>= λ rest. some (out ++ rest)

-- `x[i] = o` on pointers
unfoldable pub assign_ref : List ℕ → ℕ → ℕ → Option (List ℕ)
assign_ref [] i r = none
assign_ref (q ∷ rs) zero r = some (r ∷ rs)
assign_ref (q ∷ rs) (suc i) r = assign_ref rs i r >>= λ rs'. some (q ∷ rs')

-- What a caller does to `current(h)`: `emplace_back`, or `current(h)[i] =`.
pub data SharedEdit (V : Type 0) : Type 0 where
  add_value : V → SharedEdit V
  add_class add_current : SharedEdit V
  replace_value : ℕ → V → SharedEdit V

module _ {V : Type 0} where
  -- The same on values.
  unfoldable pub plain : SharedEdit V → Edit V
  plain (add_value v) = add (streamed v)
  plain add_class = add my_class
  plain add_current = add_itself
  plain (replace_value i v) = replace_at i (streamed v)

  unfoldable pub edit_shared :
      SharedEdit V → List (Model V) → List ℕ → Option (List (Model V) × List ℕ)
  unfolding assign_ref
  edit_shared (add_value v) store rs =
      let (store', r) = make_shared store (value_model v) in some (store', rs ++ (r ∷ []))
  edit_shared add_class store rs =
      let (store', r) = make_shared store class_model in some (store', rs ++ (r ∷ []))
  edit_shared add_current store rs =
      let (store', r) = make_shared store (document_model rs) in some (store', rs ++ (r ∷ []))
  edit_shared (replace_value i v) store rs =
      let (store', r) = make_shared store (value_model v) in
      assign_ref rs i r >>= λ rs'. some (store', rs')

  unfoldable pub edits_shared :
      List (SharedEdit V) → List (Model V) → List ℕ → Option (List (Model V) × List ℕ)
  unfolding edit_shared
  edits_shared [] store rs = some (store, rs)
  edits_shared (e ∷ es) store rs =
      edit_shared e store rs >>= λ (store', rs'). edits_shared es store' rs'

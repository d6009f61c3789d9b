-- ===== src/Documents/Undo.antt =====
-- inh_evil_reduce_c11_apps.cc: undo after a commit.
use cpp_tricks.Common.{
  ◌≡◌, refl, sym, ap, ap₂, ◌∙◌, Option, some, List, [], ◌∷◌, ◌++◌, ◌>>=◌, >>=_cong, >>=_assoc,
}
use cpp_tricks.Documents.{
  Object, Document, streamed, my_class, nested, nothing, item, copy_object, copy_document, back,
  pop_back, commit, undo, edit_current, Edit, edit, edit_all,
}

module _ {V : Type 0} where
  mutual
    unfolding copy_document copy_object

    pub copy_document-eq : (d : Document V) → copy_document d ≡ d
    copy_document-eq nothing = refl
    copy_document-eq (item o d) = ap₂ item (copy_object-eq o) (copy_document-eq d)

    pub copy_object-eq : (o : Object V) → copy_object o ≡ o
    copy_object-eq (streamed v) = refl
    copy_object-eq my_class = refl
    copy_object-eq (nested d) = ap nested (copy_document-eq d)

  edit_current-last :
      (f : Document V → Option (Document V)) (h : List (Document V)) (d : Document V)
      → edit_current f (h ++ (d ∷ [])) ≡ (f d >>= λ d'. some (h ++ (d' ∷ [])))
  unfolding edit_current
  edit_current-last f [] d = refl
  edit_current-last f (e ∷ []) d = >>=_assoc (f d) (λ d'. some (d' ∷ [])) (λ h'. some (e ∷ h'))
  edit_current-last f (e ∷ (e' ∷ h)) d =
      rw (edit_current-last f (e' ∷ h) d)
        (>>=_assoc (f d) (λ d'. some ((e' ∷ h) ++ (d' ∷ []))) (λ h'. some (e ∷ h')))

  pop_back-last : (h : List (Document V)) (d : Document V) → pop_back (h ++ (d ∷ [])) ≡ some h
  unfolding pop_back
  pop_back-last [] d = refl
  pop_back-last (e ∷ []) d = refl
  pop_back-last (e ∷ (e' ∷ h)) d = rw (pop_back-last (e' ∷ h) d) refl

  -- The edits of the last document.
  unfoldable pub last_edits : List (Edit V) → Document V → Option (Document V)
  unfolding edit
  last_edits [] d = some d
  last_edits (e ∷ es) d = edit e d >>= λ d'. last_edits es d'

  edit_all-last :
      (es : List (Edit V)) (h : List (Document V)) (d : Document V)
      → edit_all es (h ++ (d ∷ [])) ≡ (last_edits es d >>= λ d'. some (h ++ (d' ∷ [])))
  unfolding edit_all last_edits
  edit_all-last [] h d = refl
  edit_all-last (e ∷ es) h d = rw (edit_current-last (edit e) h d) (
      >>=_assoc (edit e d) (λ d'. some (h ++ (d' ∷ []))) (edit_all es)
      ∙ >>=_cong (edit e d) (λ d'. edit_all-last es h d')
      ∙ sym (>>=_assoc (edit e d) (last_edits es) (λ d'. some (h ++ (d' ∷ [])))))

  -- On a history with a current document, a commit, edits and an undo leave the history as it was
  -- where the edits stay in the range of that document, and fail where they do not.
  pub undo-commit :
      (h : List (Document V)) (d : Document V) (es : List (Edit V))
      → back h ≡ some d
      → (commit h >>= λ h1. edit_all es h1 >>= λ h2. undo h2) ≡ (last_edits es d >>= λ d'. some h)
  unfolding commit undo
  undo-commit h d es e =
      rw (e, copy_document-eq d, edit_all-last es h d)
        (>>=_assoc (last_edits es d) (λ d'. some (h ++ (d' ∷ []))) undo
          ∙ >>=_cong (last_edits es d) (λ d'. pop_back-last h d'))

-- ===== src/Documents.antt =====
-- edu/talks/sean_parent/inh_evil_reduce_c11_apps.cc, namespace `ps_sample`: objects of any type that
-- can be drawn, documents of them, and a history of documents. An object owns a copy of its value, so
-- a value models it; `V` is the type of the values that are written with `<<`, and
-- characters are their codes. `none` is a failed
-- assert or an access out of range.
pub mod Undo
pub mod Drawing
pub mod Shared
mod Tests
use cpp_tricks.Common.{ℕ, zero, suc, ◌+◌, Option, none, some, List, [], ◌∷◌, ◌++◌, ◌>>=◌, replicate}

-- `object_t` by its models, and `document_t`, a vector of objects.
mutual
  pub data Object (V : Type 0) : Type 0 where
    streamed : V → Object V
    my_class : Object V
    nested : Document V → Object V

  pub data Document (V : Type 0) : Type 0 where
    nothing : Document V
    item : Object V → Document V → Document V

-- "<document>"
abbrev pub open_tag : List ℕ
open_tag = 60 ∷ 100 ∷ 111 ∷ 99 ∷ 117 ∷ 109 ∷ 101 ∷ 110 ∷ 116 ∷ 62 ∷ []

-- "</document>"
abbrev pub close_tag : List ℕ
close_tag = 60 ∷ 47 ∷ 100 ∷ 111 ∷ 99 ∷ 117 ∷ 109 ∷ 101 ∷ 110 ∷ 116 ∷ 62 ∷ []

-- "my_class_t()"
abbrev pub class_text : List ℕ
class_text = 109 ∷ 121 ∷ 95 ∷ 99 ∷ 108 ∷ 97 ∷ 115 ∷ 115 ∷ 95 ∷ 116 ∷ 40 ∷ 41 ∷ []

-- `out << string(position, ' ') << text << endl`
abbrev pub line : ℕ → List ℕ → List ℕ
line position text = replicate position 32 ++ (text ++ (10 ∷ []))

module _ {V : Type 0} where
  unfoldable mutual
    -- The copy constructor of `object_t`, through `copy_`.
    pub copy_object : Object V → Object V
    copy_object (streamed v) = streamed v
    copy_object my_class = my_class
    copy_object (nested d) = nested (copy_document d)

    -- The copy of a vector of objects.
    pub copy_document : Document V → Document V
    copy_document nothing = nothing
    copy_document (item o d) = item (copy_object o) (copy_document d)

-- What `<<` writes of a value is a parameter.
module _ {V : Type 0} (written : V → List ℕ) where
  unfoldable mutual
    -- `draw` of an object, by what it holds.
    pub draw_object : ℕ → Object V → List ℕ
    draw_object position (streamed v) = line position (written v)
    draw_object position my_class = line position class_text
    draw_object position (nested d) =
        line position open_tag ++ (draw_items (position + 2) d ++ line position close_tag)

    -- `for (const auto &e : x) draw(e, out, position);`
    pub draw_items : ℕ → Document V → List ℕ
    draw_items position nothing = []
    draw_items position (item o d) = draw_object position o ++ draw_items position d

  -- `draw` of a document
  unfoldable pub draw_document : ℕ → Document V → List ℕ
  unfolding draw_items
  draw_document position d =
      line position open_tag ++ (draw_items (position + 2) d ++ line position close_tag)

module _ {V : Type 0} where
  -- `x.emplace_back(o)`
  unfoldable pub emplace_back : Document V → Object V → Document V
  emplace_back nothing o = item o nothing
  emplace_back (item p d) o = item p (emplace_back d o)

  -- `x[i] = o`
  unfoldable pub assign_at : Document V → ℕ → Object V → Option (Document V)
  assign_at nothing i o = none
  assign_at (item p d) zero o = some (item o d)
  assign_at (item p d) (suc i) o = assign_at d i o >>= λ d'. some (item p d')

  -- `x.back()`
  unfoldable pub back : List (Document V) → Option (Document V)
  back [] = none
  back (d ∷ []) = some d
  back (d ∷ (e ∷ h)) = back (e ∷ h)

  -- `x.pop_back()`
  unfoldable pub pop_back : List (Document V) → Option (List (Document V))
  pop_back [] = none
  pop_back (d ∷ []) = some []
  pop_back (d ∷ (e ∷ h)) = pop_back (e ∷ h) >>= λ h'. some (d ∷ h')

  unfoldable pub commit : List (Document V) → Option (List (Document V))
  unfolding back
  commit h = back h >>= λ d. some (h ++ (copy_document d ∷ []))

  unfoldable pub undo : List (Document V) → Option (List (Document V))
  unfolding pop_back
  undo h = pop_back h

  -- `current(h) = …` for what a caller does to the document
  unfoldable pub edit_current :
      (Document V → Option (Document V)) → List (Document V) → Option (List (Document V))
  edit_current f [] = none
  edit_current f (d ∷ []) = f d >>= λ d'. some (d' ∷ [])
  edit_current f (d ∷ (e ∷ h)) = edit_current f (e ∷ h) >>= λ h'. some (d ∷ h')

-- What a caller does to `current(h)`.
pub data Edit (V : Type 0) : Type 0 where
  add : Object V → Edit V
  add_itself : Edit V
  replace_at : ℕ → Object V → Edit V

module _ {V : Type 0} where
  unfoldable pub edit : Edit V → Document V → Option (Document V)
  unfolding emplace_back assign_at
  edit (add o) d = some (emplace_back d (copy_object o))
  edit add_itself d = some (emplace_back d (nested (copy_document d)))
  edit (replace_at i o) d = assign_at d i (copy_object o)

  unfoldable pub edit_all : List (Edit V) → List (Document V) → Option (List (Document V))
  unfolding edit edit_current
  edit_all [] h = some h
  edit_all (e ∷ es) h = edit_current (edit e) h >>= λ h'. edit_all es h'

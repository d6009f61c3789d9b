-- ===== src/Documents/Shared/Tests.antt =====
-- A run of `ps_sample_shared`, and what the theorem says at it.
use cpp_tricks.Common.{ℕ, ◌+◌, ◌%◌, ◌*◌, ◌≤◌, ◌≡◌, refl, some, List, [], ◌∷◌, map, arith}
use cpp_tricks.Documents.{
  Document, streamed, my_class, nested, nothing, item, draw_items, copy_document,
}
use cpp_tricks.Documents.Undo.{last_edits}
use cpp_tricks.Documents.Drawing.{lines_of}
use cpp_tricks.Documents.Shared.{
  Model, value_model, SharedEdit, add_class, add_current, replace_value, edits_shared, plain,
  draw_refs,
}
use cpp_tricks.Documents.Shared.Shown.{AreShown}
use cpp_tricks.Documents.Shared.Editing.{edits_shared-draw}

abbrev made : List (Model ℕ)
made = value_model 0 ∷ value_model 1 ∷ []

abbrev pointers : List ℕ
pointers = 0 ∷ 1 ∷ []

abbrev page : Document ℕ
page = item (streamed 0) (item (streamed 1) nothing)

abbrev edits : List (SharedEdit ℕ)
edits = add_current ∷ add_class ∷ replace_value 1 7 ∷ []

abbrev edited_page : Document ℕ
edited_page = item (streamed 0) (item (streamed 7) (item (nested page) (item my_class nothing)))

-- A number is written as its last digit.
abbrev digit : ℕ → List ℕ
digit n = (48 + n % 10) ∷ []

shown_page : AreShown made pointers page
unfolding AreShown
shown_page = (refl, (refl, tt))

edited : last_edits (map plain edits) page ≡ some edited_page
unfolding last_edits plain copy_document
edited = refl

few_lines : 3 * lines_of page ≤ 30
unfolding lines_of
few_lines = omega arith

more_lines : 3 * lines_of edited_page ≤ 30
unfolding lines_of
more_lines = omega arith

edits_shared-draw_example :
    (store' : List (Model ℕ)) × (rs' : List ℕ) × (edits_shared edits made pointers
      ≡ some (store', rs'))
    × (draw_refs digit 30 store' 2 rs' ≡ some (draw_items digit 2 edited_page))
    × (draw_refs digit 30 store' 2 pointers ≡ some (draw_items digit 2 page))
edits_shared-draw_example =
    edits_shared-draw edits made pointers page edited_page digit 30 2 shown_page edited few_lines
      more_lines

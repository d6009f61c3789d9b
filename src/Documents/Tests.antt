-- ===== src/Documents/Tests.antt =====
-- Runs of inh_evil_reduce_c11_apps.cc's documents, and what the theorems say at them.
use cpp_tricks.Common.{ℕ, ◌≡◌, refl, some, List, [], ◌∷◌, ◌++◌, ◌+◌, ◌>>=◌}
use cpp_tricks.Documents.{
  Document, streamed, my_class, nested, nothing, item, class_text, open_tag, close_tag,
  draw_document, draw_items, commit, undo, back, Edit, add, add_itself, replace_at, edit_all,
  copy_document,
}
use cpp_tricks.Documents.Undo.{last_edits, undo-commit}

-- TEST(EvelPs, App) with numbers for the strings.
abbrev first_page : Document ℕ
first_page = item (streamed 0) (item (streamed 1) nothing)

abbrev edits : List (Edit ℕ)
edits = add_itself ∷ add my_class ∷ replace_at 1 (streamed 7) ∷ []

abbrev pages : List (Document ℕ)
pages = first_page ∷ []

abbrev second_page : Document ℕ
second_page =
    item (streamed 0) (item (streamed 7) (item (nested first_page) (item my_class nothing)))

edited : (commit pages >>= λ h. edit_all edits h) ≡ some (first_page ∷ second_page ∷ [])
unfolding commit edit_all copy_document
edited = refl

-- Two blanks before each "0" and "1" between the tags.
drawn :
    draw_document (λ n. (48 + n) ∷ []) 0 first_page
    ≡ open_tag ++ (10 ∷ 32 ∷ 32 ∷ 48 ∷ 10 ∷ 32 ∷ 32 ∷ 49 ∷ 10 ∷ (close_tag ++ (10 ∷ [])))
unfolding draw_document draw_items
drawn = refl

-- A drawing cannot be read back: an object of `my_class_t` and the string "my_class_t()" look alike.
alike :
    draw_document {V = ℕ} (λ n. class_text) 0 (item my_class nothing)
    ≡ draw_document {V = ℕ} (λ n. class_text) 0 (item (streamed 0) nothing)
unfolding draw_document draw_items
alike = refl

first_is_current : back pages ≡ some first_page
unfolding back
first_is_current = refl

undo-commit_example :
    (commit pages >>= λ h1. edit_all edits h1 >>= λ h2. undo h2)
    ≡ (last_edits edits first_page >>= λ d'. some pages)
undo-commit_example = undo-commit pages first_page edits first_is_current

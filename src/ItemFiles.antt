-- ===== src/ItemFiles.antt =====
-- edu/courses/my-cs/details/io_details.cc, `get_dyn_items` and `extract_records`, behind the opening of
-- the file. A file is its lines, and whether a newline ends the last one. Without it, reading that
-- line leaves the stream at its end, and the next `getline` fails before it clears its string.
pub mod ReadBack
mod Tests
use cpp_tricks.Common.{
  ℕ, suc, Bool, true, false, Option, none, some, List, [], ◌∷◌, map, ◌==◌, if◌then◌else◌, length,
}
use cpp_tricks.NodeLine.{ℤ, pos, negsuc, skip_spaces, extract, failed_number}

pub record Item : Type 0 where
  pub v : ℤ
  pub w : ℤ

-- What a line gives: no number, which ends the loop; an item; or one number, for which it throws.
pub data LineRead : Type 0 where
  no_number one_number : LineRead
  item_read : Item → LineRead

-- `if (ss.peek() == kSplitter) ss.ignore();`
unfoldable pub skip_blank : List ℕ → List ℕ
skip_blank [] = []
skip_blank (c ∷ cs) = if c == 32 then cs else (c ∷ cs)

unfoldable pub read_item : List ℕ → LineRead
unfolding extract skip_blank
read_item line = elim (extract line) [
  | none ↦ no_number
  | some (i, text) ↦ elim (extract (skip_blank text)) [
    | none ↦ one_number
    | some (j, text') ↦ item_read (record { v = i; w = j })
  ]
]

-- What the function does: it returns, throws an exception, or goes on with a number that was never
-- set, where the first line has none. There is memory for the items that it reserves.
pub data Outcome (A : Type 0) : Type 0 where
  done : A → Outcome A
  invalid_argument runtime_error length_error unset : Outcome A

-- `items.push_back(job)` before the rest of the loop.
abbrev pub push_item : Item → Outcome (List Item) → Outcome (List Item)
push_item item (done items) = done (item ∷ items)
push_item item invalid_argument = invalid_argument
push_item item runtime_error = runtime_error
push_item item length_error = length_error
push_item item unset = unset

-- `while (!stream.fail())`, with the string that the last `getline` left.
unfoldable pub read_items : Bool → List ℕ → List (List ℕ) → Outcome (List Item)
read_items newline line [] = elim (read_item (if newline then [] else line)) [
  | no_number ↦ done []
  | one_number ↦ invalid_argument
  | item_read item ↦ done (item ∷ [])
]
read_items newline line (next ∷ lines) =
    let rest = read_items newline next lines in
    elim (read_item next) [
      | no_number ↦ done []
      | one_number ↦ invalid_argument
      | item_read item ↦ push_item item rest
    ]

-- `if (items.size() != count_items)`, behind `reserve`, which throws for a negative number.
abbrev pub checked : ℤ → ℤ → Outcome (List Item) → Outcome (ℤ × List Item)
checked w_bound (negsuc n) read = length_error
checked w_bound (pos n) (done items) =
    if length items == n then done (w_bound, items) else runtime_error
checked w_bound (pos n) invalid_argument = invalid_argument
checked w_bound (pos n) runtime_error = runtime_error
checked w_bound (pos n) length_error = length_error
checked w_bound (pos n) unset = unset

-- The first line holds `W` and the number of items. A number that fails is set if the stream has a
-- character left.
unfoldable pub get_dyn_items : Bool → List (List ℕ) → Outcome (ℤ × List Item)
get_dyn_items newline [] = unset
get_dyn_items newline (first ∷ lines) = elim (extract first) [
  | none ↦ unset
  | some (w_bound, text) ↦ elim (extract text) [
    | some (count, text') ↦ checked w_bound count (read_items newline first lines)
    | none ↦ elim (skip_spaces text) [
      | [] ↦ unset
      | c ∷ cs ↦ checked w_bound (failed_number (c ∷ cs)) (read_items newline first lines)
    ]
  ]
]

-- `ss >> i` into an `int` that is 0.
unfoldable pub extracted : List ℕ → ℤ
unfolding extract
extracted line = elim (extract line) [
  | none ↦ failed_number (skip_spaces line)
  | some (i, text) ↦ i
]

unfoldable pub extract_records : List (List ℕ) → List ℤ
extract_records lines = map extracted lines

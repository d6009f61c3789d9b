-- ===== src/ItemFiles/Tests.antt =====
-- Runs of get_dyn_items, and the theorem at one file.
use cpp_tricks.Common.{◌≡◌, refl, true, false, List, [], ◌∷◌, map, arith}
use cpp_tricks.NodeLine.{pos, is_digit, extract}
use cpp_tricks.NodeLine.Lines.{value, value_from, IsNumeral, Entry, AreEntries}
use cpp_tricks.ItemFiles.{
  done, runtime_error, invalid_argument, unset, get_dyn_items, read_items, read_item,
}
use cpp_tricks.ItemFiles.ReadBack.{line_of, text_of, item_of, get_dyn_items-read}

-- "6 2", "3 4", "2 3"
abbrev items : List Entry
items =
    record { node = 51 ∷ []; weight = 52 ∷ [] } ∷ record { node = 50 ∷ []; weight = 51 ∷ [] } ∷ []

items-read :
    get_dyn_items true (line_of (54 ∷ []) (50 ∷ []) ∷ map text_of items)
    ≡ done (pos 6, map item_of items)
unfolding get_dyn_items read_items read_item extract value_from
items-read = refl

-- "6 1", "3": an item without a weight.
half_item-throws :
    get_dyn_items true (line_of (54 ∷ []) (49 ∷ []) ∷ (51 ∷ []) ∷ []) ≡ invalid_argument
unfolding get_dyn_items read_items read_item extract
half_item-throws = refl

-- "6": no number of items.
no_count-unset : get_dyn_items true ((54 ∷ []) ∷ []) ≡ unset
unfolding get_dyn_items read_items read_item extract
no_count-unset = refl

abbrev digit-IsNumeral : IsNumeral (54 ∷ [])
unfolding is_digit value_from
digit-IsNumeral = record { some_digit = omega arith; digits = (refl, tt); fits = omega arith }

abbrev count-IsNumeral : IsNumeral (50 ∷ [])
unfolding is_digit value_from
count-IsNumeral = record { some_digit = omega arith; digits = (refl, tt); fits = omega arith }

abbrev items-AreEntries : AreEntries items
unfolding is_digit value_from
items-AreEntries = (
  record { some_digit = omega arith; digits = (refl, tt); fits = omega arith },
  record { some_digit = omega arith; digits = (refl, tt); fits = omega arith },
  (
    record { some_digit = omega arith; digits = (refl, tt); fits = omega arith },
    record { some_digit = omega arith; digits = (refl, tt); fits = omega arith },
    tt,
  ),
)

count-value : value (50 ∷ []) ≡ 2
unfolding value_from
count-value = refl

get_dyn_items-read_example :
    (get_dyn_items true (line_of (54 ∷ []) (50 ∷ []) ∷ map text_of items)
      ≡ done (pos (value (54 ∷ [])), map item_of items))
    × (get_dyn_items false (line_of (54 ∷ []) (50 ∷ []) ∷ map text_of items) ≡ runtime_error)
get_dyn_items-read_example =
    get_dyn_items-read (54 ∷ []) (50 ∷ []) items digit-IsNumeral count-IsNumeral items-AreEntries
      count-value

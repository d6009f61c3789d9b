-- ===== src/NodeLine/Tests.antt =====
-- Runs of the parser of a line, and the theorems at those inputs.
use cpp_tricks.Common.{ℕ, ◌≡◌, refl, some, List, [], ◌∷◌, map, arith}
use cpp_tricks.NodeLine.{
  pos, negsuc, parsed, invalid_argument, tab, is_digit, is_trimmed, failed_number, parse_node_data,
}
use cpp_tricks.NodeLine.Lines.{
  value, value_from, IsNumeral, Entry, AreEntries, entries_text, arrow_of,
}
use cpp_tricks.NodeLine.Broken.{parse_node_data-half_entry}
use cpp_tricks.NodeLine.RoundTrip.{AreTrimmed, parse_node_data-line}

-- "0\t8,89\t9,90\t\n", the line of the comment above the parser.
abbrev commented_line : List ℕ
commented_line = 48 ∷ 9 ∷ 56 ∷ 44 ∷ 56 ∷ 57 ∷ 9 ∷ 57 ∷ 44 ∷ 57 ∷ 48 ∷ 9 ∷ 10 ∷ []

abbrev two_entries : List Entry
two_entries =
    record { node = 56 ∷ []; weight = 56 ∷ 57 ∷ [] }
    ∷ record { node = 57 ∷ []; weight = 57 ∷ 48 ∷ [] }
    ∷ []

commented_line-read :
    parse_node_data 3 commented_line
    ≡ some (
        parsed (
          pos 0,
          record { end = pos 8; weight = pos 89 } ∷ record { end = pos 9; weight = pos 90 } ∷ [],
        ))
unfolding parse_node_data
commented_line-read = refl

-- "1\t2": a node without a weight.
broken_line-throws : parse_node_data 3 (49 ∷ 9 ∷ 50 ∷ []) ≡ some invalid_argument
unfolding parse_node_data
broken_line-throws = refl

-- "-2\t3,-4"
signs-read :
    parse_node_data 3 (45 ∷ 50 ∷ 9 ∷ 51 ∷ 44 ∷ 45 ∷ 52 ∷ [])
    ≡ some (parsed (negsuc 1, record { end = pos 3; weight = negsuc 3 } ∷ []))
unfolding parse_node_data
signs-read = refl

-- "2147483648\t1,1": the root is too large, and no arrow is read behind it.
large_root-read :
    parse_node_data 3 (50 ∷ 49 ∷ 52 ∷ 55 ∷ 52 ∷ 56 ∷ 51 ∷ 54 ∷ 52 ∷ 56 ∷ 9 ∷ 49 ∷ 44 ∷ 49 ∷ [])
    ≡ some (parsed (pos 2147483647, []))
unfolding parse_node_data failed_number
large_root-read = refl

abbrev zero_numeral : IsNumeral (48 ∷ [])
unfolding is_digit value_from
zero_numeral = record { some_digit = omega arith; digits = (refl, tt); fits = omega arith }

abbrev two_entries-AreEntries : AreEntries two_entries
unfolding is_digit value_from
two_entries-AreEntries = (
  record { some_digit = omega arith; digits = (refl, tt); fits = omega arith },
  record { some_digit = omega arith; digits = (refl, (refl, tt)); fits = omega arith },
  (
    record { some_digit = omega arith; digits = (refl, tt); fits = omega arith },
    record { some_digit = omega arith; digits = (refl, (refl, tt)); fits = omega arith },
    tt,
  ),
)

abbrev trailing : AreTrimmed (9 ∷ 10 ∷ [])
unfolding is_trimmed
trailing = (refl, (refl, tt))

parse_node_data-line_example :
    parse_node_data 3 (48 ∷ entries_text tab two_entries (9 ∷ 10 ∷ []))
    ≡ some (parsed (pos (value (48 ∷ [])), map arrow_of two_entries))
parse_node_data-line_example =
    parse_node_data-line 3 (48 ∷ []) two_entries (9 ∷ 10 ∷ []) zero_numeral two_entries-AreEntries
      trailing (omega arith)

abbrev one_digit : IsNumeral (50 ∷ [])
unfolding is_digit value_from
one_digit = record { some_digit = omega arith; digits = (refl, tt); fits = omega arith }

-- "0\t8,89\t9,90\t2\t\n"
parse_node_data-half_entry_example :
    parse_node_data 3 (48 ∷ entries_text tab two_entries (tab ∷ (50 ∷ 9 ∷ 10 ∷ [])))
    ≡ some invalid_argument
parse_node_data-half_entry_example =
    parse_node_data-half_entry 3 (48 ∷ []) two_entries (50 ∷ []) (9 ∷ 10 ∷ []) zero_numeral
      two_entries-AreEntries one_digit trailing (omega arith)

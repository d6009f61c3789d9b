-- ===== src/NodeLine.antt =====
-- edu/courses/my-cs/details/io_details.cc, `parse_node_data`: a line of a graph file, such as
-- "0\t8,89\t9,90\t", through a string stream. Characters are their codes. The stream is what is left
-- of its text, or `none` once an extraction failed. The loop runs on fuel.
pub mod Reading
pub mod Lines
pub mod RoundTrip
pub mod Broken
mod Tests
use cpp_tricks.Common.{
  ℕ, zero, suc, ◌+◌, ◌-◌, ◌*◌, ◌^◌, Bool, true, false, ◌&&◌, ◌||◌, not, Option, none, some, List,
  [], ◌∷◌, ltb, leb, ◌==◌, if◌then◌else◌, ◌>>=◌, length,
}

-- `int`, by its sign as the library's integers are.
pub data ℤ : Type 0 where
  pos negsuc : ℕ → ℤ

pub record Arrow : Type 0 where
  pub end : ℤ
  pub weight : ℤ

abbrev pub comma : ℕ
comma = 44

abbrev pub tab : ℕ
tab = 9

unfoldable pub is_digit : ℕ → Bool
is_digit c = leb 48 c && leb c 57

-- `isspace`: a blank, or one of tab, newline, vertical tab, form feed and carriage return.
unfoldable pub is_space : ℕ → Bool
is_space c = c == 32 || (leb 9 c && leb c 13)

-- " \n\r\t"
unfoldable pub is_trimmed : ℕ → Bool
is_trimmed c = c == 32 || c == 10 || c == 13 || c == 9

-- `line_copy.erase(line_copy.find_last_not_of(" \n\r\t") + 1)`
unfoldable pub trim_end : List ℕ → List ℕ
unfolding is_trimmed
trim_end [] = []
trim_end (c ∷ cs) = elim (trim_end cs) [
  | [] ↦ if is_trimmed c then [] else (c ∷ [])
  | d ∷ ds ↦ c ∷ (d ∷ ds)
]

-- `replace(…, '\t', kSplitter)`
unfoldable pub replace_tabs : List ℕ → List ℕ
replace_tabs [] = []
replace_tabs (c ∷ cs) = (if c == tab then comma else c) ∷ replace_tabs cs

unfoldable pub skip_spaces : List ℕ → List ℕ
unfolding is_space
skip_spaces [] = []
skip_spaces (c ∷ cs) = let rest = skip_spaces cs in if is_space c then rest else (c ∷ cs)

-- The digits from here on: the number that they continue, and the rest.
unfoldable pub read_digits : ℕ → List ℕ → ℕ × List ℕ
unfolding is_digit
read_digits n [] = (n, [])
read_digits n (c ∷ cs) =
    let rest = read_digits (n * 10 + (c - 48)) cs in if is_digit c then rest else (n, c ∷ cs)

-- At least one digit.
unfoldable pub read_natural : List ℕ → Option (ℕ × List ℕ)
unfolding read_digits
read_natural [] = none
read_natural (c ∷ cs) = if is_digit c then some (read_digits (c - 48) cs) else none

-- A sign and digits; the extraction fails without digits, and on a number that is no `int`.
unfoldable pub read_signed : List ℕ → Option (ℤ × List ℕ)
unfolding read_natural
read_signed [] = none
read_signed (c ∷ cs) =
    if c == 45
    then (read_natural cs >>= λ (n, rest).
        if leb n (2 ^ 31) then some ((if n == 0 then pos 0 else negsuc (n - 1)), rest) else none)
    else (read_natural (if c == 43 then cs else (c ∷ cs)) >>= λ (n, rest).
        if ltb n (2 ^ 31) then some (pos n, rest) else none)

-- `ss >> i`
unfoldable pub extract : List ℕ → Option (ℤ × List ℕ)
unfolding skip_spaces read_signed
extract text = read_signed (skip_spaces text)

-- `if (ss.peek() == kSplitter) ss.ignore();`
unfoldable pub skip_comma : List ℕ → List ℕ
skip_comma [] = []
skip_comma (c ∷ cs) = if c == comma then cs else (c ∷ cs)

-- What the parser does: it returns, or throws `invalid_argument`.
pub data Parsed (A : Type 0) : Type 0 where
  parsed : A → Parsed A
  invalid_argument : Parsed A

-- `result.push_back(arrow)` before the rest of the loop.
unfoldable pub push_front : Arrow → Parsed (List Arrow) → Parsed (List Arrow)
push_front arrow (parsed arrows) = parsed (arrow ∷ arrows)
push_front arrow invalid_argument = invalid_argument

-- `while (true)`, on fuel; `none` is its end.
unfoldable pub parse_arrows : ℕ → List ℕ → Option (Parsed (List Arrow))
unfolding extract skip_comma push_front
parse_arrows zero text = none
parse_arrows (suc fuel) text = elim (extract text) [
  | none ↦ some (parsed [])
  | some (i, text') ↦ elim (extract (skip_comma text')) [
    | none ↦ some invalid_argument
    | some (j, text'') ↦ parse_arrows fuel (skip_comma text'') >>= λ rest.
        some (push_front (record { end = i; weight = j }) rest)
  ]
]

unfoldable pub with_root : ℤ → Parsed (List Arrow) → Parsed (ℤ × List Arrow)
with_root root (parsed arrows) = parsed (root, arrows)
with_root root invalid_argument = invalid_argument

-- What an extraction that fails leaves in its number: the nearest `int` behind too large a number, or 0.
unfoldable pub failed_number : List ℕ → ℤ
unfolding read_natural
failed_number [] = pos 0
failed_number (c ∷ cs) =
    if c == 45
    then elim (read_natural cs) [ none ↦ pos 0 | some r ↦ negsuc (2 ^ 31 - 1) ]
    else elim (read_natural (if c == 43 then cs else (c ∷ cs))) [
      | none ↦ pos 0
      | some r ↦ pos (2 ^ 31 - 1)
    ]

-- From a stream that failed at the root, no arrow is read.
unfoldable pub parse_node_data : ℕ → List ℕ → Option (Parsed (ℤ × List Arrow))
unfolding trim_end replace_tabs parse_arrows with_root
parse_node_data fuel line =
    let text = replace_tabs (trim_end line) in
    elim (extract text) [
      | none ↦ some (parsed (failed_number (skip_spaces text), []))
      | some (root, text') ↦
          parse_arrows fuel (skip_comma text') >>= λ rest. some (with_root root rest)
    ]

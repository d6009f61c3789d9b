-- ===== src/ItemFiles/ReadBack.antt =====
-- io_details.cc: a file of items is read back if a newline ends it, and refused if none does.
use cpp_tricks.Common.{
  ℕ, suc, ◌≡◌, refl, ap, sym, ◌∙◌, Bool, true, false, some, List, [], ◌∷◌, ◌++◌, append-nil, map,
  length-map, length, get_elem?, ◌==◌, ==_iff, ==_of_ne, if◌then◌else◌, arith,
}
use cpp_tricks.NodeLine.{pos, is_digit, is_space, skip_spaces, extract}
use cpp_tricks.NodeLine.Lines.{value, IsNumeral, IsStop, Entry, AreEntries, extract-value}
use cpp_tricks.ItemFiles.{
  Item, item_read, skip_blank, read_item, done, runtime_error, read_items, checked, get_dyn_items,
  extracted, extract_records,
}

-- Two numerals with a blank between them.
abbrev pub line_of : List ℕ → List ℕ → List ℕ
line_of n m = n ++ (32 ∷ m)

abbrev pub text_of : Entry → List ℕ
text_of e = line_of e.node e.weight

abbrev pub item_of : Entry → Item
item_of e = record { v = pos (value e.node); w = pos (value e.weight) }

IsStop-blank : (rest : List ℕ) → IsStop (32 ∷ rest)
unfolding is_digit
IsStop-blank rest = refl

extract-blank : (cs : List ℕ) → extract (32 ∷ cs) ≡ extract cs
unfolding extract skip_spaces is_space
extract-blank cs = refl

extract-numeral : (m : List ℕ) → IsNumeral m → extract m ≡ some (pos (value m), [])
extract-numeral m k = ap extract (sym (append-nil m)) ∙ extract-value m [] k tt

read_item-text :
    (e : Entry)
    → IsNumeral e.node
    → IsNumeral e.weight
    → read_item (text_of e) ≡ item_read (item_of e)
unfolding read_item skip_blank
read_item-text e k k' =
    let first = extract-value e.node (32 ∷ e.weight) k (IsStop-blank e.weight) in
    rw (read_item, first, extract-numeral e.weight k') refl

read_items-end : (line : List ℕ) → read_items true line [] ≡ done []
unfolding read_items read_item extract skip_spaces
read_items-end line = refl

read_items-newline :
    (line : List ℕ) (es : List Entry)
    → AreEntries es
    → read_items true line (map text_of es) ≡ done (map item_of es)
unfolding read_items
read_items-newline line [] ks = read_items-end line
read_items-newline line (e ∷ es) (k, k', ks) =
    rw (read_items, read_item-text e k k', read_items-newline (text_of e) es ks) refl

-- Without a newline, the line before the end is read once more.
read_items-cut :
    (line : List ℕ) (item : Item) (es : List Entry)
    → read_item line ≡ item_read item
    → AreEntries es
    → (items : List Item) × (read_items false line (map text_of es) ≡ done items)
      × (length items ≡ suc (length es))
unfolding read_items
read_items-cut line item [] e ks = (item ∷ [], rw (read_items, e) refl, refl)
read_items-cut line item (e ∷ es) f (k, k', ks) =
    let (items, run, size) = read_items-cut (text_of e) (item_of e) es (read_item-text e k k') ks in
    (item_of e ∷ items, rw (read_items, read_item-text e k k', run) refl, ap suc size)

get_dyn_items-first :
    (newline : Bool) (n m : List ℕ) (lines : List (List ℕ))
    → IsNumeral n
    → IsNumeral m
    → get_dyn_items newline (line_of n m ∷ lines)
      ≡ checked (pos (value n)) (pos (value m)) (read_items newline (line_of n m) lines)
unfolding get_dyn_items
get_dyn_items-first newline n m lines k k' =
    let first = extract-value n (32 ∷ m) k (IsStop-blank m) in
    rw (get_dyn_items, first, extract-blank m ∙ extract-numeral m k') refl

-- A file whose first line holds a bound and the number of its items, and each further line an item:
-- if a newline ends the last line, get_dyn_items returns the bound and the items in their order; if
-- none does, it throws runtime_error.
pub get_dyn_items-read :
    (n m : List ℕ) (es : List Entry)
    → IsNumeral n
    → IsNumeral m
    → AreEntries es
    → value m ≡ length es
    → (get_dyn_items true (line_of n m ∷ map text_of es) ≡ done (pos (value n), map item_of es))
      × (get_dyn_items false (line_of n m ∷ map text_of es) ≡ runtime_error)
get_dyn_items-read n m es k k' ks counted =
    let header = read_item-text (record { node = n; weight = m }) k k' in
    let (items, cut, size) =
      read_items-cut (line_of n m) (item_of (record { node = n; weight = m })) es header ks in
    let equal : length (map item_of es) == value m ≡ true =
      (==_iff _ _).1 (length-map es item_of ∙ sym counted) in
    let other : length items == value m ≡ false =
      ==_of_ne (length items) (value m) (λ z. omega (arith, z, counted, size)) in
    (
      get_dyn_items-first true n m (map text_of es) k k'
          ∙ ap (checked (pos (value n)) (pos (value m))) (read_items-newline (line_of n m) es ks)
          ∙ ap (λ b. if b then done (pos (value n), map item_of es) else runtime_error) equal,
      get_dyn_items-first false n m (map text_of es) k k'
          ∙ ap (checked (pos (value n)) (pos (value m))) cut
          ∙ ap (λ b. if b then done (pos (value n), items) else runtime_error) other,
    )

-- A file of numerals is read back, with or without a newline at its end.
extract_records-values :
    (ns : List (List ℕ))
    → ((i : ℕ) (n : List ℕ) → get_elem? ns i ≡ some n → IsNumeral n)
    → extract_records ns ≡ map (λ n. pos (value n)) ns
unfolding extract_records extracted
extract_records-values [] k = refl
extract_records-values (n ∷ ns) k =
    rw
      (
        extract_records,
        extracted,
        extract-numeral n (k 0 n refl),
        extract_records-values ns (λ i. k (suc i)),
      )
      refl

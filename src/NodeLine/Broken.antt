-- ===== src/NodeLine/Broken.antt =====
-- io_details.cc: a line that ends in a node without its weight.
use cpp_tricks.Common.{
  ℕ, zero, suc, ◌<◌, ◌≡◌, refl, ap, sym, ◌∙◌, some, List, [], ◌∷◌, ◌++◌, length, append-nil, arith,
}
use cpp_tricks.NodeLine.{
  pos, comma, tab, is_digit, extract, trim_end, replace_tabs, skip_comma, invalid_argument,
  push_front, with_root, parse_arrows, parse_node_data,
}
use cpp_tricks.NodeLine.Lines.{
  value, IsNumeral, IsStop, Entry, AreEntries, entries_text, IsStop-comma, extract-value,
}
use cpp_tricks.NodeLine.RoundTrip.{
  AreTrimmed, trim_end-nothing, trim_end-keep, trim_end-prefix, trim_end-digits, length-suffix,
  replace_tabs-digits,
}

length-entries :
    (es : List Entry) (tail : List ℕ) → 0 < length tail → 0 < length (entries_text tab es tail)
unfolding entries_text
length-entries [] tail some_left = some_left
length-entries (e ∷ es) tail some_left = omega arith

-- What trails the last entry is trimmed on its own, as long as something of it is left.
trim_end-entries :
    (es : List Entry) (tail tail' : List ℕ)
    → 0 < length tail'
    → trim_end tail ≡ tail'
    → trim_end (entries_text tab es tail) ≡ entries_text tab es tail'
unfolding entries_text
trim_end-entries [] tail tail' some_left e = e
trim_end-entries (x ∷ es) tail tail' some_left e =
    let rest = trim_end-entries es tail tail' some_left e in
    let left = length-entries es tail' some_left in
    let weight = trim_end-prefix x.weight _ _ left rest in
    let behind = trim_end-keep comma _ _ (length-suffix x.weight _ left) weight in
    let node = trim_end-prefix x.node _ _ (omega arith) behind in
    trim_end-keep tab _ _ (length-suffix x.node _ (omega arith)) node

replace_tabs-tail :
    (es : List Entry) (tail : List ℕ)
    → AreEntries es
    → replace_tabs (entries_text tab es tail) ≡ entries_text comma es (replace_tabs tail)
unfolding replace_tabs entries_text
replace_tabs-tail [] tail ks = refl
replace_tabs-tail (e ∷ es) tail (node, weight, ks) =
    rw
      (
        replace_tabs-digits e.node (comma ∷ (e.weight ++ entries_text tab es tail)) node.digits,
        replace_tabs-digits e.weight (entries_text tab es tail) weight.digits,
        replace_tabs-tail es tail ks,
      )
      refl

replace_tabs-lone : (lone : List ℕ) → IsNumeral lone → replace_tabs (tab ∷ lone) ≡ comma ∷ lone
unfolding replace_tabs
replace_tabs-lone lone k = ap (◌∷◌ comma) (
    ap replace_tabs (sym (append-nil lone))
    ∙ replace_tabs-digits lone [] k.digits
    ∙ append-nil lone)

IsStop-more : (es : List Entry) (rest : List ℕ) → IsStop (entries_text comma es (comma ∷ rest))
unfolding entries_text is_digit
IsStop-more [] rest = refl
IsStop-more (e ∷ es) rest = refl

extract-lone : (lone : List ℕ) → IsNumeral lone → extract lone ≡ some (pos (value lone), [])
extract-lone lone k = ap extract (sym (append-nil lone)) ∙ extract-value lone [] k tt

parse_arrows-half :
    (fuel : ℕ) (es : List Entry) (lone : List ℕ)
    → AreEntries es
    → IsNumeral lone
    → length es < fuel
    → parse_arrows fuel (skip_comma (entries_text comma es (comma ∷ lone))) ≡ some invalid_argument
unfolding parse_arrows skip_comma entries_text push_front
parse_arrows-half zero es lone ks k lt = absurd (omega (arith, lt))
parse_arrows-half (suc fuel) [] lone ks k lt = rw (parse_arrows, extract-lone lone k) refl
parse_arrows-half (suc fuel) (e ∷ es) lone (node, weight, ks) k lt =
    let first =
      extract-value e.node (comma ∷ (e.weight ++ entries_text comma es (comma ∷ lone))) node
        (IsStop-comma (e.weight ++ entries_text comma es (comma ∷ lone))) in
    let second =
      extract-value e.weight (entries_text comma es (comma ∷ lone)) weight (IsStop-more es lone) in
    rw (parse_arrows, first, second, parse_arrows-half fuel es lone ks k (omega (arith, lt))) refl

-- A line that writes a node, entries and then a number on its own, with characters behind it that
-- are trimmed, makes the parser throw `invalid_argument`, with fuel above the number of entries.
pub parse_node_data-half_entry :
    (fuel : ℕ) (n : List ℕ) (es : List Entry) (lone t : List ℕ)
    → IsNumeral n
    → AreEntries es
    → IsNumeral lone
    → AreTrimmed t
    → length es < fuel
    → parse_node_data fuel (n ++ entries_text tab es (tab ∷ (lone ++ t))) ≡ some invalid_argument
unfolding parse_node_data with_root
parse_node_data-half_entry fuel n es lone t k ks lone_k trimmed lt =
    let left =
      trim_end-keep tab (lone ++ t) lone lone_k.some_digit
        (trim_end-digits lone t lone_k.some_digit lone_k.digits (trim_end-nothing t trimmed)) in
    let kept = trim_end-entries es (tab ∷ (lone ++ t)) (tab ∷ lone) (omega arith) left in
    let trimmed_line =
      trim_end-prefix n (entries_text tab es (tab ∷ (lone ++ t))) (entries_text tab es (tab ∷ lone))
        (length-entries es (tab ∷ lone) (omega arith)) kept in
    let replaced =
      replace_tabs-digits n (entries_text tab es (tab ∷ lone)) k.digits
      ∙ ap (λ rest. n ++ rest)
          (replace_tabs-tail es (tab ∷ lone) ks
            ∙ ap (entries_text comma es) (replace_tabs-lone lone lone_k)) in
    let found = extract-value n (entries_text comma es (comma ∷ lone)) k (IsStop-more es lone) in
    rw (parse_node_data, trimmed_line, replaced, found, parse_arrows-half fuel es lone ks lone_k lt)
      refl

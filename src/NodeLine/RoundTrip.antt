-- ===== src/NodeLine/RoundTrip.antt =====
-- io_details.cc: a line that is written as the graph files write one gives back its numbers.
use cpp_tricks.Common.{
  ℕ, ◌<◌, ◌≡◌, refl, ap, sym, ◌∙◌, true, some, List, [], ◌∷◌, ◌++◌, map, length, append-nil, arith,
}
use cpp_tricks.NodeLine.{
  pos, comma, tab, is_trimmed, trim_end, replace_tabs, parsed, with_root, parse_node_data,
}
use cpp_tricks.NodeLine.Lines.{
  value, AreDigits, IsNumeral, Entry, AreEntries, entries_text, arrow_of, digit-tab, digit-trimmed,
  IsStop-entries, extract-value, parse_arrows-entries,
}

abbrev pub AreTrimmed : List ℕ → Type 0
AreTrimmed [] = Unit {0}
AreTrimmed (c ∷ cs) = (is_trimmed c ≡ true) × AreTrimmed cs

pub trim_end-nothing : (t : List ℕ) → AreTrimmed t → trim_end t ≡ []
unfolding trim_end
trim_end-nothing [] k = refl
trim_end-nothing (c ∷ t) (here, k) = rw (trim_end, trim_end-nothing t k, here) refl

-- A character in front of what stays does stay.
pub trim_end-keep :
    (c : ℕ) (cs zs : List ℕ) → 0 < length zs → trim_end cs ≡ zs → trim_end (c ∷ cs) ≡ c ∷ zs
unfolding trim_end
trim_end-keep c cs [] some_left e = absurd (omega (arith, some_left))
trim_end-keep c cs (z ∷ zs) some_left e = rw (trim_end, e) refl

pub length-suffix : (ws zs : List ℕ) → 0 < length zs → 0 < length (ws ++ zs)
length-suffix [] zs some_left = some_left
length-suffix (w ∷ ws) zs some_left = omega arith

pub trim_end-prefix :
    (xs ys zs : List ℕ) → 0 < length zs → trim_end ys ≡ zs → trim_end (xs ++ ys) ≡ xs ++ zs
trim_end-prefix [] ys zs some_left e = e
trim_end-prefix (x ∷ xs) ys zs some_left e =
    trim_end-keep x (xs ++ ys) (xs ++ zs) (length-suffix xs zs some_left)
      (trim_end-prefix xs ys zs some_left e)

pub trim_end-digits :
    (cs t : List ℕ) → 0 < length cs → AreDigits cs → trim_end t ≡ [] → trim_end (cs ++ t) ≡ cs
unfolding trim_end
trim_end-digits [] t some_left d e = absurd (omega (arith, some_left))
trim_end-digits (c ∷ []) t some_left (here, d) e = rw (trim_end, e, digit-trimmed c here) refl
trim_end-digits (c ∷ (c' ∷ cs)) t some_left (here, d) e =
    trim_end-keep c ((c' ∷ cs) ++ t) (c' ∷ cs) (omega arith)
      (trim_end-digits (c' ∷ cs) t (omega arith) d e)

length-numeral : (n rest : List ℕ) → IsNumeral n → 0 < length (n ++ rest)
length-numeral [] rest k = absurd (let short = k.some_digit in omega (arith, short))
length-numeral (c ∷ n) rest k = omega arith

-- A line keeps its numerals and loses what trails them.
trim_end-line :
    (n : List ℕ) (es : List Entry) (t : List ℕ)
    → IsNumeral n
    → AreEntries es
    → AreTrimmed t
    → trim_end (n ++ entries_text tab es t) ≡ n ++ entries_text tab es []
unfolding entries_text
trim_end-line n [] t k ks trimmed =
    trim_end-digits n t k.some_digit k.digits (trim_end-nothing t trimmed) ∙ sym (append-nil n)
trim_end-line n (e ∷ es) t k (node, weight, ks) trimmed =
    let last = trim_end-line e.weight es t weight ks trimmed in
    let before =
      trim_end-keep comma _ _ (length-numeral e.weight (entries_text tab es []) weight) last in
    let entry = trim_end-prefix e.node _ _ (omega arith) before in
    trim_end-prefix n _ _ (omega arith) (trim_end-keep tab _ _ (length-numeral e.node _ node) entry)

pub replace_tabs-digits :
    (n rest : List ℕ) → AreDigits n → replace_tabs (n ++ rest) ≡ n ++ replace_tabs rest
unfolding replace_tabs
replace_tabs-digits [] rest d = refl
replace_tabs-digits (c ∷ n) rest (here, d) =
    rw (digit-tab c here, replace_tabs-digits n rest d) refl

replace_tabs-entries :
    (es : List Entry)
    → AreEntries es
    → replace_tabs (entries_text tab es []) ≡ entries_text comma es []
unfolding replace_tabs entries_text
replace_tabs-entries [] ks = refl
replace_tabs-entries (e ∷ es) (node, weight, ks) =
    rw
      (
        replace_tabs-digits e.node (comma ∷ (e.weight ++ entries_text tab es [])) node.digits,
        replace_tabs-digits e.weight (entries_text tab es []) weight.digits,
        replace_tabs-entries es ks,
      )
      refl

-- A line that writes a node and its entries, with characters behind them that are trimmed, is read
-- as those numbers, in their order.
pub parse_node_data-line :
    (fuel : ℕ) (n : List ℕ) (es : List Entry) (t : List ℕ)
    → IsNumeral n
    → AreEntries es
    → AreTrimmed t
    → length es < fuel
    → parse_node_data fuel (n ++ entries_text tab es t)
      ≡ some (parsed (pos (value n), map arrow_of es))
unfolding parse_node_data with_root
parse_node_data-line fuel n es t k ks trimmed lt =
    let replaced =
      replace_tabs-digits n (entries_text tab es []) k.digits
      ∙ ap (λ rest. n ++ rest) (replace_tabs-entries es ks) in
    let found = extract-value n (entries_text comma es []) k (IsStop-entries es) in
    rw
      (
        parse_node_data,
        trim_end-line n es t k ks trimmed,
        replaced,
        found,
        parse_arrows-entries fuel es ks lt,
      )
      refl

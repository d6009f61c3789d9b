-- ===== src/NodeLine/Lines.antt =====
-- io_details.cc: a line of numerals is read as the numbers that they write.
use cpp_tricks.Common.{
  ℕ, zero, suc, ◌+◌, ◌-◌, ◌*◌, ◌^◌, ◌<◌, ◌≡◌, refl, ap, sym, true, false, some, List, [], ◌∷◌, ◌++◌,
  map, ltb, ◌==◌, length, lt→ltb, arith, subst,
}
use cpp_tricks.NodeLine.{
  pos, Arrow, comma, is_digit, is_space, is_trimmed, skip_spaces, read_digits, read_natural,
  read_signed, extract, skip_comma, parsed, push_front, parse_arrows,
}

-- The number that digits write behind a number.
unfoldable pub value_from : ℕ → List ℕ → ℕ
value_from n [] = n
value_from n (c ∷ cs) = value_from (n * 10 + (c - 48)) cs

abbrev pub value : List ℕ → ℕ
value cs = value_from 0 cs

abbrev pub AreDigits : List ℕ → Type 0
AreDigits [] = Unit {0}
AreDigits (c ∷ cs) = (is_digit c ≡ true) × AreDigits cs

-- At least one digit, for a number that is an `int`.
pub record IsNumeral (cs : List ℕ) : Type 0 where
  pub some_digit : 0 < length cs
  pub digits : AreDigits cs
  pub fits : value cs < 2 ^ 31

-- What may stand behind a numeral.
abbrev pub IsStop : List ℕ → Type 0
IsStop [] = Unit {0}
IsStop (c ∷ cs) = is_digit c ≡ false

read_digits-value :
    (n : ℕ) (cs rest : List ℕ)
    → AreDigits cs
    → IsStop rest
    → read_digits n (cs ++ rest) ≡ (value_from n cs, rest)
unfolding read_digits value_from
read_digits-value n [] [] d s = refl
read_digits-value n [] (c ∷ rest) d s = rw s refl
read_digits-value n (c ∷ cs) rest (here, d) s =
    rw here (read_digits-value (n * 10 + (c - 48)) cs rest d s)

digit-space : (c : ℕ) → is_digit c ≡ true → is_space c ≡ false
unfolding is_digit is_space
digit-space c e = ground (arith, e)

digit-minus : (c : ℕ) → is_digit c ≡ true → c == 45 ≡ false
unfolding is_digit
digit-minus c e = ground (arith, e)

digit-plus : (c : ℕ) → is_digit c ≡ true → c == 43 ≡ false
unfolding is_digit
digit-plus c e = ground (arith, e)

pub digit-tab : (c : ℕ) → is_digit c ≡ true → c == 9 ≡ false
unfolding is_digit
digit-tab c e = ground (arith, e)

pub digit-trimmed : (c : ℕ) → is_digit c ≡ true → is_trimmed c ≡ false
unfolding is_digit is_trimmed
digit-trimmed c e = ground (arith, e)

pub extract-value :
    (cs rest : List ℕ)
    → IsNumeral cs
    → IsStop rest
    → extract (cs ++ rest) ≡ some (pos (value cs), rest)
unfolding extract skip_spaces read_signed read_natural value_from
extract-value [] rest k s = let short = k.some_digit in absurd (omega (arith, short))
extract-value (c ∷ cs) rest k s =
    let (here, d) = k.digits in
    let first : 0 * 10 + (c - 48) ≡ c - 48 = omega arith in
    let small : ltb (value_from (c - 48) cs) (2 ^ 31) ≡ true =
      lt→ltb _ _ (subst (λ n. value_from n cs < 2 ^ 31) first k.fits) in
    let same : value (c ∷ cs) ≡ value_from (c - 48) cs = ap (λ n. value_from n cs) first in
    rw
      (
        digit-space c here,
        digit-minus c here,
        digit-plus c here,
        here,
        read_digits-value (c - 48) cs rest d s,
        small,
      )
      (ap (λ n. some (pos n, rest)) (sym same))

-- An entry of a line: the numerals of a node and a weight.
pub record Entry : Type 0 where
  pub node : List ℕ
  pub weight : List ℕ

abbrev pub AreEntries : List Entry → Type 0
AreEntries [] = Unit {0}
AreEntries (e ∷ es) = IsNumeral e.node × IsNumeral e.weight × AreEntries es

-- Entries, each behind `c`, and what follows them.
unfoldable pub entries_text : ℕ → List Entry → List ℕ → List ℕ
entries_text c [] tail = tail
entries_text c (e ∷ es) tail = c ∷ (e.node ++ (comma ∷ (e.weight ++ entries_text c es tail)))

abbrev pub arrow_of : Entry → Arrow
arrow_of e = record { end = pos (value e.node); weight = pos (value e.weight) }

pub IsStop-entries : (es : List Entry) → IsStop (entries_text comma es [])
unfolding entries_text is_digit
IsStop-entries [] = tt
IsStop-entries (e ∷ es) = refl

pub IsStop-comma : (rest : List ℕ) → IsStop (comma ∷ rest)
unfolding is_digit
IsStop-comma rest = refl

parse_arrows-nothing : (fuel : ℕ) → parse_arrows (suc fuel) [] ≡ some (parsed [])
unfolding parse_arrows extract skip_spaces read_signed
parse_arrows-nothing fuel = refl

pub parse_arrows-entries :
    (fuel : ℕ) (es : List Entry)
    → AreEntries es
    → length es < fuel
    → parse_arrows fuel (skip_comma (entries_text comma es [])) ≡ some (parsed (map arrow_of es))
unfolding parse_arrows skip_comma entries_text push_front
parse_arrows-entries zero es k lt = absurd (omega (arith, lt))
parse_arrows-entries (suc fuel) [] k lt = parse_arrows-nothing fuel
parse_arrows-entries (suc fuel) (e ∷ es) (node, weight, k) lt =
    let first =
      extract-value e.node (comma ∷ (e.weight ++ entries_text comma es [])) node
        (IsStop-comma (e.weight ++ entries_text comma es [])) in
    let second = extract-value e.weight (entries_text comma es []) weight (IsStop-entries es) in
    rw (parse_arrows, first, second, parse_arrows-entries fuel es k (omega (arith, lt))) refl

-- ===== src/NodeLine/Reading.antt =====
-- io_details.cc: the parser of a line ends.
use cpp_tricks.Common.{
  ℕ, zero, suc, ◌+◌, ◌-◌, ◌*◌, ◌^◌, ◌≤◌, ◌<◌, ◌≡◌, refl, ap, Bool, true, false, Option, none, some,
  List, [], ◌∷◌, ltb, leb, ◌==◌, if◌then◌else◌, ◌>>=◌, length, arith, Bool-cases, Option-cases, inl,
  inr, subst,
}
use cpp_tricks.NodeLine.{
  ℤ, Arrow, is_digit, is_space, is_trimmed, trim_end, replace_tabs, skip_spaces, read_digits,
  read_natural, read_signed, extract, skip_comma, Parsed, parsed, invalid_argument, push_front,
  parse_arrows, with_root, failed_number, parse_node_data,
}

length-skip_spaces : (cs : List ℕ) → length (skip_spaces cs) ≤ length cs
unfolding skip_spaces
length-skip_spaces [] = omega arith
length-skip_spaces (c ∷ cs) = elim (Bool-cases (is_space c)) [
  | inl t ↦ rw t (omega (arith, length-skip_spaces cs))
  | inr f ↦ rw f (omega arith)
]

length-read_digits : (n : ℕ) (cs : List ℕ) → length (read_digits n cs).1 ≤ length cs
unfolding read_digits
length-read_digits n [] = omega arith
length-read_digits n (c ∷ cs) = elim (Bool-cases (is_digit c)) [
  | inl t ↦ rw t (omega (arith, length-read_digits (n * 10 + (c - 48)) cs))
  | inr f ↦ rw f (omega arith)
]

-- An extraction that succeeds takes at least one character.
abbrev Shortens : {A : Type 0} → Option (A × List ℕ) → ℕ → Type 0
Shortens none n = Unit {0}
Shortens (some (a, rest)) n = length rest < n

>>=-Shortens :
    {A B : Type 0} (o : Option (A × List ℕ)) (f : A × List ℕ → Option (B × List ℕ)) (n : ℕ)
    → ((r : A × List ℕ) → length r.1 < n → Shortens (f r) n)
    → Shortens o n
    → Shortens (o >>= f) n
>>=-Shortens none f n h s = tt
>>=-Shortens (some r) f n h s = h r s

read_natural-Shortens : (cs : List ℕ) (n : ℕ) → length cs ≤ n → Shortens (read_natural cs) n
unfolding read_natural
read_natural-Shortens [] n le = tt
read_natural-Shortens (c ∷ cs) n le = elim (Bool-cases (is_digit c)) [
  | inl t ↦ rw t (omega (arith, length-read_digits (c - 48) cs, le))
  | inr f ↦ rw f tt
]

if-Shortens :
    {A : Type 0} (b : Bool) (x : A × List ℕ) (n : ℕ)
    → length x.1 < n
    → Shortens (if b then some x else none) n
if-Shortens true x n lt = lt
if-Shortens false x n lt = tt

read_signed-Shortens : (cs : List ℕ) → Shortens (read_signed cs) (length cs)
unfolding read_signed
read_signed-Shortens [] = tt
read_signed-Shortens (c ∷ cs) = elim (Bool-cases (c == 45)) [
  | inl t ↦ rw t (
      >>=-Shortens (read_natural cs) _ (suc (length cs))
        (λ (m, rest) lt. if-Shortens (leb m (2 ^ 31)) _ _ lt)
        (read_natural-Shortens cs (suc (length cs)) (omega arith)))
  | inr f ↦ elim (Bool-cases (c == 43)) [
    | inl p ↦
        rw (f, p)
          (>>=-Shortens (read_natural cs) _ (suc (length cs))
            (λ (m, rest) lt. if-Shortens (ltb m (2 ^ 31)) _ _ lt)
            (read_natural-Shortens cs (suc (length cs)) (omega arith)))
    | inr q ↦
        rw (f, q)
          (>>=-Shortens (read_natural (c ∷ cs)) _ (suc (length cs))
            (λ (m, rest) lt. if-Shortens (ltb m (2 ^ 31)) _ _ lt)
            (read_natural-Shortens (c ∷ cs) (suc (length cs)) (omega arith)))
  ]
]

Shortens-le : {A : Type 0} (o : Option (A × List ℕ)) (n m : ℕ) → n ≤ m → Shortens o n → Shortens o m
Shortens-le none n m le s = tt
Shortens-le (some r) n m le s = omega (arith, le, s)

Shortens-found :
    {A : Type 0} (o : Option (A × List ℕ)) (n : ℕ) (a : A) (rest : List ℕ)
    → Shortens o n
    → o ≡ some (a, rest)
    → length rest < n
Shortens-found o n a rest s e = subst (λ q. Shortens q n) e s

pub length-extract :
    (text : List ℕ) (i : ℤ) (rest : List ℕ)
    → extract text ≡ some (i, rest)
    → length rest < length text
unfolding extract
length-extract text i rest e =
    Shortens-found (read_signed (skip_spaces text)) (length text) i rest
      (Shortens-le _ (length (skip_spaces text)) (length text) (length-skip_spaces text)
        (read_signed-Shortens (skip_spaces text)))
      e

length-skip_comma : (cs : List ℕ) → length (skip_comma cs) ≤ length cs
unfolding skip_comma
length-skip_comma [] = omega arith
length-skip_comma (c ∷ cs) = ground arith

parse_arrows-ends :
    (fuel : ℕ) (text : List ℕ)
    → length text < fuel
    → (r : Parsed (List Arrow)) × (parse_arrows fuel text ≡ some r)
unfolding parse_arrows
parse_arrows-ends zero text lt = absurd (omega (arith, lt))
parse_arrows-ends (suc fuel) text lt = elim (Option-cases (extract text)) [
  | inl e ↦ (parsed [], rw (parse_arrows, e) refl)
  | inr ((i, text'), e) ↦ elim (Option-cases (extract (skip_comma text'))) [
    | inl f ↦ (invalid_argument, rw (parse_arrows, e, f) refl)
    | inr ((j, text''), f) ↦
        let first = length-extract text i text' e in
        let second = length-extract (skip_comma text') j text'' f in
        let skipped = length-skip_comma text' in
        let skipped' = length-skip_comma text'' in
        let (r, run) =
          parse_arrows-ends fuel (skip_comma text'')
            (omega (arith, lt, first, second, skipped, skipped')) in
        (push_front (record { end = i; weight = j }) r, rw (parse_arrows, e, f, run) refl)
  ]
]

length-trim_end : (cs : List ℕ) → length (trim_end cs) ≤ length cs
unfolding trim_end
length-trim_end [] = omega arith
length-trim_end (c ∷ cs) = shorter (trim_end cs) (length-trim_end cs)
  where
    shorter :
        (r : List ℕ)
        → length r ≤ length cs
        → length (elim r [ [] ↦ if is_trimmed c then [] else (c ∷ []) | d ∷ ds ↦ c ∷ (d ∷ ds) ])
          ≤ suc (length cs)
    shorter [] le = ground arith
    shorter (d ∷ ds) le = omega (arith, le)

length-replace_tabs : (cs : List ℕ) → length (replace_tabs cs) ≡ length cs
unfolding replace_tabs
length-replace_tabs [] = refl
length-replace_tabs (c ∷ cs) = ap suc (length-replace_tabs cs)

-- On every line, with fuel above its length, the parser ends: it returns a node or throws.
pub parse_node_data-ends :
    (fuel : ℕ) (line : List ℕ)
    → length line < fuel
    → (r : Parsed (ℤ × List Arrow)) × (parse_node_data fuel line ≡ some r)
unfolding parse_node_data
parse_node_data-ends fuel line lt = elim (Option-cases (extract (replace_tabs (trim_end line)))) [
  | inl e ↦ (
    parsed (failed_number (skip_spaces (replace_tabs (trim_end line))), []),
    rw (parse_node_data, e) refl,
  )
  | inr ((root, text), e) ↦
      let first = length-extract (replace_tabs (trim_end line)) root text e in
      let trimmed = length-trim_end line in
      let replaced = length-replace_tabs (trim_end line) in
      let skipped = length-skip_comma text in
      let (r, run) =
        parse_arrows-ends fuel (skip_comma text)
          (omega (arith, lt, first, trimmed, replaced, skipped)) in
      (with_root root r, rw (parse_node_data, e, run) refl)
]

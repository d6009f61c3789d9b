-- ===== src/Zigzag/Best.antt =====
-- edu/train/zigzag.hpp, `convert_best`: row 0 is written over the string that is being read, and
-- the other rows are spliced in behind it.
use cpp_tricks.Common.{
  ℕ, zero, suc, ◌+◌, ◌-◌, Option, none, some, List, [], ◌∷◌, ◌++◌, leb, ◌==◌, if◌then◌else◌, ◌>>=◌,
  length, get_elem?, set, take, drop, replicate,
}
use cpp_tricks.Zigzag.{Direction, up, stride, boxes, turn, advance, append_at}

-- `siter` is the position that is read next, `in_place_counter` the one that is written next.
pub record InPlace {ℓ} (A : Type ℓ) : Type ℓ where
  pub text : List A
  pub in_place_counter : ℕ
  pub siter : ℕ
  pub rows : List (List A)

module _ {ℓ} {A : Type ℓ} where
  -- `if (counter == 0) s[in_place_counter++] = c; else row_to_slice[counter - 1] += c;`
  -- with `c = *siter++`
  unfoldable pub put_letter : ℕ → InPlace A → Option (InPlace A)
  unfolding append_at
  put_letter counter st = get_elem? st.text st.siter >>= λ c.
      if counter == 0
      then some (record st {
        text = set st.text st.in_place_counter c;
        in_place_counter = st.in_place_counter + 1;
        siter = st.siter + 1;
      })
      else (append_at st.rows (counter - 1) c >>= λ rows.
          some (record st { rows = rows; siter = st.siter + 1 }))

  -- `s.replace(pos, len, str)`: throws beyond the end, and takes what there is of `len`.
  unfoldable pub replace : List A → ℕ → ℕ → List A → Option (List A)
  replace s pos len str =
      if leb pos (length s) then some (take pos s ++ str ++ drop (pos + len) s) else none

  -- `s.replace(in_place_counter, row.size(), row); in_place_counter += row.size();` for each row
  unfoldable pub splice : ℕ → List (List A) → List A → Option (List A)
  unfolding replace
  splice pos [] s = some s
  splice pos (r ∷ rs) s = replace s pos (length r) r >>= λ s'. splice (pos + length r) rs s'

  -- The splices begin with `row_to_slice[0]`, which must be there.
  unfoldable pub splice_all : InPlace A → Option (List A)
  unfolding splice
  splice_all st = elim st.rows [ [] ↦ none | r ∷ rs ↦ splice st.in_place_counter (r ∷ rs) st.text ]

module _ {ℓ} {A : Type ℓ} (n : ℕ) where
  unfoldable pub best_inner : ℕ → ℕ → ℕ → Direction → InPlace A → Option (InPlace A)
  unfolding turn advance put_letter
  best_inner zero subidx counter direction st = some st
  best_inner (suc k) subidx counter direction st =
      if st.siter == length st.text then some st else (do
        (counter', direction') ← turn n subidx counter direction
        st' ← put_letter counter' st
        counter'' ← advance counter' direction'
        best_inner k (subidx + 1) counter'' direction' st')

  unfoldable pub best_outer : ℕ → InPlace A → Option (InPlace A)
  unfolding best_inner
  best_outer zero st = some st
  best_outer (suc k) st = best_inner (stride n) 0 0 up st >>= λ st'. best_outer k st'

-- `new string[numRows - 1]` and the positions at their first values.
abbrev pub in_place_start {ℓ} : {A : Type ℓ} → List A → ℕ → InPlace A
in_place_start s n = record {
  text = s;
  in_place_counter = 0;
  siter = 0;
  rows = replicate (n - 1) [];
}

unfoldable pub convert_best {ℓ} : {A : Type ℓ} → List A → ℕ → Option (List A)
unfolding best_outer boxes splice_all
convert_best s n =
    if n == 1
    then some s
    else (best_outer n (boxes (length s) (stride n)) (in_place_start s n) >>= splice_all)

-- ===== src/Common/Bits.antt =====
-- The bits of a byte: what `|` and `&` with one bit do to the others. Each law is a table over all
-- bytes and positions, checked by evaluation.
use Prim.Native.Nat.{ℕ, zero, suc, ◌-◌, ◌%◌, ◌^◌, ◌<◌, bit_and, bit_or}
use mathlib.Core.Path.{◌≡◌, refl, subst, sym}
use mathlib.Core.Bool.{Bool, true, false, ◌&&◌, ◌||◌, not}
use mathlib.Core.Logic.{inl, inr}
use native.Mathlib.Decide.{ℕ_discrete}
use native.Mathlib.Omega.{arith}
use cpp_tricks.Common.Tests.{◌==◌, ltb, if◌then◌else◌, Bool-cases}

-- `c & (1 << i)` as a test
unfoldable pub test_bit : ℕ → ℕ → Bool
test_bit i c = not (bit_and c (2 ^ i) == 0)

-- `c | (1 << i)`, and `c & ~(1 << i)` on a byte
abbrev pub set_bit : ℕ → ℕ → ℕ
set_bit i c = bit_or c (2 ^ i)

abbrev pub clear_bit : ℕ → ℕ → ℕ
clear_bit i c = bit_and c (255 - 2 ^ i)

unfoldable pub all_below : (ℕ → Bool) → ℕ → Bool
all_below p zero = true
all_below p (suc n) = if p n then all_below p n else false

pub all_below-at : (p : ℕ → Bool) (n : ℕ) → all_below p n ≡ true → (i : ℕ) → i < n → p i ≡ true
unfolding all_below
all_below-at p zero e i lt = absurd (omega (arith, lt))
all_below-at p (suc n) e i lt = elim (Bool-cases (p n)) [
  | inr f ↦ ground (arith, e, f)
  | inl t ↦ elim (ℕ_discrete i n) [
    | yes same ↦ subst (λ x. p x ≡ true) (sym same) t
    | no other ↦ all_below-at p n (ground (arith, e, t)) i (omega (arith, lt, other))
  ]
]

unfoldable same : Bool → Bool → Bool
same true b = b
same false b = not b

same-eq : (a b : Bool) → same a b ≡ true → a ≡ b
unfolding same
same-eq true true e = refl
same-eq true false e = sym e
same-eq false true e = e
same-eq false false e = refl

-- For all `i` and `j` below 8 and all bytes `c`.
unfoldable table : (ℕ → ℕ → ℕ → Bool) → Bool
unfolding all_below
table p = all_below (λ i. all_below (λ j. all_below (p i j) 256) 8) 8

table-at :
    (p : ℕ → ℕ → ℕ → Bool) → table p ≡ true → (i j c : ℕ) → i < 8 → j < 8 → c < 256 → p i j c ≡ true
unfolding table
table-at p e i j c li lj lc =
    let at_i = all_below-at (λ i'. all_below (λ j'. all_below (p i' j') 256) 8) 8 e i li in
    let at_j = all_below-at (λ j'. all_below (p i j') 256) 8 at_i j lj in
    all_below-at (p i j) 256 at_j c lc

pub test_bit-set_bit :
    (i j c : ℕ) → i < 8 → j < 8 → c < 256 → test_bit j (set_bit i c) ≡ (i == j || test_bit j c)
unfolding table test_bit same
test_bit-set_bit i j c li lj lc = same-eq _ _ (
    table-at (λ i j c. same (test_bit j (set_bit i c)) (i == j || test_bit j c)) refl i j c li lj
      lc)

pub test_bit-clear_bit :
    (i j c : ℕ)
    → i < 8
    → j < 8
    → c < 256
    → test_bit j (clear_bit i c) ≡ (not (i == j) && test_bit j c)
unfolding table test_bit same
test_bit-clear_bit i j c li lj lc = same-eq _ _ (
    table-at (λ i j c. same (test_bit j (clear_bit i c)) (not (i == j) && test_bit j c)) refl i j c
      li lj lc)

ltb-lt : (a b : ℕ) → ltb a b ≡ true → a < b
ltb-lt a b e = ground (arith, e)

pub set_bit-byte : (i c : ℕ) → i < 8 → c < 256 → set_bit i c < 256
unfolding table
set_bit-byte i c li lc =
    ltb-lt _ _ (table-at (λ i j c. ltb (set_bit i c) 256) refl i 0 c li (omega arith) lc)

pub clear_bit-byte : (i c : ℕ) → i < 8 → c < 256 → clear_bit i c < 256
unfolding table
clear_bit-byte i c li lc =
    ltb-lt _ _ (table-at (λ i j c. ltb (clear_bit i c) 256) refl i 0 c li (omega arith) lc)

eqb-eq : (a b : ℕ) → a == b ≡ true → a ≡ b
eqb-eq a b e = ground (arith, e)

pub bit_and-low_three : (x : ℕ) → x < 512 → bit_and x 7 ≡ x % 8
unfolding all_below
bit_and-low_three x lt = eqb-eq _ _ (all_below-at (λ x. bit_and x 7 == x % 8) 512 refl x lt)

pub bit_and-low_six : (x : ℕ) → x < 512 → bit_and x 63 ≡ x % 64
unfolding all_below
bit_and-low_six x lt = eqb-eq _ _ (all_below-at (λ x. bit_and x 63 == x % 64) 512 refl x lt)

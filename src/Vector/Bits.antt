-- ===== src/Vector/Bits.antt =====
-- top.cpp, `Vector<bool>`: what an assignment through a BitReference does to the bits.
use cpp_tricks.Common.{
  ℕ, ◌/◌, ◌%◌, ◌*◌, ◌<◌, ◌≡◌, refl, subst, ap, ◌∙◌, Bool, true, false, Option, none, some, List,
  ◌==◌, ◌||◌, ◌&&◌, not, if◌then◌else◌, arith, length, get_elem?, set, get_elem?_of_lt,
  get_elem?-set_self, get_elem?-set_ne, lt_of_get_elem?, length-set, ℕ_discrete, test_bit,
  test_bit-set_bit, test_bit-clear_bit, set_bit, clear_bit,
}
use cpp_tricks.Vector.{bit_reference, assign_bit}

unfoldable pub bit_of : Option ℕ → ℕ → Bool
bit_of none i = false
bit_of (some byte) i = test_bit i byte

-- The bit at a position.
abbrev pub bit_at : List ℕ → ℕ → Bool
bit_at arr i = bit_of (get_elem? arr (i / 8)) (i % 8)

abbrev pub IsBytes : List ℕ → Type 0
IsBytes arr = (i byte : ℕ) → get_elem? arr i ≡ some byte → byte < 256

or_if : (a b : Bool) → (a || b) ≡ (if a then true else b)
or_if true b = refl
or_if false b = refl

and_if : (a b : Bool) → (not a && b) ≡ (if a then false else b)
and_if true b = refl
and_if false b = refl

written_bit :
    (i j byte : ℕ) (b : Bool)
    → i < 8
    → j < 8
    → byte < 256
    → test_bit j (if b then set_bit i byte else clear_bit i byte)
      ≡ (if i == j then b else test_bit j byte)
written_bit i j byte true li lj lb =
    test_bit-set_bit i j byte li lj lb ∙ or_if (i == j) (test_bit j byte)
written_bit i j byte false li lj lb =
    test_bit-clear_bit i j byte li lj lb ∙ and_if (i == j) (test_bit j byte)

-- On an array of bytes, an assignment to a bit of the array succeeds; the bit is then the one
-- assigned, all other bits are as they were, and so is the length.
pub assign_bit-bits :
    (arr : List ℕ) (i : ℕ) (b : Bool)
    → IsBytes arr
    → i < length arr * 8
    → (arr' : List ℕ) × (assign_bit arr (bit_reference i) b ≡ some arr')
      × ((j : ℕ) → bit_at arr' j ≡ (if i == j then b else bit_at arr j))
      × (length arr' ≡ length arr)
unfolding assign_bit bit_of
assign_bit-bits arr i b bytes lt =
    let (byte, here) = get_elem?_of_lt arr (i / 8) (omega (arith, lt)) in
    let new = if b then set_bit (i % 8) byte else clear_bit (i % 8) byte in
    (
      set arr (i / 8) new,
      rw here refl,
      (λ j. elim (ℕ_discrete (i / 8) (j / 8)) [
        | yes same ↦
            let stored : get_elem? (set arr (i / 8) new) (j / 8) ≡ some new =
              subst (λ k. get_elem? (set arr (i / 8) new) k ≡ some new) same
                (get_elem?-set_self arr (i / 8) new (lt_of_get_elem? arr (i / 8) here)) in
            let old : get_elem? arr (j / 8) ≡ some byte =
              subst (λ k. get_elem? arr k ≡ some byte) same here in
            let test : i % 8 == j % 8 ≡ i == j = ground (arith, same) in
            rw (stored, old)
              (written_bit (i % 8) (j % 8) byte b (omega arith) (omega arith)
                  (bytes (i / 8) byte here)
                ∙ ap (λ t. if t then b else test_bit (j % 8) byte) test)
        | no other ↦
            let test : i == j ≡ false = ground (arith, other) in
            rw test (ap (λ o. bit_of o (j % 8)) (get_elem?-set_ne arr new other))
      ]),
      length-set arr (i / 8) new,
    )

-- ===== src/Vector/Tests.antt =====
-- Runs of top.cpp's vectors at concrete elements, and what the theorems say at them.
use cpp_tricks.Common.{
  ℕ, zero, suc, ◌≡◌, refl, false, none, some, List, [], ◌∷◌, ◌==◌, if◌then◌else◌, ◌>>=◌, arith,
  length, take, max, ◌≤◌, ◌<◌, get_elem?,
}
use cpp_tricks.Vector.{
  Vector, out_of_range, cap, resize, push_back, pop_back, at, bit_reference, assign_bit,
}
use cpp_tricks.Vector.Growth.{Holds, pop_back-Holds}
use cpp_tricks.Vector.Resize.{resize-take}
use cpp_tricks.Vector.Bits.{bit_at, IsBytes, assign_bit-bits}

abbrev nothing : Vector ℕ
nothing = record { arr = []; sz = 0 }

-- A vector of no capacity reserves twice nothing and constructs outside its memory.
push_to_nothing : push_back nothing 5 ≡ none
unfolding push_back
push_to_nothing = refl

-- Two elements and a free slot.
abbrev two : Vector ℕ
two = record { arr = some 7 ∷ some 8 ∷ none ∷ []; sz = 2 }

abbrev seven_eight : List ℕ
seven_eight = 7 ∷ 8 ∷ []

two-Holds : Holds two seven_eight
two-Holds = record { rest = none ∷ []; slots = refl; counted = refl }

still_two : (resize two 4 9 >>= λ v. at v 2) ≡ some out_of_range
unfolding resize at
still_two = refl

pop_back-Holds_example : (v' : Vector ℕ) × (pop_back two ≡ some v') × Holds v' (7 ∷ [])
pop_back-Holds_example = pop_back-Holds two (7 ∷ []) 8 two-Holds

resize-take_example :
    (v' : Vector ℕ) × (resize two 4 9 ≡ some v')
    × Holds v' (take 4 seven_eight)
    × (cap v' ≡ max 4 3)
    × ((i : ℕ) → length seven_eight ≤ i → i < 4 → get_elem? v'.arr i ≡ some (some 9))
resize-take_example = resize-take two seven_eight 4 9 two-Holds

abbrev one_byte : List ℕ
one_byte = 5 ∷ []

one_byte-IsBytes : IsBytes one_byte
one_byte-IsBytes zero byte e = let same : 5 ≡ byte = cc in omega (arith, same)
one_byte-IsBytes (suc i) byte e = let clash : ⊥ = cc in absurd clash

assign_bit-bits_example :
    (arr' : List ℕ) × (assign_bit one_byte (bit_reference 2) false ≡ some arr')
    × ((j : ℕ) → bit_at arr' j ≡ (if 2 == j then false else bit_at one_byte j))
    × (length arr' ≡ 1)
assign_bit-bits_example = assign_bit-bits one_byte 2 false one_byte-IsBytes (omega arith)

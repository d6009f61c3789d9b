-- ===== src/BitMask/Offsets.antt =====
-- bit_masking.cc: coordinates and offsets.
use cpp_tricks.Common.{
  ℕ, ◌+◌, ◌*◌, ◌<◌, ◌≡◌, refl, true, some, ltb, ◌&&◌, ◌>>=◌, arith, ap, ◌∙◌, bit_and,
  bit_and-low_three, bit_and-low_six, ◌/◌, ◌%◌,
}
use cpp_tricks.BitMask.{to_offset, from_offset}

-- On coordinates below 8, the offset is their number in base 8, highest digit first.
pub to_offset-digits :
    (x y z : ℕ) → x < 8 → y < 8 → z < 8 → to_offset x y z ≡ some (x * 64 + y * 8 + z)
unfolding to_offset
to_offset-digits x y z lx ly lz =
    let fit : (ltb x 8 && ltb y 8 && ltb z 8) ≡ true = ground (arith, lx, ly, lz) in
    rw (fit, digit x lx, digit y ly, digit z lz) refl
  where
    digit : (d : ℕ) → d < 8 → bit_and d 7 ≡ d
    digit d l = bit_and-low_three d (omega (arith, l)) ∙ omega (arith, l)

from_offset-digits : (o : ℕ) → o < 512 → from_offset o ≡ (o / 64, (o % 64) / 8, o % 64 % 8)
unfolding from_offset
from_offset-digits o lt =
    rw (bit_and-low_six o lt, bit_and-low_three (o % 64) (omega (arith, lt))) refl

triple : (a b c x y z : ℕ) → a ≡ x → b ≡ y → c ≡ z → ◌≡◌ {A = ℕ × ℕ × ℕ} (a, b, c) (x, y, z)
triple a b c x y z e f g = λ i. (e i, f i, g i)

-- On coordinates below 8, `fromOffset` writes the coordinates that `toOffset` was called with.
pub from_offset-to_offset :
    (x y z : ℕ)
    → x < 8
    → y < 8
    → z < 8
    → (to_offset x y z >>= λ offset. some (from_offset offset)) ≡ some (x, y, z)
from_offset-to_offset x y z lx ly lz =
    rw
      (
        to_offset-digits x y z lx ly lz,
        from_offset-digits (x * 64 + y * 8 + z) (omega (arith, lx, ly, lz)),
      )
      (ap some (
        triple _ _ _ x y z (omega (arith, lx, ly, lz)) (omega (arith, lx, ly, lz))
          (omega (arith, lx, ly, lz))))

-- On an offset below 512, `toOffset` of what `fromOffset` writes returns that offset.
pub to_offset-from_offset :
    (offset : ℕ)
    → offset < 512
    → (let (x, y, z) = from_offset offset in to_offset x y z) ≡ some offset
to_offset-from_offset o lt = rw (from_offset-digits o lt) (
    to_offset-digits (o / 64) (o % 64 / 8) (o % 64 % 8) (omega (arith, lt)) (omega (arith, lt))
      (omega (arith, lt))
    ∙ ap some (omega (arith, lt)))

-- ===== src/Vector.antt =====
-- edu/courses/adv_cpp_study/top.cpp, `Vector` and `Vector<bool>`. `arr` is raw memory for `cap`
-- elements: a slot is an element or not constructed. `none` is what C++ leaves undefined: to read or
-- destroy what is not constructed, or to leave the array. Copying an element does not throw.
pub mod Growth
pub mod Resize
pub mod Bits
mod Tests
use cpp_tricks.Common.{
  ℕ, zero, suc, ◌+◌, ◌-◌, ◌*◌, ◌/◌, ◌%◌, Bool, Option, none, some, List, [], ◌∷◌, ◌++◌, ltb, leb,
  ◌==◌, if◌then◌else◌, ◌>>=◌, length, get_elem?, set, replicate, set_bit, clear_bit,
}

pub record Vector {ℓ} (T : Type ℓ) : Type ℓ where
  pub arr : List (Option T)
  pub sz : ℕ

-- What `at` does: it throws `out_of_range`, or returns an element.
pub data Checked {ℓ} (T : Type ℓ) : Type ℓ where
  out_of_range : Checked T
  element : T → Checked T

module _ {ℓ} {T : Type ℓ} where
  abbrev pub cap : Vector T → ℕ
  cap v = length v.arr

  -- `arr[i]`
  unfoldable pub index_at : Vector T → ℕ → Option T
  index_at v i = get_elem? v.arr i >>= λ slot. slot

  -- `new (arr + i) T(value)`
  unfoldable pub construct : List (Option T) → ℕ → T → Option (List (Option T))
  construct arr i value = get_elem? arr i >>= λ old. some (set arr i (some value))

  -- `std::uninitialized_copy(arr, arr + sz, …)`: the first `k` slots, each constructed.
  unfoldable pub copy_slots : ℕ → List (Option T) → Option (List (Option T))
  copy_slots zero arr = some []
  copy_slots (suc k) [] = none
  copy_slots (suc k) (none ∷ arr) = none
  copy_slots (suc k) (some x ∷ arr) = copy_slots k arr >>= λ copied. some (some x ∷ copied)

  unfoldable pub reserve : Vector T → ℕ → Option (Vector T)
  unfolding copy_slots
  reserve v n =
      if leb n (cap v)
      then some v
      else (copy_slots v.sz v.arr >>= λ copied.
          some (record v { arr = copied ++ replicate (n - v.sz) none }))

  -- The loop of `resize` with `k` rounds left, at `i`.
  unfoldable pub construct_from : ℕ → ℕ → T → List (Option T) → Option (List (Option T))
  unfolding construct
  construct_from zero i value arr = some arr
  construct_from (suc k) i value arr =
      construct arr i value >>= λ arr'. construct_from k (i + 1) value arr'

  unfoldable pub resize : Vector T → ℕ → T → Option (Vector T)
  unfolding reserve construct_from
  resize v n value = (if ltb (cap v) n then reserve v n else some v) >>= λ v1.
      construct_from (n - v1.sz) v1.sz value v1.arr >>= λ arr.
      some (record { arr = arr; sz = if ltb n v1.sz then n else v1.sz })

  unfoldable pub push_back : Vector T → T → Option (Vector T)
  unfolding reserve construct
  push_back v value = (if cap v == v.sz then reserve v (2 * v.sz) else some v) >>= λ v1.
      construct v1.arr v1.sz value >>= λ arr. some (record { arr = arr; sz = v1.sz + 1 })

  -- With no element, `--sz` goes below 0 and the destructor runs outside the array.
  unfoldable pub pop_back : Vector T → Option (Vector T)
  unfolding index_at
  pop_back v =
      if v.sz == 0
      then none
      else (index_at v (v.sz - 1) >>= λ last.
          some (record { arr = set v.arr (v.sz - 1) none; sz = v.sz - 1 }))

  unfoldable pub at : Vector T → ℕ → Option (Checked T)
  unfolding index_at
  at v i = if leb v.sz i then some out_of_range else (index_at v i >>= λ x. some (element x))

-- `Vector<bool>::operator[]` and `BitReference::operator=`
pub record BitReference : Type 0 where
  pub bucket : ℕ
  pub pos : ℕ

abbrev pub bit_reference : ℕ → BitReference
bit_reference i = record { bucket = i / 8; pos = i % 8 }

unfoldable pub assign_bit : List ℕ → BitReference → Bool → Option (List ℕ)
assign_bit arr r b = get_elem? arr r.bucket >>= λ byte.
    some (set arr r.bucket (if b then set_bit r.pos byte else clear_bit r.pos byte))

-- ===== src/OwnExt.antt =====
-- common/std_own_ext.h: reading a map, a value that goes stale, and `compact`. The map is the
-- library's, an association list here with keys that `eq_key` tells apart. `none` is a read beyond
-- the mask's end, which C++ leaves undefined.
pub mod Laws
mod Tests
use cpp_tricks.Common.{Bool, true, false, Option, none, some, List, [], ◌∷◌, if◌then◌else◌, ◌>>=◌}

-- `std::map::find`
module _ {K V : Type 0} (eq_key : K → K → Bool) where
  unfoldable pub find : List (K × V) → K → Option V
  find [] val = none
  find ((k, v) ∷ param) val = if eq_key k val then some v else find param val

-- What `at` does: it returns the value or throws `invalid_argument`.
pub data Lookup (V : Type 0) : Type 0 where
  found : V → Lookup V
  invalid_argument : Lookup V

module _ {K V : Type 0} (eq_key : K → K → Bool) where
  unfoldable pub at : List (K × V) → K → Lookup V
  unfolding find
  at param val = elim (find eq_key param val) [ none ↦ invalid_argument | some v ↦ found v ]

  unfoldable pub contain : List (K × V) → K → Bool
  unfolding find
  contain param val = elim (find eq_key param val) [ none ↦ false | some v ↦ true ]

pub record Cache (V : Type 0) : Type 0 where
  pub value : V
  pub stale : Bool

module _ {V : Type 0} where
  -- The constructor: a new cache is stale, and no operation makes it fresh.
  abbrev pub new_cache : V → Cache V
  new_cache v = record { value = v; stale = true }

  abbrev pub evict : Cache V → Cache V
  evict c = record c { stale = true }

  abbrev pub is_stale : Cache V → Bool
  is_stale c = c.stale

-- What is written to `out_first`, by the loop over `in_first` and `mask_first`.
unfoldable pub compact {ℓ} : {A : Type ℓ} → List A → List Bool → Option (List A)
compact [] mask = some []
compact (x ∷ xs) [] = none
compact (x ∷ xs) (b ∷ mask) =
    let rest = compact xs mask in if b then (rest >>= λ out. some (x ∷ out)) else rest

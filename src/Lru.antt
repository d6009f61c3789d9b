-- ===== src/Lru.antt =====
-- projects/high_perf/lru_benchmark.cc, `v1::Lru`, at the key type of its benchmarks, `unsigned`.
-- The list's nodes carry an identity, and the map holds identities: an iterator stays valid until
-- its own node is erased. `none` is an access that C++ leaves undefined: an erase through an
-- iterator whose node is gone, or `front` of an empty list. The unordered map is the library's,
-- an association list here.
pub mod Order
pub mod Coherent
pub mod Steps
pub mod Refine
mod Tests
use cpp_tricks.Common.{
  ℕ, suc, ◌+◌, Bool, true, false, Option, none, some, List, [], ◌∷◌, ◌++◌, ◌==◌, if◌then◌else◌,
  ◌>>=◌, length,
}

-- A node of `list_` and its identity.
pub record Node : Type 0 where
  pub id : ℕ
  pub key : ℕ

-- `fresh` is an identity that no node has had.
pub record Lru : Type 0 where
  pub list : List Node
  pub map : List (ℕ × ℕ)
  pub max_size : ℕ
  pub fresh : ℕ

-- `map_.find(key)`
unfoldable pub find : ℕ → List (ℕ × ℕ) → Option ℕ
find key [] = none
find key ((k, it) ∷ m) = if k == key then some it else find key m

-- `map_[key] = it`
unfoldable pub assign : ℕ → ℕ → List (ℕ × ℕ) → List (ℕ × ℕ)
assign key it [] = (key, it) ∷ []
assign key it ((k, i) ∷ m) = if k == key then (key, it) ∷ m else (k, i) ∷ assign key it m

-- `map_.erase(key)`
unfoldable pub erase_key : ℕ → List (ℕ × ℕ) → List (ℕ × ℕ)
erase_key key [] = []
erase_key key ((k, i) ∷ m) = if k == key then erase_key key m else (k, i) ∷ erase_key key m

-- `list_.erase(it)`
unfoldable pub erase : ℕ → List Node → Option (List Node)
erase it [] = none
erase it (n ∷ l) = if n.id == it then some l else (erase it l >>= λ l'. some (n ∷ l'))

-- `map_[key] = list_.insert(list_.end(), key)`
unfoldable pub insert_last : Lru → ℕ → Lru
unfolding assign
insert_last c key = record c {
  list = c.list ++ (record { id = c.fresh; key = key } ∷ []);
  map = assign key c.fresh c.map;
  fresh = suc c.fresh;
}

-- `list_.erase(it->second); it->second = list_.insert(list_.end(), key);`
unfoldable pub move_last : Lru → ℕ → ℕ → Option Lru
unfolding erase insert_last
move_last c it key = erase it c.list >>= λ l. some (insert_last (record c { list = l }) key)

unfoldable pub has : Lru → ℕ → Option (Lru × Bool)
unfolding find move_last
has c key = elim (find key c.map) [
  | none ↦ some (c, false)
  | some it ↦ move_last c it key >>= λ c'. some (c', true)
]

-- `T last = list_.front(); list_.pop_front(); map_.erase(last);`
unfoldable pub evict : Lru → Option Lru
unfolding erase_key
evict c = elim c.list [
  | [] ↦ none
  | n ∷ l ↦ some (record c { list = l; map = erase_key n.key c.map })
]

unfoldable pub put : Lru → ℕ → Option (Lru × Bool)
unfolding find move_last evict insert_last
put c key = elim (find key c.map) [
  | some it ↦ move_last c it key >>= λ c'. some (c', false)
  | none ↦ (if length c.list == c.max_size then evict c else some c) >>= λ c'.
      some (insert_last c' key, true)
]

abbrev pub make : ℕ → Lru
make max_size = record { list = []; map = []; max_size = max_size; fresh = 0 }

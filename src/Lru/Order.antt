-- ===== src/Lru/Order.antt =====
-- What a cache of at most `n` keys does to the order of use, oldest first.
use cpp_tricks.Common.{ℕ, Bool, true, false, List, [], ◌∷◌, ◌++◌, ◌==◌, ◌||◌, if◌then◌else◌, length}

unfoldable pub contains : ℕ → List ℕ → Bool
contains k [] = false
contains k (x ∷ xs) = x == k || contains k xs

unfoldable pub remove : ℕ → List ℕ → List ℕ
remove k [] = []
remove k (x ∷ xs) = if x == k then xs else x ∷ remove k xs

unfoldable pub drop_oldest : List ℕ → List ℕ
drop_oldest [] = []
drop_oldest (x ∷ xs) = xs

-- A use of a key that is there makes it the newest.
unfoldable pub touch : ℕ → List ℕ → List ℕ × Bool
unfolding contains remove
touch k keys = if contains k keys then (remove k keys ++ (k ∷ []), true) else (keys, false)

-- A new key becomes the newest, and a full cache gives up its oldest.
unfoldable pub store : ℕ → ℕ → List ℕ → List ℕ × Bool
unfolding contains remove drop_oldest
store n k keys =
    if contains k keys
    then (remove k keys ++ (k ∷ []), false)
    else ((if length keys == n then drop_oldest keys else keys) ++ (k ∷ []), true)

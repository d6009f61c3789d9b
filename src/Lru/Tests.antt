-- ===== src/Lru/Tests.antt =====
-- Runs of lru_benchmark.cc's cache at concrete keys, and what the theorems say at them.
use cpp_tricks.Common.{◌≤◌, ◌≡◌, refl, true, none, some, List, [], ◌∷◌, arith, length}
use cpp_tricks.Lru.{Lru, make, put}
use cpp_tricks.Lru.Coherent.{keys}
use cpp_tricks.Lru.Refine.{Op, do_has, do_put, calls, order_calls, calls-order}

abbrev four_calls : List Op
four_calls = do_put 4 ∷ do_put 5 ∷ do_has 4 ∷ do_put 6 ∷ []

-- 5 is the oldest when 6 comes, since 4 was asked for.
order_after : order_calls 2 four_calls [] ≡ (4 ∷ 6 ∷ [], true ∷ true ∷ true ∷ true ∷ [])
unfolding order_calls
order_after = refl

-- A cache for no keys asks an empty list for its front.
put_into_none : put (make 0) 7 ≡ none
unfolding put
put_into_none = refl

calls-order_example :
    (d : Lru) × (calls four_calls (make 2) ≡ some (d, (order_calls 2 four_calls []).1))
    × (keys d.list ≡ (order_calls 2 four_calls []).0)
    × (length (order_calls 2 four_calls []).0 ≤ 2)
calls-order_example = calls-order 2 four_calls (omega arith)

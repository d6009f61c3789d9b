-- ===== src/ForwardList/Tests.antt =====
-- Runs of crack_code_lists.cc's list at concrete elements, and what the theorems say at them.
use cpp_tricks.Common.{
  ℕ, ◌≡◌, refl, none, some, List, [], ◌∷◌, ◌==◌, if◌then◌else◌, arith, length, drop, leb, ◌-◌,
  ◌>>=◌,
}
use cpp_tricks.ForwardList.{
  Heap, ForwardList, empty_list, push_back, assign, get_nth_to_last, print, item, comma, endl,
}
use cpp_tricks.ForwardList.Chain.{first, Owns, IsFramed, last}
use cpp_tricks.ForwardList.Destroy.{IsGone}
use cpp_tricks.ForwardList.Copy.{copies, assign-Owns}
use cpp_tricks.ForwardList.Nth.{get_nth_to_last-drop}

abbrev nothing : Heap ℕ
nothing = record { cells = λ b. none; fresh = 0 }

-- The nodes 0 and 1 with 9 and 10.
abbrev two_nodes : Heap ℕ
two_nodes = record {
  cells = λ b.
      if b == 0
      then some (record { elem = 9; next = some 1 })
      else (if b == 1 then some (record { elem = 10; next = none }) else none);
  fresh = 2;
}

abbrev nine_ten : ForwardList
nine_ten = record { head_ = some 0; tail_ = some 1 }

abbrev pairs : List (ℕ × ℕ)
pairs = (0, 9) ∷ (1, 10) ∷ []

two_nodes-Owns : Owns two_nodes nine_ten pairs
unfolding last
two_nodes-Owns = record {
  at_head = refl;
  at_tail = refl;
  chain = (refl, omega arith, ((λ e. omega (arith, e)), tt), (refl, omega arith, tt, tt));
}

written :
    (push_back nothing empty_list 9 >>= λ (h, l). push_back h l 10 >>= λ (h', l'). print 2 h' l')
    ≡ some (item 9 ∷ comma ∷ item 10 ∷ endl ∷ [])
unfolding push_back print
written = refl

-- The list is assigned to itself.
assign-Owns_example :
    (h' : Heap ℕ) × (o' : ForwardList) × (assign 2 two_nodes nine_ten nine_ten ≡ some (h', o'))
    × Owns h' o' (copies 2 pairs)
    × IsGone h' pairs
    × IsFramed pairs two_nodes h'
assign-Owns_example =
    assign-Owns 2 two_nodes nine_ten nine_ten pairs pairs two_nodes-Owns two_nodes-Owns
      (omega arith) (omega arith)

get_nth_to_last-drop_example :
    get_nth_to_last 2 two_nodes nine_ten 2
    ≡ some (if leb 2 (length pairs) then first (drop (length pairs - 2) pairs) else none)
get_nth_to_last-drop_example =
    get_nth_to_last-drop 2 two_nodes nine_ten pairs 2 two_nodes-Owns (omega arith) (omega arith)

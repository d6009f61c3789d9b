-- ===== src/Lru/Refine.antt =====
-- lru_benchmark.cc: a run of Has and Put against the order of use of the keys.
use cpp_tricks.Common.{
  ℕ, ◌≤◌, ◌<◌, ◌≡◌, refl, sym, ◌∙◌, Bool, Option, some, List, [], ◌∷◌, ◌>>=◌, length, arith, subst,
}
use cpp_tricks.Lru.{Lru, find, make, has, put}
use cpp_tricks.Lru.Order.{touch, store}
use cpp_tricks.Lru.Coherent.{IsCoherent, node_of, keys, length-keys}
use cpp_tricks.Lru.Steps.{Matches, has-Matches, put-Matches}

pub data Op : Type 0 where
  do_has do_put : ℕ → Op

-- One call.
unfoldable pub call : Op → Lru → Option (Lru × Bool)
unfolding has put
call (do_has key) c = has c key
call (do_put key) c = put c key

-- A sequence of calls, and what each returned.
unfoldable pub calls : List Op → Lru → Option (Lru × List Bool)
unfolding call
calls [] c = some (c, [])
calls (op ∷ ops) c = call op c >>= λ (c', b). calls ops c' >>= λ (d, bs). some (d, b ∷ bs)

-- The same on the order of use.
unfoldable pub order_call : ℕ → Op → List ℕ → List ℕ × Bool
unfolding touch store
order_call n (do_has key) l = touch key l
order_call n (do_put key) l = store n key l

unfoldable pub order_calls : ℕ → List Op → List ℕ → List ℕ × List Bool
unfolding order_call
order_calls n [] l = (l, [])
order_calls n (op ∷ ops) l =
    let (l', b) = order_call n op l in let (k, bs) = order_calls n ops l' in (k, b ∷ bs)

pub make-IsCoherent : (n : ℕ) → 0 < n → IsCoherent (make n)
unfolding find node_of
make-IsCoherent n p = record {
  positive = p;
  bounded = omega arith;
  distinct = tt;
  agree = λ j. refl;
}

-- A call of Has or Put on a coherent cache is free of undefined accesses and leaves a coherent cache
-- of the same size; its answer and the keys it leaves are those of the order of use.
pub call-Matches :
    (c : Lru) (op : Op)
    → IsCoherent c
    → Matches c.max_size (call op c) (order_call c.max_size op (keys c.list))
unfolding call order_call
call-Matches c (do_has key) k = has-Matches c key k
call-Matches c (do_put key) k = put-Matches c key k

-- Calls on a coherent cache never go wrong, answer as the order of use does, and leave its order.
calls-IsCoherent :
    (n : ℕ) (ops : List Op) (c : Lru)
    → IsCoherent c
    → c.max_size ≡ n
    → (d : Lru) × (calls ops c ≡ some (d, (order_calls n ops (keys c.list)).1))
      × IsCoherent d
      × (keys d.list ≡ (order_calls n ops (keys c.list)).0)
      × (d.max_size ≡ n)
unfolding calls order_calls
calls-IsCoherent n [] c k e = (c, refl, k, refl, e)
calls-IsCoherent n (op ∷ ops) c k e =
    let (c', called, kc, kk, e') = call-Matches c op k in
    let answered : call op c ≡ some (c', (order_call n op (keys c.list)).1) =
      subst (λ x. call op c ≡ some (c', (order_call x op (keys c.list)).1)) e called in
    let ordered : keys c'.list ≡ (order_call n op (keys c.list)).0 =
      subst (λ x. keys c'.list ≡ (order_call x op (keys c.list)).0) e kk in
    let (d, after, kd, dk, size) = calls-IsCoherent n ops c' kc (e' ∙ e) in
    subst
      (λ ks.
        (d : Lru) × (calls (op ∷ ops) c
          ≡ some (d, (order_call n op (keys c.list)).1 ∷ (order_calls n ops ks).1))
        × IsCoherent d
        × (keys d.list ≡ (order_calls n ops ks).0)
        × (d.max_size ≡ n))
      ordered (d, rw answered (rw after refl), kd, dk, size)

-- For a size above zero, every sequence of calls of Has and Put on a new cache is free of undefined
-- accesses, returns what the order of use says, and leaves the keys of that order, at most that many.
pub calls-order :
    (n : ℕ) (ops : List Op)
    → 0 < n
    → (d : Lru) × (calls ops (make n) ≡ some (d, (order_calls n ops []).1))
      × (keys d.list ≡ (order_calls n ops []).0)
      × (length (order_calls n ops []).0 ≤ n)
calls-order n ops p =
    let (d, after, kd, dk, size) = calls-IsCoherent n ops (make n) (make-IsCoherent n p) refl in
    let bounded = kd.bounded in
    let counted = length-keys d.list in (d, after, dk, rw (sym dk) (omega arith))

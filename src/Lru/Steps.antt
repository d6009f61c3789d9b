-- ===== src/Lru/Steps.antt =====
-- lru_benchmark.cc: one call of Has or Put against the order of use of the keys.
use cpp_tricks.Common.{
  ℕ, ◌≡◌, refl, ap, sym, ◌∙◌, Bool, true, false, Option, none, some, List, [], ◌∷◌, ◌++◌, ◌==◌,
  if◌then◌else◌, length, arith, Bool-cases, Option-cases, ◌⊎◌, inl, inr, map-append, subst,
}
use cpp_tricks.Lru.{Node, Lru, find, erase_key, insert_last, move_last, evict, has, put}
use cpp_tricks.Lru.Order.{contains, remove, drop_oldest, touch, store}
use cpp_tricks.Lru.Coherent.{
  IsCoherent, IsDistinct, node_of, keys, without, keys-without, contains-none, contains-found,
  erase-node_of, node_of-without, without-IsDistinct, length-without, insert_last-IsCoherent,
  length-keys, find-erase_key, node_of-tail, node_of-tail_none,
}

-- A call that returned a coherent cache with the keys and the answer of `o`.
abbrev pub Matches : ℕ → Option (Lru × Bool) → List ℕ × Bool → Type 0
Matches n r o =
    (c : Lru) × (r ≡ some (c, o.1)) × IsCoherent c × (keys c.list ≡ o.0) × (c.max_size ≡ n)

keys-insert_last : (c : Lru) (key : ℕ) → keys (insert_last c key).list ≡ keys c.list ++ (key ∷ [])
unfolding insert_last
keys-insert_last c key = map-append (λ n. n.key) c.list _

-- A node that is there moves to the end.
move_last-IsCoherent :
    (c : Lru) (key it : ℕ)
    → IsCoherent c
    → node_of key c.list ≡ some it
    → (d : Lru) × (move_last c it key ≡ some d)
      × IsCoherent d
      × (keys d.list ≡ remove key (keys c.list) ++ (key ∷ []))
      × (d.max_size ≡ c.max_size)
unfolding move_last insert_last
move_last-IsCoherent c key it k e =
    let l = without key c.list in
    (
      insert_last (record c { list = l }) key,
      rw (erase-node_of key it c.fresh c.list k.distinct e) refl,
      insert_last-IsCoherent (record c { list = l }) key k.positive
          (let shorter = length-without key it c.list e in let bounded = k.bounded in omega arith)
          (without-IsDistinct key c.fresh c.list k.distinct)
          (rw (node_of-without key key c.fresh c.list k.distinct) (ground arith))
          (λ j ne.
            k.agree j ∙ sym (node_of-without j key c.fresh c.list k.distinct ∙ ground (arith, ne))),
      keys-insert_last (record c { list = l }) key
          ∙ ap (λ ks. ks ++ (key ∷ [])) (keys-without key c.list),
      refl,
    )

-- Has and Put on a key that is there, and on one that is not.
has-absent : (c : Lru) (key : ℕ) → find key c.map ≡ none → has c key ≡ some (c, false)
unfolding has
has-absent c key e = rw (has, e) refl

has-present :
    (c d : Lru) (key it : ℕ)
    → find key c.map ≡ some it
    → move_last c it key ≡ some d
    → has c key ≡ some (d, true)
unfolding has
has-present c d key it e f = rw (has, e, f) refl

put-present :
    (c d : Lru) (key it : ℕ)
    → find key c.map ≡ some it
    → move_last c it key ≡ some d
    → put c key ≡ some (d, false)
unfolding put
put-present c d key it e f = rw (put, e, f) refl

put-room :
    (c : Lru) (key : ℕ)
    → find key c.map ≡ none
    → length c.list == c.max_size ≡ false
    → put c key ≡ some (insert_last c key, true)
unfolding put
put-room c key e f = rw (put, e, f) refl

put-full :
    (c d : Lru) (key : ℕ)
    → find key c.map ≡ none
    → length c.list == c.max_size ≡ true
    → evict c ≡ some d
    → put c key ≡ some (insert_last d key, true)
unfolding put
put-full c d key e f g = rw (put, e, f, g) refl

touch-absent : (k : ℕ) (l : List ℕ) → contains k l ≡ false → touch k l ≡ (l, false)
unfolding touch
touch-absent k l e = rw e refl

touch-present :
    (k : ℕ) (l : List ℕ) → contains k l ≡ true → touch k l ≡ (remove k l ++ (k ∷ []), true)
unfolding touch
touch-present k l e = rw e refl

store-present :
    (n k : ℕ) (l : List ℕ) → contains k l ≡ true → store n k l ≡ (remove k l ++ (k ∷ []), false)
unfolding store
store-present n k l e = rw e refl

store-absent :
    (n k : ℕ) (l : List ℕ) (b : Bool)
    → contains k l ≡ false
    → length l == n ≡ b
    → store n k l ≡ ((if b then drop_oldest l else l) ++ (k ∷ []), true)
unfolding store
store-absent n k l b e f = rw (e, f) refl

pub has-Matches :
    (c : Lru) (key : ℕ) → IsCoherent c → Matches c.max_size (has c key) (touch key (keys c.list))
has-Matches c key k = elim (Option-cases (node_of key c.list)) [
  | inl e ↦
      subst (λ o. Matches c.max_size (has c key) o)
        (sym (touch-absent key (keys c.list) (contains-none key c.list e)))
        (c, has-absent c key (k.agree key ∙ e), k, refl, refl)
  | inr (it, e) ↦
      let (d, moved, kd, kk, n) = move_last-IsCoherent c key it k e in
      subst (λ o. Matches c.max_size (has c key) o)
        (sym (touch-present key (keys c.list) (contains-found key it c.list e)))
        (d, has-present c d key it (k.agree key ∙ e) moved, kd, kk, n)
]

front-cases : (l : List Node) → (l ≡ []) ⊎ ((n : Node) × (r : List Node) × (l ≡ n ∷ r))
front-cases [] = inl refl
front-cases (n ∷ r) = inr (n, r, refl)

-- The oldest node leaves a full cache, and the map forgets its key.
evict-front :
    (c : Lru) (n : Node) (l : List Node)
    → c.list ≡ n ∷ l
    → evict c ≡ some (record c { list = l; map = erase_key n.key c.map })
unfolding evict
evict-front c n l e = rw (evict, e) refl

evict-IsCoherent :
    (c : Lru) (key : ℕ)
    → IsCoherent c
    → node_of key c.list ≡ none
    → length c.list == c.max_size ≡ true
    → (d : Lru) × (evict c ≡ some d)
      × IsCoherent (insert_last d key)
      × (keys d.list ≡ drop_oldest (keys c.list))
      × ((insert_last d key).max_size ≡ c.max_size)
unfolding insert_last node_of drop_oldest
evict-IsCoherent c key k e full = elim (front-cases c.list) [
  | inl empty ↦ let positive = k.positive in ground (arith, full, positive, ap length empty)
  | inr (n, l, le) ↦
      let (lt, nk, ne, distinct) = subst (λ x. IsDistinct c.fresh x) le k.distinct in
      let d : Lru = record c { list = l; map = erase_key n.key c.map } in
      (
        d,
        evict-front c n l le,
        insert_last-IsCoherent d key k.positive
            (let bounded = k.bounded in let shorter = ap length le in omega arith) distinct
            (node_of-tail_none key n l (subst (λ x. node_of key x ≡ none) le e))
            (λ j other.
              find-erase_key j n.key c.map
              ∙ (ap (λ o. if n.key == j then none else o) (k.agree j ∙ ap (node_of j) le)
                  ∙ node_of-tail j n l nk)),
        rw le refl,
        refl,
      )
]

pub put-Matches :
    (c : Lru) (key : ℕ)
    → IsCoherent c
    → Matches c.max_size (put c key) (store c.max_size key (keys c.list))
unfolding insert_last
put-Matches c key k = elim (Option-cases (node_of key c.list)) [
  | inr (it, e) ↦
      let (d, moved, kd, kk, n) = move_last-IsCoherent c key it k e in
      subst (λ o. Matches c.max_size (put c key) o)
        (sym (store-present c.max_size key (keys c.list) (contains-found key it c.list e)))
        (d, put-present c d key it (k.agree key ∙ e) moved, kd, kk, n)
  | inl e ↦ elim (Bool-cases (length c.list == c.max_size)) [
    | inl full ↦
        let (d, evicted, kd, kk, n) = evict-IsCoherent c key k e full in
        subst (λ o. Matches c.max_size (put c key) o)
          (sym (
            store-absent c.max_size key (keys c.list) true (contains-none key c.list e)
              (rw (length-keys c.list) full)))
          (
            insert_last d key,
            put-full c d key (k.agree key ∙ e) full evicted,
            kd,
            keys-insert_last d key ∙ ap (λ ks. ks ++ (key ∷ [])) kk,
            n,
          )
    | inr room ↦
        subst (λ o. Matches c.max_size (put c key) o)
          (sym (
            store-absent c.max_size key (keys c.list) false (contains-none key c.list e)
              (rw (length-keys c.list) room)))
          (
            insert_last c key,
            put-room c key (k.agree key ∙ e) room,
            insert_last-IsCoherent c key k.positive
                (let bounded = k.bounded in ground (arith, room, bounded)) k.distinct e
                (λ j ne. k.agree j),
            keys-insert_last c key,
            refl,
          )
  ]
]

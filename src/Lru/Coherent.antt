-- ===== src/Lru/Coherent.antt =====
-- lru_benchmark.cc: the map and the list speak of the same nodes.
use cpp_tricks.Common.{
  ℕ, suc, ◌≤◌, ◌<◌, ◌≡◌, ◌≢◌, refl, ap, sym, ◌∙◌, true, false, Option, none, some, List, [], ◌∷◌,
  ◌++◌, ◌==◌, if◌then◌else◌, length, length-append, arith, Bool-cases, Option-cases, inl, inr, map,
  subst,
}
use cpp_tricks.Lru.{Node, Lru, find, assign, erase_key, erase, insert_last}
use cpp_tricks.Lru.Order.{contains, remove}

-- The node of a key.
unfoldable pub node_of : ℕ → List Node → Option ℕ
node_of key [] = none
node_of key (n ∷ l) = if n.key == key then some n.id else node_of key l

abbrev pub keys : List Node → List ℕ
keys = map (λ n. n.key)

-- No key and no identity stands twice, and the identities are below `fresh`.
abbrev pub IsDistinct : ℕ → List Node → Type 0
IsDistinct fresh [] = Unit {0}
IsDistinct fresh (n ∷ l) =
    (n.id < fresh) × (node_of n.key l ≡ none) × (erase n.id l ≡ none) × IsDistinct fresh l

pub record IsCoherent (c : Lru) : Type 0 where
  pub positive : 0 < c.max_size
  pub bounded : length c.list ≤ c.max_size
  pub distinct : IsDistinct c.fresh c.list
  pub agree : (key : ℕ) → find key c.map ≡ node_of key c.list

find-assign :
    (j key it : ℕ) (m : List (ℕ × ℕ))
    → find j (assign key it m) ≡ (if key == j then some it else find j m)
unfolding find assign
find-assign j key it [] = refl
find-assign j key it ((k, i) ∷ m) = ground (arith, find-assign j key it m)

pub find-erase_key :
    (j key : ℕ) (m : List (ℕ × ℕ))
    → find j (erase_key key m) ≡ (if key == j then none else find j m)
unfolding find erase_key
find-erase_key j key [] = ground arith
find-erase_key j key ((k, i) ∷ m) = ground (arith, find-erase_key j key m)

node_of-append :
    (j f key : ℕ) (l : List Node)
    → node_of j (l ++ (record { id = f; key = key } ∷ []))
      ≡ (elim (node_of j l) [ none ↦ if key == j then some f else none | some i ↦ some i ])
unfolding node_of
node_of-append j f key [] = refl
node_of-append j f key (x ∷ l) = ground (arith, node_of-append j f key l)

node_of-append_other :
    (j f key : ℕ) (l : List Node)
    → j ≢ key
    → node_of j (l ++ (record { id = f; key = key } ∷ [])) ≡ node_of j l
node_of-append_other j f key l ne = elim (Option-cases (node_of j l)) [
  | inl e ↦ rw (node_of-append j f key l, e) (ground (arith, ne))
  | inr (i, e) ↦ rw (node_of-append j f key l, e) refl
]

-- The list without the node of a key.
unfoldable pub without : ℕ → List Node → List Node
without key [] = []
without key (n ∷ l) = if n.key == key then l else n ∷ without key l

pub keys-without : (key : ℕ) (l : List Node) → keys (without key l) ≡ remove key (keys l)
unfolding without remove
keys-without key [] = refl
keys-without key (n ∷ l) = ground (arith, keys-without key l)

pub contains-none : (key : ℕ) (l : List Node) → node_of key l ≡ none → contains key (keys l) ≡ false
unfolding node_of contains
contains-none key [] e = refl
contains-none key (n ∷ l) e = ground (arith, contains-none key l)

pub contains-found :
    (key it : ℕ) (l : List Node) → node_of key l ≡ some it → contains key (keys l) ≡ true
unfolding node_of contains
contains-found key it [] e = ground (arith, e)
contains-found key it (n ∷ l) e = ground (arith, contains-found key it l)

-- The node that the map knows for a key is the one the list has for it.
pub erase-node_of :
    (key it f : ℕ) (l : List Node)
    → IsDistinct f l
    → node_of key l ≡ some it
    → erase it l ≡ some (without key l)
unfolding node_of erase without
erase-node_of key it f [] d e = ground (arith, e)
erase-node_of key it f (n ∷ l) (lt, nk, ne, d) e = ground (arith, erase-node_of key it f l d)

pub node_of-without :
    (j key f : ℕ) (l : List Node)
    → IsDistinct f l
    → node_of j (without key l) ≡ (if key == j then none else node_of j l)
unfolding node_of without
node_of-without j key f [] d = ground arith
node_of-without j key f (n ∷ l) (lt, nk, ne, d) = ground (arith, node_of-without j key f l d)

-- An identity that no node of the list has.
erase-cons_none :
    (i : ℕ) (n : Node) (l : List Node) → erase i (n ∷ l) ≡ none → (n.id ≢ i) × (erase i l ≡ none)
unfolding erase
erase-cons_none i n l e = elim (Bool-cases (n.id == i)) [
  | inl t ↦ ground (arith, t, e)
  | inr t ↦ elim (Option-cases (erase i l)) [
    | inl none_l ↦ ((λ same. ground (arith, same, t)), none_l)
    | inr (l', found) ↦ ground (arith, t, found, e)
  ]
]

erase-cons :
    (i : ℕ) (n : Node) (l : List Node) → n.id ≢ i → erase i l ≡ none → erase i (n ∷ l) ≡ none
unfolding erase
erase-cons i n l ne e = ground (arith, ne, e)

erase-without : (i key : ℕ) (l : List Node) → erase i l ≡ none → erase i (without key l) ≡ none
unfolding without
erase-without i key [] e = e
erase-without i key (n ∷ l) e =
    let (ne, e') = erase-cons_none i n l e in
    elim (Bool-cases (n.key == key)) [
      | inl t ↦ rw t e'
      | inr t ↦ rw t (erase-cons i n (without key l) ne (erase-without i key l e'))
    ]

pub without-IsDistinct : (key f : ℕ) (l : List Node) → IsDistinct f l → IsDistinct f (without key l)
unfolding without
without-IsDistinct key f [] d = d
without-IsDistinct key f (n ∷ l) (lt, nk, ne, d) = elim (Bool-cases (n.key == key)) [
  | inl t ↦ rw t d
  | inr t ↦ rw t (
    lt,
    (node_of-without n.key key f l d ∙ ground (arith, nk)),
    erase-without n.id key l ne,
    without-IsDistinct key f l d,
  )
]

pub length-without :
    (key it : ℕ) (l : List Node) → node_of key l ≡ some it → suc (length (without key l)) ≡ length l
unfolding node_of without
length-without key it [] e = ground (arith, e)
length-without key it (n ∷ l) e = elim (Bool-cases (n.key == key)) [
  | inl t ↦ rw t refl
  | inr t ↦ rw t (ap suc (length-without key it l (ground (arith, t, e))))
]

erase-append :
    (i : ℕ) (l : List Node) (n : Node)
    → erase i l ≡ none
    → i ≢ n.id
    → erase i (l ++ (n ∷ [])) ≡ none
erase-append i [] n e ne = erase-cons i n [] (λ same. ne (sym same)) e
erase-append i (x ∷ l) n e ne =
    let (ne', e') = erase-cons_none i x l e in
    erase-cons i x (l ++ (n ∷ [])) ne' (erase-append i l n e' ne)

erase-fresh : (f g : ℕ) (l : List Node) → IsDistinct f l → f ≤ g → erase g l ≡ none
unfolding erase
erase-fresh f g [] d le = refl
erase-fresh f g (n ∷ l) (lt, nk, ne, d) le =
    ground (arith, erase-cons g n l, erase-fresh f g l d le)

pub append-IsDistinct :
    (f key : ℕ) (l : List Node)
    → IsDistinct f l
    → node_of key l ≡ none
    → IsDistinct (suc f) (l ++ (record { id = f; key = key } ∷ []))
unfolding node_of erase
append-IsDistinct f key [] d e = (omega arith, refl, refl, tt)
append-IsDistinct f key (n ∷ l) (lt, nk, ne, d) e = elim (Bool-cases (n.key == key)) [
  | inl t ↦ ground (arith, t, e)
  | inr t ↦ (
    omega arith,
    rw (node_of-append n.key f key l, nk) (ground (arith, t)),
    erase-append n.id l _ ne (λ same. ground (arith, same, lt)),
    append-IsDistinct f key l d (ground (arith, t, e)),
  )
]

-- A key that no node has is put at the end, where the map already agrees on the other keys.
pub insert_last-IsCoherent :
    (c : Lru) (key : ℕ)
    → 0 < c.max_size
    → length c.list < c.max_size
    → IsDistinct c.fresh c.list
    → node_of key c.list ≡ none
    → ((j : ℕ) → j ≢ key → find j c.map ≡ node_of j c.list)
    → IsCoherent (insert_last c key)
unfolding insert_last node_of
insert_last-IsCoherent c key p b d e agree = record {
  positive = p;
  bounded = rw (length-append c.list) (omega arith);
  distinct = append-IsDistinct c.fresh key c.list d e;
  agree = λ j. elim (Bool-cases (key == j)) [
    | inl t ↦
        let same : key ≡ j = ground (arith, t) in
        let absent : node_of j c.list ≡ none = subst (λ x. node_of x c.list ≡ none) same e in
        rw (find-assign j key c.fresh c.map, node_of-append j c.fresh key c.list, absent, t) refl
    | inr t ↦
        let other : j ≢ key = λ same. ground (arith, t, same) in
        rw (find-assign j key c.fresh c.map, node_of-append_other j c.fresh key c.list other, t)
          (agree j other)
  ];
}

pub length-keys : (l : List Node) → length (keys l) ≡ length l
length-keys [] = refl
length-keys (n ∷ l) = ap suc (length-keys l)

-- The nodes behind the first.
pub node_of-tail_none :
    (key : ℕ) (n : Node) (l : List Node) → node_of key (n ∷ l) ≡ none → node_of key l ≡ none
unfolding node_of
node_of-tail_none key n l e = ground (arith, e)

pub node_of-tail :
    (j : ℕ) (n : Node) (l : List Node)
    → node_of n.key l ≡ none
    → (if n.key == j then none else node_of j (n ∷ l)) ≡ node_of j l
unfolding node_of
node_of-tail j n l e = ground (arith, e)

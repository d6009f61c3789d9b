-- ===== src/Knapsack/Optimal.antt =====
-- w3_lession_code.cc: the plain recursion finds the best value.
use cpp_tricks.Common.{
  ℕ, zero, suc, ◌+◌, ◌-◌, ◌≤◌, ◌<◌, max, ◌≡◌, refl, some, List, [], ◌∷◌, arith, ltb, ◌==◌, length,
  get_elem?, get_elem?_of_lt, map, Bool-cases, inl, inr, ap, subst, ltb→lt,
}
use cpp_tricks.Knapsack.{Item, knap_sack_exp, knap_sack}

-- A choice among the first `n` items, with its weight and its value.
pub data Choice (items : List Item) : ℕ → ℕ → ℕ → Type 0 where
  start : Choice items zero 0 0
  skip : {n w v : ℕ} → Choice items n w v → Choice items (suc n) w v
  take_item :
      {n w v : ℕ} (item : Item)
      → get_elem? items n ≡ some item
      → Choice items n w v
      → Choice items (suc n) (item.w + w) (item.v + v)

-- The value `r` is reached within the bound, and no choice within the bound has a higher one.
pub record IsBest (items : List Item) (w_bound n r : ℕ) : Type 0 where
  pub weight : ℕ
  pub fits : weight ≤ w_bound
  pub choice : Choice items n weight r
  pub top : (w v : ℕ) → Choice items n w v → w ≤ w_bound → v ≤ r

-- An item that weighs nothing is worth nothing.
abbrev pub IsSane : List Item → Type 0
IsSane items = (i : ℕ) (item : Item) → get_elem? items i ≡ some item → item.w ≡ 0 → item.v ≡ 0

pub nothing : (items : List Item) (n : ℕ) → Choice items n 0 0
nothing items zero = start
nothing items (suc n) = skip (nothing items n)

weightless : (items : List Item) → IsSane items → {n w v : ℕ} → Choice items n w v → w ≡ 0 → v ≡ 0
weightless items sane start e = refl
weightless items sane (skip c) e = weightless items sane c e
weightless items sane (take_item {n} item here c) e =
    omega (arith, sane n item here, weightless items sane c)

top_start : {items : List Item} {w v : ℕ} → Choice items 0 w v → v ≤ 0
top_start start = omega arith

-- An item heavier than the bound is in no choice within it.
IsBest-heavy :
    (items : List Item) (w_bound n : ℕ) (item : Item)
    → get_elem? items n ≡ some item
    → w_bound < item.w
    → {r : ℕ} → IsBest items w_bound n r
    → IsBest items w_bound (suc n) r
IsBest-heavy items w_bound n item here h {r} b = record {
  weight = b.weight;
  fits = b.fits;
  choice = skip b.choice;
  top = above;
}
  where
    above : (w v : ℕ) → Choice items (suc n) w v → w ≤ w_bound → v ≤ r
    above w v (skip c) q = b.top w v c q
    above w v (take_item other there c) q =
        let same : other ≡ item = cc in absurd (omega (arith, ap (λ (x : Item). x.w) same))

-- With or without an item that fits: the better of the two.
IsBest-light :
    (items : List Item) (w_bound n : ℕ) (item : Item)
    → get_elem? items n ≡ some item
    → item.w ≤ w_bound
    → {a b : ℕ} → IsBest items (w_bound - item.w) n a
    → IsBest items w_bound n b
    → IsBest items w_bound (suc n) (max (a + item.v) b)
IsBest-light items w_bound n item here h {a} {b} p q = elim (Bool-cases (ltb b (a + item.v))) [
  | inl keep ↦
      let e : item.v + a ≡ max (a + item.v) b = ground arith in
      record {
        weight = item.w + p.weight;
        fits = omega (arith, p.fits);
        choice = subst (Choice items (suc n) (item.w + p.weight)) e (take_item item here p.choice);
        top = above;
      }
  | inr leave ↦
      let e : b ≡ max (a + item.v) b = ground arith in
      record {
        weight = q.weight;
        fits = q.fits;
        choice = subst (Choice items (suc n) q.weight) e (skip q.choice);
        top = above;
      }
]
  where
    above : (w v : ℕ) → Choice items (suc n) w v → w ≤ w_bound → v ≤ max (a + item.v) b
    above w v (skip c) l = omega (arith, q.top w v c l)
    above w v (take_item {w = w'} {v = v'} other there c) l =
        let same : other ≡ item = cc in
        let ew : other.w ≡ item.w = ap (λ (x : Item). x.w) same in
        let ev : other.v ≡ item.v = ap (λ (x : Item). x.v) same in
        omega (arith, p.top w' v' c (omega arith))

-- On sane items the recursion over the first `n` items, all in range, returns the best value.
pub knap_sack_exp-IsBest :
    (items : List Item) (w_bound n : ℕ)
    → n ≤ length items
    → IsSane items
    → (r : ℕ) × (knap_sack_exp items w_bound n ≡ some r) × IsBest items w_bound n r
unfolding knap_sack_exp
knap_sack_exp-IsBest items w_bound zero h sane = (
  0,
  refl,
  record { weight = 0; fits = omega arith; choice = start; top = λ w v c q. top_start c },
)
knap_sack_exp-IsBest items w_bound (suc n) h sane = elim (Bool-cases (w_bound == 0)) [
  | inl full ↦ (
    0,
    rw full refl,
    record {
      weight = 0;
      fits = omega arith;
      choice = nothing items (suc n);
      top = λ w v c q. omega (arith, weightless items sane c (ground arith));
    },
  )
  | inr room ↦
      let (item, here) = get_elem?_of_lt items n (omega arith) in
      let (b, eb, bb) = knap_sack_exp-IsBest items w_bound n (omega arith) sane in
      elim (Bool-cases (ltb w_bound item.w)) [
        | inl heavy ↦ (
          b,
          rw (room, here, heavy) eb,
          IsBest-heavy items w_bound n item here (ltb→lt _ _ heavy) bb,
        )
        | inr light ↦
            let (a, ea, ba) = knap_sack_exp-IsBest items (w_bound - item.w) n (omega arith) sane in
            (
              max (a + item.v) b,
              rw (room, here, light, ea, eb) refl,
              IsBest-light items w_bound n item here (ground arith) ba bb,
            )
      ]
]

get_elem?-map {ℓ κ} :
    {A : Type ℓ} {B : Type κ} (f : A → B) (xs : List A) (i : ℕ) {x : A}
    → get_elem? xs i ≡ some x
    → get_elem? (map f xs) i ≡ some (f x)
get_elem?-map f [] i e = cc
get_elem?-map f (y ∷ xs) zero e = cc
get_elem?-map f (y ∷ xs) (suc i) e = get_elem?-map f xs i e

-- On two arrays that hold the weights and the values of the items, `knapSack` returns what
-- `knapSackExp` returns.
pub knap_sack-exp :
    (items : List Item) (w_bound n : ℕ)
    → n ≤ length items
    → knap_sack w_bound (map (λ i. i.w) items) (map (λ i. i.v) items) n
      ≡ knap_sack_exp items w_bound n
unfolding knap_sack knap_sack_exp
knap_sack-exp items w_bound zero h = refl
knap_sack-exp items w_bound (suc n) h =
    let (item, here) = get_elem?_of_lt items n (omega arith) in
    let ew = get_elem?-map (λ (i : Item). i.w) items n here in
    let ev = get_elem?-map (λ (i : Item). i.v) items n here in
    rw
      (
        here,
        ew,
        ev,
        knap_sack-exp items w_bound n (omega arith),
        knap_sack-exp items (w_bound - item.w) n (omega arith),
      )
      refl

-- ===== src/Growing/Longest.antt =====
-- dyn_pro_test.cc, `TEST(Dyn, MaxGrow)`: the lengths are those of longest growing subsequences.
use cpp_tricks.Common.{
  ℕ, zero, suc, ◌+◌, ◌≤◌, ◌<◌, max, ◌≡◌, refl, ap, sym, ◌∙◌, subst, true, false, some, List, ltb,
  ltb→lt, if◌then◌else◌, length, get_elem?, set, replicate, length-set, length-replicate,
  get_elem?-set_self, get_elem?-set_ne, get_elem?_of_lt, some_injective, ℕ_discrete, Bool-cases,
  inl, inr, arith,
}
use cpp_tricks.Growing.{extend_from, grow_from, longest}

-- A growing subsequence of `n` elements that ends at position i; with `m`, its element before that
-- stands in front of position m.
pub data Growing (v : List ℕ) : ℕ → ℕ → ℕ → Type 0 where
  alone : {m i : ℕ} → Growing v m i 1
  behind :
      {m i : ℕ} (j n x y : ℕ)
      → j < m
      → get_elem? v j ≡ some x
      → get_elem? v i ≡ some y
      → x < y
      → Growing v j j n
      → Growing v m i (suc n)

-- The longest of them has `r` elements.
abbrev pub IsLongest : List ℕ → ℕ → ℕ → ℕ → Type 0
IsLongest v m i r = Growing v m i r × ((n : ℕ) → Growing v m i n → n ≤ r)

-- Nothing stands in front of the array.
none-IsLongest : (v : List ℕ) (i : ℕ) → IsLongest v 0 i 1
none-IsLongest v i = (alone, above)
  where
    above : (n : ℕ) → Growing v 0 i n → n ≤ 1
    above n alone = omega arith
    above n (behind j k x y lt e f less g) = absurd (omega (arith, lt))

later : (v : List ℕ) (m i n : ℕ) → Growing v m i n → Growing v (suc m) i n
later v m i n alone = alone
later v m i n (behind j k x y lt e f less g) = behind j k x y (omega (arith, lt)) e f less g

-- One more position may come before the end, if its element is smaller.
round-IsLongest :
    (v : List ℕ) (j i x y own other : ℕ)
    → get_elem? v j ≡ some x
    → get_elem? v i ≡ some y
    → IsLongest v j i own
    → IsLongest v j j other
    → IsLongest v (suc j) i (if ltb x y then max own (1 + other) else own)
round-IsLongest v j i x y own other e f (g, top) (h, top') = elim (Bool-cases (ltb x y)) [
  | inl t ↦ rw t (reached t, above t)
  | inr o ↦ rw o (later v j i own g, above_own o)
]
  where
    reached : ltb x y ≡ true → Growing v (suc j) i (max own (1 + other))
    reached t = elim (Bool-cases (ltb own (1 + other))) [
      | inl more ↦
          let lt = ltb→lt own (1 + other) more in
          let same : suc other ≡ max own (1 + other) = omega (arith, lt) in
          subst (Growing v (suc j) i) same (behind j other x y (omega arith) e f (ltb→lt x y t) h)
      | inr less ↦
          let same : own ≡ max own (1 + other) = ground (arith, less) in
          subst (Growing v (suc j) i) same (later v j i own g)
    ]

    above : ltb x y ≡ true → (n : ℕ) → Growing v (suc j) i n → n ≤ max own (1 + other)
    above t n alone = omega arith
    above t n (behind q k a b lt ea eb less s) = elim (ℕ_discrete q j) [
      | yes same ↦ let le = top' k (subst (λ z. Growing v z z k) same s) in omega (arith, le)
      | no ne ↦
          let le = top (suc k) (behind q k a b (omega (arith, lt, ne)) ea eb less s) in
          omega (arith, le)
    ]

    above_own : ltb x y ≡ false → (n : ℕ) → Growing v (suc j) i n → n ≤ own
    above_own o n alone = top 1 alone
    above_own o n (behind q k a b lt ea eb less s) = elim (ℕ_discrete q j) [
      | yes same ↦
          let ex : x ≡ a = some_injective (sym e ∙ ap (get_elem? v) (sym same) ∙ ea) in
          let ey : y ≡ b = some_injective (sym f ∙ eb) in absurd (ground (arith, o, ex, ey, less))
      | no ne ↦ top (suc k) (behind q k a b (omega (arith, lt, ne)) ea eb less s)
    ]

-- The entries in front of position i are the longest lengths.
abbrev pub IsFilled : List ℕ → List ℕ → ℕ → Type 0
IsFilled v d i =
    (length d ≡ length v)
    × ((q : ℕ) → q < i → (r : ℕ) × (get_elem? d q ≡ some r) × IsLongest v q q r)

set-IsFilled : (v d : List ℕ) (i r : ℕ) → IsFilled v d i → IsFilled v (set d i r) i
set-IsFilled v d i r (sized, at) = (
  length-set d i r ∙ sized,
  λ q lt.
      let (s, e, k) = at q lt in
      (s, get_elem?-set_ne d r (λ z. absurd (omega (arith, z, lt))) ∙ e, k),
)

-- A round of the inner loop writes at position i only.
extend-round :
    (v d : List ℕ) (i x y own next : ℕ)
    → i < length d
    → get_elem? d i ≡ some own
    → IsFilled v d i
    → (get_elem? (if ltb x y then set d i next else d) i ≡ some (if ltb x y then next else own))
      × IsFilled v (if ltb x y then set d i next else d) i
extend-round v d i x y own next lt here k = elim (Bool-cases (ltb x y)) [
  | inl t ↦ rw t (get_elem?-set_self d i next lt, set-IsFilled v d i next k)
  | inr o ↦ rw o (here, k)
]

extend_from-IsFilled :
    (k j i : ℕ) (v d : List ℕ) (own : ℕ)
    → j + k ≡ i
    → i < length v
    → IsFilled v d i
    → get_elem? d i ≡ some own
    → IsLongest v j i own
    → (d' : List ℕ) × (extend_from k j i v d ≡ some d') × IsFilled v d' (suc i)
unfolding extend_from
extend_from-IsFilled zero j i v d own sum lt (sized, at) here best = (d, refl, (sized, entry))
  where
    entry : (q : ℕ) → q < suc i → (r : ℕ) × (get_elem? d q ≡ some r) × IsLongest v q q r
    entry q le = elim (ℕ_discrete i q) [
      | yes same ↦
          let at_end : j ≡ i = omega (arith, sum) in
          subst (λ z. (r : ℕ) × (get_elem? d z ≡ some r) × IsLongest v z z r) same
            (own, here, subst (λ z. IsLongest v z i own) at_end best)
      | no ne ↦ at q (omega (arith, le, ne))
    ]
extend_from-IsFilled (suc k) j i v d own sum lt (sized, at) here best =
    let (x, ex) = get_elem?_of_lt v j (omega (arith, sum, lt)) in
    let (y, ey) = get_elem?_of_lt v i lt in
    let (other, eo, best') = at j (omega (arith, sum)) in
    let (here', k') =
      extend-round v d i x y own (max own (1 + other)) (omega (arith, sized, lt)) here
        (sized, at) in
    let (d', run, filled) =
      extend_from-IsFilled k (suc j) i v (if ltb x y then set d i (max own (1 + other)) else d) _
        (omega (arith, sum)) lt k' here' (round-IsLongest v j i x y own other ex ey best best') in
    (d', rw (extend_from, ex, ey, here, eo) run, filled)

grow_from-IsFilled :
    (k i : ℕ) (v d : List ℕ)
    → i + k ≡ length v
    → IsFilled v d i
    → (d' : List ℕ) × (grow_from k i v d ≡ some d') × IsFilled v d' (length v)
unfolding grow_from
grow_from-IsFilled zero i v d sum (sized, at) =
    (d, refl, (sized, λ q lt. at q (omega (arith, lt, sum))))
grow_from-IsFilled (suc k) i v d sum filled =
    let sized = filled.0 in
    let (d1, run1, filled1) =
      extend_from-IsFilled i 0 i v (set d i 1) 1 (omega arith) (omega (arith, sum))
        (set-IsFilled v d i 1 filled) (get_elem?-set_self d i 1 (omega (arith, sum, sized)))
        (none-IsLongest v i) in
    let (d2, run2, filled2) = grow_from-IsFilled k (suc i) v d1 (omega (arith, sum)) filled1 in
    (d2, rw (grow_from, run1) run2, filled2)

-- On every array, the loops have no access out of range, and each entry of the result is the number
-- of elements of a longest growing subsequence that ends at its position.
pub longest-IsFilled : (v : List ℕ) → (d : List ℕ) × (longest v ≡ some d) × IsFilled v d (length v)
unfolding longest
longest-IsFilled v =
    grow_from-IsFilled (length v) 0 v (replicate (length v) 0) (omega arith)
      (length-replicate (length v) 0, λ q lt. absurd (omega (arith, lt)))

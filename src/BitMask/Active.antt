-- ===== src/BitMask/Active.antt =====
-- bit_masking.cc: what setActive stores, and what traverse finds.
use cpp_tricks.Common.{
  ℕ, zero, suc, ◌+◌, ◌-◌, ◌*◌, ◌/◌, ◌%◌, ◌<◌, ◌≡◌, refl, sym, subst, Bool, true, false, Option,
  none, some, List, [], ◌∷◌, ◌++◌, ◌==◌, ◌||◌, if◌then◌else◌, arith, Bool-cases, inl, inr, ap, ap₂,
  ◌∙◌, length, get_elem?, set, replicate, set_bit, test_bit, test_bit-set_bit, set_bit-byte,
  get_elem?-set-cases, get_elem?_of_lt, length-set, get_elem?-set_self, get_elem?-set_ne,
  lt_of_get_elem?, ℕ_discrete,
}
use cpp_tricks.BitMask.{
  Leaf, new_leaf, set_active, store_at, traverse_cell, traverse_from, traverse,
}
use cpp_tricks.BitMask.Offsets.{to_offset-digits}

unfoldable pub byte_bit : Option ℕ → ℕ → Bool
byte_bit none i = false
byte_bit (some l) i = test_bit i l

-- The bit of an offset.
abbrev pub is_active : List ℕ → ℕ → Bool
is_active masks o = byte_bit (get_elem? masks (o / 8)) (o % 8)

unfoldable pub filter : (ℕ → Bool) → List ℕ → List ℕ
filter p [] = []
filter p (x ∷ xs) = let rest = filter p xs in if p x then x ∷ rest else rest

-- `w`, `w + 1`, … , `n` of them.
unfoldable pub range : ℕ → ℕ → List ℕ
range w zero = []
range w (suc n) = w ∷ range (w + 1) n

range-add : (w n m : ℕ) → range w (n + m) ≡ range w n ++ range (w + n) m
unfolding range
range-add w zero m = ap₂ range (omega arith) (omega arith)
range-add w (suc n) m =
    let there : w + 1 + n ≡ w + suc n = omega arith in
    let grown : suc n + m ≡ suc (n + m) = omega arith in
    ap (range w) grown
    ∙ ap (◌∷◌ w) (range-add (w + 1) n m ∙ ap (λ v. range (w + 1) n ++ range v m) there)

filter-append : (p : ℕ → Bool) (xs ys : List ℕ) → filter p (xs ++ ys) ≡ filter p xs ++ filter p ys
unfolding filter
filter-append p [] ys = refl
filter-append p (x ∷ xs) ys = elim (Bool-cases (p x)) [
  | inl t ↦ rw (t, filter-append p xs ys) refl
  | inr f ↦ rw (f, filter-append p xs ys) refl
]

traverse_cell-filter :
    (p : ℕ → Bool) (k l i w : ℕ)
    → ((j : ℕ) → j < k → p (w + j) ≡ test_bit (i + j) l)
    → traverse_cell k l i w ≡ filter p (range w k)
unfolding traverse_cell filter range
traverse_cell-filter p zero l i w h = refl
traverse_cell-filter p (suc k) l i w h =
    let here : p w ≡ test_bit i l =
      ap p (omega arith) ∙ h 0 (omega arith) ∙ ap (λ b. test_bit b l) (omega arith) in
    let rest : traverse_cell k l (i + 1) (w + 1) ≡ filter p (range (w + 1) k) =
      traverse_cell-filter p k l (i + 1) (w + 1) (λ j lt.
        ap p (omega arith)
        ∙ h (suc j) (omega (arith, lt))
        ∙ ap (λ b. test_bit b l) (omega arith)) in
    rw (here, rest) refl

traverse_from-empty : (w : ℕ) → traverse_from w [] ≡ []
unfolding traverse_from
traverse_from-empty w = refl

traverse_from-cons :
    (w l : ℕ) (ls : List ℕ)
    → traverse_from w (l ∷ ls) ≡ traverse_cell 8 l 0 w ++ traverse_from (w + 8) ls
unfolding traverse_from
traverse_from-cons w l ls = refl

is_active-first : (l : ℕ) (ls : List ℕ) (j : ℕ) → j < 8 → is_active (l ∷ ls) j ≡ test_bit j l
unfolding byte_bit
is_active-first l ls j lt =
    let byte : j / 8 ≡ 0 = omega (arith, lt) in
    let bit : j % 8 ≡ j = omega (arith, lt) in ap₂ byte_bit (ap (get_elem? (l ∷ ls)) byte) bit

is_active-rest : (l : ℕ) (ls : List ℕ) (j : ℕ) → is_active (l ∷ ls) (8 + j) ≡ is_active ls j
is_active-rest l ls j =
    let byte : (8 + j) / 8 ≡ suc (j / 8) = omega arith in
    let bit : (8 + j) % 8 ≡ j % 8 = omega arith in rw (byte, bit) refl

traverse_from-filter :
    (p : ℕ → Bool) (w : ℕ) (masks : List ℕ)
    → ((j : ℕ) → j < length masks * 8 → p (w + j) ≡ is_active masks j)
    → traverse_from w masks ≡ filter p (range w (length masks * 8))
unfolding range filter
traverse_from-filter p w [] h = traverse_from-empty w
traverse_from-filter p w (l ∷ ls) h =
    let cell = traverse_cell-filter p 8 l 0 w (λ j lt.
      h j (omega (arith, lt)) ∙ is_active-first l ls j lt ∙ ap (λ b. test_bit b l) (omega arith)) in
    let rest =
      traverse_from-filter p (w + 8) ls
        (λ j lt. ap p (omega arith) ∙ h (8 + j) (omega (arith, lt)) ∙ is_active-rest l ls j) in
    let counted : length (l ∷ ls) * 8 ≡ 8 + length ls * 8 = omega arith in
    traverse_from-cons w l ls
    ∙ ap₂ ◌++◌ cell rest
    ∙ sym (
        ap (λ n. filter p (range w n)) counted
        ∙ ap (filter p) (range-add w 8 (length ls * 8))
        ∙ filter-append p (range w 8) (range (w + 8) (length ls * 8)))

-- `traverse` collects, in increasing order, exactly the offsets whose bit is set.
pub traverse-filter :
    {T : Type 0} (leaf : Leaf T)
    → traverse leaf
      ≡ filter (is_active leaf.mask_bit_buffer) (range 0 (length leaf.mask_bit_buffer * 8))
traverse-filter leaf =
    traverse_from-filter (is_active leaf.mask_bit_buffer) 0 leaf.mask_bit_buffer
      (λ j lt. ap (is_active leaf.mask_bit_buffer) (omega arith))

-- A leaf of 64 bytes of mask and 512 values.
pub record IsLeaf {ℓ} {T : Type ℓ} (leaf : Leaf T) : Type ℓ where
  pub masks : length leaf.mask_bit_buffer ≡ 64
  pub values : length leaf.data_buffer ≡ 512
  pub bytes : (i l : ℕ) → get_elem? leaf.mask_bit_buffer i ≡ some l → l < 256

get_elem?-set_if {ℓ} :
    {T : Type ℓ} (xs : List T) (i j : ℕ) (v : T)
    → i < length xs
    → get_elem? (set xs i v) j ≡ (if i == j then some v else get_elem? xs j)
get_elem?-set_if xs i j v lt = elim (ℕ_discrete i j) [
  | yes same ↦
      let test : i == j ≡ true = ground (arith, same) in
      rw test (subst (λ k. get_elem? (set xs i v) k ≡ some v) same (get_elem?-set_self xs i v lt))
  | no other ↦
      let test : i == j ≡ false = ground (arith, other) in rw test (get_elem?-set_ne xs v other)
]

-- The bits after a byte was stored.
is_active-set :
    (masks : List ℕ) (o j cell : ℕ)
    → get_elem? masks (o / 8) ≡ some cell
    → cell < 256
    → is_active (set masks (o / 8) (set_bit (o % 8) cell)) j ≡ (o == j || is_active masks j)
unfolding byte_bit
is_active-set masks o j cell here byte = elim (ℕ_discrete (o / 8) (j / 8)) [
  | yes same ↦
      let stored : get_elem? (set masks (o / 8) (set_bit (o % 8) cell)) (j / 8)
          ≡ some (set_bit (o % 8) cell) =
        subst
          (λ k.
            get_elem? (set masks (o / 8) (set_bit (o % 8) cell)) k ≡ some (set_bit (o % 8) cell))
          same
          (get_elem?-set_self masks (o / 8) (set_bit (o % 8) cell)
            (lt_of_get_elem? masks (o / 8) here)) in
      let old : get_elem? masks (j / 8) ≡ some cell =
        subst (λ k. get_elem? masks k ≡ some cell) same here in
      let test : o % 8 == j % 8 ≡ o == j = ground (arith, same) in
      rw (stored, old)
        (test_bit-set_bit (o % 8) (j % 8) cell (omega arith) (omega arith) byte
          ∙ ap (λ b. b || test_bit (j % 8) cell) test)
  | no other ↦
      let test : o == j ≡ false = ground (arith, other) in
      rw test (ap (λ b. byte_bit b (j % 8)) (get_elem?-set_ne masks (set_bit (o % 8) cell) other))
]

-- On coordinates below 8, setActive of a leaf succeeds and leaves a leaf; the bit at their offset is
-- then set and the value there is the one given, and all other bits and values are as they were.
pub set_active-IsLeaf {ℓ} :
    {T : Type ℓ} (leaf : Leaf T) (x y z : ℕ) (val : T)
    → IsLeaf leaf
    → x < 8
    → y < 8
    → z < 8
    → (leaf' : Leaf T) × (set_active leaf x y z val ≡ some leaf')
      × IsLeaf leaf'
      × ((j : ℕ)
          → is_active leaf'.mask_bit_buffer j
            ≡ (x * 64 + y * 8 + z == j || is_active leaf.mask_bit_buffer j))
      × ((j : ℕ)
          → get_elem? leaf'.data_buffer j
            ≡ (if x * 64 + y * 8 + z == j then some val else get_elem? leaf.data_buffer j))
unfolding set_active store_at
set_active-IsLeaf leaf x y z val k lx ly lz =
    let o = x * 64 + y * 8 + z in
    let counted = k.masks in
    let valued = k.values in
    let below : o < length leaf.data_buffer = omega (arith, lx, ly, lz, valued) in
    let (cell, here) =
      get_elem?_of_lt leaf.mask_bit_buffer (o / 8) (omega (arith, lx, ly, lz, counted)) in
    let (old, there) = get_elem?_of_lt leaf.data_buffer o below in
    let shift : o - o / 8 * 8 ≡ o % 8 = omega arith in
    (
      record {
        mask_bit_buffer = set leaf.mask_bit_buffer (o / 8) (set_bit (o % 8) cell);
        data_buffer = set leaf.data_buffer o val;
      },
      rw (set_active, to_offset-digits x y z lx ly lz, shift, here, there) refl,
      record {
        masks = length-set leaf.mask_bit_buffer (o / 8) _ ∙ k.masks;
        values = length-set leaf.data_buffer o val ∙ k.values;
        bytes = λ i l at_i. elim (get_elem?-set-cases leaf.mask_bit_buffer (o / 8) i here at_i) [
          | inl same ↦
              subst (λ c. c < 256) same
                (set_bit-byte (o % 8) cell (omega arith) (k.bytes (o / 8) cell here))
          | inr (ne, kept) ↦ k.bytes i l kept
        ];
      },
      (λ j. is_active-set leaf.mask_bit_buffer o j cell here (k.bytes (o / 8) cell here)),
      (λ j. get_elem?-set_if leaf.data_buffer o j val below),
    )

new_leaf-bytes : (n i l : ℕ) → get_elem? (replicate n 0) i ≡ some l → l < 256
new_leaf-bytes zero i l e = let clash : ⊥ = cc in absurd clash
new_leaf-bytes (suc n) zero l e = let is_zero : 0 ≡ l = cc in omega (arith, is_zero)
new_leaf-bytes (suc n) (suc i) l e = new_leaf-bytes n i l e

-- A new leaf is one.
pub new_leaf-IsLeaf {ℓ} : {T : Type ℓ} (zero_value : T) → IsLeaf (new_leaf zero_value)
new_leaf-IsLeaf zero_value = record { masks = refl; values = refl; bytes = new_leaf-bytes 64 }

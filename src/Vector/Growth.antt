-- ===== src/Vector/Growth.antt =====
-- top.cpp, `Vector`: what each operation does to the elements.
use cpp_tricks.Common.{
  ℕ, zero, suc, ◌+◌, ◌-◌, ◌*◌, ◌≤◌, ◌<◌, ◌≡◌, refl, sym, false, Option, none, some, List, [], ◌∷◌,
  ◌++◌, leb, ◌==◌, max, arith, ◌⊎◌, length, get_elem?, get_elem?_of_lt, get_elem?_of_length-le, set,
  replicate, map, Bool-cases, inl, inr, ap, ◌∙◌, length-append, length-replicate, length-map,
  get_elem?-append_length, set-append_length,
}
use cpp_tricks.Vector.{
  Vector, out_of_range, element, cap, index_at, construct, copy_slots, reserve, push_back, pop_back,
  at,
}

module _ {ℓ} {T : Type ℓ} where
  -- The first slots hold the elements; of the slots behind them nothing is said.
  pub record Holds (v : Vector T) (xs : List T) : Type ℓ where
    pub rest : List (Option T)
    pub slots : v.arr ≡ map some xs ++ rest
    pub counted : v.sz ≡ length xs

  pub length-held : (v : Vector T) (xs : List T) → Holds v xs → length xs ≤ cap v
  length-held v xs k =
      let parts = length-append (map {B = Option T} some xs) k.rest in
      let held = length-map xs some in
      let there = ap length k.slots in omega (arith, parts, held, there)

  copy_slots-held :
      (xs : List T) (rest : List (Option T))
      → copy_slots (length xs) (map some xs ++ rest) ≡ some (map some xs)
  unfolding copy_slots
  copy_slots-held [] rest = refl
  copy_slots-held (x ∷ xs) rest = rw (copy_slots-held xs rest) refl

  -- reserve keeps the elements, and the capacity becomes the greater of the two.
  pub reserve-Holds :
      (v : Vector T) (xs : List T) (n : ℕ)
      → Holds v xs
      → (v' : Vector T) × (reserve v n ≡ some v') × Holds v' xs × (cap v' ≡ max n (cap v))
  unfolding reserve
  reserve-Holds v xs n k = elim (Bool-cases (leb n (cap v))) [
    | inl t ↦ (v, rw (reserve, t) refl, k, ground (arith, t))
    | inr f ↦ (
      record v { arr = map some xs ++ replicate (n - v.sz) none },
      rw (reserve, f, k.slots, k.counted, copy_slots-held xs k.rest) refl,
      record { rest = replicate (n - v.sz) none; slots = refl; counted = k.counted },
      grown v xs n k f,
    )
  ]
    where
      grown :
          (v : Vector T) (xs : List T) (n : ℕ)
          → Holds v xs
          → leb n (cap v) ≡ false
          → length (map {B = Option T} some xs ++ replicate (n - v.sz) none) ≡ max n (cap v)
      grown v xs n k f =
          let fits = length-held v xs k in
          let counted = k.counted in
          let parts = length-append (map {B = Option T} some xs) (replicate (n - v.sz) none) in
          let held = length-map xs some in
          let added = length-replicate {A = Option T} (n - v.sz) none in
          let greater : cap v < n = ground (arith, f) in
          omega (arith, parts, held, added, fits, counted, greater)

  held-append :
      (xs : List T) (x : T) (rest : List (Option T))
      → map {B = Option T} some xs ++ (some x ∷ rest) ≡ map some (xs ++ (x ∷ [])) ++ rest
  held-append [] x rest = refl
  held-append (y ∷ xs) x rest = ap (◌∷◌ (some y)) (held-append xs x rest)

  construct-held :
      (xs : List T) (old : Option T) (rest : List (Option T)) (x : T)
      → construct (map some xs ++ (old ∷ rest)) (length xs) x
        ≡ some (map some (xs ++ (x ∷ [])) ++ rest)
  unfolding construct
  construct-held xs old rest x =
      rw
        (
          sym (length-map {B = Option T} xs some),
          get_elem?-append_length (map some xs) old rest,
          set-append_length (map some xs) old (some x) rest,
        )
        (ap (λ l. some l) (held-append xs x rest))

  -- A slot is free behind the elements.
  slots-cases :
      (rest : List (Option T))
      → (rest ≡ []) ⊎ ((old : Option T) × (behind : List (Option T)) × (rest ≡ old ∷ behind))
  slots-cases [] = inl refl
  slots-cases (old ∷ behind) = inr (old, behind, refl)

  construct-Holds :
      (v : Vector T) (xs : List T) (x : T)
      → Holds v xs
      → length xs < cap v
      → (arr : List (Option T)) × (construct v.arr v.sz x ≡ some arr)
        × Holds (record { arr = arr; sz = v.sz + 1 }) (xs ++ (x ∷ []))
  construct-Holds v xs x k lt = elim (slots-cases k.rest) [
    | inl none_free ↦
        let parts = length-append (map {B = Option T} some xs) k.rest in
        let held = length-map {B = Option T} xs some in
        let there = ap length k.slots in
        let empty = ap length none_free in absurd (omega (arith, parts, held, there, empty, lt))
    | inr (old, behind, e) ↦
        let added = length-append xs (x ∷ []) in
        let counted = k.counted in
        (
          map some (xs ++ (x ∷ [])) ++ behind,
          rw (k.slots, k.counted, e) (construct-held xs old behind x),
          record { rest = behind; slots = refl; counted = omega (arith, added, counted) },
        )
  ]

  -- push_back on a vector with some capacity succeeds and adds the element behind the others.
  pub push_back-Holds :
      (v : Vector T) (xs : List T) (x : T)
      → Holds v xs
      → 0 < cap v
      → (v' : Vector T) × (push_back v x ≡ some v') × Holds v' (xs ++ (x ∷ []))
  unfolding push_back
  push_back-Holds v xs x k positive = elim (Bool-cases (cap v == v.sz)) [
    | inr f ↦
        let fits = length-held v xs k in
        let counted = k.counted in
        let (arr, built, held) = construct-Holds v xs x k (ground (arith, f, fits, counted)) in
        (record { arr = arr; sz = v.sz + 1 }, rw (push_back, f, built) refl, held)
    | inl t ↦
        let counted = k.counted in
        let full : cap v ≡ v.sz = ground (arith, t) in
        let (v1, reserved, k1, grown) = reserve-Holds v xs (2 * v.sz) k in
        let counted1 = k1.counted in
        let (arr, built, held) =
          construct-Holds v1 xs x k1 (omega (arith, grown, counted, full, positive)) in
        (record { arr = arr; sz = v1.sz + 1 }, rw (push_back, t, reserved, built) refl, held)
  ]

  read-held :
      (xs : List T) (old : Option T) (rest : List (Option T))
      → get_elem? (map some xs ++ (old ∷ rest)) (length xs) ≡ some old
  read-held [] old rest = refl
  read-held (y ∷ xs) old rest = read-held xs old rest

  write-held :
      (xs : List T) (old new : Option T) (rest : List (Option T))
      → set (map some xs ++ (old ∷ rest)) (length xs) new ≡ map some xs ++ (new ∷ rest)
  write-held [] old new rest = refl
  write-held (y ∷ xs) old new rest = ap (◌∷◌ (some y)) (write-held xs old new rest)

  -- pop_back removes the last element.
  pub pop_back-Holds :
      (v : Vector T) (xs : List T) (x : T)
      → Holds v (xs ++ (x ∷ []))
      → (v' : Vector T) × (pop_back v ≡ some v') × Holds v' xs
  unfolding pop_back index_at
  pop_back-Holds v xs x k =
      let slots : v.arr ≡ map some xs ++ (some x ∷ k.rest) =
        k.slots ∙ sym (held-append xs x k.rest) in
      let added = length-append xs (x ∷ []) in
      let counted = k.counted in
      let some_there : v.sz == 0 ≡ false = ground (arith, added, counted) in
      let last_at : v.sz - 1 ≡ length xs = omega (arith, added, counted) in
      (
        record { arr = map some xs ++ (none ∷ k.rest); sz = length xs },
        rw
            (
              pop_back,
              some_there,
              last_at,
              slots,
              read-held xs (some x) k.rest,
              write-held xs (some x) none k.rest,
            )
            refl,
        record { rest = none ∷ k.rest; slots = refl; counted = refl },
      )

  index-held :
      (xs : List T) (rest : List (Option T)) (i : ℕ)
      → i < length xs
      → get_elem? (map some xs ++ rest) i ≡ some (get_elem? xs i)
  index-held [] rest i lt = absurd (omega (arith, lt))
  index-held (x ∷ xs) rest zero lt = refl
  index-held (x ∷ xs) rest (suc i) lt = index-held xs rest i (omega (arith, lt))

  -- at returns the element at the position, and throws behind the last.
  pub at-get_elem :
      (v : Vector T) (xs : List T) (i : ℕ)
      → Holds v xs
      → at v i ≡ some (elim (get_elem? xs i) [ none ↦ out_of_range | some x ↦ element x ])
  unfolding at index_at
  at-get_elem v xs i k = elim (Bool-cases (leb v.sz i)) [
    | inl behind ↦
        let counted = k.counted in
        let absent : get_elem? xs i ≡ none =
          get_elem?_of_length-le xs i (ground (arith, behind, counted)) in
        rw (at, behind, absent) refl
    | inr within ↦
        let counted = k.counted in
        let below : i < length xs = ground (arith, within, counted) in
        let (x, there) = get_elem?_of_lt xs i below in
        rw (at, within, k.slots, index-held xs k.rest i below, there) refl
  ]

-- ===== src/GraphInput/Parallel.antt =====
-- graph_details.cc: in whatever order TBB applies the body, process_parallel does what process_serial does.
use cpp_tricks.Common.{
  ℕ, zero, suc, ◌<◌, ◌≡◌, ◌≢◌, refl, ap, sym, ◌∙◌, true, some, List, [], ◌∷◌, length, get_elem?,
  set, replicate, length-set, length-replicate, get_elem?-set_self, get_elem?-set_ne,
  get_elem?_of_lt, get_elem?_of_length-le, lt_of_get_elem?, some_injective, list_ext, ℕ_discrete,
  dec_lt, false, ◌==◌, arith, inl, inr, ◌⊎◌, subst,
}
use cpp_tricks.NodeLine.{Parsed, parsed, invalid_argument}
use cpp_tricks.NodeLine.Reading.{parse_node_data-ends}
use cpp_tricks.GraphInput.{
  RawNode, raw_node, done, thrown, raw_of, yield, process_serial, apply_foo, process_parallel,
}

-- What `parallel_for` over the indices below n promises: the body is applied to each of them, and to no other.
pub record CoversRange (parallel_for : ℕ → List ℕ) : Type 0 where
  pub all : (n i : ℕ) → i < n → (j : ℕ) × (get_elem? (parallel_for n) j ≡ some i)
  pub only : (n i j : ℕ) → get_elem? (parallel_for n) j ≡ some i → i < n

-- The parser ends, so the functor returns or lets the exception out.
pub yield-cases : (r : List ℕ) → ((x : RawNode) × (yield r ≡ done x)) ⊎ (yield r ≡ thrown)
unfolding yield
yield-cases r =
    let (p, ended) = parse_node_data-ends (suc (length r)) r (omega arith) in
    subst (λ o. ((x : RawNode) × (raw_of o ≡ done x)) ⊎ (raw_of o ≡ thrown)) (sym ended)
      (returned p)
  where
    returned :
        (p : Parsed _) → ((x : RawNode) × (raw_of (some p) ≡ done x)) ⊎ (raw_of (some p) ≡ thrown)
    returned (parsed (root, arrows)) = inl (_, refl)
    returned invalid_argument = inr refl

-- The results of the functor on an array.
abbrev pub AreYielded : List (List ℕ) → List RawNode → Type 0
AreYielded array xs =
    (length xs ≡ length array)
    × ((i : ℕ) (r : List ℕ)
        → get_elem? array i ≡ some r
        → (x : RawNode) × (get_elem? xs i ≡ some x) × (yield r ≡ done x))

-- The serial run returns the results, or some record throws.
serial-cases :
    (rs : List (List ℕ))
    → ((xs : List RawNode) × (process_serial rs ≡ done xs) × AreYielded rs xs)
      ⊎ ((process_serial rs ≡ thrown)
          × (i : ℕ) × (r : List ℕ) × (get_elem? rs i ≡ some r)
          × (yield r ≡ thrown))
unfolding process_serial
serial-cases [] = inl ([], refl, (refl, λ i r e. let clash : ⊥ = cc in absurd clash))
serial-cases (r ∷ rs) = elim (yield-cases r) [
  | inr e ↦ inr (rw (process_serial, e) refl, 0, r, refl, e)
  | inl (x, e) ↦ elim (serial-cases rs) [
    | inr (run, i, s, at, f) ↦ inr (rw (process_serial, e, run) refl, suc i, s, at, f)
    | inl (xs, run, (same, at)) ↦
        inl (x ∷ xs, rw (process_serial, e, run) refl, (ap suc same, AreYielded-cons x xs e at))
  ]
]
  where
    AreYielded-cons :
        (x : RawNode) (xs : List RawNode)
        → yield r ≡ done x
        → ((i : ℕ) (s : List ℕ)
            → get_elem? rs i ≡ some s
            → (y : RawNode) × (get_elem? xs i ≡ some y) × (yield s ≡ done y))
        → (i : ℕ) (s : List ℕ) → get_elem? (r ∷ rs) i ≡ some s
        → (y : RawNode) × (get_elem? (x ∷ xs) i ≡ some y) × (yield s ≡ done y)
    AreYielded-cons x xs e at zero s f =
        (x, refl, subst (λ q. yield q ≡ done x) (some_injective f) e)
    AreYielded-cons x xs e at (suc i) s f = at i s f

-- An index that is to come, or whose result stands already.
abbrev Covered : List ℕ → List RawNode → List RawNode → ℕ → Type 0
Covered indices out xs i =
    ((j : ℕ) × (get_elem? indices j ≡ some i)) ⊎ (get_elem? out i ≡ get_elem? xs i)

Covered-nil :
    (out xs : List RawNode) (i : ℕ) → Covered [] out xs i → get_elem? out i ≡ get_elem? xs i
Covered-nil out xs i (inl (j, e)) = let clash : ⊥ = cc in absurd clash
Covered-nil out xs i (inr e) = e

Covered-set :
    (i : ℕ) (indices : List ℕ) (out xs : List RawNode) (x : RawNode)
    → get_elem? xs i ≡ some x
    → i < length out
    → (q : ℕ) → Covered (i ∷ indices) out xs q
    → Covered indices (set out i x) xs q
Covered-set i indices out xs x at lt q covered = elim (ℕ_discrete i q) [
  | yes same ↦ inr (
      ap (get_elem? (set out i x)) (sym same)
      ∙ get_elem?-set_self out i x lt
      ∙ sym at
      ∙ ap (get_elem? xs) same)
  | no other ↦ later covered other
]
  where
    later : Covered (i ∷ indices) out xs q → i ≢ q → Covered indices (set out i x) xs q
    later (inl (zero, e)) other = absurd (other (some_injective e))
    later (inl (suc j, e)) other = inl (j, e)
    later (inr e) other = inr (get_elem?-set_ne out x other ∙ e)

-- Where no record throws, the results stand at the indices, and where they stood before.
apply_foo-AreYielded :
    (indices : List ℕ) (array : List (List ℕ)) (out xs : List RawNode)
    → AreYielded array xs
    → length out ≡ length xs
    → ((j i : ℕ) → get_elem? indices j ≡ some i → i < length array)
    → (out' : List RawNode) × (apply_foo indices array out ≡ done out')
      × ((i : ℕ) → Covered indices out xs i → get_elem? out' i ≡ get_elem? xs i)
unfolding apply_foo
apply_foo-AreYielded [] array out xs k same low = (out, refl, Covered-nil out xs)
apply_foo-AreYielded (i ∷ indices) array out xs (sized, at) same low =
    let lt = low 0 i refl in
    let (r, read) = get_elem?_of_lt array i lt in
    let (x, stands, e) = at i r read in
    let (out', run, holds) =
      apply_foo-AreYielded indices array (set out i x) xs (sized, at) (length-set out i x ∙ same)
        (λ j q f. low (suc j) q f) in
    (
      out',
      rw (apply_foo, read, e) run,
      λ q covered.
          holds q
            (Covered-set i indices out xs x stands (omega (arith, lt, same, sized)) q covered),
    )

-- Where one of them throws, so does the whole.
apply_foo-throws :
    (indices : List ℕ) (array : List (List ℕ)) (out : List RawNode) (j i : ℕ) (r : List ℕ)
    → get_elem? indices j ≡ some i
    → get_elem? array i ≡ some r
    → yield r ≡ thrown
    → ((j i : ℕ) → get_elem? indices j ≡ some i → i < length array)
    → apply_foo indices array out ≡ thrown
unfolding apply_foo
apply_foo-throws [] array out j i r at read e low = let clash : ⊥ = cc in absurd clash
apply_foo-throws (q ∷ indices) array out zero i r at read e low =
    let first : get_elem? array q ≡ some r = ap (get_elem? array) (some_injective at) ∙ read in
    rw (apply_foo, first, e) refl
apply_foo-throws (q ∷ indices) array out (suc j) i r at read e low =
    let (s, first) = get_elem?_of_lt array q (low 0 q refl) in
    elim (yield-cases s) [
      | inr f ↦ rw (apply_foo, first, f) refl
      | inl (x, f) ↦
          rw (apply_foo, first, f)
            (apply_foo-throws indices array (set out q x) j i r at read e
              (λ j' q' g. low (suc j') q' g))
    ]

Covered-start :
    (records : List (List ℕ)) (xs : List RawNode)
    → length xs ≡ length records
    → (indices : List ℕ) (i : ℕ) → (i < length records → (j : ℕ) × (get_elem? indices j ≡ some i))
    → Covered indices (replicate (length records) raw_node) xs i
Covered-start records xs sized indices i all = elim (dec_lt i (length records)) [
  | yes lt ↦ inl (all lt)
  | no ge ↦
      let made = length-replicate (length records) raw_node in
      inr (
        get_elem?_of_length-le (replicate (length records) raw_node) i (omega (arith, ge, made))
        ∙ sym (get_elem?_of_length-le xs i (omega (arith, ge, sized))))
]

-- With TBB, on at least one record, and in whatever order it applies the body, process_parallel
-- returns what process_serial returns, or throws if it throws.
pub process_parallel-serial :
    (parallel_for : ℕ → List ℕ) (records : List (List ℕ))
    → CoversRange parallel_for
    → 0 < length records
    → process_parallel true parallel_for records ≡ process_serial records
unfolding process_parallel
process_parallel-serial parallel_for records covers lt = started ∙ (elim (serial-cases records) [
  | inr (run, i, r, read, e) ↦
      let (j, at) = covers.all (length records) i (lt_of_get_elem? records i read) in
      apply_foo-throws (parallel_for (length records)) records _ j i r at read e
        (λ j' q f. covers.only (length records) q j' f)
      ∙ sym run
  | inl (xs, run, (sized, at)) ↦
      let made = length-replicate (length records) raw_node in
      let (out, ran, holds) =
        apply_foo-AreYielded (parallel_for (length records)) records
          (replicate (length records) raw_node) xs (sized, at) (made ∙ sym sized)
          (λ j q f. covers.only (length records) q j f) in
      ran
      ∙ ap done (
          list_ext out xs (λ i. holds i (
            Covered-start records xs sized (parallel_for (length records)) i
              (covers.all (length records) i))))
      ∙ sym run
])
  where
    started :
        process_parallel true parallel_for records
        ≡ apply_foo (parallel_for (length records)) records (replicate (length records) raw_node)
    started =
        let e : length records == 0 ≡ false = ground (arith, lt) in rw (process_parallel, e) refl

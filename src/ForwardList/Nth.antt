-- ===== src/ForwardList/Nth.antt =====
-- crack_code_lists.cc: get_nth_to_last and operator<<.
use cpp_tricks.Common.{
  ℕ, zero, suc, ◌≤◌, ◌<◌, ◌≡◌, refl, ap, sym, subst, ◌∙◌, none, some, List, [], ◌∷◌, ◌++◌, true,
  false, if◌then◌else◌, arith, length, inl, inr,
}
use cpp_tricks.ForwardList.{Heap, ForwardList, deref}
use cpp_tricks.Common.{ltb, drop, leb, ◌-◌, ◌⊎◌, length-drop}
use cpp_tricks.ForwardList.{
  Token, item, comma, endl, open_window, slide_window, get_nth_to_last, print_from, print,
}
use cpp_tricks.ForwardList.Chain.{first, IsChain, Owns}

module _ {ℓ} {A : Type ℓ} where
  IsChain-drop : (h : Heap A) (i : ℕ) (l : List (ℕ × A)) → IsChain h l → IsChain h (drop i l)
  IsChain-drop h zero l k = k
  IsChain-drop h (suc i) [] k = tt
  IsChain-drop h (suc i) ((a, x) ∷ l) (here, lt, away, k) = IsChain-drop h i l k

  open_window-drop :
      (h : Heap A) (k a : ℕ) (x : A) (l : List (ℕ × A))
      → IsChain h ((a, x) ∷ l)
      → open_window k h (some a) ≡ some (first (drop k ((a, x) ∷ l)))
  unfolding open_window deref
  open_window-drop h zero a x l c = refl
  open_window-drop h (suc zero) a x [] (here, lt, away, c) = rw here refl
  open_window-drop h (suc (suc k)) a x [] (here, lt, away, c) = rw here refl
  open_window-drop h (suc k) a x ((b, y) ∷ l) (here, lt, away, c) =
      rw here (open_window-drop h k b y l c)

  slide_window-drop :
      (fuel : ℕ) (h : Heap A) (b : ℕ) (y : A) (l1 l2 : List (ℕ × A))
      → IsChain h l1
      → IsChain h ((b, y) ∷ l2)
      → length l2 < length l1
      → length l2 < fuel
      → slide_window fuel h (first l1) (some b) ≡ some (first (drop (length l2) l1))
  unfolding slide_window deref
  slide_window-drop zero h b y l1 l2 k1 k2 lt le = absurd (omega (arith, le))
  slide_window-drop (suc fuel) h b y l1 [] k1 (here, lb, ab, k2) lt le = rw here refl
  slide_window-drop (suc fuel) h b y [] (c ∷ l2) k1 k2 lt le = absurd (omega (arith, lt))
  slide_window-drop (suc fuel) h b y ((a, x) ∷ l1) ((c, z) ∷ l2) (at_a, la, aa, k1)
        (at_b, lb, ab, k2) lt le =
      rw (at_b, at_a)
        (slide_window-drop fuel h c z l1 l2 k1 k2 (omega (arith, lt)) (omega (arith, le)))

  list-cases :
      (l : List (ℕ × A)) → (l ≡ []) ⊎ ((b : ℕ) × (y : A) × (r : List (ℕ × A)) × (l ≡ (b, y) ∷ r))
  list-cases [] = inl refl
  list-cases ((b, y) ∷ r) = inr (b, y, r, refl)

  nth-short :
      (fuel : ℕ) (h : Heap A) (o : ForwardList) (nth a : ℕ)
      → o.head_ ≡ some a
      → 2 ≤ nth
      → open_window (nth - 1) h (some a) ≡ some none
      → get_nth_to_last fuel h o nth ≡ some none
  unfolding get_nth_to_last
  nth-short fuel h o nth a e two f =
      let asserted : ltb 1 nth ≡ true = ground (arith, two) in
      rw (get_nth_to_last, asserted, e, f) refl

  nth-found :
      (fuel : ℕ) (h : Heap A) (o : ForwardList) (nth a b : ℕ)
      → o.head_ ≡ some a
      → 2 ≤ nth
      → open_window (nth - 1) h (some a) ≡ some (some b)
      → get_nth_to_last fuel h o nth ≡ slide_window fuel h (some a) (some b)
  unfolding get_nth_to_last
  nth-found fuel h o nth a b e two f =
      let asserted : ltb 1 nth ≡ true = ground (arith, two) in
      rw (get_nth_to_last, asserted, e, f) refl

  nth-empty :
      (fuel : ℕ) (h : Heap A) (o : ForwardList) (nth : ℕ)
      → o.head_ ≡ none
      → 2 ≤ nth
      → get_nth_to_last fuel h o nth ≡ some none
  unfolding get_nth_to_last
  nth-empty fuel h o nth e two =
      let asserted : ltb 1 nth ≡ true = ground (arith, two) in
      rw (get_nth_to_last, asserted, e) refl

  -- With fuel for the nodes, and at least 2 asked for, get_nth_to_last is free of undefined accesses
  -- and returns the node that begins the last `nth` nodes, or null where there are fewer.
  pub get_nth_to_last-drop :
      (fuel : ℕ) (h : Heap A) (o : ForwardList) (l : List (ℕ × A)) (nth : ℕ)
      → Owns h o l
      → 2 ≤ nth
      → length l ≤ fuel
      → get_nth_to_last fuel h o nth
        ≡ some (if leb nth (length l) then first (drop (length l - nth) l) else none)
  get_nth_to_last-drop fuel h o [] nth k two le =
      nth-empty fuel h o nth k.at_head two ∙ ground (arith, two)
  get_nth_to_last-drop fuel h o ((a, x) ∷ l) nth k two le =
      elim (list-cases (drop (nth - 1) ((a, x) ∷ l))) [
        | inl short ↦
            let counted = sym (length-drop (nth - 1) ((a, x) ∷ l)) ∙ ap length short in
            let few : leb nth (length ((a, x) ∷ l)) ≡ false = ground (arith, counted, two) in
            nth-short fuel h o nth a k.at_head two
              (open_window-drop h (nth - 1) a x l k.chain ∙ ap (λ r. some (first r)) short)
            ∙ rw few refl
        | inr (b, y, r, found) ↦
            let counted = sym (length-drop (nth - 1) ((a, x) ∷ l)) ∙ ap length found in
            let enough : leb nth (length ((a, x) ∷ l)) ≡ true = ground (arith, counted, two) in
            let behind : length r ≡ length ((a, x) ∷ l) - nth = omega (arith, counted, two) in
            nth-found fuel h o nth a b k.at_head two
              (open_window-drop h (nth - 1) a x l k.chain ∙ ap (λ q. some (first q)) found)
            ∙ slide_window-drop fuel h b y ((a, x) ∷ l) r k.chain
                (subst (IsChain h) found (IsChain-drop h (nth - 1) ((a, x) ∷ l) k.chain))
                (omega (arith, behind, two)) (omega (arith, behind, two, le))
            ∙ rw (enough, behind) refl
      ]

  -- What is written of these elements.
  unfoldable pub listed : List (ℕ × A) → List (Token A)
  listed [] = []
  listed ((a, x) ∷ []) = item x ∷ []
  listed ((a, x) ∷ (q ∷ l)) = item x ∷ comma ∷ listed (q ∷ l)

  print_from-listed :
      (fuel : ℕ) (h : Heap A) (a : ℕ) (x : A) (l : List (ℕ × A))
      → IsChain h ((a, x) ∷ l)
      → length l < fuel
      → print_from fuel h (some a) ≡ some (listed ((a, x) ∷ l))
  unfolding print_from listed deref
  print_from-listed zero h a x l k lt = absurd (omega (arith, lt))
  print_from-listed (suc fuel) h a x [] (here, le, away, k) lt = rw here refl
  print_from-listed (suc fuel) h a x ((b, y) ∷ l) (here, le, away, k) lt =
      rw (here, print_from-listed fuel h b y l k (omega (arith, lt))) refl

  -- With fuel for the nodes, operator<< writes the elements in their order, a comma between two of
  -- them, and a line's end.
  pub print-listed :
      (fuel : ℕ) (h : Heap A) (o : ForwardList) (l : List (ℕ × A))
      → Owns h o l
      → length l ≤ fuel
      → print fuel h o ≡ some (listed l ++ (endl ∷ []))
  unfolding print listed
  print-listed fuel h o [] k le = rw (print, k.at_head) refl
  print-listed fuel h o ((a, x) ∷ l) k le =
      rw (print, k.at_head, print_from-listed fuel h a x l k.chain le) refl

-- ===== src/Zigzag/InPlace.antt =====
-- edu/train/zigzag.hpp, `convert_best` and `convert_best1`: the string that is read and written at
-- once is the finished part of row 0, a gap of letters that have been copied out, and the letters
-- still to be read.
use cpp_tricks.Common.{
  ℕ, zero, suc, ◌+◌, ◌-◌, ◌≤◌, ◌<◌, ◌≡◌, refl, sym, ap, ap₂, ◌∙◌, ◌⊎◌, inl, inr, Bool, Option, some,
  none, List, [], ◌∷◌, ◌++◌, append-nil, append_assoc, arith, ◌==◌, ◌>>=◌, Option-cases, length,
  length-append, get_elem?, get_elem?-append_length, set-append_length, drop, take-append_length,
  drop-append_add, length-drop, replicate, leb, true, false, >>=_cong,
}
use cpp_tricks.Zigzag.{append_at, concat_rows}
use cpp_tricks.Zigzag.Best.{InPlace, put_letter, replace, splice, splice_all}
use cpp_tricks.Zigzag.Spec.{row_of}
use cpp_tricks.Zigzag.Scatter.{scatter}
use cpp_tricks.Zigzag.Segments.{segment}

module _ {ℓ} {A : Type ℓ} where
  -- The number of letters in the buffers.
  unfoldable pub total : List (List A) → ℕ
  total [] = 0
  total (r ∷ rs) = length r + total rs

  abbrev pub split : List A → List A → List A → List (List A) → InPlace A
  split front gap suf rows = record {
    text = front ++ (gap ++ suf);
    in_place_counter = length front;
    siter = length front + length gap;
    rows = rows;
  }

  total-append_at :
      (rows : List (List A)) (j : ℕ) (c : A) {rows' : List (List A)}
      → append_at rows j c ≡ some rows'
      → total rows' ≡ total rows + 1
  unfolding append_at total
  total-append_at [] j c e = cc
  total-append_at (r ∷ rs) zero c e = ground (arith, length-append r (c ∷ []))
  total-append_at (r ∷ rs) (suc j) c e = elim (Option-cases (append_at rs j c)) [
    | inl fault ↦ ground arith
    | inr (rs', f) ↦ ground (arith, total-append_at rs j c f)
  ]

  -- The gap after its first letter was overwritten and `c` was read.
  shift : List A → A → List A
  shift [] c = []
  shift (g ∷ gs) c = gs ++ (c ∷ [])

  length-shift : (gap : List A) (c : A) → length (shift gap c) ≡ length gap
  unfolding shift
  length-shift [] c = refl
  length-shift (g ∷ gs) c = length-append gs (c ∷ []) ∙ omega arith

  read_next :
      (front gap : List A) (c : A) (suf : List A)
      → get_elem? (front ++ (gap ++ (c ∷ suf))) (length front + length gap) ≡ some c
  read_next front gap c suf =
      ap₂ get_elem? (sym (append_assoc front gap (c ∷ suf))) (sym (length-append front gap))
      ∙ get_elem?-append_length (front ++ gap) c suf

  in_place_eq :
      {t t' : List A} {i i' p p' : ℕ} (rows : List (List A))
      → t ≡ t'
      → i ≡ i'
      → p ≡ p'
      → ◌≡◌ {A = InPlace A}
          (record { text = t; in_place_counter = i; siter = p; rows = rows })
          (record { text = t'; in_place_counter = i'; siter = p'; rows = rows })
  in_place_eq rows e f g =
      λ k. record { text = e k; in_place_counter = f k; siter = g k; rows = rows }

  put_letter-front :
      (front gap : List A) (c : A) (suf : List A) (rows : List (List A))
      → put_letter 0 (split front gap (c ∷ suf) rows)
        ≡ some (split (front ++ (c ∷ [])) (shift gap c) suf rows)
  unfolding put_letter shift
  put_letter-front front [] c suf rows =
      rw (read_next front [] c suf, set-append_length front c c suf)
        (ap some (
          in_place_eq rows (sym (append_assoc front (c ∷ []) suf))
            (sym (length-append front (c ∷ []))) (omega (arith, length-append front (c ∷ [])))))
  put_letter-front front (g ∷ gs) c suf rows =
      rw (read_next front (g ∷ gs) c suf, set-append_length front g c (gs ++ (c ∷ suf)))
        (ap some (
          in_place_eq rows
            (sym (append_assoc front (c ∷ []) (gs ++ (c ∷ suf)))
              ∙ ap (λ t. front ++ (c ∷ []) ++ t) (sym (append_assoc gs (c ∷ []) suf)))
            (sym (length-append front (c ∷ [])))
            (omega (arith, length-append front (c ∷ []), length-append gs (c ∷ [])))))

  put_letter-row :
      (front gap : List A) (c : A) (suf : List A) (rows : List (List A)) (j : ℕ)
      → put_letter (suc j) (split front gap (c ∷ suf) rows)
        ≡ (append_at rows j c >>= λ rows'. some (split front (gap ++ (c ∷ [])) suf rows'))
  unfolding put_letter
  put_letter-row front gap c suf rows j =
      let e : suc j - 1 ≡ j = omega arith in
      let t : (suc j == 0) ≡ false = ground arith in
      rw (read_next front gap c suf, t, e)
        (>>=_cong (append_at rows j c) (λ rows'. ap some (
          in_place_eq rows' (ap (λ u. front ++ u) (sym (append_assoc gap (c ∷ []) suf))) refl
            (omega (arith, length-append gap (c ∷ []))))))

  -- Splicing the buffers over a gap of their total length.
  splice-gap :
      (rows : List (List A)) (front gap : List A)
      → length gap ≡ total rows
      → splice (length front) rows (front ++ gap) ≡ some (concat_rows front rows)
  unfolding splice concat_rows total replace
  splice-gap [] front [] e = ap some (append-nil front)
  splice-gap [] front (g ∷ gs) e = absurd (omega arith)
  splice-gap (r ∷ rs) front gap e =
      let bound : leb (length front) (length (front ++ gap)) ≡ true =
        ground (arith, length-append front gap) in
      let rest : length (drop (length r) gap) ≡ total rs =
        omega (arith, length-drop (length r) gap) in
      rw
        (
          bound,
          take-append_length front gap,
          drop-append_add front gap (length r),
          ← length-append front r,
        )
        (splice-gap rs (front ++ r) (drop (length r) gap) rest)

  pub splice_all-gap :
      (rows : List (List A)) (front gap : List A)
      → 0 < length rows
      → length gap ≡ total rows
      → splice_all (split front gap [] rows) ≡ some (concat_rows front rows)
  unfolding splice_all
  splice_all-gap [] front gap h e = absurd (omega arith)
  splice_all-gap (r ∷ rs) front gap h e = rw (append-nil gap) (splice-gap (r ∷ rs) front gap e)

pub total-replicate {ℓ} : (A : Type ℓ) (k : ℕ) → total {A = A} (replicate k []) ≡ 0
unfolding total
total-replicate A zero = refl
total-replicate A (suc k) = omega (arith, total-replicate A k)

ℕ-cases : (k : ℕ) → (k ≡ 0) ⊎ ((j : ℕ) × (k ≡ suc j))
ℕ-cases zero = inl refl
ℕ-cases (suc j) = inr (j, refl)

module _ {ℓ} {A : Type ℓ} (n : ℕ) where
  -- `siter == send`
  abbrev pub at_end : ℕ → InPlace A → Bool
  at_end p st = st.siter == length st.text

  abbrev pub place : ℕ → InPlace A → Option (InPlace A)
  place p st = put_letter (row_of n p) st

  length-split :
      (front gap suf : List A) (rows : List (List A))
      → length (split front gap suf rows).text ≡ length front + length gap + length suf
  length-split front gap suf rows =
      length-append front (gap ++ suf) ∙ omega (arith, length-append gap suf)

  -- What a run to the end leaves, when the buffers end as `out`.
  pub record Finished (k i : ℕ) (st : InPlace A) (out : List (List A)) : Type ℓ where
    pub front : List A
    pub gap : List A
    pub rows : List (List A)
    pub reached : segment at_end place k i st ≡ some (split front gap [] rows)
    pub buffers : out ≡ front ∷ rows
    pub balance : length gap ≡ total rows

  pub run-Finished :
      (suf : List A) (k i : ℕ) (front gap : List A) (rows : List (List A)) {out : List (List A)}
      → length suf ≤ k
      → length gap ≡ total rows
      → scatter n i suf (front ∷ rows) ≡ some out
      → Finished k i (split front gap suf rows) out
  unfolding segment scatter append_at
  run-Finished [] zero i front gap rows h b e = record {
    front = front;
    gap = gap;
    rows = rows;
    reached = refl;
    buffers = cc;
    balance = b;
  }
  run-Finished [] (suc k) i front gap rows h b e =
      let stop : at_end i (split front gap [] rows) ≡ true =
        ground (arith, length-split front gap [] rows) in
      record {
        front = front;
        gap = gap;
        rows = rows;
        reached = rw stop refl;
        buffers = cc;
        balance = b;
      }
  run-Finished (c ∷ cs) zero i front gap rows h b e = absurd (omega arith)
  run-Finished (c ∷ cs) (suc k) i front gap rows {out} h b e =
      let more : at_end i (split front gap (c ∷ cs) rows) ≡ false =
        ground (arith, length-split front gap (c ∷ cs) rows) in
      elim (ℕ-cases (row_of n i)) [
        | inl first ↦
            let ih : Finished k (i + 1) (split (front ++ (c ∷ [])) (shift gap c) cs rows) out =
              run-Finished cs k (i + 1) (front ++ (c ∷ [])) (shift gap c) rows (omega arith)
                (length-shift gap c ∙ b) (rw (first, append_at) at e) in
            record {
              front = ih.front;
              gap = ih.gap;
              rows = ih.rows;
              reached = rw (more, first, put_letter-front front gap c cs rows) ih.reached;
              buffers = ih.buffers;
              balance = ih.balance;
            }
        | inr (j, other) ↦ elim (Option-cases (append_at rows j c)) [
          | inl fault ↦ let bad : none ≡ some out = rw (other, append_at, fault) at e in cc
          | inr (rows', f) ↦
              let ih : Finished k (i + 1) (split front (gap ++ (c ∷ [])) cs rows') out =
                run-Finished cs k (i + 1) front (gap ++ (c ∷ [])) rows' (omega arith)
                  (omega (arith, length-append gap (c ∷ []), total-append_at rows j c f))
                  (rw (other, append_at, f) at e) in
              record {
                front = ih.front;
                gap = ih.gap;
                rows = ih.rows;
                reached = rw (more, other, put_letter-row front gap c cs rows j, f) ih.reached;
                buffers = ih.buffers;
                balance = ih.balance;
              }
        ]
      ]

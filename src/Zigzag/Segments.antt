-- ===== src/Zigzag/Segments.antt =====
-- A loop over positions that may stop early, and the splitting of its rounds into boxes.
use cpp_tricks.Common.{
  ℕ, zero, suc, ◌+◌, ◌≡◌, refl, sym, ap₂, ◌∙◌, Bool, true, Option, some, arith, if◌then◌else◌,
  ◌>>=◌, Bool-cases, inl, inr, >>=_cong, >>=_assoc,
}

module _ {ℓ} {S : Type ℓ} (done : ℕ → S → Bool) (step : ℕ → S → Option S) where
  -- At most `k` rounds from position `p` on.
  unfoldable pub segment : ℕ → ℕ → S → Option S
  segment zero p st = some st
  segment (suc k) p st = if done p st then some st else (step p st >>= λ st'. segment k (p + 1) st')

  module _ (stays : (p : ℕ) (st : S) → done p st ≡ true → done (p + 1) st ≡ true) where
    segment-done : (k p : ℕ) (st : S) → done p st ≡ true → segment k p st ≡ some st
    unfolding segment
    segment-done zero p st h = refl
    segment-done (suc k) p st h = rw h

    stays-add : (a p : ℕ) (st : S) → done p st ≡ true → done (a + p) st ≡ true
    stays-add zero p st h = let e : p ≡ 0 + p = omega arith in rw (← e) h
    stays-add (suc a) p st h =
        let e : a + (p + 1) ≡ suc a + p = omega arith in
        rw (← e) (stays-add a (p + 1) st (stays p st h))

    pub segment-add :
        (a b p : ℕ) (st : S)
        → segment (a + b) p st ≡ (segment a p st >>= λ st'. segment b (a + p) st')
    unfolding segment
    segment-add zero b p st =
        let e : p ≡ 0 + p = omega arith in
        let e' : 0 + b ≡ b = omega arith in ap₂ (λ x y. segment x y st) e' e
    segment-add (suc a) b p st =
        let e : suc a + b ≡ suc (a + b) = omega arith in
        let e' : suc a + p ≡ a + (p + 1) = omega arith in
        elim (Bool-cases (done p st)) [
          | inl stop ↦
              rw (e, e', stop)
                (sym (segment-done b (a + (p + 1)) st (stays-add a (p + 1) st (stays p st stop))))
          | inr more ↦
              rw (e, e', more)
                (>>=_cong (step p st) (λ st'. segment-add a b (p + 1) st')
                  ∙ sym (>>=_assoc (step p st) (segment a (p + 1)) (segment b (a + (p + 1)))))
        ]

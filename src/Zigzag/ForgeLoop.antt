-- ===== src/Zigzag/ForgeLoop.antt =====
-- The loop of `convert_forge` (edu/train/zigzag.hpp) puts every character into
-- the buffer of its row.
use cpp_tricks.Common.{
  ℕ, ◌+◌, ◌%◌, ◌<◌, ◌≡◌, refl, some, List, [], ◌∷◌, arith, inl, inr, ◌>>=◌, >>=_cong, Option-cases,
}
use native.Mathlib.Nat.{mod-lt}
use cpp_tricks.Zigzag.{stride, append_at}
use cpp_tricks.Zigzag.Forge.{Cursor, forge_step, forge_loop}
use cpp_tricks.Zigzag.Spec.{row_of}
use cpp_tricks.Zigzag.Scatter.{mod-suc, scatter}
use cpp_tricks.Zigzag.Turns.{counter_at, direction_at, turn_lem, advance_lem}

module _ {ℓ} {A : Type ℓ} (n : ℕ) (h : 1 < n) where
  -- The cursor of `convert_forge` at position `i`.
  abbrev pub cursor_at : ℕ → List (List A) → Cursor A
  cursor_at i rows = record {
    rows = rows;
    subidx = i % stride n;
    counter = counter_at n (i % stride n);
    direction = direction_at n (i % stride n);
  }

  forge_step_lem :
      (i : ℕ) (rows : List (List A)) (c : A)
      → forge_step n (cursor_at i rows) c
        ≡ (append_at rows (row_of n i) c >>= λ rows'. some (cursor_at (i + 1) rows'))
  unfolding forge_step
  forge_step_lem i rows c =
      let q : i % stride n < stride n = mod-lt i (omega arith) in
      rw (turn_lem n (i % stride n) h q) (
        >>=_cong (append_at rows (row_of n i) c)
          (λ rows'. rw (advance_lem n (i % stride n) h q) (ground (arith, mod-suc i (stride n)))))

  pub forge_loop_lem :
      (i : ℕ) (s : List A) (rows : List (List A))
      → (forge_loop n (cursor_at i rows) s >>= λ st. some st.rows) ≡ scatter n i s rows
  unfolding forge_loop scatter
  forge_loop_lem i [] rows = refl
  forge_loop_lem i (c ∷ cs) rows =
      rw (forge_step_lem i rows c) (elim (Option-cases (append_at rows (row_of n i) c)) [
        | inl fault ↦ rw fault refl
        | inr (rows', e) ↦ rw e (forge_loop_lem (i + 1) cs rows')
      ])

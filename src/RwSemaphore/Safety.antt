-- ===== src/RwSemaphore/Safety.antt =====
-- rw_semaphore.h: readers and writers exclude each other, and no DCHECK fails, under every
-- schedule.
use cpp_tricks.Common.{
  ℕ, zero, suc, ◌+◌, ◌%◌, ◌/◌, ◌^◌, ◌≤◌, ◌<◌, ◌≡◌, ◌≢◌, refl, Bool, true, false, some, List, [],
  ◌∷◌, ◌==◌, length, length-set, length-replicate, get_elem?, set, replicate, arith, inl, inr,
  subst, get_elem?-set-cases, total, total-set, le-total, two-le-total, total-le-length,
  total-replicate, Option-cases, Bool-cases,
}
use cpp_tricks.RwSemaphore.{
  Pc, idle, reading, drain, writing, releasing, aborted, share, unshare, claim, write_flag,
  compare_and_swap, step_thread, System, step, run,
}

-- The threads that the reader count counts.
abbrev pub reads : Pc → ℕ
reads reading = 1
reads (unshare _) = 1
reads _ = 0

-- The thread that the write flag stands for.
abbrev pub writes : Pc → ℕ
writes drain = 1
writes writing = 1
writes releasing = 1
writes _ = 0

abbrev pub IsFine : ℕ → Pc → Type 0
IsFine word writing = word % 2 ^ 31 ≡ 0
IsFine word releasing = word % 2 ^ 31 ≡ 0
IsFine word (unshare cur) = 0 < cur % 2 ^ 31
IsFine word aborted = ⊥
IsFine word _ = Unit {0}

pub record Inv (s : System) : Type 0 where
  pub few : length s.threads < 2 ^ 31
  pub fits : s.word < 2 ^ 32
  pub readers : s.word % 2 ^ 31 ≡ total reads s.threads
  pub writers : s.word / 2 ^ 31 ≡ total writes s.threads
  pub fine : (i : ℕ) (pc : Pc) → get_elem? s.threads i ≡ some pc → IsFine s.word pc

reads-le : (p : Pc) → reads p ≤ 1
reads-le p = ground arith

-- The arithmetic of one step: the word keeps both counts.
record Counts (word word' : ℕ) (p p' : Pc) : Type 0 where
  fits : word' < 2 ^ 32
  readers : word' % 2 ^ 31 + reads p ≡ word % 2 ^ 31 + reads p'
  writers : word' / 2 ^ 31 + writes p ≡ word / 2 ^ 31 + writes p'

step_thread-Counts :
    (b : Bool) (word : ℕ) (p : Pc)
    → word < 2 ^ 32
    → word % 2 ^ 31 + 1 < 2 ^ 31 + reads p
    → IsFine word p
    → (writes p ≤ word / 2 ^ 31)
    → (reads p ≤ word % 2 ^ 31)
    → Counts word (step_thread b word p).0 p (step_thread b word p).1
unfolding step_thread
step_thread-Counts b word idle f r g w q = ground arith
step_thread-Counts b word (share cur) f r g w q = ground arith
step_thread-Counts b word p f r g w q = ground arith

-- The thread that moved is as it should be.
step_thread-IsFine :
    (b : Bool) (word : ℕ) (p : Pc)
    → word < 2 ^ 32
    → IsFine word p
    → writes p ≤ word / 2 ^ 31
    → reads p ≤ word % 2 ^ 31
    → IsFine (step_thread b word p).0 (step_thread b word p).1
unfolding step_thread
step_thread-IsFine true word idle f g w q = tt
step_thread-IsFine false word idle f g w q = tt
step_thread-IsFine b word reading f g w q = omega arith
step_thread-IsFine b word (share cur) f g w q = elim (Bool-cases (word == cur % 2 ^ 31)) [
  | inl e ↦ rw (e, compare_and_swap) tt
  | inr e ↦ rw (e, compare_and_swap) tt
]
step_thread-IsFine b word (claim cur) f g w q = elim (Bool-cases (word == cur % 2 ^ 31)) [
  | inl e ↦ rw (e, compare_and_swap) tt
  | inr e ↦ rw (e, compare_and_swap) tt
]
step_thread-IsFine b word (unshare cur) f g w q = elim (Bool-cases (cur % 2 ^ 31 == 0)) [
  | inl z ↦ absurd (ground arith)
  | inr z ↦ elim (Bool-cases (word == cur)) [
    | inl e ↦ rw (z, e, compare_and_swap) tt
    | inr e ↦ rw (z, e, compare_and_swap) q
  ]
]
step_thread-IsFine b word drain f g w q = elim (Bool-cases (word % 2 ^ 31 == 0)) [
  | inl e ↦ rw e (ground arith)
  | inr e ↦ rw e tt
]
step_thread-IsFine b word writing f g w q = elim (Bool-cases (word == write_flag)) [
  | inl e ↦ rw e g
  | inr e ↦ absurd (ground arith)
]
step_thread-IsFine b word releasing f g w q = tt
step_thread-IsFine b word aborted f g w q = g

-- Another thread stays as it should be.
step_thread-others :
    (b : Bool) (word : ℕ) (p q : Pc)
    → word < 2 ^ 32
    → IsFine word p
    → IsFine word q
    → writes p + writes q ≤ word / 2 ^ 31
    → reads p + reads q ≤ word % 2 ^ 31
    → IsFine (step_thread b word p).0 q
unfolding step_thread
step_thread-others b word p idle f g g' w r = tt
step_thread-others b word p (share _) f g g' w r = tt
step_thread-others b word p (unshare _) f g g' w r = g'
step_thread-others b word p (claim _) f g g' w r = tt
step_thread-others b word p aborted f g g' w r = g'
step_thread-others b word p reading f g g' w r = tt
step_thread-others b word p drain f g g' w r = tt
step_thread-others b word idle writing f g g' w r = ground arith
step_thread-others b word p writing f g g' w r = ground arith
step_thread-others b word idle releasing f g g' w r = ground arith
step_thread-others b word p releasing f g g' w r = ground arith

-- Every step keeps the invariant.
pub step-Inv : (s : System) (i : ℕ) (b : Bool) → Inv s → Inv (step s i b)
unfolding step
step-Inv s i b v = elim (Option-cases (get_elem? s.threads i)) [
  | inl absent ↦ rw (absent, step) v
  | inr (pc, here) ↦ rw (here, step) (moved pc here)
]
  where
    moved :
        (pc : Pc)
        → get_elem? s.threads i ≡ some pc
        → Inv (record {
          word = (step_thread b s.word pc).0;
          threads = set s.threads i (step_thread b s.word pc).1;
        })
    moved pc here =
        let pc' = (step_thread b s.word pc).1 in
        let r : total reads (set s.threads i pc') + reads pc ≡ total reads s.threads + reads pc' =
          total-set reads s.threads i pc pc' here in
        let w : total writes (set s.threads i pc') + writes pc
            ≡ total writes s.threads + writes pc' =
          total-set writes s.threads i pc pc' here in
        let full : total reads (set s.threads i reading) + reads pc ≡ total reads s.threads + 1 =
          total-set reads s.threads i pc reading here in
        let c : Counts s.word (step_thread b s.word pc).0 pc pc' =
          step_thread-Counts b s.word pc v.fits
            (omega (
              arith,
              v.few,
              v.readers,
              full,
              total-le-length reads reads-le (set s.threads i reading),
              length-set s.threads i reading,
            ))
            (v.fine i pc here) (omega (arith, v.writers, le-total writes s.threads i pc here))
            (omega (arith, v.readers, le-total reads s.threads i pc here)) in
        record {
          few = omega (arith, v.few, length-set s.threads i pc');
          fits = c.fits;
          readers = omega (arith, c.readers, v.readers, r);
          writers = omega (arith, c.writers, v.writers, w);
          fine = λ j q e. elim (get_elem?-set-cases s.threads i j here e) [
            | inl same ↦
                subst (λ x. IsFine (step_thread b s.word pc).0 x) same
                  (step_thread-IsFine b s.word pc v.fits (v.fine i pc here)
                    (omega (arith, v.writers, le-total writes s.threads i pc here))
                    (omega (arith, v.readers, le-total reads s.threads i pc here)))
            | inr (other, there) ↦
                step_thread-others b s.word pc q v.fits (v.fine i pc here) (v.fine j q there)
                  (omega
                    (arith, v.writers, two-le-total writes s.threads i j pc q other here there))
                  (omega (arith, v.readers, two-le-total reads s.threads i j pc q other here there))
          ];
        }

-- `n` threads outside the lock.
abbrev pub init : ℕ → System
init n = record { word = 0; threads = replicate n idle }

get_elem?-replicate : (n i : ℕ) (p q : Pc) → get_elem? (replicate n p) i ≡ some q → p ≡ q
get_elem?-replicate zero i p q e = cc
get_elem?-replicate (suc n) zero p q e = cc
get_elem?-replicate (suc n) (suc i) p q e = get_elem?-replicate n i p q e

pub init-Inv : (n : ℕ) → n < 2 ^ 31 → Inv (init n)
init-Inv n h = record {
  few = omega (arith, length-replicate n idle);
  fits = omega arith;
  readers = omega (arith, total-replicate reads n idle refl);
  writers = omega (arith, total-replicate writes n idle refl);
  fine = λ i pc e. subst (IsFine 0) (get_elem?-replicate n i idle pc e) tt;
}

pub run-Inv : (schedule : List (ℕ × Bool)) (s : System) → Inv s → Inv (run s schedule)
unfolding run
run-Inv [] s v = v
run-Inv ((i, b) ∷ rest) s v = run-Inv rest (step s i b) (step-Inv s i b v)

-- Under every schedule of fewer than 2^31 threads, while one thread is between `lock` and
-- `unlock`, every other thread is outside the lock or still trying to enter.
pub writer_excludes :
    (n : ℕ) (schedule : List (ℕ × Bool)) (i j : ℕ) {pc : Pc}
    → n < 2 ^ 31
    → i ≢ j
    → get_elem? (run (init n) schedule).threads i ≡ some writing
    → get_elem? (run (init n) schedule).threads j ≡ some pc
    → (reads pc ≡ 0) × (writes pc ≡ 0)
writer_excludes n schedule i j {pc} h other w p =
    let v : Inv (run (init n) schedule) = run-Inv schedule (init n) (init-Inv n h) in
    omega (
      arith,
      v.fits,
      v.readers,
      v.writers,
      v.fine i writing w,
      two-le-total writes (run (init n) schedule).threads i j writing pc other w p,
      le-total reads (run (init n) schedule).threads j pc p,
    )

-- Under every schedule of fewer than 2^31 threads no DCHECK of `unlock` or `unlock_shared` fails.
pub never_aborts :
    (n : ℕ) (schedule : List (ℕ × Bool)) (i : ℕ)
    → n < 2 ^ 31
    → get_elem? (run (init n) schedule).threads i ≢ some aborted
never_aborts n schedule i h e = (run-Inv schedule (init n) (init-Inv n h)).fine i aborted e

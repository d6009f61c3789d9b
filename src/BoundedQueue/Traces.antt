-- ===== src/BoundedQueue/Traces.antt =====
-- concurent_queues.h: what holds after every sequence of calls, by any number of threads.
use cpp_tricks.Common.{
  ℕ, ◌+◌, ◌≤◌, ◌≡◌, refl, Bool, true, false, Option, none, some, List, [], ◌∷◌, ◌++◌, append_assoc,
  arith, ltb, ◌-◌, if◌then◌else◌, length, length-append, ◌↔◌, ◌&&◌, sym, ◌∙◌, Bool-cases, ◌⊎◌, inl,
  inr,
}
use cpp_tricks.BoundedQueue.{
  Queue, make, try_push, try_pop, pop_front, stop, Waited, blocked, thrown, popped, wake,
  wait_and_pop,
}

-- A call, a thread inside `wait_and_pop` that runs on, or one asleep there that wakes up without
-- being notified.
pub data Call {ℓ} (A : Type ℓ) : Type ℓ where
  push : A → Call A
  pop halt enter run_on spurious : Call A

-- The queue with what went in, what came out, and how many elements `wait_and_pop` took, for all
-- the calls so far. A thread runs on only while one inside `wait_and_pop` is not asleep.
pub record Trace {ℓ} (A : Type ℓ) : Type ℓ where
  pub queue : Queue A
  pub pushed : List A
  pub taken : List A
  pub waited : ℕ

module _ {ℓ} {A : Type ℓ} where
  unfoldable pub note_push : Trace A → A → Queue A × Bool → Trace A
  note_push t x (s, done) = record t {
    queue = s;
    pushed = if done then t.pushed ++ (x ∷ []) else t.pushed;
  }

  unfoldable pub note_pop : Trace A → Queue A × Option A → Trace A
  note_pop t (s, none) = record t { queue = s }
  note_pop t (s, some x) = record t { queue = s; taken = t.taken ++ (x ∷ []) }

  unfoldable pub note_wait : Trace A → Queue A × Waited A → Trace A
  note_wait t (s, blocked) = record t { queue = s }
  note_wait t (s, thrown) = record t { queue = s }
  note_wait t (s, popped x) = record t {
    queue = s;
    taken = t.taken ++ (x ∷ []);
    waited = t.waited + 1;
  }

  unfoldable pub call : Trace A → Call A → Trace A
  unfolding note_push note_pop note_wait try_push try_pop stop wait_and_pop wake
  call t (push x) = note_push t x (try_push t.queue x)
  call t pop = note_pop t (try_pop t.queue)
  call t halt = record t { queue = stop t.queue }
  call t enter = note_wait t (wait_and_pop t.queue)
  call t run_on =
      if ltb t.queue.asleep_pop t.queue.nblocked_pop then note_wait t (wake t.queue) else t
  call t spurious = record t { queue = record t.queue { asleep_pop = t.queue.asleep_pop - 1 } }

  unfoldable pub run : Trace A → List (Call A) → Trace A
  unfolding call
  run t [] = t
  run t (c ∷ cs) = run (call t c) cs

  abbrev pub start : ℕ → Trace A
  start n = record { queue = make n; pushed = []; taken = []; waited = 0 }

  pub record Inv (n : ℕ) (t : Trace A) : Type ℓ where
    pub fifo : t.taken ++ t.queue.q ≡ t.pushed
    pub counted : t.queue.current_size ≡ length t.queue.q + t.waited
    pub bounded : t.queue.current_size ≤ n
    pub capacity : t.queue.cm_size ≡ n

  pub List-cases : (xs : List A) → (xs ≡ []) ⊎ ((x : A) × (ys : List A) × (xs ≡ x ∷ ys))
  List-cases [] = inl refl
  List-cases (x ∷ ys) = inr (x, ys, refl)

  -- A wake-up keeps the invariant.
  wake-Inv :
      (n : ℕ) (t : Trace A) (s : Queue A)
      → Inv n t
      → s.q ≡ t.queue.q
      → s.current_size ≡ t.queue.current_size
      → s.cm_size ≡ t.queue.cm_size
      → Inv n (note_wait t (wake s))
  unfolding call pop_front
  wake-Inv n t s v e f g = elim (Bool-cases s.stopped) [
    | inl halted ↦ rw (halted, wake) (ground arith)
    | inr going ↦ elim (List-cases s.q) [
      | inl none_left ↦ rw (going, wake, none_left, pop_front) (ground arith)
      | inr (x, ys, here) ↦
          rw (going, wake, here, pop_front) (ground (arith, append_assoc t.taken (x ∷ []) ys))
    ]
  ]

  call-Inv : (n : ℕ) (t : Trace A) (c : Call A) → Inv n t → Inv n (call t c)
  unfolding call pop_front
  call-Inv n t (push x) v =
      ground (arith, append_assoc t.taken t.queue.q (x ∷ []), length-append t.queue.q (x ∷ []))
  call-Inv n t pop v = elim (List-cases t.queue.q) [
    | inl none_left ↦ rw (none_left, try_pop, pop_front, note_pop) (ground arith)
    | inr (x, ys, here) ↦
        rw (here, try_pop, pop_front, note_pop) (ground (arith, append_assoc t.taken (x ∷ []) ys))
  ]
  call-Inv n t halt v = ground arith
  call-Inv n t enter v =
      wake-Inv n t (record t.queue { nblocked_pop = t.queue.nblocked_pop + 1 }) v refl refl refl
  call-Inv n t run_on v = elim (Bool-cases (ltb t.queue.asleep_pop t.queue.nblocked_pop)) [
    | inl awake ↦ rw (awake, call) (wake-Inv n t t.queue v refl refl refl)
    | inr nobody ↦ rw (nobody, call) v
  ]
  call-Inv n t spurious v = ground arith

  pub run-Inv : (n : ℕ) (t : Trace A) (cs : List (Call A)) → Inv n t → Inv n (run t cs)
  unfolding run
  run-Inv n t [] v = v
  run-Inv n t (c ∷ cs) v = run-Inv n (call t c) cs (call-Inv n t c v)

  pub start-Inv : (n : ℕ) → Inv n (start n)
  start-Inv n = record { fifo = refl; counted = refl; bounded = omega arith; capacity = refl }

  -- After any calls by any threads, the elements taken out and those still held are, in order, the
  -- elements that `try_push` accepted, and at most `n` are held.
  pub run_fifo :
      (n : ℕ) (cs : List (Call A))
      → ((run (start n) cs).taken ++ (run (start n) cs).queue.q ≡ (run (start n) cs).pushed)
        × (length (run (start n) cs).queue.q ≤ n)
  run_fifo n cs =
      let v : Inv n (run (start n) cs) = run-Inv n (start n) cs (start-Inv n) in
      (v.fifo, omega (arith, v.counted, v.bounded))

  -- After any calls, `try_push` refuses exactly if the elements held and those that `wait_and_pop`
  -- ever took number `n`: `wait_and_pop` frees no room.
  pub try_push-refuses :
      (n : ℕ) (cs : List (Call A)) (x : A)
      → ((try_push (run (start n) cs).queue x).1 ≡ false)
        ↔ (length (run (start n) cs).queue.q + (run (start n) cs).waited ≡ n)
  unfolding try_push
  try_push-refuses n cs x =
      let v : Inv n (run (start n) cs) = run-Inv n (start n) cs (start-Inv n) in
      ground (arith, v.counted, v.capacity)

  unfoldable pub is_public : Call A → Bool
  is_public (push x) = true
  is_public pop = true
  is_public halt = false
  is_public enter = false
  is_public run_on = false
  is_public spurious = false

  unfoldable pub all_public : List (Call A) → Bool
  unfolding is_public
  all_public [] = true
  all_public (c ∷ cs) = is_public c && all_public cs

  waited-note_pop : (t : Trace A) (p : Queue A × Option A) → (note_pop t p).waited ≡ t.waited
  unfolding note_pop
  waited-note_pop t (s, none) = refl
  waited-note_pop t (s, some x) = refl

  waited-run :
      (t : Trace A) (cs : List (Call A)) → all_public cs ≡ true → (run t cs).waited ≡ t.waited
  unfolding run all_public is_public pop_front
  waited-run t [] h = refl
  waited-run t (push x ∷ cs) h = waited-run (call t (push x)) cs h
  waited-run t (pop ∷ cs) h = waited-run (call t pop) cs h ∙ waited-note_pop t (try_pop t.queue)
  waited-run t (halt ∷ cs) h = cc
  waited-run t (enter ∷ cs) h = cc
  waited-run t (run_on ∷ cs) h = cc
  waited-run t (spurious ∷ cs) h = cc

  -- With `try_push` and `try_pop` alone, `try_push` refuses exactly if `n` elements are held.
  pub public-refuses :
      (n : ℕ) (cs : List (Call A)) (x : A)
      → all_public cs ≡ true
      → ((try_push (run (start n) cs).queue x).1 ≡ false) ↔ (length (run (start n) cs).queue.q ≡ n)
  public-refuses n cs x h =
      let e : (run (start n) cs).waited ≡ 0 = waited-run (start n) cs h in
      let f : length (run (start n) cs).queue.q + (run (start n) cs).waited
          ≡ length (run (start n) cs).queue.q =
        omega arith in
      let r = try_push-refuses n cs x in (λ q. sym f ∙ r.0 q, λ q. r.1 (f ∙ q))

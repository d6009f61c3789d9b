-- ===== src/BoundedQueue/Sleeping.antt =====
-- concurent_queues.h: `try_push` and `try_pop` wake no thread that sleeps inside `wait_and_pop`.
use cpp_tricks.Common.{
  ◌≡◌, refl, sym, ◌∙◌, Bool, Bool-cases, inl, inr, true, false, List, [], ◌∷◌, ◌==◌, ltb, arith,
}
use cpp_tricks.BoundedQueue.{try_push, try_pop, pop_front}
use cpp_tricks.BoundedQueue.Traces.{
  Call, push, pop, halt, enter, run_on, spurious, Trace, note_push, note_pop, call, run, List-cases,
}

module _ {ℓ} {A : Type ℓ} where
  -- Calls of `try_push` and `try_pop`, and threads that are not asleep and run on.
  unfoldable pub all_plain : List (Call A) → Bool
  all_plain [] = true
  all_plain (push x ∷ cs) = all_plain cs
  all_plain (pop ∷ cs) = all_plain cs
  all_plain (run_on ∷ cs) = all_plain cs
  all_plain (halt ∷ cs) = false
  all_plain (enter ∷ cs) = false
  all_plain (spurious ∷ cs) = false

  -- The threads inside `wait_and_pop`, those of them that sleep, and what they took.
  pub record SameWaits (t t' : Trace A) : Type ℓ where
    pub inside : t'.queue.nblocked_pop ≡ t.queue.nblocked_pop
    pub asleep : t'.queue.asleep_pop ≡ t.queue.asleep_pop
    pub took : t'.waited ≡ t.waited

  SameWaits-refl : (t : Trace A) → SameWaits t t
  SameWaits-refl t = record { inside = refl; asleep = refl; took = refl }

  SameWaits-trans : (t u v : Trace A) → SameWaits t u → SameWaits u v → SameWaits t v
  SameWaits-trans t u v p q = record {
    inside = q.inside ∙ p.inside;
    asleep = q.asleep ∙ p.asleep;
    took = q.took ∙ p.took;
  }

  push-SameWaits : (t : Trace A) (x : A) → SameWaits t (call t (push x))
  unfolding call note_push try_push
  push-SameWaits t x = elim (Bool-cases (t.queue.current_size == t.queue.cm_size)) [
    | inl full ↦ ground arith
    | inr room ↦ ground arith
  ]

  pop-SameWaits : (t : Trace A) → SameWaits t (call t pop)
  unfolding call note_pop try_pop pop_front
  pop-SameWaits t = elim (List-cases t.queue.q) [
    | inl none_left ↦ ground arith
    | inr (x, ys, here) ↦ ground arith
  ]

  run_on-asleep :
      (t : Trace A) → t.queue.asleep_pop ≡ t.queue.nblocked_pop → SameWaits t (call t run_on)
  unfolding call
  run_on-asleep t e =
      let nobody : ltb t.queue.asleep_pop t.queue.nblocked_pop ≡ false = ground (arith, e) in
      rw (nobody, call) (SameWaits-refl t)

  -- While every thread inside `wait_and_pop` sleeps, calls of `try_push` and `try_pop` leave all of
  -- them there asleep, whatever is pushed: none takes an element.
  pub pushes_wake_nobody :
      (t : Trace A) (cs : List (Call A))
      → t.queue.asleep_pop ≡ t.queue.nblocked_pop
      → all_plain cs ≡ true
      → SameWaits t (run t cs)
  unfolding run all_plain
  pushes_wake_nobody t [] e h = SameWaits-refl t
  pushes_wake_nobody t (push x ∷ cs) e h =
      let first = push-SameWaits t x in
      SameWaits-trans t (call t (push x)) (run (call t (push x)) cs) first
        (pushes_wake_nobody (call t (push x)) cs (first.asleep ∙ e ∙ sym first.inside) h)
  pushes_wake_nobody t (pop ∷ cs) e h =
      let first = pop-SameWaits t in
      SameWaits-trans t (call t pop) (run (call t pop) cs) first
        (pushes_wake_nobody (call t pop) cs (first.asleep ∙ e ∙ sym first.inside) h)
  pushes_wake_nobody t (run_on ∷ cs) e h =
      let first = run_on-asleep t e in
      SameWaits-trans t (call t run_on) (run (call t run_on) cs) first
        (pushes_wake_nobody (call t run_on) cs (first.asleep ∙ e ∙ sym first.inside) h)
  pushes_wake_nobody t (halt ∷ cs) e h = let clash : ⊥ = cc in absurd clash
  pushes_wake_nobody t (enter ∷ cs) e h = let clash : ⊥ = cc in absurd clash
  pushes_wake_nobody t (spurious ∷ cs) e h = let clash : ⊥ = cc in absurd clash

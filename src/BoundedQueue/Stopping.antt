-- ===== src/BoundedQueue/Stopping.antt =====
-- concurent_queues.h: who sleeps inside `wait_and_pop`, and how `stop` gets the threads out.
use cpp_tricks.Common.{
  ℕ, zero, suc, ◌+◌, ◌≤◌, ◌≡◌, refl, ap, ◌∙◌, Bool-cases, inl, inr, true, List, [], ◌∷◌, ◌==◌, ltb,
  replicate, arith, subst,
}
use cpp_tricks.BoundedQueue.{
  Queue, try_push, try_pop, pop_front, stop, stop_may_return, wake, wait_and_pop,
}
use cpp_tricks.BoundedQueue.Traces.{
  Call, push, pop, halt, enter, run_on, spurious, Trace, note_push, note_pop, note_wait, call, run,
  start, List-cases,
}

module _ {ℓ} {A : Type ℓ} where
  -- Only threads inside `wait_and_pop` sleep, and none once the queue is stopped.
  pub record AreAsleep (s : Queue A) : Type ℓ where
    pub inside : s.asleep_pop ≤ s.nblocked_pop
    pub woken : s.stopped ≡ true → s.asleep_pop ≡ 0
    pub no_push : s.nblocked_push ≡ 0

  wake-AreAsleep :
      (t : Trace A) (s : Queue A)
      → AreAsleep s
      → s.asleep_pop + 1 ≤ s.nblocked_pop
      → AreAsleep (note_wait t (wake s)).queue
  unfolding note_wait wake pop_front
  wake-AreAsleep t s v awake = elim (Bool-cases s.stopped) [
    | inl halted ↦
        rw (halted, wake) (record { inside = omega arith; woken = λ e. refl; no_push = v.no_push })
    | inr going ↦ elim (List-cases s.q) [
      | inl none_left ↦
          rw (going, wake, none_left, pop_front)
            (record {
              inside = awake;
              woken = λ e. let clash : ⊥ = cc in absurd clash;
              no_push = v.no_push;
            })
      | inr (x, ys, here) ↦
          rw (going, wake, here, pop_front)
            (record {
              inside = omega (arith, awake);
              woken = λ e. let clash : ⊥ = cc in absurd clash;
              no_push = v.no_push;
            })
    ]
  ]

  -- `try_pop` leaves the waits alone.
  pop-AreAsleep : (t : Trace A) → AreAsleep t.queue → AreAsleep (note_pop t (try_pop t.queue)).queue
  unfolding note_pop try_pop pop_front
  pop-AreAsleep t v = elim (List-cases t.queue.q) [
    | inl none_left ↦ ground arith
    | inr (x, ys, here) ↦ ground arith
  ]

  stopped-pop :
      (t : Trace A) → t.queue.stopped ≡ true → (note_pop t (try_pop t.queue)).queue.stopped ≡ true
  unfolding note_pop try_pop pop_front
  stopped-pop t h = elim (List-cases t.queue.q) [
    | inl none_left ↦ ground arith
    | inr (x, ys, here) ↦ ground arith
  ]

  call-AreAsleep : (t : Trace A) (c : Call A) → AreAsleep t.queue → AreAsleep (call t c).queue
  unfolding call note_push note_pop try_push try_pop pop_front stop wait_and_pop
  call-AreAsleep t (push x) v = elim (Bool-cases (t.queue.current_size == t.queue.cm_size)) [
    | inl full ↦ rw (full, call, try_push, note_push) v
    | inr room ↦
        rw (room, call, try_push, note_push)
          (record { inside = v.inside; woken = v.woken; no_push = v.no_push })
  ]
  call-AreAsleep t pop v = pop-AreAsleep t v
  call-AreAsleep t halt v = record { inside = omega arith; woken = λ e. refl; no_push = v.no_push }
  call-AreAsleep t enter v =
      let le = v.inside in
      wake-AreAsleep t (record t.queue { nblocked_pop = t.queue.nblocked_pop + 1 })
        (record { inside = omega (arith, le); woken = v.woken; no_push = v.no_push })
        (omega (arith, le))
  call-AreAsleep t run_on v = elim (Bool-cases (ltb t.queue.asleep_pop t.queue.nblocked_pop)) [
    | inl awake ↦ rw (awake, call) (wake-AreAsleep t t.queue v (ground (arith, awake)))
    | inr nobody ↦ rw (nobody, call) v
  ]
  call-AreAsleep t spurious v =
      let le = v.inside in
      record {
        inside = omega (arith, le);
        woken = λ e. let none_asleep = v.woken e in omega (arith, none_asleep);
        no_push = v.no_push;
      }

  run-AreAsleep :
      (t : Trace A) (cs : List (Call A)) → AreAsleep t.queue → AreAsleep (run t cs).queue
  unfolding run
  run-AreAsleep t [] v = v
  run-AreAsleep t (c ∷ cs) v = run-AreAsleep (call t c) cs (call-AreAsleep t c v)

  start-AreAsleep : (n : ℕ) → AreAsleep (start {A = A} n).queue
  start-AreAsleep n = record { inside = omega arith; woken = λ e. refl; no_push = refl }

  stopped-wake :
      (t : Trace A) (s : Queue A) → s.stopped ≡ true → (note_wait t (wake s)).queue.stopped ≡ true
  unfolding note_wait wake
  stopped-wake t s h = ground (arith, h)

  -- No call undoes `stop`.
  stopped-call :
      (t : Trace A) (c : Call A) → t.queue.stopped ≡ true → (call t c).queue.stopped ≡ true
  unfolding call note_push note_pop try_push try_pop pop_front stop wait_and_pop
  stopped-call t (push x) h = elim (Bool-cases (t.queue.current_size == t.queue.cm_size)) [
    | inl full ↦ rw (full, call, try_push, note_push) h
    | inr room ↦ rw (room, call, try_push, note_push) h
  ]
  stopped-call t pop h = stopped-pop t h
  stopped-call t halt h = refl
  stopped-call t enter h =
      stopped-wake t (record t.queue { nblocked_pop = t.queue.nblocked_pop + 1 }) h
  stopped-call t run_on h = elim (Bool-cases (ltb t.queue.asleep_pop t.queue.nblocked_pop)) [
    | inl awake ↦ rw (awake, call) (stopped-wake t t.queue h)
    | inr nobody ↦ rw (nobody, call) h
  ]
  stopped-call t spurious h = h

  stopped-run :
      (t : Trace A) (cs : List (Call A)) → t.queue.stopped ≡ true → (run t cs).queue.stopped ≡ true
  unfolding run
  stopped-run t [] h = h
  stopped-run t (c ∷ cs) h = stopped-run (call t c) cs (stopped-call t c h)

  -- A thread that runs on once the queue is stopped leaves and takes nothing.
  run_on-stopped :
      (t : Trace A) (k : ℕ)
      → t.queue.stopped ≡ true
      → t.queue.asleep_pop ≡ 0
      → t.queue.nblocked_pop ≡ suc k
      → call t run_on ≡ record t { queue = record t.queue { nblocked_pop = k; asleep_pop = 0 } }
  unfolding call wake note_wait
  run_on-stopped t k h none_asleep e = ground arith

  all_leave :
      (k : ℕ) (t : Trace A)
      → t.queue.stopped ≡ true
      → t.queue.asleep_pop ≡ 0
      → t.queue.nblocked_pop ≡ k
      → run t (replicate k run_on)
        ≡ record t { queue = record t.queue { nblocked_pop = 0; asleep_pop = 0 } }
  unfolding run
  all_leave zero t h none_asleep e =
      λ i. record t { queue = record t.queue { nblocked_pop = e i; asleep_pop = none_asleep i } }
  all_leave (suc k) t h none_asleep e =
      let t' = record t { queue = record t.queue { nblocked_pop = k; asleep_pop = 0 } } in
      ap (λ u. run u (replicate k run_on)) (run_on-stopped t k h none_asleep e)
      ∙ all_leave k t' h refl refl

  -- After any calls, then `stop`, then any calls, no thread sleeps inside `wait_and_pop`: once each
  -- thread there ran on, none is left, no element was taken by them, and `stop(true)` may return.
  pub stop_releases :
      (n : ℕ) (cs cs' : List (Call A)) (t : Trace A)
      → run (call (run (start n) cs) halt) cs' ≡ t
      → (t.queue.asleep_pop ≡ 0)
        × (run t (replicate t.queue.nblocked_pop run_on)
            ≡ record t { queue = record t.queue { nblocked_pop = 0; asleep_pop = 0 } })
        × (stop_may_return (run t (replicate t.queue.nblocked_pop run_on)).queue ≡ true)
  unfolding call stop
  stop_releases n cs cs' t reached =
      let halted = call (run (start n) cs) halt in
      let before = run-AreAsleep (start n) cs (start-AreAsleep n) in
      let after : AreAsleep t.queue =
        subst (λ u. AreAsleep u.queue) reached
          (run-AreAsleep halted cs' (call-AreAsleep (run (start n) cs) halt before)) in
      let stays : t.queue.stopped ≡ true =
        subst (λ u. u.queue.stopped ≡ true) reached (stopped-run halted cs' refl) in
      let none_asleep = after.woken stays in
      let left = all_leave t.queue.nblocked_pop t stays none_asleep refl in
      let none_pushing = after.no_push in
      (none_asleep, left, ap (λ u. stop_may_return u.queue) left ∙ ground (arith, none_pushing))

-- ===== src/BoundedQueue/Messages.antt =====
-- projects/high_perf/parallel_data_structures/safe_queue_cc11.h, `class message_queue`: `dequeue`
-- waits while the queue is empty. A dequeue that is let in is one step; one that waits is none.
use cpp_tricks.Common.{
  append-nil, Option, none, some, List, [], ◌∷◌, ◌++◌, ◌≡◌, ap, sym, ◌∙◌, append_assoc,
}

module _ {ℓ} {A : Type ℓ} where
  unfoldable pub enqueue : List A → A → List A
  enqueue q t = q ++ (t ∷ [])

  -- `none` is a thread that waits.
  unfoldable pub dequeue : List A → Option (A × List A)
  dequeue [] = none
  dequeue (x ∷ q) = some (x, q)

pub data Message {ℓ} (A : Type ℓ) : Type ℓ where
  send : A → Message A
  receive : Message A

module _ {ℓ} {A : Type ℓ} where
  -- The queue and what was received, after messages by any threads.
  unfoldable pub deliver : List A × List A → List (Message A) → List A × List A
  unfolding enqueue dequeue
  deliver (q, got) [] = (q, got)
  deliver (q, got) (send x ∷ ms) = deliver (enqueue q x, got) ms
  deliver (q, got) (receive ∷ ms) = elim (dequeue q) [
    | none ↦ deliver (q, got) ms
    | some (x, q') ↦ deliver (q', got ++ (x ∷ [])) ms
  ]

  pub sent : List (Message A) → List A
  sent [] = []
  sent (send x ∷ ms) = x ∷ sent ms
  sent (receive ∷ ms) = sent ms

  deliver-sent :
      (q got : List A) (ms : List (Message A))
      → (deliver (q, got) ms).1 ++ (deliver (q, got) ms).0 ≡ got ++ q ++ sent ms
  unfolding deliver sent
  deliver-sent q got [] = sym (append-nil (got ++ q))
  deliver-sent q got (send x ∷ ms) =
      deliver-sent (q ++ (x ∷ [])) got ms
      ∙ ap (λ l. l ++ sent ms) (sym (append_assoc got q (x ∷ [])))
      ∙ append_assoc (got ++ q) (x ∷ []) (sent ms)
  deliver-sent [] got (receive ∷ ms) = deliver-sent [] got ms
  deliver-sent (x ∷ q) got (receive ∷ ms) =
      deliver-sent q (got ++ (x ∷ [])) ms ∙ ap (λ l. l ++ sent ms) (append_assoc got (x ∷ []) q)

  -- From an empty queue, what the receivers got and what is still queued are, in order, exactly
  -- what was sent.
  pub messages_fifo :
      (ms : List (Message A)) → (deliver ([], []) ms).1 ++ (deliver ([], []) ms).0 ≡ sent ms
  messages_fifo ms = deliver-sent [] [] ms

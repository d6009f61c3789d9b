-- ===== src/BoundedQueue/Tests.antt =====
-- Short traces of calls, run.
use cpp_tricks.Common.{
  ℕ, ◌+◌, ◌≤◌, ◌≡◌, refl, ◌↔◌, true, false, List, [], ◌∷◌, ◌++◌, length, replicate,
}
use cpp_tricks.BoundedQueue.{try_push, stop_may_return}
use cpp_tricks.BoundedQueue.Traces.{
  Call, push, pop, enter, halt, run_on, call, Trace, start, run, run_fifo, try_push-refuses,
}
use cpp_tricks.BoundedQueue.Sleeping.{all_plain, SameWaits, pushes_wake_nobody}
use cpp_tricks.BoundedQueue.Stopping.{stop_releases}
use cpp_tricks.BoundedQueue.Messages.{Message, send, receive, deliver, sent, messages_fifo}

abbrev calls : List (Call ℕ)
calls = push 1 ∷ push 2 ∷ push 3 ∷ pop ∷ enter ∷ enter ∷ []

trace_example : run (start 2) calls ≡ record {
  queue = record {
    current_size = 1;
    q = [];
    nblocked_pop = 1;
    nblocked_push = 0;
    asleep_pop = 1;
    stopped = false;
    cm_size = 2;
  };
  pushed = 1 ∷ 2 ∷ [];
  taken = 1 ∷ 2 ∷ [];
  waited = 1;
}
unfolding run
trace_example = refl

-- The queue is empty, and refuses.
drift : (try_push {A = ℕ} (run (start 1) (push 1 ∷ enter ∷ [])).queue 2).1 ≡ false
unfolding run
drift = refl

run_fifo_example :
    ((run (start 2) calls).taken ++ (run (start 2) calls).queue.q ≡ (run (start 2) calls).pushed)
    × (length (run (start 2) calls).queue.q ≤ 2)
run_fifo_example = run_fifo 2 calls

try_push-refuses_example :
    ((try_push (run (start 2) calls).queue 7).1 ≡ false)
    ↔ (length (run (start 2) calls).queue.q + (run (start 2) calls).waited ≡ 2)
try_push-refuses_example = try_push-refuses 2 calls 7

abbrev public_calls : List (Call ℕ)
public_calls = push 1 ∷ push 2 ∷ pop ∷ []

-- A push wakes nobody up: the thread that waits for an element sleeps on beside it.
unwoken : (run {A = ℕ} (start 2) (enter ∷ push 5 ∷ run_on ∷ [])).taken ≡ []
unfolding run
unwoken = refl

-- A thread that fell asleep in `wait_and_pop`.
abbrev sleeper : Trace ℕ
unfolding run
sleeper = run (start 2) (enter ∷ [])

abbrev two_pushes : List (Call ℕ)
two_pushes = push 5 ∷ run_on ∷ push 6 ∷ run_on ∷ []

all_asleep : sleeper.queue.asleep_pop ≡ sleeper.queue.nblocked_pop
unfolding run
all_asleep = refl

two_pushes-plain : all_plain two_pushes ≡ true
unfolding all_plain
two_pushes-plain = refl

pushes_wake_nobody_example : SameWaits sleeper (run sleeper two_pushes)
pushes_wake_nobody_example = pushes_wake_nobody sleeper two_pushes all_asleep two_pushes-plain

-- Two threads inside `wait_and_pop` of a stopped queue.
abbrev two_inside : Trace ℕ
two_inside = record {
  queue = record {
    current_size = 0;
    q = [];
    nblocked_pop = 2;
    nblocked_push = 0;
    asleep_pop = 0;
    stopped = true;
    cm_size = 2;
  };
  pushed = [];
  taken = [];
  waited = 0;
}

two_inside-reached : run (call (run (start 2) (enter ∷ enter ∷ [])) halt) (pop ∷ []) ≡ two_inside
unfolding run
two_inside-reached = refl

stop_releases_example :
    (two_inside.queue.asleep_pop ≡ 0)
    × (run two_inside (replicate two_inside.queue.nblocked_pop run_on) ≡ record two_inside {
      queue = record two_inside.queue { nblocked_pop = 0; asleep_pop = 0 };
    })
    × (stop_may_return (run two_inside (replicate two_inside.queue.nblocked_pop run_on)).queue
        ≡ true)
stop_releases_example =
    stop_releases 2 (enter ∷ enter ∷ []) (pop ∷ []) two_inside two_inside-reached

abbrev messages : List (Message ℕ)
messages = receive ∷ send 4 ∷ send 5 ∷ receive ∷ []

delivery_example : deliver ([], []) messages ≡ (5 ∷ [], 4 ∷ [])
unfolding deliver
delivery_example = refl

messages_fifo_example :
    (deliver ([], []) messages).1 ++ (deliver ([], []) messages).0 ≡ sent messages
messages_fifo_example = messages_fifo messages

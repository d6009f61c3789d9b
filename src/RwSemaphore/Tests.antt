-- ===== src/RwSemaphore/Tests.antt =====
-- Two readers and a writer, run.
use cpp_tricks.Common.{
  ℕ, ◌+◌, ◌^◌, ◌≡◌, ◌≢◌, refl, true, false, some, List, [], ◌∷◌, Bool, arith, get_elem?,
}
use cpp_tricks.RwSemaphore.{idle, reading, drain, writing, aborted, run}
use cpp_tricks.RwSemaphore.Safety.{init, reads, writes, writer_excludes, never_aborts}

-- A reader enters, the writer claims the lock and waits, the reader leaves, the writer enters.
abbrev schedule : List (ℕ × Bool)
schedule =
    (0, false)
    ∷ (0, false)
    ∷ (1, true)
    ∷ (1, true)
    ∷ (1, true)
    ∷ (0, false)
    ∷ (0, false)
    ∷ (1, true)
    ∷ []

writer_waits :
    run (init 2) ((0, false) ∷ (0, false) ∷ (1, true) ∷ (1, true) ∷ (1, true) ∷ [])
    ≡ record { word = 2 ^ 31 + 1; threads = reading ∷ drain ∷ [] }
unfolding run
writer_waits = refl

writer_enters : run (init 2) schedule ≡ record { word = 2 ^ 31; threads = idle ∷ writing ∷ [] }
unfolding run
writer_enters = refl

writer_excludes_example : (reads idle ≡ 0) × (writes idle ≡ 0)
unfolding run
writer_excludes_example = writer_excludes 2 schedule 1 0 (omega arith) (omega arith) refl refl

never_aborts_example : get_elem? (run (init 2) schedule).threads 0 ≢ some aborted
never_aborts_example = never_aborts 2 schedule 0 (omega arith)

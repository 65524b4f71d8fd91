-- ===== src/Threads/Tests.antt =====
-- Short schedules of the two threads at a queue of two cells.
use raft_lib.Threads.{Turn, write, close, read, State, run}
use raft_lib.Threads.Order.{start, run-pushed, run-ended}
use raft_lib.Threads.Progress.{writer_progress, reader_progress}
use raft_lib.Prelude.{ℕ, ◌≡◌, refl, ◌≤◌, List, [], ◌∷◌, ◌++◌, length, false, arith}

abbrev fresh : State ℕ
fresh = start (λ _. 0) (λ _. 0) 2 (0, 0)

-- The reader asks twice while an item is written, and takes it.
abbrev mixed : List (Turn ℕ)
mixed =
    write (5, 0)
    ∷ read
    ∷ write (5, 0)
    ∷ write (5, 0)
    ∷ write (5, 0)
    ∷ read
    ∷ write (5, 0)
    ∷ read
    ∷ read
    ∷ read
    ∷ write (5, 0)
    ∷ read
    ∷ read
    ∷ read
    ∷ []

-- The same, with the queue made invalid before the reader's next call.
abbrev to_the_end : List (Turn ℕ)
to_the_end =
    mixed
    ++ write (5, 0)
      ∷ read
      ∷ close
      ∷ read
      ∷ read
      ∷ read
      ∷ read
      ∷ read
      ∷ read
      ∷ read
      ∷ read
      ∷ read
      ∷ read
      ∷ []

mixed_test : (run mixed fresh).pushed ≡ (5, 0) ∷ []
unfolding run
mixed_test = refl

run-pushed_example :
    (rest : List (ℕ × ℕ)) × ((run mixed fresh).pushed ≡ (run mixed fresh).popped ++ rest)
    × (length rest ≤ 2)
run-pushed_example =
    run-pushed (λ _. 0) (λ _. 0) 2 (0, 0) mixed (omega arith) (omega arith) (omega arith)

run-ended_example :
    ((run to_the_end fresh).popped ≡ (run to_the_end fresh).pushed)
    × ((run to_the_end fresh).is_valid ≡ false)
unfolding run
run-ended_example =
    run-ended (λ _. 0) (λ _. 0) 2 (0, 0) to_the_end (omega arith) (omega arith) (omega arith) refl

reader_progress_example :
    (us : List (Turn ℕ)) × (y : ℕ × ℕ) × (rest : List (ℕ × ℕ)) × ((run us (run mixed fresh)).popped
      ≡ (run mixed fresh).popped ++ y ∷ [])
    × ((run mixed fresh).pushed ≡ ((run mixed fresh).popped ++ y ∷ []) ++ rest)
unfolding run
reader_progress_example =
    reader_progress (λ _. 0) (λ _. 0) 2 (0, 0) mixed (omega arith) (omega arith) (omega arith)
      (omega arith)

writer_progress_example :
    (us : List (Turn ℕ)) × (y : ℕ × ℕ) × ((run us (run mixed fresh)).pushed
      ≡ (run mixed fresh).pushed ++ y ∷ [])
unfolding run
writer_progress_example =
    writer_progress (λ _. 0) (λ _. 0) 2 (0, 0) mixed (omega arith) (omega arith) (omega arith)
      (omega arith) refl

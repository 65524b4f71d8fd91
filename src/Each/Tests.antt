-- ===== src/Each/Tests.antt =====
-- A range of three items through a queue for two.
use raft_lib.Each.{Kernel, read_each, write_each, schedule, program}
use raft_lib.Each.Copied.{program-written}
use raft_lib.Prelude.{ℕ, ◌≤◌, ◌≡◌, List, [], ◌∷◌, ◌++◌, length, true, refl, arith}

abbrev three : List ℕ
three = 4 ∷ 5 ∷ 6 ∷ []

-- The reader finds the queue full once.
abbrev some_turns : List Kernel
some_turns = read_each ∷ read_each ∷ read_each ∷ write_each ∷ read_each ∷ []

queue_test : (schedule some_turns (program 2 three)).queue ≡ 6 ∷ []
unfolding schedule
queue_test = refl

program-written_example :
    (rest : List ℕ) × (us : List Kernel) × (three
      ≡ (schedule some_turns (program 2 three)).written
        ++ ((schedule some_turns (program 2 three)).queue ++ rest))
    × (length (schedule some_turns (program 2 three)).queue ≤ 2)
    × ((schedule us (schedule some_turns (program 2 three))).written ≡ three)
    × ((schedule us (schedule some_turns (program 2 three))).stopped ≡ true)
program-written_example = program-written 2 three some_turns (omega arith)

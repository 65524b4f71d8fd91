-- ===== src/Schedule/Tests.antt =====
-- Kernels with few ports, on which the theorems about the scheduler are run.
use raft_lib.Schedule.Rounds.{ThreadInfo, start}
use raft_lib.Schedule.Ended.{start-all_joined, all_joined}
use raft_lib.Prelude.{contains, ℕ, ◌≡◌, refl, arith, List, [], ◌∷◌, true, false, some, none, ◌⊎◌}
use raft_lib.Schedule.{
  Kernel, ports_have_data, Port, Status, stop, proceed, any_port, kernel_run, kernel_has_input_data,
  all_invalid, fifo_gc, no_ptrs, PtrSets,
}
use raft_lib.Schedule.Collect.{IsSorted, Above, without, fifo_gc-frees, fifo_gc-overrun}
use raft_lib.Schedule.Finish.{
  Feeds, ArePeers, IsExhausted, kernel_run-IsExhausted, kernel_run-starved,
}

Feeds-refl : (ps : List (Port ℕ)) → Feeds ps ps
unfolding Feeds
Feeds-refl [] = refl
Feeds-refl (p ∷ ps) = (p, ps, refl, λ _. refl, Feeds-refl ps)

-- The other kernels do nothing.
abbrev idle : Kernel ℕ → Kernel ℕ
idle k = k

idle-ArePeers : ArePeers idle
idle-ArePeers = record {
  feeds = λ k. Feeds-refl k.input;
  same_behaviour = λ _. refl;
  same_outputs = λ _. refl;
}

-- One closed and drained input, one open output.
abbrev ended : Kernel ℕ
ended = record {
  input = record { items = []; is_valid = false } ∷ [];
  output = record { items = 5 ∷ []; is_valid = true } ∷ [];
  sched_behav = any_port;
}

abbrev pass : Kernel ℕ → Status × Kernel ℕ
pass k = (proceed, k)

kernel_run-IsExhausted_example :
    ((kernel_has_input_data ended ≡ true) × (proceed ≡ stop))
    ⊎ IsExhausted (kernel_run pass idle false ended).2
unfolding all_invalid ports_have_data kernel_run
kernel_run-IsExhausted_example =
    kernel_run-IsExhausted pass idle idle-ArePeers ended
      (kernel_run-starved pass idle idle-ArePeers ended refl refl).1

abbrev ptrs : List ℕ → PtrSets
ptrs out = record { taken = 16 ∷ 32 ∷ 48 ∷ []; out = out; peekset = 32 ∷ 64 ∷ [] }

fifo_gc-frees_example : fifo_gc (ptrs (32 ∷ [])) ≡ some (16 ∷ 48 ∷ [], no_ptrs)
unfolding IsSorted Above contains without
fifo_gc-frees_example =
    fifo_gc-frees (ptrs (32 ∷ [])) (omega arith) (tt, tt) (λ x h. ground (arith, h))

fifo_gc-overrun_example : fifo_gc (ptrs (64 ∷ [])) ≡ none
unfolding contains
fifo_gc-overrun_example = fifo_gc-overrun (ptrs (64 ∷ [])) 64 refl refl

abbrev two_threads : List ThreadInfo
two_threads =
    record { finished = true; term = false } ∷ record { finished = false; term = false } ∷ []

abbrev both_finish : List ThreadInfo → List ThreadInfo
both_finish us =
    record { finished = true; term = true } ∷ record { finished = true; term = false } ∷ []

start-all_joined_example :
    (us : List ThreadInfo) × (start ((λ ts. ts) ∷ both_finish ∷ []) two_threads ≡ some us)
    × (all_joined us ≡ true)
start-all_joined_example = start-all_joined ((λ ts. ts) ∷ []) both_finish two_threads (λ us. refl)

-- ===== src/Alloc/Tests.antt =====
-- Two links between kernels without queues, and a link that is monitored.
use raft_lib.Prelude.{List, [], ◌∷◌, none, arith, refl, ◌≡◌, true, false, Bool}
use raft_lib.Alloc.{Slot, Slots, Watch, allocate_all, monitor, hash, mon_func, resize_link}
use raft_lib.Alloc.Shared.{Edge, IsOwned, AllShared, allocate_all-AllShared}

abbrev slot : Slot
slot = record {
  fifo = none;
  existing_buffer = none;
  nitems = 0;
  start_index = 0;
  fixed_buffer_size = 0;
}

abbrev slots : Slots
slots = record {
  output = λ _ _. slot;
  input = λ _ _. slot;
  made = λ _. none;
  next_fifo = 1;
  allocated_fifo = [];
}

slots-IsOwned : IsOwned slots
slots-IsOwned = record {
  old_out = λ k n f h. absurd (ground (arith, h));
  old_in = λ k n f h. absurd (ground (arith, h));
  one_out = λ k n l m f h g. absurd (ground (arith, h));
  one_in = λ k n l m f h g. absurd (ground (arith, h));
}

abbrev links : List Edge
links = (1, 10, 2, 20) ∷ (1, 11, 3, 20) ∷ []

allocate_all-AllShared_example :
    (t : Slots) × (allocate_all links slots ≡ (none, t)) × IsOwned t × AllShared links t
allocate_all-AllShared_example =
    allocate_all-AllShared links slots slots-IsOwned
      (refl, refl, (refl, refl, tt), (refl, refl, tt, tt))

abbrev watch : Watch
watch = record { size_map = λ _. 1; capacity = 64; resizeable = true; running = true }

abbrev intervals : List Bool
intervals = true ∷ false ∷ true ∷ true ∷ true ∷ []

monitor_test : (monitor 0 (hash 70000 5) intervals watch).capacity ≡ 128
unfolding monitor mon_func hash resize_link
monitor_test = refl

-- The queue is over a caller's array.
attached_test : (monitor 0 9 intervals (record watch { resizeable = false })).capacity ≡ 64
unfolding monitor mon_func resize_link
attached_test = refl

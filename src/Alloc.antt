-- ===== src/Alloc.antt =====
-- The allocators of queues: src/allocate.cpp, src/stdalloc.cpp and src/dynalloc.cpp. A queue is a
-- number; what the two sides of a link hold of it are the pointers of their port records.
pub mod Shared
pub mod Monitor
mod Tests
use raft_lib.Prelude.{
  ℕ, ◌+◌, ◌*◌, ◌%◌, Bool, List, [], ◌∷◌, Option, none, some, ◌==◌, if◌then◌else◌, ltb, word, ◌&&◌,
}
use raft_lib.Topology.{Failure, port_double_initialize}

-- The part of a `PortInfo` that an allocator reads and sets.
pub record Slot : Type 0 where
  pub fifo : Option ℕ
  pub existing_buffer : Option ℕ
  pub nitems : ℕ
  pub start_index : ℕ
  pub fixed_buffer_size : ℕ

-- The arguments that a queue was made with, but for the alignment, which the build sets.
pub data NewFifo : Type 0 where
  on_buffer : (items start buffer : ℕ) → NewFifo
  on_heap : (items : ℕ) → NewFifo

-- The ports of all kernels, and the queues that were made.
pub record Slots : Type 0 where
  pub output : ℕ → ℕ → Slot
  pub input : ℕ → ℕ → Slot
  pub made : ℕ → Option NewFifo
  pub next_fifo : ℕ
  pub allocated_fifo : List ℕ

abbrev pub initial_alloc_size : ℕ
initial_alloc_size = 64

unfoldable pub set_fifo : ℕ → ℕ → ℕ → (ℕ → ℕ → Slot) → ℕ → ℕ → Slot
set_fifo k n f slots l m =
    if (l == k) && (m == n) then record (slots l m) { fifo = some f } else slots l m

-- The queue that `allocate` makes for the output port of a link.
unfoldable pub fifo_for : Slot → NewFifo
fifo_for a = elim a.existing_buffer [
  | some p ↦ on_buffer a.nitems a.start_index p
  | none ↦ on_heap (if a.fixed_buffer_size == 0 then initial_alloc_size else a.fixed_buffer_size)
]

-- `Allocate::initialize`
unfoldable pub initialize : ℕ → ℕ → ℕ → ℕ → ℕ → Slots → Option Failure × Slots
unfolding set_fifo
initialize k n l m fifo s = elim (s.output k n).fifo [
  | some _ ↦ (some port_double_initialize, s)
  | none ↦ elim (s.input l m).fifo [
    | some _ ↦ (some port_double_initialize, s)
    | none ↦ (
      none,
      record s {
        output = set_fifo k n fifo s.output;
        input = set_fifo l m fifo s.input;
        allocated_fifo = fifo ∷ s.allocated_fifo;
      },
    )
  ]
]

-- `Allocate::allocate` for the link from output `n` of kernel `k` to input `m` of kernel `l`.
unfoldable pub allocate : ℕ → ℕ → ℕ → ℕ → Slots → Option Failure × Slots
unfolding fifo_for initialize
allocate k n l m s = initialize k n l m s.next_fifo (record s {
  made = λ f. if f == s.next_fifo then some (fifo_for (s.output k n)) else s.made f;
  next_fifo = s.next_fifo + 1;
})

-- `stdalloc::run` over the links that the walk over edges meets: it ends at the first exception.
unfoldable pub allocate_all : List (ℕ × ℕ × ℕ × ℕ) → Slots → Option Failure × Slots
unfolding allocate
allocate_all [] s = (none, s)
allocate_all (e ∷ edges) s =
    let (f, t) = allocate e.0 e.1 e.2 e.3 s in
    elim f [ some x ↦ (some x, t) | none ↦ allocate_all edges t ]

-- `dynalloc::hash` of the addresses of two port records.
unfoldable pub hash : ℕ → ℕ → ℕ
hash a b = a % 65536 + (b % 65536) * 4294967296

-- What the monitor of `dynalloc` keeps: `size_map`, by hash, and of the link's queue the capacity,
-- `is_resizeable` of its data manager, and whether its buffer is valid and the allocator runs.
pub record Watch : Type 0 where
  pub size_map : ℕ → ℕ
  pub capacity : ℕ
  pub resizeable : Bool
  pub running : Bool

-- `resize` of the link's queue, when it comes back: it does nothing to a queue over a caller's array,
-- and gives up where the buffer is invalid or the allocator stops.
unfoldable pub resize_link : ℕ → Watch → Watch
resize_link size w = if w.resizeable && w.running then record w { capacity = size } else w

-- `mon_func` for a link: `blocked` where the writes were blocked in four fifths of the interval.
unfoldable pub mon_func : ℕ → ℕ → Bool → Watch → Watch
unfolding resize_link
mon_func fixed_buffer_size h blocked w =
    let curr_count = w.size_map h in
    if fixed_buffer_size == 0
    then (if blocked
        then (if ltb 2 curr_count
            then (record (resize_link ((w.capacity * 2) % word) w) {
              size_map = λ i. if i == h then 0 else w.size_map i;
            })
            else (record w { size_map = λ i. if i == h then curr_count + 1 else w.size_map i }))
        else w)
    else w

-- The monitor's intervals for one link.
unfoldable pub monitor : ℕ → ℕ → List Bool → Watch → Watch
unfolding mon_func
monitor fixed_buffer_size h [] w = w
monitor fixed_buffer_size h (b ∷ bs) w =
    monitor fixed_buffer_size h bs (mon_func fixed_buffer_size h b w)

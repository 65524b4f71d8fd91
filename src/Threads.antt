-- ===== src/Threads.antt =====
-- The two threads at a queue, between two resizes: local_push and local_pop of raftinc/ringbufferheap.tcc
-- with size of raftinc/ringbufferheap_abstract.tcc and inc of src/pointer.cpp, one access to a shared
-- variable at a time. The memory is sequentially consistent. What a thread reads of its own end of the
-- queue is read with its next access to the other's.
pub mod Counted
pub mod Valid
pub mod Steps
pub mod Order
pub mod Reader
pub mod Writer
pub mod Progress
mod Tests
use raft_lib.Prelude.{
  ℕ, ◌+◌, ◌-◌, ◌%◌, Bool, true, false, List, [], ◌∷◌, ◌++◌, Option, none, some, ltb, ◌==◌,
  if◌then◌else◌, word, update,
}

-- What `size` comes to from the four numbers that it read; `none` is its `goto TOP`.
unfoldable pub size_from : ℕ → ℕ → ℕ → ℕ → ℕ → Option ℕ
size_from max_cap wrap_write wrap_read wpt rpt =
    if wpt == rpt
    then (if ltb wrap_read wrap_write
        then some max_cap
        else if ltb wrap_write wrap_read
        then none
        else some 0)
    else if ltb rpt wpt
    then some ((wpt + word - rpt) % word)
    else some ((((max_cap + word - rpt) % word) + wpt) % word)

-- Where the writing thread stands in local_push. In `counting` it has read the reader's count of wraps,
-- in `roomy` it found space, in `stepped` it has stored its index and not yet counted a wrap.
pub data Writing : Type 0 where
  resting begun : Writing
  counting : ℕ → Writing
  roomy stored signalled stepped : Writing

-- Where the reading thread stands in local_pop. In `seen` it has read the writer's count of wraps, in
-- `checking` it is to read whether the queue is valid, in `again` to call size once more, for which it
-- has read the count of wraps in `seen_again`; `ended` is the exception.
pub data Reading {ℓ} (A : Type ℓ) : Type ℓ where
  resting : Reading A
  seen : ℕ → Reading A
  checking again : Reading A
  seen_again : ℕ → Reading A
  ready : Reading A
  took_signal : ℕ → Reading A
  took : A → ℕ → Reading A
  stepped ended : Reading A

-- The buffer with both pointers, where each thread stands, the item that is being pushed, and all items
-- that were pushed and popped so far.
pub record State {ℓ} (A : Type ℓ) : Type ℓ where
  pub store : ℕ → A
  pub signal : ℕ → ℕ
  pub max_cap : ℕ
  pub write_a : ℕ
  pub write_wrap : ℕ
  pub read_a : ℕ
  pub read_wrap : ℕ
  pub is_valid : Bool
  pub writer : Writing
  pub pending : A × ℕ
  pub reader : Reading A
  pub pushed : List (A × ℕ)
  pub popped : List (A × ℕ)

-- The next index, as `Pointer::inc` stores it.
unfoldable pub next_index : ℕ → ℕ → ℕ
next_index max_cap a = (a + 1) % word % max_cap

-- Whose turn it is.
pub data Turn {ℓ} (A : Type ℓ) : Type ℓ where
  write : A × ℕ → Turn A
  close read : Turn A

module _ {ℓ} {A : Type ℓ} where
  -- The answer of `space_avail() > 0`.
  unfoldable pub checked_space : ℕ → State A → Writing
  unfolding size_from
  checked_space wrap_read s = elim (size_from s.max_cap s.write_wrap wrap_read s.write_a s.read_a) [
    | none ↦ begun
    | some n ↦ if ltb 0 ((s.max_cap + word - n) % word) then roomy else begun
  ]

  -- The next access of the writing thread, which stands at `p`; at rest it starts to push `item`, unless
  -- it has made the queue invalid.
  unfoldable pub write_at : Writing → A × ℕ → State A → State A
  unfolding checked_space next_index
  write_at resting item s = if s.is_valid then record s { writer = begun; pending = item } else s
  write_at begun item s = record s { writer = counting s.read_wrap }
  write_at (counting r) item s = record s { writer = checked_space r s }
  write_at roomy item s = record s { store = update s.store s.write_a s.pending.0; writer = stored }
  write_at stored item s = record s {
    signal = update s.signal s.write_a s.pending.1;
    writer = signalled;
  }
  write_at signalled item s = record s {
    write_a = next_index s.max_cap s.write_a;
    writer = stepped;
    pushed = s.pushed ++ s.pending ∷ [];
  }
  write_at stepped item s = record s {
    write_wrap = if s.write_a == 0 then (s.write_wrap + 1) % word else s.write_wrap;
    writer = resting;
  }

  -- `invalidate`, which the writing thread calls between two pushes.
  unfoldable pub close_at : Writing → State A → State A
  close_at resting s = record s { is_valid = false }
  close_at _ s = s

  -- The answers of `size() > 0`, and of `size() == 0` where the queue is not valid.
  unfoldable pub checked_items : ℕ → State A → Reading A
  unfolding size_from
  checked_items wrap_write s =
      elim (size_from s.max_cap wrap_write s.read_wrap s.write_a s.read_a) [
        | none ↦ resting
        | some n ↦ if ltb 0 n then ready else checking
      ]

  unfoldable pub checked_empty : ℕ → State A → Reading A
  unfolding size_from
  checked_empty wrap_write s =
      elim (size_from s.max_cap wrap_write s.read_wrap s.write_a s.read_a) [
        | none ↦ again
        | some n ↦ if n == 0 then ended else resting
      ]

  -- The next access of the reading thread, which stands at `q`; at rest it starts to pop.
  unfoldable pub read_at : Reading A → State A → State A
  unfolding checked_items checked_empty next_index
  read_at resting s = record s { reader = seen s.write_wrap }
  read_at (seen w) s = record s { reader = checked_items w s }
  read_at checking s = record s { reader = if s.is_valid then resting else again }
  read_at again s = record s { reader = seen_again s.write_wrap }
  read_at (seen_again w) s = record s { reader = checked_empty w s }
  read_at ready s = record s { reader = took_signal (s.signal s.read_a) }
  read_at (took_signal g) s = record s { reader = took (s.store s.read_a) g }
  read_at (took x g) s = record s {
    read_a = next_index s.max_cap s.read_a;
    reader = stepped;
    popped = s.popped ++ (x, g) ∷ [];
  }
  read_at stepped s = record s {
    read_wrap = if s.read_a == 0 then (s.read_wrap + 1) % word else s.read_wrap;
    reader = resting;
  }
  read_at ended s = s

  unfoldable pub step : Turn A → State A → State A
  unfolding write_at close_at read_at
  step (write item) s = write_at s.writer item s
  step close s = close_at s.writer s
  step read s = read_at s.reader s

  unfoldable pub run : List (Turn A) → State A → State A
  unfolding step
  run [] s = s
  run (t ∷ ts) s = run ts (step t s)

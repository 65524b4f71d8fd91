-- ===== src/Fifo.antt =====
-- The heap queue: raftinc/fifoabstract.tcc, raftinc/datamanager.tcc and raftinc/ringbuffer.tcc.
-- A blocking call is a loop of attempts; one attempt is a function from the queue's state to what it
-- came to and the state it leaves, so a schedule is a sequence of attempts of the two threads and
-- of the resizing thread. Children: the sizes, the writing and the reading end, and the proofs.
pub mod Size
pub mod Write
pub mod Read
pub mod Contents
pub mod Invariant
pub mod Room
pub mod Append
pub mod Queue
pub mod Push
pub mod Await
pub mod Take
pub mod Pop
pub mod Drop
pub mod Run
pub mod Resize
pub mod Alloc
pub mod Peeked
pub mod Ranges
mod Tests
use raft_lib.Prelude.{
  ℕ, ◌+◌, ◌%◌, Bool, true, false, not, ◌&&◌, ◌||◌, Option, none, some, ltb, if◌then◌else◌,
}
use raft_lib.Blocked.{count_items, mark}
use raft_lib.Access.{Key, Gate, open_gate, set_helper, allclear}
use raft_lib.Buffer.{Data, copy_from, Copy, gives_up, overruns, copied}
use raft_lib.Pointer

-- `FIFOAbstract` with the members of its `DataManager`. `stats_attached` tells whether
-- `producer_data.write_stats` and `consumer_data.read_stats` point into the current buffer, and
-- `stale` counts the accesses made through them where they do not.
pub record Fifo {ℓ} (A : Type ℓ) : Type ℓ where
  pub buffer : Data A
  pub gate : Gate
  pub resizing : Bool
  pub resizeable : Bool
  pub allocate_called : Bool
  pub n_allocated : ℕ  -- std::uint32_t
  pub stats_attached : Bool
  pub stale : ℕ

-- What one attempt came to: `retry` goes round the loop again after its exit of the buffer, `spin`
-- stays inside a nested loop, `closed` and `no_more_data` are the two exceptions, `aborted` is
-- a failed assertion or an exit of the program, and `overrun` is an access behind an array's end.
pub data Outcome {ℓ} (R : Type ℓ) : Type ℓ where
  done : R → Outcome R
  retry spin closed no_more_data aborted overrun : Outcome R

-- An attempt on a queue of `A`s.
abbrev pub Attempt {ℓ κ} : Type ℓ → Type κ → Type (ℓ ⊔ κ)
Attempt A R = Fifo A → Outcome R × Fifo A

-- A second part runs where the first went through.
infixl 5 ◌>>=◌ ◌>>◌
abbrev pub ◌>>=◌ {ℓ κ μ} :
    {A : Type ℓ} {R : Type κ} {S : Type μ} → Attempt A R → (R → Attempt A S) → Attempt A S
◌>>=◌ m k f =
    let (o, g) = m f in
    elim o [
      | done r ↦ k r g
      | retry ↦ (retry, g)
      | spin ↦ (spin, g)
      | closed ↦ (closed, g)
      | no_more_data ↦ (no_more_data, g)
      | aborted ↦ (aborted, g)
      | overrun ↦ (overrun, g)
    ]

abbrev pub ◌>>◌ {ℓ κ μ} :
    {A : Type ℓ} {R : Type κ} {S : Type μ} → Attempt A R → Attempt A S → Attempt A S
m >> k = m >>= λ _. k

-- A part that always goes through.
abbrev pub act {ℓ} : {A : Type ℓ} → (Fifo A → Fifo A) → Attempt A (Unit {0})
act step f = (done tt, step f)

module _ {ℓ} {A : Type ℓ} where
  -- `DataManager::set` of the first buffer, and `FIFOAbstract::init`
  abbrev pub make : Data A → Fifo A
  make d = record {
    buffer = d;
    gate = open_gate;
    resizing = false;
    resizeable = not d.external_alloc;
    allocate_called = false;
    n_allocated = 1;
    stats_attached = true;
    stale = 0;
  }

  unfoldable pub enter_buffer : Key → Fifo A → Fifo A
  unfolding set_helper
  enter_buffer key f = record f { gate = set_helper key 1 f.gate }

  unfoldable pub exit_buffer : Key → Fifo A → Fifo A
  unfolding set_helper
  exit_buffer key f = record f { gate = set_helper key 0 f.gate }

  -- `write_stats->bec.count += n`
  unfoldable pub count_writes : ℕ → Fifo A → Fifo A
  count_writes n f =
      if f.stats_attached
      then record f {
        buffer = record f.buffer { write_stats = count_items f.buffer.write_stats n };
      }
      else record f { stale = f.stale + 1 }

  -- `read_stats->bec.count++`
  unfoldable pub count_read : Fifo A → Fifo A
  count_read f =
      if f.stats_attached
      then record f { buffer = record f.buffer { read_stats = count_items f.buffer.read_stats 1 } }
      else record f { stale = f.stale + 1 }

  -- what a blocked write does to `write_stats`
  unfoldable pub mark_write : Fifo A → Fifo A
  mark_write f =
      if f.stats_attached
      then record f { buffer = record f.buffer { write_stats = mark f.buffer.write_stats } }
      else record f { stale = f.stale + 1 }

  -- what a blocked read does to `read_stats`
  unfoldable pub mark_read : Fifo A → Fifo A
  mark_read f =
      if f.stats_attached
      then record f { buffer = record f.buffer { read_stats = mark f.buffer.read_stats } }
      else record f { stale = f.stale + 1 }

  unfoldable pub invalidate : Fifo A → Fifo A
  invalidate f = record f { buffer = record f.buffer { is_valid = false } }

  abbrev pub is_invalid : Fifo A → Bool
  is_invalid f = not f.buffer.is_valid

  -- The lambda `buffercondition` of `DataManager::resize`.
  abbrev pub buffer_condition : Data A → Bool
  buffer_condition d = ltb (Pointer.val d.read_pt) (Pointer.val d.write_pt)

  -- What `DataManager::resize` does when nobody is inside and the items lie in one piece: `copyFrom`,
  -- `set`, `delete( old_buffer )`. The statistics' pointers stay where they were.
  unfoldable pub swap_buffer : Data A → Attempt A Bool
  unfolding copy_from
  swap_buffer new_buffer f = elim (copy_from new_buffer f.buffer) [
    | gives_up ↦ (aborted, f)
    | overruns ↦ (overrun, f)
    | copied d ↦ (
      done true,
      record f {
        buffer = d;
        resizeable = not d.external_alloc;
        resizing = false;
        stats_attached = false;
      },
    )
  ]

  -- One round of the loop of `DataManager::resize`, `exit_alloc` being the allocator's flag:
  -- `done false` when the program is over, and `retry` when the buffer is in use.
  unfoldable pub resize_round : Bool → Data A → Attempt A Bool
  unfolding swap_buffer
  resize_round exit_alloc new_buffer f =
      if exit_alloc || not f.buffer.is_valid
      then (done false, record f { resizing = false })
      else if allclear f.gate && buffer_condition f.buffer
      then swap_buffer new_buffer (record f { resizing = true })
      else (retry, record f { resizing = false })

  -- `RingBuffer::resize`: a queue over the caller's own array stays as it is.
  unfoldable pub resize : Bool → Data A → Attempt A Bool
  unfolding resize_round
  resize exit_alloc new_buffer f =
      if f.resizeable then resize_round exit_alloc new_buffer f else (done false, f)

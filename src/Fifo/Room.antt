-- ===== src/Fifo/Room.antt =====
-- How the loops of the writing calls of raftinc/ringbufferheap.tcc go: on where there is room, and
-- round again where there is not.
use raft_lib.Prelude.{ℕ, ◌-◌, ◌≤◌, ◌<◌, ◌≡◌, arith}
use raft_lib.Access.{Key}
use raft_lib.Fifo.{Fifo, done, retry, enter_buffer, exit_buffer, mark_write}
use raft_lib.Fifo.Contents.{used}
use raft_lib.Fifo.Invariant.{IsValid, enter-IsValid, space_avail-used}
use raft_lib.Fifo.Write.{await_space}

module _ {ℓ} {A : Type ℓ} (key : Key) (n : ℕ) (full : Fifo A → Fifo A) (f : Fifo A)
    (v : IsValid f) where
  pub await_space-room :
      n ≤ f.buffer.max_cap - used f.buffer
      → await_space key n full f ≡ (done tt, enter_buffer key f)
  unfolding await_space
  await_space-room h =
      ground (arith, v.quiet, space_avail-used (enter_buffer key f) (enter-IsValid key f v))

  pub await_space-full :
      f.buffer.max_cap - used f.buffer < n
      → await_space key n full f ≡ (retry, mark_write (exit_buffer key (full (enter_buffer key f))))
  unfolding await_space
  await_space-full h =
      ground (arith, v.quiet, space_avail-used (enter_buffer key f) (enter-IsValid key f v))

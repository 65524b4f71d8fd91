-- ===== src/Fifo/Await.antt =====
-- How the loops of the reading calls of raftinc/ringbufferheap.tcc go: on where there is an item,
-- and otherwise round again, or out where the writer is gone.
use raft_lib.Fifo.Contents.{used}
use raft_lib.Fifo.Invariant.{IsValid, size-used, enter-IsValid}
use raft_lib.Fifo.{
  Fifo, is_invalid, done, enter_buffer, true, exit_buffer, retry, Key, closed, false,
}
use raft_lib.Fifo.Read.{
  drained, size_now, await_pop, await_peek, recycle_round, inc_read, await_peek_range,
}
use raft_lib.Prelude.{◌≡◌, ◌<◌, if◌then◌else◌, ◌&&◌, arith, ◌==◌, ℕ, ◌≤◌}

module _ {ℓ} {A : Type ℓ} where
  pub size_now-used : (f : Fifo A) → IsValid f → size_now f ≡ (done (used f.buffer), f)
  size_now-used f v = ground (arith, size-used f v)

  -- A closed queue with nothing left.
  pub drained-used :
      (f : Fifo A) → IsValid f → drained f ≡ (done (is_invalid f && (used f.buffer == 0)), f)
  unfolding drained
  drained-used f v = ground (arith, size_now-used f v)

module _ {ℓ} {A : Type ℓ} (f : Fifo A) (v : IsValid f) where
  pub await_pop-some : 0 < used f.buffer → await_pop f ≡ (done tt, enter_buffer Key.pop f)
  unfolding await_pop
  await_pop-some h =
      ground (arith, v.quiet, size_now-used (enter_buffer Key.pop f) (enter-IsValid Key.pop f v))

  pub await_pop-none :
      used f.buffer ≡ 0
      → await_pop f ≡ ((if f.buffer.is_valid then retry else closed), enter_buffer Key.pop f)
  unfolding await_pop
  await_pop-none h =
      let w = enter-IsValid Key.pop f v in
      ground (
        arith,
        v.quiet,
        size_now-used (enter_buffer Key.pop f) w,
        drained-used (enter_buffer Key.pop f) w,
      )

  pub await_peek-some : 0 < used f.buffer → await_peek f ≡ (done tt, enter_buffer Key.peek f)
  unfolding await_peek
  await_peek-some h =
      ground (arith, v.quiet, size_now-used (enter_buffer Key.peek f) (enter-IsValid Key.peek f v))

  pub await_peek-none :
      used f.buffer ≡ 0
      → await_peek f ≡ (
          if f.buffer.is_valid
          then (retry, exit_buffer Key.peek (enter_buffer Key.peek f))
          else (closed, enter_buffer Key.peek f))
  unfolding await_peek
  await_peek-none h =
      let w = enter-IsValid Key.peek f v in
      ground (
        arith,
        v.quiet,
        size_now-used (enter_buffer Key.peek f) w,
        drained-used (enter_buffer Key.peek f) w,
      )

  pub recycle_round-some :
      0 < used f.buffer
      → recycle_round f
        ≡ (done true, exit_buffer Key.recycle (inc_read (enter_buffer Key.recycle f)))
  unfolding recycle_round
  recycle_round-some h =
      ground
        (arith, v.quiet, size_now-used (enter_buffer Key.recycle f) (enter-IsValid Key.recycle f v))

  pub recycle_round-none :
      used f.buffer ≡ 0
      → recycle_round f ≡ (
        (if f.buffer.is_valid then retry else done false),
        exit_buffer Key.recycle (enter_buffer Key.recycle f),
      )
  unfolding recycle_round
  recycle_round-none h =
      let w = enter-IsValid Key.recycle f v in
      ground (
        arith,
        v.quiet,
        size_now-used (enter_buffer Key.recycle f) w,
        drained-used (enter_buffer Key.recycle f) w,
      )

  pub await_peek_range-enough :
      (n : ℕ) → n ≤ used f.buffer → await_peek_range n f ≡ (done tt, enter_buffer Key.peek f)
  unfolding await_peek_range
  await_peek_range-enough n h =
      ground (arith, v.quiet, size_now-used (enter_buffer Key.peek f) (enter-IsValid Key.peek f v))

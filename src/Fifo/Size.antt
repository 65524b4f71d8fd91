-- ===== src/Fifo/Size.antt =====
-- raftinc/ringbufferheap_abstract.tcc: how many items a heap queue holds and has room for.
use raft_lib.Prelude.{ℕ, ◌+◌, ◌-◌, ◌%◌, Option, none, some, ltb, ◌==◌, if◌then◌else◌, word}
use raft_lib.Pointer
use raft_lib.Access.{Key}
use raft_lib.Buffer.{Data}
use raft_lib.Fifo.{Fifo, enter_buffer, exit_buffer}

module _ {ℓ} {A : Type ℓ} where
  -- One pass from the label TOP; `none` is its `goto TOP`.
  unfoldable pub occupancy : Data A → Option ℕ
  occupancy d =
      let wpt = Pointer.val d.write_pt in
      let rpt = Pointer.val d.read_pt in
      let wrap_write = Pointer.wrap_indicator d.write_pt in
      let wrap_read = Pointer.wrap_indicator d.read_pt in
      if wpt == rpt
      then (if ltb wrap_read wrap_write
          then some d.max_cap
          else if ltb wrap_write wrap_read
          then none
          else some 0)
      else if ltb rpt wpt
      then some ((wpt + word - rpt) % word)
      else some ((((d.max_cap + word - rpt) % word) + wpt) % word)

  -- One round of the loop of `size`; `none` when it goes on.
  unfoldable pub size : Fifo A → Option ℕ × Fifo A
  unfolding enter_buffer exit_buffer
  size f =
      let f1 = enter_buffer Key.size f in
      if f1.resizing then (none, exit_buffer Key.size f1) else elim (occupancy f1.buffer) [
        | none ↦ (none, f1)
        | some n ↦ (some n, exit_buffer Key.size f1)
      ]

  unfoldable pub space_avail : Fifo A → Option ℕ × Fifo A
  space_avail f =
      let (n, f1) = size f in
      elim n [ none ↦ (none, f1) | some k ↦ (some ((f.buffer.max_cap + word - k) % word), f1) ]

  abbrev pub capacity : Fifo A → ℕ
  capacity f = f.buffer.max_cap

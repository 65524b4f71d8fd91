-- ===== src/Fifo/Take.antt =====
-- What the reading calls of raftinc/ringbufferheap.tcc do to the contents of a queue with an item.
use raft_lib.Fifo.Contents.{used, contents, cells, cells-pop}
use raft_lib.Pointer.Position.{Advanced}
use raft_lib.Blocked.{Blocked}
use raft_lib.Pointer.{Pointer}
use raft_lib.Fifo.Invariant.{IsSound, used-le}
use raft_lib.Buffer.{Data}
use raft_lib.Prelude.{◌<◌, ◌≡◌, arith, suc, ◌∷◌, ap, ◌∙◌}

module _ {ℓ} {A : Type ℓ} (d : Data A) (v : IsSound d) (q : Pointer) (b : Blocked)
    (step : Advanced d.read_pt 1 q) (h : 0 < used d) where
  -- `d` without its first item.
  abbrev pub popped : Data A
  popped = record d { read_pt = q; read_stats = b }

  pub used-popped : used d ≡ suc (used popped)
  used-popped = ground (arith, v.laps, v.read_in, v.write_in, v.read_cap, step.moved)

  pub popped-IsSound : IsSound popped
  popped-IsSound = ground (arith, v.laps, v.read_in, v.write_in, v.read_cap, step.moved, step.cap)

  pub contents-popped : contents d ≡ (d.store d.read_pt.a, d.signal d.read_pt.a) ∷ contents popped
  contents-popped =
      ap (cells d.store d.signal d.max_cap d.read_pt.a 0) used-popped
      ∙ cells-pop d.store d.signal d.max_cap d.read_pt.a q.a (used popped) v.read_in
          (ground (arith, v.read_in, v.read_cap, step.moved))
          (omega (arith, used-popped, used-le d v))

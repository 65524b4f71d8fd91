-- ===== src/Fifo/Append.antt =====
-- What the writing calls of raftinc/ringbufferheap.tcc do to the contents of a queue with room.
use raft_lib.Prelude.{ℕ, suc, ◌<◌, ◌≡◌, ap, ◌∙◌, [], ◌∷◌, ◌++◌, arith, update}
use raft_lib.Pointer.{Pointer}
use raft_lib.Pointer.Position.{Advanced}
use raft_lib.Blocked.{Blocked}
use raft_lib.Buffer.{Data}
use raft_lib.Fifo.Contents.{spot, used, contents, cells, cells-push}
use raft_lib.Fifo.Invariant.{IsSound}

module _ {ℓ} {A : Type ℓ} (d : Data A) (v : IsSound d) where
  -- The write pointer stands just behind the last item.
  pub write-spot : used d < d.max_cap → d.write_pt.a ≡ spot d.max_cap d.read_pt.a (used d)
  write-spot h = ground (arith, v.laps, v.read_in, v.write_in)

  -- `d` with one more item.
  abbrev pub written : A → ℕ → Pointer → Blocked → Data A
  written x s q b = record d {
    store = update d.store d.write_pt.a x;
    signal = update d.signal d.write_pt.a s;
    write_pt = q;
    write_stats = b;
  }

  module _ (x : A) (s : ℕ) (q : Pointer) (b : Blocked) (step : Advanced d.write_pt 1 q) where
    pub used-written : used d < d.max_cap → used (written x s q b) ≡ suc (used d)
    used-written h = ground (arith, v.laps, v.read_in, v.write_in, v.write_cap, step.moved)

    pub written-IsSound : used d < d.max_cap → IsSound (written x s q b)
    written-IsSound h =
        ground (arith, v.laps, v.read_in, v.write_in, v.write_cap, step.moved, step.cap)

    pub contents-written :
        used d < d.max_cap → contents (written x s q b) ≡ contents d ++ (x, s) ∷ []
    contents-written h =
        ap
          (cells (update d.store d.write_pt.a x) (update d.signal d.write_pt.a s) d.max_cap
            d.read_pt.a 0)
          (used-written h)
        ∙ cells-push d.store d.signal d.max_cap d.read_pt.a (used d) d.write_pt.a x s v.read_in h
            (write-spot h)

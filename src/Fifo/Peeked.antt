-- ===== src/Fifo/Peeked.antt =====
-- `peek_range` of raftinc/fifo.hpp and the window `autorelease< T, peekrange >` that it returns.
use raft_lib.Pointer.Position.{step-mod}
use raft_lib.Fifo.Await.{await_peek_range-enough}
use raft_lib.Fifo.Read.{peek_range, Window, at, local_peek_range}
use raft_lib.Fifo.Contents.{used, spot, contents, get_elem?-cells}
use raft_lib.Fifo.Invariant.{IsValid, Keeps, used-le, enter-Keeps}
use raft_lib.Fifo.{Fifo, done, enter_buffer, Key}
use native.Mathlib.Nat.{add_comm}
use raft_lib.Prelude.{
  ℕ, ◌≤◌, ◌<◌, ◌≡◌, ◌+◌, ◌%◌, word, get_elem?, arith, some, none, ap, subst, sym, lt→leb, le→leb,
}

module _ {ℓ} {A : Type ℓ} (n : ℕ) (f : Fifo A) (v : IsValid f) (h : n ≤ used f.buffer) where
  -- The window over `n` items from the read pointer on.
  abbrev pub window : Window A
  window = record {
    queue = f.buffer.store;
    signal = f.buffer.signal;
    signal_base = f.buffer.read_pt.a;
    crp = f.buffer.read_pt.a;
    n_items = n;
    queue_size = f.buffer.max_cap;
  }

  peek_range-window : peek_range n f ≡ (done window, enter_buffer Key.peek f)
  unfolding peek_range local_peek_range enter_buffer
  peek_range-window = ground (arith, await_peek_range-enough f v n h)

  index-spot :
      (i : ℕ)
      → i < n
      → (i + f.buffer.read_pt.a) % word % f.buffer.max_cap
        ≡ spot f.buffer.max_cap f.buffer.read_pt.a i
  index-spot i l = ground (
    arith,
    used-le f.buffer v.sound,
    step-mod f.buffer.read_pt.a i f.buffer.max_cap v.sound.read_in,
    v.sound.small,
    ap (λ (t : ℕ). t % word % f.buffer.max_cap) (add_comm i f.buffer.read_pt.a),
  )

  -- Under the invariant and with `n` items at least, `peek_range` answers and takes none. Its window
  -- holds the items of the queue in order, and nothing from index `n` on. The signal that it shows
  -- with an item is the one that stands as many places behind the item's own as the read pointer
  -- stands behind the array's start.
  pub peek_range-contents :
      (w : Window A) × ((peek_range n f).0 ≡ done w)
      × Keeps f (peek_range n f).1
      × ((i : ℕ)
          → i < n
          → (x : A) × (get_elem? (contents f.buffer) i
              ≡ some (x, f.buffer.signal (spot f.buffer.max_cap f.buffer.read_pt.a i)))
            × (at w i
                ≡ some (
                  x,
                  f.buffer.signal (f.buffer.read_pt.a + spot f.buffer.max_cap f.buffer.read_pt.a i),
                )))
      × ((i : ℕ) → n ≤ i → at w i ≡ none)
  unfolding at
  peek_range-contents = (
    window,
    ap (λ t. t.0) peek_range-window,
    subst (λ t. Keeps f t.1) (sym peek_range-window) (enter-Keeps Key.peek f v),
    λ i l. (
      f.buffer.store (spot f.buffer.max_cap f.buffer.read_pt.a i),
      get_elem?-cells f.buffer.store f.buffer.signal f.buffer.max_cap f.buffer.read_pt.a 0
          (used f.buffer) i i (omega arith) (omega arith),
      rw (lt→leb n i l) (
          ap (λ k. some (f.buffer.store k, f.buffer.signal (f.buffer.read_pt.a + k)))
            (index-spot i l)),
    ),
    λ i l. rw (le→leb n i l),
  )

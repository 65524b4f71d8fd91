-- ===== src/Fifo/Alloc.antt =====
-- The calls of raftinc/ringbufferheap.tcc that give out a cell to be written and send it later.
use raft_lib.Blocked.{Blocked}
use raft_lib.Pointer.{Pointer}
use raft_lib.Fifo.Append.{contents-written, written-IsSound}
use raft_lib.Fifo.Room.{await_space-room}
use raft_lib.Pointer.Position.{inc-Advanced, inc_by-Advanced, Advanced}
use raft_lib.Fifo.Invariant.{IsValid, write_pt-IsValid, set_helper-counter, enter-IsValid, IsSound}
use raft_lib.Fifo.Contents.{contents, used}
use raft_lib.Fifo.Write.{
  send, local_allocate, set_item, inc_write, send_range, clear_signals, set_signal,
  local_allocate_n_external, local_allocate_n, allocate_n_body, force_resize,
}
use raft_lib.Fifo.{
  Fifo, enter_buffer, count_writes, done, Key, exit_buffer, count_items, Data, ◌>>◌,
}
use raft_lib.Pointer
use raft_lib.Prelude.{
  ℕ, ◌≡◌, ◌++◌, ◌∷◌, [], ◌<◌, false, ◌+◌, word, true, arith, ap, subst, sym, if_both, refl, suc,
  ◌≤◌, ◌-◌, ◌%◌, zero, update, half_word,
}

small_mod : (n : ℕ) → n < half_word → n % half_word ≡ n
small_mod n h = omega (arith, h)

module _ {ℓ} {A : Type ℓ} where
  local_allocate-room :
      (f : Fifo A)
      → IsValid f
      → used f.buffer < f.buffer.max_cap
      → local_allocate f ≡ (
        done f.buffer.write_pt.a,
        record (enter_buffer Key.allocate f) { allocate_called = true },
      )
  unfolding local_allocate enter_buffer
  local_allocate-room f v h =
      ground (arith, await_space-room Key.allocate 1 (λ g. g) f v (ground arith))

  -- What is known after the send.
  pub record Sent (x : A) (s : ℕ) (f g : Fifo A) : Type ℓ where
    pub appended : contents g.buffer ≡ contents f.buffer ++ (x, s) ∷ []
    pub valid : IsValid g
    pub closed_again : g.allocate_called ≡ false

  -- Under the invariant, with room, and if the writer's lap count can grow by one, allocating a cell,
  -- writing it through the reference and sending it with a signal appends the item with this signal,
  -- keeps the invariant and withdraws the allocation.
  pub allocate-send :
      (x : A) (s : ℕ) (f : Fifo A)
      → IsValid f
      → used f.buffer < f.buffer.max_cap
      → f.buffer.write_pt.wrap_a + 1 < word
      → (i : ℕ) × ((local_allocate f).0 ≡ done i)
        × Sent x s f (send s (set_item i x (local_allocate f).1))
  unfolding send set_item enter_buffer count_writes
  allocate-send x s f v h w =
      let q = Pointer.inc f.buffer.write_pt in
      let b = f.buffer.write_stats in
      let step = inc-Advanced f.buffer.write_pt (write_pt-IsValid f.buffer v.sound) w in
      let e = local_allocate-room f v h in
      let counter =
        set_helper-counter Key.allocate 0 (enter_buffer Key.allocate f).gate
          (enter-IsValid Key.allocate f v).counter in
      (
        f.buffer.write_pt.a,
        ap (λ t. t.0) e,
        subst (λ t. Sent x s f (send s (set_item f.buffer.write_pt.a x t.1))) (sym e)
            (if_both
              (λ g.
                Sent x s f
                  (exit_buffer Key.allocate (inc_write (record g { allocate_called = false }))))
              f.stats_attached _ _
              (record {
                appended = contents-written f.buffer v.sound x s q (count_items b 1) step h;
                valid = record {
                  sound = written-IsSound f.buffer v.sound x s q (count_items b 1) step h;
                  counter = counter;
                  quiet = v.quiet;
                };
                closed_again = refl;
              })
              (record {
                appended = contents-written f.buffer v.sound x s q b step h;
                valid = record {
                  sound = written-IsSound f.buffer v.sound x s q b step h;
                  counter = counter;
                  quiet = v.quiet;
                };
                closed_again = refl;
              })),
      )

  -- Clearing signals touches no other part of the queue.
  clear_signals-frame :
      (n i : ℕ) (f : Fifo A)
      → (sg : ℕ → ℕ) × ((clear_signals n i f).1
          ≡ record f { buffer = record f.buffer { signal = sg } })
  unfolding clear_signals
  clear_signals-frame zero i f = (f.buffer.signal, refl)
  clear_signals-frame (suc n) i f =
      clear_signals-frame n ((i + 1) % word % f.buffer.max_cap) (set_signal i 0 f)

  module _ (d : Data A) (v : IsSound d) (k : ℕ) (q : Pointer) (b : Blocked) (sg : ℕ → ℕ)
      (step : Advanced d.write_pt k q) (h : k ≤ d.max_cap - used d) where
    -- `d` with the write pointer `k` places further.
    abbrev moved : Data A
    moved = record d { signal = sg; write_pt = q; write_stats = b }

    used-moved : used moved ≡ used d + k
    used-moved = ground (arith, v.laps, v.read_in, v.write_in, v.write_cap, step.moved)

    moved-IsSound : IsSound moved
    moved-IsSound = ground (arith, v.laps, v.read_in, v.write_in, v.write_cap, step.moved, step.cap)

  module _ (s : ℕ) (f : Fifo A) (v : IsValid f) where
    -- How many items there are after a send, and that the queue is sound.
    pub record Grown (k : ℕ) (g : Fifo A) : Type 0 where
      pub more : used g.buffer ≡ used f.buffer + k
      pub valid : IsValid g
      pub reset : g.n_allocated ≡ 0

    -- `send_range` after `k` cells were recorded.
    send_range-Grown :
        (k : ℕ) (sg : ℕ → ℕ)
        → k ≤ f.buffer.max_cap - used f.buffer
        → f.buffer.write_pt.wrap_a + 1 < word
        → Grown k (
            send_range s (record (enter_buffer Key.allocate_range f) {
              buffer = record f.buffer { signal = sg };
              n_allocated = k;
              allocate_called = true;
            }))
    unfolding send_range enter_buffer count_writes
    send_range-Grown k sg h w =
        let step =
          inc_by-Advanced f.buffer.write_pt k (write_pt-IsValid f.buffer v.sound)
            (omega (arith, v.sound.write_cap)) w in
        let counter =
          set_helper-counter Key.allocate_range 0 (enter_buffer Key.allocate_range f).gate
            (enter-IsValid Key.allocate_range f v).counter in
        let q = Pointer.inc_by f.buffer.write_pt k in
        let b = f.buffer.write_stats in
        let signal = update sg f.buffer.write_pt.a s in
        if_both
          (λ g. Grown k (
            exit_buffer Key.allocate_range (record g { allocate_called = false; n_allocated = 0 })))
          f.stats_attached _ _
          (record {
            more = used-moved f.buffer v.sound k q (count_items b k) signal step h;
            valid = record {
              sound = moved-IsSound f.buffer v.sound k q (count_items b k) signal step h;
              counter = counter;
              quiet = v.quiet;
            };
            reset = refl;
          })
          (record {
            more = used-moved f.buffer v.sound k q b signal step h;
            valid = record {
              sound = moved-IsSound f.buffer v.sound k q b signal step h;
              counter = counter;
              quiet = v.quiet;
            };
            reset = refl;
          })

    module _ (n : ℕ) (h : n ≤ f.buffer.max_cap - used f.buffer)
        (w : f.buffer.write_pt.wrap_a + 1 < word) where
      allocate_n-body : local_allocate_n n f ≡ allocate_n_body n (enter_buffer Key.allocate_range f)
      unfolding local_allocate_n
      allocate_n-body =
          ap (λ t. ((λ (_ : Fifo A). t) >> allocate_n_body n) f)
            (await_space-room Key.allocate_range n (force_resize n) f v h)

      -- Under the invariant, with room for `n` items, `n` below 2^32, and if the writer's lap count can
      -- grow by one, allocating a range of `n` cells and sending it makes the queue `n` items longer
      -- and keeps the invariant.
      pub allocate_n-send_range : n < half_word → Grown n (send_range s (local_allocate_n n f).1)
      unfolding allocate_n_body enter_buffer
      allocate_n-send_range small =
          let (sg, e) =
            clear_signals-frame n f.buffer.write_pt.a (enter_buffer Key.allocate_range f) in
          subst (λ t. Grown n (send_range s t.1)) (sym allocate_n-body)
            (subst
              (λ (t : ℕ × Fifo A).
                Grown n (send_range s (record t.1 { n_allocated = t.0; allocate_called = true })))
              (λ i. (sym (small_mod n small) i, sym e i)) (send_range-Grown n sg h w))

      -- Under the same conditions but the bound on `n`, and with room for the number of cells that was
      -- recorded before, the version for external storage makes the queue longer by that number,
      -- whatever `n` is.
      pub allocate_n_external-send_range :
          f.n_allocated ≤ f.buffer.max_cap - used f.buffer
          → Grown f.n_allocated (send_range s (local_allocate_n_external n f).1)
      unfolding local_allocate_n_external enter_buffer
      allocate_n_external-send_range k =
          let (sg, e) =
            clear_signals-frame n f.buffer.write_pt.a (enter_buffer Key.allocate_range f) in
          subst (λ t. Grown f.n_allocated (send_range s t.1))
            (sym (
              ap
                (λ t.
                  ((λ (_ : Fifo A). t) >> λ g.
                  let (cells, g') = clear_signals n g.buffer.write_pt.a g in
                  (done cells, record g' { allocate_called = true }))
                    f)
                (await_space-room Key.allocate_range n (λ g. g) f v h)))
            (subst (λ t. Grown f.n_allocated (send_range s (record t { allocate_called = true })))
              (sym e) (send_range-Grown f.n_allocated sg k w))

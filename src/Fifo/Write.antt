-- ===== src/Fifo/Write.antt =====
-- The writing end: raftinc/ringbufferheap.tcc for items kept inline that are not of a class type,
-- with the places where the versions for class types and for external storage differ, and
-- `local_insert_helper` of raftinc/ringbufferheap_lessabstract.tcc.
use raft_lib.Prelude.{
  ℕ, zero, suc, ◌+◌, ◌%◌, true, false, Option, none, some, List, [], ◌∷◌, ltb, leb, if◌then◌else◌,
  word, half_word, update,
}
use raft_lib.Pointer
use raft_lib.Access.{Key}
use raft_lib.Fifo.{
  Fifo, Attempt, done, retry, spin, ◌>>◌, act, enter_buffer, exit_buffer, count_writes, mark_write,
}
use raft_lib.Fifo.Size.{space_avail, capacity}

module _ {ℓ} {A : Type ℓ} where
  -- The shared head of the writing calls: inside the buffer with room for `n` items, or out again.
  -- `full` is what the call does to the buffer when it lacks room.
  unfoldable pub await_space : Key → ℕ → (Fifo A → Fifo A) → Attempt A (Unit {0})
  unfolding enter_buffer exit_buffer mark_write
  await_space key n full f =
      let f1 = enter_buffer key f in
      if f1.resizing
      then (retry, mark_write (exit_buffer key (full f1)))
      else (let (avail, f2) = space_avail f1 in
          elim avail [
            | none ↦ (spin, f2)
            | some k ↦
                if leb n k then (done tt, f2) else (retry, mark_write (exit_buffer key (full f2)))
          ])

  -- `signal[ i ] = sig`
  unfoldable pub set_signal : ℕ → ℕ → Fifo A → Fifo A
  set_signal i sig f = record f {
    buffer = record f.buffer { signal = update f.buffer.signal i sig };
  }

  -- `store[ i ] = x`, by the queue or by the client through a reference that it was given
  unfoldable pub set_item : ℕ → A → Fifo A → Fifo A
  set_item i x f = record f { buffer = record f.buffer { store = update f.buffer.store i x } }

  unfoldable pub inc_write : Fifo A → Fifo A
  unfolding Pointer.inc
  inc_write f = record f { buffer = record f.buffer { write_pt = Pointer.inc f.buffer.write_pt } }

  unfoldable pub inc_write_by : ℕ → Fifo A → Fifo A
  unfolding Pointer.inc_by
  inc_write_by n f = record f {
    buffer = record f.buffer { write_pt = Pointer.inc_by f.buffer.write_pt n };
  }

  -- The item of `local_push`, where there is one: `none` is the null pointer.
  unfoldable pub push_item : Option A → Fifo A → Fifo A
  unfolding set_item count_writes
  push_item none f = f
  push_item (some x) f = count_writes 1 (set_item (Pointer.val f.buffer.write_pt) x f)

  -- What `local_push` does once there is room.
  unfoldable pub push_body : Option A → ℕ → Fifo A → Fifo A
  unfolding push_item set_signal exit_buffer inc_write
  push_body item sig f =
      exit_buffer Key.push
        (inc_write (set_signal (Pointer.val f.buffer.write_pt) sig (push_item item f)))

  -- One attempt of `local_push`.
  unfoldable pub local_push : Option A → ℕ → Attempt A (Unit {0})
  local_push item sig = await_space Key.push 1 (λ f. f) >> act (push_body item sig)

  -- `local_insert_helper`: the signal goes with the last item, and `none` with the others. What is
  -- returned is the items that are left when an attempt does not go through.
  unfoldable pub local_insert_helper : List A → ℕ → Fifo A → List A × Fifo A
  unfolding local_push
  local_insert_helper [] sig f = ([], f)
  local_insert_helper (x ∷ []) sig f =
      let (o, g) = local_push (some x) sig f in elim o [ done _ ↦ ([], g) | _ ↦ (x ∷ [], g) ]
  local_insert_helper (x ∷ y ∷ xs) sig f =
      let (o, g) = local_push (some x) 0 f in
      elim o [ done _ ↦ local_insert_helper (y ∷ xs) sig g | _ ↦ (x ∷ y ∷ xs, g) ]

  -- One attempt of `local_allocate`: the index of the cell that the client may write.
  unfoldable pub local_allocate : Attempt A ℕ
  local_allocate = do
    await_space Key.allocate 1 (λ f. f)
    λ f. (done (Pointer.val f.buffer.write_pt), record f { allocate_called = true })

  unfoldable pub send : ℕ → Fifo A → Fifo A
  unfolding set_signal exit_buffer inc_write
  send sig f =
      if f.allocate_called
      then (let f1 = count_writes 1 (set_signal (Pointer.val f.buffer.write_pt) sig f) in
          exit_buffer Key.allocate (inc_write (record f1 { allocate_called = false })))
      else f

  -- What each version of `deallocate` has in common.
  unfoldable pub deallocate : Fifo A → Fifo A
  unfolding exit_buffer
  deallocate f = exit_buffer Key.allocate (record f { allocate_called = false })

  -- The version for class types also runs the destructor of a cell, the one returned.
  unfoldable pub deallocate_class : Fifo A → ℕ × Fifo A
  unfolding deallocate
  deallocate_class f = (Pointer.val f.buffer.read_pt, deallocate f)

  -- The version for external storage deletes the object that a cell points to, the one returned.
  unfoldable pub deallocate_external : Fifo A → ℕ × Fifo A
  unfolding deallocate
  deallocate_external f = (Pointer.val f.buffer.write_pt, deallocate f)

  -- The loop of `local_allocate_n` over `n` cells from `i` on: it clears their signals and collects
  -- the references.
  unfoldable pub clear_signals : ℕ → ℕ → Fifo A → List ℕ × Fifo A
  unfolding set_signal
  clear_signals zero i f = ([], f)
  clear_signals (suc n) i f =
      let (cells, g) = clear_signals n ((i + 1) % word % f.buffer.max_cap) (set_signal i 0 f) in
      (i ∷ cells, g)

  -- `if( capacity() < n ) force_resize = n`
  unfoldable pub force_resize : ℕ → Fifo A → Fifo A
  force_resize n f =
      if ltb (capacity f) n then record f { buffer = record f.buffer { force_resize = n } } else f

  -- What the versions of `local_allocate_n` for inline storage do once there is room.
  unfoldable pub allocate_n_body : ℕ → Attempt A (List ℕ)
  allocate_n_body n f =
      let (cells, g) = clear_signals n (Pointer.val f.buffer.write_pt) f in
      (done cells, record g { n_allocated = n % half_word; allocate_called = true })

  -- One attempt of `local_allocate_n`.
  unfoldable pub local_allocate_n : ℕ → Attempt A (List ℕ)
  unfolding force_resize allocate_n_body
  local_allocate_n n = await_space Key.allocate_range n (force_resize n) >> allocate_n_body n

  -- The version for class types asks for no larger buffer.
  unfoldable pub local_allocate_n_class : ℕ → Attempt A (List ℕ)
  unfolding allocate_n_body
  local_allocate_n_class n = await_space Key.allocate_range n (λ f. f) >> allocate_n_body n

  -- The version for external storage does not record how many cells it gave out.
  unfoldable pub local_allocate_n_external : ℕ → Attempt A (List ℕ)
  local_allocate_n_external n = do
    await_space Key.allocate_range n (λ f. f)
    λ f.
        let (cells, g) = clear_signals n (Pointer.val f.buffer.write_pt) f in
        (done cells, record g { allocate_called = true })

  unfoldable pub send_range : ℕ → Fifo A → Fifo A
  unfolding set_signal exit_buffer inc_write_by
  send_range sig f =
      if f.allocate_called
      then (let f1 =
            inc_write_by f.n_allocated (set_signal (Pointer.val f.buffer.write_pt) sig f) in
          exit_buffer Key.allocate_range
            (record (count_writes f.n_allocated f1) { allocate_called = false; n_allocated = 0 }))
      else f

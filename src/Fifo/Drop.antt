-- ===== src/Fifo/Drop.antt =====
-- `local_peek` and `local_recycle` of raftinc/ringbufferheap.tcc against the abstract queue.
use raft_lib.Fifo.Pop.{contents-nil, first-front, inc_read-Popped, Popped, Popped-Agrees}
use native.Mathlib.Decide.{dec_lt}
use raft_lib.Fifo.Await.{await_peek-none, await_peek-some, recycle_round-some, recycle_round-none}
use raft_lib.Fifo.Contents.{used, contents}
use raft_lib.Fifo.Read.{local_peek, recycle_round}
use raft_lib.Fifo.Invariant.{
  IsValid, Keeps, enter-Keeps, enter-IsValid, pass-Keeps, Agrees, exit-IsValid, Keeps-Agrees,
}
use raft_lib.Fifo.{
  aborted, overrun, enter_buffer, Fifo, Outcome, done, Key, false, true, closed, retry, exit_buffer,
  spin, no_more_data,
}
use raft_lib.Fifo.Queue
use raft_lib.Prelude.{
  ℕ, ◌≡◌, ◌<◌, arith, subst, sym, ◌+◌, ap, word, Bool-cases, inl, ◌∙◌, if◌then◌else◌, inr,
}

module _ {ℓ} {A : Type ℓ} where
  -- What `local_peek` shows, for its outcome and the queue it leaves.
  abbrev pub shown : Outcome (ℕ × ℕ) × Fifo A → Outcome (A × ℕ)
  shown (o, g) = elim o [
    | done (i, s) ↦ done (g.buffer.store i, s)
    | retry ↦ retry
    | spin ↦ spin
    | closed ↦ closed
    | no_more_data ↦ no_more_data
    | aborted ↦ aborted
    | overrun ↦ overrun
  ]

  module _ (f : Fifo A) (v : IsValid f) where
    local_peek-some :
        0 < used f.buffer
        → local_peek f
          ≡ (done (f.buffer.read_pt.a, f.buffer.signal f.buffer.read_pt.a), enter_buffer Key.peek f)
    unfolding local_peek enter_buffer
    local_peek-some h = ground (arith, await_peek-some f v h)

    local_peek-open :
        used f.buffer ≡ 0
        → f.buffer.is_valid ≡ true
        → local_peek f ≡ (retry, exit_buffer Key.peek (enter_buffer Key.peek f))
    unfolding local_peek
    local_peek-open h e = ground (arith, await_peek-none f v h)

    local_peek-closed :
        used f.buffer ≡ 0
        → f.buffer.is_valid ≡ false
        → local_peek f ≡ (closed, enter_buffer Key.peek f)
    unfolding local_peek
    local_peek-closed h e = ground (arith, await_peek-none f v h)

  -- Under the invariant a peek shows the oldest item and its signal and takes nothing; at an empty
  -- queue it goes round again while the writer may still send, and fails when the queue is closed. It
  -- keeps the invariant, the capacity and the closed flag.
  pub local_peek-refines :
      (f : Fifo A)
      → IsValid f
      → (shown (local_peek f) ≡ Queue.peek f.buffer.is_valid (contents f.buffer))
        × Keeps f (local_peek f).1
  unfolding enter_buffer Queue.peek
  local_peek-refines f v =
      let P = λ (r : Outcome (ℕ × ℕ) × Fifo A).
        (shown r ≡ Queue.peek f.buffer.is_valid (contents f.buffer)) × Keeps f r.1 in
      elim (dec_lt 0 (used f.buffer)) [
        | yes h ↦
            subst P (sym (local_peek-some f v h)) (
              sym (ap (Queue.peek f.buffer.is_valid) (first-front f v h)),
              enter-Keeps Key.peek f v,
            )
        | no h ↦
            let e : used f.buffer ≡ 0 = omega arith in
            let nil = contents-nil f e in
            elim (Bool-cases f.buffer.is_valid) [
              | inl t ↦ subst P (sym (local_peek-open f v e t)) (
                sym (
                    ap (Queue.peek f.buffer.is_valid) nil
                    ∙ ap (λ b. if b then retry else closed) t),
                pass-Keeps Key.peek f v,
              )
              | inr t ↦ subst P (sym (local_peek-closed f v e t)) (
                sym (
                    ap (Queue.peek f.buffer.is_valid) nil
                    ∙ ap (λ b. if b then retry else closed) t),
                enter-Keeps Key.peek f v,
              )
            ]
      ]

  exit-Popped :
      (f g : Fifo A) → Popped (enter_buffer Key.recycle f) g → Popped f (exit_buffer Key.recycle g)
  unfolding enter_buffer exit_buffer
  exit-Popped f g p = record {
    valid = exit-IsValid Key.recycle g p.valid;
    cap = p.cap;
    open_end = p.open_end;
    laps = p.laps;
    split = p.split;
  }

  module _ (f : Fifo A) (v : IsValid f) where
    -- Under the invariant, and if the reader's lap count can grow by one, a round of a recycle drops
    -- the oldest item; at an empty queue it goes round again while the writer may still send, and
    -- returns when the queue is closed. It keeps the invariant, the capacity and the closed flag.
    pub recycle_round-refines :
        f.buffer.read_pt.wrap_a + 1 < word
        → Agrees f (Queue.recycle f.buffer.is_valid (contents f.buffer)) (recycle_round f)
    unfolding enter_buffer exit_buffer Queue.recycle
    recycle_round-refines w =
        let spec = Queue.recycle f.buffer.is_valid (contents f.buffer) in
        elim (dec_lt 0 (used f.buffer)) [
          | yes h ↦
              let p =
                inc_read-Popped (enter_buffer Key.recycle f) (enter-IsValid Key.recycle f v) h w in
              subst (Agrees f spec) (sym (recycle_round-some f v h)) (
                Popped-Agrees f _ _ spec (exit-Popped f _ p)
                  (ap (Queue.recycle f.buffer.is_valid) p.split))
          | no h ↦
              let e : used f.buffer ≡ 0 = omega arith in
              let nil = contents-nil f e in
              subst (Agrees f spec) (sym (recycle_round-none f v e)) (
                Keeps-Agrees _ spec (pass-Keeps Key.recycle f v) (
                  ap (Queue.recycle f.buffer.is_valid) nil
                  ∙ ap (λ l. ((if f.buffer.is_valid then retry else done false), l)) (sym nil)))
        ]

-- ===== src/Fifo/Read.antt =====
-- The reading end: raftinc/ringbufferheap.tcc for items kept inline that are not of a class type,
-- `local_pop_range` of raftinc/ringbufferheap_lessabstract.tcc, the scheduler's calls of
-- raftinc/ringbufferheap_abstract.tcc, and the window of raftinc/autorelease.tcc.
use raft_lib.Prelude.{
  ℕ, zero, suc, ◌+◌, ◌%◌, Bool, true, false, Option, none, some, List, [], ◌∷◌, ltb, leb, ◌==◌,
  if◌then◌else◌, word,
}
use raft_lib.Pointer
use raft_lib.Access.{Key}
use raft_lib.Fifo.{
  Fifo, Attempt, done, retry, spin, closed, no_more_data, aborted, ◌>>=◌, ◌>>◌, act, enter_buffer,
  exit_buffer, count_read, mark_read, is_invalid,
}
use raft_lib.Fifo.Size.{size, capacity}
use raft_lib.Fifo.Write.{local_push}

-- `autorelease< T, peekrange >` as `peek_range` builds it. Both arrays are indexed from their starts.
pub record Window {ℓ} (A : Type ℓ) : Type ℓ where
  pub queue : ℕ → A
  pub signal : ℕ → ℕ
  pub signal_base : ℕ  -- where the pointer to the signals points
  pub crp : ℕ
  pub n_items : ℕ
  pub queue_size : ℕ

module _ {ℓ} {A : Type ℓ} where
  -- `size()` within a call that goes on only with an answer
  abbrev pub size_now : Attempt A ℕ
  size_now f = let (n, g) = size f in elim n [ none ↦ (spin, g) | some k ↦ (done k, g) ]

  -- `is_invalid() && size() == 0`
  unfoldable pub drained : Attempt A Bool
  drained f =
      if is_invalid f
      then (let (o, g) = size_now f in elim o [ done k ↦ (done (k == 0), g) | _ ↦ (spin, g) ])
      else (done false, f)

  unfoldable pub inc_read : Fifo A → Fifo A
  unfolding Pointer.inc
  inc_read f = record f { buffer = record f.buffer { read_pt = Pointer.inc f.buffer.read_pt } }

  -- The item and the signal at the read pointer.
  abbrev pub front : Fifo A → A × ℕ
  front f = let i = Pointer.val f.buffer.read_pt in (f.buffer.store i, f.buffer.signal i)

  abbrev pub proceed : Attempt A (Unit {0})
  proceed = act (λ f. f)

  -- `if( size() >= m ) break; else …`
  abbrev pub filled : ℕ → Attempt A (Unit {0}) → Attempt A (Unit {0})
  filled m otherwise = size_now >>= λ n. if leb m n then proceed else otherwise

  -- The loop of `local_pop`. It leaves its flag set where the queue is empty, closed or not.
  unfoldable pub await_pop : Attempt A (Unit {0})
  unfolding enter_buffer exit_buffer mark_read
  await_pop f =
      let f1 = enter_buffer Key.pop f in
      if f1.resizing
      then (retry, mark_read (exit_buffer Key.pop f1))
      else filled 1 (drained >>= λ empty g. ((if empty then closed else retry), g)) f1

  -- What `local_pop` does once there is an item, after it has read it.
  unfoldable pub pop_body : Fifo A → Fifo A
  unfolding count_read inc_read exit_buffer
  pop_body f = exit_buffer Key.pop (inc_read (count_read f))

  -- One attempt of `local_pop`; `wanted` tells whether `ptr` is not null.
  unfoldable pub local_pop : Bool → Attempt A (A × ℕ)
  local_pop wanted = do
    await_pop
    λ f. if wanted then (done (front f), pop_body f) else (aborted, f)

  -- The loop of `local_peek`: out again at an empty queue, but not where it is closed.
  unfoldable pub await_peek : Attempt A (Unit {0})
  unfolding enter_buffer exit_buffer
  await_peek f =
      let f1 = enter_buffer Key.peek f in
      if f1.resizing
      then (retry, exit_buffer Key.peek f1)
      else filled 1
          (drained >>= λ empty g. if empty then (closed, g) else (retry, exit_buffer Key.peek g)) f1

  -- One attempt of `local_peek`: the index of the cell that the client may read, and its signal.
  unfoldable pub local_peek : Attempt A (ℕ × ℕ)
  local_peek = do
    await_peek
    λ f. let i = Pointer.val f.buffer.read_pt in (done (i, f.buffer.signal i), f)

  unfoldable pub unpeek : Fifo A → Fifo A
  unfolding exit_buffer
  unpeek f = exit_buffer Key.peek f

  -- `else if( is_invalid() && size() < n )` of `local_peek_range`
  unfoldable pub too_few : ℕ → Attempt A (Unit {0})
  unfolding exit_buffer
  too_few n f =
      if is_invalid f
      then (size_now >>= λ k g.
            if ltb k n then (no_more_data, g) else (retry, exit_buffer Key.peek g))
          f
      else (retry, exit_buffer Key.peek f)

  -- The loop of `local_peek_range`.
  unfoldable pub await_peek_range : ℕ → Attempt A (Unit {0})
  unfolding enter_buffer exit_buffer
  await_peek_range n f =
      let f1 = enter_buffer Key.peek f in
      if f1.resizing
      then (retry, exit_buffer Key.peek f1)
      else filled n (drained >>= λ empty. if empty then (λ g. (closed, g)) else too_few n) f1

  -- One attempt of `local_peek_range`: the index that `*sig` points to and `curr_pointer_loc`, the
  -- same. `*ptr` is the start of the array.
  unfoldable pub local_peek_range : ℕ → Attempt A (ℕ × ℕ)
  local_peek_range n = do
    await_peek_range n
    λ f. let cpl = Pointer.val f.buffer.read_pt in (done (cpl, cpl), f)

  -- One round of `local_recycle`: `true` where it dropped an item, `false` where the queue is at its
  -- end and the call returns.
  unfoldable pub recycle_round : Attempt A Bool
  unfolding enter_buffer exit_buffer inc_read
  recycle_round f =
      let f1 = enter_buffer Key.recycle f in
      if f1.resizing
      then (retry, exit_buffer Key.recycle f1)
      else (size_now >>= λ n.
            if ltb 0 n
            then (λ g. (done true, exit_buffer Key.recycle (inc_read g)))
            else (drained >>= λ empty g.
                ((if empty then done false else retry), exit_buffer Key.recycle g)))
          f1

  -- `local_recycle( range )`: the items that it has still to drop when it returns, or when a round
  -- does not go through.
  unfoldable pub local_recycle : ℕ → Fifo A → ℕ × Fifo A
  local_recycle zero f = (0, f)
  local_recycle (suc n) f =
      let (o, g) = recycle_round f in
      let rest = local_recycle n g in
      elim o [ done dropped ↦ (if dropped then rest else (suc n, g)) | _ ↦ (suc n, g) ]

  -- `local_pop_range`: what was popped when it is done, or when an attempt does not go through.
  unfoldable pub local_pop_range : ℕ → Fifo A → List (A × ℕ) × Fifo A
  local_pop_range zero f = ([], f)
  local_pop_range (suc n) f =
      let (o, g) = local_pop true f in
      let rest = local_pop_range n g in elim o [ done x ↦ (x ∷ rest.0, rest.1) | _ ↦ ([], g) ]

  unfoldable pub signal_peek : Fifo A → ℕ
  signal_peek f = f.buffer.signal (Pointer.val f.buffer.read_pt)

  unfoldable pub signal_pop : Attempt A (Unit {0})
  signal_pop = local_pop false >> act (λ f. f)

  unfoldable pub inline_signal_send : ℕ → Attempt A (Unit {0})
  unfolding local_push
  inline_signal_send sig = local_push none sig

  unfoldable pub peek_range : ℕ → Attempt A (Window A)
  peek_range n = do
    (sig, cpl) ← local_peek_range n
    λ f. (
      done (record {
        queue = f.buffer.store;
        signal = f.buffer.signal;
        signal_base = sig;
        crp = cpl;
        n_items = n;
        queue_size = capacity f;
      }),
      f,
    )

  -- `operator []`: `none` is the exception.
  unfoldable pub at : Window A → ℕ → Option (A × ℕ)
  at w index =
      if leb w.n_items index
      then none
      else (let ptr_val = (index + w.crp) % word % w.queue_size in
          some (w.queue ptr_val, w.signal (w.signal_base + ptr_val)))

-- ===== src/Fifo/Pop.antt =====
-- `local_pop`, `local_peek` and `local_recycle` of raftinc/ringbufferheap.tcc against the abstract
-- queue.
use raft_lib.Pointer.{Pointer}
use native.Mathlib.Decide.{dec_lt}
use raft_lib.Fifo.Await.{await_pop-some, await_pop-none}
use raft_lib.Fifo.Queue
use raft_lib.Fifo.Take.{popped-IsSound, contents-popped}
use raft_lib.Pointer.Position.{inc-Advanced}
use raft_lib.Fifo.Contents.{contents, used, cells, spot, cells-pop}
use raft_lib.Fifo.Invariant.{
  IsValid, read_pt-IsValid, set_helper-counter, enter-IsValid, used-le, Agrees, Keeps-Agrees,
  enter-Keeps,
}
use raft_lib.Fifo.Read.{inc_read, front, local_pop, pop_body}
use raft_lib.Fifo.{
  Fifo, enter_buffer, true, Key, done, retry, exit_buffer, count_items, closed, Outcome, ℕ,
}
use raft_lib.Prelude.{
  ◌<◌, ◌≡◌, if_both, ◌+◌, arith, word, ◌∷◌, [], ap, if◌then◌else◌, subst, sym, ◌∙◌, ◌-◌, suc, refl,
  List,
}

module _ {ℓ} {A : Type ℓ} where
  -- `f` with the read pointer one further, whatever became of the statistics.
  pub record Popped (f g : Fifo A) : Type ℓ where
    pub valid : IsValid g
    pub cap : g.buffer.max_cap ≡ f.buffer.max_cap
    pub open_end : g.buffer.is_valid ≡ f.buffer.is_valid
    pub laps : g.buffer.write_pt ≡ f.buffer.write_pt
    pub split : contents f.buffer ≡ front f ∷ contents g.buffer

  pub inc_read-Popped :
      (f : Fifo A)
      → IsValid f
      → 0 < used f.buffer
      → f.buffer.read_pt.wrap_a + 1 < word
      → Popped f (inc_read f)
  unfolding inc_read
  inc_read-Popped f v h w =
      let step = inc-Advanced f.buffer.read_pt (read_pt-IsValid f.buffer v.sound) w in
      let b = f.buffer.read_stats in
      record {
        valid = record {
          sound = popped-IsSound f.buffer v.sound _ b step h;
          counter = v.counter;
          quiet = v.quiet;
        };
        cap = refl;
        open_end = refl;
        laps = refl;
        split = contents-popped f.buffer v.sound _ b step h;
      }

  pop_body-Popped :
      (f : Fifo A)
      → IsValid f
      → 0 < used f.buffer
      → f.buffer.read_pt.wrap_a + 1 < word
      → Popped f (pop_body f)
  unfolding pop_body
  pop_body-Popped f v h w =
      let step = inc-Advanced f.buffer.read_pt (read_pt-IsValid f.buffer v.sound) w in
      let b = f.buffer.read_stats in
      let counter = set_helper-counter Key.pop 0 f.gate v.counter in
      if_both (λ g. Popped f (exit_buffer Key.pop (inc_read g))) f.stats_attached _ _
        (record {
          valid = record {
            sound = popped-IsSound f.buffer v.sound _ (count_items b 1) step h;
            counter = counter;
            quiet = v.quiet;
          };
          cap = refl;
          open_end = refl;
          laps = refl;
          split = contents-popped f.buffer v.sound _ (count_items b 1) step h;
        })
        (record {
          valid = record {
            sound = popped-IsSound f.buffer v.sound _ b step h;
            counter = counter;
            quiet = v.quiet;
          };
          cap = refl;
          open_end = refl;
          laps = refl;
          split = contents-popped f.buffer v.sound _ b step h;
        })

  -- Entering the buffer comes before.
  pub enter-Popped : (key : Key) (f g : Fifo A) → Popped (enter_buffer key f) g → Popped f g
  unfolding enter_buffer
  enter-Popped key f g p = record {
    valid = p.valid;
    cap = p.cap;
    open_end = p.open_end;
    laps = p.laps;
    split = p.split;
  }

  -- An attempt that takes the first item.
  pub Popped-Agrees {κ} :
      {R : Type κ} (f g : Fifo A) (o : Outcome R) (spec : Outcome R × List (A × ℕ))
      → Popped f g
      → spec ≡ (o, contents g.buffer)
      → Agrees f spec (o, g)
  Popped-Agrees f g o spec p e = record {
    outcome = sym (ap (λ t. t.0) e);
    contents_after = sym (ap (λ t. t.1) e);
    valid = p.valid;
    cap = p.cap;
    open_end = p.open_end;
    laps = omega (arith, ap (λ (t : Pointer). t.wrap_a) p.laps);
  }

  pub contents-nil : (f : Fifo A) → used f.buffer ≡ 0 → contents f.buffer ≡ []
  contents-nil f e =
      ap (cells f.buffer.store f.buffer.signal f.buffer.max_cap f.buffer.read_pt.a 0) e

  -- The first item stands at the read pointer.
  pub first-front :
      (f : Fifo A)
      → IsValid f
      → 0 < used f.buffer
      → contents f.buffer
        ≡ front f
          ∷ cells f.buffer.store f.buffer.signal f.buffer.max_cap
              (spot f.buffer.max_cap f.buffer.read_pt.a 1)
              0
              (used f.buffer - 1)
  first-front f v h =
      let d = f.buffer in
      let e : used d ≡ suc (used d - 1) = omega arith in
      ap (cells d.store d.signal d.max_cap d.read_pt.a 0) e
      ∙ cells-pop d.store d.signal d.max_cap d.read_pt.a (spot d.max_cap d.read_pt.a 1) (used d - 1)
          v.sound.read_in refl (omega (arith, used-le d v.sound))

  module _ (f : Fifo A) (v : IsValid f) where
    local_pop-some :
        0 < used f.buffer → local_pop true f ≡ (done (front f), pop_body (enter_buffer Key.pop f))
    unfolding local_pop enter_buffer
    local_pop-some h = ground (arith, await_pop-some f v h)

    local_pop-none :
        used f.buffer ≡ 0
        → local_pop true f ≡ ((if f.buffer.is_valid then retry else closed), enter_buffer Key.pop f)
    unfolding local_pop
    local_pop-none h = ground (arith, await_pop-none f v h)

  -- Under the invariant, and if the reader's lap count can grow by one, a pop takes the oldest item
  -- with its signal; at an empty queue it goes round again while the writer may still send, and fails
  -- when the queue is closed: it is the pop of the abstract queue. It keeps the invariant, the
  -- capacity and the closed flag.
  pub local_pop-refines :
      (f : Fifo A)
      → IsValid f
      → f.buffer.read_pt.wrap_a + 1 < word
      → Agrees f (Queue.pop f.buffer.is_valid (contents f.buffer)) (local_pop true f)
  unfolding enter_buffer Queue.pop
  local_pop-refines f v w =
      let spec = Queue.pop f.buffer.is_valid (contents f.buffer) in
      elim (dec_lt 0 (used f.buffer)) [
        | yes h ↦
            let p = pop_body-Popped (enter_buffer Key.pop f) (enter-IsValid Key.pop f v) h w in
            subst (Agrees f spec) (sym (local_pop-some f v h)) (
              Popped-Agrees f _ _ spec (enter-Popped Key.pop f _ p)
                (ap (Queue.pop f.buffer.is_valid) p.split))
        | no h ↦
            let e : used f.buffer ≡ 0 = omega arith in
            let nil = contents-nil f e in
            subst (Agrees f spec) (sym (local_pop-none f v e)) (
              Keeps-Agrees _ spec (enter-Keeps Key.pop f v) (
                ap (Queue.pop f.buffer.is_valid) nil
                ∙ ap (λ l. ((if f.buffer.is_valid then retry else closed), l)) (sym nil)))
      ]

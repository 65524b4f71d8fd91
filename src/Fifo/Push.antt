-- ===== src/Fifo/Push.antt =====
-- `local_push` of raftinc/ringbufferheap.tcc against the abstract queue.
use mathlib.Core.Path.{fun_ext}
use native.Mathlib.Decide.{dec_lt}
use raft_lib.Prelude.{
  ℕ, ◌+◌, ◌≤◌, ◌<◌, ◌≡◌, refl, ap, sym, subst, ◌∙◌, Option, none, some, [], ◌∷◌, ◌++◌, arith, word,
  update, Bool-cases, inl, inr,
}
use raft_lib.Pointer
use raft_lib.Pointer.Position.{Advanced, inc-Advanced}
use raft_lib.Blocked.{Blocked, count_items}
use raft_lib.Access.{Key, set_helper}
use raft_lib.Buffer.{Data}
use raft_lib.Fifo.{Fifo, done, retry, enter_buffer, exit_buffer, mark_write}
use raft_lib.Fifo.Queue
use raft_lib.Fifo.Contents.{used, contents, length-contents}
use raft_lib.Fifo.Invariant.{
  write_pt-IsValid, set_helper-counter, IsSound, IsValid, enter-IsValid, Keeps-trans, pass-Keeps,
  mark_write-Keeps, Agrees, Keeps-Agrees,
}
use raft_lib.Fifo.Room.{await_space-room, await_space-full}
use raft_lib.Fifo.Append.{written, written-IsSound, contents-written}
use raft_lib.Fifo.Write.{local_push, push_body}

module _ {ℓ} {A : Type ℓ} where
  -- What a push leaves in the cell it writes: a null pointer leaves what was there.
  abbrev pub sent : Option A → Data A → A
  sent none d = d.store d.write_pt.a
  sent (some x) d = x

  update_same : (st : ℕ → A) (i : ℕ) → update st i (st i) ≡ st
  unfolding update
  update_same st i = fun_ext (λ j. ground arith)

  push_body-buffer :
      (item : Option A) (s : ℕ) (f : Fifo A) (v : IsSound f.buffer)
      → (b : Blocked) × ((push_body item s f).buffer
          ≡ written f.buffer v (sent item f.buffer) s (Pointer.inc f.buffer.write_pt) b)
  unfolding push_body
  push_body-buffer none s f v =
      (f.buffer.write_stats, rw (update_same f.buffer.store f.buffer.write_pt.a))
  push_body-buffer (some x) s f v = elim (Bool-cases f.stats_attached) [
    | inl e ↦ (count_items f.buffer.write_stats 1, rw e)
    | inr e ↦ (f.buffer.write_stats, rw e)
  ]

  push_body-quiet :
      (item : Option A) (s : ℕ) (f : Fifo A)
      → ((push_body item s f).gate ≡ set_helper Key.push 0 f.gate)
        × ((push_body item s f).resizing ≡ f.resizing)
  unfolding push_body
  push_body-quiet none s f = (refl, refl)
  push_body-quiet (some x) s f = ground arith

  -- What is known of the queue after a push that went through.
  record Pushed (item : Option A) (s : ℕ) (f g : Fifo A) : Type ℓ where
    valid : IsValid g
    cap : g.buffer.max_cap ≡ f.buffer.max_cap
    open_end : g.buffer.is_valid ≡ f.buffer.is_valid
    laps : g.buffer.write_pt.wrap_a ≤ f.buffer.write_pt.wrap_a + 1
    appended : contents g.buffer ≡ contents f.buffer ++ (sent item f.buffer, s) ∷ []

  push_body-Pushed :
      (item : Option A) (s : ℕ) (f : Fifo A)
      → IsValid f
      → used f.buffer < f.buffer.max_cap
      → f.buffer.write_pt.wrap_a + 1 < word
      → Pushed item s f (push_body item s f)
  push_body-Pushed item s f v h w =
      let (b, e) = push_body-buffer item s f v.sound in
      let q = Pointer.inc f.buffer.write_pt in
      let step : Advanced f.buffer.write_pt 1 q =
        inc-Advanced f.buffer.write_pt (write_pt-IsValid f.buffer v.sound) w in
      let x = sent item f.buffer in
      record {
        valid = record {
          sound = subst IsSound (sym e) (written-IsSound f.buffer v.sound x s q b step h);
          counter =
              rw (push_body-quiet item s f).0 (set_helper-counter Key.push 0 f.gate v.counter);
          quiet = (push_body-quiet item s f).1 ∙ v.quiet;
        };
        cap = ap (λ (d : Data A). d.max_cap) e;
        open_end = ap (λ (d : Data A). d.is_valid) e;
        laps = omega (arith, ap (λ (d : Data A). d.write_pt.wrap_a) e, step.moved);
        appended = ap contents e ∙ contents-written f.buffer v.sound x s q b step h;
      }

  module _ (item : Option A) (s : ℕ) (f : Fifo A) (v : IsValid f) where
    local_push-room :
        used f.buffer < f.buffer.max_cap
        → local_push item s f ≡ (done tt, push_body item s (enter_buffer Key.push f))
    unfolding local_push
    local_push-room h = ground (arith, await_space-room Key.push 1 (λ g. g) f v (ground arith))

    local_push-full :
        f.buffer.max_cap ≤ used f.buffer
        → local_push item s f ≡ (retry, mark_write (exit_buffer Key.push (enter_buffer Key.push f)))
    unfolding local_push
    local_push-full h = ground (arith, await_space-full Key.push 1 (λ g. g) f v (ground arith))

  -- Under the invariant, and if the writer's lap count can grow by one, a push appends its item and
  -- signal where there is room, and otherwise leaves the contents alone and goes round again: it is
  -- the push of the abstract queue. It keeps the invariant, the capacity and the closed flag. A null
  -- item leaves in the cell what was there.
  pub local_push-refines :
      (item : Option A) (s : ℕ) (f : Fifo A)
      → IsValid f
      → f.buffer.write_pt.wrap_a + 1 < word
      → Agrees f
          (Queue.push f.buffer.max_cap (contents f.buffer) (sent item f.buffer, s))
          (local_push item s f)
  unfolding enter_buffer
  local_push-refines item s f v w =
      let spec = Queue.push f.buffer.max_cap (contents f.buffer) (sent item f.buffer, s) in
      let len = length-contents f.buffer in
      elim (dec_lt (used f.buffer) f.buffer.max_cap) [
        | yes h ↦
            let p =
              push_body-Pushed item s (enter_buffer Key.push f) (enter-IsValid Key.push f v) h w in
            let e =
              Queue.push-room f.buffer.max_cap (contents f.buffer) (sent item f.buffer, s)
                (omega (arith, len)) in
            subst (Agrees f spec) (sym (local_push-room item s f v h)) (record {
              outcome = sym (ap (λ t. t.0) e);
              contents_after = p.appended ∙ sym (ap (λ t. t.1) e);
              valid = p.valid;
              cap = p.cap;
              open_end = p.open_end;
              laps = p.laps;
            })
        | no h ↦
            let pass = pass-Keeps Key.push f v in
            subst (Agrees f spec) (sym (local_push-full item s f v (omega arith))) (
              Keeps-Agrees retry spec (Keeps-trans pass (mark_write-Keeps _ pass.valid)) (
                Queue.push-full f.buffer.max_cap (contents f.buffer) (sent item f.buffer, s)
                  (omega (arith, len))))
      ]

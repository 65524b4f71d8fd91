-- ===== src/Fifo/Run.antt =====
-- The calls of the two threads at a heap queue in any order, one attempt at a time, against the
-- abstract queue.
use raft_lib.Pointer.{Pointer}
use raft_lib.Fifo.Pop.{local_pop-refines}
use raft_lib.Fifo.Push.{local_push-refines}
use raft_lib.Fifo.Drop.{shown, local_peek-refines, recycle_round-refines}
use raft_lib.Fifo.Read.{local_pop, local_peek, recycle_round}
use raft_lib.Fifo.Invariant.{IsValid}
use raft_lib.Fifo.Write.{local_push}
use raft_lib.Fifo.Contents.{contents}
use raft_lib.Fifo.{Outcome, invalidate, Fifo, false, some, true}
use raft_lib.Fifo.Queue
use raft_lib.Prelude.{
  ℕ, Bool, List, ◌∷◌, ◌≡◌, ◌+◌, ◌≤◌, ◌<◌, length, word, arith, ap, ◌∙◌, refl, [],
}

-- One attempt of a thread. `close` is `invalidate`.
pub data Call {ℓ} (A : Type ℓ) : Type ℓ where
  push : A → ℕ → Call A
  pop peek recycle close : Call A

-- What the caller sees of it.
pub data Reply {ℓ} (A : Type ℓ) : Type ℓ where
  pushed : Outcome (Unit {0}) → Reply A
  popped : Outcome (A × ℕ) → Reply A
  peeked : Outcome (A × ℕ) → Reply A
  recycled : Outcome Bool → Reply A
  closing : Reply A

module _ {ℓ} {A : Type ℓ} where
  unfoldable pub step : Call A → Fifo A → Reply A × Fifo A
  step (push x s) f = let (o, g) = local_push (some x) s f in (pushed o, g)
  step pop f = let (o, g) = local_pop true f in (popped o, g)
  step peek f = (peeked (shown (local_peek f)), (local_peek f).1)
  step recycle f = let (o, g) = recycle_round f in (recycled o, g)
  step close f = (closing, invalidate f)

  unfoldable pub run : List (Call A) → Fifo A → List (Reply A)
  run [] f = []
  run (c ∷ cs) f = let (r, g) = step c f in r ∷ run cs g

  -- The same calls of the abstract queue.
  unfoldable pub queue_step : ℕ → Call A → Bool × List (A × ℕ) → Reply A × Bool × List (A × ℕ)
  queue_step room (push x s) (live, q) =
      let (o, q') = Queue.push room q (x, s) in (pushed o, live, q')
  queue_step room pop (live, q) = let (o, q') = Queue.pop live q in (popped o, live, q')
  queue_step room peek (live, q) = (peeked (Queue.peek live q), live, q)
  queue_step room recycle (live, q) = let (o, q') = Queue.recycle live q in (recycled o, live, q')
  queue_step room close (live, q) = (closing, false, q)

  unfoldable pub queue_run : ℕ → List (Call A) → Bool × List (A × ℕ) → List (Reply A)
  queue_run room [] s = []
  queue_run room (c ∷ cs) s =
      let (r, live, q) = queue_step room c s in r ∷ queue_run room cs (live, q)

  -- What the abstract queue sees of a heap queue.
  abbrev pub view : Fifo A → Bool × List (A × ℕ)
  view f = (f.buffer.is_valid, contents f.buffer)

  -- One call agrees, and may take the writer one lap further.
  pub record Follows (c : Call A) (f : Fifo A) : Type ℓ where
    pub agrees :
        ((step c f).0, (step c f).1.buffer.is_valid, contents (step c f).1.buffer)
        ≡ queue_step f.buffer.max_cap c (view f)
    pub valid : IsValid (step c f).1
    pub cap : (step c f).1.buffer.max_cap ≡ f.buffer.max_cap
    pub laps : (step c f).1.buffer.write_pt.wrap_a ≤ f.buffer.write_pt.wrap_a + 1

  step-Follows :
      (c : Call A) (f : Fifo A) → IsValid f → f.buffer.write_pt.wrap_a + 1 < word → Follows c f
  unfolding step queue_step invalidate
  step-Follows (push x s) f v w =
      let a = local_push-refines (some x) s f v w in
      record {
        agrees = λ i. (pushed (a.outcome i), a.open_end i, a.contents_after i);
        valid = a.valid;
        cap = a.cap;
        laps = a.laps;
      }
  step-Follows pop f v w =
      let a = local_pop-refines f v (omega (arith, v.sound.laps)) in
      record {
        agrees = λ i. (popped (a.outcome i), a.open_end i, a.contents_after i);
        valid = a.valid;
        cap = a.cap;
        laps = a.laps;
      }
  step-Follows peek f v w =
      let a = local_peek-refines f v in
      record {
        agrees = λ i. (peeked (a.0 i), a.1.open_end i, a.1.held i);
        valid = a.1.valid;
        cap = a.1.cap;
        laps = omega (arith, ap (λ (t : Pointer). t.wrap_a) a.1.written);
      }
  step-Follows recycle f v w =
      let a = recycle_round-refines f v (omega (arith, v.sound.laps)) in
      record {
        agrees = λ i. (recycled (a.outcome i), a.open_end i, a.contents_after i);
        valid = a.valid;
        cap = a.cap;
        laps = a.laps;
      }
  step-Follows close f v w = record {
    agrees = refl;
    valid = record { sound = omega arith; counter = v.counter; quiet = v.quiet };
    cap = refl;
    laps = omega arith;
  }

  -- From a queue that satisfies the invariant, no sequence of attempts (push, pop, peek, recycle,
  -- invalidate) tells the heap queue from the abstract queue of its contents, as long as the count of
  -- the writer's laps plus the number of attempts stays below 2^64.
  pub run_refines :
      (cs : List (Call A)) (f : Fifo A)
      → IsValid f
      → f.buffer.write_pt.wrap_a + length cs < word
      → run cs f ≡ queue_run f.buffer.max_cap cs (view f)
  unfolding run queue_run
  run_refines [] f v w = refl
  run_refines (c ∷ cs) f v w =
      let a = step-Follows c f v (omega arith) in
      let g = (step c f).1 in
      let rest = run_refines cs g a.valid (omega (arith, a.laps)) in
      ap (λ l. (step c f).0 ∷ l) rest
      ∙ ap (λ k. (step c f).0 ∷ queue_run k cs (view g)) a.cap
      ∙ ap (λ (t : Reply A × Bool × List (A × ℕ)). t.0 ∷ queue_run f.buffer.max_cap cs (t.1, t.2))
          a.agrees

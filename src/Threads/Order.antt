-- ===== src/Threads/Order.antt =====
-- What comes out of a queue under every schedule of its two threads.
use raft_lib.Threads.{State, resting, ended, Turn, run}
use raft_lib.Threads.Valid.{IsValid}
use raft_lib.Threads.Steps.{run-IsValid, run-max_cap}
use raft_lib.Fifo.Contents.{cells, length-cells}
use raft_lib.Prelude.{
  ℕ, true, false, ◌≡◌, ◌<◌, ◌≤◌, ◌++◌, word, arith, List, [], length, sym, ◌∙◌, ap, append-nil,
}

module _ {ℓ} {A : Type ℓ} where
  -- A queue of `cap` cells with the contents `st` and `sg` that no thread has used.
  abbrev pub start : (ℕ → A) → (ℕ → ℕ) → ℕ → A × ℕ → State A
  start st sg cap x = record {
    store = st;
    signal = sg;
    max_cap = cap;
    write_a = 0;
    write_wrap = 0;
    read_a = 0;
    read_wrap = 0;
    is_valid = true;
    writer = resting;
    pending = x;
    reader = resting;
    pushed = [];
    popped = [];
  }

  pub start-IsValid :
      (st : ℕ → A) (sg : ℕ → ℕ) (cap : ℕ) (x : A × ℕ)
      → 0 < cap
      → cap < word
      → IsValid 0 (start st sg cap x)
  start-IsValid st sg cap x h c = ground (arith, h, c)

  -- From a queue that no thread has used, with at least one cell and fewer than 2^64, after every schedule
  -- of fewer than 2^64 accesses of its two threads: what was pushed is what was popped and then at most as
  -- many items as the queue has cells, so that nothing is lost, doubled or out of order.
  pub run-pushed :
      (st : ℕ → A) (sg : ℕ → ℕ) (cap : ℕ) (x : A × ℕ) (ts : List (Turn A))
      → 0 < cap
      → cap < word
      → length ts < word
      → (rest : List (A × ℕ)) × ((run ts (start st sg cap x)).pushed
          ≡ (run ts (start st sg cap x)).popped ++ rest)
        × (length rest ≤ cap)
  run-pushed st sg cap x ts h c l =
      let s = run ts (start st sg cap x) in
      let same : s.max_cap ≡ cap = run-max_cap ts (start st sg cap x) in
      let (n, v) =
        run-IsValid ts 0 (start st sg cap x) (start-IsValid st sg cap x h c) (omega (arith, l)) in
      (
        cells s.store s.signal s.max_cap s.read_a 0 n,
        v.items,
        omega (arith, length-cells s.store s.signal s.max_cap s.read_a 0 n, v.ring.most),
      )

  -- From a queue that no thread has used, with at least one cell and fewer than 2^64, when after a
  -- schedule of fewer than 2^64 accesses of its two threads the reader has got the exception of a closed
  -- queue: it has popped all that was pushed, and the queue is not valid.
  pub run-ended :
      (st : ℕ → A) (sg : ℕ → ℕ) (cap : ℕ) (x : A × ℕ) (ts : List (Turn A))
      → 0 < cap
      → cap < word
      → length ts < word
      → (run ts (start st sg cap x)).reader ≡ ended
      → ((run ts (start st sg cap x)).popped ≡ (run ts (start st sg cap x)).pushed)
        × ((run ts (start st sg cap x)).is_valid ≡ false)
  run-ended st sg cap x ts h c l e =
      let s = run ts (start st sg cap x) in
      let (n, v) =
        run-IsValid ts 0 (start st sg cap x) (start-IsValid st sg cap x h c) (omega (arith, l)) in
      let empty : n ≡ 0 = ground (arith, e, v.drained) in
      let shut : s.is_valid ≡ false = ground (arith, e, v.closed) in
      (
        sym (
            v.items
            ∙ ap (λ k. s.popped ++ cells s.store s.signal s.max_cap s.read_a 0 k) empty
            ∙ append-nil s.popped),
        shut,
      )

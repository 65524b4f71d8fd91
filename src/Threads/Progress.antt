-- ===== src/Threads/Progress.antt =====
-- What the two threads at a queue still get done, wherever they stand.
use raft_lib.Threads.Writer.{Pushes, writer-Pushes}
use raft_lib.Threads.Reader.{Pops, some_left-count, reader-Pops, read_cell}
use raft_lib.Threads.Steps.Write.{write_at-IsValid}
use raft_lib.Threads.{
  resting, seen, checking, again, seen_again, ready, took_signal, took, stepped, ended, State,
  Writing, Turn, write, run, step, write_at, counting, next_index, begun, roomy, stored, signalled,
  read_at, Reading, read,
}
use raft_lib.Threads.Valid.{Agrees, IsValid, write_laps, read_laps}
use raft_lib.Threads.Steps.{run-IsValid, laps, run-laps, write_at-laps, run-max_cap}
use raft_lib.Threads.Steps.Read.{items-pop, read_at-IsValid}
use raft_lib.Threads.Order.{start, start-IsValid}
use raft_lib.Fifo.Contents.{cells}
use raft_lib.Prelude.{
  ℕ, zero, suc, ◌≡◌, ◌<◌, ◌≤◌, ◌+◌, ◌⊎◌, ◌++◌, word, arith, refl, List, [], ◌∷◌, length, inl, inr,
  subst, ap, ◌∙◌, true,
}

Writing-cases : (p : Writing) → (p ≡ stepped) ⊎ ((a wraps : ℕ) → write_laps p a wraps ≡ wraps)
Writing-cases resting = inr (λ a w. refl)
Writing-cases begun = inr (λ a w. refl)
Writing-cases (counting r) = inr (λ a w. refl)
Writing-cases roomy = inr (λ a w. refl)
Writing-cases stored = inr (λ a w. refl)
Writing-cases signalled = inr (λ a w. refl)
Writing-cases stepped = inl refl

module _ {ℓ} {A : Type ℓ} where
  Reading-cases : (q : Reading A) → (q ≡ stepped) ⊎ ((a wraps : ℕ) → read_laps q a wraps ≡ wraps)
  Reading-cases resting = inr (λ a w. refl)
  Reading-cases (seen k) = inr (λ a w. refl)
  Reading-cases checking = inr (λ a w. refl)
  Reading-cases again = inr (λ a w. refl)
  Reading-cases (seen_again k) = inr (λ a w. refl)
  Reading-cases ready = inr (λ a w. refl)
  Reading-cases (took_signal g) = inr (λ a w. refl)
  Reading-cases (took x g) = inr (λ a w. refl)
  Reading-cases stepped = inl refl
  Reading-cases ended = inr (λ a w. refl)

  pushed-read_cell :
      (n : ℕ) (s : State A)
      → IsValid n s
      → length s.popped < length s.pushed
      → (rest : List (A × ℕ)) × (s.pushed ≡ (s.popped ++ read_cell s ∷ []) ++ rest)
  pushed-read_cell zero s v h = absurd (omega (arith, some_left-count 0 s v h))
  pushed-read_cell (suc n) s v h = (
    cells s.store s.signal s.max_cap (next_index s.max_cap s.read_a) 0 n,
    items-pop s.store s.signal s.max_cap s.write_a (laps s) s.read_a
        (read_laps s.reader s.read_a s.read_wrap) n s.pushed s.popped v.small v.ring v.items,
  )

  -- The writer first counts its wrap.
  settled-Pops :
      (p : Writing) (n : ℕ) (s : State A)
      → s.writer ≡ p
      → IsValid n s
      → laps s + 1 < word
      → length s.popped < length s.pushed
      → Pops s
  unfolding run step write_at
  settled-Pops p n s e v l h = elim (Writing-cases p) [
    | inl q ↦
        let w : s.writer ≡ stepped = e ∙ q in
        let (m, u) =
          write_at-IsValid stepped s.pending n s w
            (subst (λ p'. write_laps p' s.write_a s.write_wrap + 1 < word) w l)
            (subst (λ p'. Agrees p' s.reader n s) w v) in
        let (us, d) = reader-Pops s.reader (write_at stepped s.pending s) refl (record {
          count = m;
          valid = u;
          small = omega (
            arith,
            l,
            subst (λ p'. laps (write_at p' s.pending s) ≤ laps s + 1) w
                (write_at-laps s.writer s.pending n s refl v l),
          );
          some_left = h;
          settled = refl;
        }) in
        (write s.pending ∷ us, ap (λ p'. (run us (write_at p' s.pending s)).popped) w ∙ d)
    | inr q ↦ reader-Pops s.reader s refl (record {
      count = n;
      valid = v;
      small = omega (arith, l);
      some_left = h;
      settled = ap (λ p'. write_laps p' s.write_a s.write_wrap) e ∙ q s.write_a s.write_wrap;
    })
  ]

  -- From a queue that no thread has used, with at least one cell and fewer than 2^64, after every schedule
  -- of fewer than 2^64 - 1 accesses of its two threads: while more items were pushed than popped, there
  -- are turns after which the reader has popped one more, which is the next of those pushed.
  pub reader_progress :
      (st : ℕ → A) (sg : ℕ → ℕ) (cap : ℕ) (x : A × ℕ) (ts : List (Turn A))
      → 0 < cap
      → cap < word
      → length ts + 1 < word
      → length (run ts (start st sg cap x)).popped < length (run ts (start st sg cap x)).pushed
      → (us : List (Turn A)) × (y : A × ℕ) × (rest : List (A × ℕ)) × ((run us
            (run ts (start st sg cap x))).popped
          ≡ (run ts (start st sg cap x)).popped ++ y ∷ [])
        × ((run ts (start st sg cap x)).pushed
            ≡ ((run ts (start st sg cap x)).popped ++ y ∷ []) ++ rest)
  reader_progress st sg cap x ts h c l m =
      let s = run ts (start st sg cap x) in
      let (n, v) =
        run-IsValid ts 0 (start st sg cap x) (start-IsValid st sg cap x h c) (omega (arith, l)) in
      let (us, p) =
        settled-Pops s.writer n s refl v
          (omega (
            arith,
            l,
            run-laps ts 0 (start st sg cap x) (start-IsValid st sg cap x h c) (omega (arith, l)),
          ))
          m in
      let (rest, all) = pushed-read_cell n s v m in (us, read_cell s, rest, p, all)

  -- The reader first counts its wrap.
  settled-Pushes :
      (q : Reading A) (n : ℕ) (s : State A)
      → s.reader ≡ q
      → IsValid n s
      → laps s + 1 < word
      → length s.pushed < length s.popped + s.max_cap
      → s.is_valid ≡ true
      → Pushes s
  unfolding run step read_at
  settled-Pushes q n s e v l h o = elim (Reading-cases q) [
    | inl w ↦
        let at = e ∙ w in
        let (m, u) =
          read_at-IsValid stepped n s at (omega (arith, l))
            (subst (λ q'. Agrees s.writer q' n s) at v) in
        let (us, y, p) =
          writer-Pushes s.writer (read_at stepped s) refl
            (record { count = m; valid = u; small = l; room = h; settled = refl; opened = o }) in
        (read ∷ us, y, ap (λ q'. (run us (read_at q' s)).pushed) at ∙ p)
    | inr w ↦ writer-Pushes s.writer s refl (record {
      count = n;
      valid = v;
      small = l;
      room = h;
      settled = ap (λ q'. read_laps q' s.read_a s.read_wrap) e ∙ w s.read_a s.read_wrap;
      opened = o;
    })
  ]

  -- From a queue that no thread has used, with at least one cell and fewer than 2^64, after every schedule
  -- of fewer than 2^64 - 1 accesses of its two threads: while the queue is valid and fewer items than it
  -- has cells were pushed and not popped, there are turns after which the writer has pushed one more.
  pub writer_progress :
      (st : ℕ → A) (sg : ℕ → ℕ) (cap : ℕ) (x : A × ℕ) (ts : List (Turn A))
      → 0 < cap
      → cap < word
      → length ts + 1 < word
      → length (run ts (start st sg cap x)).pushed
        < length (run ts (start st sg cap x)).popped + cap
      → (run ts (start st sg cap x)).is_valid ≡ true
      → (us : List (Turn A)) × (y : A × ℕ) × ((run us (run ts (start st sg cap x))).pushed
          ≡ (run ts (start st sg cap x)).pushed ++ y ∷ [])
  writer_progress st sg cap x ts h c l m o =
      let s = run ts (start st sg cap x) in
      let first = start-IsValid st sg cap x h c in
      let (n, v) = run-IsValid ts 0 (start st sg cap x) first (omega (arith, l)) in
      let same : s.max_cap ≡ cap = run-max_cap ts (start st sg cap x) in
      let low : laps s + 1 < word =
        omega (arith, l, run-laps ts 0 (start st sg cap x) first (omega (arith, l))) in
      settled-Pushes s.reader n s refl v low (omega (arith, m, same)) o

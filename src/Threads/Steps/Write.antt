-- ===== src/Threads/Steps/Write.antt =====
-- Each access of the writing thread keeps what the two threads agree on.
use raft_lib.Threads.{
  State, Writing, Reading, write_at, checked_space, resting, begun, counting, roomy, stored,
  signalled, stepped,
}
use raft_lib.Threads.Counted.{IsRing, push-IsRing, size_from-room}
use raft_lib.Threads.Valid.{Agrees, IsValid, write_laps, read_laps, needs, signal_taken, item_taken}
use raft_lib.Fifo.Contents.{cells, spot, cells-cong, cells-snoc}
use raft_lib.Prelude.{
  ℕ, ◌≡◌, ◌<◌, ◌≤◌, ◌+◌, ◌⊎◌, ◌++◌, word, arith, update, update_self, ◌≢◌, update_ne, ◌∙◌, ap, suc,
  List, ◌∷◌, [], append_assoc, sym, ap₂,
}

module _ {ℓ} {A : Type ℓ} where
  -- What the writer finds.
  pub checked_space-cases :
      (r n : ℕ) (q : Reading A) (s : State A)
      → Agrees (counting r) q n s
      → (checked_space r s ≡ begun) ⊎ ((checked_space r s ≡ roomy) × (n < s.max_cap))
  unfolding checked_space
  checked_space-cases r n q s v = ground (
    arith,
    size_from-room s.max_cap s.write_a s.write_wrap s.read_a (read_laps q s.read_a s.read_wrap) n r
        _ v.small v.ring v.old_read,
  )

  -- Writing the free cell behind the items leaves them as they are.
  cells-kept :
      (st : ℕ → A) (sg : ℕ → ℕ) (x : A) (g cap w wl r rl n : ℕ)
      → IsRing cap w wl r rl n
      → n < cap
      → (cells (update st w x) sg cap r 0 n ≡ cells st sg cap r 0 n)
        × (cells st (update sg w g) cap r 0 n ≡ cells st sg cap r 0 n)
  cells-kept st sg x g cap w wl r rl n v h =
      let away : (a : ℕ) → a < n → spot cap r a ≢ w = λ a l. ground (arith, v) in
      (
        cells-cong (update st w x) st sg sg cap cap r r 0 0 n (λ a b q _ l.
            let same : spot cap r a ≡ spot cap r b = ground arith in
            (update_ne st w x (spot cap r a) (away a (omega arith)) ∙ ap st same, ap sg same)),
        cells-cong st st (update sg w g) sg cap cap r r 0 0 n (λ a b q _ l.
            let same : spot cap r a ≡ spot cap r b = ground arith in
            (ap st same, update_ne sg w g (spot cap r a) (away a (omega arith)) ∙ ap sg same)),
      )

  -- So does it to the first item, which the reader may be taking.
  item_taken-kept :
      (q : Reading A) (st : ℕ → A) (x : A) (cap w wl r rl n : ℕ)
      → IsRing cap w wl r rl n
      → n < cap
      → needs q ≤ n
      → item_taken q (st r) ≡ st r
      → item_taken q (update st w x r) ≡ update st w x r
  unfolding update
  item_taken-kept q st x cap w wl r rl n v h f e = ground (arith, v, e)

  signal_taken-kept :
      (q : Reading A) (sg : ℕ → ℕ) (g cap w wl r rl n : ℕ)
      → IsRing cap w wl r rl n
      → n < cap
      → needs q ≤ n
      → signal_taken q (sg r) ≡ sg r
      → signal_taken q (update sg w g r) ≡ update sg w g r
  unfolding update
  signal_taken-kept q sg g cap w wl r rl n v h f e = ground (arith, v, e)

  -- Moving the write index on adds the item behind it.
  items-push :
      (st : ℕ → A) (sg : ℕ → ℕ) (cap w wl r rl n : ℕ) (all out : List (A × ℕ)) (x : A × ℕ)
      → IsRing cap w wl r rl n
      → n < cap
      → st w ≡ x.0
      → sg w ≡ x.1
      → all ≡ out ++ cells st sg cap r 0 n
      → all ++ x ∷ [] ≡ out ++ cells st sg cap r 0 (suc n)
  items-push st sg cap w wl r rl n all out x v h ex eg e =
      let at : spot cap r n ≡ w = ground (arith, v) in
      ap (λ l. l ++ x ∷ []) e
      ∙ append_assoc out (cells st sg cap r 0 n) (x ∷ [])
      ∙ ap (λ l. out ++ l)
          (sym (
            cells-snoc st sg cap r 0 n n (omega arith)
            ∙ ap (λ y. cells st sg cap r 0 n ++ y ∷ [])
                (ap₂ (λ a b. (a, b)) (ap st at ∙ ex) (ap sg at ∙ eg))))

  pub write_at-IsValid :
      (p : Writing) (item : A × ℕ) (n : ℕ) (s : State A)
      → s.writer ≡ p
      → write_laps p s.write_a s.write_wrap + 1 < word
      → Agrees p s.reader n s
      → (m : ℕ) × IsValid m (write_at p item s)
  unfolding write_at
  write_at-IsValid resting item n s e l v = (n, ground (arith, v, e))
  write_at-IsValid begun item n s e l v = (n, ground (arith, v))
  write_at-IsValid (counting r) item n s e l v =
      (n, ground (arith, v, checked_space-cases r n s.reader s v))
  write_at-IsValid roomy item n s e l v =
      let laps = read_laps s.reader s.read_a s.read_wrap in
      let kept =
        cells-kept s.store s.signal s.pending.0 0 s.max_cap s.write_a s.write_wrap s.read_a laps n
          v.ring (ground (arith, v.room)) in
      let front =
        item_taken-kept s.reader s.store s.pending.0 s.max_cap s.write_a s.write_wrap s.read_a laps
          n v.ring (ground (arith, v.room)) v.found v.front_item in
      (n, ground (arith, v, kept.0, front, update_self s.store s.write_a s.pending.0))
  write_at-IsValid stored item n s e l v =
      let laps = read_laps s.reader s.read_a s.read_wrap in
      let kept =
        cells-kept s.store s.signal s.pending.0 s.pending.1 s.max_cap s.write_a s.write_wrap
          s.read_a laps n v.ring (ground (arith, v.room)) in
      let front =
        signal_taken-kept s.reader s.signal s.pending.1 s.max_cap s.write_a s.write_wrap s.read_a
          laps n v.ring (ground (arith, v.room)) v.found v.front_signal in
      (n, ground (arith, v, kept.1, front, update_self s.signal s.write_a s.pending.1))
  write_at-IsValid signalled item n s e l v =
      let laps = read_laps s.reader s.read_a s.read_wrap in
      let ring =
        push-IsRing s.max_cap s.write_a s.write_wrap s.read_a laps n v.small v.ring
          (ground (arith, v.room)) in
      let items =
        items-push s.store s.signal s.max_cap s.write_a s.write_wrap s.read_a laps n s.pushed
          s.popped s.pending v.ring (ground (arith, v.room)) (ground (arith, v.item))
          (ground (arith, v.mark)) v.items in
      (suc n, ground (arith, v, ring, items))
  write_at-IsValid stepped item n s e l v = (n, ground (arith, v))

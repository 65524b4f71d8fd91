-- ===== src/Threads/Steps/Read.antt =====
-- Each access of the reading thread keeps what the two threads agree on.
use raft_lib.Threads.{
  State, Reading, read_at, checked_items, checked_empty, resting, stepped, seen, checking, again,
  seen_again, ready, took_signal, took, ended, next_index, size_from,
}
use raft_lib.Threads.Counted.{IsRing, next_index_lem, pop-IsRing, size_from-items, size_from-exact}
use raft_lib.Threads.Valid.{Agrees, IsValid, write_laps}
use raft_lib.Fifo.Contents.{cells, cells-pop}
use raft_lib.Prelude.{
  none, ℕ, zero, suc, ◌≡◌, ◌<◌, ◌≤◌, ◌⊎◌, ◌++◌, word, arith, List, ◌∷◌, [], ◌∙◌, ap, sym,
  append_assoc, ap₂, Bool-cases, ◌==◌, some, Option-cases, inl, inr, ltb, ==_iff, ltb→lt,
  if◌then◌else◌, Option,
}

module _ {ℓ} {A : Type ℓ} where
  -- What the reader finds.
  pub checked_items-cases :
      (w n : ℕ) (s : State A)
      → Agrees s.writer (seen w) n s
      → (checked_items w s ≡ resting)
        ⊎ ((checked_items w s ≡ checking) ⊎ ((checked_items w s ≡ ready) × (1 ≤ n)))
  unfolding checked_items
  checked_items-cases w n s v =
      let o = size_from s.max_cap w s.read_wrap s.write_a s.read_a in
      let answered : (o' : Option ℕ)
          → o ≡ o'
          → checked_items w s
            ≡ elim o' [ none ↦ resting | some n ↦ if ltb 0 n then ready else checking ] =
        λ o' e.
          ap (λ o. elim o [ none ↦ resting | some n ↦ if ltb 0 n then ready else checking ]) e in
      elim (Option-cases o) [
        | inl e ↦ inl (answered none e)
        | inr (m, e) ↦ elim (Bool-cases (ltb 0 m)) [
          | inl t ↦ inr (
              inr (
                answered (some m) e ∙ ap (λ b. if b then ready else checking) t,
                size_from-items s.max_cap s.write_a (write_laps s.writer s.write_a s.write_wrap)
                    s.read_a s.read_wrap n w m v.small v.ring v.old_write e (ltb→lt 0 m t),
              ))
          | inr f ↦ inr (inl (answered (some m) e ∙ ap (λ b. if b then ready else checking) f))
        ]
      ]

  exact_lem :
      (w n : ℕ) (s : State A)
      → Agrees s.writer (seen_again w) n s
      → size_from s.max_cap w s.read_wrap s.write_a s.read_a ≡ some n
  exact_lem w n s v =
      let same : w ≡ write_laps s.writer s.write_a s.write_wrap = ground (arith, v) in
      let e =
        size_from-exact s.max_cap s.write_a (write_laps s.writer s.write_a s.write_wrap) s.read_a
          s.read_wrap n v.small v.ring in
      rw (same, e)

  pub checked_empty-cases :
      (w n : ℕ) (s : State A)
      → Agrees s.writer (seen_again w) n s
      → (checked_empty w s ≡ resting) ⊎ ((checked_empty w s ≡ ended) × (n ≡ 0))
  unfolding checked_empty
  checked_empty-cases w n s v =
      let answered : checked_empty w s ≡ (if n == 0 then ended else resting) =
        ap (λ o. elim o [ none ↦ again | some n ↦ if n == 0 then ended else resting ])
          (exact_lem w n s v) in
      elim (Bool-cases (n == 0)) [
        | inl t ↦ inr (answered ∙ ap (λ b. if b then ended else resting) t, (==_iff n 0).0 t)
        | inr f ↦ inl (answered ∙ ap (λ b. if b then ended else resting) f)
      ]

  -- Moving the read index on takes the first item.
  pub items-pop :
      (st : ℕ → A) (sg : ℕ → ℕ) (cap w wl r rl n : ℕ) (all out : List (A × ℕ))
      → cap < word
      → IsRing cap w wl r rl (suc n)
      → all ≡ out ++ cells st sg cap r 0 (suc n)
      → all ≡ (out ++ (st r, sg r) ∷ []) ++ cells st sg cap (next_index cap r) 0 n
  items-pop st sg cap w wl r rl n all out c v e =
      let at = next_index_lem cap r v.read c in
      e
      ∙ ap (λ l. out ++ l)
          (cells-pop st sg cap r (next_index cap r) n v.read (ground (arith, at))
            (ground (arith, v.most)))
      ∙ sym (append_assoc out ((st r, sg r) ∷ []) (cells st sg cap (next_index cap r) 0 n))

  pub read_at-IsValid :
      (q : Reading A) (n : ℕ) (s : State A)
      → s.reader ≡ q
      → write_laps s.writer s.write_a s.write_wrap < word
      → Agrees s.writer q n s
      → (m : ℕ) × IsValid m (read_at q s)
  unfolding read_at
  read_at-IsValid resting n s e l v = (n, ground (arith, v))
  read_at-IsValid (seen w) n s e l v = (n, ground (arith, v, checked_items-cases w n s v))
  read_at-IsValid checking n s e l v = (n, ground (arith, v))
  read_at-IsValid again n s e l v = (n, ground (arith, v))
  read_at-IsValid (seen_again w) n s e l v = (n, ground (arith, v, checked_empty-cases w n s v))
  read_at-IsValid ready n s e l v = (n, ground (arith, v))
  read_at-IsValid (took_signal g) n s e l v = (n, ground (arith, v))
  read_at-IsValid (took x g) zero s e l v = absurd (ground (arith, v.found))
  read_at-IsValid (took x g) (suc n) s e l v =
      let wl = write_laps s.writer s.write_a s.write_wrap in
      let ring = pop-IsRing s.max_cap s.write_a wl s.read_a s.read_wrap n v.small v.ring in
      let taken : (s.store s.read_a, s.signal s.read_a) ≡ (x, g) =
        ap₂ (λ a b. (a, b)) (sym v.front_item) (sym v.front_signal) in
      let items =
        items-pop s.store s.signal s.max_cap s.write_a wl s.read_a s.read_wrap n s.pushed s.popped
          v.small v.ring v.items
        ∙ ap
            (λ y.
              (s.popped ++ y ∷ [])
              ++ cells s.store s.signal s.max_cap (next_index s.max_cap s.read_a) 0 n)
            taken in
      (n, ground (arith, v, ring, items))
  read_at-IsValid stepped n s e l v = (n, ground (arith, v))
  read_at-IsValid ended n s e l v = (n, ground (arith, v, e))

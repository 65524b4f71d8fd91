-- ===== src/Fifo/Ranges.antt =====
-- The calls for several items, `local_insert_helper` and `local_pop_range` of
-- raftinc/ringbufferheap_lessabstract.tcc and `local_recycle` of raftinc/ringbufferheap.tcc, against
-- the abstract queue.
use raft_lib.Fifo.Drop.{recycle_round-refines}
use raft_lib.Fifo.{Fifo, done, Outcome}
use raft_lib.Fifo.Queue
use raft_lib.Fifo.Contents.{contents}
use raft_lib.Fifo.Invariant.{IsValid, Agrees}
use raft_lib.Fifo.Push.{local_push-refines}
use raft_lib.Fifo.Pop.{local_pop-refines}
use raft_lib.Fifo.Write.{local_insert_helper, local_push}
use raft_lib.Fifo.Read.{local_pop_range, local_pop, recycle_round, local_recycle}
use raft_lib.Prelude.{
  Bool, if◌then◌else◌, ℕ, zero, suc, ◌+◌, ◌≤◌, ◌<◌, ◌≡◌, true, List, [], ◌∷◌, ◌++◌, some, length,
  take, drop, arith, refl, sym, ap, subst, ◌∙◌, word, length-append, append-nil, append_assoc,
}

-- What follows an attempt that went through, or not.
abbrev through {κ μ} : {R : Type κ} {B : Type μ} → Outcome R → (R → B) → B → B
through o p q = elim o [ done r ↦ p r | _ ↦ q ]

module _ {ℓ} {A : Type ℓ} where
  -- The items with their signals: the given one with the last.
  unfoldable pub tagged : List A → ℕ → List (A × ℕ)
  tagged [] sig = []
  tagged (x ∷ []) sig = (x, sig) ∷ []
  tagged (x ∷ y ∷ xs) sig = (x, 0) ∷ tagged (y ∷ xs) sig

  -- One push that has room.
  push-Agrees :
      (x : A) (s : ℕ) (f : Fifo A)
      → IsValid f
      → f.buffer.write_pt.wrap_a + 1 < word
      → length (contents f.buffer) < f.buffer.max_cap
      → Agrees f (done tt, contents f.buffer ++ (x, s) ∷ []) (local_push (some x) s f)
  push-Agrees x s f v w h =
      subst (λ t. Agrees f t (local_push (some x) s f))
        (Queue.push-room f.buffer.max_cap (contents f.buffer) (x, s) h)
        (local_push-refines (some x) s f v w)

  -- What is known after an insertion.
  pub record Inserted (xs : List A) (sig : ℕ) (f : Fifo A) (r : List A × Fifo A) : Type ℓ where
    pub all_sent : r.0 ≡ []
    pub appended : contents r.1.buffer ≡ contents f.buffer ++ tagged xs sig
    pub valid : IsValid r.1

  -- Under the invariant, with room for all items and if the writer's lap count can grow by their
  -- number, an insertion appends them in order, the last one with the signal and the others with none,
  -- and keeps the invariant.
  pub local_insert_helper-Inserted :
      (xs : List A) (sig : ℕ) (f : Fifo A)
      → IsValid f
      → length (contents f.buffer) + length xs ≤ f.buffer.max_cap
      → f.buffer.write_pt.wrap_a + length xs < word
      → Inserted xs sig f (local_insert_helper xs sig f)
  unfolding local_insert_helper tagged
  local_insert_helper-Inserted [] sig f v h w = record {
    all_sent = refl;
    appended = sym (append-nil (contents f.buffer));
    valid = v;
  }
  local_insert_helper-Inserted (x ∷ []) sig f v h w =
      let a = push-Agrees x sig f v (omega arith) (omega arith) in
      let g = (local_push (some x) sig f).1 in
      subst (Inserted (x ∷ []) sig f)
        (sym (ap (λ o. through o (λ _. ([], g)) (x ∷ [], g)) a.outcome))
        (record { all_sent = refl; appended = a.contents_after; valid = a.valid })
  local_insert_helper-Inserted (x ∷ y ∷ xs) sig f v h w =
      let a = push-Agrees x 0 f v (omega arith) (omega arith) in
      let g = (local_push (some x) 0 f).1 in
      let len : length (contents g.buffer) ≡ length (contents f.buffer) + 1 =
        ap length a.contents_after ∙ length-append (contents f.buffer) ((x, 0) ∷ []) in
      let rest =
        local_insert_helper-Inserted (y ∷ xs) sig g a.valid (omega (arith, h, len, a.cap))
          (omega (arith, w, a.laps)) in
      subst (Inserted (x ∷ y ∷ xs) sig f)
        (sym
          (ap (λ o. through o (λ _. local_insert_helper (y ∷ xs) sig g) (x ∷ y ∷ xs, g)) a.outcome))
        (record {
          all_sent = rest.all_sent;
          appended =
              rest.appended
              ∙ ap (λ l. l ++ tagged (y ∷ xs) sig) a.contents_after
              ∙ append_assoc (contents f.buffer) ((x, 0) ∷ []) (tagged (y ∷ xs) sig);
          valid = rest.valid;
        })

  -- What is known after `n` items were popped.
  pub record Taken (n : ℕ) (f : Fifo A) (r : List (A × ℕ) × Fifo A) : Type ℓ where
    pub first : r.0 ≡ take n (contents f.buffer)
    pub rest : contents r.1.buffer ≡ drop n (contents f.buffer)
    pub valid : IsValid r.1

  split :
      {n : ℕ} (l : List (A × ℕ)) → suc n ≤ length l → (x : A × ℕ) × (q : List (A × ℕ)) × (l ≡ x ∷ q)
  split [] h = absurd (omega arith)
  split (x ∷ q) h = (x, q, refl)

  -- A pop where there is an item.
  pop-Agrees :
      (f : Fifo A) (x : A × ℕ) (q : List (A × ℕ))
      → IsValid f
      → f.buffer.read_pt.wrap_a + 1 < word
      → contents f.buffer ≡ x ∷ q
      → Agrees f (done x, q) (local_pop true f)
  unfolding Queue.pop
  pop-Agrees f x q v w e =
      subst (λ l. Agrees f (Queue.pop f.buffer.is_valid l) (local_pop true f)) e
        (local_pop-refines f v w)

  -- Under the invariant, with `n` items at least and if the writer's lap count can grow by `n`,
  -- popping a range of `n` takes the first `n` items in order with their signals, leaves the others,
  -- and keeps the invariant.
  pub local_pop_range-Taken :
      (n : ℕ) (f : Fifo A)
      → IsValid f
      → n ≤ length (contents f.buffer)
      → f.buffer.write_pt.wrap_a + n < word
      → Taken n f (local_pop_range n f)
  unfolding local_pop_range
  local_pop_range-Taken zero f v h w = record { first = refl; rest = refl; valid = v }
  local_pop_range-Taken (suc n) f v h w =
      let (x, q, e) = split (contents f.buffer) h in
      let a = pop-Agrees f x q v (omega (arith, v.sound.laps, w)) e in
      let g = (local_pop true f).1 in
      let len : length (contents g.buffer) ≡ length q = ap length a.contents_after in
      let more = ap length e in
      let r =
        local_pop_range-Taken n g a.valid (omega (arith, h, len, more))
          (omega (arith, w, a.laps)) in
      let tail = local_pop_range n g in
      subst (Taken (suc n) f)
        (sym (ap (λ o. through o (λ y. (y ∷ tail.0, tail.1)) ([], g)) a.outcome))
        (record {
          first =
              ap (λ l. x ∷ l) (r.first ∙ ap (take n) a.contents_after) ∙ sym (ap (take (suc n)) e);
          rest = r.rest ∙ ap (drop n) a.contents_after ∙ sym (ap (drop (suc n)) e);
          valid = r.valid;
        })

  -- A round of a recycle where there is an item.
  recycle-Agrees :
      (f : Fifo A) (x : A × ℕ) (q : List (A × ℕ))
      → IsValid f
      → f.buffer.read_pt.wrap_a + 1 < word
      → contents f.buffer ≡ x ∷ q
      → Agrees f (done true, q) (recycle_round f)
  unfolding Queue.recycle
  recycle-Agrees f x q v w e =
      subst (λ l. Agrees f (Queue.recycle f.buffer.is_valid l) (recycle_round f)) e
        (recycle_round-refines f v w)

  -- What is known after `n` items were dropped.
  pub record Dropped (n : ℕ) (f : Fifo A) (r : ℕ × Fifo A) : Type ℓ where
    pub none_left : r.0 ≡ 0
    pub rest : contents r.1.buffer ≡ drop n (contents f.buffer)
    pub valid : IsValid r.1

  -- Under the invariant, with `n` items at least and if the writer's lap count can grow by `n`,
  -- recycling a range of `n` returns, has dropped the first `n` items and leaves the others, and keeps
  -- the invariant.
  pub local_recycle-Dropped :
      (n : ℕ) (f : Fifo A)
      → IsValid f
      → n ≤ length (contents f.buffer)
      → f.buffer.write_pt.wrap_a + n < word
      → Dropped n f (local_recycle n f)
  unfolding local_recycle
  local_recycle-Dropped zero f v h w = record { none_left = refl; rest = refl; valid = v }
  local_recycle-Dropped (suc n) f v h w =
      let (x, q, e) = split (contents f.buffer) h in
      let a = recycle-Agrees f x q v (omega (arith, v.sound.laps, w)) e in
      let g = (recycle_round f).1 in
      let len : length (contents g.buffer) ≡ length q = ap length a.contents_after in
      let more = ap length e in
      let r =
        local_recycle-Dropped n g a.valid (omega (arith, h, len, more))
          (omega (arith, w, a.laps)) in
      let tail = local_recycle n g in
      subst (Dropped (suc n) f)
        (sym
          (ap (λ o. through o (λ (d : Bool). if d then tail else (suc n, g)) (suc n, g)) a.outcome))
        (record {
          none_left = r.none_left;
          rest = r.rest ∙ ap (drop n) a.contents_after ∙ sym (ap (drop (suc n)) e);
          valid = r.valid;
        })

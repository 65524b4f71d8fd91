-- ===== src/Threads/Reader.antt =====
-- From wherever the reader stands in local_pop, its next turns take an item that is there.
use raft_lib.Threads.{
  State, Reading, resting, seen, checking, again, seen_again, ready, took_signal, took, stepped,
  ended, Turn, read, run, step, read_at, checked_items,
}
use raft_lib.Threads.Counted.{size_from-exact}
use raft_lib.Threads.Valid.{Agrees, IsValid}
use raft_lib.Threads.Steps.{laps}
use raft_lib.Threads.Steps.Read.{read_at-IsValid, checked_items-cases, checked_empty-cases}
use raft_lib.Fifo.Contents.{cells, length-cells}
use raft_lib.Prelude.{
  none, ℕ, true, false, ◌≡◌, ◌<◌, ◌+◌, ◌++◌, word, arith, refl, List, [], ◌∷◌, length, inl, inr,
  Bool-cases, subst, ap, Bool, sym, ◌∙◌, length-append, ap₂, some, if◌then◌else◌, ltb, lt→ltb,
}

module _ {ℓ} {A : Type ℓ} where
  -- The item at the read index.
  abbrev pub read_cell : State A → A × ℕ
  read_cell s = (s.store s.read_a, s.signal s.read_a)

  -- Some turns take it.
  abbrev pub Pops : State A → Type ℓ
  Pops s = (us : List (Turn A)) × ((run us s).popped ≡ s.popped ++ read_cell s ∷ [])

  -- Items are there, and the writer has counted its wraps.
  pub record IsWaiting (s : State A) : Type ℓ where
    pub count : ℕ
    pub valid : IsValid count s
    pub small : laps s < word
    pub some_left : length s.popped < length s.pushed
    pub settled : laps s ≡ s.write_wrap

  pub some_left-count :
      (n : ℕ) (s : State A) → IsValid n s → length s.popped < length s.pushed → 0 < n
  some_left-count n s v h =
      let all : length s.pushed ≡ length s.popped + n =
        ap length v.items
        ∙ length-append s.popped (cells s.store s.signal s.max_cap s.read_a 0 n)
        ∙ ap (λ k. length s.popped + k) (length-cells s.store s.signal s.max_cap s.read_a 0 n) in
      omega (arith, all)

  abbrev is_taking : Reading A → Bool
  is_taking q = elim q [ took x g ↦ true | _ ↦ false ]

  -- Every access but the one to the read index leaves the items alone.
  read_at-same :
      (q : Reading A) (s : State A)
      → is_taking q ≡ false
      → read_at q s
        ≡ record s { reader = (read_at q s).reader; read_wrap = (read_at q s).read_wrap }
  unfolding read_at
  read_at-same resting s h = refl
  read_at-same (seen w) s h = refl
  read_at-same checking s h = refl
  read_at-same again s h = refl
  read_at-same (seen_again w) s h = refl
  read_at-same ready s h = refl
  read_at-same (took_signal g) s h = refl
  read_at-same (took x g) s h = absurd (ground (arith, h))
  read_at-same stepped s h = refl
  read_at-same ended s h = refl

  Pops-later :
      (q : Reading A) (s : State A)
      → s.reader ≡ q
      → is_taking q ≡ false
      → IsWaiting s
      → (IsWaiting (read_at q s) → Pops (read_at q s))
      → Pops s
  unfolding read_at run
  Pops-later q s e h v k =
      let same = read_at-same q s h in
      let valid : (m : ℕ) × IsValid m (read_at q s) =
        read_at-IsValid q v.count s e v.small
          (subst (λ q'. Agrees s.writer q' v.count s) e v.valid) in
      let (us, p) = k (record {
        count = valid.0;
        valid = valid.1;
        small = subst (λ s'. laps s' < word) (sym same) v.small;
        some_left = subst (λ s'. length s'.popped < length s'.pushed) (sym same) v.some_left;
        settled = subst (λ s'. laps s' ≡ s'.write_wrap) (sym same) v.settled;
      }) in
      (
        read ∷ us,
        ap (λ q'. (run us (read_at q' s)).popped) e
            ∙ p
            ∙ ap (λ s'. s'.popped ++ read_cell s' ∷ []) same,
      )

  took-Pops : (x : A) (g : ℕ) (s : State A) → s.reader ≡ took x g → IsWaiting s → Pops s
  unfolding run step read_at
  took-Pops x g s e v =
      let u : Agrees s.writer (took x g) v.count s =
        subst (λ q'. Agrees s.writer q' v.count s) e v.valid in
      (
        read ∷ [],
        ap (λ q'. (read_at q' s).popped) e
            ∙ ap₂ (λ a b. s.popped ++ (a, b) ∷ []) u.front_item u.front_signal,
      )

  took_signal-Pops : (g : ℕ) (s : State A) → s.reader ≡ took_signal g → IsWaiting s → Pops s
  unfolding read_at
  took_signal-Pops g s e v =
      Pops-later (took_signal g) s e refl v
        (took-Pops (s.store s.read_a) g (read_at (took_signal g) s) refl)

  ready-Pops : (s : State A) → s.reader ≡ ready → IsWaiting s → Pops s
  unfolding read_at
  ready-Pops s e v =
      Pops-later ready s e refl v (took_signal-Pops (s.signal s.read_a) (read_at ready s) refl)

  checked_items-ready :
      (n : ℕ) (s : State A)
      → Agrees s.writer (seen s.write_wrap) n s
      → laps s ≡ s.write_wrap
      → 0 < n
      → checked_items s.write_wrap s ≡ ready
  unfolding checked_items
  checked_items-ready n s v e h =
      let exact =
        size_from-exact s.max_cap s.write_a (laps s) s.read_a s.read_wrap n v.small v.ring in
      ap (λ w. checked_items w s) (sym e)
      ∙ ap (λ o. elim o [ none ↦ resting | some n ↦ if ltb 0 n then ready else checking ]) exact
      ∙ ap (λ b. if b then ready else checking) (lt→ltb 0 n h)

  -- With the writer's current count of wraps the reader finds the items.
  resting-Pops : (s : State A) → s.reader ≡ resting → IsWaiting s → Pops s
  unfolding read_at
  resting-Pops s e v = Pops-later resting s e refl v (λ v1.
      Pops-later (seen s.write_wrap) (read_at resting s) refl refl v1 (
        ready-Pops (read_at (seen s.write_wrap) (read_at resting s)) (
          checked_items-ready v1.count (read_at resting s) v1.valid v1.settled
            (some_left-count v1.count (read_at resting s) v1.valid v1.some_left))))

  stepped-Pops : (s : State A) → s.reader ≡ stepped → IsWaiting s → Pops s
  unfolding read_at
  stepped-Pops s e v = Pops-later stepped s e refl v (resting-Pops (read_at stepped s) refl)

  seen_again-Pops : (w : ℕ) (s : State A) → s.reader ≡ seen_again w → IsWaiting s → Pops s
  unfolding read_at
  seen_again-Pops w s e v =
      let u : Agrees s.writer (seen_again w) v.count s =
        subst (λ q'. Agrees s.writer q' v.count s) e v.valid in
      elim (checked_empty-cases w v.count s u) [
        | inl f ↦ Pops-later (seen_again w) s e refl v (resting-Pops (read_at (seen_again w) s) f)
        | inr (_, z) ↦ absurd (omega (arith, z, some_left-count v.count s v.valid v.some_left))
      ]

  again-Pops : (s : State A) → s.reader ≡ again → IsWaiting s → Pops s
  unfolding read_at
  again-Pops s e v =
      Pops-later again s e refl v (seen_again-Pops s.write_wrap (read_at again s) refl)

  checking-Pops : (s : State A) → s.reader ≡ checking → IsWaiting s → Pops s
  unfolding read_at
  checking-Pops s e v = elim (Bool-cases s.is_valid) [
    | inl t ↦ Pops-later checking s e refl v (resting-Pops (read_at checking s) (ground (arith, t)))
    | inr f ↦ Pops-later checking s e refl v (again-Pops (read_at checking s) (ground (arith, f)))
  ]

  seen-Pops : (w : ℕ) (s : State A) → s.reader ≡ seen w → IsWaiting s → Pops s
  unfolding read_at
  seen-Pops w s e v =
      let u : Agrees s.writer (seen w) v.count s =
        subst (λ q'. Agrees s.writer q' v.count s) e v.valid in
      elim (checked_items-cases w v.count s u) [
        | inl f ↦ Pops-later (seen w) s e refl v (resting-Pops (read_at (seen w) s) f)
        | inr (inl f) ↦ Pops-later (seen w) s e refl v (checking-Pops (read_at (seen w) s) f)
        | inr (inr (f, _)) ↦ Pops-later (seen w) s e refl v (ready-Pops (read_at (seen w) s) f)
      ]

  pub reader-Pops : (q : Reading A) (s : State A) → s.reader ≡ q → IsWaiting s → Pops s
  reader-Pops resting s e v = resting-Pops s e v
  reader-Pops (seen w) s e v = seen-Pops w s e v
  reader-Pops checking s e v = checking-Pops s e v
  reader-Pops again s e v = again-Pops s e v
  reader-Pops (seen_again w) s e v = seen_again-Pops w s e v
  reader-Pops ready s e v = ready-Pops s e v
  reader-Pops (took_signal g) s e v = took_signal-Pops g s e v
  reader-Pops (took x g) s e v = took-Pops x g s e v
  reader-Pops stepped s e v = stepped-Pops s e v
  reader-Pops ended s e v = absurd (
      omega (
        arith,
        some_left-count v.count s v.valid v.some_left,
        (subst (λ q'. Agrees s.writer q' v.count s) e v.valid).drained,
      ))

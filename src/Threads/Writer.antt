-- ===== src/Threads/Writer.antt =====
-- From wherever the writer stands in local_push, its next turns push an item where there is room.
use raft_lib.Threads.{
  State, begun, counting, roomy, stored, signalled, Turn, write, run, step, write_at, checked_space,
  stepped, Writing, resting,
}
use raft_lib.Threads.Counted.{size_from-exact, IsRing}
use raft_lib.Threads.Valid.{Agrees, IsValid, write_laps, read_laps}
use raft_lib.Threads.Steps.{laps}
use raft_lib.Threads.Steps.Write.{write_at-IsValid, checked_space-cases}
use raft_lib.Fifo.Contents.{cells, length-cells}
use raft_lib.Prelude.{
  ℕ, ◌+◌, ◌-◌, ◌%◌, ◌<◌, ◌≡◌, true, List, [], ◌∷◌, ◌++◌, none, some, if◌then◌else◌, ltb, lt→ltb,
  length, word, arith, refl, ap, ◌∙◌, subst, length-append, inl, sym, inr,
}

module _ {ℓ} {A : Type ℓ} where
  -- Some turns push one item more.
  abbrev pub Pushes : State A → Type ℓ
  Pushes s = (us : List (Turn A)) × (y : A × ℕ) × ((run us s).pushed ≡ s.pushed ++ y ∷ [])

  -- There is room, the queue is valid, and the reader has counted its wraps.
  pub record HasRoom (s : State A) : Type ℓ where
    pub count : ℕ
    pub valid : IsValid count s
    pub small : laps s + 1 < word
    pub room : length s.pushed < length s.popped + s.max_cap
    pub settled : read_laps s.reader s.read_a s.read_wrap ≡ s.read_wrap
    pub opened : s.is_valid ≡ true

  room-count : (s : State A) (v : HasRoom s) → v.count < s.max_cap
  room-count s v =
      let all : length s.pushed ≡ length s.popped + v.count =
        ap length v.valid.items
        ∙ length-append s.popped (cells s.store s.signal s.max_cap s.read_a 0 v.count)
        ∙ ap (λ k. length s.popped + k)
            (length-cells s.store s.signal s.max_cap s.read_a 0 v.count) in
      omega (arith, all, v.room)

  signalled-Pushes : (s : State A) → s.writer ≡ signalled → Pushes s
  unfolding run step write_at
  signalled-Pushes s e =
      (write s.pending ∷ [], s.pending, ap (λ p. (write_at p s.pending s).pushed) e)

  stored-Pushes : (s : State A) → s.writer ≡ stored → Pushes s
  unfolding run step write_at
  stored-Pushes s e =
      let (us, y, p) = signalled-Pushes (write_at stored s.pending s) refl in
      (write s.pending ∷ us, y, ap (λ q. (run us (write_at q s.pending s)).pushed) e ∙ p)

  roomy-Pushes : (s : State A) → s.writer ≡ roomy → Pushes s
  unfolding run step write_at
  roomy-Pushes s e =
      let (us, y, p) = stored-Pushes (write_at roomy s.pending s) refl in
      (write s.pending ∷ us, y, ap (λ q. (run us (write_at q s.pending s)).pushed) e ∙ p)

  -- With the reader's current count of wraps the writer finds the room.
  checked_space-roomy :
      (s : State A) (v : HasRoom s)
      → Agrees (counting s.read_wrap) s.reader v.count s
      → checked_space s.read_wrap s ≡ roomy
  unfolding checked_space
  checked_space-roomy s v u =
      let exact =
        size_from-exact s.max_cap s.write_a s.write_wrap s.read_a s.read_wrap v.count v.valid.small
          (subst (λ k. IsRing s.max_cap s.write_a s.write_wrap s.read_a k v.count) v.settled
            u.ring) in
      let space : 0 < (s.max_cap + word - v.count) % word =
        omega (arith, room-count s v, u.small) in
      ap
        (λ o. elim o [
          | none ↦ begun
          | some n ↦ if ltb 0 ((s.max_cap + word - n) % word) then roomy else begun
        ])
        exact
      ∙ ap (λ b. if b then roomy else begun) (lt→ltb 0 ((s.max_cap + word - v.count) % word) space)

  begun-Pushes : (s : State A) → s.writer ≡ begun → HasRoom s → Pushes s
  unfolding run step write_at
  begun-Pushes s e v =
      let s1 = write_at begun s.pending s in
      let u : Agrees begun s.reader v.count s =
        subst (λ p. Agrees p s.reader v.count s) e v.valid in
      let (m, w) =
        write_at-IsValid begun s.pending v.count s e
          (subst (λ p. write_laps p s.write_a s.write_wrap + 1 < word) e v.small) u in
      let v1 : HasRoom s1 = record {
        count = m;
        valid = w;
        small = subst (λ p. write_laps p s.write_a s.write_wrap + 1 < word) e v.small;
        room = v.room;
        settled = v.settled;
        opened = v.opened;
      } in
      let (us, y, p) =
        roomy-Pushes (write_at (counting s.read_wrap) s.pending s1) (checked_space-roomy s1 v1 w) in
      (
        write s.pending ∷ write s.pending ∷ us,
        y,
        ap (λ q. (run (write s.pending ∷ us) (write_at q s.pending s)).pushed) e ∙ p,
      )

  counting-Pushes : (r : ℕ) (s : State A) → s.writer ≡ counting r → HasRoom s → Pushes s
  unfolding run step write_at
  counting-Pushes r s e v =
      let s1 = write_at (counting r) s.pending s in
      let u : Agrees (counting r) s.reader v.count s =
        subst (λ p. Agrees p s.reader v.count s) e v.valid in
      let low : write_laps (counting r) s.write_a s.write_wrap + 1 < word =
        subst (λ p. write_laps p s.write_a s.write_wrap + 1 < word) e v.small in
      let (m, w) = write_at-IsValid (counting r) s.pending v.count s e low u in
      let next : Pushes s1 = elim (checked_space-cases r v.count s.reader s u) [
        | inl f ↦ begun-Pushes s1 f (record {
          count = m;
          valid = w;
          small = subst (λ p. write_laps p s.write_a s.write_wrap + 1 < word) (sym f) low;
          room = v.room;
          settled = v.settled;
          opened = v.opened;
        })
        | inr (f, _) ↦ roomy-Pushes s1 f
      ] in
      (
        write s.pending ∷ next.0,
        next.1,
        ap (λ q. (run next.0 (write_at q s.pending s)).pushed) e ∙ next.2,
      )

  resting-Pushes : (s : State A) → s.writer ≡ resting → HasRoom s → Pushes s
  unfolding run step write_at
  resting-Pushes s e v =
      let s1 : State A = record s { writer = begun } in
      let u : Agrees resting s.reader v.count s =
        subst (λ p. Agrees p s.reader v.count s) e v.valid in
      let low : write_laps resting s.write_a s.write_wrap + 1 < word =
        subst (λ p. write_laps p s.write_a s.write_wrap + 1 < word) e v.small in
      let moved : write_at resting s.pending s ≡ s1 = ap (λ b. if b then s1 else s) v.opened in
      let (m, w) = write_at-IsValid resting s.pending v.count s e low u in
      let (us, y, p) = begun-Pushes s1 refl (record {
        count = m;
        valid = subst (λ t. IsValid m t) moved w;
        small = low;
        room = v.room;
        settled = v.settled;
        opened = v.opened;
      }) in
      (
        write s.pending ∷ us,
        y,
        ap (λ q. (run us (write_at q s.pending s)).pushed) e
            ∙ ap (λ t. (run us t).pushed) moved
            ∙ p,
      )

  stepped-Pushes : (s : State A) → s.writer ≡ stepped → HasRoom s → Pushes s
  unfolding run step write_at
  stepped-Pushes s e v =
      let s1 = write_at stepped s.pending s in
      let u : Agrees stepped s.reader v.count s =
        subst (λ p. Agrees p s.reader v.count s) e v.valid in
      let low : write_laps stepped s.write_a s.write_wrap + 1 < word =
        subst (λ p. write_laps p s.write_a s.write_wrap + 1 < word) e v.small in
      let (m, w) = write_at-IsValid stepped s.pending v.count s e low u in
      let (us, y, p) = resting-Pushes s1 refl (record {
        count = m;
        valid = w;
        small = ground (arith, low);
        room = v.room;
        settled = v.settled;
        opened = v.opened;
      }) in
      (write s.pending ∷ us, y, ap (λ q. (run us (write_at q s.pending s)).pushed) e ∙ p)

  pub writer-Pushes : (p : Writing) (s : State A) → s.writer ≡ p → HasRoom s → Pushes s
  writer-Pushes resting s e v = resting-Pushes s e v
  writer-Pushes begun s e v = begun-Pushes s e v
  writer-Pushes (counting r) s e v = counting-Pushes r s e v
  writer-Pushes roomy s e v = roomy-Pushes s e
  writer-Pushes stored s e v = stored-Pushes s e
  writer-Pushes signalled s e v = signalled-Pushes s e
  writer-Pushes stepped s e v = stepped-Pushes s e v

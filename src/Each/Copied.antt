-- ===== src/Each/Copied.antt =====
-- What the program of raftinc/readeach.tcc and raftinc/writeeach.tcc copies.
use raft_lib.Each.{
  State, Kernel, read_each, write_each, write_run, insert_all, step, schedule, program, read_at,
}
use raft_lib.Prelude.{
  ℕ, ◌≤◌, ◌<◌, ◌≡◌, true, List, [], ◌∷◌, ◌++◌, if◌then◌else◌, ltb, length, refl, arith,
  append_assoc, append-nil, sym, ap, ◌∙◌, length-append, inl, inr, Bool-cases, drop, subst, ltb→lt,
  ap₂, lt→ltb,
}

module _ {ℓ} {A : Type ℓ} where
  insert_all-append : (l w : List A) → insert_all l w ≡ w ++ l
  unfolding insert_all
  insert_all-append [] w = sym (append-nil w)
  insert_all-append (x ∷ l) w = insert_all-append l (w ++ x ∷ []) ∙ append_assoc w (x ∷ []) l

  -- Nothing of the range is lost, doubled or out of order.
  pub record IsValid (range : List A) (s : State A) : Type ℓ where
    pub together : s.first ≡ s.it
    pub all : range ≡ s.written ++ (s.queue ++ s.it)
    pub room : length s.queue ≤ s.capacity

  read_at-IsValid :
      (it first range : List A) (s : State A)
      → s.it ≡ it
      → s.first ≡ first
      → IsValid range s
      → IsValid range (read_at it first s)
  unfolding read_at
  read_at-IsValid [] first range s e f v = record {
    together = v.together;
    all = v.all;
    room = v.room;
  }
  read_at-IsValid (y ∷ it) [] range s e f v = v
  read_at-IsValid (y ∷ it) (x ∷ first) range s e f v =
      elim (Bool-cases (ltb (length s.queue) s.capacity)) [
        | inl t ↦
            let same : first ≡ it = ap (drop 1) (sym f ∙ v.together ∙ e) in
            let left : s.it ≡ x ∷ it = sym v.together ∙ f ∙ ap (λ l. x ∷ l) same in
            subst
              (λ b.
                IsValid range
                  (if b then record s { it = it; first = first; queue = s.queue ++ x ∷ [] } else s))
              (sym t)
              (record {
                together = same;
                all =
                    v.all
                    ∙ ap (λ l. s.written ++ l)
                        (ap (λ l. s.queue ++ l) left ∙ sym (append_assoc s.queue (x ∷ []) it));
                room =
                    omega
                      (arith, ltb→lt (length s.queue) s.capacity t, length-append s.queue (x ∷ []));
              })
        | inr t ↦
            subst
              (λ b.
                IsValid range
                  (if b then record s { it = it; first = first; queue = s.queue ++ x ∷ [] } else s))
              (sym t) v
      ]

  step-IsValid :
      (k : Kernel) (range : List A) (s : State A) → IsValid range s → IsValid range (step k s)
  unfolding step write_run
  step-IsValid read_each range s v = read_at-IsValid s.it s.first range s refl refl v
  step-IsValid write_each range s v = record {
    together = v.together;
    all =
        v.all
        ∙ sym (append_assoc s.written s.queue s.it)
        ∙ ap (λ w. w ++ s.it) (sym (insert_all-append s.queue s.written));
    room = omega arith;
  }

  schedule-IsValid :
      (ks : List Kernel) (range : List A) (s : State A)
      → IsValid range s
      → IsValid range (schedule ks s)
  unfolding schedule
  schedule-IsValid [] range s v = v
  schedule-IsValid (k ∷ ks) range s v =
      schedule-IsValid ks range (step k s) (step-IsValid k range s v)

  program-IsValid : (capacity : ℕ) (range : List A) → IsValid range (program capacity range)
  program-IsValid capacity range = record { together = refl; all = refl; room = omega arith }

  -- The turns that copy what is left, one item at a time.
  copying : List A → List Kernel
  copying [] = write_each ∷ read_each ∷ []
  copying (x ∷ l) = write_each ∷ read_each ∷ copying l

  copying-written :
      (l range : List A) (s : State A)
      → s.it ≡ l
      → 0 < s.capacity
      → IsValid range s
      → ((schedule (copying l) s).written ≡ range) × ((schedule (copying l) s).stopped ≡ true)
  unfolding copying schedule step read_at write_run
  copying-written [] range s e c v = (
    ap (λ i. (read_at i s.first (write_run s)).written) e
        ∙ insert_all-append s.queue s.written
        ∙ ap (λ q. s.written ++ q) (sym (append-nil s.queue))
        ∙ ap (λ i. s.written ++ (s.queue ++ i)) (sym e)
        ∙ sym v.all,
    ap (λ i. (read_at i s.first (write_run s)).stopped) e,
  )
  copying-written (x ∷ l) range s e c v =
      let s1 = write_run s in
      let taken : State A = record s1 { it = l; first = l; queue = x ∷ [] } in
      let moved : read_at s.it s.first s1 ≡ taken =
        ap₂ (λ i f. read_at i f s1) e (v.together ∙ e)
        ∙ ap (λ b. if b then taken else s1) (lt→ltb 0 s.capacity c) in
      copying-written l range (read_at s.it s.first s1) (ap (λ r. r.it) moved)
        (subst (λ r. 0 < r.capacity) (sym moved) c)
        (step-IsValid read_each range s1 (step-IsValid write_each range s v))

  step-capacity : (k : Kernel) (s : State A) → (step k s).capacity ≡ s.capacity
  unfolding step read_at write_run
  step-capacity read_each s = ground arith
  step-capacity write_each s = refl

  schedule-capacity : (ks : List Kernel) (s : State A) → (schedule ks s).capacity ≡ s.capacity
  unfolding schedule
  schedule-capacity [] s = refl
  schedule-capacity (k ∷ ks) s = schedule-capacity ks (step k s) ∙ step-capacity k s

  -- For every range and every queue with room for an item, after every schedule of the two kernels, what was
  -- written and then what is in the queue is the beginning of the range, and the queue keeps its capacity; and
  -- there are turns after which all of the range was written and the reader has stopped.
  pub program-written :
      (capacity : ℕ) (range : List A) (ks : List Kernel)
      → 0 < capacity
      → (rest : List A) × (us : List Kernel) × (range
          ≡ (schedule ks (program capacity range)).written
            ++ ((schedule ks (program capacity range)).queue ++ rest))
        × (length (schedule ks (program capacity range)).queue ≤ capacity)
        × ((schedule us (schedule ks (program capacity range))).written ≡ range)
        × ((schedule us (schedule ks (program capacity range))).stopped ≡ true)
  program-written capacity range ks h =
      let s = schedule ks (program capacity range) in
      let v = schedule-IsValid ks range (program capacity range) (program-IsValid capacity range) in
      let same : s.capacity ≡ capacity = schedule-capacity ks (program capacity range) in
      let (w, t) = copying-written s.it range s refl (omega (arith, h, same)) v in
      (s.it, copying s.it, v.all, omega (arith, same, v.room), w, t)

-- ===== src/Graph/Search.antt =====
-- One round of the walk over kernels of src/graphtools.cpp: what it adds to the queue.
use raft_lib.Graph.{PortInfo, Walk, visit_port, visit_ports}
use raft_lib.Graph.Bound.{missing, missing-cons, IsUnique, contains-append, IsUnique-append}
use raft_lib.Prelude.{
  ℕ, ◌+◌, ◌<◌, ◌≡◌, Bool, true, false, ◌||◌, ◌⊎◌, inl, inr, List, [], ◌∷◌, ◌++◌, Option, none, some,
  contains, if◌then◌else◌, arith, refl, length, ◌==◌, Bool-cases, length-append, subst, sym,
}

-- The kernels at the other ends of the ports.
unfoldable pub is_child : List PortInfo → ℕ → Bool
is_child [] x = false
is_child (p ∷ ps) x = elim p.other_kernel [
  | none ↦ is_child ps x
  | some k ↦ (x == k) || is_child ps x
]

-- Everything in the queue is marked, and once.
pub record IsTidy (s : Walk) : Type 0 where
  pub marked : (x : ℕ) → contains s.queue x ≡ true → contains s.visited_set x ≡ true
  pub unique : IsUnique s.queue

-- What some ports add to a walk.
pub record Grows (ps : List PortInfo) (s t : Walk) : Type 0 where
  pub queued : (x : ℕ) → contains s.queue x ≡ true → contains t.queue x ≡ true
  pub visited : (x : ℕ) → contains s.visited_set x ≡ true → contains t.visited_set x ≡ true
  pub back :
      (x : ℕ)
      → contains t.visited_set x ≡ true
      → (contains s.visited_set x ≡ true) ⊎ (contains t.queue x ≡ true)
  pub fresh :
      (x : ℕ)
      → contains t.queue x ≡ true
      → (contains s.queue x ≡ true) ⊎ ((contains s.visited_set x ≡ false) × (is_child ps x ≡ true))
  pub all_visited : (x : ℕ) → is_child ps x ≡ true → contains t.visited_set x ≡ true
  pub tidy : IsTidy t
  pub left :
      (n : ℕ)
      → ((x : ℕ) → is_child ps x ≡ true → x < n)
      → length t.queue + missing n t.visited_set ≡ length s.queue + missing n s.visited_set

visit_new :
    (k : ℕ) (s : Walk)
    → IsTidy s
    → contains s.visited_set k ≡ false
    → Grows
        (record { other_kernel = some k } ∷ [])
        s
        (record { queue = s.queue ++ k ∷ []; visited_set = k ∷ s.visited_set })
unfolding is_child contains
visit_new k s v c = record {
  queued = λ x h. ground (arith, h, contains-append s.queue (k ∷ []) x);
  visited = λ x h. ground (arith, h);
  back = λ x h. ground (arith, h, contains-append s.queue (k ∷ []) x);
  fresh = λ x h. ground (arith, h, c, contains-append s.queue (k ∷ []) x);
  all_visited = λ x h. ground (arith, h);
  tidy = record {
    marked = λ x h. ground (arith, h, v.marked x, contains-append s.queue (k ∷ []) x);
    unique = IsUnique-append s.queue k v.unique (ground (arith, c, v.marked k));
  };
  left = λ n h. omega (
    arith,
    missing-cons n s.visited_set k (h k (ground arith)) c,
    length-append s.queue (k ∷ []),
  );
}

-- A port that leads nowhere new.
visit_known :
    (ps : List PortInfo) (s : Walk)
    → ((x : ℕ) → is_child ps x ≡ true → contains s.visited_set x ≡ true)
    → IsTidy s
    → Grows ps s s
visit_known ps s h v = record {
  queued = λ x c. c;
  visited = λ x c. c;
  back = λ x c. inl c;
  fresh = λ x c. inl c;
  all_visited = h;
  tidy = v;
  left = λ n c. refl;
}

visit_other-Grows :
    (o : Option ℕ) (s : Walk)
    → IsTidy s
    → Grows (record { other_kernel = o } ∷ []) s (visit_port (record { other_kernel = o }) s)
unfolding visit_port is_child
visit_other-Grows none s v = visit_known _ s (λ x h. ground (arith, h)) v
visit_other-Grows (some k) s v = elim (Bool-cases (contains s.visited_set k)) [
  | inl c ↦
      subst (λ b. P (if b then s else new)) (sym c)
        (visit_known (port ∷ []) s (λ x h. ground (arith, h, c)) v)
  | inr c ↦ subst (λ b. P (if b then s else new)) (sym c) (visit_new k s v c)
]
  where
    port : PortInfo
    port = record { other_kernel = some k }

    new : Walk
    new = record { queue = s.queue ++ k ∷ []; visited_set = k ∷ s.visited_set }

    P : Walk → Type 0
    P = Grows (port ∷ []) s

Grows-trans :
    (p : PortInfo) (ps : List PortInfo) {s t u : Walk}
    → Grows (p ∷ []) s t
    → Grows ps t u
    → Grows (p ∷ ps) s u
unfolding is_child
Grows-trans p ps a b = record {
  queued = λ x h. b.queued x (a.queued x h);
  visited = λ x h. b.visited x (a.visited x h);
  back = λ x h. ground (arith, h, b.back x, a.back x, b.queued x);
  fresh = λ x h. ground (arith, h, b.fresh x, a.fresh x, a.visited x);
  all_visited = λ x h. ground (arith, h, b.all_visited x, a.all_visited x, b.visited x);
  tidy = b.tidy;
  left = λ n h.
      omega (
        arith,
        b.left n (λ x c. h x (ground (arith, c))),
        a.left n (λ x c. h x (ground (arith, c))),
      );
}

pub visit_ports-Grows : (ps : List PortInfo) (s : Walk) → IsTidy s → Grows ps s (visit_ports ps s)
unfolding visit_ports is_child
visit_ports-Grows [] s v = visit_known [] s (λ x h. ground (arith, h)) v
visit_ports-Grows (p ∷ ps) s v =
    let first = visit_other-Grows p.other_kernel s v in
    Grows-trans p ps first (visit_ports-Grows ps (visit_port p s) first.tidy)

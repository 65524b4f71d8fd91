-- ===== src/Graph/Reach.antt =====
-- On which kernels the walk over kernels of src/graphtools.cpp calls its function.
use native.Mathlib.Decide.{ℕ_discrete}
use raft_lib.Graph.{PortInfo, Walk, visit_ports, called, bfs_loop, bfs}
use raft_lib.Graph.Bound.{missing, IsUnique}
use raft_lib.Graph.Search.{is_child, IsTidy, Grows, visit_ports-Grows}
use raft_lib.Prelude.{
  ℕ, zero, suc, ◌+◌, ◌<◌, ◌≡◌, true, false, ◌⊎◌, inl, inr, List, [], ◌∷◌, some, contains, arith,
  refl, length, ap, ◌↔◌,
}

-- A kernel that some path of connected ports leads to from one of `sources`.
pub data IsReached (outputs : ℕ → List PortInfo) (sources : List ℕ) : ℕ → Type 0 where
  source : (x : ℕ) → contains sources x ≡ true → IsReached outputs sources x
  child :
      (x y : ℕ)
      → IsReached outputs sources x
      → is_child (outputs x) y ≡ true
      → IsReached outputs sources y

module _ (outputs : ℕ → List PortInfo) where
  -- What a walk that goes on from `s` calls its function on.
  record Covers (s : Walk) (calls : List ℕ) : Type 0 where
    unique : IsUnique calls
    starts : (x : ℕ) → contains s.queue x ≡ true → contains calls x ≡ true
    new :
        (x : ℕ)
        → contains calls x ≡ true
        → (contains s.queue x ≡ true) ⊎ (contains s.visited_set x ≡ false)
    reached : (x : ℕ) → contains calls x ≡ true → IsReached outputs s.queue x
    closed :
        (x y : ℕ)
        → contains calls x ≡ true
        → is_child (outputs x) y ≡ true
        → (contains s.visited_set y ≡ true) ⊎ (contains calls y ≡ true)

  IsReached-more :
      (l m : List ℕ)
      → ((x : ℕ) → contains l x ≡ true → IsReached outputs m x)
      → (x : ℕ) → IsReached outputs l x
      → IsReached outputs m x
  IsReached-more l m h x (source _ c) = h x c
  IsReached-more l m h x (child w _ r c) = child w x (IsReached-more l m h w r) c

  module _ (k : ℕ) (queue v : List ℕ) where
    abbrev tail : Walk
    tail = record { queue = queue; visited_set = v }

    abbrev before : Walk
    before = record { queue = k ∷ queue; visited_set = v }

    abbrev after : Walk
    unfolding visit_ports
    after = visit_ports (outputs k) tail

    tail-IsTidy : IsTidy before → IsTidy tail
    unfolding contains IsUnique
    tail-IsTidy t = record { marked = λ x h. t.marked x (ground (arith, h)); unique = t.unique.1 }

    from_queue :
        Grows (outputs k) tail after
        → (x : ℕ) → contains after.queue x ≡ true
        → IsReached outputs (k ∷ queue) x
    unfolding contains
    from_queue g x h = elim (g.fresh x h) [
      | inl c ↦ source x (ground (arith, c))
      | inr (_, c) ↦ child k x (source k (ground arith)) c
    ]

    -- One kernel more.
    Covers-cons :
        (calls : List ℕ)
        → IsTidy before
        → Grows (outputs k) tail after
        → Covers after calls
        → Covers before (k ∷ calls)
    unfolding contains IsUnique
    Covers-cons calls t g c = record {
      unique = (
        ground (arith, c.new k, g.fresh k, g.visited k, t.marked k (ground arith), t.unique.0),
        c.unique,
      );
      starts = λ x h. ground (arith, h, g.queued x, c.starts x);
      new = λ x h. ground (arith, h, c.new x, g.fresh x, g.visited x);
      reached = λ x h. elim (ℕ_discrete x k) [
        | yes e ↦ source x (ground (arith, e))
        | no d ↦
            IsReached-more after.queue (k ∷ queue) (from_queue g) x
              (c.reached x (ground (arith, h, d)))
      ];
      closed = λ x y h d. elim (ℕ_discrete x k) [
        | yes e ↦
            ground
              (arith, g.all_visited y, g.back y, c.starts y, d, ap (λ z. is_child (outputs z) y) e)
        | no n ↦ ground (arith, h, n, c.closed x y (ground (arith, h, n)) d, g.back y, c.starts y)
      ];
    }

  -- From a tidy walk, with more fuel than kernels that are in the queue or still to be met.
  bfs_loop-Covers :
      (n : ℕ)
      → ((x y : ℕ) → is_child (outputs x) y ≡ true → y < n)
      → (fuel : ℕ) (queue v : List ℕ) → IsTidy (record { queue = queue; visited_set = v })
      → length queue + missing n v < fuel
      → (calls : List ℕ) × (bfs_loop fuel outputs (record { queue = queue; visited_set = v })
          ≡ some calls)
        × Covers (record { queue = queue; visited_set = v }) calls
  unfolding bfs_loop IsUnique contains
  bfs_loop-Covers n bound zero queue v t h = absurd (omega arith)
  bfs_loop-Covers n bound (suc fuel) [] v t h = (
    [],
    refl,
    record {
      unique = tt;
      starts = λ x c. c;
      new = λ x c. absurd (ground (arith, c));
      reached = λ x c. absurd (ground (arith, c));
      closed = λ x y c d. absurd (ground (arith, c));
    },
  )
  bfs_loop-Covers n bound (suc fuel) (k ∷ queue) v t h =
      let g = visit_ports-Grows (outputs k) (tail k queue v) (tail-IsTidy k queue v t) in
      let s = after k queue v in
      let (calls, e, c) =
        bfs_loop-Covers n bound fuel s.queue s.visited_set g.tidy
          (omega (arith, g.left n (bound k))) in
      (k ∷ calls, ap (called k) e, Covers-cons k queue v calls t g c)

  -- Everything that can be reached is among the calls.
  IsReached-contains :
      (sources calls : List ℕ)
      → Covers (record { queue = sources; visited_set = sources }) calls
      → (x : ℕ) → IsReached outputs sources x
      → contains calls x ≡ true
  IsReached-contains sources calls c x (source _ h) = c.starts x h
  IsReached-contains sources calls c x (child w _ r d) =
      ground (arith, c.closed w x (IsReached-contains sources calls c w r) d, c.starts x)

  -- Where every port leads to a kernel below `n` or to none, with distinct sources, and on more fuel
  -- than there are sources and kernels below `n` that are no sources, `bfs` ends and has called its
  -- function exactly once on every kernel that a path of connected ports leads to from a source, and
  -- on no other.
  pub bfs-IsReached :
      (n fuel : ℕ) (sources : List ℕ)
      → ((x y : ℕ) → is_child (outputs x) y ≡ true → y < n)
      → IsUnique sources
      → length sources + missing n sources < fuel
      → (calls : List ℕ) × (bfs fuel outputs sources ≡ some calls)
        × IsUnique calls
        × ((x : ℕ) → (contains calls x ≡ true) ↔ IsReached outputs sources x)
  unfolding bfs
  bfs-IsReached n fuel sources bound u h =
      let (calls, e, c) =
        bfs_loop-Covers n bound fuel sources sources (record { marked = λ x k. k; unique = u }) h in
      (calls, e, c.unique, λ x. (c.reached x, IsReached-contains sources calls c x))

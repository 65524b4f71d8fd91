-- ===== src/Graph/Edges.antt =====
-- The walk over edges of src/graphtools.cpp.
use raft_lib.Prelude.{
  ℕ, zero, suc, Bool, true, false, List, [], ◌∷◌, ◌++◌, Option, none, some, contains, if◌then◌else◌,
  map, ◌≡◌, refl, ap, ◌∙◌, arith, ◌≢◌,
}
use raft_lib.Graph.{PortInfo, Walk, visit_port, visit_ports, called, bfs_loop, bfs}

-- The queue of kernels, where `none` is a null pointer, and the kernels that were ever put there.
pub record EdgeWalk : Type 0 where
  pub queue : List (Option ℕ)
  pub visited_set : List ℕ
  pub null_visited : Bool

abbrev pub Edge : Type 0
Edge = ℕ × PortInfo

-- "if the dst kernel hasn't been visited, visit it"
unfoldable pub visit : Option ℕ → EdgeWalk → EdgeWalk
visit none s =
    if s.null_visited then s else record s { queue = s.queue ++ none ∷ []; null_visited = true }
visit (some k) s =
    if contains s.visited_set k
    then s
    else record s { queue = s.queue ++ some k ∷ []; visited_set = k ∷ s.visited_set }

-- The loop over the ports of kernel `k`: the calls of the function, and false where it ended at a port
-- that is not connected.
unfoldable pub visit_edges : Bool → ℕ → List PortInfo → EdgeWalk → Bool × List Edge × EdgeWalk
unfolding visit
visit_edges connected_error k [] s = (true, [], s)
visit_edges connected_error k (p ∷ ps) s =
    let rest = visit_edges connected_error k ps (visit p.other_kernel s) in
    elim p.other_kernel [
      | some m ↦ (rest.0, (k, p) ∷ rest.1, rest.2)
      | none ↦ if connected_error then (false, [], s) else rest
    ]

abbrev pub after_calls :
    Bool × List Edge × EdgeWalk → Option (Bool × List Edge) → Option (Bool × List Edge)
after_calls (false, calls, s) rest = some (false, calls)
after_calls (true, calls, s) none = none
after_calls (true, calls, s) (some (b, more)) = some (b, calls ++ more)

-- `__BFS` with a function of edges; `none` when the fuel is out. A null pointer at the front ends it.
unfoldable pub edge_loop : ℕ → Bool → (ℕ → List PortInfo) → EdgeWalk → Option (Bool × List Edge)
unfolding visit_edges
edge_loop zero connected_error outputs s = none
edge_loop (suc fuel) connected_error outputs s = elim s.queue [
  | [] ↦ some (true, [])
  | q ∷ queue ↦ elim q [
    | none ↦ some (true, [])
    | some k ↦
        let r = visit_edges connected_error k (outputs k) (record s { queue = queue }) in
        after_calls r (edge_loop fuel connected_error outputs r.2)
  ]
]

-- `BFS( source_kernels, func, data, connected_error )`
unfoldable pub edge_bfs : ℕ → Bool → (ℕ → List PortInfo) → List ℕ → Option (Bool × List Edge)
unfolding edge_loop
edge_bfs fuel connected_error outputs sources =
    edge_loop fuel connected_error outputs
      (record { queue = map some sources; visited_set = sources; null_visited = false })

-- Every port of a list is connected.
abbrev pub AreConnected : List PortInfo → Type 0
AreConnected [] = Unit
AreConnected (p ∷ ps) = (p.other_kernel ≢ none) × AreConnected ps

-- The edges that leave kernels.
abbrev pub edges_of : (ℕ → List PortInfo) → List ℕ → List Edge
edges_of outputs [] = []
edges_of outputs (k ∷ ks) = map (λ p. (k, p)) (outputs k) ++ edges_of outputs ks

-- The walk over kernels, seen as one over edges.
abbrev walked : Walk → EdgeWalk
walked s = record { queue = map some s.queue; visited_set = s.visited_set; null_visited = false }

map-append-some : (xs : List ℕ) (k : ℕ) → map some (xs ++ k ∷ []) ≡ map some xs ++ some k ∷ []
map-append-some [] k = refl
map-append-some (x ∷ xs) k = ap (λ l. some x ∷ l) (map-append-some xs k)

visit-walked :
    (k : ℕ) (s : Walk)
    → visit (some k) (walked s) ≡ walked (visit_port (record { other_kernel = some k }) s)
unfolding visit visit_port
visit-walked k s = ground (arith, map-append-some s.queue k)

-- One port, where the rest of the ports is known.
visit_edges_cons :
    (ce : Bool) (k : ℕ) (o : Option ℕ) (ps : List PortInfo) (s : Walk)
    → o ≢ none
    → ((t : Walk)
        → visit_edges ce k ps (walked t) ≡ (true, map (λ p. (k, p)) ps, walked (visit_ports ps t)))
    → visit_edges ce k (record { other_kernel = o } ∷ ps) (walked s) ≡ (
      true,
      map (λ p. (k, p)) (record { other_kernel = o } ∷ ps),
      walked (visit_ports (record { other_kernel = o } ∷ ps) s),
    )
unfolding visit_edges visit_ports
visit_edges_cons ce k none ps s h g = absurd (h refl)
visit_edges_cons ce k (some m) ps s h g =
    let p : PortInfo = record { other_kernel = some m } in
    ap (λ w. let r = visit_edges ce k ps w in (r.0, (k, p) ∷ r.1, r.2)) (visit-walked m s)
    ∙ ap (λ r. (r.0, (k, p) ∷ r.1, r.2)) (g (visit_port p s))

visit_edges-visit_ports :
    (ce : Bool) (k : ℕ) (ps : List PortInfo) (s : Walk)
    → AreConnected ps
    → visit_edges ce k ps (walked s) ≡ (true, map (λ p. (k, p)) ps, walked (visit_ports ps s))
unfolding visit_edges visit_ports
visit_edges-visit_ports ce k [] s h = refl
visit_edges-visit_ports ce k (p ∷ ps) s h =
    visit_edges_cons ce k p.other_kernel ps s h.0 (λ t. visit_edges-visit_ports ce k ps t h.1)

abbrev edges_called : (ℕ → List PortInfo) → Option (List ℕ) → Option (Bool × List Edge)
edges_called outputs none = none
edges_called outputs (some ks) = some (true, edges_of outputs ks)

edges_called-called :
    (outputs : ℕ → List PortInfo) (k : ℕ) (s : EdgeWalk) (o : Option (List ℕ))
    → after_calls (true, map (λ p. (k, p)) (outputs k), s) (edges_called outputs o)
      ≡ edges_called outputs (called k o)
unfolding called
edges_called-called outputs k s none = refl
edges_called-called outputs k s (some ks) = refl

-- One kernel of the queue, where the rest of the walk is known.
edge_loop_round :
    (fuel : ℕ) (ce : Bool) (outputs : ℕ → List PortInfo) (queue v : List ℕ)
    → ((k : ℕ) → AreConnected (outputs k))
    → ((s : Walk)
        → edge_loop fuel ce outputs (walked s) ≡ edges_called outputs (bfs_loop fuel outputs s))
    → edge_loop (suc fuel) ce outputs (walked (record { queue = queue; visited_set = v }))
      ≡ edges_called outputs
          (bfs_loop (suc fuel) outputs (record { queue = queue; visited_set = v }))
unfolding edge_loop bfs_loop
edge_loop_round fuel ce outputs [] v h g = refl
edge_loop_round fuel ce outputs (k ∷ queue) v h g =
    let s : Walk = record { queue = queue; visited_set = v } in
    ap (λ r. after_calls r (edge_loop fuel ce outputs r.2))
      (visit_edges-visit_ports ce k (outputs k) s (h k))
    ∙ ap (after_calls (true, map (λ p. (k, p)) (outputs k), walked (visit_ports (outputs k) s)))
        (g (visit_ports (outputs k) s))
    ∙ edges_called-called outputs k (walked (visit_ports (outputs k) s))
        (bfs_loop fuel outputs (visit_ports (outputs k) s))

edge_loop-bfs_loop :
    (fuel : ℕ) (ce : Bool) (outputs : ℕ → List PortInfo) (s : Walk)
    → ((k : ℕ) → AreConnected (outputs k))
    → edge_loop fuel ce outputs (walked s) ≡ edges_called outputs (bfs_loop fuel outputs s)
unfolding edge_loop bfs_loop
edge_loop-bfs_loop zero ce outputs s h = refl
edge_loop-bfs_loop (suc fuel) ce outputs s h =
    edge_loop_round fuel ce outputs s.queue s.visited_set h
      (λ t. edge_loop-bfs_loop fuel ce outputs t h)

-- Where every port is connected, the walk over edges calls its function for all output ports of the
-- kernels that the walk over kernels meets, kernel after kernel in that walk's order, and for no other
-- edge.
pub edge_bfs-bfs :
    (fuel : ℕ) (connected_error : Bool) (outputs : ℕ → List PortInfo) (sources kernels : List ℕ)
    → ((k : ℕ) → AreConnected (outputs k))
    → bfs fuel outputs sources ≡ some kernels
    → edge_bfs fuel connected_error outputs sources ≡ some (true, edges_of outputs kernels)
unfolding edge_bfs bfs
edge_bfs-bfs fuel ce outputs sources kernels h g =
    edge_loop-bfs_loop fuel ce outputs (record { queue = sources; visited_set = sources }) h
    ∙ ap (edges_called outputs) g

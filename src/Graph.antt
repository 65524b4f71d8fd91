-- ===== src/Graph.antt =====
-- The topology as src/graphtools.cpp walks it. A kernel is a number, and `outputs` gives the records
-- of its output ports in the order of the port map.
pub mod Bound
pub mod Search
pub mod Reach
pub mod Edges
mod Tests
use raft_lib.Prelude.{
  ℕ, zero, suc, Bool, List, [], ◌∷◌, ◌++◌, Option, none, some, contains, if◌then◌else◌,
}

-- The part of raftinc/port_info.hpp that the walks read: the kernel at the port's other end, `none`
-- being the null pointer.
pub record PortInfo : Type 0 where
  pub other_kernel : Option ℕ

-- The queue and the set of the kernels that were ever put there.
pub record Walk : Type 0 where
  pub queue : List ℕ
  pub visited_set : List ℕ

-- The body of the loop over the ports in the walk over kernels.
unfoldable pub visit_port : PortInfo → Walk → Walk
visit_port p s = elim p.other_kernel [
  | none ↦ s
  | some k ↦
      if contains s.visited_set k
      then s
      else record { queue = s.queue ++ k ∷ []; visited_set = k ∷ s.visited_set }
]

unfoldable pub visit_ports : List PortInfo → Walk → Walk
unfolding visit_port
visit_ports [] s = s
visit_ports (p ∷ ps) s = visit_ports ps (visit_port p s)

unfoldable pub called : ℕ → Option (List ℕ) → Option (List ℕ)
called k none = none
called k (some calls) = some (k ∷ calls)

-- `__BFS` with a function of kernels: the calls of the function, in order; `none` when the fuel is out.
unfoldable pub bfs_loop : ℕ → (ℕ → List PortInfo) → Walk → Option (List ℕ)
unfolding visit_ports called
bfs_loop zero outputs s = none
bfs_loop (suc fuel) outputs s = elim s.queue [
  | [] ↦ some []
  | k ∷ queue ↦
      called k (bfs_loop fuel outputs (visit_ports (outputs k) (record s { queue = queue })))
]

-- `BFS( source_kernels, func, data )`
unfoldable pub bfs : ℕ → (ℕ → List PortInfo) → List ℕ → Option (List ℕ)
bfs fuel outputs sources = bfs_loop fuel outputs (record { queue = sources; visited_set = sources })

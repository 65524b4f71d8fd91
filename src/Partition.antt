-- ===== src/Partition.antt =====
-- How the partitioners give each kernel a core: src/partition_basic.cpp and src/partition_scotch.cpp.
-- Kernels and cores are numbers. The Scotch library is the parameter `scotch`: the core of each vertex
-- that SCOTCH_graphMap stores, or `none` where one of the library's calls fails and the program exits.
pub mod Arcs
pub mod Even
pub mod Adjacent
pub mod Rows
pub mod Vertices
pub mod Encoded
pub mod Placed
pub mod Walked
mod Tests
use raft_lib.Prelude.{
  ℕ, zero, suc, ◌+◌, ◌%◌, Bool, true, false, List, [], ◌∷◌, Option, none, some, ◌==◌, leb,
  if◌then◌else◌, length, update,
}
use raft_lib.Graph.{PortInfo}
use raft_lib.Graph.Edges.{Edge, edge_bfs}
use raft_lib.Partition.Arcs.{RaftGraph, no_arcs, add_edge, Tables, get_scotch_tables, ◌>>=◌}

-- `core_assign` of every kernel.
abbrev pub Cores : Type 0
Cores = ℕ → ℕ

-- `setCore`
unfoldable pub set_core : ℕ → ℕ → Cores → Cores
set_core k core cores = update cores k core

-- The loop of partition_basic from core `i` on.
unfoldable pub deal : ℕ → ℕ → List ℕ → Cores → Cores
unfolding set_core
deal num_cores i [] cores = cores
deal num_cores i (k ∷ ks) cores = deal num_cores ((i + 1) % num_cores) ks (set_core k i cores)

-- partition_basic; `none` is the remainder by zero, where the number of cores is not known.
unfoldable pub basic : ℕ → List ℕ → Cores → Option Cores
unfolding deal
basic num_cores [] cores = some cores
basic num_cores (k ∷ ks) cores =
    if num_cores == 0 then none else some (deal num_cores 0 (k ∷ ks) cores)

unfoldable pub number_cores : ℕ → List ℕ → Cores → Cores
unfolding set_core
number_cores i [] cores = cores
number_cores i (k ∷ ks) cores = number_cores (i + 1) ks (set_core k i cores)

-- `simple_check`
unfoldable pub simple_check : List ℕ → ℕ → Cores → Bool × Cores
unfolding number_cores
simple_check c cores assigned =
    if leb (length c) cores then (true, number_cores 0 c assigned) else (false, assigned)

-- `numbering`: the index of a kernel in the container; a kernel that is not there gets 0, which the
-- map's operator [] inserts.
unfoldable pub numbering : ℕ → List ℕ → ℕ → ℕ
numbering index [] k = 0
numbering index (x ∷ c) k = let rest = numbering (index + 1) c k in if k == x then index else rest

-- `graph_function` over the calls of the walk; every edge has weight 1.
unfoldable pub add_calls : (ℕ → ℕ) → List Edge → RaftGraph → RaftGraph
unfolding add_edge
add_calls num_map [] g = g
add_calls num_map ((a, p) ∷ calls) g = elim p.other_kernel [
  | none ↦ add_calls num_map calls g
  | some b ↦ add_calls num_map calls (add_edge (num_map a) (num_map b) 1 g)
]

-- `get_graph_info`; `none` when the fuel of the walk is out.
unfoldable pub get_graph_info : ℕ → (ℕ → List PortInfo) → List ℕ → Option RaftGraph
unfolding add_calls numbering edge_bfs
get_graph_info fuel outputs c = elim (edge_bfs fuel false outputs c) [
  | none ↦ none
  | some (_, calls) ↦ some (add_calls (numbering 0 c) calls no_arcs)
]

-- The loop that copies the partition to the kernels; `none` is a step behind the last kernel.
unfoldable pub copy_mapping : List ℕ → List ℕ → Cores → Option Cores
unfolding set_core
copy_mapping [] c cores = some cores
copy_mapping (p ∷ partition) [] cores = none
copy_mapping (p ∷ partition) (k ∷ c) cores = copy_mapping partition c (set_core k p cores)

-- `run_scotch`
unfoldable pub run_scotch :
    (Tables → ℕ → Option (List ℕ)) → ℕ → (ℕ → List PortInfo) → List ℕ → ℕ → Cores → Option Cores
unfolding get_graph_info get_scotch_tables copy_mapping
run_scotch scotch fuel outputs c cores assigned = do
  raft_graph ← get_graph_info fuel outputs c
  table ← get_scotch_tables raft_graph
  partition ← scotch table cores
  copy_mapping partition c assigned

-- `partition_scotch::partition`
unfoldable pub partition :
    (Tables → ℕ → Option (List ℕ)) → ℕ → (ℕ → List PortInfo) → List ℕ → ℕ → Cores → Option Cores
unfolding simple_check run_scotch
partition scotch fuel outputs c cores assigned =
    let (done, assigned1) = simple_check c cores assigned in
    if done then some assigned1 else run_scotch scotch fuel outputs c cores assigned1

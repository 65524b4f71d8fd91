-- ===== src/Partition/Tests.antt =====
-- A chain of three kernels on two and on four cores.
use raft_lib.Partition.{Cores, basic, partition, copy_mapping, numbering, get_graph_info, add_edge}
use raft_lib.Partition.Arcs.{RaftGraph, Tables, no_arcs, get_scotch_tables}
use raft_lib.Partition.Adjacent.{Edge, add_edges, arcs_of, arcs_to, listed, add_edges-symmetric}
use raft_lib.Partition.Rows.{read_back}
use raft_lib.Partition.Encoded.{add_edges-read_back}
use raft_lib.Partition.Vertices.{is_end}
use raft_lib.Partition.Even.{load, basic-load}
use raft_lib.Partition.Placed.{partition-cores}
use raft_lib.Partition.Walked.{numbered, get_graph_info-add_edges}
use raft_lib.Graph.{PortInfo, bfs, bfs_loop}
use raft_lib.Graph.Edges.{edges_of, AreConnected}
use raft_lib.Prelude.{
  ℕ, zero, suc, ◌≡◌, ◌≤◌, ◌<◌, ◌+◌, List, [], ◌∷◌, Option, some, none, refl, map, contains, arith,
  get_elem?, update,
}

abbrev links : List Edge
links = (0, 1, 1) ∷ (1, 2, 1) ∷ []

abbrev nowhere : Cores
nowhere k = 9

-- Kernel 0 sends to 1 and 1 to 2, and every other one to 2.
abbrev outputs : ℕ → List PortInfo
outputs zero = record { other_kernel = some 1 } ∷ []
outputs (suc zero) = record { other_kernel = some 2 } ∷ []
outputs (suc (suc k)) = []

outputs-AreConnected : (k : ℕ) → AreConnected (outputs k)
outputs-AreConnected zero = ((λ e. ground (arith, e)), tt)
outputs-AreConnected (suc zero) = ((λ e. ground (arith, e)), tt)
outputs-AreConnected (suc (suc k)) = tt

abbrev chain_tables : Tables
chain_tables = record {
  vtable = 0 ∷ 1 ∷ 3 ∷ 4 ∷ [];
  etable = 1 ∷ 0 ∷ 2 ∷ 1 ∷ [];
  eweight = 1 ∷ 1 ∷ 1 ∷ 1 ∷ [];
  num_vertices = 3;
  num_edges = 4;
}

vtable_test : get_scotch_tables (add_edges links no_arcs) ≡ some chain_tables
unfolding get_scotch_tables raft_lib.Partition.Arcs.add_edge raft_lib.Prelude.update
vtable_test = refl

add_edges-symmetric_example :
    arcs_to 1 1 (listed ((add_edges links no_arcs).edgelist 0))
    ≡ arcs_to 0 1 (listed ((add_edges links no_arcs).edgelist 1))
add_edges-symmetric_example = add_edges-symmetric links 0 1 1

add_edges-read_back_example :
    (first : ℕ) × (vs : List ℕ) × (t : Tables) × (get_scotch_tables (add_edges links no_arcs)
      ≡ some t)
    × (read_back first t.vtable t.etable t.eweight ≡ map (λ v. arcs_of v links) (first ∷ vs))
    × ((v : ℕ) → contains (first ∷ vs) v ≡ is_end v links)
add_edges-read_back_example = add_edges-read_back (0, 1, 1) ((1, 2, 1) ∷ [])

basic-load_example :
    (dealt : Cores) × (basic 2 (4 ∷ 5 ∷ 6 ∷ []) nowhere ≡ some dealt)
    × (load 0 (4 ∷ 5 ∷ 6 ∷ []) dealt ≤ load 1 (4 ∷ 5 ∷ 6 ∷ []) dealt + 1)
unfolding contains
basic-load_example =
    basic-load 2 (4 ∷ 5 ∷ 6 ∷ []) nowhere 0 1 (omega arith) (omega arith) (refl, (refl, (refl, tt)))

get_graph_info-add_edges_example :
    get_graph_info 9 outputs (0 ∷ 1 ∷ 2 ∷ [])
    ≡ some (
        add_edges
          (numbered (numbering 0 (0 ∷ 1 ∷ 2 ∷ [])) (edges_of outputs (0 ∷ 1 ∷ 2 ∷ [])))
          no_arcs)
unfolding bfs bfs_loop contains
get_graph_info-add_edges_example =
    get_graph_info-add_edges 9 outputs (0 ∷ 1 ∷ 2 ∷ []) (0 ∷ 1 ∷ 2 ∷ []) outputs-AreConnected refl

-- What the Scotch library may say to the chain on two cores.
abbrev in_two : Tables → ℕ → Option (List ℕ)
in_two t cores = some (1 ∷ 0 ∷ 0 ∷ [])

abbrev chain : RaftGraph
chain = add_edges links no_arcs

partition-cores_example :
    (p : Cores) × (partition in_two 9 outputs (0 ∷ 1 ∷ 2 ∷ []) 2 nowhere ≡ some p) × (p 1 < 2)
unfolding contains bfs_loop get_scotch_tables raft_lib.Partition.Arcs.add_edge
    raft_lib.Prelude.update bfs numbering
partition-cores_example =
    partition-cores in_two 9 outputs (0 ∷ 1 ∷ 2 ∷ []) 2 nowhere 1 chain chain_tables
      (1 ∷ 0 ∷ 0 ∷ []) (refl, (refl, (refl, tt))) refl
      (get_graph_info-add_edges 9 outputs (0 ∷ 1 ∷ 2 ∷ []) (0 ∷ 1 ∷ 2 ∷ []) outputs-AreConnected
        refl)
      refl refl refl refl (omega arith, (omega arith, (omega arith, tt)))

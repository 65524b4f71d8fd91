-- ===== src/Partition/Walked.antt =====
-- The graph that src/partition_scotch.cpp builds from the links of a program.
use raft_lib.Partition.{add_calls, get_graph_info, numbering}
use raft_lib.Partition.Arcs.{RaftGraph, no_arcs, add_edge}
use raft_lib.Partition.Adjacent.{add_edges}
use raft_lib.Graph.{PortInfo, bfs}
use raft_lib.Graph.Edges.{Edge, AreConnected, edges_of, edge_bfs-bfs}
use raft_lib.Prelude.{ℕ, ◌≡◌, false, List, [], ◌∷◌, Option, some, none, refl, ap, ◌∙◌}

-- The links with the numbers of their kernels and their weight.
abbrev pub numbered : (ℕ → ℕ) → List Edge → List (ℕ × ℕ × ℕ)
numbered num_map [] = []
numbered num_map ((a, p) ∷ calls) =
    let rest = numbered num_map calls in
    elim p.other_kernel [ none ↦ rest | some b ↦ (num_map a, num_map b, 1) ∷ rest ]

-- One link, where the other links are known.
add_calls_link :
    (num_map : ℕ → ℕ) (a : ℕ) (o : Option ℕ) (calls : List Edge) (g : RaftGraph)
    → ((h : RaftGraph) → add_calls num_map calls h ≡ add_edges (numbered num_map calls) h)
    → add_calls num_map ((a, record { other_kernel = o }) ∷ calls) g
      ≡ add_edges (numbered num_map ((a, record { other_kernel = o }) ∷ calls)) g
unfolding add_calls
add_calls_link num_map a none calls g same = same g
add_calls_link num_map a (some b) calls g same = same (add_edge (num_map a) (num_map b) 1 g)

add_calls-numbered :
    (num_map : ℕ → ℕ) (calls : List Edge) (g : RaftGraph)
    → add_calls num_map calls g ≡ add_edges (numbered num_map calls) g
unfolding add_calls
add_calls-numbered num_map [] g = refl
add_calls-numbered num_map ((a, p) ∷ calls) g =
    add_calls_link num_map a p.other_kernel calls g (add_calls-numbered num_map calls)

-- Where every port is connected and the walk over kernels ends, get_graph_info returns the graph with one
-- edge of weight 1 for each output port of a kernel that the walk meets, between the numbers that the
-- two kernels have in the container.
pub get_graph_info-add_edges :
    (fuel : ℕ) (outputs : ℕ → List PortInfo) (c kernels : List ℕ)
    → ((k : ℕ) → AreConnected (outputs k))
    → bfs fuel outputs c ≡ some kernels
    → get_graph_info fuel outputs c
      ≡ some (add_edges (numbered (numbering 0 c) (edges_of outputs kernels)) no_arcs)
unfolding get_graph_info
get_graph_info-add_edges fuel outputs c kernels h e =
    ap (λ o. elim o [ none ↦ none | some r ↦ some (add_calls (numbering 0 c) r.1 no_arcs) ])
      (edge_bfs-bfs fuel false outputs c kernels h e)
    ∙ ap some (add_calls-numbered (numbering 0 c) (edges_of outputs kernels) no_arcs)

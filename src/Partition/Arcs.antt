-- ===== src/Partition/Arcs.antt =====
-- raftinc/graph.tcc: the graph of numbered kernels with an arc in both directions for each edge, and the
-- tables that the Scotch library reads. Numbers, weights and the count of arcs are below 2^31, where
-- int32_t holds them.
use raft_lib.Prelude.{
  ℕ, ◌+◌, ◌-◌, List, [], ◌∷◌, ◌++◌, Option, none, some, ◌==◌, ltb, if◌then◌else◌, length, update,
  map,
}

infixl 5 ◌>>=◌
-- A chain of partial steps.
abbrev pub ◌>>=◌ {ℓ κ} : {A : Type ℓ} {B : Type κ} → Option A → (A → Option B) → Option B
none >>= f = none
some a >>= f = f a

-- `wt`
pub record Wt : Type 0 where
  pub dst : ℕ
  pub weight : ℕ

-- The adjacency list, `none` where the map has no entry, and the ordered set of vertices.
pub record RaftGraph : Type 0 where
  pub edgelist : ℕ → Option (List Wt)
  pub vertex_hash : List ℕ

abbrev pub no_arcs : RaftGraph
no_arcs = record { edgelist = λ _. none; vertex_hash = [] }

-- `insert` of an ordered set.
unfoldable pub insert_vertex : ℕ → List ℕ → List ℕ
insert_vertex v [] = v ∷ []
insert_vertex v (x ∷ xs) =
    let rest = insert_vertex v xs in
    if v == x then x ∷ xs else if ltb v x then v ∷ x ∷ xs else x ∷ rest

-- `__addEdge`
unfoldable pub add_arc : ℕ → ℕ → ℕ → RaftGraph → RaftGraph
unfolding insert_vertex
add_arc src dst weight g = elim (g.edgelist src) [
  | none ↦ record {
    edgelist = update g.edgelist src (some (record { dst = dst; weight = weight } ∷ []));
    vertex_hash = insert_vertex dst (insert_vertex src g.vertex_hash);
  }
  | some v ↦ record {
    edgelist = update g.edgelist src (some (v ++ record { dst = dst; weight = weight } ∷ []));
    vertex_hash = insert_vertex dst g.vertex_hash;
  }
]

-- `addEdge`
unfoldable pub add_edge : ℕ → ℕ → ℕ → RaftGraph → RaftGraph
unfolding add_arc
add_edge src dst weight g = add_arc dst src weight (add_arc src dst weight g)

-- `ScotchTables`
pub record Tables : Type 0 where
  pub vtable : List ℕ
  pub etable : List ℕ
  pub eweight : List ℕ
  pub num_vertices : ℕ
  pub num_edges : ℕ

-- The loop over the vertices from `edge_index` on, with the entry behind the last one; `none` is a vertex
-- without an entry in the adjacency list.
unfoldable pub rows : ℕ → (ℕ → Option (List Wt)) → List ℕ → ℕ → Option (List ℕ × List ℕ × List ℕ)
rows first edgelist [] edge_index = some (edge_index ∷ [], [], [])
rows first edgelist (v ∷ vs) edge_index = do
  dstlist ← edgelist v
  rest ← rows first edgelist vs (edge_index + length dstlist)
  some (
    edge_index ∷ rest.0,
    map (λ e. e.dst - first) dstlist ++ rest.1,
    map (λ e. e.weight) dstlist ++ rest.2,
  )

-- `getScotchTables`; `none` is also the first element of an empty set.
unfoldable pub get_scotch_tables : RaftGraph → Option Tables
unfolding rows
get_scotch_tables g = elim g.vertex_hash [
  | [] ↦ none
  | first ∷ _ ↦ do
    r ← rows first g.edgelist g.vertex_hash 0
    some (record {
      vtable = r.0;
      etable = r.1;
      eweight = r.2;
      num_vertices = length g.vertex_hash;
      num_edges = length r.1;
    })
]

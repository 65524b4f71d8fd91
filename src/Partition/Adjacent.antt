-- ===== src/Partition/Adjacent.antt =====
-- The adjacency that raftinc/graph.tcc builds from edges.
use raft_lib.Partition.Arcs.{RaftGraph, Wt, no_arcs, add_edge, add_arc}
use raft_lib.Prelude.{
  ℕ, suc, ◌+◌, ◌≡◌, Bool, List, [], ◌∷◌, ◌++◌, Option, none, some, ◌==◌, if◌then◌else◌, update,
  arith, refl, sym, append-nil, ◌∙◌, ap, append_assoc, Bool-cases, ap₂, inl, ==_iff, inr, ◌&&◌,
}

abbrev pub Edge : Type 0
Edge = ℕ × ℕ × ℕ

-- `addEdge` of each edge in turn.
abbrev pub add_edges : List Edge → RaftGraph → RaftGraph
add_edges [] g = g
add_edges ((a, b, w) ∷ es) g = add_edges es (add_edge a b w g)

abbrev pub arc_if : Bool → ℕ → ℕ → List Wt
arc_if b dst weight = if b then record { dst = dst; weight = weight } ∷ [] else []

-- The arcs of a vertex: each edge seen from both of its ends.
abbrev pub arcs_of : ℕ → List Edge → List Wt
arcs_of v [] = []
arcs_of v ((a, b, w) ∷ es) = (arc_if (v == a) b w ++ arc_if (v == b) a w) ++ arcs_of v es

-- What the map holds for a vertex.
abbrev pub listed : Option (List Wt) → List Wt
listed o = elim o [ none ↦ [] | some l ↦ l ]

pub add_arc-edgelist :
    (src dst weight v : ℕ) (g : RaftGraph)
    → (add_arc src dst weight g).edgelist v ≡ (
        if v == src
        then some (listed (g.edgelist src) ++ record { dst = dst; weight = weight } ∷ [])
        else g.edgelist v)
unfolding add_arc update
add_arc-edgelist src dst weight v g = ground arith

add_arc-listed :
    (src dst weight v : ℕ) (g : RaftGraph)
    → listed ((add_arc src dst weight g).edgelist v)
      ≡ listed (g.edgelist v) ++ arc_if (v == src) dst weight
add_arc-listed src dst weight v g =
    ap listed (add_arc-edgelist src dst weight v g) ∙ elim (Bool-cases (v == src)) [
      | inl t ↦
          let same : v ≡ src = (==_iff v src).0 t in
          let x : Wt = record { dst = dst; weight = weight } in
          ap (λ b. listed (if b then some (listed (g.edgelist src) ++ x ∷ []) else g.edgelist v)) t
          ∙ ap (λ u. listed (g.edgelist u) ++ x ∷ []) (sym same)
          ∙ ap (λ b. listed (g.edgelist v) ++ arc_if b dst weight) (sym t)
      | inr f ↦
          let x : Wt = record { dst = dst; weight = weight } in
          ap (λ b. listed (if b then some (listed (g.edgelist src) ++ x ∷ []) else g.edgelist v)) f
          ∙ sym (append-nil (listed (g.edgelist v)))
          ∙ ap (λ b. listed (g.edgelist v) ++ arc_if b dst weight) (sym f)
    ]

pub add_edges-listed :
    (es : List Edge) (v : ℕ) (g : RaftGraph)
    → listed ((add_edges es g).edgelist v) ≡ listed (g.edgelist v) ++ arcs_of v es
unfolding add_edge
add_edges-listed [] v g = sym (append-nil (listed (g.edgelist v)))
add_edges-listed ((a, b, w) ∷ es) v g =
    add_edges-listed es v (add_edge a b w g)
    ∙ ap (λ l. l ++ arcs_of v es)
        (add_arc-listed b a w v (add_arc a b w g)
          ∙ ap (λ l. l ++ arc_if (v == b) a w) (add_arc-listed a b w v g)
          ∙ append_assoc (listed (g.edgelist v)) (arc_if (v == a) b w) (arc_if (v == b) a w))
    ∙ append_assoc (listed (g.edgelist v)) (arc_if (v == a) b w ++ arc_if (v == b) a w)
        (arcs_of v es)

-- How many arcs lead to `b` with the weight `w`.
abbrev pub arcs_to : ℕ → ℕ → List Wt → ℕ
arcs_to b w [] = 0
arcs_to b w (x ∷ l) = if (x.dst == b) && (x.weight == w) then suc (arcs_to b w l) else arcs_to b w l

arcs_to-append : (b w : ℕ) (l m : List Wt) → arcs_to b w (l ++ m) ≡ arcs_to b w l + arcs_to b w m
arcs_to-append b w [] m = omega arith
arcs_to-append b w (x ∷ l) m = ground (arith, arcs_to-append b w l m)

arcs_of-symmetric :
    (v u k : ℕ) (es : List Edge) → arcs_to u k (arcs_of v es) ≡ arcs_to v k (arcs_of u es)
arcs_of-symmetric v u k [] = refl
arcs_of-symmetric v u k ((a, b, w) ∷ es) =
    let first : arcs_to u k (arc_if (v == a) b w ++ arc_if (v == b) a w)
        ≡ arcs_to v k (arc_if (u == a) b w ++ arc_if (u == b) a w) =
      ground arith in
    arcs_to-append u k (arc_if (v == a) b w ++ arc_if (v == b) a w) (arcs_of v es)
    ∙ ap₂ ◌+◌ first (arcs_of-symmetric v u k es)
    ∙ sym (arcs_to-append v k (arc_if (u == a) b w ++ arc_if (u == b) a w) (arcs_of u es))

-- In the graph of any list of edges there are, for every two vertices and every weight, as many arcs of
-- that weight from the one to the other as back, as the Scotch library asks for.
pub add_edges-symmetric :
    (es : List Edge) (v u w : ℕ)
    → arcs_to u w (listed ((add_edges es no_arcs).edgelist v))
      ≡ arcs_to v w (listed ((add_edges es no_arcs).edgelist u))
add_edges-symmetric es v u w =
    ap (arcs_to u w) (add_edges-listed es v no_arcs)
    ∙ arcs_of-symmetric v u w es
    ∙ sym (ap (arcs_to v w) (add_edges-listed es u no_arcs))

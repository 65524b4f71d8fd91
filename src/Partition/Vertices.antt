-- ===== src/Partition/Vertices.antt =====
-- The vertices of the graph that raftinc/graph.tcc builds from edges.
use raft_lib.Partition.Arcs.{RaftGraph, Wt, no_arcs, add_edge, add_arc, insert_vertex}
use raft_lib.Partition.Adjacent.{Edge, add_edges, add_arc-edgelist}
use raft_lib.Prelude.{
  ℕ, ◌≤◌, ◌≡◌, Bool, true, false, ◌||◌, List, [], ◌∷◌, Option, none, some, ◌==◌, if◌then◌else◌,
  contains, arith, refl, ap, ◌∙◌, Bool-cases, Option-cases, sym, ==_refl, inl, subst, inr, ==_iff,
  ltb, if_both,
}

-- Whether a vertex is an end of one of the edges.
abbrev pub is_end : ℕ → List Edge → Bool
is_end v [] = false
is_end v ((a, b, w) ∷ es) = ((v == a) || (v == b)) || is_end v es

abbrev pub is_some : Option (List Wt) → Bool
is_some o = elim o [ none ↦ false | some _ ↦ true ]

contains-insert_vertex :
    (v x : ℕ) (xs : List ℕ) → contains (insert_vertex x xs) v ≡ (v == x) || contains xs v
unfolding contains insert_vertex
contains-insert_vertex v x [] = ground arith
contains-insert_vertex v x (y ∷ xs) = ground (arith, contains-insert_vertex v x xs)

-- Whether every vertex that is recorded has an entry, and how an arc changes both.
contains-add_arc :
    (a b w v : ℕ) (g : RaftGraph)
    → (is_some (g.edgelist a) ≡ true → contains g.vertex_hash a ≡ true)
    → contains (add_arc a b w g).vertex_hash v ≡ ((v == a) || (v == b)) || contains g.vertex_hash v
unfolding add_arc
contains-add_arc a b w v g h = elim (Option-cases (g.edgelist a)) [
  | inl e ↦ ground (
    arith,
    e,
    contains-insert_vertex v b (insert_vertex a g.vertex_hash),
    contains-insert_vertex v a g.vertex_hash,
  )
  | inr (l, e) ↦
      let here : (v == a) ≡ true → contains g.vertex_hash v ≡ true =
        λ t. ap (contains g.vertex_hash) ((==_iff v a).0 t) ∙ h (ap is_some e) in
      ground (arith, e, contains-insert_vertex v b g.vertex_hash, here)
]

is_some-add_arc :
    (a b w v : ℕ) (g : RaftGraph)
    → is_some ((add_arc a b w g).edgelist v) ≡ (v == a) || is_some (g.edgelist v)
is_some-add_arc a b w v g = ap is_some (add_arc-edgelist a b w v g) ∙ ground arith

-- The first vertex is the least.
abbrev pub IsLeastFirst : List ℕ → Type 0
IsLeastFirst [] = Unit
IsLeastFirst (x ∷ xs) = (y : ℕ) → contains xs y ≡ true → x ≤ y

insert_vertex-IsLeastFirst :
    (x : ℕ) (xs : List ℕ) → IsLeastFirst xs → IsLeastFirst (insert_vertex x xs)
unfolding insert_vertex contains
insert_vertex-IsLeastFirst x [] h = λ y c. ground (arith, c)
insert_vertex-IsLeastFirst x (z ∷ xs) h =
    let rest = insert_vertex x xs in
    elim (Bool-cases (x == z)) [
      | inl e ↦
          subst IsLeastFirst
            (ap (λ b. if b then z ∷ xs else if ltb x z then x ∷ z ∷ xs else z ∷ insert_vertex x xs)
              (sym e))
            h
      | inr e ↦
          subst IsLeastFirst
            (ap (λ b. if b then z ∷ xs else if ltb x z then x ∷ z ∷ xs else z ∷ insert_vertex x xs)
              (sym e))
            (elim (Bool-cases (ltb x z)) [
              | inl f ↦
                  subst IsLeastFirst
                    (ap (λ b. if b then x ∷ z ∷ xs else z ∷ insert_vertex x xs) (sym f))
                    (λ y c. ground (arith, f, c, h y))
              | inr f ↦
                  subst IsLeastFirst
                    (ap (λ b. if b then x ∷ z ∷ xs else z ∷ insert_vertex x xs) (sym f))
                    (λ y c. ground (arith, e, f, c, contains-insert_vertex y x xs, h y))
            ])
    ]

add_arc-vertex_hash :
    (a b w : ℕ) (g : RaftGraph)
    → (add_arc a b w g).vertex_hash ≡ (
        if is_some (g.edgelist a)
        then insert_vertex b g.vertex_hash
        else insert_vertex b (insert_vertex a g.vertex_hash))
unfolding add_arc
add_arc-vertex_hash a b w g = ground arith

add_arc-IsLeastFirst :
    (a b w : ℕ) (g : RaftGraph)
    → IsLeastFirst g.vertex_hash
    → IsLeastFirst (add_arc a b w g).vertex_hash
add_arc-IsLeastFirst a b w g h = subst IsLeastFirst (sym (add_arc-vertex_hash a b w g)) (
    if_both IsLeastFirst (is_some (g.edgelist a)) (insert_vertex b g.vertex_hash)
      (insert_vertex b (insert_vertex a g.vertex_hash))
      (insert_vertex-IsLeastFirst b g.vertex_hash h)
      (insert_vertex-IsLeastFirst b (insert_vertex a g.vertex_hash)
        (insert_vertex-IsLeastFirst a g.vertex_hash h)))

-- Every vertex has an entry and every entry is of a vertex, and the first vertex is the least.
pub record IsValid (g : RaftGraph) : Type 0 where
  pub entries : (v : ℕ) → is_some (g.edgelist v) ≡ contains g.vertex_hash v
  pub least : IsLeastFirst g.vertex_hash

add_edge-contains :
    (a b w v : ℕ) (g : RaftGraph)
    → IsValid g
    → contains (add_edge a b w g).vertex_hash v ≡ ((v == a) || (v == b)) || contains g.vertex_hash v
unfolding add_edge
add_edge-contains a b w v g u =
    let one = contains-add_arc a b w v g (λ t. sym (u.entries a) ∙ t) in
    let two =
      contains-add_arc b a w v (add_arc a b w g) (λ t.
        contains-add_arc a b w b g (λ t. sym (u.entries a) ∙ t) ∙ ground (arith, ==_refl b)) in
    ground (arith, one, two)

add_edge-IsValid : (a b w : ℕ) (g : RaftGraph) → IsValid g → IsValid (add_edge a b w g)
unfolding add_edge
add_edge-IsValid a b w g u = record {
  entries = λ v. ground (
    arith,
    is_some-add_arc a b w v g,
    is_some-add_arc b a w v (add_arc a b w g),
    add_edge-contains a b w v g u,
    u.entries v,
  );
  least = add_arc-IsLeastFirst b a w (add_arc a b w g) (add_arc-IsLeastFirst a b w g u.least);
}

pub add_edges-IsValid : (es : List Edge) (g : RaftGraph) → IsValid g → IsValid (add_edges es g)
add_edges-IsValid [] g u = u
add_edges-IsValid ((a, b, w) ∷ es) g u =
    add_edges-IsValid es (add_edge a b w g) (add_edge-IsValid a b w g u)

pub add_edges-contains :
    (es : List Edge) (v : ℕ) (g : RaftGraph)
    → IsValid g
    → contains (add_edges es g).vertex_hash v ≡ is_end v es || contains g.vertex_hash v
add_edges-contains [] v g u = refl
add_edges-contains ((a, b, w) ∷ es) v g u = ground (
  arith,
  add_edges-contains es v (add_edge a b w g) (add_edge-IsValid a b w g u),
  add_edge-contains a b w v g u,
)

pub no_arcs-IsValid : IsValid no_arcs
unfolding contains
no_arcs-IsValid = record { entries = λ v. refl; least = tt }

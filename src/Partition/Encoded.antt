-- ===== src/Partition/Encoded.antt =====
-- The tables of raftinc/graph.tcc for the edges of a program.
use raft_lib.Partition.Arcs.{Wt, no_arcs, Tables, get_scotch_tables, ◌>>=◌}
use raft_lib.Partition.Adjacent.{Edge, add_edges, arc_if, arcs_of, listed, add_edges-listed}
use raft_lib.Partition.Rows.{AreFrom, AreFilled, rows-read_back, read_back}
use raft_lib.Prelude.{
  ℕ, ◌≤◌, ◌≡◌, ◌⊎◌, Bool, true, false, ◌||◌, List, [], ◌∷◌, ◌++◌, Option, some, ◌==◌, contains,
  arith, refl, length, map, ap, ◌∙◌, Option-cases, sym, ==_refl, inl, subst, inr, ap₂,
}
use raft_lib.Partition.Vertices.{
  is_end, is_some, IsLeastFirst, add_edges-IsValid, add_edges-contains, no_arcs-IsValid,
}

-- The arcs of a vertex lead to ends of edges.
AreFrom-append :
    (first : ℕ) (l m : List Wt) → AreFrom first l → AreFrom first m → AreFrom first (l ++ m)
AreFrom-append first [] m h k = k
AreFrom-append first (x ∷ l) m h k = (h.0, AreFrom-append first l m h.1 k)

arcs_of-AreFrom :
    (first v : ℕ) (es : List Edge)
    → ((y : ℕ) → is_end y es ≡ true → first ≤ y)
    → AreFrom first (arcs_of v es)
arcs_of-AreFrom first v [] h = tt
arcs_of-AreFrom first v ((a, b, w) ∷ es) h =
    AreFrom-append first (arc_if (v == a) b w ++ arc_if (v == b) a w) (arcs_of v es)
      (AreFrom-append first (arc_if (v == a) b w) (arc_if (v == b) a w)
        (arc_if-AreFrom (v == a) b w (h b (ground (arith, ==_refl b))))
        (arc_if-AreFrom (v == b) a w (h a (ground (arith, ==_refl a)))))
      (arcs_of-AreFrom first v es (λ y t. h y (ground (arith, t))))
  where
    arc_if-AreFrom : (c : Bool) (dst weight : ℕ) → first ≤ dst → AreFrom first (arc_if c dst weight)
    arc_if-AreFrom true dst weight l = (l, tt)
    arc_if-AreFrom false dst weight l = tt

edges_AreFilled :
    (first : ℕ) (edgelist : ℕ → Option (List Wt)) (vs : List ℕ) (es : List Edge)
    → ((v : ℕ) → contains vs v ≡ true → is_some (edgelist v) ≡ true)
    → ((v : ℕ) → listed (edgelist v) ≡ arcs_of v es)
    → ((y : ℕ) → is_end y es ≡ true → first ≤ y)
    → AreFilled first edgelist vs
unfolding contains
edges_AreFilled first edgelist [] es h l m = tt
edges_AreFilled first edgelist (v ∷ vs) es h l m = (
  elim (Option-cases (edgelist v)) [
    | inl e ↦ absurd (ground (arith, e, h v (ground (arith, ==_refl v))))
    | inr (x, e) ↦
        (x, e, subst (AreFrom first) (sym (l v) ∙ ap listed e) (arcs_of-AreFrom first v es m))
  ],
  edges_AreFilled first edgelist vs es (λ u t. h u (ground (arith, t))) l m,
)

map_cong : (f h : ℕ → List Wt) (l : List ℕ) → ((v : ℕ) → f v ≡ h v) → map f l ≡ map h l
map_cong f h [] e = refl
map_cong f h (x ∷ l) e = ap₂ ◌∷◌ (e x) (map_cong f h l e)

cases : (l : List ℕ) → (l ≡ []) ⊎ ((x : ℕ) × (xs : List ℕ) × (l ≡ x ∷ xs))
cases [] = inl refl
cases (x ∷ xs) = inr (x, xs, refl)

contains-[] : (v : ℕ) → contains [] v ≡ false
unfolding contains
contains-[] v = refl

nothing_more : (b : Bool) (v : ℕ) → (b || contains [] v) ≡ b
nothing_more b v = ground (arith, contains-[] v)

least_lem :
    (x : ℕ) (xs : List ℕ) (y : ℕ) → IsLeastFirst (x ∷ xs) → contains (x ∷ xs) y ≡ true → x ≤ y
unfolding contains
least_lem x xs y h c = ground (arith, c, h y)

tables-read_back :
    (first : ℕ) (vs : List ℕ) (edgelist : ℕ → Option (List Wt))
    → AreFilled first edgelist (first ∷ vs)
    → (t : Tables) × (get_scotch_tables (record { edgelist = edgelist; vertex_hash = first ∷ vs })
        ≡ some t)
      × (read_back first t.vtable t.etable t.eweight ≡ map (λ v. listed (edgelist v)) (first ∷ vs))
unfolding get_scotch_tables
tables-read_back first vs edgelist h =
    let (vt, et, ew, r, b) = rows-read_back first edgelist (first ∷ vs) 0 [] [] refl refl h in
    (
      record {
        vtable = 0 ∷ vt;
        etable = et;
        eweight = ew;
        num_vertices = length (first ∷ vs);
        num_edges = length et;
      },
      ap
          (λ o. o >>= λ r. some (record {
            vtable = r.0;
            etable = r.1;
            eweight = r.2;
            num_vertices = length (first ∷ vs);
            num_edges = length r.1;
          }))
          r,
      b,
    )

-- For at least one edge, getScotchTables returns; the arcs of every vertex, read back from the tables
-- between its entry and the next, are its edges seen from both of their ends, in the order in which they
-- were added; and the vertices are the ends of the edges.
pub add_edges-read_back :
    (e : Edge) (es : List Edge)
    → (first : ℕ) × (vs : List ℕ) × (t : Tables) × (get_scotch_tables (add_edges (e ∷ es) no_arcs)
        ≡ some t)
      × (read_back first t.vtable t.etable t.eweight ≡ map (λ v. arcs_of v (e ∷ es)) (first ∷ vs))
      × ((v : ℕ) → contains (first ∷ vs) v ≡ is_end v (e ∷ es))
add_edges-read_back e es =
    let g = add_edges (e ∷ es) no_arcs in
    let u = add_edges-IsValid (e ∷ es) no_arcs no_arcs-IsValid in
    let ends : (v : ℕ) → contains g.vertex_hash v ≡ is_end v (e ∷ es) = λ v.
      add_edges-contains (e ∷ es) v no_arcs no_arcs-IsValid ∙ nothing_more (is_end v (e ∷ es)) v in
    elim (cases g.vertex_hash) [
      | inl q ↦
          absurd
            (ground (arith, ends e.0, ==_refl e.0, ap (λ l. contains l e.0) q, contains-[] e.0))
      | inr (first, vs, q) ↦
          let ends' : (v : ℕ) → contains (first ∷ vs) v ≡ is_end v (e ∷ es) =
            λ v. ap (λ l. contains l v) (sym q) ∙ ends v in
          let least = subst IsLeastFirst q u.least in
          let filled =
            edges_AreFilled first g.edgelist (first ∷ vs) (e ∷ es)
              (λ v t. u.entries v ∙ ap (λ l. contains l v) q ∙ t)
              (λ v. add_edges-listed (e ∷ es) v no_arcs)
              (λ y t. least_lem first vs y least (ends' y ∙ t)) in
          let (t, made, back) = tables-read_back first vs g.edgelist filled in
          (
            first,
            vs,
            t,
            ap (λ l. get_scotch_tables (record { edgelist = g.edgelist; vertex_hash = l })) q
                ∙ made,
            back
                ∙ map_cong (λ v. listed (g.edgelist v)) (λ v. arcs_of v (e ∷ es)) (first ∷ vs)
                    (λ v. add_edges-listed (e ∷ es) v no_arcs),
            ends',
          )
    ]

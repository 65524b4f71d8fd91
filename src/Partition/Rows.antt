-- ===== src/Partition/Rows.antt =====
-- The vertices of the graph of raftinc/graph.tcc, and its arcs read back from the tables.
use raft_lib.Partition.Arcs.{Wt, rows, ◌>>=◌}
use raft_lib.Partition.Adjacent.{listed}
use raft_lib.Prelude.{
  ℕ, suc, ◌+◌, ◌-◌, ◌≤◌, ◌≡◌, List, [], ◌∷◌, ◌++◌, Option, some, arith, refl, length, map, take,
  drop, ap₂, ap, length-append, ◌∙◌, sym, append_assoc,
}

-- The arcs that the tables say lie between two entries.
abbrev pub arcs : ℕ → List ℕ → List ℕ → List Wt
arcs first [] ws = []
arcs first (d ∷ ds) [] = []
arcs first (d ∷ ds) (w ∷ ws) = record { dst = d + first; weight = w } ∷ arcs first ds ws

-- The arcs of every vertex: those from its entry to the next one.
abbrev pub read_back : ℕ → List ℕ → List ℕ → List ℕ → List (List Wt)
read_back first [] et ew = []
read_back first (a ∷ vt) et ew =
    let rest = read_back first vt et ew in
    elim vt [
      | [] ↦ []
      | b ∷ _ ↦ arcs first (take (b - a) (drop a et)) (take (b - a) (drop a ew)) ∷ rest
    ]

-- All arcs lead to vertices from `first` on.
abbrev pub AreFrom : ℕ → List Wt → Type 0
AreFrom first [] = Unit
AreFrom first (x ∷ l) = (first ≤ x.dst) × AreFrom first l

-- The vertices have their arcs in the map.
abbrev pub AreFilled : ℕ → (ℕ → Option (List Wt)) → List ℕ → Type 0
AreFilled first edgelist [] = Unit
AreFilled first edgelist (v ∷ vs) =
    ((l : List Wt) × (edgelist v ≡ some l) × AreFrom first l) × AreFilled first edgelist vs

arcs-map :
    (first : ℕ) (l : List Wt)
    → AreFrom first l
    → arcs first (map (λ e. e.dst - first) l) (map (λ e. e.weight) l) ≡ l
arcs-map first [] h = refl
arcs-map first (x ∷ l) h =
    let same : x.dst - first + first ≡ x.dst = omega (arith, h.0) in
    ap₂ (λ d r. record { dst = d; weight = x.weight } ∷ r) same (arcs-map first l h.1)

drop-prefix : (pre l : List ℕ) → drop (length pre) (pre ++ l) ≡ l
drop-prefix [] l = refl
drop-prefix (x ∷ pre) l = drop-prefix pre l

take-prefix : (mid l : List ℕ) → take (length mid) (mid ++ l) ≡ mid
take-prefix [] l = refl
take-prefix (x ∷ mid) l = ap (λ r. x ∷ r) (take-prefix mid l)

slice_lem :
    (pre mid post : List ℕ) (n m : ℕ)
    → n ≡ length pre
    → m ≡ n + length mid
    → take (m - n) (drop n (pre ++ (mid ++ post))) ≡ mid
slice_lem pre mid post n m e f =
    ap₂ (λ k l. take k l) (omega (arith, f))
      (ap (λ k. drop k (pre ++ (mid ++ post))) e ∙ drop-prefix pre (mid ++ post))
    ∙ take-prefix mid post

length-map : (f : Wt → ℕ) (l : List Wt) → length (map f l) ≡ length l
length-map f [] = refl
length-map f (x ∷ l) = ap suc (length-map f l)

pub rows-read_back :
    (first : ℕ) (edgelist : ℕ → Option (List Wt)) (vs : List ℕ) (index : ℕ) (pe pw : List ℕ)
    → index ≡ length pe
    → index ≡ length pw
    → AreFilled first edgelist vs
    → (vt et ew : List ℕ) × (rows first edgelist vs index ≡ some (index ∷ vt, et, ew))
      × (read_back first (index ∷ vt) (pe ++ et) (pw ++ ew) ≡ map (λ v. listed (edgelist v)) vs)
unfolding rows
rows-read_back first edgelist [] index pe pw e f h = ([], [], [], refl, refl)
rows-read_back first edgelist (v ∷ vs) index pe pw e f ((l, s, a), h) =
    let ds = map (λ x. x.dst - first) l in
    let ws = map (λ x. x.weight) l in
    let (vt, et, ew, r, b) =
      rows-read_back first edgelist vs (index + length l) (pe ++ ds) (pw ++ ws)
        (omega (arith, e, length-append pe ds, length-map (λ x. x.dst - first) l))
        (omega (arith, f, length-append pw ws, length-map (λ x. x.weight) l)) h in
    (
      (index + length l) ∷ vt,
      ds ++ et,
      ws ++ ew,
      ap
            (λ o. o >>= λ dl. rows first edgelist vs (index + length dl) >>= λ rest. some (
              index ∷ rest.0,
              map (λ x. x.dst - first) dl ++ rest.1,
              map (λ x. x.weight) dl ++ rest.2,
            ))
            s
          ∙ ap (λ o. o >>= λ rest. some (index ∷ rest.0, ds ++ rest.1, ws ++ rest.2)) r,
      ap₂ ◌∷◌
          (ap₂ (arcs first)
              (slice_lem pe ds et index (index + length l) e
                (omega (arith, length-map (λ x. x.dst - first) l)))
              (slice_lem pw ws ew index (index + length l) f
                (omega (arith, length-map (λ x. x.weight) l)))
            ∙ arcs-map first l a
            ∙ sym (ap listed s))
          (ap₂ (λ x y. read_back first ((index + length l) ∷ vt) x y) (sym (append_assoc pe ds et))
              (sym (append_assoc pw ws ew))
            ∙ b),
    )

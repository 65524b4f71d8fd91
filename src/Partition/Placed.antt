-- ===== src/Partition/Placed.antt =====
-- Which core each kernel gets in src/partition_scotch.cpp.
use raft_lib.Partition.{
  Cores, set_core, number_cores, simple_check, numbering, copy_mapping, partition, run_scotch,
  RaftGraph, get_graph_info, get_scotch_tables,
}
use raft_lib.Partition.Arcs.{◌>>=◌, Tables}
use raft_lib.Partition.Even.{AreDifferent}
use raft_lib.Graph.{PortInfo}
use raft_lib.Prelude.{
  ℕ, suc, ◌+◌, ◌≤◌, ◌<◌, ◌≡◌, Bool, true, false, List, [], ◌∷◌, Option, some, ◌==◌, if◌then◌else◌,
  contains, update, arith, refl, length, get_elem?, Bool-cases, ◌∙◌, update_ne, inl, ==_iff, subst,
  sym, update_self, ap, inr, ◌-◌, le→leb, zero, leb, leb→le,
}

number_cores-kept :
    (i : ℕ) (c : List ℕ) (cores : Cores) (k : ℕ)
    → contains c k ≡ false
    → number_cores i c cores k ≡ cores k
unfolding number_cores contains set_core
number_cores-kept i [] cores k h = refl
number_cores-kept i (x ∷ c) cores k h =
    number_cores-kept (i + 1) c (update cores x i) k (ground (arith, h))
    ∙ update_ne cores x i k (ground (arith, h))

number_cores-numbering :
    (i : ℕ) (c : List ℕ) (cores : Cores) (k : ℕ)
    → AreDifferent c
    → contains c k ≡ true
    → number_cores i c cores k ≡ numbering i c k
unfolding number_cores numbering contains set_core
number_cores-numbering i [] cores k d h = absurd (ground (arith, h))
number_cores-numbering i (x ∷ c) cores k d h = elim (Bool-cases (k == x)) [
  | inl e ↦
      let same : k ≡ x = (==_iff k x).0 e in
      subst (λ y. number_cores (i + 1) c (update cores x i) y ≡ i) (sym same)
        (number_cores-kept (i + 1) c (update cores x i) x d.0 ∙ update_self cores x i)
      ∙ ap (λ b. if b then i else numbering (i + 1) c k) (sym e)
  | inr e ↦
      number_cores-numbering (i + 1) c (update cores x i) k d.1 (ground (arith, e, h))
      ∙ ap (λ b. if b then i else numbering (i + 1) c k) (sym e)
]

numbering-bound :
    (i : ℕ) (c : List ℕ) (k : ℕ)
    → contains c k ≡ true
    → (i ≤ numbering i c k) × (numbering i c k < i + length c)
unfolding numbering contains
numbering-bound i [] k h = absurd (ground (arith, h))
numbering-bound i (x ∷ c) k h = ground (arith, h, numbering-bound (i + 1) c k)

-- With no more kernels than cores, each kernel of the container gets a core of the machine that is its
-- place in the container, whatever the Scotch library would do.
pub partition-numbering :
    (scotch : Tables → ℕ → Option (List ℕ)) (fuel : ℕ) (outputs : ℕ → List PortInfo) (c : List ℕ)
    (cores : ℕ) (assigned : Cores) (k : ℕ)
    → length c ≤ cores
    → AreDifferent c
    → contains c k ≡ true
    → (p : Cores) × (partition scotch fuel outputs c cores assigned ≡ some p)
      × (p k ≡ numbering 0 c k)
      × (p k < cores)
unfolding partition simple_check
partition-numbering scotch fuel outputs c cores assigned k l d h = (
  number_cores 0 c assigned,
  ap
      (λ b.
        let r : Bool × Cores = if b then (true, number_cores 0 c assigned) else (false, assigned) in
        if r.0 then some r.1 else run_scotch scotch fuel outputs c cores r.1)
      (le→leb (length c) cores l),
  number_cores-numbering 0 c assigned k d h,
  omega (arith, l, number_cores-numbering 0 c assigned k d h, numbering-bound 0 c k h),
)

-- The same from the number `i` on, with the kernels that keep their cores.
record IsCopied (part c : List ℕ) (i : ℕ) (cores : Cores) : Type 0 where
  result : Cores
  ends : copy_mapping part c cores ≡ some result
  kept : (k : ℕ) → contains c k ≡ false → result k ≡ cores k
  numbered :
      (k : ℕ)
      → contains c k ≡ true
      → numbering i c k < i + length part
      → get_elem? part (numbering i c k - i) ≡ some (result k)

copy_mapping-IsCopied :
    (part c : List ℕ) (i : ℕ) (cores : Cores)
    → AreDifferent c
    → length part ≤ length c
    → IsCopied part c i cores
unfolding copy_mapping numbering contains set_core
copy_mapping-IsCopied [] c i cores d l = record {
  result = cores;
  ends = refl;
  kept = λ k h. refl;
  numbered = λ k h m. absurd (omega (arith, m, numbering-bound i c k h));
}
copy_mapping-IsCopied (x ∷ part) [] i cores d l = absurd (omega (arith, l))
copy_mapping-IsCopied (x ∷ part) (y ∷ c) i cores d l =
    let r = copy_mapping-IsCopied part c (i + 1) (update cores y x) d.1 (omega (arith, l)) in
    record {
      result = r.result;
      ends = r.ends;
      kept = λ k h. r.kept k (ground (arith, h)) ∙ update_ne cores y x k (ground (arith, h));
      numbered = λ k h m. elim (Bool-cases (k == y)) [
        | inl e ↦
            let same : k ≡ y = (==_iff k y).0 e in
            let place : numbering i (y ∷ c) k - i ≡ 0 = ground (arith, e) in
            ap (get_elem? (x ∷ part)) place
            ∙ sym (ap some (ap r.result same ∙ r.kept y d.0 ∙ update_self cores y x))
        | inr e ↦
            let held : contains c k ≡ true = ground (arith, e, h) in
            let low = numbering-bound (i + 1) c k held in
            let place : numbering i (y ∷ c) k - i ≡ suc (numbering (i + 1) c k - (i + 1)) =
              ground (arith, e, low) in
            ap (get_elem? (x ∷ part)) place ∙ r.numbered k held (ground (arith, e, m))
      ];
    }

-- The loop over the partition of the Scotch library, with no more entries than there are kernels, ends
-- and gives a kernel the entry that has its number.
pub copy_mapping-numbering :
    (part c : List ℕ) (cores : Cores) (k : ℕ)
    → AreDifferent c
    → length part ≤ length c
    → contains c k ≡ true
    → numbering 0 c k < length part
    → (p : Cores) × (copy_mapping part c cores ≡ some p)
      × (get_elem? part (numbering 0 c k) ≡ some (p k))
copy_mapping-numbering part c cores k d l h m =
    let r = copy_mapping-IsCopied part c 0 cores d l in
    (r.result, r.ends, ap (get_elem? part) (omega arith) ∙ r.numbered k h (omega (arith, m)))

-- All entries of a partition are cores of the machine.
abbrev pub AreBelow : ℕ → List ℕ → Type 0
AreBelow cores [] = Unit
AreBelow cores (x ∷ part) = (x < cores) × AreBelow cores part

get_elem?-AreBelow :
    (cores : ℕ) (part : List ℕ) (i x : ℕ)
    → AreBelow cores part
    → get_elem? part i ≡ some x
    → x < cores
get_elem?-AreBelow cores [] i x h e = absurd (ground (arith, e))
get_elem?-AreBelow cores (y ∷ part) zero x h e = ground (arith, e, h.0)
get_elem?-AreBelow cores (y ∷ part) (suc i) x h e = get_elem?-AreBelow cores part i x h.1 e

-- Where the container has no kernel twice, the graph of the program has as many vertices as there are
-- kernels, and the Scotch library returns for its tables one core of the machine for each vertex: the
-- partitioner returns, and every kernel of the container gets a core of the machine, with more kernels
-- than cores and with fewer.
pub partition-cores :
    (scotch : Tables → ℕ → Option (List ℕ)) (fuel : ℕ) (outputs : ℕ → List PortInfo) (c : List ℕ)
    (cores : ℕ) (assigned : Cores) (k : ℕ) (g : RaftGraph) (t : Tables) (part : List ℕ)
    → AreDifferent c
    → contains c k ≡ true
    → get_graph_info fuel outputs c ≡ some g
    → get_scotch_tables g ≡ some t
    → t.num_vertices ≡ length c
    → scotch t cores ≡ some part
    → length part ≡ t.num_vertices
    → AreBelow cores part
    → (p : Cores) × (partition scotch fuel outputs c cores assigned ≡ some p) × (p k < cores)
unfolding partition simple_check run_scotch
partition-cores scotch fuel outputs c cores assigned k g t part d h eg et n es l b =
    elim (Bool-cases (leb (length c) cores)) [
      | inl few ↦
          let (p, e, _, s) =
            partition-numbering scotch fuel outputs c cores assigned k (leb→le (length c) cores few)
              d h in
          (p, e, s)
      | inr many ↦
          let r = copy_mapping-IsCopied part c 0 assigned d (omega (arith, l, n)) in
          let bound = numbering-bound 0 c k h in
          (
            r.result,
            ap
                  (λ b.
                    let r : Bool × Cores =
                      if b then (true, number_cores 0 c assigned) else (false, assigned) in
                    if r.0 then some r.1 else run_scotch scotch fuel outputs c cores r.1)
                  many
                ∙ ap
                    (λ o. o >>= λ raft_graph. get_scotch_tables raft_graph >>= λ table.
                      scotch table cores >>= λ part. copy_mapping part c assigned)
                    eg
                ∙ ap
                    (λ o.
                      o >>= λ table. scotch table cores >>= λ part. copy_mapping part c assigned)
                    et
                ∙ ap (λ o. o >>= λ part. copy_mapping part c assigned) es
                ∙ r.ends,
            get_elem?-AreBelow cores part (numbering 0 c k - 0) (r.result k) b
                (r.numbered k h (omega (arith, l, n, bound))),
          )
    ]

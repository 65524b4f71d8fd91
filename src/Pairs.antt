-- ===== src/Pairs.antt =====
-- src/kpair.cpp: the pairs that the operators `>>`, `<=` and `>=` allocate, with the pointers between
-- them, and the ports that were named by `operator []` of src/kernel.cpp. A `kernel_wrapper` stands for
-- the kernel in it.
pub mod Straight
pub mod Expression
pub mod Lost
mod Tests
use raft_lib.Prelude.{
  ℕ, zero, suc, ◌+◌, ◌<◌, Bool, true, false, List, [], ◌∷◌, ◌++◌, Option, none, some, ◌==◌,
  if◌then◌else◌, length, ltb,
}
use raft_lib.Map.{World, Action, undefined}
use raft_lib.Map.Chain.{KPair}
use raft_lib.Map.Build.{add_chain}

-- A `kpair` in the heap.
pub record Node : Type 0 where
  pub pair : KPair
  pub next : Option ℕ
  pub head : ℕ

-- The heap of pairs, those below `next_node` being allocated, the queue of enabled ports of each
-- kernel, and the number of its outputs.
pub record Store : Type 0 where
  pub nodes : ℕ → Node
  pub next_node : ℕ
  pub enabled_port : ℕ → List ℕ
  pub output_count : ℕ → ℕ

-- `kernel::operator []`: false where it throws.
unfoldable pub enable_port : ℕ → ℕ → Store → Bool × Store
enable_port k name s =
    if ltb (length (s.enabled_port k)) 2
    then (
      true,
      record s {
        enabled_port = λ l. if l == k then s.enabled_port l ++ name ∷ [] else s.enabled_port l;
      },
    )
    else (false, s)

unfoldable pub front : List ℕ → Option ℕ
front [] = none
front (n ∷ names) = some n

unfoldable pub popped : List ℕ → List ℕ
popped [] = []
popped (n ∷ names) = names

-- `kernel::getEnabledPort`
unfoldable pub get_enabled_port : ℕ → (ℕ → List ℕ) → Option ℕ × (ℕ → List ℕ)
unfolding front popped
get_enabled_port k queues = (front (queues k), λ l. if l == k then popped (queues l) else queues l)

-- `kpair( a, b )`: the pair, and the queues that are left.
unfoldable pub pair_of : ℕ → ℕ → (ℕ → ℕ) → (ℕ → List ℕ) → KPair × (ℕ → List ℕ)
unfolding get_enabled_port
pair_of a b counts queues =
    let (n, q) = get_enabled_port a queues in
    let (m, r) = get_enabled_port b q in
    (
      record {
        src = a;
        src_name = n;
        dst = b;
        dst_name = m;
        buffer_size = 0;
        split_to = false;
        src_out_count = counts a;
        join_from = false;
        out_of_order = false;
      },
      r,
    )

unfoldable pub pair_kernels : ℕ → ℕ → Store → ℕ × Store
unfolding pair_of
pair_kernels a b s =
    let (p, q) = pair_of a b s.output_count s.enabled_port in
    (
      s.next_node,
      record s {
        nodes = λ i.
            if i == s.next_node
            then record { pair = p; next = none; head = s.next_node }
            else s.nodes i;
        next_node = s.next_node + 1;
        enabled_port = q;
      },
    )

-- An assignment to the fields of a pair.
unfoldable pub set_node : ℕ → (Node → Node) → Store → Store
set_node i f s = record s { nodes = λ j. if j == i then f (s.nodes j) else s.nodes j }

abbrev flags : Bool → Bool → Node → Node
flags split join n = record n { pair = record n.pair { split_to = split; join_from = join } }

-- `kpair( a, b, split, join )` of two kernels, of a pair and a kernel, of a kernel and a pair, and of
-- two pairs.
unfoldable pub pair_flagged : ℕ → ℕ → Bool → Bool → Store → ℕ × Store
unfolding pair_kernels set_node
pair_flagged a b split join s =
    let (p, t) = pair_kernels a b s in (p, set_node p (flags split join) t)

unfoldable pub pair_after : ℕ → ℕ → Bool → Bool → Store → ℕ × Store
unfolding pair_kernels set_node
pair_after a b split join s =
    let (p, t) = pair_kernels (s.nodes a).pair.dst b s in
    let t1 = set_node p (λ n. record n { head = (t.nodes a).head }) t in
    let t2 = set_node a (λ n. record n { next = some p }) t1 in
    (p, set_node p (flags split join) t2)

unfoldable pub pair_before : ℕ → ℕ → Bool → Bool → Store → ℕ × Store
unfolding pair_kernels set_node
pair_before a n split join s =
    let (p, t) = pair_kernels a (s.nodes n).pair.src s in
    let t1 = set_node p (λ m. record m { head = p; next = some n }) t in
    (p, set_node p (flags split join) t1)

unfoldable pub pair_between : ℕ → ℕ → Bool → Bool → Store → ℕ × Store
unfolding pair_kernels set_node
pair_between a b split join s =
    let (p, t) = pair_kernels (s.nodes a).pair.dst (s.nodes b).pair.src s in
    let h = (t.nodes a).head in
    let t1 = set_node p (λ m. record m { head = h }) t in
    let t2 = set_node a (λ m. record m { next = some p }) t1 in
    let t3 = set_node b (λ m. record m { head = (t2.nodes a).head }) t2 in
    let t4 = set_node p (λ m. record m { next = some b }) t3 in
    (p, set_node p (flags split join) t4)

-- `setOoO`
unfoldable pub set_ooo : ℕ → Store → Store
unfolding set_node
set_ooo p s = set_node p (λ n. record n { pair = record n.pair { out_of_order = true } }) s

-- The operators of src/kpair.cpp.
unfoldable pub rshift_kernels : ℕ → ℕ → Store → ℕ × Store
unfolding pair_kernels
rshift_kernels a b s = pair_kernels a b s

unfoldable pub rshift_pair : ℕ → ℕ → Store → ℕ × Store
unfolding pair_after
rshift_pair p b s = pair_after p b false false s

-- `a >> raft::order::out >> b`
unfoldable pub rshift_kernels_ooo : ℕ → ℕ → Store → ℕ × Store
unfolding pair_flagged set_ooo
rshift_kernels_ooo a b s = let (p, t) = pair_flagged a b false false s in (p, set_ooo p t)

unfoldable pub rshift_pair_ooo : ℕ → ℕ → Store → ℕ × Store
unfolding pair_after set_ooo
rshift_pair_ooo p b s = let (q, t) = pair_after p b false false s in (q, set_ooo q t)

unfoldable pub le_kernels : ℕ → ℕ → Store → ℕ × Store
unfolding pair_flagged
le_kernels a b s = pair_flagged a b true false s

unfoldable pub le_pair : ℕ → ℕ → Store → ℕ × Store
unfolding pair_before
le_pair a n s = pair_before a n true false s

unfoldable pub ge_kernels : ℕ → ℕ → Store → ℕ × Store
unfolding pair_flagged
ge_kernels a b s = pair_flagged a b false true s

unfoldable pub ge_pair : ℕ → ℕ → Store → ℕ × Store
unfolding pair_after
ge_pair p b s = pair_after p b false true s

unfoldable pub ge_pairs : ℕ → ℕ → Store → ℕ × Store
unfolding pair_between
ge_pairs a b s = pair_between a b false true s

unfoldable pub ge_before : ℕ → ℕ → Store → ℕ × Store
unfolding pair_before
ge_before a n s = pair_before a n false true s

-- The pairs that the loop of `operator +=` goes through from a pair on; `none` when the fuel is out.
unfoldable pub chain_from : ℕ → ℕ → Store → Option (List KPair)
chain_from zero i s = none
chain_from (suc fuel) i s = elim (s.nodes i).next [
  | none ↦ some ((s.nodes i).pair ∷ [])
  | some j ↦ elim (chain_from fuel j s) [
    | none ↦ none
    | some pairs ↦ some ((s.nodes i).pair ∷ pairs)
  ]
]

abbrev pub add_pairs : Option (List KPair) → Action (List ℕ × List ℕ)
add_pairs none = λ w. undefined
add_pairs (some []) = λ w. undefined
add_pairs (some (head ∷ chain)) = add_chain head chain

-- `m += p`
unfoldable pub add_pair : ℕ → ℕ → Store → Action (List ℕ × List ℕ)
unfolding chain_from
add_pair fuel p s = add_pairs (chain_from fuel (s.nodes p).head s)

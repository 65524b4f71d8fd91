-- ===== src/Map/Build.antt =====
-- `operator +=` of src/map.cpp: a chain of pairs is added to the map, pair after pair, by the kernels
-- that the pairs before it ended in; and `checkEdges`.
use raft_lib.Prelude.{ℕ, Bool, true, false, List, [], ◌∷◌, ◌++◌, Option, none, some, if◌then◌else◌}
use raft_lib.Topology.{Failure, invalid_topology, all_connected}
use raft_lib.Map.{World, ok, thrown, undefined, Action, ◌>>=◌}
use raft_lib.Map.Chain.{KPair, Groups, inline_cont, inline_split, inline_join, inline_dup_join}

-- `sj_t`
pub data LinkType : Type 0 where
  split join cont : LinkType

unfoldable pub next_link_type : KPair → Option LinkType
next_link_type k =
    if k.split_to
    then (if k.join_from then none else some split)
    else (if k.join_from then some join else some cont)

-- The variables of the loop. The stack holds the splits that are not joined yet.
pub record Loop : Type 0 where
  pub stack : List LinkType
  pub split_out_edges : List ℕ
  pub groups : Groups
  pub head : KPair
  pub at_head : Bool
  pub initialized : Bool
  pub source : List ℕ

unfoldable pub flatten : Groups → List ℕ
flatten [] = []
flatten (g ∷ gs) = g ++ flatten gs

-- The end of a round: the sources are recorded once, and the new groups are the next round's.
unfoldable pub next_round : Groups → Groups → KPair → Loop → Loop
unfolding flatten
next_round groups temp next l = record l {
  source = if l.initialized then l.source else l.source ++ flatten groups;
  initialized = true;
  groups = temp;
  head = if l.at_head then next else l.head;
  at_head = false;
}

unfoldable pub cont_round : KPair → Loop → Action Loop
unfolding inline_cont next_round
cont_round next l = inline_cont l.groups [] next >>= λ r w. ok (next_round l.groups r.0 r.1 l) w

unfoldable pub split_round : KPair → Loop → Action Loop
unfolding inline_split next_round
split_round next l = inline_split l.groups [] next >>= λ r w.
    ok
      (next_round l.groups r.0 r.1 (record l {
        stack = split ∷ l.stack;
        split_out_edges = next.src_out_count ∷ l.split_out_edges;
      }))
      w

-- A join with no split before it: the chain is multiplied.
unfoldable pub dup_join_round : KPair → Loop → Action Loop
unfolding inline_dup_join next_round
dup_join_round next l = inline_dup_join l.at_head l.groups next l.head >>= λ r w.
    ok
      (next_round r.0 r.1 r.2.next (record l { initialized = false; source = []; head = r.2.head }))
      w

-- A join of the last split.
unfoldable pub join_round : List LinkType → KPair → Loop → Action Loop
unfolding inline_join next_round
join_round stack next l = elim l.split_out_edges [
  | [] ↦ λ w. undefined
  | top ∷ edges ↦ inline_join top 0 l.groups [] next >>= λ r w.
      ok (next_round l.groups r.0 r.1 (record l { stack = stack; split_out_edges = edges })) w
]

unfoldable pub any_join_round : List LinkType → KPair → Loop → Action Loop
unfolding dup_join_round join_round
any_join_round [] next l = dup_join_round next l
any_join_round (split ∷ stack) next l = join_round stack next l
any_join_round (join ∷ stack) next l = λ w. undefined
any_join_round (cont ∷ stack) next l = λ w. undefined

-- The body of the loop.
unfoldable pub round_as : Option LinkType → KPair → Loop → Action Loop
unfolding cont_round split_round any_join_round
round_as none next l = λ w. thrown invalid_topology w
round_as (some cont) next l = cont_round next l
round_as (some split) next l = split_round next l
round_as (some join) next l = any_join_round l.stack next l

unfoldable pub rounds : List KPair → Loop → Action Loop
unfolding round_as next_link_type
rounds [] l = λ w. ok l w
rounds (next ∷ chain) l = round_as (next_link_type next) next l >>= rounds chain

-- The loop's variables at the head of the chain.
unfoldable pub begin : KPair → Loop
begin head = record {
  stack = [];
  split_out_edges = [];
  groups = (head.src ∷ []) ∷ [];
  head = head;
  at_head = true;
  initialized = false;
  source = [];
}

-- `operator +=` for the chain of a head and the pairs after it, where the head pointer of each of them
-- leads to that head: the sources and the destinations.
unfoldable pub add_chain : KPair → List KPair → Action (List ℕ × List ℕ)
unfolding rounds begin flatten
add_chain head chain =
    rounds (head ∷ chain) (begin head) >>= λ l w. ok (l.source, flatten l.groups) w

-- `checkEdges` over the kernels of the map.
unfoldable pub check_kernels : List ℕ → World → Option Failure
unfolding all_connected
check_kernels [] w = none
check_kernels (k ∷ kernels) w =
    let rest = check_kernels kernels w in
    elim (all_connected k (w.inputs k) (w.outputs k) w.ports) [ some e ↦ some e | none ↦ rest ]

unfoldable pub check_edges : World → Option Failure
unfolding check_kernels
check_edges w = check_kernels w.all_kernels w

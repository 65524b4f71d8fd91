-- ===== src/Map/Added.antt =====
-- The loop of `operator +=` of src/map.cpp and the invariant of a map.
use raft_lib.Prelude.{ℕ, List, [], ◌∷◌, Option, none, some}
use raft_lib.Map.{World, Action, ◌>>=◌, ok}
use raft_lib.Map.Valid.{IsValid, Leaves, Keeps, Keeps-bind}
use raft_lib.Map.Chain.{KPair}
use raft_lib.Map.Kept.{
  inline_cont-Keeps, inline_split-Keeps, inline_join-Keeps, inline_dup_join-Keeps,
}
use raft_lib.Map.Build.{
  LinkType, split, join, cont, next_link_type, Loop, cont_round, split_round, dup_join_round,
  join_round, any_join_round, round_as, rounds, begin, add_chain,
}

-- A call followed by a computation on what it gave back.
then_ok-Keeps {ℓ κ} :
    {R : Type ℓ} {S : Type κ} (m : Action R) (f : R → S) → Keeps m → Keeps (m >>= λ r w. ok (f r) w)
then_ok-Keeps m f h = Keeps-bind m _ h (λ r w v. v)

cont_round-Keeps : (next : KPair) (l : Loop) → Keeps (cont_round next l)
unfolding cont_round
cont_round-Keeps next l = then_ok-Keeps _ _ (inline_cont-Keeps l.groups [] next)

split_round-Keeps : (next : KPair) (l : Loop) → Keeps (split_round next l)
unfolding split_round
split_round-Keeps next l = then_ok-Keeps _ _ (inline_split-Keeps l.groups [] next)

dup_join_round-Keeps : (next : KPair) (l : Loop) → Keeps (dup_join_round next l)
unfolding dup_join_round
dup_join_round-Keeps next l =
    then_ok-Keeps _ _ (inline_dup_join-Keeps l.at_head l.groups next l.head)

join_edges-Keeps :
    (edges : List ℕ) (stack : List LinkType) (next : KPair) (l : Loop)
    → Keeps (join_round stack next (record l { split_out_edges = edges }))
unfolding join_round
join_edges-Keeps [] stack next l = λ w v. tt
join_edges-Keeps (top ∷ edges) stack next l =
    then_ok-Keeps _ _ (inline_join-Keeps top 0 l.groups [] next)

any_join_round-Keeps :
    (stack : List LinkType) (next : KPair) (l : Loop) → Keeps (any_join_round stack next l)
unfolding any_join_round
any_join_round-Keeps [] next l = dup_join_round-Keeps next l
any_join_round-Keeps (split ∷ stack) next l = join_edges-Keeps l.split_out_edges stack next l
any_join_round-Keeps (join ∷ stack) next l = λ w v. tt
any_join_round-Keeps (cont ∷ stack) next l = λ w v. tt

round_as-Keeps : (t : Option LinkType) (next : KPair) (l : Loop) → Keeps (round_as t next l)
unfolding round_as
round_as-Keeps none next l = λ w v. v
round_as-Keeps (some cont) next l = cont_round-Keeps next l
round_as-Keeps (some split) next l = split_round-Keeps next l
round_as-Keeps (some join) next l = any_join_round-Keeps l.stack next l

rounds-Keeps : (chain : List KPair) (l : Loop) → Keeps (rounds chain l)
unfolding rounds
rounds-Keeps [] l = λ w v. v
rounds-Keeps (next ∷ chain) l =
    Keeps-bind (round_as (next_link_type next) next l) _
      (round_as-Keeps (next_link_type next) next l) (λ r. rounds-Keeps chain r)

-- Adding a chain of pairs to a valid map leaves a valid map, whether `operator +=` returns or throws:
-- the two ends of every link agree, only ports that a kernel has are joined, and the kernels that do
-- not exist yet have no ports.
pub add_chain-IsValid :
    (head : KPair) (chain : List KPair) (w : World)
    → IsValid w
    → Leaves IsValid (add_chain head chain w)
unfolding add_chain
add_chain-IsValid head chain w v =
    then_ok-Keeps (rounds (head ∷ chain) (begin head)) _ (rounds-Keeps (head ∷ chain) (begin head))
      w v

-- ===== src/Map/Joinless.antt =====
-- Chains without a join by `operator +=` of src/map.cpp.
use raft_lib.Prelude.{
  ℕ, Bool, false, List, [], ◌∷◌, ◌++◌, none, some, Option, ◌≡◌, if_both, ◌≢◌, arith, refl,
}
use raft_lib.Map.{World, Action, ◌>>=◌, clone}
use raft_lib.Map.Returns.{Returns, Always, Always-bind, Any, clone-Always, joink-then-Always}
use raft_lib.Map.Chain.{
  KPair, Groups, cont_kernel, cont_group, inline_cont, first_empty, split_port, split_ports,
  split_kernel, split_names, split_group, inline_split, to_last, to_first,
}
use raft_lib.Map.Build.{
  LinkType, split, join, cont, Loop, next_link_type, cont_round, split_round, round_as, rounds,
  begin, add_chain,
}

then-Always {ℓ κ} :
    {R : Type ℓ} {S : Type κ} (m : Action R) (k : R → Action S)
    → Always Any m
    → ((r : R) → Always Any (k r))
    → Always Any (m >>= k)
then-Always m k h g = Always-bind Any Any m k h (λ r _. g r)

-- There is a group.
abbrev HasGroup : Groups × KPair → Type 0
HasGroup ([], next) = ⊥
HasGroup (g ∷ gs, next) = Unit

to_last-HasGroup :
    (k : ℕ) (temp : Groups) (next n : KPair) → HasGroup (temp, next) → HasGroup (to_last k temp, n)
unfolding to_last
to_last-HasGroup k [] next n h = h
to_last-HasGroup k (g ∷ []) next n h = tt
to_last-HasGroup k (g ∷ i ∷ gs) next n h = tt

opened-HasGroup : (temp : Groups) (next : KPair) → HasGroup (temp ++ [] ∷ [], next)
opened-HasGroup [] next = tt
opened-HasGroup (g ∷ gs) next = tt

cont_kernel-Always :
    (kernel : ℕ) (temp : Groups) (next : KPair)
    → HasGroup (temp, next)
    → Always HasGroup (cont_kernel kernel temp next)
unfolding cont_kernel to_first
cont_kernel-Always kernel [] next h = absurd h
cont_kernel-Always kernel (first ∷ others) next h =
    let temp = first ∷ others in
    if_both (Always HasGroup) (first_empty temp) _ _ (joink-then-Always HasGroup next _ tt) (
      Always-bind Any HasGroup (clone next.dst) _ (clone-Always next.dst) (λ c _.
        joink-then-Always HasGroup (record next { src = kernel; dst = c }) _
          (to_last-HasGroup c temp next (record next { src = kernel; dst = c }) tt)))

cont_group-Always :
    (group : List ℕ) (temp : Groups) (next : KPair)
    → HasGroup (temp, next)
    → Always HasGroup (cont_group group temp next)
unfolding cont_group
cont_group-Always [] temp next h = λ w. h
cont_group-Always (k ∷ group) temp next h =
    Always-bind HasGroup HasGroup (cont_kernel k temp next) _ (cont_kernel-Always k temp next h)
      (λ r g. cont_group-Always group r.0 r.1 g)

inline_cont-Always :
    (groups temp : Groups) (next : KPair) → Always Any (inline_cont groups temp next)
unfolding inline_cont
inline_cont-Always [] temp next = λ w. tt
inline_cont-Always (g ∷ groups) temp next =
    Always-bind HasGroup Any (cont_group g (temp ++ [] ∷ []) next) _
      (cont_group-Always g (temp ++ [] ∷ []) next (opened-HasGroup temp next))
      (λ r _. inline_cont-Always groups r.0 r.1)

split_port-Always :
    (itself : Bool) (kernel name : ℕ) (temp : Groups) (next : KPair)
    → Always Any (split_port itself kernel name temp next)
unfolding split_port
split_port-Always itself kernel name temp next =
    if_both (Always Any) itself _ _
      (joink-then-Always Any (record next { src = kernel; src_name = some name }) _ tt)
      (then-Always (clone next.dst) _ (clone-Always next.dst) (λ c.
        joink-then-Always Any (record next { src = kernel; src_name = some name; dst = c }) _ tt))

split_ports-Always :
    (itself : Bool) (kernel : ℕ) (names : List ℕ) (temp : Groups) (next : KPair)
    → Always Any (split_ports itself kernel names temp next)
unfolding split_ports
split_ports-Always itself kernel [] temp next = λ w. tt
split_ports-Always itself kernel (n ∷ names) temp next =
    then-Always (split_port itself kernel n temp next) _
      (split_port-Always itself kernel n temp next)
      (λ r. split_ports-Always false kernel names r.0 r.1)

split_names-Always :
    (kernel : ℕ) (temp : Groups) (next : KPair)
    → HasGroup (temp, next)
    → Always Any (split_names kernel temp next)
unfolding split_names
split_names-Always kernel [] next h w = absurd h
split_names-Always kernel (first ∷ others) next h w =
    let temp = first ∷ others in
    split_ports-Always (first_empty temp) kernel (w.outputs kernel) temp next w

split_kernel-Always :
    (kernel : ℕ) (temp : Groups) (next : KPair) → Always Any (split_kernel kernel temp next)
unfolding split_kernel
split_kernel-Always kernel temp next =
    split_names-Always kernel (temp ++ [] ∷ []) next (opened-HasGroup temp next)

split_group-Always :
    (group : List ℕ) (temp : Groups) (next : KPair) → Always Any (split_group group temp next)
unfolding split_group
split_group-Always [] temp next = λ w. tt
split_group-Always (k ∷ group) temp next =
    then-Always (split_kernel k temp next) _ (split_kernel-Always k temp next)
      (λ r. split_group-Always group r.0 r.1)

inline_split-Always :
    (groups temp : Groups) (next : KPair) → Always Any (inline_split groups temp next)
unfolding inline_split
inline_split-Always [] temp next = λ w. tt
inline_split-Always (g ∷ groups) temp next =
    then-Always (split_group g temp next) _ (split_group-Always g temp next)
      (λ r. inline_split-Always groups r.0 r.1)

-- No pair of a chain is made by `>=`.
abbrev pub AreJoinless : List KPair → Type 0
AreJoinless [] = Unit
AreJoinless (p ∷ chain) = (p.join_from ≡ false) × AreJoinless chain

round_as-Always :
    (t : Option LinkType) (next : KPair) (l : Loop) → t ≢ some join → Always Any (round_as t next l)
unfolding round_as cont_round split_round
round_as-Always none next l h = λ w. tt
round_as-Always (some cont) next l h =
    then-Always (inline_cont l.groups [] next) _ (inline_cont-Always l.groups [] next) (λ r w. tt)
round_as-Always (some split) next l h =
    then-Always (inline_split l.groups [] next) _ (inline_split-Always l.groups [] next) (λ r w. tt)
round_as-Always (some join) next l h = absurd (h refl)

next_link_type-join : (p : KPair) → p.join_from ≡ false → next_link_type p ≢ some join
unfolding next_link_type
next_link_type-join p h g = ground (arith, h, g)

rounds-Always : (chain : List KPair) (l : Loop) → AreJoinless chain → Always Any (rounds chain l)
unfolding rounds
rounds-Always [] l h = λ w. tt
rounds-Always (p ∷ chain) l h =
    then-Always (round_as (next_link_type p) p l) _
      (round_as-Always (next_link_type p) p l (next_link_type-join p h.0))
      (λ r. rounds-Always chain r h.1)

-- Adding a chain without a join to a map returns or throws: no assertion fails in it, and no iterator
-- or stack is read behind its end, whatever the kernels' ports are.
pub add_chain-Returns :
    (head : KPair) (chain : List KPair) (w : World)
    → AreJoinless (head ∷ chain)
    → Returns Any (add_chain head chain w)
unfolding add_chain
add_chain-Returns head chain w h =
    then-Always (rounds (head ∷ chain) (begin head)) _ (rounds-Always (head ∷ chain) (begin head) h)
      (λ r v. tt) w

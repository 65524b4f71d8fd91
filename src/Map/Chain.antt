-- ===== src/Map/Chain.antt =====
-- The four ways in which src/map.cpp adds a pair of a chain to the map: `inline_cont`, `inline_split`,
-- `inline_join` and `inline_dup_join`. Each gives back the groups of the next round and the pair as it
-- left it. A read of the first of no groups, or of the last, is `undefined`; a kernel is never null.
use raft_lib.Prelude.{
  ℕ, ◌+◌, ◌-◌, ◌%◌, Bool, true, false, List, [], ◌∷◌, ◌++◌, Option, some, ◌==◌, if◌then◌else◌, word,
  length,
}
use raft_lib.Map.{ok, undefined, Action, ◌>>=◌, ◌>>◌, link, clone}

-- `kpair`: two kernels with the ports that were named, and how the pair is to be linked. The flags
-- `has_src_name` and `has_dst_name` and the count of `dst` are never read.
pub record KPair : Type 0 where
  pub src : ℕ
  pub src_name : Option ℕ
  pub dst : ℕ
  pub dst_name : Option ℕ
  pub buffer_size : ℕ
  pub split_to : Bool
  pub src_out_count : ℕ
  pub join_from : Bool
  pub out_of_order : Bool

-- `kernels_t`: groups of kernels.
abbrev pub Groups : Type 0
Groups = List (List ℕ)

-- `temp_groups[ 0 ]->size() == 0`; its callers answer `undefined` where there is no group.
unfoldable pub first_empty : Groups → Bool
first_empty [] = true
first_empty ([] ∷ gs) = true
first_empty ((k ∷ g) ∷ gs) = false

-- `temp_groups[ 0 ]->emplace_back( k )` and `temp_groups.back()->emplace_back( k )`, behind such a test
unfoldable pub to_first : ℕ → Groups → Groups
to_first k [] = []
to_first k (g ∷ gs) = (g ++ k ∷ []) ∷ gs

unfoldable pub to_last : ℕ → Groups → Groups
to_last k [] = []
to_last k (g ∷ []) = (g ++ k ∷ []) ∷ []
to_last k (g ∷ h ∷ gs) = g ∷ to_last k (h ∷ gs)

unfoldable pub joink : KPair → Action (ℕ × ℕ)
unfolding link
joink next = link next.out_of_order next.src next.src_name next.dst next.dst_name next.buffer_size

-- `inline_cont`: the body for one kernel, the loop over a group, and that over the groups.
unfoldable pub cont_kernel : ℕ → Groups → KPair → Action (Groups × KPair)
unfolding joink clone first_empty to_first to_last
cont_kernel kernel [] next = λ w. undefined
cont_kernel kernel (first ∷ others) next =
    let temp = first ∷ others in
    if first_empty temp then (do joink next; λ w. ok (to_first next.dst temp, next) w) else (do
      dst_clone ← clone next.dst
      let next' = record next { src = kernel; dst = dst_clone }
      joink next'
      λ w. ok (to_last dst_clone temp, next') w)

unfoldable pub cont_group : List ℕ → Groups → KPair → Action (Groups × KPair)
unfolding cont_kernel
cont_group [] temp next = λ w. ok (temp, next) w
cont_group (kernel ∷ group) temp next =
    cont_kernel kernel temp next >>= λ r. cont_group group r.0 r.1

unfoldable pub inline_cont : Groups → Groups → KPair → Action (Groups × KPair)
unfolding cont_group
inline_cont [] temp next = λ w. ok (temp, next) w
inline_cont (group ∷ groups) temp next =
    cont_group group (temp ++ [] ∷ []) next >>= λ r. inline_cont groups r.0 r.1

-- `inline_split`: one port of a kernel, to `next->dst` itself or to a clone of it.
unfoldable pub split_port : Bool → ℕ → ℕ → Groups → KPair → Action (Groups × KPair)
unfolding joink clone to_last
split_port itself kernel name temp next =
    let from = record next { src = kernel; src_name = some name } in
    if itself then (joink from >> λ w. ok (to_last from.dst temp, from) w) else (do
      dst_clone ← clone from.dst
      let from' = record from { dst = dst_clone }
      joink from'
      λ w. ok (to_last dst_clone temp, from') w)

unfoldable pub split_ports : Bool → ℕ → List ℕ → Groups → KPair → Action (Groups × KPair)
unfolding split_port
split_ports itself kernel [] temp next = λ w. ok (temp, next) w
split_ports itself kernel (name ∷ names) temp next =
    split_port itself kernel name temp next >>= λ r. split_ports false kernel names r.0 r.1

-- The test of the first group, and the loop over the ports.
unfoldable pub split_names : ℕ → Groups → KPair → Action (Groups × KPair)
unfolding split_ports first_empty
split_names kernel [] next w = undefined
split_names kernel (first ∷ others) next w =
    let temp = first ∷ others in
    split_ports (first_empty temp) kernel (w.outputs kernel) temp next w

-- The body for one kernel.
unfoldable pub split_kernel : ℕ → Groups → KPair → Action (Groups × KPair)
unfolding split_names
split_kernel kernel temp next = split_names kernel (temp ++ [] ∷ []) next

unfoldable pub split_group : List ℕ → Groups → KPair → Action (Groups × KPair)
unfolding split_kernel
split_group [] temp next = λ w. ok (temp, next) w
split_group (kernel ∷ group) temp next =
    split_kernel kernel temp next >>= λ r. split_group group r.0 r.1

unfoldable pub inline_split : Groups → Groups → KPair → Action (Groups × KPair)
unfolding split_group
inline_split [] temp next = λ w. ok (temp, next) w
inline_split (group ∷ groups) temp next =
    split_group group temp next >>= λ r. inline_split groups r.0 r.1

-- `joinfunc` of `inline_join`: the kernels of a group go to the inputs of `next->dst`. A group with
-- fewer kernels than there are inputs is read behind its end.
unfoldable pub join_group : List ℕ → List ℕ → KPair → Action KPair
unfolding joink
join_group [] group next = λ w. ok next w
join_group (name ∷ names) [] next = λ w. undefined
join_group (name ∷ names) (kernel ∷ group) next =
    let next' = record next { src = kernel; dst_name = some name } in
    joink next' >> join_group names group next'

-- The rest of the body: the first group goes to `next->dst`, another to a clone of it.
unfoldable pub join_one : List ℕ → Groups → KPair → Action (Groups × KPair)
unfolding clone join_group first_empty to_last
join_one group [] next = λ w. undefined
join_one group (first ∷ others) next =
    let temp = first ∷ others in
    if first_empty temp
    then (λ w.
        (join_group (w.inputs next.dst) group next >>= λ n w'. ok (to_last next.dst temp, n) w') w)
    else (do
      dst_clone ← clone next.dst
      λ w.
          (join_group (w.inputs dst_clone) group (record next { dst = dst_clone }) >>= λ n w'.
          ok (to_last dst_clone temp, n) w')
            w)

-- `inline_join`, with `count` and the top of the split stack.
unfoldable pub inline_join : ℕ → ℕ → Groups → Groups → KPair → Action (Groups × KPair)
unfolding join_one
inline_join top count [] temp next = λ w. ok (temp, next) w
inline_join top count (group ∷ groups) temp next =
    let count' = if count == 0 then top else count in
    let temp' = if count == 0 then temp ++ [] ∷ [] else temp in
    join_one group temp' next >>= λ r. inline_join top ((count' + (word - 1)) % word) groups r.0 r.1

-- What `inline_dup_join` changes: the only group, `next` and the head of the chain.
pub record Dup : Type 0 where
  pub gp : List ℕ
  pub next : KPair
  pub head : KPair

-- One more source for input `name`: a clone of `next->src`, or, where `next` is not the head, of the
-- head's pair, whose destination is linked to `next->dst` then.
unfoldable pub dup_port : Bool → ℕ → Dup → Action Dup
unfolding joink clone
dup_port at_head name d =
    if at_head
    then (do
      src ← clone d.next.src
      let next' = record d.next { src = src; dst_name = some name }
      joink next'
      λ w. ok (record { gp = d.gp ++ src ∷ []; next = next'; head = next' }) w)
    else (do
      src ← clone d.head.src
      dst ← clone d.head.dst
      let head' = record d.head { src = src; dst = dst }
      joink head'
      let next' = record d.next { src = dst; dst_name = some name }
      joink next'
      λ w. ok (record { gp = d.gp ++ src ∷ []; next = next'; head = head' }) w)

unfoldable pub dup_ports : Bool → List ℕ → Dup → Action Dup
unfolding dup_port
dup_ports at_head [] d = λ w. ok d w
dup_ports at_head (name ∷ names) d = dup_port at_head name d >>= λ e. dup_ports at_head names e

-- The loop over the inputs of `next->dst`: the first one is linked to `next->src`.
unfoldable pub dup_inputs : Bool → List ℕ → Dup → Action Dup
unfolding dup_ports joink
dup_inputs at_head [] d = λ w. ok d w
dup_inputs at_head (name ∷ names) d =
    let next' = record d.next { dst_name = some name } in
    joink next'
    >> dup_ports at_head names (record d { next = next'; head = if at_head then next' else d.head })

-- `inline_dup_join` with its assertions: the groups as it left them and those of the next round.
unfoldable pub inline_dup_join : Bool → Groups → KPair → KPair → Action (Groups × Groups × Dup)
unfolding dup_inputs
inline_dup_join at_head ((kernel ∷ []) ∷ []) next head = λ w.
    (dup_inputs at_head (w.inputs next.dst) (record { gp = kernel ∷ []; next = next; head = head })
        >>= λ d w'.
            if length d.gp == length (w.inputs next.dst)
            then ok (d.gp ∷ [], (next.dst ∷ []) ∷ [], d) w'
            else undefined)
      w
inline_dup_join at_head _ next head = λ w. undefined

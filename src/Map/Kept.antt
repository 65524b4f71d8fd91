-- ===== src/Map/Kept.antt =====
-- `operator +=` of src/map.cpp and the invariant of a map.
use raft_lib.Prelude.{
  ℕ, Bool, false, List, [], ◌∷◌, ◌++◌, some, ◌==◌, if◌then◌else◌, if_both, length, ◌%◌, ◌+◌, ◌-◌,
  word,
}
use raft_lib.Map.{World, ok, ◌>>=◌, ◌>>◌, clone}
use raft_lib.Map.Valid.{IsValid, Leaves, Keeps, Keeps-bind, clone-Keeps}
use raft_lib.Map.Linking.{link-Keeps}
use raft_lib.Map.Chain.{
  KPair, Groups, joink, cont_kernel, cont_group, inline_cont, split_port, split_ports, split_kernel,
  split_names, split_group, inline_split, join_group, join_one, inline_join, Dup, dup_port,
  dup_ports, dup_inputs, inline_dup_join, first_empty, to_first,
}

ok-Keeps {ℓ} : {R : Type ℓ} (r : R) → Keeps (λ w. ok r w)
ok-Keeps r w v = v

joink-Keeps : (next : KPair) → Keeps (joink next)
unfolding joink
joink-Keeps next =
    link-Keeps next.out_of_order next.src next.src_name next.dst next.dst_name next.buffer_size

-- A link, and the value that is given back.
joink-then-Keeps {ℓ} : {R : Type ℓ} (next : KPair) (r : R) → Keeps (joink next >> λ w. ok r w)
joink-then-Keeps next r = Keeps-bind (joink next) _ (joink-Keeps next) (λ _. ok-Keeps r)

cont_kernel-Keeps :
    (kernel : ℕ) (temp : Groups) (next : KPair) → Keeps (cont_kernel kernel temp next)
unfolding cont_kernel
cont_kernel-Keeps kernel [] next = λ w v. tt
cont_kernel-Keeps kernel (first ∷ others) next =
    let temp = first ∷ others in
    if_both Keeps (first_empty temp) _ _ (joink-then-Keeps next (to_first next.dst temp, next)) (
      Keeps-bind (clone next.dst) _ (clone-Keeps next.dst)
        (λ c. joink-then-Keeps (record next { src = kernel; dst = c }) _))

cont_group-Keeps :
    (group : List ℕ) (temp : Groups) (next : KPair) → Keeps (cont_group group temp next)
unfolding cont_group
cont_group-Keeps [] temp next = λ w v. v
cont_group-Keeps (k ∷ group) temp next =
    Keeps-bind (cont_kernel k temp next) _ (cont_kernel-Keeps k temp next)
      (λ r. cont_group-Keeps group r.0 r.1)

pub inline_cont-Keeps : (groups temp : Groups) (next : KPair) → Keeps (inline_cont groups temp next)
unfolding inline_cont
inline_cont-Keeps [] temp next = λ w v. v
inline_cont-Keeps (g ∷ groups) temp next =
    Keeps-bind (cont_group g (temp ++ [] ∷ []) next) _ (cont_group-Keeps g (temp ++ [] ∷ []) next)
      (λ r. inline_cont-Keeps groups r.0 r.1)

split_port-Keeps :
    (itself : Bool) (kernel name : ℕ) (temp : Groups) (next : KPair)
    → Keeps (split_port itself kernel name temp next)
unfolding split_port
split_port-Keeps itself kernel name temp next =
    if_both Keeps itself _ _
      (joink-then-Keeps (record next { src = kernel; src_name = some name }) _)
      (Keeps-bind (clone next.dst) _ (clone-Keeps next.dst)
        (λ c. joink-then-Keeps (record next { src = kernel; src_name = some name; dst = c }) _))

split_ports-Keeps :
    (itself : Bool) (kernel : ℕ) (names : List ℕ) (temp : Groups) (next : KPair)
    → Keeps (split_ports itself kernel names temp next)
unfolding split_ports
split_ports-Keeps itself kernel [] temp next = λ w v. v
split_ports-Keeps itself kernel (n ∷ names) temp next =
    Keeps-bind (split_port itself kernel n temp next) _ (split_port-Keeps itself kernel n temp next)
      (λ r. split_ports-Keeps false kernel names r.0 r.1)

split_names-Keeps :
    (kernel : ℕ) (temp : Groups) (next : KPair) → Keeps (split_names kernel temp next)
unfolding split_names
split_names-Keeps kernel [] next w = λ v. tt
split_names-Keeps kernel (first ∷ others) next w =
    let temp = first ∷ others in
    split_ports-Keeps (first_empty temp) kernel (w.outputs kernel) temp next w

split_kernel-Keeps :
    (kernel : ℕ) (temp : Groups) (next : KPair) → Keeps (split_kernel kernel temp next)
unfolding split_kernel
split_kernel-Keeps kernel temp next = split_names-Keeps kernel (temp ++ [] ∷ []) next

split_group-Keeps :
    (group : List ℕ) (temp : Groups) (next : KPair) → Keeps (split_group group temp next)
unfolding split_group
split_group-Keeps [] temp next = λ w v. v
split_group-Keeps (k ∷ group) temp next =
    Keeps-bind (split_kernel k temp next) _ (split_kernel-Keeps k temp next)
      (λ r. split_group-Keeps group r.0 r.1)

pub inline_split-Keeps :
    (groups temp : Groups) (next : KPair) → Keeps (inline_split groups temp next)
unfolding inline_split
inline_split-Keeps [] temp next = λ w v. v
inline_split-Keeps (g ∷ groups) temp next =
    Keeps-bind (split_group g temp next) _ (split_group-Keeps g temp next)
      (λ r. inline_split-Keeps groups r.0 r.1)

join_group-Keeps : (names group : List ℕ) (next : KPair) → Keeps (join_group names group next)
unfolding join_group
join_group-Keeps [] group next = ok-Keeps next
join_group-Keeps (n ∷ names) [] next = λ w v. tt
join_group-Keeps (n ∷ names) (k ∷ group) next =
    let next' = record next { src = k; dst_name = some n } in
    Keeps-bind (joink next') _ (joink-Keeps next') (λ _. join_group-Keeps names group next')

-- The joins of a group, and the value that is given back.
join_then-Keeps :
    (names : World → List ℕ) (group : List ℕ) (next : KPair) (f : KPair → Groups × KPair)
    → Keeps (λ w. (join_group (names w) group next >>= λ n w'. ok (f n) w') w)
join_then-Keeps names group next f w =
    Keeps-bind (join_group (names w) group next) (λ n w'. ok (f n) w')
      (join_group-Keeps (names w) group next) (λ n. ok-Keeps (f n)) w

join_one-Keeps : (group : List ℕ) (temp : Groups) (next : KPair) → Keeps (join_one group temp next)
unfolding join_one
join_one-Keeps group [] next = λ w v. tt
join_one-Keeps group (first ∷ others) next =
    let temp = first ∷ others in
    if_both Keeps (first_empty temp) _ _ (join_then-Keeps (λ w. w.inputs next.dst) group next _) (
      Keeps-bind (clone next.dst) _ (clone-Keeps next.dst)
        (λ c. join_then-Keeps (λ w. w.inputs c) group (record next { dst = c }) _))

pub inline_join-Keeps :
    (top count : ℕ) (groups temp : Groups) (next : KPair)
    → Keeps (inline_join top count groups temp next)
unfolding inline_join
inline_join-Keeps top count [] temp next = λ w v. v
inline_join-Keeps top count (g ∷ groups) temp next =
    Keeps-bind (join_one g (if count == 0 then temp ++ [] ∷ [] else temp) next) _
      (join_one-Keeps g (if count == 0 then temp ++ [] ∷ [] else temp) next)
      (λ r.
        inline_join-Keeps top (((if count == 0 then top else count) + (word - 1)) % word) groups r.0
          r.1)

dup_port-Keeps : (at_head : Bool) (name : ℕ) (d : Dup) → Keeps (dup_port at_head name d)
unfolding dup_port
dup_port-Keeps at_head name d =
    if_both Keeps at_head _ _
      (Keeps-bind (clone d.next.src) _ (clone-Keeps d.next.src) (λ s.
        let next' = record d.next { src = s; dst_name = some name } in
        joink-then-Keeps {R = Dup} next'
          (record { gp = d.gp ++ s ∷ []; next = next'; head = next' })))
      (Keeps-bind (clone d.head.src) _ (clone-Keeps d.head.src) (λ s.
        Keeps-bind (clone d.head.dst) _ (clone-Keeps d.head.dst) (λ t.
          let head' = record d.head { src = s; dst = t } in
          let next' = record d.next { src = t; dst_name = some name } in
          Keeps-bind (joink head') _ (joink-Keeps head') (λ _.
            joink-then-Keeps {R = Dup} next'
              (record { gp = d.gp ++ s ∷ []; next = next'; head = head' })))))

dup_ports-Keeps : (at_head : Bool) (names : List ℕ) (d : Dup) → Keeps (dup_ports at_head names d)
unfolding dup_ports
dup_ports-Keeps at_head [] d = ok-Keeps d
dup_ports-Keeps at_head (n ∷ names) d =
    Keeps-bind (dup_port at_head n d) _ (dup_port-Keeps at_head n d)
      (λ e. dup_ports-Keeps at_head names e)

dup_inputs-Keeps : (at_head : Bool) (names : List ℕ) (d : Dup) → Keeps (dup_inputs at_head names d)
unfolding dup_inputs
dup_inputs-Keeps at_head [] d = ok-Keeps d
dup_inputs-Keeps at_head (n ∷ names) d =
    let next' = record d.next { dst_name = some n } in
    Keeps-bind (joink next') _ (joink-Keeps next') (λ _.
      dup_ports-Keeps at_head names
        (record d { next = next'; head = if at_head then next' else d.head }))

pub inline_dup_join-Keeps :
    (at_head : Bool) (groups : Groups) (next head : KPair)
    → Keeps (inline_dup_join at_head groups next head)
unfolding inline_dup_join
inline_dup_join-Keeps at_head [] next head w v = tt
inline_dup_join-Keeps at_head ([] ∷ gs) next head w v = tt
inline_dup_join-Keeps at_head ((k ∷ l ∷ g) ∷ gs) next head w v = tt
inline_dup_join-Keeps at_head ((k ∷ []) ∷ g ∷ gs) next head w v = tt
inline_dup_join-Keeps at_head ((k ∷ []) ∷ []) next head w v =
    let d0 : Dup = record { gp = k ∷ []; next = next; head = head } in
    Keeps-bind (dup_inputs at_head (w.inputs next.dst) d0) _
      (dup_inputs-Keeps at_head (w.inputs next.dst) d0)
      (λ d w' v'.
        if_both (Leaves {R = Groups × Groups × Dup} IsValid)
          (length d.gp == length (w.inputs next.dst)) _ _ v' tt)
      w v

-- ===== src/Map/Returns.antt =====
-- Chains without a join by `operator +=` of src/map.cpp.
use raft_lib.Prelude.{ℕ, Bool, List, none, some, Option, ◌⊎◌, inl, inr}
use raft_lib.Topology.{Failure, Ports, join}
use raft_lib.Map.{
  World, Result, ok, thrown, undefined, Action, ◌>>=◌, ◌>>◌, link, discover, join_ports_of, clone,
  clone_as, find_port, Shape, update_kernels, at_output, set_buffer, at_input,
}
use raft_lib.Map.Chain.{KPair, joink}

-- A call throws, or it returns a value of which `P` holds: it does not fail an assertion or read an
-- iterator at its end.
abbrev pub Returns {ℓ} : {R : Type ℓ} → (R → Type 0) → Result R → Type 0
Returns P (ok r w) = P r
Returns P (thrown e w) = Unit
Returns P undefined = ⊥

abbrev pub Always {ℓ} : {R : Type ℓ} → (R → Type 0) → Action R → Type 0
Always P m = (w : World) → Returns P (m w)

abbrev pub Any {ℓ} : {R : Type ℓ} → R → Type 0
Any r = Unit

Returns-bind {ℓ κ} :
    {R : Type ℓ} {S : Type κ} (P : R → Type 0) (Q : S → Type 0) (r : Result R) (k : R → Action S)
    → Returns P r
    → ((x : R) → P x → Always Q (k x))
    → Returns Q (elim r as (λ _. Result S) [
      | ok x w ↦ k x w
      | thrown e w ↦ thrown e w
      | undefined ↦ undefined
    ])
Returns-bind P Q (ok x w) k h g = g x h w
Returns-bind P Q (thrown e w) k h g = tt
Returns-bind P Q undefined k h g = absurd h

pub Always-bind {ℓ κ} :
    {R : Type ℓ} {S : Type κ} (P : R → Type 0) (Q : S → Type 0) (m : Action R) (k : R → Action S)
    → Always P m
    → ((r : R) → P r → Always Q (k r))
    → Always Q (m >>= k)
Always-bind P Q m k h g w = Returns-bind P Q (m w) k (h w) g

clone_as-Always : (o : Option Shape) → Always Any (clone_as o)
unfolding clone_as
clone_as-Always none w = tt
clone_as-Always (some s) w = tt

pub clone-Always : (k : ℕ) → Always Any (clone k)
unfolding clone
clone-Always k w = clone_as-Always (w.blueprint k) w

found-Returns {κ} :
    {S : Type κ} (Q : S → Type 0) (r : Failure ⊎ ℕ) (w : World) (k : ℕ → Action S)
    → ((n : ℕ) → Returns Q (k n w))
    → Returns Q
        (◌>>=◌ (λ w'. elim r as (λ _. Result ℕ) [ inl e ↦ thrown e w' | inr n ↦ ok n w' ]) k w)
found-Returns Q (inl e) w k h = tt
found-Returns Q (inr n) w k h = h n

discover-Returns {κ} :
    {S : Type κ} (Q : S → Type 0) (name : Option ℕ) (names : World → List ℕ) (w : World)
    (k : ℕ → Action S)
    → ((n : ℕ) → Returns Q (k n w))
    → Returns Q ((discover name names >>= k) w)
unfolding discover
discover-Returns Q name names w k h = found-Returns Q (find_port name (names w)) w k h

joined-Returns {κ} :
    {S : Type κ} (Q : S → Type 0) (o : Option Failure) (p : Ports) (w : World)
    (k : Unit {0} → Action S)
    → Always Q (k tt)
    → Returns Q (
        ◌>>=◌
          (λ w'. elim o as (λ _. Result (Unit {0})) [
            | none ↦ ok tt (record w' { ports = p })
            | some x ↦ thrown x (record w' { ports = p })
          ])
          k
          w)
joined-Returns Q none p w k h = h (record w { ports = p })
joined-Returns Q (some x) p w k h = tt

join_ports_of-Returns {κ} :
    {S : Type κ} (Q : S → Type 0) (a n b m : ℕ) (w : World) (k : Unit {0} → Action S)
    → Always Q (k tt)
    → Returns Q ((join_ports_of a n b m >>= k) w)
unfolding join_ports_of
join_ports_of-Returns Q a n b m w k h =
    joined-Returns Q (join a n b m w.ports).0 (join a n b m w.ports).1 w k h

link-Always :
    (order : Bool) (a : ℕ) (a_port : Option ℕ) (b : ℕ) (b_port : Option ℕ) (buffer : ℕ)
    → Always Any (link order a a_port b b_port buffer)
unfolding link
link-Always order a a_port b b_port buffer w =
    let w1 = update_kernels a b w in
    discover-Returns {S = ℕ × ℕ} Any a_port (λ u. u.outputs a) w1 _
      (λ n.
        let w2 = at_output a n (set_buffer buffer) w1 in
        discover-Returns {S = ℕ × ℕ} Any b_port (λ u. u.inputs b) w2 _
          (λ m.
            join_ports_of-Returns {S = ℕ × ℕ} Any a n b m (at_input b m (set_buffer buffer) w2) _
              (λ t. tt)))

joink-Always : (next : KPair) → Always Any (joink next)
unfolding joink
joink-Always next =
    link-Always next.out_of_order next.src next.src_name next.dst next.dst_name next.buffer_size

-- A link, and the value that is given back.
pub joink-then-Always :
    {R : Type 0} (P : R → Type 0) (next : KPair) (r : R)
    → P r
    → Always P (joink next >> λ w. ok r w)
joink-then-Always P next r p = Always-bind Any P (joink next) _ (joink-Always next) (λ _ _ w. p)

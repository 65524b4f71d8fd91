-- ===== src/Map/Linking.antt =====
-- `link` of raftinc/mapbase.hpp and the invariant of a map.
use raft_lib.Map.Valid.{
  IsValid, Leaves, Keeps, find_port-contains, joined-IsValid, at_output-IsValid, at_input-IsValid,
  set_buffer-IsSetting, set_order-IsSetting, update_kernels-IsValid,
}
use raft_lib.Map.{
  World, Result, ok, thrown, Action, ◌>>=◌, ◌>>◌, act, find_port, discover, join_ports_of, link,
  at_output, at_input, set_buffer, set_order, update_kernels,
}
use raft_lib.Topology.{Ports, Failure, join}
use raft_lib.Topology.Linked.{join-cases, joined}
use raft_lib.Prelude.{
  ℕ, ◌≡◌, ◌⊎◌, inl, inr, Bool, true, List, none, some, Option, contains, refl, subst, sym, ◌≢◌,
}

-- What follows a discovery may use that the port is one of the kernel's.
found-Leaves {κ} :
    {S : Type κ} (name : Option ℕ) (names : List ℕ) (w : World) (k : ℕ → Action S) (r : Failure ⊎ ℕ)
    → find_port name names ≡ r
    → IsValid w
    → ((n : ℕ) → contains names n ≡ true → Leaves IsValid (k n w))
    → Leaves IsValid
        (◌>>=◌ (λ w'. elim r as (λ _. Result ℕ) [ inl e ↦ thrown e w' | inr n ↦ ok n w' ]) k w)
found-Leaves name names w k (inl e) p v h = v
found-Leaves name names w k (inr n) p v h = h n (find_port-contains name names n p)

discover-Leaves {κ} :
    {S : Type κ} (name : Option ℕ) (names : World → List ℕ) (w : World) (k : ℕ → Action S)
    → IsValid w
    → ((n : ℕ) → contains (names w) n ≡ true → Leaves IsValid (k n w))
    → Leaves IsValid ((discover name names >>= k) w)
unfolding discover
discover-Leaves name names w k v h =
    found-Leaves name (names w) w k (find_port name (names w)) refl v h

module _ (order : Bool) (a n b m : ℕ) where
  -- The end of `link`.
  abbrev ordered : Action (ℕ × ℕ)
  ordered = act (λ w. at_input b m (set_order order) (at_output a n (set_order order) w)) >> λ w.
      ok (a, b) w

  ordered-Keeps : Keeps ordered
  ordered-Keeps w v =
      at_input-IsValid b m (set_order order) (at_output a n (set_order order) w)
        (set_order-IsSetting order)
        (at_output-IsValid a n (set_order order) w (set_order-IsSetting order) v)

  -- What follows a join.
  abbrev then_ordered : Option Failure × Ports → World → Result (ℕ × ℕ)
  then_ordered t w =
      ◌>>=◌
        (λ w'. elim t.0 as (λ _. Result (Unit {0})) [
          | none ↦ ok tt (record w' { ports = t.1 })
          | some x ↦ thrown x (record w' { ports = t.1 })
        ])
        (λ _. ordered) w

  failed-Leaves :
      (o : Option Failure) (p : Ports) (w : World)
      → o ≢ none
      → IsValid (record w { ports = p })
      → Leaves IsValid (then_ordered (o, p) w)
  failed-Leaves none p w n v = absurd (n refl)
  failed-Leaves (some x) p w n v = v

  join-Leaves :
      (w : World)
      → IsValid w
      → contains (w.outputs a) n ≡ true
      → contains (w.inputs b) m ≡ true
      → Leaves IsValid ((join_ports_of a n b m >> ordered) w)
  unfolding join_ports_of
  join-Leaves w v p q =
      let Q = λ (t : Option Failure × Ports). Leaves IsValid (then_ordered t w) in
      elim (join-cases a n b m w.ports) [
        | inl (c, e) ↦ subst Q (sym e) (
            ordered-Keeps (record w { ports = joined a n b m w.ports })
              (joined-IsValid a n b m w v p q c))
        | inr (d, same, _) ↦
            failed-Leaves (join a n b m w.ports).0 (join a n b m w.ports).1 w d
              (subst (λ p'. IsValid (record w { ports = p' })) (sym same) v)
      ]

-- A link keeps the invariant, whether it goes through or throws.
pub link-Keeps :
    (order : Bool) (a : ℕ) (a_port : Option ℕ) (b : ℕ) (b_port : Option ℕ) (buffer : ℕ)
    → Keeps (link order a a_port b b_port buffer)
unfolding link at_output at_input update_kernels
link-Keeps order a a_port b b_port buffer w v =
    let w1 = update_kernels a b w in
    discover-Leaves a_port (λ u. u.outputs a) w1 _ (update_kernels-IsValid a b w v)
      (λ n p.
        let w2 = at_output a n (set_buffer buffer) w1 in
        let v2 =
          at_output-IsValid a n (set_buffer buffer) w1 (set_buffer-IsSetting buffer)
            (update_kernels-IsValid a b w v) in
        discover-Leaves b_port (λ u. u.inputs b) w2 _ v2
          (λ m q.
            join-Leaves order a n b m (at_input b m (set_buffer buffer) w2)
              (at_input-IsValid b m (set_buffer buffer) w2 (set_buffer-IsSetting buffer) v2) p q))

-- ===== src/Topology/Linked.antt =====
-- The two ends of a link under `join` and `insert` of src/mapbase.cpp.
use native.Mathlib.Decide.{ℕ_discrete}
use raft_lib.Topology.{Ports, is_free, set_other, join, insert, Failure}
use raft_lib.Prelude.{
  ℕ, ◌≡◌, ◌⊎◌, inl, inr, none, some, arith, refl, ◌==◌, ◌&&◌, if◌then◌else◌, ◌↔◌, ◌≢◌, subst,
  Option-cases, Option, sym, ap, ◌∙◌,
}

-- Both ends of a link name each other, and have one type.
pub record IsLinked (p : Ports) : Type 0 where
  pub forth :
      (k n l m : ℕ)
      → (p.output k n).other ≡ some (l, m)
      → ((p.input l m).other ≡ some (k, n)) × ((p.output k n).type ≡ (p.input l m).type)
  pub back :
      (k n l m : ℕ)
      → (p.input l m).other ≡ some (k, n)
      → ((p.output k n).other ≡ some (l, m)) × ((p.output k n).type ≡ (p.input l m).type)

module _ (a name_a b name_b : ℕ) (p : Ports) where
  -- The two ports fit and are both free.
  pub record CanJoin : Type 0 where
    pub types : (p.output a name_a).type ≡ (p.input b name_b).type
    pub free_out : (p.output a name_a).other ≡ none
    pub free_in : (p.input b name_b).other ≡ none

  -- The ports after a join that goes through.
  abbrev pub joined : Ports
  joined = record {
    output = λ l m.
        if (l == a) && (m == name_a)
        then record (p.output l m) { other = some (b, name_b) }
        else p.output l m;
    input = λ l m.
        if (l == b) && (m == name_b)
        then record (p.input l m) { other = some (a, name_a) }
        else p.input l m;
  }

  join-joined : CanJoin → join a name_a b name_b p ≡ (none, joined)
  unfolding join set_other is_free
  join-joined c = ground (arith, c.types, c.free_out, c.free_in)

  pub joined-IsLinked : CanJoin → IsLinked p → IsLinked joined
  joined-IsLinked c v = record {
    forth = λ k n l m h. ground (arith, h, v.forth k n l m, c.types, c.free_out, c.free_in);
    back = λ k n l m h. ground (arith, h, v.back k n l m, c.types, c.free_out, c.free_in);
  }

  pub join-cases :
      (CanJoin × (join a name_a b name_b p ≡ (none, joined)))
      ⊎ (((join a name_a b name_b p).0 ≢ none) × ((join a name_a b name_b p).1 ≡ p) × ¬ CanJoin)
  unfolding join is_free
  join-cases = elim (ℕ_discrete (p.output a name_a).type (p.input b name_b).type) [
    | no d ↦ inr (ground (arith, d), ground (arith, d), λ c. d c.types)
    | yes e ↦ elim (Option-cases (p.output a name_a).other) [
      | inr (x, o) ↦
          inr (ground (arith, e, o), ground (arith, e, o), λ c. ground (arith, c.free_out, o))
      | inl o ↦ elim (Option-cases (p.input b name_b).other) [
        | inr (x, i) ↦
            inr
              (ground (arith, e, o, i), ground (arith, e, o, i), λ c. ground (arith, c.free_in, i))
        | inl i ↦
            let c : CanJoin = record { types = e; free_out = o; free_in = i } in
            inl (c, join-joined c)
      ]
    ]
  ]

  -- `join` goes through exactly where the two ports have one type and are both free, leaves the ports
  -- as they were where it throws, and keeps both ends of every link in agreement.
  pub join-IsLinked :
      IsLinked p
      → IsLinked (join a name_a b name_b p).1
        × (((join a name_a b name_b p).0 ≡ none) ↔ CanJoin)
        × ((join a name_a b name_b p).0 ≢ none → (join a name_a b name_b p).1 ≡ p)
  join-IsLinked v = elim join-cases [
    | inl (c, e) ↦ (
      subst (λ (t : Option Failure × Ports). IsLinked t.1) (sym e) (joined-IsLinked c v),
      (λ _. c, λ _. ap (λ t. t.0) e),
      λ n. absurd (n (ap (λ t. t.0) e)),
    )
    | inr (n, same, d) ↦
        (subst IsLinked (sym same) v, (λ e. absurd (n e), λ c. absurd (d c)), λ _. same)
  ]

-- A second join is not tried where the first threw.
thrown_first :
    (k : Ports → Option Failure × Ports) (o : Option Failure) (q p : Ports)
    → o ≢ none
    → q ≡ p
    → ((elim o as (λ _. Option Failure × Ports) [ some x ↦ (some x, q) | none ↦ k q ]).0 ≢ none)
      × ((elim o as (λ _. Option Failure × Ports) [ some x ↦ (some x, q) | none ↦ k q ]).1 ≡ p)
thrown_first k none q p n e = absurd (n refl)
thrown_first k (some x) q p n e = (n, e)

module _ (a name_a b name_b i zero_in zero_out : ℕ) (p : Ports) where
  -- `insert` throws and leaves all ports as they were where the output that it splits is joined
  -- already, as the ports of an existing edge are.
  pub insert-occupied :
      (o : ℕ × ℕ)
      → (p.output a name_a).other ≡ some o
      → ((insert a name_a b name_b i zero_in zero_out p).0 ≢ none)
        × ((insert a name_a b name_b i zero_in zero_out p).1 ≡ p)
  unfolding insert
  insert-occupied o h = elim (join-cases a name_a i zero_in p) [
    | inl (c, _) ↦ absurd (ground (arith, h, c.free_out))
    | inr (n, same, _) ↦
        thrown_first (join i zero_out b name_b) (join a name_a i zero_in p).0
          (join a name_a i zero_in p).1 p n same
  ]

  -- Where output `name_a` of `a` fits the input "0" of `i`, the output "0" of `i` fits input `name_b`
  -- of `b`, all four ports are free, and the two ports of `i` are not the other two, `insert` goes
  -- through: it leads from `a` to `i` and from `i` to `b`, and keeps the ends of all links in
  -- agreement.
  pub insert-IsLinked :
      IsLinked p
      → CanJoin a name_a i zero_in p
      → CanJoin i zero_out b name_b p
      → a ≢ i
      → b ≢ i
      → (q : Ports) × (insert a name_a b name_b i zero_in zero_out p ≡ (none, q))
        × IsLinked q
        × ((q.output a name_a).other ≡ some (i, zero_in))
        × ((q.output i zero_out).other ≡ some (b, name_b))
  unfolding insert
  insert-IsLinked v c d na nb =
      let p1 = joined a name_a i zero_in p in
      let d1 : CanJoin i zero_out b name_b p1 = record {
        types = ground (arith, d.types, na, nb);
        free_out = ground (arith, d.free_out, na, nb);
        free_in = ground (arith, d.free_in, na, nb);
      } in
      let second = λ (t : Option Failure × Ports). elim t.0 as (λ _. Option Failure × Ports) [
        | some x ↦ (some x, t.1)
        | none ↦ join i zero_out b name_b t.1
      ] in
      (
        joined i zero_out b name_b p1,
        ap second (join-joined a name_a i zero_in p c) ∙ join-joined i zero_out b name_b p1 d1,
        joined-IsLinked i zero_out b name_b p1 d1 (joined-IsLinked a name_a i zero_in p c v),
        ground (arith, na),
        ground arith,
      )

-- ===== src/Pairs/Straight.antt =====
-- An expression of `>>` and `>> raft::order::out >>` over kernels, from the operators of src/kpair.cpp to
-- `operator +=` of src/map.cpp.
use raft_lib.Prelude.{
  ℕ, zero, ◌+◌, ◌<◌, ◌≡◌, ◌≢◌, Bool, true, false, List, [], ◌∷◌, none, some, refl, arith, length,
  suc, ◌∙◌, ap, ap₂, subst,
}
use raft_lib.Map.Chain.{KPair}
use raft_lib.Pairs.{
  Store, pair_of, pair_kernels, pair_after, set_node, set_ooo, rshift_kernels, rshift_pair,
  rshift_kernels_ooo, rshift_pair_ooo, chain_from,
}

-- One more kernel of the expression, and whether it comes behind `raft::order::out`.
abbrev pub Step : Type 0
Step = Bool × ℕ

abbrev pub first : ℕ → Step → Store → ℕ × Store
first a (true, b) s = rshift_kernels_ooo a b s
first a (false, b) s = rshift_kernels a b s

abbrev shift : ℕ → Step → Store → ℕ × Store
shift p (true, b) s = rshift_pair_ooo p b s
shift p (false, b) s = rshift_pair p b s

abbrev pub shifts : ℕ → List Step → Store → ℕ × Store
shifts p [] s = (p, s)
shifts p (x ∷ xs) s = shifts (shift p x s).0 xs (shift p x s).1

-- The value of `a >> x >> ...`.
abbrev pub expression : ℕ → Step → List Step → Store → ℕ × Store
expression a x xs s = shifts (first a x s).0 xs (first a x s).1

-- The pairs that the expression stands for: each kernel with the one behind it, by the ports that were
-- enabled.
abbrev pub pair_for : ℕ → Step → (ℕ → ℕ) → (ℕ → List ℕ) → KPair
pair_for a x counts queues = record (pair_of a x.1 counts queues).0 { out_of_order = x.0 }

abbrev pub listed : ℕ → List Step → (ℕ → ℕ) → (ℕ → List ℕ) → List KPair
listed a [] counts queues = []
listed a (x ∷ xs) counts queues =
    pair_for a x counts queues ∷ listed x.1 xs counts (pair_of a x.1 counts queues).1

-- A pair is allocated behind pair `p`.
record IsAppended (p : ℕ) (x : Step) (s : Store) (t : Store) : Type 0 where
  one_more : t.next_node ≡ s.next_node + 1
  added : t.nodes s.next_node ≡ record {
    pair = pair_for (s.nodes p).pair.dst x s.output_count s.enabled_port;
    next = none;
    head = (s.nodes p).head;
  }
  before : t.nodes p ≡ record (s.nodes p) { next = some s.next_node }
  others : (i : ℕ) → i < s.next_node → i ≢ p → t.nodes i ≡ s.nodes i
  queues : t.enabled_port ≡ (pair_of (s.nodes p).pair.dst x.1 s.output_count s.enabled_port).1
  counts : t.output_count ≡ s.output_count

shift-IsAppended :
    (p : ℕ) (x : Step) (s : Store) → p < s.next_node → IsAppended p x s (shift p x s).1
unfolding rshift_pair rshift_pair_ooo pair_after pair_kernels set_node set_ooo pair_of
shift-IsAppended p (true, b) s h = record {
  one_more = refl;
  added = ground arith;
  before = ground arith;
  others = λ i l n. ground arith;
  queues = refl;
  counts = refl;
}
shift-IsAppended p (false, b) s h = record {
  one_more = refl;
  added = ground arith;
  before = ground arith;
  others = λ i l n. ground arith;
  queues = refl;
  counts = refl;
}

shift-id : (p : ℕ) (x : Step) (s : Store) → (shift p x s).0 ≡ s.next_node
unfolding rshift_pair rshift_pair_ooo pair_after pair_kernels
shift-id p (true, b) s = refl
shift-id p (false, b) s = refl

pub chain_from-some :
    (fuel i j : ℕ) (s : Store) (pairs : List KPair)
    → (s.nodes i).next ≡ some j
    → chain_from fuel j s ≡ some pairs
    → chain_from (suc fuel) i s ≡ some ((s.nodes i).pair ∷ pairs)
unfolding chain_from
chain_from-some fuel i j s pairs h g = ground (arith, h, g)

pub chain_from-none :
    (fuel i : ℕ) (s : Store)
    → (s.nodes i).next ≡ none
    → chain_from (suc fuel) i s ≡ some ((s.nodes i).pair ∷ [])
unfolding chain_from
chain_from-none fuel i s h = ground (arith, h)

-- Pair `p` ended its chain, and now the pairs of an expression come behind it.
pub record IsExtended (p : ℕ) (xs : List Step) (s : Store) (q : ℕ) (t : Store) : Type 0 where
  pub chain :
      (fuel : ℕ)
      → length xs < fuel
      → chain_from fuel p t
        ≡ some ((s.nodes p).pair ∷ listed (s.nodes p).pair.dst xs s.output_count s.enabled_port)
  pub same_head : (t.nodes q).head ≡ (s.nodes p).head
  untouched : (i : ℕ) → i < s.next_node → i ≢ p → t.nodes i ≡ s.nodes i

-- The pairs that were read are those of the expression.
chain_cons :
    (fuel p : ℕ) (x : Step) (xs : List Step) (s t1 : Store) (t : Store)
    → IsAppended p x s t1
    → t.nodes p ≡ t1.nodes p
    → chain_from fuel s.next_node t
      ≡ some (
          (t1.nodes s.next_node).pair
          ∷ listed (t1.nodes s.next_node).pair.dst xs t1.output_count t1.enabled_port)
    → chain_from (suc fuel) p t
      ≡ some ((s.nodes p).pair ∷ listed (s.nodes p).pair.dst (x ∷ xs) s.output_count s.enabled_port)
unfolding pair_of
chain_cons fuel p x xs s t1 t a e h =
    let at = e ∙ a.before in
    let front = (s.nodes p).pair in
    chain_from-some fuel p s.next_node t _ (ap (λ n. n.next) at) h
    ∙ ap
        (λ n. some (
          n.pair
          ∷ (t1.nodes s.next_node).pair
          ∷ listed (t1.nodes s.next_node).pair.dst xs t1.output_count t1.enabled_port))
        at
    ∙ ap (λ n. some (front ∷ n.pair ∷ listed n.pair.dst xs t1.output_count t1.enabled_port)) a.added
    ∙ ap₂
        (λ c q.
          some (front ∷ pair_for front.dst x s.output_count s.enabled_port ∷ listed x.1 xs c q))
        a.counts a.queues

-- One more pair in front of those.
IsExtended-cons :
    (p : ℕ) (x : Step) (xs : List Step) (s t1 : Store) (q : ℕ) (t : Store)
    → p < s.next_node
    → IsAppended p x s t1
    → IsExtended s.next_node xs t1 q t
    → IsExtended p (x ∷ xs) s q t
IsExtended-cons p x xs s t1 q t l a e =
    let same = e.untouched p (grind (arith, l, a.one_more)) (grind (arith, l)) in
    record {
      chain = elim [
        | zero ↦ λ h. absurd (ground (arith, h))
        | suc fuel ↦ λ h. chain_cons fuel p x xs s t1 t a same (e.chain fuel (ground (arith, h)))
      ];
      same_head = e.same_head ∙ ap (λ n. n.head) a.added;
      untouched =
          λ i h n. e.untouched i (grind (arith, h, a.one_more)) (grind (arith, h)) ∙ a.others i h n;
    }

pub shifts-IsExtended :
    (p : ℕ) (xs : List Step) (s : Store)
    → p < s.next_node
    → (s.nodes p).next ≡ none
    → IsExtended p xs s (shifts p xs s).0 (shifts p xs s).1
shifts-IsExtended p [] s l h = record {
  chain = elim [
    | zero ↦ λ g. absurd (ground (arith, g))
    | suc fuel ↦ λ g. chain_from-none fuel p s h
  ];
  same_head = refl;
  untouched = λ i g n. refl;
}
shifts-IsExtended p (x ∷ xs) s l h =
    let a = shift-IsAppended p x s l in
    let t1 = (shift p x s).1 in
    IsExtended-cons p x xs s t1 _ _ l a (
      subst
        (λ q. IsExtended q xs t1 (shifts (shift p x s).0 xs t1).0 (shifts (shift p x s).0 xs t1).1)
        (shift-id p x s)
        (shifts-IsExtended (shift p x s).0 xs t1 (grind (arith, a.one_more, shift-id p x s))
          (ap (λ q. (t1.nodes q).next) (shift-id p x s) ∙ ap (λ n. n.next) a.added)))

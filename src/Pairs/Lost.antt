-- ===== src/Pairs/Lost.antt =====
-- Chains with `<=` and `>=` by the operators of src/kpair.cpp, read by the precedence of C++.
use raft_lib.Prelude.{
  ℕ, ◌≡◌, ◌+◌, true, false, none, some, List, [], ◌∷◌, Option, arith, map, Bool, ap, ap₂, ◌∙◌, suc,
  ◌<◌, ◌≢◌, refl, subst,
}
use raft_lib.Map.Chain.{KPair}
use raft_lib.Pairs.Straight.{chain_from-some, chain_from-none}
use raft_lib.Pairs.{
  Store, rshift_kernels, rshift_pair, le_kernels, le_pair, ge_pairs, pair_flagged, pair_before,
  pair_after, pair_between, pair_kernels, pair_of, set_node, chain_from,
}

-- What a pair links, and whether it splits or joins.
abbrev pub Shape : Type 0
Shape = ℕ × ℕ × Bool × Bool

abbrev pub shape : KPair → Shape
shape p = (p.src, p.dst, p.split_to, p.join_from)

abbrev pub shapes : Option (List KPair) → List Shape
shapes none = []
shapes (some pairs) = map shape pairs

-- The node `i` has what pair `x` has, and leads to `next`.
record IsNode (i : ℕ) (x : Shape) (next : Option ℕ) (s : Store) : Type 0 where
  same_shape : shape (s.nodes i).pair ≡ x
  same_next : (s.nodes i).next ≡ next

read_two :
    (fuel h i j : ℕ) (x y : Shape) (s : Store)
    → (s.nodes h).head ≡ i
    → IsNode i x (some j) s
    → IsNode j y none s
    → shapes (chain_from (suc (suc fuel)) (s.nodes h).head s) ≡ x ∷ y ∷ []
read_two fuel h i j x y s e f g =
    ap (λ k. shapes (chain_from (suc (suc fuel)) k s)) e
    ∙ ap shapes
        (chain_from-some (suc fuel) i j s _ f.same_next (chain_from-none fuel j s g.same_next))
    ∙ ap₂ (λ c d. c ∷ d ∷ []) f.same_shape g.same_shape

read_three :
    (fuel h i j k : ℕ) (x y z : Shape) (s : Store)
    → (s.nodes h).head ≡ i
    → IsNode i x (some j) s
    → IsNode j y (some k) s
    → IsNode k z none s
    → shapes (chain_from (suc (suc (suc fuel))) (s.nodes h).head s) ≡ x ∷ y ∷ z ∷ []
read_three fuel h' i j k x y z s e f g h =
    ap (λ l. shapes (chain_from (suc (suc (suc fuel))) l s)) e
    ∙ ap shapes (
        chain_from-some (suc (suc fuel)) i j s _ f.same_next
          (chain_from-some (suc fuel) j k s _ g.same_next (chain_from-none fuel k s h.same_next)))
    ∙ ap₂ (λ c d. c ∷ d) f.same_shape (ap₂ (λ c d. c ∷ d ∷ []) g.same_shape h.same_shape)

-- What `ge_pairs a b` leaves behind.
record IsJoined (a b : ℕ) (s t : Store) : Type 0 where
  new_node : IsNode s.next_node ((s.nodes a).pair.dst, (s.nodes b).pair.src, false, true) (some b) t
  left : IsNode a (shape (s.nodes a).pair) (some s.next_node) t
  right : IsNode b (shape (s.nodes b).pair) (s.nodes b).next t
  same_head : (t.nodes s.next_node).head ≡ (s.nodes a).head

ge_pairs-IsJoined :
    (a b : ℕ) (s : Store)
    → a < s.next_node
    → b < s.next_node
    → a ≢ b
    → IsJoined a b s (ge_pairs a b s).1
unfolding ge_pairs pair_between pair_kernels set_node pair_of
ge_pairs-IsJoined a b s h g d = record {
  new_node = record { same_shape = ground arith; same_next = ground arith };
  left = record { same_shape = ground arith; same_next = ground arith };
  right = record { same_shape = ground arith; same_next = ground arith };
  same_head = ground arith;
}

-- What an operator that allocates one node leaves behind, where it changes no other.
record IsAdded (x : Shape) (next : Option ℕ) (s t : Store) : Type 0 where
  new_node : IsNode s.next_node x next t
  own_head : (t.nodes s.next_node).head ≡ s.next_node
  one_more : t.next_node ≡ s.next_node + 1
  others : (i : ℕ) → i < s.next_node → t.nodes i ≡ s.nodes i

rshift_kernels-IsAdded :
    (a b : ℕ) (s : Store) → IsAdded (a, b, false, false) none s (rshift_kernels a b s).1
unfolding rshift_kernels pair_kernels pair_of
rshift_kernels-IsAdded a b s = record {
  new_node = record { same_shape = ground arith; same_next = ground arith };
  own_head = ground arith;
  one_more = refl;
  others = λ i h. ground arith;
}

le_kernels-IsAdded : (a b : ℕ) (s : Store) → IsAdded (a, b, true, false) none s (le_kernels a b s).1
unfolding le_kernels pair_flagged pair_kernels pair_of set_node
le_kernels-IsAdded a b s = record {
  new_node = record { same_shape = ground arith; same_next = ground arith };
  own_head = ground arith;
  one_more = refl;
  others = λ i h. ground arith;
}

le_pair-IsAdded :
    (a p : ℕ) (s : Store)
    → IsAdded (a, (s.nodes p).pair.src, true, false) (some p) s (le_pair a p s).1
unfolding le_pair pair_before pair_kernels pair_of set_node
le_pair-IsAdded a p s = record {
  new_node = record { same_shape = ground arith; same_next = ground arith };
  own_head = ground arith;
  one_more = refl;
  others = λ i h. ground arith;
}

-- A chain that begins with node `i` and one that is node `j`, joined by `ge_pairs`.
read_joined :
    (fuel i j : ℕ) (x y : Shape) (next : Option ℕ) (v : Store)
    → i < v.next_node
    → j < v.next_node
    → i ≢ j
    → (v.nodes i).head ≡ i
    → IsNode i x next v
    → IsNode j y none v
    → let (o, w) = ge_pairs i j v in
      shapes (chain_from (suc (suc (suc fuel))) (w.nodes o).head w)
      ≡ x ∷ (x.1, y.0, false, true) ∷ y ∷ []
unfolding ge_pairs pair_between pair_kernels
read_joined fuel i j x y next v l m d e f g =
    let c = ge_pairs-IsJoined i j v l m d in
    read_three fuel v.next_node i v.next_node j _ _ _ (ge_pairs i j v).1 (c.same_head ∙ e)
      (record { same_shape = c.left.same_shape ∙ f.same_shape; same_next = c.left.same_next })
      (record {
        same_shape =
            c.new_node.same_shape ∙ ap₂ (λ p q. (p.1, q.0, false, true)) f.same_shape g.same_shape;
        same_next = c.new_node.same_next;
      })
      (record {
        same_shape = c.right.same_shape ∙ g.same_shape;
        same_next = c.right.same_next ∙ g.same_next;
      })

-- A node is left as it was by an operator that allocates another one.
kept-IsNode :
    (i : ℕ) (x y : Shape) (next next' : Option ℕ) (s t : Store)
    → IsAdded y next' s t
    → i < s.next_node
    → IsNode i x next s
    → IsNode i x next t
kept-IsNode i x y next next' s t a l f = record {
  same_shape = ap (λ n. shape n.pair) (a.others i l) ∙ f.same_shape;
  same_next = ap (λ n. n.next) (a.others i l) ∙ f.same_next;
}

-- The value of an operator is a chain whose only kernels before the join are those of its first pair.
joined_lem :
    (fuel d e : ℕ) (x : Shape) (next : Option ℕ) (s u : Store)
    → IsAdded x next s u
    → let (r, v) = rshift_kernels d e u in
      let (o, w) = ge_pairs s.next_node r v in
      shapes (chain_from (suc (suc (suc fuel))) (w.nodes o).head w)
      ≡ x ∷ (x.1, d, false, true) ∷ (d, e, false, false) ∷ []
unfolding rshift_kernels pair_kernels
joined_lem fuel d e x next s u f =
    let v = (rshift_kernels d e u).1 in
    let g = rshift_kernels-IsAdded d e u in
    let l : s.next_node < u.next_node = grind (arith, f.one_more) in
    read_joined fuel s.next_node u.next_node x (d, e, false, false) next v
      (grind (arith, l, g.one_more)) (grind (arith, l, g.one_more)) (grind (arith, l))
      (ap (λ n. n.head) (g.others s.next_node l) ∙ f.own_head)
      (kept-IsNode s.next_node x _ next none u v g l f.new_node) g.new_node

-- The pairs of `a <= b >= c >> d`, which is `(a <= b) >= (c >> d)`, read from the head of its value: the
-- split from `a` to `b`, the join from `b` to `c`, and the pair from `c` to `d`.
pub ge_pairs-le_kernels :
    (a b c d : ℕ) (s : Store) (fuel : ℕ)
    → let (p, t) = le_kernels a b s in
      let (q, u) = rshift_kernels c d t in
      let (r, v) = ge_pairs p q u in
      shapes (chain_from (suc (suc (suc fuel))) (v.nodes r).head v)
      ≡ (a, b, true, false) ∷ (b, c, false, true) ∷ (c, d, false, false) ∷ []
unfolding le_kernels pair_flagged pair_kernels
ge_pairs-le_kernels a b c d s fuel =
    joined_lem fuel c d _ none s (le_kernels a b s).1 (le_kernels-IsAdded a b s)

rshift_kernels-src :
    (b c : ℕ) (s : Store) → let (p, t) = rshift_kernels b c s in (t.nodes p).pair.src ≡ b
unfolding rshift_kernels pair_kernels pair_of
rshift_kernels-src b c s = ground arith

-- Behind `<=` a chain is cut. The pairs of `a <= b >> c >= d >> e`, which is `(a <= (b >> c)) >= (d >> e)`,
-- are the split from `a` to `b`, a join from `b` to `d`, and the pair from `d` to `e`: the pair from `b`
-- to `c` is not among them.
pub ge_pairs-le_pair :
    (a b c d e : ℕ) (s : Store) (fuel : ℕ)
    → let (p, t) = rshift_kernels b c s in
      let (q, u) = le_pair a p t in
      let (r, v) = rshift_kernels d e u in
      let (o, w) = ge_pairs q r v in
      shapes (chain_from (suc (suc (suc fuel))) (w.nodes o).head w)
      ≡ (a, b, true, false) ∷ (b, d, false, true) ∷ (d, e, false, false) ∷ []
unfolding le_pair pair_before pair_kernels
ge_pairs-le_pair a b c d e s fuel =
    let (p, t) = rshift_kernels b c s in
    let f : IsAdded (a, b, true, false) (some p) t (le_pair a p t).1 =
      subst (λ k. IsAdded (a, k, true, false) (some p) t (le_pair a p t).1)
        (rshift_kernels-src b c s) (le_pair-IsAdded a p t) in
    joined_lem fuel d e (a, b, true, false) (some p) t (le_pair a p t).1 f

-- The pairs of `a <= b >> c >> d`, which is `a <= ((b >> c) >> d)`, are the split from `a` to `c` and the
-- pair from `c` to `d`: the pair from `b` to `c` is not among them.
pub le_pair-rshift_pair :
    (a b c d : ℕ) (s : Store) (fuel : ℕ)
    → let (p, t) = rshift_kernels b c s in
      let (q, u) = rshift_pair p d t in
      let (r, v) = le_pair a q u in
      shapes (chain_from (suc (suc fuel)) (v.nodes r).head v)
      ≡ (a, c, true, false) ∷ (c, d, false, false) ∷ []
unfolding rshift_kernels rshift_pair le_pair pair_before pair_after pair_kernels pair_of set_node
le_pair-rshift_pair a b c d s fuel =
    let (p, t) = rshift_kernels b c s in
    let (q, u) = rshift_pair p d t in
    let (r, end) = le_pair a q u in
    let n = s.next_node in
    read_two fuel r (n + 1 + 1) (n + 1) _ _ end (ground arith)
      (record { same_shape = ground arith; same_next = ground arith })
      (record { same_shape = ground arith; same_next = ground arith })

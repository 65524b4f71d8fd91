-- ===== src/Pairs/Expression.antt =====
-- `m += a >> b >> ...`, through src/kpair.cpp and src/map.cpp.
use raft_lib.Map.{◌>>=◌, ok}
use raft_lib.Map.Build.{next_link_type}
use raft_lib.Pairs.{
  add_pair, pair_of, rshift_kernels, rshift_kernels_ooo, pair_flagged, Store, pair_kernels, World,
  set_node, set_ooo, chain_from, add_pairs,
}
use raft_lib.Pairs.Straight.{Step, listed, expression, first, pair_for, shifts-IsExtended, shifts}
use raft_lib.Prelude.{
  true, false, ℕ, ◌≡◌, List, ◌∷◌, length, [], refl, ◌<◌, true, some, arith, ap, none, ◌∙◌, ap₂,
}
use raft_lib.Map.Straight.{IsStraight, link_all, last_dst, add_chain-link_all}

-- The last kernel of an expression.
abbrev pub last_kernel : Step → List Step → ℕ
last_kernel x [] = x.1
last_kernel x (y ∷ xs) = last_kernel y xs

last_dst-listed :
    (k a : ℕ) (x : Step) (xs : List Step) (counts : ℕ → ℕ) (queues : ℕ → List ℕ)
    → last_dst k (listed a (x ∷ xs) counts queues) ≡ last_kernel x xs
unfolding pair_of
last_dst-listed k a x [] counts queues = refl
last_dst-listed k a x (y ∷ xs) counts queues =
    last_dst-listed x.1 x.1 y xs counts (pair_of a x.1 counts queues).1

listed-IsStraight :
    (a : ℕ) (xs : List Step) (counts : ℕ → ℕ) (queues : ℕ → List ℕ)
    → IsStraight (listed a xs counts queues)
unfolding pair_of next_link_type
listed-IsStraight a [] counts queues = tt
listed-IsStraight a (x ∷ xs) counts queues = (refl, listed-IsStraight x.1 xs counts _)

first_node :
    (a : ℕ) (x : Step) (s : Store)
    → (first a x s).1.nodes (first a x s).0 ≡ record {
      pair = pair_for a x s.output_count s.enabled_port;
      next = none;
      head = (first a x s).0;
    }
unfolding rshift_kernels rshift_kernels_ooo pair_flagged pair_kernels set_node set_ooo pair_of
first_node a (true, b) s = ground arith
first_node a (false, b) s = ground arith

first_lt : (a : ℕ) (x : Step) (s : Store) → (first a x s).0 < (first a x s).1.next_node
unfolding rshift_kernels rshift_kernels_ooo pair_flagged pair_kernels set_node set_ooo pair_of
first_lt a (true, b) s = ground arith
first_lt a (false, b) s = ground arith

first_queues :
    (a : ℕ) (x : Step) (s : Store)
    → ((first a x s).1.enabled_port ≡ (pair_of a x.1 s.output_count s.enabled_port).1)
      × ((first a x s).1.output_count ≡ s.output_count)
unfolding rshift_kernels rshift_kernels_ooo pair_flagged pair_kernels set_node set_ooo pair_of
first_queues a (true, b) s = (refl, refl)
first_queues a (false, b) s = (refl, refl)

-- The pointers of the pairs that an expression `a >> x >> ...` allocates lead, from the head that its
-- value has, through the expression's pairs in their order and no others.
pub expression-listed :
    (a : ℕ) (x : Step) (xs : List Step) (s : Store) (fuel : ℕ)
    → length xs < fuel
    → let (q, t) = expression a x xs s in
      chain_from fuel (t.nodes q).head t ≡ some (listed a (x ∷ xs) s.output_count s.enabled_port)
unfolding pair_of
expression-listed a x xs s fuel h =
    let p = (first a x s).0 in
    let t1 = (first a x s).1 in
    let n = first_node a x s in
    let e = shifts-IsExtended p xs t1 (first_lt a x s) (ap (λ m. m.next) n) in
    let t = (shifts p xs t1).1 in
    ap (λ i. chain_from fuel i t) (e.same_head ∙ ap (λ m. m.head) n)
    ∙ e.chain fuel h
    ∙ ap (λ m. some (m.pair ∷ listed m.pair.dst xs t1.output_count t1.enabled_port)) n
    ∙ ap₂ (λ c q. some (pair_for a x s.output_count s.enabled_port ∷ listed x.1 xs c q))
        (first_queues a x s).1 (first_queues a x s).0

-- Adding an expression of `>>` and `>> raft::order::out >>` to a map links each of its kernels to the one
-- behind it, in order and by the ports that were enabled, up to the first link that throws; it gives
-- back the first and the last kernel.
pub add_pair-link_all :
    (a : ℕ) (x : Step) (xs : List Step) (s : Store) (fuel : ℕ) (w : World)
    → length xs < fuel
    → let (q, t) = expression a x xs s in
      add_pair fuel q t w
      ≡ (link_all (listed a (x ∷ xs) s.output_count s.enabled_port) >>= λ _ w'.
            ok (a ∷ [], last_kernel x xs ∷ []) w')
          w
unfolding add_pair pair_of
add_pair-link_all a x xs s fuel w h =
    ap (λ c. add_pairs c w) (expression-listed a x xs s fuel h)
    ∙ add_chain-link_all _ _ w (listed-IsStraight a (x ∷ xs) s.output_count s.enabled_port)
    ∙ ap
        (λ k.
          (link_all (listed a (x ∷ xs) s.output_count s.enabled_port) >>= λ _ w'.
          ok (a ∷ [], k ∷ []) w')
            w)
        (last_dst-listed a a x xs s.output_count s.enabled_port)

-- ===== src/Pairs/Tests.antt =====
-- Kernels whose ports were not named, but for one of kernel 2.
use raft_lib.Pairs.Lost.{shapes, ge_pairs-le_pair}
use raft_lib.Pairs.Expression.{expression-listed, add_pair-link_all}
use raft_lib.Map.Straight.{link_all}
use raft_lib.Map.Sample.{world}
use raft_lib.Pairs.Straight.{expression, listed}
use raft_lib.Prelude.{[], ◌∷◌, none, some, arith, ◌≡◌, true, false, if◌then◌else◌, ◌==◌}
use raft_lib.Map.{ok, ◌>>=◌}
use raft_lib.Pairs.{Store, rshift_kernels, KPair, ge_pairs, le_pair, chain_from, add_pair}

abbrev no_pair : KPair
no_pair = record {
  src = 0;
  src_name = none;
  dst = 0;
  dst_name = none;
  buffer_size = 0;
  split_to = false;
  src_out_count = 0;
  join_from = false;
  out_of_order = false;
}

abbrev store : Store
store = record {
  nodes = λ _. record { pair = no_pair; next = none; head = 0 };
  next_node = 0;
  enabled_port = λ k. if k == 2 then 20 ∷ 21 ∷ [] else [];
  output_count = λ _. 1;
}

-- 1 >> 2 >> raft::order::out >> 3
expression-listed_example :
    let (q, t) = expression 1 (false, 2) ((true, 3) ∷ []) store in
    chain_from 9 (t.nodes q).head t
    ≡ some (listed 1 ((false, 2) ∷ (true, 3) ∷ []) store.output_count store.enabled_port)
expression-listed_example = expression-listed 1 (false, 2) ((true, 3) ∷ []) store 9 (omega arith)

add_pair-link_all_example :
    let (q, t) = expression 1 (false, 2) ((true, 3) ∷ []) store in
    add_pair 9 q t world
    ≡ (link_all (listed 1 ((false, 2) ∷ (true, 3) ∷ []) store.output_count store.enabled_port)
          >>= λ _ w'. ok (1 ∷ [], 3 ∷ []) w')
        world
add_pair-link_all_example =
    add_pair-link_all 1 (false, 2) ((true, 3) ∷ []) store 9 world (omega arith)

ge_pairs-le_pair_example :
    let (p, t) = rshift_kernels 2 3 store in
    let (q, u) = le_pair 1 p t in
    let (r, v) = rshift_kernels 4 5 u in
    let (o, w) = ge_pairs q r v in
    shapes (chain_from 6 (w.nodes o).head w)
    ≡ (1, 2, true, false) ∷ (2, 4, false, true) ∷ (4, 5, false, false) ∷ []
ge_pairs-le_pair_example = ge_pairs-le_pair 1 2 3 4 5 store 3

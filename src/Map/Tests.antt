-- ===== src/Map/Tests.antt =====
-- Chains that are added to the sample map.
use raft_lib.Map.Joinless.{add_chain-Returns}
use raft_lib.Map.Returns.{Returns, Any}
use raft_lib.Topology.{is_free, set_other, join}
use raft_lib.Map.Checked.{AllJoined, check_edges-AllJoined}
use raft_lib.Map.Added.{add_chain-IsValid}
use raft_lib.Map.Chain.{
  KPair, inline_split, inline_join, split_group, split_kernel, split_ports, split_port, first_empty,
  to_last, joink, join_one, join_group,
}
use raft_lib.Map.Sample.{pair, world, world-IsValid}
use raft_lib.Map.Valid.{Leaves, IsValid}
use raft_lib.Map.Build.{
  add_chain, check_edges, next_link_type, begin, rounds, round_as, split_round, any_join_round,
  join_round, next_round, flatten,
}
use raft_lib.Prelude.{ℕ, List, false, true, ◌∷◌, ◌≡◌, [], none, refl, ◌↔◌, contains}
use raft_lib.Map.{
  thrown, ok, undefined, link, clone, clone_as, copied, update_kernels, discover, find_port,
  get_port_info, get_port_info_for, at_output, at_input, at_port, join_ports_of, keep,
}

-- 4 <= 2 >= 3: the second output of 4 leads to a clone of 2.
abbrev split_join : List KPair
split_join = pair 2 3 1 false true ∷ []

split_join_test :
    elim (add_chain (pair 4 2 2 true false) split_join world) as (λ _. List ℕ × List ℕ × List ℕ) [
      | ok r w ↦ (r.0, r.1, w.all_kernels)
      | thrown e w ↦ ([], [], [])
      | undefined ↦ ([], [], [])
    ]
    ≡ (4 ∷ [], 3 ∷ [], 3 ∷ 5 ∷ 2 ∷ 4 ∷ [])
unfolding add_chain begin rounds round_as next_link_type split_round any_join_round join_round
    inline_split inline_join next_round flatten split_group split_kernel split_ports split_port
    first_empty to_last joink link clone clone_as copied join_one join_group update_kernels discover
    find_port get_port_info get_port_info_for at_output at_input at_port join_ports_of join is_free
    set_other keep contains
split_join_test = refl

add_chain-IsValid_example : Leaves IsValid (add_chain (pair 4 2 2 true false) split_join world)
add_chain-IsValid_example = add_chain-IsValid (pair 4 2 2 true false) split_join world world-IsValid

check_edges-AllJoined_example :
    (check_edges (record world { all_kernels = 1 ∷ 2 ∷ [] }) ≡ none)
    ↔ AllJoined (1 ∷ 2 ∷ []) (record world { all_kernels = 1 ∷ 2 ∷ [] })
check_edges-AllJoined_example = check_edges-AllJoined (record world { all_kernels = 1 ∷ 2 ∷ [] })

-- 4 <= 2 >> 3
abbrev joinless : List KPair
joinless = pair 2 3 1 false false ∷ []

add_chain-Returns_example : Returns Any (add_chain (pair 4 2 2 true false) joinless world)
add_chain-Returns_example =
    add_chain-Returns (pair 4 2 2 true false) joinless world (refl, (refl, tt))

-- ===== src/Topology/Tests.antt =====
-- Three kernels whose ports all have one type.
use raft_lib.Topology.{free_info, Ports, join, insert}
use raft_lib.Topology.Linked.{IsLinked, CanJoin, joined, join-IsLinked, insert-occupied}
use raft_lib.Prelude.{ℕ, ◌≡◌, ◌≢◌, ◌↔◌, refl, none, arith}

abbrev free_ports : Ports
free_ports = record { output = λ _ _. free_info 7; input = λ _ _. free_info 7 }

free_ports-IsLinked : IsLinked free_ports
free_ports-IsLinked = record {
  forth = λ k n l m h. absurd (ground (arith, h));
  back = λ k n l m h. absurd (ground (arith, h));
}

free_ports-CanJoin : (a n b m : ℕ) → CanJoin a n b m free_ports
free_ports-CanJoin a n b m = record { types = refl; free_out = refl; free_in = refl }

-- Output 10 of kernel 1 leads to input 20 of kernel 2.
abbrev one_edge : Ports
one_edge = joined 1 10 2 20 free_ports

join-IsLinked_example :
    IsLinked (join 1 10 2 20 free_ports).1
    × (((join 1 10 2 20 free_ports).0 ≡ none) ↔ CanJoin 1 10 2 20 free_ports)
    × ((join 1 10 2 20 free_ports).0 ≢ none → (join 1 10 2 20 free_ports).1 ≡ free_ports)
join-IsLinked_example = join-IsLinked 1 10 2 20 free_ports free_ports-IsLinked

insert-occupied_example :
    ((insert 1 10 2 20 3 30 31 one_edge).0 ≢ none)
    × ((insert 1 10 2 20 3 30 31 one_edge).1 ≡ one_edge)
insert-occupied_example = insert-occupied 1 10 2 20 3 30 31 one_edge (2, 20) refl

-- ===== src/Port/Tests.antt =====
-- Ports of a kernel that was given 80 bytes.
use raft_lib.Prelude.{ℕ, [], ◌∷◌, none, some, arith, refl, ◌≡◌, ◌/◌, inr, length, ◌≢◌}
use raft_lib.Port.Lookup.{HasNames, new_entry, add_port-get_port_info_for}
use raft_lib.Port.Slices.{AreConsecutive, add_in_place_ports-AreConsecutive}
use raft_lib.Port.{
  Port, get_port_info_for, get_port_name, add_port, add_in_place_ports, find, find_name,
}

abbrev empty_port : Port
empty_port = record { port_map = []; name_map = []; alloc_ptr_length = 80 }

abbrev one_port : Port
one_port = record { port_map = new_entry 7 3 ∷ []; name_map = (3, 33) ∷ []; alloc_ptr_length = 80 }

one_port-HasNames : HasNames one_port
unfolding find find_name
one_port-HasNames = record { same = λ n. ground arith }

add_port-get_port_info_for_example :
    let (e, q) = add_port 8 4 44 one_port in
    (e ≡ none)
    × HasNames q
    × (get_port_info_for 4 q ≡ inr (new_entry 8 4))
    × (get_port_name 4 q ≡ inr 44)
    × ((m : ℕ) → m ≢ 4 → get_port_info_for m q ≡ get_port_info_for m one_port)
unfolding find
add_port-get_port_info_for_example =
    add_port-get_port_info_for 8 4 44 one_port one_port-HasNames refl

add_in_place_ports-AreConsecutive_example :
    (q : Port) × (add_in_place_ports 7 8 3 empty_port ≡ some q)
    × AreConsecutive 8 0 q.port_map (80 / 8)
    × (length q.port_map ≡ 3)
add_in_place_ports-AreConsecutive_example =
    add_in_place_ports-AreConsecutive 7 8 3 empty_port (omega arith) refl

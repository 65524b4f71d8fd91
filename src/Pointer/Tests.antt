-- ===== src/Pointer/Tests.antt =====
-- A pointer on which the theorem about pointers is run.
use raft_lib.Prelude.{◌≡◌, arith}
use raft_lib.Pointer.{Pointer, inc_by}
use raft_lib.Pointer.Position.{IsValid, position, position-inc_by}

abbrev near_end : Pointer
near_end = record { a = 4; wrap_a = 2; max_cap = 5 }

position-inc_by_example : (position (inc_by near_end 3) ≡ 17) × IsValid (inc_by near_end 3)
position-inc_by_example =
    position-inc_by near_end 3 (record { inside = omega arith; small = omega arith }) (omega arith)
      (omega arith)

-- ===== src/Blocked.antt =====
-- raftinc/blocked.hpp and src/blocked.cpp: the count of the items that passed one end of a queue,
-- and the mark that this end was blocked.
use raft_lib.Prelude.{ℕ, ◌+◌, ◌%◌, ◌==◌, if◌then◌else◌, half_word}

-- `blocked_and_counter`; `all` is the two halves together.
pub record Blocked : Type 0 where
  pub blocked : ℕ  -- std::uint32_t
  pub count : ℕ  -- std::uint32_t

-- `Blocked()`, and what writing 0 to `all` leaves
abbrev pub zeroed : Blocked
zeroed = record { blocked = 0; count = 0 }

-- `operator +=`: the count is taken over only from an end that was not blocked.
unfoldable pub add_assign : Blocked → Blocked → Blocked
add_assign b rhs =
    if rhs.blocked == 0 then record b { count = (b.count + rhs.count) % half_word } else b

-- `count += n` at a queue's end
abbrev pub count_items : Blocked → ℕ → Blocked
count_items b n = record b { count = (b.count + n) % half_word }

-- `if( stats.blocked == 0 ) stats.blocked = 1`
abbrev pub mark : Blocked → Blocked
mark b = record b { blocked = if b.blocked == 0 then 1 else b.blocked }

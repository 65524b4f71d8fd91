-- ===== src/Pointer.antt =====
-- raftinc/pointer.hpp and src/pointer.cpp: the index of one end of a ring buffer with the count of
-- its wraps, as built without JVEC_MACHINE (one copy of each field).
pub mod Position
mod Tests
use raft_lib.Prelude.{ℕ, ◌+◌, ◌%◌, ltb, ◌==◌, if◌then◌else◌, word}

pub record Pointer : Type 0 where
  pub a : ℕ  -- std::uint64_t
  pub wrap_a : ℕ  -- wrap_t, a std::size_t
  pub max_cap : ℕ

-- `Pointer( cap )`
abbrev pub make : ℕ → Pointer
make cap = record { a = 0; wrap_a = 0; max_cap = cap }

-- `Pointer( cap, wrap_set )`
abbrev pub make_wrapped : ℕ → ℕ → Pointer
make_wrapped cap wrap_set = record (make cap) { wrap_a = wrap_set }

-- `Pointer( other, new_cap )`: the index is kept and the count of wraps starts again.
abbrev pub copy : Pointer → ℕ → Pointer
copy other new_cap = record (make new_cap) { a = other.a }

abbrev pub val : Pointer → ℕ
val p = p.a

abbrev pub wrap_indicator : Pointer → ℕ
wrap_indicator p = p.wrap_a

unfoldable pub inc : Pointer → Pointer
inc p =
    let a' = (p.a + 1) % word % p.max_cap in
    if a' == 0 then record p { a = a'; wrap_a = (p.wrap_a + 1) % word } else record p { a = a' }

unfoldable pub inc_by : Pointer → ℕ → Pointer
inc_by p n =
    let a' = (p.a + n) % word % p.max_cap in
    if ltb a' n then record p { a = a'; wrap_a = (p.wrap_a + 1) % word } else record p { a = a' }

-- ===== src/Access.antt =====
-- raftinc/threadaccess.hpp and `set_helper` of raftinc/datamanager.tcc: the flags by which the two
-- threads at a queue tell the resizing thread that they are inside it.
use raft_lib.Prelude.{ℕ, ◌+◌, ◌-◌, ◌*◌, ◌%◌, ◌^◌, Bool, ◌&&◌, ◌==◌, if◌then◌else◌, word}

-- `dm::access_key`
pub data Key : Type 0 where
  allocate allocate_range push recycle pop peek size : Key

-- The bytes `flag[ key ]` that are ever written, at the offsets 0, 1, 3, 4, 5 and 6.
pub record ThreadAccess : Type 0 where
  pub allocate : ℕ
  pub allocate_range : ℕ
  pub push : ℕ
  pub recycle : ℕ
  pub pop : ℕ
  pub peek : ℕ

abbrev pub no_access : ThreadAccess
no_access = record { allocate = 0; allocate_range = 0; push = 0; recycle = 0; pop = 0; peek = 0 }

-- The union's other member, little-endian.
unfoldable pub whole : ThreadAccess → ℕ
whole t =
    t.allocate
    + 2 ^ 8 * t.allocate_range
    + 2 ^ 24 * t.push
    + 2 ^ 32 * t.recycle
    + 2 ^ 40 * t.pop
    + 2 ^ 48 * t.peek

-- `thread_access[ 0 ]` of the writing thread, `thread_access[ 1 ]` of the reading thread, and the
-- atomic count of the threads that are computing the size.
pub record Gate : Type 0 where
  pub writer : ThreadAccess
  pub reader : ThreadAccess
  pub checking_size : ℕ  -- std::uint64_t

abbrev pub open_gate : Gate
open_gate = record { writer = no_access; reader = no_access; checking_size = 0 }

-- `set_helper`, with the flag's value `val`, 0 or 1
unfoldable pub set_helper : Key → ℕ → Gate → Gate
set_helper Key.allocate val g = record g { writer = record g.writer { allocate = val } }
set_helper Key.allocate_range val g = record g { writer = record g.writer { allocate_range = val } }
set_helper Key.push val g = record g { writer = record g.writer { push = val } }
set_helper Key.recycle val g = record g { reader = record g.reader { recycle = val } }
set_helper Key.pop val g = record g { reader = record g.reader { pop = val } }
set_helper Key.peek val g = record g { reader = record g.reader { peek = val } }
set_helper Key.size val g =
    if val == 0
    then record g { checking_size = (g.checking_size + (word - 1)) % word }
    else record g { checking_size = (g.checking_size + 1) % word }

-- The lambda `allclear` of `DataManager::resize`.
unfoldable pub allclear : Gate → Bool
unfolding whole
allclear g = (whole g.writer == 0) && ((whole g.reader == 0) && (g.checking_size == 0))

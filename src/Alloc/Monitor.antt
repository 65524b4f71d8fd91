-- ===== src/Alloc/Monitor.antt =====
-- The monitor of src/dynalloc.cpp.
use raft_lib.Prelude.{
  ℕ, zero, suc, ◌+◌, ◌*◌, ◌/◌, ◌%◌, ◌≡◌, Bool, true, false, List, [], ◌∷◌, word, if◌then◌else◌,
  ◌==◌, ◌&&◌,
}
use raft_lib.Alloc.{Watch}

-- How many intervals of a list were blocked.
abbrev pub blocked_of : List Bool → ℕ
blocked_of [] = 0
blocked_of (true ∷ bs) = suc (blocked_of bs)
blocked_of (false ∷ bs) = blocked_of bs

-- Whether a resize of the link's queue goes through.
abbrev pub takes_resize : Watch → Bool
takes_resize w = w.resizeable && w.running

-- The capacity after a number of resizes.
abbrev pub doubled : ℕ → ℕ → ℕ
doubled zero cap = cap
doubled (suc n) cap = doubled n ((cap * 2) % word)

-- The intervals `bs` lead from `w` to `v`.
pub record IsCounted (h n : ℕ) (w v : Watch) : Type 0 where
  count : v.size_map h ≡ (w.size_map h + n) % 4
  resized :
      v.capacity
      ≡ (if takes_resize w then doubled ((w.size_map h + n) / 4) w.capacity else w.capacity)

abbrev reset : ℕ → Watch → Watch
reset h w = record w {
  size_map = λ i. if i == h then 0 else w.size_map i;
  capacity = if takes_resize w then (w.capacity * 2) % word else w.capacity;
}

abbrev bump : ℕ → Watch → Watch
bump h w = record w { size_map = λ i. if i == h then w.size_map h + 1 else w.size_map i }

-- ===== src/Threads/Counted.antt =====
-- The index and wrap arithmetic of a queue whose ends two threads move: `Pointer::inc` and `size`.
use native.Mathlib.Nat.{mod-eq_of_lt, mod-eq-sub-mod}
use native.Mathlib.Decide.{dec_lt}
use raft_lib.Threads.{next_index, size_from}
use raft_lib.Prelude.{
  ℕ, suc, ◌+◌, ◌-◌, ◌%◌, ◌<◌, ◌≤◌, ◌≡◌, ◌⊎◌, arith, word, ◌==◌, if◌then◌else◌, some, inl, inr,
}

-- The write index and the wraps counted on its way are `n` items ahead of those of the read index.
pub record IsRing (cap w wl r rl n : ℕ) : Type 0 where
  pub write : w < cap
  pub read : r < cap
  pub most : n ≤ cap
  pub ahead : ((r + n ≡ w) × (wl ≡ rl)) ⊎ ((r + n ≡ w + cap) × (wl ≡ suc rl))

-- A count of wraps once the index `a` was reached.
abbrev pub wrapped : ℕ → ℕ → ℕ
wrapped a wraps = if a == 0 then suc wraps else wraps

pub next_index_lem :
    (cap a : ℕ)
    → a < cap
    → cap < word
    → ((next_index cap a ≡ suc a) × (suc a < cap)) ⊎ ((next_index cap a ≡ 0) × (suc a ≡ cap))
unfolding next_index
next_index_lem cap a h c = elim (dec_lt (suc a) cap) [
  | yes p ↦ inl (omega (arith, mod-eq_of_lt {n = (a + 1) % word} {m = cap} (omega arith)), p)
  | no p ↦ inr (
    omega (
      arith,
      mod-eq-sub-mod {n = (a + 1) % word} {m = cap} (omega arith),
      mod-eq_of_lt {n = (a + 1) % word - cap} {m = cap} (omega arith),
    ),
    omega arith,
  )
]

pub push-IsRing :
    (cap w wl r rl n : ℕ)
    → cap < word
    → IsRing cap w wl r rl n
    → n < cap
    → IsRing cap (next_index cap w) (wrapped (next_index cap w) wl) r rl (suc n)
push-IsRing cap w wl r rl n c v h =
    let at = next_index_lem cap w v.write c in
    record {
      write = ground (arith, at);
      read = v.read;
      most = omega arith;
      ahead = ground (arith, at, v.ahead);
    }

pub pop-IsRing :
    (cap w wl r rl n : ℕ)
    → cap < word
    → IsRing cap w wl r rl (suc n)
    → IsRing cap w wl (next_index cap r) (wrapped (next_index cap r) rl) n
pop-IsRing cap w wl r rl n c v =
    let at = next_index_lem cap r v.read c in
    record {
      write = v.write;
      read = ground (arith, at);
      most = ground (arith, v.most);
      ahead = ground (arith, at, v.ahead, v.write, v.most);
    }

-- The writer's question for space, with a count of the reader's wraps that may be old.
pub size_from-room :
    (cap w wl r rl n old m : ℕ)
    → cap < word
    → IsRing cap w wl r rl n
    → old ≤ rl
    → size_from cap wl old w r ≡ some m
    → 0 < (cap + word - m) % word
    → n < cap
unfolding size_from
size_from-room cap w wl r rl n old m c v o e h = ground (arith, v, e)

-- The reader's question for items, with a count of the writer's wraps that may be old.
pub size_from-items :
    (cap w wl r rl n old m : ℕ)
    → cap < word
    → IsRing cap w wl r rl n
    → old ≤ wl
    → size_from cap old rl w r ≡ some m
    → 0 < m
    → 0 < n
unfolding size_from
size_from-items cap w wl r rl n old m c v o e h = ground (arith, v, e)

-- With no count that is old, the answer is exact.
pub size_from-exact :
    (cap w wl r rl n : ℕ) → cap < word → IsRing cap w wl r rl n → size_from cap wl rl w r ≡ some n
unfolding size_from
size_from-exact cap w wl r rl n c v = ground (arith, v)

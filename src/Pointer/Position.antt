-- ===== src/Pointer/Position.antt =====
-- How far a pointer has travelled: pointer.cpp's index and wraps as one number.
use native.Mathlib.Nat.{mod-eq_of_lt, mod-eq-sub-mod}
use native.Mathlib.Decide.{dec_lt}
use raft_lib.Prelude.{ℕ, ◌+◌, ◌-◌, ◌*◌, ◌%◌, ◌≤◌, ◌<◌, ◌≡◌, ap, ◌⊎◌, inl, inr, arith, word}
use raft_lib.Pointer.{Pointer, inc, inc_by}

-- The capacity leaves room for the sum of an index and a count of items.
pub record IsValid (p : Pointer) : Type 0 where
  pub inside : p.a < p.max_cap
  pub small : p.max_cap + p.max_cap ≤ word

-- The number of single steps since construction.
abbrev pub position : Pointer → ℕ
position p = p.wrap_a * p.max_cap + p.a

-- A step by at most the capacity, by cases on whether it passes the end.
pub step-mod :
    (a n cap : ℕ)
    → a < cap
    → n ≤ cap
    → cap + cap ≤ word
    → (((a + n) % word % cap ≡ a + n) × (a + n < cap))
      ⊎ (((a + n) % word % cap ≡ a + n - cap) × (cap ≤ a + n))
step-mod a n cap h k w = elim (dec_lt (a + n) cap) [
  | yes p ↦ inl (omega (arith, mod-eq_of_lt {n = (a + n) % word} {m = cap} (omega arith)), p)
  | no p ↦ inr (
    omega (
      arith,
      mod-eq-sub-mod {n = (a + n) % word} {m = cap} (omega arith),
      mod-eq_of_lt {n = (a + n) % word - cap} {m = cap} (omega arith),
    ),
    omega arith,
  )
]

-- What `q` is after `n` steps from `p`.
pub record Advanced (p : Pointer) (n : ℕ) (q : Pointer) : Type 0 where
  pub cap : q.max_cap ≡ p.max_cap
  pub moved :
      ((q.a ≡ p.a + n) × (p.a + n < p.max_cap) × (q.wrap_a ≡ p.wrap_a))
      ⊎ ((q.a + p.max_cap ≡ p.a + n) × (p.max_cap ≤ p.a + n) × (q.wrap_a ≡ p.wrap_a + 1))

pub inc_by-Advanced :
    (p : Pointer) (n : ℕ)
    → IsValid p
    → n ≤ p.max_cap
    → p.wrap_a + 1 < word
    → Advanced p n (inc_by p n)
unfolding inc_by
inc_by-Advanced p n v h w = ground (arith, step-mod p.a n p.max_cap v.inside h v.small)

pub inc-Advanced : (p : Pointer) → IsValid p → p.wrap_a + 1 < word → Advanced p 1 (inc p)
unfolding inc
inc-Advanced p v w = ground (arith, step-mod p.a 1 p.max_cap v.inside (omega arith) v.small)

pub Advanced-IsValid :
    {p q : Pointer} {n : ℕ} → IsValid p → n ≤ p.max_cap → Advanced p n q → IsValid q
Advanced-IsValid v h s = ground (arith, s.cap, s.moved)

pub position-Advanced : {p q : Pointer} {n : ℕ} → Advanced p n q → position q ≡ position p + n
position-Advanced {p} {q} s =
    let same = ap (λ (t : ℕ). q.wrap_a * t) s.cap in
    elim s.moved [
      | inl (_, _, w) ↦ omega (arith, same, ap (λ (t : ℕ). t * p.max_cap) w)
      | inr (_, _, w) ↦ omega (arith, same, ap (λ (t : ℕ). t * p.max_cap) w)
    ]

-- A pointer that steps by `n`, at most the capacity, is `n` positions further on and stays inside
-- the buffer, as long as the count of its wraps does not overflow.
pub position-inc_by :
    (p : Pointer) (n : ℕ)
    → IsValid p
    → n ≤ p.max_cap
    → p.wrap_a + 1 < word
    → (position (inc_by p n) ≡ position p + n) × IsValid (inc_by p n)
position-inc_by p n v h w =
    let s = inc_by-Advanced p n v h w in (position-Advanced s, Advanced-IsValid v h s)

-- A step by one is a single step: `inc` and `inc_by 1` agree.
pub inc-eq-inc_by : (p : Pointer) → inc p ≡ inc_by p 1
unfolding inc inc_by
inc-eq-inc_by p = ground arith

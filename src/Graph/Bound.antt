-- ===== src/Graph/Bound.antt =====
-- How many kernels are still to be met, as a bound for the walks of src/graphtools.cpp.
use native.Mathlib.Decide.{ℕ_discrete}
use raft_lib.Prelude.{
  ℕ, zero, suc, ◌+◌, ◌≤◌, ◌<◌, ◌≡◌, false, List, [], ◌∷◌, ◌++◌, contains, if◌then◌else◌, arith,
  refl, ◌||◌,
}

-- The number of the kernels below `n` that are not in `v`.
unfoldable pub missing : ℕ → List ℕ → ℕ
missing zero v = 0
missing (suc n) v = (if contains v n then 0 else 1) + missing n v

missing-beyond : (n : ℕ) (v : List ℕ) (x : ℕ) → n ≤ x → missing n (x ∷ v) ≡ missing n v
unfolding missing contains
missing-beyond zero v x h = refl
missing-beyond (suc n) v x h = ground (arith, missing-beyond n v x (omega arith))

-- A kernel that is met is no longer missing.
pub missing-cons :
    (n : ℕ) (v : List ℕ) (x : ℕ)
    → x < n
    → contains v x ≡ false
    → suc (missing n (x ∷ v)) ≡ missing n v
unfolding missing contains
missing-cons zero v x h c = absurd (omega arith)
missing-cons (suc n) v x h c = elim (ℕ_discrete x n) [
  | yes e ↦ ground (arith, e, c, missing-beyond n v x (omega (arith, e)))
  | no d ↦ ground (arith, d, missing-cons n v x (omega (arith, d)) c)
]

-- Lists without repetitions.
unfoldable pub IsUnique : List ℕ → Type 0
IsUnique [] = Unit
IsUnique (x ∷ l) = (contains l x ≡ false) × IsUnique l

pub contains-append : (l m : List ℕ) (x : ℕ) → contains (l ++ m) x ≡ (contains l x || contains m x)
unfolding contains
contains-append [] m x = refl
contains-append (y ∷ l) m x = ground (arith, contains-append l m x)

pub IsUnique-append :
    (l : List ℕ) (x : ℕ) → IsUnique l → contains l x ≡ false → IsUnique (l ++ x ∷ [])
unfolding IsUnique contains
IsUnique-append [] x u h = (refl, tt)
IsUnique-append (y ∷ l) x (a, u) h =
    (ground (arith, a, h, contains-append l (x ∷ []) y), IsUnique-append l x u (ground (arith, h)))

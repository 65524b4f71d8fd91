-- ===== src/Partition/Even.antt =====
-- How evenly src/partition_basic.cpp deals kernels to cores.
use native.Mathlib.Nat.{mod-eq_of_lt, mod-eq-sub-mod}
use native.Mathlib.Decide.{dec_lt}
use raft_lib.Partition.{Cores, set_core, deal, basic}
use raft_lib.Prelude.{
  ℕ, suc, ◌+◌, ◌%◌, ◌≤◌, ◌<◌, ◌≡◌, ◌⊎◌, false, List, [], ◌∷◌, some, ◌==◌, if◌then◌else◌, contains,
  update, arith, refl, inl, ◌∙◌, update_self, inr, update_ne, ◌-◌, Bool-cases, subst, ==_iff,
}

abbrev pub AreDifferent : List ℕ → Type 0
AreDifferent [] = Unit
AreDifferent (k ∷ ks) = (contains ks k ≡ false) × AreDifferent ks

-- How many of the kernels have the core.
abbrev pub load : ℕ → List ℕ → Cores → ℕ
load core [] cores = 0
load core (k ∷ ks) cores = if cores k == core then suc (load core ks cores) else load core ks cores

-- Core `a` comes before core `b` when they are dealt from core `i` on.
abbrev ComesBefore : ℕ → ℕ → ℕ → Type 0
ComesBefore i a b = ((i ≤ a) × (a < b)) ⊎ (((i ≤ a) × (b < i)) ⊎ ((a < b) × (b < i)))

-- A kernel that is not dealt to keeps its core.
deal-kept :
    (n i : ℕ) (ks : List ℕ) (cores : Cores) (k : ℕ)
    → contains ks k ≡ false
    → deal n i ks cores k ≡ cores k
unfolding deal contains set_core
deal-kept n i [] cores k h = refl
deal-kept n i (x ∷ ks) cores k h =
    deal-kept n ((i + 1) % n) ks (update cores x i) k (ground (arith, h))
    ∙ update_ne cores x i k (ground (arith, h))

next_core :
    (n i : ℕ) → i < n → (((i + 1) % n ≡ i + 1) × (i + 1 < n)) ⊎ (((i + 1) % n ≡ 0) × (i + 1 ≡ n))
next_core n i h = elim (dec_lt (i + 1) n) [
  | yes p ↦ inl (mod-eq_of_lt {n = i + 1} {m = n} p, p)
  | no p ↦ inr (
    omega (
      arith,
      mod-eq-sub-mod {n = i + 1} {m = n} (omega arith),
      mod-eq_of_lt {n = i + 1 - n} {m = n} (omega arith),
    ),
    omega arith,
  )
]

load-deal :
    (n i : ℕ) (ks : List ℕ) (cores : Cores) (a b : ℕ)
    → i < n
    → a < n
    → b < n
    → ComesBefore i a b
    → AreDifferent ks
    → (load b ks (deal n i ks cores) ≤ load a ks (deal n i ks cores))
      × (load a ks (deal n i ks cores) ≤ load b ks (deal n i ks cores) + 1)
unfolding deal
load-deal n i [] cores a b hi ha hb c d = (omega arith, omega arith)
load-deal n i (k ∷ ks) cores a b hi ha hb c d =
    let next = next_core n i hi in
    let rest = set_core k i cores in
    let first : deal n ((i + 1) % n) ks (set_core k i cores) k ≡ i =
      deal-kept n ((i + 1) % n) ks (update cores k i) k d.0 ∙ update_self cores k i in
    elim (Bool-cases (a == i)) [
      | inl e ↦
          let more =
            load-deal n ((i + 1) % n) ks (set_core k i cores) b a (ground (arith, next)) hb ha
              (ground (arith, next, c, e)) d.1 in
          ground (arith, first, more, c, e)
      | inr e ↦
          let more =
            load-deal n ((i + 1) % n) ks (set_core k i cores) a b (ground (arith, next)) ha hb
              (ground (arith, next, c, e)) d.1 in
          ground (arith, first, more, c, e)
    ]

-- Where the number of cores is known, partition_basic deals different kernels so that no core has more
-- than one kernel more than another.
pub basic-load :
    (num_cores : ℕ) (ks : List ℕ) (cores : Cores) (a b : ℕ)
    → a < num_cores
    → b < num_cores
    → AreDifferent ks
    → (dealt : Cores) × (basic num_cores ks cores ≡ some dealt)
      × (load a ks dealt ≤ load b ks dealt + 1)
unfolding basic
basic-load n [] cores a b ha hb d = (cores, refl, omega arith)
basic-load n (k ∷ ks) cores a b ha hb d =
    let dealt = deal n 0 (k ∷ ks) cores in
    (
      dealt,
      ground (arith, ha),
      elim (dec_lt a b) [
        | yes p ↦ (load-deal n 0 (k ∷ ks) cores a b (omega arith) ha hb (inl (omega arith, p)) d).1
        | no p ↦ elim (Bool-cases (a == b)) [
          | inl e ↦
              subst (λ x. load a (k ∷ ks) dealt ≤ load x (k ∷ ks) dealt + 1) ((==_iff a b).0 e)
                (omega arith)
          | inr e ↦
              let after : b < a = ground (arith, e, p) in
              omega (
                arith,
                (load-deal n 0 (k ∷ ks) cores b a (omega arith) hb ha (inl (omega arith, after))
                    d).0,
              )
        ]
      ],
    )

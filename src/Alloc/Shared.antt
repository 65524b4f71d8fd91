-- ===== src/Alloc/Shared.antt =====
-- `Allocate::allocate` and `stdalloc::run`.
use raft_lib.Prelude.{
  ℕ, ◌+◌, ◌<◌, ◌≡◌, ◌≢◌, Option, none, some, arith, List, [], ◌∷◌, Option-cases, inr, inl, subst,
  ◌⊎◌, if◌then◌else◌, ◌==◌, sym, ◌&&◌, refl, false, ap, ◌∙◌,
}
use raft_lib.Topology.{Failure, port_double_initialize}
use raft_lib.Alloc.{Slots, fifo_for, set_fifo, initialize, allocate, allocate_all}

-- The two ends of a link hold one queue.
abbrev pub Edge : Type 0
Edge = ℕ × ℕ × ℕ × ℕ

-- Each queue that an output port holds exists, and its records hold the queue of the input port behind
-- no other output port.
pub record IsOwned (s : Slots) : Type 0 where
  pub old_out : (k n f : ℕ) → (s.output k n).fifo ≡ some f → f < s.next_fifo
  pub old_in : (l m f : ℕ) → (s.input l m).fifo ≡ some f → f < s.next_fifo
  pub one_out :
      (k n k' n' f : ℕ)
      → (s.output k n).fifo ≡ some f
      → (s.output k' n').fifo ≡ some f
      → (k ≡ k') × (n ≡ n')
  pub one_in :
      (l m l' m' f : ℕ)
      → (s.input l m).fifo ≡ some f
      → (s.input l' m').fifo ≡ some f
      → (l ≡ l') × (m ≡ m')

module _ (k n l m : ℕ) (s : Slots) where
  -- The queue is made, whether it is used or not.
  abbrev spent : Slots
  spent = record s {
    made = λ f. if f == s.next_fifo then some (fifo_for (s.output k n)) else s.made f;
    next_fifo = s.next_fifo + 1;
  }

  abbrev given : Slots
  given = record spent {
    output = set_fifo k n s.next_fifo s.output;
    input = set_fifo l m s.next_fifo s.input;
    allocated_fifo = s.next_fifo ∷ s.allocated_fifo;
  }

  pub allocate-cases :
      (((s.output k n).fifo ≡ none)
        × ((s.input l m).fifo ≡ none)
        × (allocate k n l m s ≡ (none, given)))
      ⊎ (((s.output k n).fifo ≢ none ⊎ (s.input l m).fifo ≢ none)
          × (allocate k n l m s ≡ (some port_double_initialize, spent)))
  unfolding allocate initialize
  allocate-cases = elim (Option-cases (s.output k n).fifo) [
    | inr (x, o) ↦ inr (inl (ground (arith, o)), ground (arith, o))
    | inl o ↦ elim (Option-cases (s.input l m).fifo) [
      | inr (x, i) ↦ inr (inr (ground (arith, i)), ground (arith, o, i))
      | inl i ↦ inl (o, i, ground (arith, o, i))
    ]
  ]

  spent-IsOwned : IsOwned s → IsOwned spent
  spent-IsOwned v = record {
    old_out = λ a b f h. ground (arith, h, v.old_out a b f);
    old_in = λ a b f h. ground (arith, h, v.old_in a b f);
    one_out = v.one_out;
    one_in = v.one_in;
  }

  given-IsOwned : IsOwned s → IsOwned given
  unfolding set_fifo
  given-IsOwned v = record {
    old_out = λ a b f h. ground (arith, h, v.old_out a b f);
    old_in = λ a b f h. ground (arith, h, v.old_in a b f);
    one_out = λ a b c d f h g.
        ground (arith, h, g, v.old_out a b f, v.old_out c d f, v.one_out a b c d f);
    one_in =
        λ a b c d f h g. ground (arith, h, g, v.old_in a b f, v.old_in c d f, v.one_in a b c d f);
  }

  allocate-IsOwned : IsOwned s → IsOwned (allocate k n l m s).1
  allocate-IsOwned v = elim allocate-cases [
    | inl (_, _, e) ↦ subst (λ (t : Option Failure × Slots). IsOwned t.1) (sym e) (given-IsOwned v)
    | inr (_, e) ↦ subst (λ (t : Option Failure × Slots). IsOwned t.1) (sym e) (spent-IsOwned v)
  ]

-- What an allocation leaves of the queues that the ports hold.
record Keeps (s t : Slots) : Type 0 where
  out_kept : (k n f : ℕ) → (s.output k n).fifo ≡ some f → (t.output k n).fifo ≡ some f
  in_kept : (k n f : ℕ) → (s.input k n).fifo ≡ some f → (t.input k n).fifo ≡ some f

-- The two ends of a link hold one queue.
abbrev pub IsShared : Edge → Slots → Type 0
IsShared e s = (f : ℕ) × ((s.output e.0 e.1).fifo ≡ some f) × ((s.input e.2 e.3).fifo ≡ some f)

abbrev pub AllShared : List Edge → Slots → Type 0
AllShared [] s = Unit
AllShared (e ∷ edges) s = IsShared e s × AllShared edges s

given-Keeps :
    (k n l m : ℕ) (s : Slots)
    → (s.output k n).fifo ≡ none
    → (s.input l m).fifo ≡ none
    → Keeps s (given k n l m s)
unfolding set_fifo
given-Keeps k n l m s o i = record {
  out_kept = λ a b f h. ground (arith, h, o);
  in_kept = λ a b f h. ground (arith, h, i);
}

given-IsShared : (k n l m : ℕ) (s : Slots) → IsShared (k, n, l, m) (given k n l m s)
unfolding set_fifo
given-IsShared k n l m s = (s.next_fifo, ground arith, ground arith)

-- No later link has the output or the input of link `e`.
abbrev pub AreApart : Edge → List Edge → Type 0
AreApart e [] = Unit
AreApart e (d ∷ edges) =
    (((d.0 == e.0) && (d.1 == e.1)) ≡ false)
    × (((d.2 == e.2) && (d.3 == e.3)) ≡ false)
    × AreApart e edges

-- No port of the links holds a queue, and none is in two links.
abbrev pub AreFree : List Edge → Slots → Type 0
AreFree [] s = Unit
AreFree (e ∷ edges) s =
    ((s.output e.0 e.1).fifo ≡ none)
    × ((s.input e.2 e.3).fifo ≡ none)
    × AreApart e edges
    × AreFree edges s

given-AreFree :
    (e : Edge) (edges : List Edge) (s : Slots)
    → AreApart e edges
    → AreFree edges s
    → AreFree edges (given e.0 e.1 e.2 e.3 s)
unfolding set_fifo
given-AreFree e [] s a f = tt
given-AreFree e (d ∷ edges) s a f =
    (ground (arith, a.0, f.0), ground (arith, a.1, f.1), f.2, given-AreFree e edges s a.2 f.3)

-- What the allocation of links comes to.
record IsAllocated (edges : List Edge) (s t : Slots) : Type 0 where
  owned : IsOwned t
  kept : Keeps s t
  shared : AllShared edges t

IsAllocated-cons :
    (e : Edge) (edges : List Edge) (s t : Slots)
    → (s.output e.0 e.1).fifo ≡ none
    → (s.input e.2 e.3).fifo ≡ none
    → IsAllocated edges (given e.0 e.1 e.2 e.3 s) t
    → IsAllocated (e ∷ edges) s t
IsAllocated-cons e edges s t o i a =
    let k = given-Keeps e.0 e.1 e.2 e.3 s o i in
    let (f, p, q) = given-IsShared e.0 e.1 e.2 e.3 s in
    record {
      owned = a.owned;
      kept = record {
        out_kept = λ b c g h. a.kept.out_kept b c g (k.out_kept b c g h);
        in_kept = λ b c g h. a.kept.in_kept b c g (k.in_kept b c g h);
      };
      shared = ((f, a.kept.out_kept e.0 e.1 f p, a.kept.in_kept e.2 e.3 f q), a.shared);
    }

allocate_all_cons :
    (e : Edge) (edges : List Edge) (s t : Slots)
    → allocate e.0 e.1 e.2 e.3 s ≡ (none, given e.0 e.1 e.2 e.3 s)
    → allocate_all edges (given e.0 e.1 e.2 e.3 s) ≡ (none, t)
    → allocate_all (e ∷ edges) s ≡ (none, t)
unfolding allocate_all
allocate_all_cons e edges s t a h =
    ap
      (λ (r : Option Failure × Slots). elim r.0 as (λ _. Option Failure × Slots) [
        | some x ↦ (some x, r.1)
        | none ↦ allocate_all edges r.1
      ])
      a
    ∙ h

all-IsAllocated :
    (edges : List Edge) (s : Slots)
    → IsOwned s
    → AreFree edges s
    → (t : Slots) × (allocate_all edges s ≡ (none, t)) × IsAllocated edges s t
unfolding allocate_all
all-IsAllocated [] s v f = (
  s,
  refl,
  record {
    owned = v;
    kept = record { out_kept = λ k n f h. h; in_kept = λ k n f h. h };
    shared = tt;
  },
)
all-IsAllocated (e ∷ edges) s v f = elim (allocate-cases e.0 e.1 e.2 e.3 s) [
  | inr (inl n, _) ↦ absurd (n f.0)
  | inr (inr n, _) ↦ absurd (n f.1)
  | inl (o, i, h) ↦
      let (t, g, a) =
        all-IsAllocated edges (given e.0 e.1 e.2 e.3 s) (given-IsOwned e.0 e.1 e.2 e.3 s v)
          (given-AreFree e edges s f.2 f.3) in
      (t, allocate_all_cons e edges s t h g, IsAllocated-cons e edges s t o i a)
]

-- Where no port of the links holds a queue and none is in two links, `stdalloc::run` throws nothing:
-- the two ends of each link hold the same queue, and no two output ports and no two input ports hold
-- one queue.
pub allocate_all-AllShared :
    (edges : List Edge) (s : Slots)
    → IsOwned s
    → AreFree edges s
    → (t : Slots) × (allocate_all edges s ≡ (none, t)) × IsOwned t × AllShared edges t
allocate_all-AllShared edges s v f =
    let (t, h, a) = all-IsAllocated edges s v f in (t, h, a.owned, a.shared)

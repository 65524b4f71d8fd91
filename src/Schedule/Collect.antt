-- ===== src/Schedule/Collect.antt =====
-- `Schedule::fifo_gc` of src/schedule.cpp: what it frees, and when it runs off the set.
use raft_lib.Prelude.{
  contains, ℕ, true, false, List, [], ◌∷◌, if◌then◌else◌, none, some, ◌≡◌, ◌<◌, ap, arith, ◌∙◌,
  refl, sym, Bool-cases, inl, inr, subst,
}
use native.Mathlib.Decide.{ℕ_discrete}
use raft_lib.Schedule.{PtrSets, no_ptrs, free_unsent, fifo_gc, consed}

-- All members are greater.
unfoldable pub Above : ℕ → List ℕ → Type 0
Above x [] = Unit
Above x (y ∷ l) = (x < y) × Above x l

-- A set as the library keeps it: ascending.
unfoldable pub IsSorted : List ℕ → Type 0
unfolding Above
IsSorted [] = Unit
IsSorted (x ∷ l) = Above x l × IsSorted l

-- The members of `l` that are not in `out`.
unfoldable pub without : List ℕ → List ℕ → List ℕ
without out [] = []
without out (x ∷ l) = let rest = without out l in if contains out x then rest else x ∷ rest

Above-contains : (x y : ℕ) (l : List ℕ) → Above x l → contains l y ≡ true → x < y
unfolding contains Above
Above-contains x y [] a h = absurd (ground arith)
Above-contains x y (z ∷ l) (a, b) h = elim (ℕ_discrete y z) [
  | yes e ↦ omega (arith, a, e)
  | no n ↦ Above-contains x y l b (ground (arith, n, h))
]

Above-apart : (x : ℕ) (l : List ℕ) → Above x l → contains l x ≡ false
Above-apart x l a = elim (Bool-cases (contains l x)) [
  | inl h ↦ absurd (omega (arith, Above-contains x x l a h))
  | inr h ↦ h
]

-- Leaving out a pointer that is not there.
without-skip : (o : ℕ) (out l : List ℕ) → contains l o ≡ false → without (o ∷ out) l ≡ without out l
unfolding contains without
without-skip o out [] h = refl
without-skip o out (x ∷ l) h = ground (arith, without-skip o out l (ground arith))

without-nil : (l : List ℕ) → without [] l ≡ l
unfolding contains without
without-nil [] = refl
without-nil (x ∷ l) = ap (λ t. x ∷ t) (without-nil l)

free_unsent-rest : (taken : List ℕ) → free_unsent taken [] ≡ some taken
unfolding free_unsent
free_unsent-rest [] = refl
free_unsent-rest (p ∷ taken) = ap (consed p) (free_unsent-rest taken)

-- What is known of the members of a tail, when the heads are the same or the first is passed on later.
tail_in :
    (p o : ℕ) (taken out : List ℕ)
    → ((x : ℕ) → contains (o ∷ out) x ≡ true → contains (p ∷ taken) x ≡ true)
    → Above o out
    → o ≡ p
    → (x : ℕ) → contains out x ≡ true
    → contains taken x ≡ true
unfolding contains
tail_in p o taken out h a e x c =
    let more = Above-contains o x out a c in ground (arith, h x, more, e, c)

not_in : (p o : ℕ) (out : List ℕ) → Above o out → p < o → contains (o ∷ out) p ≡ false
unfolding contains
not_in p o out b h = elim (Bool-cases (contains out p)) [
  | inl c ↦ absurd (omega (arith, Above-contains o p out b c))
  | inr c ↦ ground (arith, c)
]

free_unsent-without :
    (taken out : List ℕ)
    → IsSorted taken
    → IsSorted out
    → ((x : ℕ) → contains out x ≡ true → contains taken x ≡ true)
    → free_unsent taken out ≡ some (without out taken)
unfolding free_unsent without contains IsSorted
free_unsent-without taken [] s t h = free_unsent-rest taken ∙ ap some (sym (without-nil taken))
free_unsent-without [] (o ∷ out) s t h = absurd (ground (arith, h o))
free_unsent-without (p ∷ taken) (o ∷ out) (a, s) (b, t) h = elim (ℕ_discrete o p) [
  | yes e ↦
      let apart = Above-apart o taken (subst (λ t. Above t taken) (sym e) a) in
      let rest = free_unsent-without taken out s t (tail_in p o taken out h b e) in
      ground (arith, e, rest, without-skip o out taken apart)
  | no n ↦
      let held : contains taken o ≡ true = ground (arith, h o, n) in
      let below = Above-contains p o taken a held in
      let apart : contains (o ∷ out) p ≡ false = not_in p o out b below in
      let rest =
        free_unsent-without taken (o ∷ out) s (b, t) (λ x c. ground (arith, h x, apart, c)) in
      ground (arith, n, rest, apart)
]

-- A pointer passed on that was not taken is never met.
free_unsent-overrun :
    (taken out : List ℕ) (x : ℕ)
    → contains out x ≡ true
    → contains taken x ≡ false
    → free_unsent taken out ≡ none
unfolding free_unsent contains
free_unsent-overrun taken [] x h n = absurd (ground arith)
free_unsent-overrun [] (o ∷ out) x h n = refl
free_unsent-overrun (p ∷ taken) (o ∷ out) x h n = elim (ℕ_discrete o p) [
  | yes e ↦ ground (arith, e, free_unsent-overrun taken out x (ground (arith, e)) (ground arith))
  | no d ↦ ground (arith, d, free_unsent-overrun taken (o ∷ out) x h (ground arith))
]

-- With both sets ascending, and where all that was passed on was taken in, `fifo_gc` frees exactly the
-- pointers taken in that were not passed on, in order, and leaves the sets empty.
pub fifo_gc-frees :
    (s : PtrSets)
    → IsSorted s.taken
    → IsSorted s.out
    → ((x : ℕ) → contains s.out x ≡ true → contains s.taken x ≡ true)
    → fifo_gc s ≡ some (without s.out s.taken, no_ptrs)
unfolding fifo_gc
fifo_gc-frees s a b h =
    ap (λ o. elim o [ none ↦ none | some freed ↦ some (freed, no_ptrs) ])
      (free_unsent-without s.taken s.out a b h)

-- Where a pointer was passed on that was not taken in, `fifo_gc` reads the set behind its end.
pub fifo_gc-overrun :
    (s : PtrSets) (x : ℕ) → contains s.out x ≡ true → contains s.taken x ≡ false → fifo_gc s ≡ none
unfolding fifo_gc
fifo_gc-overrun s x h n =
    ap (λ o. elim o [ none ↦ none | some freed ↦ some (freed, no_ptrs) ])
      (free_unsent-overrun s.taken s.out x h n)

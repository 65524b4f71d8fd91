-- ===== src/Schedule/Ended.antt =====
-- The loop of start of src/simpleschedule.cpp, which joins the threads of the kernels.
use raft_lib.Schedule.Rounds.{ThreadInfo, poll, start}
use raft_lib.Prelude.{
  ◌≡◌, Bool, true, false, not, ◌&&◌, ◌||◌, List, [], ◌∷◌, ◌++◌, some, if◌then◌else◌, arith, refl,
  ap, Bool-cases, ◌⊎◌, inr, inl, ◌∙◌,
}

abbrev pub all_done : List ThreadInfo → Bool
all_done [] = true
all_done (t ∷ ts) = (t.term || t.finished) && all_done ts

abbrev pub all_joined : List ThreadInfo → Bool
all_joined [] = true
all_joined (t ∷ ts) = t.term && all_joined ts

poll-all_done :
    (ts : List ThreadInfo)
    → ((poll ts).0 ≡ not (all_done ts)) × ((all_done ts ≡ false) ⊎ (all_joined (poll ts).1 ≡ true))
unfolding poll
poll-all_done [] = (refl, inr refl)
poll-all_done (t ∷ ts) = ground (arith, poll-all_done ts)

-- Where threads finish and kernels are added in any way between the passes, and before some pass all
-- threads have finished, start returns, and it has joined every thread of the list that it leaves.
pub start-all_joined :
    (changes : List (List ThreadInfo → List ThreadInfo)) (last : List ThreadInfo → List ThreadInfo)
    (ts : List ThreadInfo)
    → ((us : List ThreadInfo) → all_done (last us) ≡ true)
    → (us : List ThreadInfo) × (start (changes ++ last ∷ []) ts ≡ some us) × (all_joined us ≡ true)
unfolding start
start-all_joined [] last ts h = (
  (poll (last ts)).1,
  ground (arith, poll-all_done (last ts), h ts),
  ground (arith, poll-all_done (last ts), h ts),
)
start-all_joined (c ∷ changes) last ts h = elim (Bool-cases (poll (c ts)).0) [
  | inl t ↦
      let (us, e, j) = start-all_joined changes last (poll (c ts)).1 h in
      (
        us,
        ap (λ b. if b then start (changes ++ last ∷ []) (poll (c ts)).1 else some (poll (c ts)).1) t
            ∙ e,
        j,
      )
  | inr f ↦ (
    (poll (c ts)).1,
    ap (λ b. if b then start (changes ++ last ∷ []) (poll (c ts)).1 else some (poll (c ts)).1) f,
    ground (arith, f, poll-all_done (c ts)),
  )
]

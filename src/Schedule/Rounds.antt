-- ===== src/Schedule/Rounds.antt =====
-- The loop of start of src/simpleschedule.cpp, which polls the threads of the kernels.
use raft_lib.Prelude.{Bool, true, false, List, [], ◌∷◌, Option, none, some, if◌then◌else◌}

-- `thread_info_t`
pub record ThreadInfo : Type 0 where
  pub finished : Bool
  pub term : Bool

-- One pass of start over the threads: `keep_going`, and the threads with those that it joined.
unfoldable pub poll : List ThreadInfo → Bool × List ThreadInfo
poll [] = (false, [])
poll (t ∷ ts) =
    let rest = poll ts in
    if t.term
    then (rest.0, t ∷ rest.1)
    else if t.finished
    then (rest.0, record t { term = true } ∷ rest.1)
    else (true, t ∷ rest.1)

-- The loop of start: what happens between two passes, where threads finish and kernels are added, and
-- the pass; `none` where it goes on after all of them.
unfoldable pub start :
    List (List ThreadInfo → List ThreadInfo) → List ThreadInfo → Option (List ThreadInfo)
unfolding poll
start [] ts = none
start (meanwhile ∷ more) ts =
    let (keep_going, us) = poll (meanwhile ts) in
    let rest = start more us in if keep_going then rest else some us

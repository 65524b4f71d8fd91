-- ===== src/Fifo/Queue.antt =====
-- The abstract queue that raftinc/fifo.hpp promises: at most `cap` items, each with its signal,
-- oldest first. `live` tells whether the writer may still send.
use raft_lib.Prelude.{
  ℕ, Bool, true, false, List, [], ◌∷◌, ◌++◌, ltb, if◌then◌else◌, length, ◌≤◌, ◌<◌, ◌≡◌, lt→ltb,
  le→ltb,
}
use raft_lib.Fifo.{Outcome, done, retry, closed}

module _ {ℓ} {A : Type ℓ} where
  unfoldable pub push : ℕ → List A → A → Outcome (Unit {0}) × List A
  push cap q x = if ltb (length q) cap then (done tt, q ++ x ∷ []) else (retry, q)

  unfoldable pub pop : Bool → List A → Outcome A × List A
  pop live [] = ((if live then retry else closed), [])
  pop live (x ∷ q) = (done x, q)

  unfoldable pub peek : Bool → List A → Outcome A
  peek live [] = if live then retry else closed
  peek live (x ∷ q) = done x

  unfoldable pub recycle : Bool → List A → Outcome Bool × List A
  recycle live [] = ((if live then retry else done false), [])
  recycle live (x ∷ q) = (done true, q)

  pub push-room :
      (cap : ℕ) (q : List A) (x : A) → length q < cap → push cap q x ≡ (done tt, q ++ x ∷ [])
  unfolding push
  push-room cap q x h = rw (lt→ltb _ _ h)

  pub push-full : (cap : ℕ) (q : List A) (x : A) → cap ≤ length q → push cap q x ≡ (retry, q)
  unfolding push
  push-full cap q x h = rw (le→ltb _ _ h)

-- ===== src/Each.antt =====
-- raftinc/readeach.tcc and raftinc/writeeach.tcc, joined by one queue: a program that copies a range. The
-- queue is the abstract one that Fifo/Run relates to the heap queue, of `capacity` items; a call that
-- blocks is one attempt.
pub mod Copied
mod Tests
use raft_lib.Prelude.{ℕ, Bool, true, false, List, [], ◌∷◌, ◌++◌, ltb, if◌then◌else◌, length}

-- The two kernels and the queue. `it` and `first` are what is left from the loop's iterator and from the
-- member `begin` to the end of the range; `written` is what the inserter took; `stopped` is the answer
-- raft::stop.
pub record State {ℓ} (A : Type ℓ) : Type ℓ where
  pub it : List A
  pub first : List A
  pub queue : List A
  pub capacity : ℕ
  pub written : List A
  pub stopped : Bool

-- Whose turn it is.
pub data Kernel : Type 0 where
  read_each write_each : Kernel

module _ {ℓ} {A : Type ℓ} where
  -- `run` of readeach: a round of its loop, whose last part is the destructor of `val`, which sends it. The
  -- begin of the range is not read at its end.
  unfoldable pub read_at : List A → List A → State A → State A
  read_at [] first s = record s { stopped = true }
  read_at (_ ∷ it) [] s = s
  read_at (_ ∷ it) (val ∷ first) s =
      if ltb (length s.queue) s.capacity
      then record s { it = it; first = first; queue = s.queue ++ val ∷ [] }
      else s

  -- The loop over what the port has, with `recycle` behind it.
  unfoldable pub insert_all : List A → List A → List A
  insert_all [] written = written
  insert_all (ele ∷ alldata) written = insert_all alldata (written ++ ele ∷ [])

  -- `run` of writeeach for its port.
  unfoldable pub write_run : State A → State A
  unfolding insert_all
  write_run s = record s { written = insert_all s.queue s.written; queue = [] }

  unfoldable pub step : Kernel → State A → State A
  unfolding read_at write_run
  step read_each s = read_at s.it s.first s
  step write_each s = write_run s

  unfoldable pub schedule : List Kernel → State A → State A
  unfolding step
  schedule [] s = s
  schedule (k ∷ ks) s = schedule ks (step k s)

  -- `read_each( begin, end ) >> write_each( inserter )`
  abbrev pub program : ℕ → List A → State A
  program capacity range = record {
    it = range;
    first = range;
    queue = [];
    capacity = capacity;
    written = [];
    stopped = false;
  }

-- ===== src/Handshake.antt =====
-- How the two threads at a queue, a third that asks for its size, and the resizing thread keep out of
-- each other's way: enterBuffer, notResizing, exitBuffer and resize of raftinc/datamanager.tcc. Each
-- load of `thread_access`, of `resizing` and of a thread's flags is a step of its own, and so is each
-- store, but for two: `copyFrom` copies the flags of both threads in one step, and `set` replaces the
-- buffer and `thread_access` in one. The pointers that `buffercondition` compares are not in the state:
-- its answer is an input.
pub mod Exclusion
pub mod Race
mod Tests
use raft_lib.Prelude.{Bool, true, false, not, ◌&&◌, ◌||◌, List, [], ◌∷◌, if◌then◌else◌}

-- Where a thread stands in a call: `entering` is after `enterBuffer` has loaded `thread_access` and
-- before it stores the flag, `inside` is after `notResizing` said yes, `leaving` after it said no, and
-- `exiting` is between the load and the store of `exitBuffer`.
pub data Phase : Type 0 where
  outside entering entered inside leaving exiting : Phase

-- A thread with its flag in the current buffer and in the one that replaces it; `stale` tells whether
-- the pointer that it loaded is that of a buffer which was replaced since. The thread that asks for the
-- size has its flag in the `DataManager`, where no copy is made; it loads the pointer all the same.
pub record Client : Type 0 where
  pub phase : Phase
  pub stale : Bool
  pub flag : Bool
  pub next_flag : Bool

-- Where the resizing thread stands: `announced` is after `resizing = true`, `withdrawing` before
-- `resizing = false` at a flag that is set; then the three parts of `allclear`, `buffercondition`, the copy of the items, that of the flags, `set`.
-- The check at the loop's head, which gives the resize up at the end of the program, is left out.
pub data Resizer : Type 0 where
  idle announced withdrawing writer_clear reader_clear sizer_clear copying flags_copied swapped :
      Resizer

pub record State : Type 0 where
  pub writer : Client
  pub reader : Client
  pub sizer : Client
  pub resizer : Resizer
  pub resizing : Bool

-- The next access of a thread. What is stored by a pointer that is stale goes to the buffer that was
-- deleted.
unfoldable pub advance : Bool → Client → Client
advance resizing c = elim c.phase [
  | outside ↦ record c { phase = entering; stale = false }
  | entering ↦ record c { phase = entered; flag = if c.stale then c.flag else true }
  | entered ↦ record c { phase = if resizing then leaving else inside }
  | inside ↦ record c { phase = exiting; stale = false }
  | leaving ↦ record c { phase = exiting; stale = false }
  | exiting ↦ record c { phase = outside; flag = if c.stale then c.flag else false }
]

-- What `copyFrom` does to the flags, and `set`, after which a pointer loaded before is stale.
abbrev pub copy_flag : Client → Client
copy_flag c = record c { next_flag = c.flag }

abbrev pub swap_flag : Client → Client
swap_flag c = record c { flag = c.next_flag; stale = true }

-- Back to the loop's head.
abbrev pub retreat : State → State
retreat s = record s { resizer = idle; resizing = false }

abbrev pub withdraw : State → State
withdraw s = record s { resizer = withdrawing }

-- The next access of the resizing thread, `condition` being the answer of `buffercondition`.
unfoldable pub resizer_step : Bool → State → State
resizer_step condition s = elim s.resizer [
  | idle ↦ record s { resizer = announced; resizing = true }
  | announced ↦ if s.writer.flag then withdraw s else record s { resizer = writer_clear }
  | withdrawing ↦ retreat s
  | writer_clear ↦ if s.reader.flag then withdraw s else record s { resizer = reader_clear }
  | reader_clear ↦ if s.sizer.flag then withdraw s else record s { resizer = sizer_clear }
  | sizer_clear ↦ if condition then record s { resizer = copying } else withdraw s
  | copying ↦ record s {
    resizer = flags_copied;
    writer = copy_flag s.writer;
    reader = copy_flag s.reader;
  }
  | flags_copied ↦ record s {
    resizer = swapped;
    writer = swap_flag s.writer;
    reader = swap_flag s.reader;
  }
  | swapped ↦ retreat s
]

-- Whose turn it is.
pub data Turn : Type 0 where
  write read measure : Turn
  replace : Bool → Turn

unfoldable pub step : Turn → State → State
unfolding advance resizer_step
step write s = record s { writer = advance s.resizing s.writer }
step read s = record s { reader = advance s.resizing s.reader }
step measure s = record s { sizer = advance s.resizing s.sizer }
step (replace condition) s = resizer_step condition s

unfoldable pub run : List Turn → State → State
run [] s = s
run (t ∷ ts) s = run ts (step t s)

abbrev pub resting : Client
resting = record { phase = outside; stale = false; flag = false; next_flag = false }

abbrev pub start : State
start = record {
  writer = resting;
  reader = resting;
  sizer = resting;
  resizer = idle;
  resizing = false;
}

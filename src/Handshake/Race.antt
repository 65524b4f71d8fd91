-- ===== src/Handshake/Race.antt =====
-- The copy of the flags in raftinc/bufferdata.tcc and a thread that enters after it.
use raft_lib.Handshake.{State, flags_copied, Turn, write, replace, run, step}
use raft_lib.Handshake.Exclusion.{at_work, is_inside, is_outside}
use raft_lib.Prelude.{true, false, List, [], ◌∷◌, ◌≡◌, arith}

-- The writer loads and stores, the new buffer is put in place, the writer goes inside, and the next resize does
-- not see it.
abbrev pub late_entry : List Turn
late_entry =
    write
    ∷ write
    ∷ replace true
    ∷ replace true
    ∷ write
    ∷ replace true
    ∷ replace true
    ∷ replace true
    ∷ replace true
    ∷ replace true
    ∷ []

-- A thread that nobody waits for.
pub record IsAway (s : State) : Type 0 where
  pub copied : s.resizer ≡ flags_copied
  pub writer_out : is_outside s.writer.phase ≡ true
  pub writer_flag : s.writer.next_flag ≡ false
  pub reader_flag : s.reader.next_flag ≡ false
  pub sizer_flag : s.sizer.flag ≡ false

-- From a state between the copy of the flags and the change to the new buffer, with every thread
-- outside at the copy, there is a schedule after which the resizing thread works on the buffers while
-- the writer is inside: a writer that enters between the two is not seen by the next resize.
pub late_entry-inside :
    (s : State)
    → IsAway s
    → (ts : List Turn) × (at_work (run ts s).resizer ≡ true)
      × (is_inside (run ts s).writer.phase ≡ true)
unfolding run step
late_entry-inside s a = (late_entry, ground (arith, a), ground (arith, a))

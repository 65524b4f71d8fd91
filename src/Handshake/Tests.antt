-- ===== src/Handshake/Tests.antt =====
-- Short schedules of the four threads.
use raft_lib.Handshake.{State, start, run, step, write, read, replace, Turn, Resizer}
use raft_lib.Handshake.Exclusion.{all_calm, run-exclusive, start-IsValid, is_inside, at_work}
use raft_lib.Handshake.Race.{late_entry-inside}
use raft_lib.Prelude.{true, false, List, [], ◌∷◌, ◌≡◌, refl}

-- The writer is turned away while the buffer is replaced.
abbrev turned_away : List Turn
turned_away =
    replace true
    ∷ replace true
    ∷ replace true
    ∷ replace true
    ∷ replace true
    ∷ write
    ∷ write
    ∷ write
    ∷ read
    ∷ []

run-exclusive_example :
    (is_inside (run turned_away start).writer.phase ≡ false)
    × (is_inside (run turned_away start).reader.phase ≡ false)
    × (is_inside (run turned_away start).sizer.phase ≡ false)
unfolding run step all_calm
run-exclusive_example = run-exclusive turned_away start start-IsValid refl refl

abbrev copied_flags : State
copied_flags = record start { resizer = Resizer.flags_copied; resizing = true }

late_entry-inside_example :
    (ts : List Turn) × (at_work (run ts copied_flags).resizer ≡ true)
    × (is_inside (run ts copied_flags).writer.phase ≡ true)
late_entry-inside_example = late_entry-inside copied_flags (record {
  copied = refl;
  writer_out = refl;
  writer_flag = refl;
  reader_flag = refl;
  sizer_flag = refl;
})

-- The writer loads the pointer, the buffer is replaced, and the writer stores its flag in the old one.
abbrev stale_entry : List Turn
stale_entry =
    write
    ∷ replace true
    ∷ replace true
    ∷ replace true
    ∷ replace true
    ∷ replace true
    ∷ replace true
    ∷ replace true
    ∷ write
    ∷ replace true
    ∷ write
    ∷ replace true
    ∷ replace true
    ∷ replace true
    ∷ replace true
    ∷ replace true
    ∷ []

stale_test :
    (at_work (run stale_entry start).resizer ≡ true)
    × (is_inside (run stale_entry start).writer.phase ≡ true)
unfolding run step
stale_test = (refl, refl)

-- ===== src/Handshake/Exclusion.antt =====
-- Mutual exclusion of the resizing thread of raftinc/datamanager.tcc and the threads at the queue.
use raft_lib.Handshake.{
  Phase, outside, entering, inside, exiting, Client, Resizer, idle, announced, withdrawing,
  sizer_clear, writer_clear, reader_clear, copying, flags_copied, swapped, State, Turn,
  resizer_step, advance, copy_flag, swap_flag, write, read, measure, replace, step, start, run,
}
use raft_lib.Prelude.{
  Bool, true, false, not, ◌≡◌, ◌⊎◌, arith, ◌||◌, List, ◌∷◌, inl, refl, ◌&&◌, [], subst, sym,
}

abbrev pub is_idle : Resizer → Bool
is_idle r = elim r [ idle ↦ true | _ ↦ false ]

-- Past the writer's flag, past the reader's, past that of the third thread, and at work on the buffers.
abbrev pub past_writer : Resizer → Bool
past_writer r = elim r [ idle ↦ false | announced ↦ false | withdrawing ↦ false | _ ↦ true ]

abbrev pub past_reader : Resizer → Bool
past_reader r = past_writer r && elim r [ writer_clear ↦ false | _ ↦ true ]

abbrev pub past_sizer : Resizer → Bool
past_sizer r = past_reader r && elim r [ reader_clear ↦ false | _ ↦ true ]

abbrev pub at_work : Resizer → Bool
at_work r = elim r [ copying ↦ true | flags_copied ↦ true | swapped ↦ true | _ ↦ false ]

abbrev pub between : Resizer → Bool
between r = elim r [ flags_copied ↦ true | _ ↦ false ]

abbrev pub is_inside : Phase → Bool
is_inside p = elim p [ inside ↦ true | _ ↦ false ]

abbrev pub is_outside : Phase → Bool
is_outside p = elim p [ outside ↦ true | _ ↦ false ]

abbrev pub is_entering : Phase → Bool
is_entering p = elim p [ entering ↦ true | _ ↦ false ]

-- The thread is before the store of its flag, or about to clear it.
abbrev pub is_unseen : Phase → Bool
is_unseen p = elim p [ outside ↦ true | entering ↦ true | exiting ↦ true | _ ↦ false ]

-- A thread that is past the store of its flag, and is not about to clear it, has it set; a thread before
-- that store has no stale pointer; and a thread is not inside where it was seen to have no flag.
pub record IsGuarded (past copied : Bool) (c : Client) : Type 0 where
  pub flagged : (is_unseen c.phase ≡ true) ⊎ (c.flag ≡ true)
  pub kept : (copied ≡ false) ⊎ ((is_unseen c.phase ≡ true) ⊎ (c.next_flag ≡ true))
  pub current : (is_entering c.phase ≡ false) ⊎ (c.stale ≡ false)
  pub kept_out : (past ≡ false) ⊎ (is_inside c.phase ≡ false)

pub record IsValid (s : State) : Type 0 where
  pub announced : s.resizing ≡ not (is_idle s.resizer)
  pub writer : IsGuarded (past_writer s.resizer) (between s.resizer) s.writer
  pub reader : IsGuarded (past_reader s.resizer) (between s.resizer) s.reader
  pub sizer : IsGuarded (past_sizer s.resizer) false s.sizer

-- The turn is not one in which the writer or the reader stores its flag between the copy of the flags
-- and the change to the new buffer, nor is it that change with one of them between its load of
-- `thread_access` and its store.
unfoldable pub calm : Turn → State → Bool
calm write s = not (between s.resizer) || not (is_entering s.writer.phase)
calm read s = not (between s.resizer) || not (is_entering s.reader.phase)
calm measure s = true
calm (replace condition) s =
    not (between s.resizer) || not (is_entering s.writer.phase) && not (is_entering s.reader.phase)

advance-IsGuarded :
    (resizing past copied : Bool) (c : Client)
    → (past ≡ false) ⊎ (resizing ≡ true)
    → (copied ≡ false) ⊎ (is_entering c.phase ≡ false)
    → IsGuarded past copied c
    → IsGuarded past copied (advance resizing c)
unfolding advance
advance-IsGuarded resizing past copied c p e g = ground (arith, p, e, g)

-- A thread whose flag is clear is not inside.
past-IsGuarded :
    (past copied : Bool) (c : Client)
    → c.flag ≡ false
    → IsGuarded false copied c
    → IsGuarded past copied c
past-IsGuarded past copied c n g = ground (arith, n, g)

copy-IsGuarded :
    (past copied : Bool) (c : Client) → IsGuarded past false c → IsGuarded past copied (copy_flag c)
copy-IsGuarded past copied c g = ground (arith, g)

swap-IsGuarded :
    (past : Bool) (c : Client)
    → is_entering c.phase ≡ false
    → IsGuarded past true c
    → IsGuarded past false (swap_flag c)
swap-IsGuarded past c e g = ground (arith, e, g)

module _ (condition : Bool) (w r z : Client) where
  -- A state whose announcement is right.
  abbrev at : Resizer → State
  at x = record { writer = w; reader = r; sizer = z; resizer = x; resizing = not (is_idle x) }

  replace-IsValid :
      (x : Resizer)
      → calm (replace condition) (at x) ≡ true
      → IsValid (at x)
      → IsValid (resizer_step condition (at x))
  unfolding calm resizer_step
  replace-IsValid idle c v = ground (arith, v)
  replace-IsValid announced c v = ground (arith, v, past-IsGuarded true false w)
  replace-IsValid withdrawing c v = ground (arith, v)
  replace-IsValid writer_clear c v = ground (arith, v, past-IsGuarded true false r)
  replace-IsValid reader_clear c v = ground (arith, v, past-IsGuarded true false z)
  replace-IsValid sizer_clear c v = ground (arith, v)
  replace-IsValid copying c v = record {
    announced = refl;
    writer = copy-IsGuarded true true w v.writer;
    reader = copy-IsGuarded true true r v.reader;
    sizer = v.sizer;
  }
  replace-IsValid flags_copied c v = record {
    announced = refl;
    writer = swap-IsGuarded true w (ground (arith, c)) v.writer;
    reader = swap-IsGuarded true r (ground (arith, c)) v.reader;
    sizer = v.sizer;
  }
  replace-IsValid swapped c v = ground (arith, v)

step-IsValid : (t : Turn) (s : State) → calm t s ≡ true → IsValid s → IsValid (step t s)
unfolding step calm
step-IsValid write s c v = record {
  announced = v.announced;
  writer =
      advance-IsGuarded s.resizing (past_writer s.resizer) (between s.resizer) s.writer
        (ground (arith, v.announced)) (ground (arith, c)) v.writer;
  reader = v.reader;
  sizer = v.sizer;
}
step-IsValid read s c v = record {
  announced = v.announced;
  writer = v.writer;
  reader =
      advance-IsGuarded s.resizing (past_reader s.resizer) (between s.resizer) s.reader
        (ground (arith, v.announced)) (ground (arith, c)) v.reader;
  sizer = v.sizer;
}
step-IsValid measure s c v = record {
  announced = v.announced;
  writer = v.writer;
  reader = v.reader;
  sizer =
      advance-IsGuarded s.resizing (past_sizer s.resizer) false s.sizer
        (ground (arith, v.announced)) (inl refl) v.sizer;
}
step-IsValid (replace condition) s c v =
    subst (λ b. IsValid (resizer_step condition (record s { resizing = b }))) (sym v.announced)
      (replace-IsValid condition s.writer s.reader s.sizer s.resizer c
        (record { announced = refl; writer = v.writer; reader = v.reader; sizer = v.sizer }))

unfoldable pub all_calm : List Turn → State → Bool
unfolding calm
all_calm [] s = true
all_calm (t ∷ ts) s = calm t s && all_calm ts (step t s)

pub run-IsValid :
    (ts : List Turn) (s : State) → IsValid s → all_calm ts s ≡ true → IsValid (run ts s)
unfolding run all_calm
run-IsValid [] s v c = v
run-IsValid (t ∷ ts) s v c =
    run-IsValid ts (step t s) (step-IsValid t s (ground (arith, c)) v) (ground (arith, c))

-- From a state that satisfies the invariant, after any schedule in which neither the writer nor the
-- reader, when it enters, stores its flag between the copy of the flags and the change to the new
-- buffer, and neither is between its load of `thread_access` and that store at the change: while the
-- resizing thread works on the buffers, no thread is inside.
pub run-exclusive :
    (ts : List Turn) (s : State)
    → IsValid s
    → all_calm ts s ≡ true
    → at_work (run ts s).resizer ≡ true
    → (is_inside (run ts s).writer.phase ≡ false)
      × (is_inside (run ts s).reader.phase ≡ false)
      × (is_inside (run ts s).sizer.phase ≡ false)
run-exclusive ts s v c w =
    let u = run-IsValid ts s v c in ground (arith, w, u.writer, u.reader, u.sizer)

pub start-IsValid : IsValid start
start-IsValid = record {
  announced = refl;
  writer = record { flagged = inl refl; kept = inl refl; current = inl refl; kept_out = inl refl };
  reader = record { flagged = inl refl; kept = inl refl; current = inl refl; kept_out = inl refl };
  sizer = record { flagged = inl refl; kept = inl refl; current = inl refl; kept_out = inl refl };
}

-- ===== src/Fifo/Tests.antt =====
-- Small queues on which the theorems about the heap queue are run.
use raft_lib.Prelude.{
  get_elem?, ◌<◌, ◌≤◌, ℕ, ◌≡◌, ◌+◌, ◌∷◌, [], refl, some, none, true, false, arith,
}
use raft_lib.Access.{allclear}
use raft_lib.Buffer.{fresh}
use raft_lib.Fifo.{Fifo, Outcome, done, make, resize, overrun}
use raft_lib.Fifo.Contents.{spot}
use raft_lib.Fifo.Invariant.{IsValid, Agrees, Keeps}
use raft_lib.Fifo.Queue
use raft_lib.Fifo.Run
use raft_lib.Fifo.Write.{local_push}
use raft_lib.Fifo.Read.{local_pop, peek_range, Window, at}
use raft_lib.Fifo.Push.{local_push-refines}
use raft_lib.Fifo.Pop.{local_pop-refines}
use raft_lib.Fifo.Run.{
  Call, Reply, run, run_refines, push, pop, peek, recycle, close, pushed, popped,
}
use raft_lib.Fifo.Resize.{
  Ready, Resized, larger, resize-contents, resize-overrun, resize-signal_lost,
}
use raft_lib.Fifo.Peeked.{peek_range-contents}

-- Three cells of which the last two are used, the writer being one lap ahead.
abbrev two_items : Fifo ℕ
two_items = make (record (fresh (λ i. i + 10) 16 3) {
  signal = λ i. i;
  read_pt = record { a = 1; wrap_a = 0; max_cap = 3 };
  write_pt = record { a = 0; wrap_a = 1; max_cap = 3 };
})

two_items-IsValid : IsValid two_items
two_items-IsValid = record { sound = omega arith; counter = omega arith; quiet = refl }

-- Four cells of `bytes` bytes of which the second and third are used.
abbrev straight : ℕ → Fifo ℕ
straight bytes = make (record (fresh (λ i. i + 10) bytes 4) {
  signal = λ i. i + 5;
  read_pt = record { a = 1; wrap_a = 0; max_cap = 4 };
  write_pt = record { a = 3; wrap_a = 0; max_cap = 4 };
})

straight-Ready : (bytes : ℕ) → Ready (λ _. 0) 8 (straight bytes)
unfolding allclear
straight-Ready bytes = record {
  valid = record { sound = omega arith; counter = omega arith; quiet = refl };
  own = refl;
  signals = refl;
  resizeable = refl;
  running = refl;
  clear = refl;
  one_piece = omega arith;
  larger_cap = omega arith;
  small = omega arith;
}

run_refines_example :
    run (pop ∷ push 7 4 ∷ close ∷ pop ∷ pop ∷ pop ∷ []) two_items
    ≡ popped (done (11, 1))
      ∷ pushed (done tt)
      ∷ Reply.closing
      ∷ popped (done (12, 2))
      ∷ popped (done (7, 4))
      ∷ popped Outcome.closed
      ∷ []
unfolding Run.queue_run Run.queue_step Queue.pop Queue.push
run_refines_example =
    run_refines (pop ∷ push 7 4 ∷ close ∷ pop ∷ pop ∷ pop ∷ []) two_items two_items-IsValid
      (omega arith)

local_push-refines_example :
    Agrees two_items (done tt, (11, 1) ∷ (12, 2) ∷ (7, 4) ∷ []) (local_push (some 7) 4 two_items)
unfolding Queue.push
local_push-refines_example = local_push-refines (some 7) 4 two_items two_items-IsValid (omega arith)

local_pop-refines_example : Agrees two_items (done (11, 1), (12, 2) ∷ []) (local_pop true two_items)
unfolding Queue.pop
local_pop-refines_example = local_pop-refines two_items two_items-IsValid (omega arith)

-- Of the three cells of 12 bytes in front of the write pointer, the third has its signal in the last of
-- the bytes that are copied.
resize-contents_example :
    Resized
      (λ _. 0)
      8
      (straight 12)
      ((11, 6) ∷ (12, 7) ∷ [])
      (resize false (larger (λ _. 0) 8 (straight 12)) (straight 12))
resize-contents_example =
    resize-contents (λ _. 0) 8 (straight 12) (straight-Ready 12) (omega arith) (omega arith)

resize-overrun_example : (resize false (larger (λ _. 0) 8 (straight 24)) (straight 24)).0 ≡ overrun
resize-overrun_example = resize-overrun (λ _. 0) 8 (straight 24) (straight-Ready 24) (omega arith)

resize-signal_lost_example :
    Resized
      (λ _. 0)
      8
      (straight 4)
      ((11, 0) ∷ (12, 0) ∷ [])
      (resize false (larger (λ _. 0) 8 (straight 4)) (straight 4))
resize-signal_lost_example =
    resize-signal_lost (λ _. 0) 8 (straight 4) (straight-Ready 4) (omega arith)

peek_range-contents_example :
    (w : Window ℕ) × ((peek_range 2 two_items).0 ≡ done w)
    × Keeps two_items (peek_range 2 two_items).1
    × ((i : ℕ)
        → i < 2
        → (x : ℕ) × (get_elem? {A = ℕ × ℕ} ((11, 1) ∷ (12, 2) ∷ []) i ≡ some (x, spot 3 1 i))
          × (at w i ≡ some (x, 1 + spot 3 1 i)))
    × ((i : ℕ) → 2 ≤ i → at w i ≡ none)
peek_range-contents_example = peek_range-contents 2 two_items two_items-IsValid (omega arith)

abbrev empty_queue : Fifo ℕ
empty_queue = make (fresh (λ _. 0) 16 3)

-- ===== src/Fifo/Invariant.antt =====
-- The representation invariant of the heap queue between two calls, and what `size` answers under it.
use raft_lib.Pointer.{Pointer}
use raft_lib.Prelude.{
  ℕ, ◌+◌, ◌-◌, ◌%◌, ap, ◌≤◌, ◌<◌, ◌≡◌, ◌⊎◌, false, some, arith, word, refl, ◌∙◌, if_both, List, sym,
}
use raft_lib.Buffer.{Data}
use raft_lib.Pointer.Position
use raft_lib.Access.{Key, Gate, set_helper}
use raft_lib.Fifo.{Fifo, enter_buffer, exit_buffer, mark_write, mark_read, Outcome}
use raft_lib.Fifo.Size.{occupancy, size, space_avail}
use raft_lib.Fifo.Contents.{used, contents}

-- The write pointer is at most one lap ahead of the read pointer.
pub record IsSound {ℓ} {A : Type ℓ} (d : Data A) : Type 0 where
  pub read_cap : d.read_pt.max_cap ≡ d.max_cap
  pub write_cap : d.write_pt.max_cap ≡ d.max_cap
  pub read_in : d.read_pt.a < d.max_cap
  pub write_in : d.write_pt.a < d.max_cap
  pub small : d.max_cap + d.max_cap ≤ word
  pub laps :
      ((d.write_pt.wrap_a ≡ d.read_pt.wrap_a) × (d.read_pt.a ≤ d.write_pt.a))
      ⊎ ((d.write_pt.wrap_a ≡ d.read_pt.wrap_a + 1) × (d.write_pt.a ≤ d.read_pt.a))

pub record IsValid {ℓ} {A : Type ℓ} (f : Fifo A) : Type 0 where
  pub sound : IsSound f.buffer
  pub counter : f.gate.checking_size < word
  pub quiet : f.resizing ≡ false

count_back : (c : ℕ) → c < word → ((c + 1) % word + (word - 1)) % word ≡ c
count_back c h = omega arith

pub set_helper-counter :
    (key : Key) (val : ℕ) (g : Gate)
    → g.checking_size < word
    → (set_helper key val g).checking_size < word
unfolding set_helper
set_helper-counter Key.allocate val g h = h
set_helper-counter Key.size val g h = ground arith
set_helper-counter _ val g h = h

module _ {ℓ} {A : Type ℓ} where
  -- Both pointers stay inside the arrays.
  pub write_pt-IsValid : (d : Data A) → IsSound d → Position.IsValid d.write_pt
  write_pt-IsValid d v = omega arith

  pub read_pt-IsValid : (d : Data A) → IsSound d → Position.IsValid d.read_pt
  read_pt-IsValid d v = omega arith

  pub used-le : (d : Data A) → IsSound d → used d ≤ d.max_cap
  used-le d v = ground (arith, v.laps, v.read_in, v.write_in)

  -- The four cases of `size` come to one number.
  pub occupancy-used : (d : Data A) → IsSound d → occupancy d ≡ some (used d)
  unfolding occupancy
  occupancy-used d v = ground (arith, v.laps, v.read_in, v.write_in, v.small)

  -- Leaving after `dm::size` undoes entering.
  exit-enter-size :
      (f : Fifo A)
      → f.gate.checking_size < word
      → exit_buffer Key.size (enter_buffer Key.size f) ≡ f
  unfolding enter_buffer exit_buffer
  exit-enter-size f h =
      ap (λ c. record f { gate = record f.gate { checking_size = c } })
        (count_back f.gate.checking_size h)

  -- Under the invariant `size` answers at once, with the number of items, and leaves the queue as it
  -- was.
  pub size-used : (f : Fifo A) → IsValid f → size f ≡ (some (used f.buffer), f)
  unfolding size
  size-used f v =
      ground (arith, occupancy-used f.buffer v.sound, exit-enter-size f v.counter, v.quiet)

  pub space_avail-used :
      (f : Fifo A) → IsValid f → space_avail f ≡ (some (f.buffer.max_cap - used f.buffer), f)
  unfolding space_avail
  space_avail-used f v = ground (arith, size-used f v, used-le f.buffer v.sound, v.sound.small)

  -- Entering and leaving touch the flags alone.
  pub enter-IsValid : (key : Key) (f : Fifo A) → IsValid f → IsValid (enter_buffer key f)
  unfolding enter_buffer
  enter-IsValid key f v = record {
    sound = v.sound;
    counter = set_helper-counter key 1 f.gate v.counter;
    quiet = v.quiet;
  }

  pub exit-IsValid : (key : Key) (f : Fifo A) → IsValid f → IsValid (exit_buffer key f)
  unfolding exit_buffer
  exit-IsValid key f v = record {
    sound = v.sound;
    counter = set_helper-counter key 0 f.gate v.counter;
    quiet = v.quiet;
  }

  -- A queue that holds what `f` held.
  pub record Keeps (f g : Fifo A) : Type ℓ where
    pub valid : IsValid g
    pub held : contents g.buffer ≡ contents f.buffer
    pub cap : g.buffer.max_cap ≡ f.buffer.max_cap
    pub open_end : g.buffer.is_valid ≡ f.buffer.is_valid
    pub written : g.buffer.write_pt ≡ f.buffer.write_pt

  pub enter-Keeps : (key : Key) (f : Fifo A) → IsValid f → Keeps f (enter_buffer key f)
  unfolding enter_buffer
  enter-Keeps key f v = record {
    valid = enter-IsValid key f v;
    held = refl;
    cap = refl;
    open_end = refl;
    written = refl;
  }

  pub exit-Keeps : (key : Key) (f : Fifo A) → IsValid f → Keeps f (exit_buffer key f)
  unfolding exit_buffer
  exit-Keeps key f v = record {
    valid = exit-IsValid key f v;
    held = refl;
    cap = refl;
    open_end = refl;
    written = refl;
  }

  pub mark_write-Keeps : (f : Fifo A) → IsValid f → Keeps f (mark_write f)
  unfolding mark_write
  mark_write-Keeps f v =
      if_both (Keeps f) f.stats_attached _ _
        (record {
          valid = record { sound = omega arith; counter = v.counter; quiet = v.quiet };
          held = refl;
          cap = refl;
          open_end = refl;
          written = refl;
        })
        (record {
          valid = record { sound = omega arith; counter = v.counter; quiet = v.quiet };
          held = refl;
          cap = refl;
          open_end = refl;
          written = refl;
        })

  pub mark_read-Keeps : (f : Fifo A) → IsValid f → Keeps f (mark_read f)
  unfolding mark_read
  mark_read-Keeps f v =
      if_both (Keeps f) f.stats_attached _ _
        (record {
          valid = record { sound = omega arith; counter = v.counter; quiet = v.quiet };
          held = refl;
          cap = refl;
          open_end = refl;
          written = refl;
        })
        (record {
          valid = record { sound = omega arith; counter = v.counter; quiet = v.quiet };
          held = refl;
          cap = refl;
          open_end = refl;
          written = refl;
        })

  pub Keeps-trans : {f g h : Fifo A} → Keeps f g → Keeps g h → Keeps f h
  Keeps-trans a b = record {
    valid = b.valid;
    held = b.held ∙ a.held;
    cap = b.cap ∙ a.cap;
    open_end = b.open_end ∙ a.open_end;
    written = b.written ∙ a.written;
  }

  -- In and out again.
  pub pass-Keeps :
      (key : Key) (f : Fifo A) → IsValid f → Keeps f (exit_buffer key (enter_buffer key f))
  pass-Keeps key f v =
      let entered = enter-Keeps key f v in
      Keeps-trans entered (exit-Keeps key (enter_buffer key f) entered.valid)

  -- An attempt from `f` that ended in `r` did what the abstract queue does with the contents of `f`,
  -- and keeps the invariant, the capacity, the closed flag, and at most one lap more.
  pub record Agrees {κ} {R : Type κ} (f : Fifo A) (spec : Outcome R × List (A × ℕ))
      (r : Outcome R × Fifo A) : Type (ℓ ⊔ κ) where
    pub outcome : r.0 ≡ spec.0
    pub contents_after : contents r.1.buffer ≡ spec.1
    pub valid : IsValid r.1
    pub cap : r.1.buffer.max_cap ≡ f.buffer.max_cap
    pub open_end : r.1.buffer.is_valid ≡ f.buffer.is_valid
    pub laps : r.1.buffer.write_pt.wrap_a ≤ f.buffer.write_pt.wrap_a + 1

  -- An attempt that changes nothing in the queue.
  pub Keeps-Agrees {κ} :
      {R : Type κ} {f g : Fifo A} (o : Outcome R) (spec : Outcome R × List (A × ℕ))
      → Keeps f g
      → spec ≡ (o, contents f.buffer)
      → Agrees f spec (o, g)
  Keeps-Agrees o spec k e = record {
    outcome = sym (ap (λ t. t.0) e);
    contents_after = k.held ∙ sym (ap (λ t. t.1) e);
    valid = k.valid;
    cap = k.cap;
    open_end = k.open_end;
    laps = omega (arith, ap (λ (t : Pointer). t.wrap_a) k.written);
  }

-- ===== src/Fifo/Resize.antt =====
-- `DataManager::resize` of raftinc/datamanager.tcc with `copyFrom` of raftinc/bufferdata.tcc: what
-- becomes of the contents.
use native.Mathlib.Decide.{dec_lt}
use native.Mathlib.Nat.{mul-le-mul_right}
use raft_lib.Fifo.Contents.{used, spot, contents, cells, cells-silent, cells-cong}
use raft_lib.Pointer
use raft_lib.Fifo.Invariant.{IsValid, IsSound}
use raft_lib.Fifo.{Fifo, resize, resize_round, swap_buffer, done, allclear, Outcome, overrun}
use raft_lib.Buffer.{
  overlay, Data, sig_bytes, fresh, copy_from, copied_signal, signal_bytes, length_signal,
  fits_signals,
}
use raft_lib.Prelude.{
  ℕ, ◌≡◌, ◌≤◌, arith, false, suc, true, zero, ◌<◌, refl, ◌+◌, word, if◌then◌else◌, ltb, List,
  lt→ltb, ◌*◌, ◌-◌, map, ap, Bool, subst, ◌∙◌, sym,
}

overlay_all : (k src dst : ℕ) → sig_bytes ≤ k → overlay k src dst ≡ src
unfolding overlay
overlay_all zero src dst h = absurd (omega arith)
overlay_all (suc zero) src dst h = absurd (omega arith)
overlay_all (suc (suc zero)) src dst h = absurd (omega arith)
overlay_all (suc (suc (suc zero))) src dst h = absurd (omega arith)
overlay_all (suc (suc (suc (suc k)))) src dst h = refl

overlay_none : (k src dst : ℕ) → k ≡ 0 → overlay k src dst ≡ dst
unfolding overlay
overlay_none k src dst h = rw h

module _ {ℓ} {A : Type ℓ} (raw : ℕ → A) (n : ℕ) (f : Fifo A) where
  -- The buffer that `RingBuffer::resize` makes for `n` items.
  abbrev pub larger : Data A
  larger = fresh raw f.buffer.item_bytes n

  -- What a resize copies under: nobody is inside, the program runs, the buffer is the queue's own, with
  -- as many signals as cells, as the constructor allocates them, the items lie in one piece, and the new
  -- buffer is no smaller.
  pub record Ready : Type 0 where
    pub valid : IsValid f
    pub own : f.buffer.external_alloc ≡ false
    pub signals : f.buffer.signal_len ≡ f.buffer.max_cap
    pub resizeable : f.resizeable ≡ true
    pub running : f.buffer.is_valid ≡ true
    pub clear : allclear f.gate ≡ true
    pub one_piece : f.buffer.read_pt.a < f.buffer.write_pt.a
    pub larger_cap : f.buffer.max_cap ≤ n
    pub small : n + n ≤ word

  -- The buffer afterwards.
  abbrev replaced : Data A
  replaced = record larger {
    read_pt = Pointer.copy f.buffer.read_pt n;
    write_pt = Pointer.copy f.buffer.write_pt n;
    is_valid = f.buffer.is_valid;
    store = λ i. if ltb i f.buffer.max_cap then f.buffer.store i else raw i;
    signal = copied_signal larger f.buffer;
    read_stats = f.buffer.read_stats;
    write_stats = f.buffer.write_stats;
    force_resize = f.buffer.force_resize;
  }

  module _ (r : Ready) where
    signals_fit : f.buffer.item_bytes ≤ signal_bytes → fits_signals larger f.buffer ≡ true
    unfolding fits_signals
    signals_fit b = ground (arith, mul-le-mul_right f.buffer.max_cap b, r.larger_cap, r.signals)

    signals_overrun : signal_bytes < f.buffer.item_bytes → fits_signals larger f.buffer ≡ false
    unfolding fits_signals
    signals_overrun b =
        ground (
          arith,
          mul-le-mul_right f.buffer.max_cap b,
          r.one_piece,
          r.valid.sound.write_in,
          r.signals,
        )

    resize-replaced :
        f.buffer.item_bytes ≤ signal_bytes
        → resize false larger f ≡ (
          done true,
          record f {
            buffer = replaced;
            resizeable = true;
            resizing = false;
            stats_attached = false;
          },
        )
    unfolding resize resize_round swap_buffer copy_from
    resize-replaced b =
        ground (arith, signals_fit b, r.own, r.resizeable, r.running, r.clear, r.one_piece)

    after : Fifo A
    after = record f {
      buffer = replaced;
      resizeable = true;
      resizing = false;
      stats_attached = false;
    }

    used-replaced : used replaced ≡ used f.buffer
    used-replaced = ground (arith, r.valid.sound.laps, r.one_piece)

    replaced-IsSound : IsSound replaced
    replaced-IsSound = ground (arith, r.valid.sound.write_in, r.one_piece, r.larger_cap, r.small)

    -- The places of the items, before and after.
    spot-replaced :
        (i j : ℕ)
        → i + 0 ≡ j + 0
        → i < 0 + used f.buffer
        → (spot n f.buffer.read_pt.a i ≡ f.buffer.read_pt.a + j)
          × (spot f.buffer.max_cap f.buffer.read_pt.a j ≡ f.buffer.read_pt.a + j)
          × (f.buffer.read_pt.a + j < f.buffer.max_cap)
          × (f.buffer.read_pt.a + j < f.buffer.write_pt.a)
    spot-replaced i j e h =
        ground (arith, r.valid.sound.laps, r.one_piece, r.valid.sound.write_in, r.larger_cap)

    store-replaced : (k : ℕ) → k < f.buffer.max_cap → replaced.store k ≡ f.buffer.store k
    store-replaced k h = rw (lt→ltb k f.buffer.max_cap h)

    replaced-contents :
        (g : ℕ → ℕ)
        → ((k : ℕ)
            → f.buffer.read_pt.a ≤ k
            → k < f.buffer.write_pt.a
            → copied_signal larger f.buffer k ≡ g k)
        → contents replaced
          ≡ cells f.buffer.store g f.buffer.max_cap f.buffer.read_pt.a 0 (used f.buffer)
    replaced-contents g same =
        ap (cells replaced.store replaced.signal n f.buffer.read_pt.a 0) used-replaced
        ∙ cells-cong replaced.store f.buffer.store replaced.signal g n f.buffer.max_cap
            f.buffer.read_pt.a f.buffer.read_pt.a 0 0 (used f.buffer)
            (λ i j e _ h.
              let (p, q, l, w) = spot-replaced i j e h in
              (
                ap replaced.store p ∙ store-replaced _ l ∙ sym (ap f.buffer.store q),
                ap replaced.signal p ∙ same _ (omega arith) w ∙ sym (ap g q),
              ))

  -- What a resize that went through leaves.
  pub record Resized (held : List (A × ℕ)) (o : Outcome Bool × Fifo A) : Type ℓ where
    pub outcome : o.0 ≡ done true
    pub valid : IsValid o.1
    pub cap : o.1.buffer.max_cap ≡ n
    pub same : contents o.1.buffer ≡ held

  -- Where an item is no larger than a `Signal`, a resize under `Ready` whose items all stand where their
  -- signals are among the bytes that are copied, as many as the items have, keeps every item with its
  -- signal, and the invariant; the queue then has the larger capacity. With items of 16 bytes, they
  -- stand there always; with items of 8 bytes, in the first half of the array.
  pub resize-contents :
      Ready
      → f.buffer.item_bytes ≤ signal_bytes
      → signal_bytes * f.buffer.write_pt.a ≤ length_signal f.buffer + (signal_bytes - sig_bytes)
      → Resized (contents f.buffer) (resize false larger f)
  unfolding copied_signal
  resize-contents r b c = subst (Resized (contents f.buffer)) (sym (resize-replaced r b)) (record {
    outcome = refl;
    valid = record { sound = replaced-IsSound r; counter = r.valid.counter; quiet = refl };
    cap = refl;
    same = replaced-contents r f.buffer.signal (λ k _ h.
        overlay_all (length_signal f.buffer - signal_bytes * k) (f.buffer.signal k) 0 (room k h));
  })
    where
      room :
          (k : ℕ) → k < f.buffer.write_pt.a → sig_bytes ≤ length_signal f.buffer - signal_bytes * k
      room k h = omega (arith, c, h)

  -- Where an item is larger than a `Signal`, a resize under `Ready` copies signals from behind the end of
  -- the array.
  pub resize-overrun :
      Ready → signal_bytes < f.buffer.item_bytes → (resize false larger f).0 ≡ overrun
  unfolding resize resize_round swap_buffer copy_from
  resize-overrun r b =
      ground (arith, signals_overrun r b, r.own, r.resizeable, r.running, r.clear, r.one_piece)

  -- Where the copied bytes end in front of the items, an item is smaller than a `Signal`.
  short :
      Ready
      → length_signal f.buffer ≤ signal_bytes * f.buffer.read_pt.a
      → f.buffer.item_bytes ≤ signal_bytes
  short r b = elim (dec_lt signal_bytes f.buffer.item_bytes) [
    | yes l ↦
        absurd (
          omega
            (arith, b, mul-le-mul_right f.buffer.max_cap l, r.one_piece, r.valid.sound.write_in))
    | no l ↦ omega (arith, l)
  ]

  -- A resize under `Ready` copies as many bytes of signals as there are bytes of items. Where the read
  -- pointer stands behind these bytes, every item comes out with signal 0: with items of 8 bytes, that
  -- is where all items stand in the second half of the array.
  pub resize-signal_lost :
      Ready
      → length_signal f.buffer ≤ signal_bytes * f.buffer.read_pt.a
      → Resized (map (λ (x, s). (x, 0)) (contents f.buffer)) (resize false larger f)
  unfolding copied_signal
  resize-signal_lost r b =
      subst (Resized (map (λ (x, s). (x, 0)) (contents f.buffer)))
        (sym (resize-replaced r (short r b)))
        (record {
          outcome = refl;
          valid = record { sound = replaced-IsSound r; counter = r.valid.counter; quiet = refl };
          cap = refl;
          same =
              replaced-contents r (λ _. 0)
                (λ k l h.
                  overlay_none (length_signal f.buffer - signal_bytes * k) (f.buffer.signal k) 0
                    (omega arith))
              ∙ sym (
                  cells-silent f.buffer.store f.buffer.signal f.buffer.max_cap f.buffer.read_pt.a 0
                    (used f.buffer));
        })

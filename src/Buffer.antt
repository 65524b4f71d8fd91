-- ===== src/Buffer.antt =====
-- raftinc/database.tcc and the heap storage of raftinc/bufferdata.tcc: the arrays of a queue, its
-- pointers and its statistics. An array is a function of the index, so that only `copyFrom`, which
-- compares lengths, tells an access behind an array's end; elsewhere the allocated length is not read.
use raft_lib.Prelude.{
  ℕ, zero, suc, ◌+◌, ◌-◌, ◌*◌, ◌/◌, ◌%◌, ◌^◌, Bool, true, false, ltb, if◌then◌else◌, not, leb, ◌&&◌,
}
use raft_lib.Pointer.{Pointer}
use raft_lib.Pointer
use raft_lib.Blocked.{Blocked, zeroed}

-- `sizeof( Buffer::Signal )` on a 64-bit machine, and the bytes of its first member `sig`.
abbrev pub signal_bytes : ℕ
signal_bytes = 16

abbrev pub sig_bytes : ℕ
sig_bytes = 4

pub record Data {ℓ} (A : Type ℓ) : Type ℓ where
  pub store : ℕ → A
  pub signal : ℕ → ℕ  -- the member `sig` of each `Signal`
  pub signal_len : ℕ  -- the number of `Signal`s that were allocated
  pub max_cap : ℕ
  pub item_bytes : ℕ  -- sizeof( T )
  pub read_pt : Pointer
  pub write_pt : Pointer
  pub external_alloc : Bool
  pub is_valid : Bool
  pub read_stats : Blocked
  pub write_stats : Blocked
  pub force_resize : ℕ

-- `length_store` and, as the constructor computes it, also `length_signal`
abbrev pub length_signal {ℓ} : {A : Type ℓ} → Data A → ℕ
length_signal d = d.item_bytes * d.max_cap

module _ {ℓ} {A : Type ℓ} where
  -- `Data( max_cap, align )`: `raw` is what the allocator left in the storage; the signals are zeroed.
  abbrev pub fresh : (ℕ → A) → ℕ → ℕ → Data A
  fresh raw item_bytes max_cap = record {
    store = raw;
    signal = λ _. 0;
    signal_len = max_cap;
    max_cap = max_cap;
    item_bytes = item_bytes;
    read_pt = Pointer.make max_cap;
    write_pt = Pointer.make max_cap;
    external_alloc = false;
    is_valid = true;
    read_stats = zeroed;
    write_stats = zeroed;
    force_resize = 0;
  }

  -- `Data( ptr, max_cap, start_position )`: the caller's array counts as full, and one signal is
  -- allocated. `start_position` goes to the member `index` of that signal, which is not modelled.
  abbrev pub attach : (ℕ → A) → ℕ → ℕ → Data A
  attach ptr item_bytes max_cap = record (fresh ptr item_bytes max_cap) {
    signal_len = 1;
    write_pt = Pointer.make_wrapped max_cap 1;
    external_alloc = true;
  }

-- What `copyFrom` comes to: it exits on a buffer that the caller owns, and a copy of the signals that
-- goes behind the end of one of the arrays has no defined result.
pub data Copy {ℓ} (A : Type ℓ) : Type ℓ where
  gives_up overruns : Copy A
  copied : Data A → Copy A

-- `memcpy` of the first `k` bytes, at most four, of the little-endian word `src` over `dst`.
unfoldable pub overlay : ℕ → ℕ → ℕ → ℕ
overlay zero src dst = dst
overlay (suc zero) src dst = src % 2 ^ 8 + dst / 2 ^ 8 * 2 ^ 8
overlay (suc (suc zero)) src dst = src % 2 ^ 16 + dst / 2 ^ 16 * 2 ^ 16
overlay (suc (suc (suc zero))) src dst = src % 2 ^ 24 + dst / 2 ^ 24 * 2 ^ 24
overlay (suc (suc (suc (suc _)))) src dst = src

module _ {ℓ} {A : Type ℓ} where
  -- What `memcpy( signal, other->signal, other->length_signal )` leaves in cell `i`.
  unfoldable pub copied_signal : Data A → Data A → ℕ → ℕ
  unfolding overlay
  copied_signal d other i =
      overlay (length_signal other - signal_bytes * i) (other.signal i) (d.signal i)

  -- The bytes of the array of signals, of which `length_signal` is not always the number.
  abbrev pub signal_room : Data A → ℕ
  signal_room d = signal_bytes * d.signal_len

  -- `memcpy( signal, other->signal, other->length_signal )` stays inside of both arrays.
  unfoldable pub fits_signals : Data A → Data A → Bool
  fits_signals d other =
      leb (length_signal other) (signal_room other) && leb (length_signal other) (signal_room d)

  -- `copyFrom`. The thread flags, which it also copies, are in the queue's gate.
  unfoldable pub copy_from : Data A → Data A → Copy A
  unfolding copied_signal fits_signals
  copy_from d other =
      if other.external_alloc
      then gives_up
      else if not (fits_signals d other)
      then overruns
      else copied (record d {
        read_pt = Pointer.copy other.read_pt d.max_cap;
        write_pt = Pointer.copy other.write_pt d.max_cap;
        is_valid = other.is_valid;
        store = λ i. if ltb i other.max_cap then other.store i else d.store i;
        signal = copied_signal d other;
        read_stats = other.read_stats;
        write_stats = other.write_stats;
        force_resize = other.force_resize;
      })

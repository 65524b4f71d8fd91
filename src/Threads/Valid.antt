-- ===== src/Threads/Valid.antt =====
-- What the two threads of a queue agree on while each is between two of its accesses.
use raft_lib.Threads.{
  State, Writing, Reading, resting, counting, roomy, stored, signalled, stepped, seen, again,
  seen_again, ready, took_signal, took, ended,
}
use raft_lib.Threads.Counted.{IsRing, wrapped}
use raft_lib.Fifo.Contents.{cells}
use raft_lib.Prelude.{ℕ, Bool, true, false, ◌≡◌, ◌<◌, ◌≤◌, ◌+◌, ◌⊎◌, ◌++◌, word}

-- The writer's wraps with the one that is still to be counted.
abbrev pub write_laps : Writing → ℕ → ℕ → ℕ
write_laps p a wraps = elim p [ stepped ↦ wrapped a wraps | _ ↦ wraps ]

-- The count of the reader's wraps that the writer goes by.
abbrev pub read_wraps_known : Writing → ℕ
read_wraps_known p = elim p [ counting r ↦ r | _ ↦ 0 ]

-- Whether the writer has found space, has stored the item, and its signal.
abbrev pub claims : Writing → ℕ
claims p = elim p [ roomy ↦ 1 | stored ↦ 1 | signalled ↦ 1 | _ ↦ 0 ]

abbrev pub has_stored : Writing → Bool
has_stored p = elim p [ stored ↦ true | signalled ↦ true | _ ↦ false ]

abbrev pub has_signalled : Writing → Bool
has_signalled p = elim p [ signalled ↦ true | _ ↦ false ]

abbrev pub at_rest : Writing → Bool
at_rest p = elim p [ resting ↦ true | _ ↦ false ]

module _ {ℓ} {A : Type ℓ} where
  abbrev pub read_laps : Reading A → ℕ → ℕ → ℕ
  read_laps q a wraps = elim q [ stepped ↦ wrapped a wraps | _ ↦ wraps ]

  abbrev pub write_wraps_known : Reading A → ℕ
  write_wraps_known q = elim q [ seen w ↦ w | _ ↦ 0 ]

  -- The writer's count of wraps for the second call of size.
  abbrev pub last_wraps : Reading A → ℕ → ℕ
  last_wraps q wraps = elim q [ seen_again w ↦ w | _ ↦ wraps ]

  -- Whether the reader has found an item, has its signal, and has it.
  abbrev pub needs : Reading A → ℕ
  needs q = elim q [ ready ↦ 1 | took_signal g ↦ 1 | took x g ↦ 1 | _ ↦ 0 ]

  abbrev pub signal_taken : Reading A → ℕ → ℕ
  signal_taken q g' = elim q [ took_signal g ↦ g | took x g ↦ g | _ ↦ g' ]

  abbrev pub item_taken : Reading A → A → A
  item_taken q x' = elim q [ took x g ↦ x | _ ↦ x' ]

  -- Whether the reader has seen that the queue is not valid, and how much an ended one has left.
  abbrev pub sees_closed : Reading A → Bool
  sees_closed q = elim q [ again ↦ true | seen_again w ↦ true | ended ↦ true | _ ↦ false ]

  abbrev pub left : Reading A → ℕ → ℕ
  left q n = elim q [ ended ↦ n | _ ↦ 0 ]

  -- A queue of `n` items with the writer at `p` and the reader at `q`.
  pub record Agrees (p : Writing) (q : Reading A) (n : ℕ) (s : State A) : Type ℓ where
    pub small : s.max_cap < word
    pub ring :
        IsRing s.max_cap s.write_a
          (write_laps p s.write_a s.write_wrap)
          s.read_a
          (read_laps q s.read_a s.read_wrap)
          n
    pub items : s.pushed ≡ s.popped ++ cells s.store s.signal s.max_cap s.read_a 0 n
    pub old_read : read_wraps_known p ≤ read_laps q s.read_a s.read_wrap
    pub room : n + claims p ≤ s.max_cap
    pub item : (has_stored p ≡ false) ⊎ (s.store s.write_a ≡ s.pending.0)
    pub mark : (has_signalled p ≡ false) ⊎ (s.signal s.write_a ≡ s.pending.1)
    pub opened : (at_rest p ≡ true) ⊎ (s.is_valid ≡ true)
    pub old_write : write_wraps_known q ≤ write_laps p s.write_a s.write_wrap
    pub new_write : last_wraps q s.write_wrap ≡ s.write_wrap
    pub found : needs q ≤ n
    pub front_signal : signal_taken q (s.signal s.read_a) ≡ s.signal s.read_a
    pub front_item : item_taken q (s.store s.read_a) ≡ s.store s.read_a
    pub closed : (sees_closed q ≡ false) ⊎ (s.is_valid ≡ false)
    pub drained : left q n ≡ 0

  abbrev pub IsValid : ℕ → State A → Type ℓ
  IsValid n s = Agrees s.writer s.reader n s

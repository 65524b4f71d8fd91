-- ===== src/Split.antt =====
-- The kernels that split and join streams: run of raftinc/split.tcc and of raftinc/join.tcc, send and get
-- of raftinc/splitmethod.hpp, and select_fifo of src/roundrobin.cpp. A queue is its items in order, each
-- with its signal, and its capacity; `none` is a loop of select_fifo that finds no queue and goes round.
-- A split looks at its input through the window of peek_range, which shows the items in order, but may
-- show other signals with them (Fifo/Peeked): the signals that it shows are an input of the model.
pub mod Lost
mod Tests
use raft_lib.Prelude.{
  ℕ, zero, suc, ◌-◌, Bool, List, [], ◌∷◌, ◌++◌, Option, none, some, if◌then◌else◌, length, ltb,
  take,
}

pub record Channel {ℓ} (A : Type ℓ) : Type ℓ where
  pub items : List (A × ℕ)
  pub capacity : ℕ

module _ {ℓ} {A : Type ℓ} where
  unfoldable pub space_avail : Channel A → ℕ
  space_avail c = c.capacity - length c.items

  abbrev pub behind : Channel A → Option (List (Channel A)) → Option (List (Channel A))
  behind c none = none
  behind c (some cs) = some (c ∷ cs)

  -- `range[ i ]` for each index of the window: the items of the input, and the signals that are shown.
  unfoldable pub shown_as : List ℕ → List (A × ℕ) → List (A × ℕ)
  shown_as signals [] = []
  shown_as [] (item ∷ input) = []
  shown_as (signal ∷ signals) (item ∷ input) = (item.0, signal) ∷ shown_as signals input

  -- `send` of a range, to the queue that select_fifo finds with `sendtype`: as many items as it has
  -- space for.
  unfoldable pub send_range : List (A × ℕ) → List (Channel A) → Option (List (Channel A))
  unfolding space_avail
  send_range range [] = none
  send_range range (c ∷ cs) =
      let rest = send_range range cs in
      if ltb 0 (space_avail c)
      then some (record c { items = c.items ++ take (space_avail c) range } ∷ cs)
      else behind c rest

  -- `split::run`, with the signals of the window: the input that is left, all that was there being
  -- recycled, and the outputs.
  unfoldable pub split_run :
      List ℕ → List (A × ℕ) → List (Channel A) → Option (List (A × ℕ) × List (Channel A))
  unfolding send_range shown_as
  split_run signals input outputs = elim (send_range (shown_as signals input) outputs) [
    | none ↦ none
    | some out ↦ some ([], out)
  ]

  -- `get`, from the queue that select_fifo finds with `gettype`.
  unfoldable pub get_item : List (Channel A) → Option ((A × ℕ) × List (Channel A))
  get_item [] = none
  get_item (c ∷ cs) =
      let rest = get_item cs in
      elim c.items [
        | [] ↦ elim rest [ none ↦ none | some r ↦ some (r.0, c ∷ r.1) ]
        | x ∷ xs ↦ some (x, record c { items = xs } ∷ cs)
      ]

  -- `join::run`: the output and the inputs that are left.
  unfoldable pub join_run :
      List (A × ℕ) → List (Channel A) → Option (List (A × ℕ) × List (Channel A))
  unfolding get_item
  join_run output inputs = elim (get_item inputs) [
    | none ↦ none
    | some r ↦ some (output ++ r.0 ∷ [], r.1)
  ]

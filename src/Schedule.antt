-- ===== src/Schedule.antt =====
-- src/schedule.cpp: when a kernel runs and when it is finished, and the freeing of the items that a
-- kernel took and did not pass on. A port is seen as the abstract queue that Fifo/Run relates it to.
pub mod Finish
pub mod Collect
pub mod Rounds
pub mod Ended
mod Tests
use raft_lib.Prelude.{
  ℕ, Bool, true, false, not, ◌&&◌, ◌||◌, List, [], ◌∷◌, map, ◌==◌, if◌then◌else◌, length, Option,
  none, some,
}

-- `raft::kstatus`
pub data Status : Type 0 where
  stop proceed : Status

-- `raft::schedule_behavior`
pub data Behaviour : Type 0 where
  any_port all_port : Behaviour

-- A `FIFO` at a kernel's port.
pub record Port {ℓ} (A : Type ℓ) : Type ℓ where
  pub items : List A
  pub is_valid : Bool

-- The scheduler's view of `raft::kernel`.
pub record Kernel {ℓ} (A : Type ℓ) : Type ℓ where
  pub input : List (Port A)
  pub output : List (Port A)
  pub sched_behav : Behaviour

module _ {ℓ} {A : Type ℓ} where
  -- `port.size() == 0`
  abbrev pub is_empty : Port A → Bool
  is_empty p = length p.items == 0

  abbrev pub invalidate : Port A → Port A
  invalidate p = record p { is_valid = false }

  unfoldable pub invalidate_output_ports : Kernel A → Kernel A
  invalidate_output_ports k = record k { output = map invalidate k.output }

  -- The loop for `any_port`: some port has data.
  unfoldable pub any_data : List (Port A) → Bool
  any_data [] = false
  any_data (p ∷ ps) = not (is_empty p) || any_data ps

  -- The loop for `all_port`: no port is without.
  unfoldable pub all_data : List (Port A) → Bool
  all_data [] = true
  all_data (p ∷ ps) = not (is_empty p) && all_data ps

  unfoldable pub ports_have_data : Behaviour → List (Port A) → Bool
  unfolding any_data all_data
  ports_have_data b [] = true
  ports_have_data any_port (p ∷ ps) = any_data (p ∷ ps)
  ports_have_data all_port (p ∷ ps) = all_data (p ∷ ps)

  abbrev pub kernel_has_input_data : Kernel A → Bool
  kernel_has_input_data k = ports_have_data k.sched_behav k.input

  unfoldable pub all_invalid : List (Port A) → Bool
  all_invalid [] = true
  all_invalid (p ∷ ps) = not p.is_valid && all_invalid ps

  -- `kernelHasNoInputPorts`
  abbrev pub kernel_has_no_input_ports : Kernel A → Bool
  kernel_has_no_input_ports k = all_invalid k.input

  -- The run of `kernelRun`, and what follows it: the answer, `finished` and the kernel.
  unfoldable pub run_once :
      (Kernel A → Status × Kernel A) → Bool → Kernel A → Bool × Bool × Kernel A
  unfolding invalidate_output_ports
  run_once run finished k =
      if kernel_has_input_data k
      then (let (s, k1) = run k in
          elim s [
            | stop ↦ (true, true, invalidate_output_ports k1)
            | proceed ↦ (true, finished, k1)
          ])
      else (false, finished, k)

  -- `kernelRun`. `run` is the kernel's own code, and `others` is what the kernels at the other ends
  -- of its ports do between its two last tests.
  unfoldable pub kernel_run :
      (Kernel A → Status × Kernel A)
      → (Kernel A → Kernel A)
      → Bool
      → Kernel A
      → Bool × Bool × Kernel A
  unfolding run_once invalidate_output_ports
  kernel_run run others finished k =
      let (ran, finished1, k1) = run_once run finished k in
      let k2 = others k1 in
      if kernel_has_no_input_ports k1 && not (kernel_has_input_data k2)
      then (ran, true, invalidate_output_ports k2)
      else (ran, finished1, k2)

-- The sets of pointers that a kernel's ports keep for items outside the queues, ascending: those
-- taken in, those passed on, those peeked at.
pub record PtrSets : Type 0 where
  pub taken : List ℕ
  pub out : List ℕ
  pub peekset : List ℕ

abbrev pub no_ptrs : PtrSets
no_ptrs = record { taken = []; out = []; peekset = [] }

unfoldable pub consed : ℕ → Option (List ℕ) → Option (List ℕ)
consed p none = none
consed p (some l) = some (p ∷ l)

-- The two loops of `fifo_gc`: the pointers freed. `none` is a read at the end of the first set.
unfoldable pub free_unsent : List ℕ → List ℕ → Option (List ℕ)
unfolding consed
free_unsent [] [] = some []
free_unsent [] (o ∷ out) = none
free_unsent (p ∷ taken) [] = consed p (free_unsent taken [])
free_unsent (p ∷ taken) (o ∷ out) =
    let same = free_unsent taken out in
    let rest = free_unsent taken (o ∷ out) in if o == p then same else consed p rest

unfoldable pub fifo_gc : PtrSets → Option (List ℕ × PtrSets)
unfolding free_unsent
fifo_gc s = elim (free_unsent s.taken s.out) [ none ↦ none | some freed ↦ some (freed, no_ptrs) ]

-- ===== src/Threads/Steps.antt =====
-- Each turn of a schedule keeps what the two threads agree on.
pub mod Write
pub mod Read
use raft_lib.Threads.{
  State, Writing, Reading, write_at, close_at, read_at, resting, begun, counting, roomy, stored,
  signalled, stepped, Turn, step, run, write, close, read,
}
use raft_lib.Threads.Valid.{Agrees, IsValid, write_laps, read_laps}
use raft_lib.Threads.Steps.Write.{write_at-IsValid}
use raft_lib.Threads.Steps.Read.{read_at-IsValid}
use raft_lib.Prelude.{
  ℕ, true, false, ◌≡◌, ◌<◌, ◌≤◌, ◌+◌, word, arith, refl, List, [], ◌∷◌, length, ◌∙◌,
}

module _ {ℓ} {A : Type ℓ} where
  abbrev pub laps : State A → ℕ
  laps s = write_laps s.writer s.write_a s.write_wrap

  close_at-IsValid :
      (p : Writing) (n : ℕ) (s : State A)
      → s.writer ≡ p
      → Agrees p s.reader n s
      → IsValid n (close_at p s)
  unfolding close_at
  close_at-IsValid p n s e v = ground (arith, v, e)

  pub write_at-laps :
      (p : Writing) (item : A × ℕ) (n : ℕ) (s : State A)
      → s.writer ≡ p
      → Agrees p s.reader n s
      → laps s + 1 < word
      → laps (write_at p item s) ≤ laps s + 1
  unfolding write_at
  write_at-laps p item n s e v l = ground (arith, v, e)

  -- A turn adds at most one wrap.
  step-laps :
      (t : Turn A) (n : ℕ) (s : State A)
      → IsValid n s
      → laps s + 1 < word
      → laps (step t s) ≤ laps s + 1
  unfolding step
  step-laps (write item) n s v l = write_at-laps s.writer item n s refl v l
  step-laps close n s v l = ground (arith, v)
  step-laps read n s v l = ground arith

  pub step-IsValid :
      (t : Turn A) (n : ℕ) (s : State A)
      → IsValid n s
      → laps s + 1 < word
      → (m : ℕ) × IsValid m (step t s)
  unfolding step
  step-IsValid (write item) n s v l = write_at-IsValid s.writer item n s refl l v
  step-IsValid close n s v l = (n, close_at-IsValid s.writer n s refl v)
  step-IsValid read n s v l = read_at-IsValid s.reader n s refl (omega (arith, l)) v

  pub run-IsValid :
      (ts : List (Turn A)) (n : ℕ) (s : State A)
      → IsValid n s
      → laps s + length ts < word
      → (m : ℕ) × IsValid m (run ts s)
  unfolding run
  run-IsValid [] n s v l = (n, v)
  run-IsValid (t ∷ ts) n s v l =
      let (m, u) = step-IsValid t n s v (ground (arith, l)) in
      run-IsValid ts m (step t s) u (ground (arith, l, step-laps t n s v))

  pub run-laps :
      (ts : List (Turn A)) (n : ℕ) (s : State A)
      → IsValid n s
      → laps s + length ts < word
      → laps (run ts s) ≤ laps s + length ts
  unfolding run
  run-laps [] n s v l = omega arith
  run-laps (t ∷ ts) n s v l =
      let (m, u) = step-IsValid t n s v (ground (arith, l)) in
      let one : laps (step t s) ≤ laps s + 1 = step-laps t n s v (ground (arith, l)) in
      let rest : laps (run ts (step t s)) ≤ laps (step t s) + length ts =
        run-laps ts m (step t s) u (ground (arith, l, one)) in
      omega (arith, one, rest)

  step-max_cap : (t : Turn A) (s : State A) → (step t s).max_cap ≡ s.max_cap
  unfolding step write_at close_at read_at
  step-max_cap (write item) s = ground arith
  step-max_cap close s = ground arith
  step-max_cap read s = ground arith

  pub run-max_cap : (ts : List (Turn A)) (s : State A) → (run ts s).max_cap ≡ s.max_cap
  unfolding run
  run-max_cap [] s = refl
  run-max_cap (t ∷ ts) s = run-max_cap ts (step t s) ∙ step-max_cap t s

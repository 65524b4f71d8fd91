-- ===== src/Schedule/Finish.antt =====
-- `kernelRun` of src/schedule.cpp: what it means that it sets `finished`.
use raft_lib.Schedule.{
  Kernel, Port, Status, stop, ports_have_data, all_invalid, kernel_run, run_once,
  kernel_has_input_data, kernel_has_no_input_ports, invalidate_output_ports, invalidate,
}
use raft_lib.Prelude.{
  Bool, true, false, not, ◌&&◌, List, [], ◌∷◌, ◌≡◌, refl, arith, ap, sym, ◌∙◌, subst, ◌⊎◌, inl, inr,
  Bool-cases, map, ap₂, if◌then◌else◌,
}

module _ {ℓ} {A : Type ℓ} where
  -- What the kernels at the other ends may do to the input ports: a closed port gets no more items.
  unfoldable pub Feeds : List (Port A) → List (Port A) → Type ℓ
  Feeds [] qs = qs ≡ []
  Feeds (p ∷ ps) qs =
      (q : Port A) × (rest : List (Port A)) × (qs ≡ q ∷ rest)
      × (p.is_valid ≡ false → q ≡ p)
      × Feeds ps rest

  -- What they do between two tests of `kernelRun`.
  pub record ArePeers (others : Kernel A → Kernel A) : Type ℓ where
    pub feeds : (k : Kernel A) → Feeds k.input (others k).input
    pub same_behaviour : (k : Kernel A) → (others k).sched_behav ≡ k.sched_behav
    pub same_outputs : (k : Kernel A) → all_invalid (others k).output ≡ all_invalid k.output

  -- A kernel to which no data will come any more: whatever the others do, it is never ready again.
  pub record IsExhausted (k : Kernel A) : Type ℓ where
    pub closed : kernel_has_no_input_ports k ≡ true
    pub starved : (ps : List (Port A)) → Feeds k.input ps → ports_have_data k.sched_behav ps ≡ false

  -- Closed ports that are fed stay as they are.
  Feeds-closed : (ps qs : List (Port A)) → all_invalid ps ≡ true → Feeds ps qs → qs ≡ ps
  unfolding Feeds all_invalid
  Feeds-closed [] qs h f = f
  Feeds-closed (p ∷ ps) qs h (q, rest, e, same, f) =
      e ∙ ap₂ (λ x l. x ∷ l) (same (ground arith)) (Feeds-closed ps rest (ground arith) f)

  run_once-stop :
      (run : Kernel A → Status × Kernel A) (k : Kernel A)
      → (run_once run false k).1 ≡ true
      → (kernel_has_input_data k ≡ true) × ((run k).0 ≡ stop)
  unfolding run_once
  run_once-stop run k h = ground (arith, h)

  invalidate_all : (ps : List (Port A)) → all_invalid (map invalidate ps) ≡ true
  unfolding all_invalid
  invalidate_all [] = refl
  invalidate_all (p ∷ ps) = invalidate_all ps

  run_once-closes :
      (run : Kernel A → Status × Kernel A) (k : Kernel A)
      → (run_once run false k).1 ≡ true
      → all_invalid (run_once run false k).2.output ≡ true
  unfolding run_once invalidate_output_ports
  run_once-closes run k h =
      let (d, e) = run_once-stop run k h in ground (arith, d, e, invalidate_all (run k).1.output)

  run_once-starved :
      (run : Kernel A → Status × Kernel A) (k : Kernel A)
      → kernel_has_input_data k ≡ false
      → run_once run false k ≡ (false, false, k)
  unfolding run_once
  run_once-starved run k d = rw d

  exhausted :
      (others : Kernel A → Kernel A) (k : Kernel A)
      → ArePeers others
      → kernel_has_no_input_ports k && not (kernel_has_input_data (others k)) ≡ true
      → IsExhausted (invalidate_output_ports (others k))
  unfolding invalidate_output_ports
  exhausted others k peers c =
      let shut : all_invalid k.input ≡ true = ground (arith, c) in
      let no_data : kernel_has_input_data (others k) ≡ false = ground (arith, c) in
      let same = Feeds-closed k.input (others k).input shut (peers.feeds k) in
      let still = ap all_invalid same ∙ shut in
      record {
        closed = still;
        starved = λ ps f.
            ap (ports_have_data (others k).sched_behav) (Feeds-closed (others k).input ps still f)
            ∙ no_data;
      }

  module _ (run : Kernel A → Status × Kernel A) (others : Kernel A → Kernel A)
      (peers : ArePeers others) (k : Kernel A) where
    -- If `kernelRun` sets `finished` of a kernel that was not, then the kernel ran and asked to stop,
    -- or its input ports are closed and it will never be ready again, as long as a closed port gets no
    -- more items.
    pub kernel_run-IsExhausted :
        (kernel_run run others false k).1 ≡ true
        → ((kernel_has_input_data k ≡ true) × ((run k).0 ≡ stop))
          ⊎ IsExhausted (kernel_run run others false k).2
    unfolding kernel_run
    kernel_run-IsExhausted h =
        let (ran, f1, k1) = run_once run false k in
        let k2 = others k1 in
        let last : Bool → Bool × Bool × Kernel A =
          λ b. if b then (ran, true, invalidate_output_ports k2) else (ran, f1, k2) in
        elim (Bool-cases (kernel_has_no_input_ports k1 && not (kernel_has_input_data k2))) [
          | inl c ↦ inr (subst (λ b. IsExhausted (last b).2) (sym c) (exhausted others k1 peers c))
          | inr c ↦ inl (run_once-stop run k (subst (λ b. (last b).1 ≡ true) c h))
        ]

    -- If `kernelRun` sets `finished`, then all output ports of the kernel are closed, as long as the
    -- other kernels open none.
    pub kernel_run-closes :
        (kernel_run run others false k).1 ≡ true
        → all_invalid (kernel_run run others false k).2.output ≡ true
    unfolding kernel_run invalidate_output_ports
    kernel_run-closes h =
        let (ran, f1, k1) = run_once run false k in
        let k2 = others k1 in
        let last : Bool → Bool × Bool × Kernel A =
          λ b. if b then (ran, true, invalidate_output_ports k2) else (ran, f1, k2) in
        elim (Bool-cases (kernel_has_no_input_ports k1 && not (kernel_has_input_data k2))) [
          | inl c ↦
              subst (λ b. all_invalid (last b).2.output ≡ true) (sym c) (invalidate_all k2.output)
          | inr c ↦
              subst (λ b. all_invalid (last b).2.output ≡ true) (sym c)
                (peers.same_outputs k1 ∙ run_once-closes run k (subst (λ b. (last b).1 ≡ true) c h))
        ]

    -- A kernel whose input ports are all closed and which is not ready is finished by the next
    -- `kernelRun` without a run of its code, as long as a closed port gets no more items.
    pub kernel_run-starved :
        kernel_has_no_input_ports k ≡ true
        → kernel_has_input_data k ≡ false
        → (kernel_run run others false k).0 ≡ false × ((kernel_run run others false k).1 ≡ true)
    unfolding kernel_run run_once
    kernel_run-starved c d =
        let same = Feeds-closed k.input (others k).input c (peers.feeds k) in
        let idle = (λ i. ports_have_data (peers.same_behaviour k i) (same i)) ∙ d in
        let test = λ (r : Bool × Bool × Kernel A).
          if kernel_has_no_input_ports r.2 && not (kernel_has_input_data (others r.2))
          then (r.0, true, invalidate_output_ports (others r.2))
          else (r.0, r.1, others r.2) in
        let P = λ (r : Bool × Bool × Kernel A). (r.0 ≡ false) × (r.1 ≡ true) in
        let branch = λ (b : Bool).
          if b
          then (false, true, invalidate_output_ports (others k))
          else (false, false, others k) in
        let c' : kernel_has_no_input_ports k && not (kernel_has_input_data (others k)) ≡ true =
          ground (arith, c, idle) in
        subst (λ r. P (test r)) (sym (run_once-starved run k d))
          (subst (λ b. P (branch b)) (sym c') (refl, refl))

-- ===== src/Topology/Connected.antt =====
-- `allConnected` of src/kernel.cpp.
use raft_lib.Topology.{Info, Ports, is_free, connected, all_connected}
use raft_lib.Prelude.{ℕ, false, ◌≡◌, ◌↔◌, List, [], ◌∷◌, none, arith, refl, Bool-cases, inl, inr}

-- No named port is free.
abbrev pub AllTaken : (ℕ → Info) → List ℕ → Type 0
AllTaken ports [] = Unit
AllTaken ports (n ∷ names) = (is_free (ports n) ≡ false) × AllTaken ports names

connected-AllTaken :
    (ports : ℕ → Info) (names : List ℕ) → (connected ports names ≡ none) ↔ AllTaken ports names
unfolding connected
connected-AllTaken ports [] = ((λ _. tt), (λ _. refl))
connected-AllTaken ports (n ∷ names) =
    let (p, q) = connected-AllTaken ports names in
    elim (Bool-cases (is_free (ports n))) [
      | inl t ↦ (λ h. absurd (ground (arith, h, t)), λ h. absurd (ground (arith, h.0, t)))
      | inr t ↦ (λ h. (t, p (ground (arith, h, t))), λ h. ground (arith, t, q h.1))
    ]

-- The check passes exactly where every input and every output port of the kernel is joined.
pub all_connected-AllTaken :
    (k : ℕ) (inputs outputs : List ℕ) (p : Ports)
    → (all_connected k inputs outputs p ≡ none)
      ↔ (AllTaken (p.input k) inputs × AllTaken (p.output k) outputs)
unfolding all_connected
all_connected-AllTaken k inputs outputs p =
    let (a, b) = connected-AllTaken (p.input k) inputs in
    let (c, d) = connected-AllTaken (p.output k) outputs in
    (λ h. (a (ground (arith, h)), c (ground (arith, h))), λ h. ground (arith, b h.0, d h.1))

-- ===== src/Map/Checked.antt =====
-- `checkEdges` of src/map.cpp.
use raft_lib.Prelude.{ℕ, ◌≡◌, ◌↔◌, refl, List, [], ◌∷◌, Option, none, some, arith}
use raft_lib.Topology.{Failure, all_connected}
use raft_lib.Topology.Connected.{AllTaken, all_connected-AllTaken}
use raft_lib.Map.{World}
use raft_lib.Map.Build.{check_kernels, check_edges}

-- Every port of every kernel of a list is joined.
abbrev pub AllJoined : List ℕ → World → Type 0
AllJoined [] w = Unit
AllJoined (k ∷ kernels) w =
    (AllTaken (w.ports.input k) (w.inputs k) × AllTaken (w.ports.output k) (w.outputs k))
    × AllJoined kernels w

-- The result of a kernel's check before those of the others.
first_failure :
    (o rest : Option Failure)
    → (elim o as (λ _. Option Failure) [ some e ↦ some e | none ↦ rest ] ≡ none)
      ↔ ((o ≡ none) × (rest ≡ none))
first_failure none rest = ((λ h. (refl, h)), λ h. h.1)
first_failure (some e) rest = ((λ h. absurd (ground (arith, h))), λ h. h.0)

check_kernels-AllJoined :
    (kernels : List ℕ) (w : World) → (check_kernels kernels w ≡ none) ↔ AllJoined kernels w
unfolding check_kernels
check_kernels-AllJoined [] w = ((λ _. tt), (λ _. refl))
check_kernels-AllJoined (k ∷ kernels) w =
    let (f, g) =
      first_failure (all_connected k (w.inputs k) (w.outputs k) w.ports)
        (check_kernels kernels w) in
    let (a, b) = all_connected-AllTaken k (w.inputs k) (w.outputs k) w.ports in
    let (c, d) = check_kernels-AllJoined kernels w in
    ((λ h. (a (f h).0, c (f h).1)), λ h. g (b h.0, d h.1))

-- `checkEdges` passes exactly where every input and every output port of every kernel of the map is
-- joined; otherwise it throws.
pub check_edges-AllJoined : (w : World) → (check_edges w ≡ none) ↔ AllJoined w.all_kernels w
unfolding check_edges
check_edges-AllJoined w = check_kernels-AllJoined w.all_kernels w

-- ===== src/Graph/Tests.antt =====
-- A small topology on which the theorem about the walk is run.
use raft_lib.Graph.Edges.{AreConnected}
use raft_lib.Graph.{PortInfo, bfs}
use raft_lib.Graph.Bound.{IsUnique, missing}
use raft_lib.Graph.Search.{is_child}
use raft_lib.Graph.Reach.{IsReached, bfs-IsReached}
use raft_lib.Prelude.{
  ℕ, zero, suc, ◌<◌, ◌≡◌, true, List, [], ◌∷◌, none, some, contains, arith, refl, ◌↔◌,
}

abbrev to : ℕ → PortInfo
to k = record { other_kernel = some k }

-- 0 leads to 1 and 2, 1 to 2, and 2 to 0 and by an open port to nothing.
abbrev outputs : ℕ → List PortInfo
outputs zero = to 1 ∷ to 2 ∷ []
outputs (suc zero) = to 2 ∷ []
outputs (suc (suc zero)) = record { other_kernel = none } ∷ to 0 ∷ []
outputs (suc (suc (suc _))) = []

bounded : (x y : ℕ) → is_child (outputs x) y ≡ true → y < 3
unfolding is_child
bounded zero y h = ground (arith, h)
bounded (suc zero) y h = ground (arith, h)
bounded (suc (suc zero)) y h = ground (arith, h)
bounded (suc (suc (suc _))) y h = absurd (ground (arith, h))

bfs-IsReached_example :
    (calls : List ℕ) × (bfs 4 outputs (0 ∷ []) ≡ some calls)
    × IsUnique calls
    × ((x : ℕ) → (contains calls x ≡ true) ↔ IsReached outputs (0 ∷ []) x)
unfolding IsUnique missing contains
bfs-IsReached_example = bfs-IsReached outputs 3 4 (0 ∷ []) bounded (refl, tt) (omega arith)

-- 0 leads to 1 and 2, and they lead to nothing.
abbrev tree : ℕ → List PortInfo
tree zero = to 1 ∷ to 2 ∷ []
tree (suc _) = []

tree-AreConnected : (k : ℕ) → AreConnected (tree k)
tree-AreConnected zero = (λ h. absurd (ground (arith, h)), (λ h. absurd (ground (arith, h)), tt))
tree-AreConnected (suc k) = tt

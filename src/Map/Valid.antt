-- ===== src/Map/Valid.antt =====
-- What holds of a map under construction, whatever is linked and cloned.
use raft_lib.Map.{
  World, Result, ok, thrown, undefined, Action, ◌>>=◌, Shape, at_port, at_output, at_input,
  set_buffer, set_order, update_kernels, find_port, clone, copied, clone_as,
}
use raft_lib.Topology.{Info}
use raft_lib.Topology.Linked.{IsLinked, CanJoin, joined, joined-IsLinked}
use raft_lib.Prelude.{
  ℕ, ◌≤◌, ◌≡◌, inl, inr, Bool, true, List, [], ◌∷◌, none, some, Option, contains, arith, refl,
  Bool-cases,
}

-- The two ends of every link agree, only ports that a kernel has are joined, and the kernels that do
-- not exist yet have no ports.
pub record IsValid (w : World) : Type 0 where
  pub linked : IsLinked w.ports
  pub named_out :
      (k n : ℕ) (o : ℕ × ℕ) → (w.ports.output k n).other ≡ some o → contains (w.outputs k) n ≡ true
  pub named_in :
      (k n : ℕ) (o : ℕ × ℕ) → (w.ports.input k n).other ≡ some o → contains (w.inputs k) n ≡ true
  pub fresh_out : (k : ℕ) → w.next_kernel ≤ k → w.outputs k ≡ []
  pub fresh_in : (k : ℕ) → w.next_kernel ≤ k → w.inputs k ≡ []

-- What holds of the world that a call leaves, also by an exception.
abbrev pub Leaves {ℓ} : {R : Type ℓ} → (World → Type 0) → Result R → Type 0
Leaves P (ok r w) = P w
Leaves P (thrown e w) = P w
Leaves P undefined = Unit

-- A call keeps the invariant.
abbrev pub Keeps {ℓ} : {R : Type ℓ} → Action R → Type 0
Keeps m = (w : World) → IsValid w → Leaves IsValid (m w)

pub Leaves-bind {ℓ κ} :
    {R : Type ℓ} {S : Type κ} (r : Result R) (k : R → Action S)
    → Leaves IsValid r
    → ((x : R) → Keeps (k x))
    → Leaves IsValid (elim r as (λ _. Result S) [
      | ok x w ↦ k x w
      | thrown e w ↦ thrown e w
      | undefined ↦ undefined
    ])
Leaves-bind (ok x w) k h g = g x w h
Leaves-bind (thrown e w) k h g = h
Leaves-bind undefined k h g = tt

pub Keeps-bind {ℓ κ} :
    {R : Type ℓ} {S : Type κ} (m : Action R) (k : R → Action S)
    → Keeps m
    → ((r : R) → Keeps (k r))
    → Keeps (m >>= k)
Keeps-bind m k h g w v = Leaves-bind (m w) k (h w v) g

-- A change of two settings of a port leaves its links alone.
pub record IsSetting (f : Info → Info) : Type 0 where
  same_other : (i : Info) → (f i).other ≡ i.other
  same_type : (i : Info) → (f i).type ≡ i.type

pub set_buffer-IsSetting : (n : ℕ) → IsSetting (set_buffer n)
set_buffer-IsSetting n = record { same_other = λ i. refl; same_type = λ i. refl }

pub set_order-IsSetting : (b : Bool) → IsSetting (set_order b)
set_order-IsSetting b = record { same_other = λ i. refl; same_type = λ i. refl }

at_port-same :
    (k n : ℕ) (f : Info → Info) (ports : ℕ → ℕ → Info) (l m : ℕ)
    → IsSetting f
    → ((at_port k n f ports l m).other ≡ (ports l m).other)
      × ((at_port k n f ports l m).type ≡ (ports l m).type)
unfolding at_port
at_port-same k n f ports l m s = ground (arith, s.same_other (ports l m), s.same_type (ports l m))

pub at_output-IsValid :
    (k n : ℕ) (f : Info → Info) (w : World) → IsSetting f → IsValid w → IsValid (at_output k n f w)
unfolding at_output
at_output-IsValid k n f w s v = record {
  linked = record {
    forth = λ a b c d h.
        ground (arith, h, at_port-same k n f w.ports.output a b s, v.linked.forth a b c d);
    back = λ a b c d h.
        ground (arith, h, at_port-same k n f w.ports.output a b s, v.linked.back a b c d);
  };
  named_out =
      λ a b o h. ground (arith, h, at_port-same k n f w.ports.output a b s, v.named_out a b o);
  named_in = v.named_in;
  fresh_out = v.fresh_out;
  fresh_in = v.fresh_in;
}

pub at_input-IsValid :
    (k n : ℕ) (f : Info → Info) (w : World) → IsSetting f → IsValid w → IsValid (at_input k n f w)
unfolding at_input
at_input-IsValid k n f w s v = record {
  linked = record {
    forth = λ a b c d h.
        ground (arith, h, at_port-same k n f w.ports.input c d s, v.linked.forth a b c d);
    back = λ a b c d h.
        ground (arith, h, at_port-same k n f w.ports.input c d s, v.linked.back a b c d);
  };
  named_out = v.named_out;
  named_in = λ a b o h. ground (arith, h, at_port-same k n f w.ports.input a b s, v.named_in a b o);
  fresh_out = v.fresh_out;
  fresh_in = v.fresh_in;
}

pub update_kernels-IsValid : (a b : ℕ) (w : World) → IsValid w → IsValid (update_kernels a b w)
unfolding update_kernels
update_kernels-IsValid a b w v = record {
  linked = v.linked;
  named_out = v.named_out;
  named_in = v.named_in;
  fresh_out = v.fresh_out;
  fresh_in = v.fresh_in;
}

copied-IsValid : (s : Shape) (w : World) → IsValid w → IsValid (copied s w)
unfolding copied contains
copied-IsValid s w v = record {
  linked = record {
    forth =
        λ a b c d h. ground (arith, h, v.linked.forth a b c d, v.named_in c d (a, b), v.fresh_in c);
    back = λ a b c d h.
        ground (arith, h, v.linked.back a b c d, v.named_out a b (c, d), v.fresh_out a);
  };
  named_out = λ a b o h. ground (arith, h, v.named_out a b o);
  named_in = λ a b o h. ground (arith, h, v.named_in a b o);
  fresh_out = λ a h. ground (arith, h, v.fresh_out a);
  fresh_in = λ a h. ground (arith, h, v.fresh_in a);
}

clone_as-Keeps : (o : Option Shape) → Keeps (clone_as o)
unfolding clone_as
clone_as-Keeps none w v = v
clone_as-Keeps (some s) w v = copied-IsValid s w v

pub clone-Keeps : (k : ℕ) → Keeps (clone k)
unfolding clone
clone-Keeps k w v = clone_as-Keeps (w.blueprint k) w v

-- Where a port was found it is one of the kernel's.
pub find_port-contains :
    (name : Option ℕ) (names : List ℕ) (n : ℕ)
    → find_port name names ≡ inr n
    → contains names n ≡ true
unfolding find_port contains
find_port-contains none [] n h = absurd (ground (arith, h))
find_port-contains none (m ∷ []) n h = ground (arith, h)
find_port-contains none (m ∷ k ∷ names) n h = absurd (ground (arith, h))
find_port-contains (some m) names n h = elim (Bool-cases (contains names m)) [
  | inl c ↦ ground (arith, h, c)
  | inr c ↦ absurd (ground (arith, h, c))
]

pub joined-IsValid :
    (a n b m : ℕ) (w : World)
    → IsValid w
    → contains (w.outputs a) n ≡ true
    → contains (w.inputs b) m ≡ true
    → CanJoin a n b m w.ports
    → IsValid (record w { ports = joined a n b m w.ports })
joined-IsValid a n b m w v p q c = record {
  linked = joined-IsLinked a n b m w.ports c v.linked;
  named_out = λ k l o h. ground (arith, h, p, v.named_out k l o);
  named_in = λ k l o h. ground (arith, h, q, v.named_in k l o);
  fresh_out = v.fresh_out;
  fresh_in = v.fresh_in;
}

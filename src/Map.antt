-- ===== src/Map.antt =====
-- raft::map as it is built: the kernels with their ports, `link` and `updateKernels` of
-- raftinc/mapbase.hpp, the lookups of src/port.cpp, and the CLONE macro of raftinc/kernel.hpp. A kernel
-- is a number.
pub mod Valid
pub mod Linking
pub mod Chain
pub mod Build
pub mod Kept
pub mod Added
pub mod Straight
pub mod Checked
pub mod Returns
pub mod Sizes
pub mod Joinless
pub mod Sample
mod Tests
use raft_lib.Topology.{
  Info, Ports, Failure, free_info, join, port_not_found, ambiguous_port, clone_not_implemented,
}
use raft_lib.Prelude.{
  ℕ, ◌+◌, Bool, true, false, ◌&&◌, List, [], ◌∷◌, Option, none, some, ◌==◌, if◌then◌else◌, contains,
  inl, ◌⊎◌, inr,
}

-- What the copy constructor of a kernel's class adds: the ports' names in the order of the port map,
-- and their types.
pub record Shape : Type 0 where
  pub output_names : List ℕ
  pub input_names : List ℕ
  pub output_type : ℕ → ℕ
  pub input_type : ℕ → ℕ

-- The kernels that exist, numbered below `next_kernel`, and the four sets of `MapBase`. `blueprint` is
-- `none` for a class that does not override `clone`.
pub record World : Type 0 where
  pub ports : Ports
  pub outputs : ℕ → List ℕ
  pub inputs : ℕ → List ℕ
  pub internal_alloc : ℕ → Bool
  pub blueprint : ℕ → Option Shape
  pub next_kernel : ℕ
  pub source_kernels : List ℕ
  pub dst_kernels : List ℕ
  pub all_kernels : List ℕ
  pub internally_created_kernels : List ℕ

-- What a call came to: an exception leaves what was done before it, and `undefined` is a failed
-- assertion, an iterator that is read at its end, or the first or last of no groups.
pub data Result {ℓ} (R : Type ℓ) : Type ℓ where
  ok : R → World → Result R
  thrown : Failure → World → Result R
  undefined : Result R

abbrev pub Action {ℓ} : Type ℓ → Type ℓ
Action R = World → Result R

infixl 5 ◌>>=◌ ◌>>◌
abbrev pub ◌>>=◌ {ℓ κ} : {R : Type ℓ} {S : Type κ} → Action R → (R → Action S) → Action S
◌>>=◌ m k w = elim (m w) [ ok r w' ↦ k r w' | thrown e w' ↦ thrown e w' | undefined ↦ undefined ]

abbrev pub ◌>>◌ {ℓ κ} : {R : Type ℓ} {S : Type κ} → Action R → Action S → Action S
m >> k = m >>= λ _. k

abbrev pub act : (World → World) → Action (Unit {0})
act f w = ok tt (f w)

-- `operator +=` of a `kernelkeeper`, a set.
unfoldable pub keep : ℕ → List ℕ → List ℕ
keep k set = if contains set k then set else k ∷ set

abbrev pub has_ports : List ℕ → Bool
has_ports names = elim names [ [] ↦ false | _ ∷ _ ↦ true ]

unfoldable pub update_kernels : ℕ → ℕ → World → World
unfolding keep
update_kernels a b w = record w {
  source_kernels = if has_ports (w.inputs a) then w.source_kernels else keep a w.source_kernels;
  dst_kernels = if has_ports (w.outputs b) then w.dst_kernels else keep b w.dst_kernels;
  all_kernels = keep b (keep a w.all_kernels);
  internally_created_kernels =
      let created =
        if w.internal_alloc a
        then keep a w.internally_created_kernels
        else w.internally_created_kernels in
      if w.internal_alloc b then keep b created else created;
}

-- `getPortInfo` and `getPortInfoFor` for the names of a kernel's ports: the name found.
unfoldable pub get_port_info : List ℕ → Failure ⊎ ℕ
get_port_info [] = inl port_not_found
get_port_info (n ∷ []) = inr n
get_port_info (n ∷ m ∷ names) = inl ambiguous_port

unfoldable pub get_port_info_for : ℕ → List ℕ → Failure ⊎ ℕ
get_port_info_for n names = if contains names n then inr n else inl port_not_found

-- The port that `link` takes: the only one where no name was given.
unfoldable pub find_port : Option ℕ → List ℕ → Failure ⊎ ℕ
unfolding get_port_info get_port_info_for
find_port none names = get_port_info names
find_port (some n) names = get_port_info_for n names

-- A change of one port's record.
unfoldable pub at_port : ℕ → ℕ → (Info → Info) → (ℕ → ℕ → Info) → ℕ → ℕ → Info
at_port k n f ports l m = if (l == k) && (m == n) then f (ports l m) else ports l m

abbrev pub set_buffer : ℕ → Info → Info
set_buffer size i = record i { fixed_buffer_size = size }

abbrev pub set_order : Bool → Info → Info
set_order order i = record i { out_of_order = order }

-- A change of an output, and of an input, of the world.
unfoldable pub at_output : ℕ → ℕ → (Info → Info) → World → World
unfolding at_port
at_output k n f w = record w { ports = record w.ports { output = at_port k n f w.ports.output } }

unfoldable pub at_input : ℕ → ℕ → (Info → Info) → World → World
unfolding at_port
at_input k n f w = record w { ports = record w.ports { input = at_port k n f w.ports.input } }

-- The discovery of a port.
unfoldable pub discover : Option ℕ → (World → List ℕ) → Action ℕ
unfolding find_port
discover name names w = elim (find_port name (names w)) [ inl e ↦ thrown e w | inr n ↦ ok n w ]

unfoldable pub join_ports_of : ℕ → ℕ → ℕ → ℕ → Action (Unit {0})
unfolding join
join_ports_of a name_a b name_b w =
    let (e, p) = join a name_a b name_b w.ports in
    elim e [ none ↦ ok tt (record w { ports = p }) | some x ↦ thrown x (record w { ports = p }) ]

-- `link< order >( a, a_port, b, b_port, buffer )`
unfoldable pub link : Bool → ℕ → Option ℕ → ℕ → Option ℕ → ℕ → Action (ℕ × ℕ)
unfolding update_kernels discover at_output at_input join_ports_of
link order a a_port b b_port buffer = do
  act (update_kernels a b)
  n ← discover a_port (λ w. w.outputs a)
  act (at_output a n (set_buffer buffer))
  m ← discover b_port (λ w. w.inputs b)
  act (at_input b m (set_buffer buffer))
  join_ports_of a n b m
  act (λ w. at_input b m (set_order order) (at_output a n (set_order order) w))
  λ w. ok (a, b) w

-- `clone` of a kernel whose class has the macro CLONE: the ports of the copy are free.
unfoldable pub copied : Shape → World → World
copied s w = record w {
  ports = record {
    output = λ l m. if l == w.next_kernel then free_info (s.output_type m) else w.ports.output l m;
    input = λ l m. if l == w.next_kernel then free_info (s.input_type m) else w.ports.input l m;
  };
  outputs = λ l. if l == w.next_kernel then s.output_names else w.outputs l;
  inputs = λ l. if l == w.next_kernel then s.input_names else w.inputs l;
  internal_alloc = λ l. if l == w.next_kernel then true else w.internal_alloc l;
  blueprint = λ l. if l == w.next_kernel then some s else w.blueprint l;
  next_kernel = w.next_kernel + 1;
}

-- The class's `clone`, where it overrides the one that throws.
unfoldable pub clone_as : Option Shape → Action ℕ
unfolding copied
clone_as none w = thrown clone_not_implemented w
clone_as (some s) w = ok w.next_kernel (copied s w)

unfoldable pub clone : ℕ → Action ℕ
unfolding clone_as
clone k w = clone_as (w.blueprint k) w

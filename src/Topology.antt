-- ===== src/Topology.antt =====
-- How src/mapbase.cpp joins the ports of two kernels and puts a kernel between two others, and how
-- src/kernel.cpp and src/port.cpp look at a kernel's ports. Kernels, names and types are numbers.
pub mod Linked
pub mod Connected
mod Tests
use raft_lib.Prelude.{
  ℕ, Bool, true, false, ◌&&◌, List, [], ◌∷◌, Option, none, some, ◌==◌, if◌then◌else◌,
}

-- What `PortInfo` says of a port: its type, the kernel and name at the other end, `none` where
-- `other_kernel` is null, and two of the settings for the run.
pub record Info : Type 0 where
  pub type : ℕ
  pub other : Option (ℕ × ℕ)
  pub out_of_order : Bool
  pub fixed_buffer_size : ℕ

-- `PortInfo( the_type )`
abbrev pub free_info : ℕ → Info
free_info type = record { type = type; other = none; out_of_order = false; fixed_buffer_size = 0 }

-- The output and input ports of all kernels, by kernel and name.
pub record Ports : Type 0 where
  pub output : ℕ → ℕ → Info
  pub input : ℕ → ℕ → Info

-- The exceptions of raftinc/portexception.hpp and raftinc/mapexception.hpp that are thrown.
pub data Failure : Type 0 where
  port_type_mismatch port_double_initialize port_unconnected port_not_found : Failure
  ambiguous_port port_already_exists clone_not_implemented invalid_topology : Failure

unfoldable pub is_free : Info → Bool
is_free i = elim i.other [ none ↦ true | some _ ↦ false ]

unfoldable pub set_other : ℕ → ℕ → ℕ × ℕ → (ℕ → ℕ → Info) → ℕ → ℕ → Info
set_other k n o ports l m =
    if (l == k) && (m == n) then record (ports l m) { other = some o } else ports l m

-- `join` of output `name_a` of `a` and input `name_b` of `b`: what it throws, and the ports afterwards.
unfoldable pub join : ℕ → ℕ → ℕ → ℕ → Ports → Option Failure × Ports
unfolding is_free set_other
join a name_a b name_b p =
    if (p.output a name_a).type == (p.input b name_b).type
    then (if is_free (p.output a name_a)
        then (if is_free (p.input b name_b)
            then (
              none,
              record {
                output = set_other a name_a (b, name_b) p.output;
                input = set_other b name_b (a, name_a) p.input;
              },
            )
            else (some port_double_initialize, p))
        else (some port_double_initialize, p))
    else (some port_type_mismatch, p)

-- `insert` of kernel `i` between output `name_a` of `a` and input `name_b` of `b`; `zero_in` and
-- `zero_out` are the keys of its port "0".
unfoldable pub insert : ℕ → ℕ → ℕ → ℕ → ℕ → ℕ → ℕ → Ports → Option Failure × Ports
unfolding join
insert a name_a b name_b i zero_in zero_out p =
    let (e, p1) = join a name_a i zero_in p in
    elim e [ some x ↦ (some x, p1) | none ↦ join i zero_out b name_b p1 ]

-- One loop of `allConnected`.
unfoldable pub connected : (ℕ → Info) → List ℕ → Option Failure
unfolding is_free
connected ports [] = none
connected ports (n ∷ names) =
    let rest = connected ports names in if is_free (ports n) then some port_unconnected else rest

unfoldable pub all_connected : ℕ → List ℕ → List ℕ → Ports → Option Failure
unfolding connected
all_connected k inputs outputs p = elim (connected (p.input k) inputs) [
  | some e ↦ some e
  | none ↦ connected (p.output k) outputs
]

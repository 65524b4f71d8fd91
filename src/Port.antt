-- ===== src/Port.antt =====
-- The ports of a kernel, src/port.cpp and raftinc/port.hpp: the map of port records by name, its lookups,
-- and the ways to add a port; and the iterator of src/portiterator.cpp. A name is a number, its
-- readable form another. The order of a hash map is not fixed, and the list has one order.
pub mod Lookup
pub mod Slices
pub mod Iterator
mod Tests
use raft_lib.Prelude.{
  ℕ, zero, suc, ◌+◌, ◌-◌, ◌*◌, ◌/◌, ◌%◌, Bool, true, false, List, [], ◌∷◌, ◌++◌, Option, none, some,
  ◌==◌, if◌then◌else◌, length, ◌⊎◌, inl, inr,
}
use raft_lib.Topology.{Failure, port_not_found, ambiguous_port, port_already_exists}

-- A `PortInfo` and the name that it is stored by: the fields that its constructors set.
-- `existing_buffer` is the offset in the memory that the kernel was given.
pub record PortEntry : Type 0 where
  pub my_name : ℕ
  pub type : ℕ
  pub existing_buffer : Option ℕ
  pub nitems : ℕ
  pub start_index : ℕ

pub record Port : Type 0 where
  pub port_map : List PortEntry
  pub name_map : List (ℕ × ℕ)
  pub alloc_ptr_length : ℕ

-- `map.find( name )` and `map.insert( entry )`, which leaves an entry that is there.
unfoldable pub find : ℕ → List PortEntry → Option PortEntry
find n [] = none
find n (e ∷ es) = if e.my_name == n then some e else find n es

unfoldable pub insert_entry : PortEntry → List PortEntry → Bool × List PortEntry
unfolding find
insert_entry e es = elim (find e.my_name es) [ none ↦ (true, es ++ e ∷ []) | some _ ↦ (false, es) ]

unfoldable pub find_name : ℕ → List (ℕ × ℕ) → Option ℕ
find_name n [] = none
find_name n (e ∷ es) = if e.0 == n then some e.1 else find_name n es

unfoldable pub insert_name : ℕ → ℕ → List (ℕ × ℕ) → List (ℕ × ℕ)
unfolding find_name
insert_name n name es = elim (find_name n es) [ none ↦ es ++ (n, name) ∷ [] | some _ ↦ es ]

unfoldable pub get_port_name : ℕ → Port → Failure ⊎ ℕ
unfolding find_name
get_port_name n p = elim (find_name n p.name_map) [ none ↦ inl port_not_found | some s ↦ inr s ]

-- The exception for a name that was not found, with the readable name in its text.
unfoldable pub not_found {ℓ} : {A : Type ℓ} → ℕ → Port → Failure ⊎ A
unfolding get_port_name
not_found n p = elim (get_port_name n p) [ inl e ↦ inl e | inr _ ↦ inl port_not_found ]

unfoldable pub get_port_info_for : ℕ → Port → Failure ⊎ PortEntry
unfolding find not_found
get_port_info_for n p = elim (find n p.port_map) [ none ↦ not_found n p | some e ↦ inr e ]

unfoldable pub get_port_type : ℕ → Port → Failure ⊎ ℕ
unfolding find not_found
get_port_type n p = elim (find n p.port_map) [ none ↦ not_found n p | some e ↦ inr e.type ]

unfoldable pub get_port_info : Port → Failure ⊎ PortEntry
get_port_info p = elim p.port_map [
  | [] ↦ inl port_not_found
  | e ∷ es ↦ elim es [ [] ↦ inr e | _ ∷ _ ↦ inl ambiguous_port ]
]

unfoldable pub count : Port → ℕ
count p = length p.port_map

unfoldable pub has_any : Port → Bool
has_any p = elim p.port_map [ [] ↦ false | _ ∷ _ ↦ true ]

-- The iterator: a place in the map's order. Its name is `none` at the end, where it must not be read.
unfoldable pub begin_iterator : Port → ℕ
begin_iterator p = 0

unfoldable pub end_iterator : Port → ℕ
unfolding count
end_iterator p = count p

unfoldable pub name_at : ℕ → List PortEntry → Option ℕ
name_at i [] = none
name_at zero (e ∷ es) = some e.my_name
name_at (suc i) (e ∷ es) = name_at i es

-- `for( it = begin(); it != end(); ++it )`, the names that the loop meets; `none` where the iterator is
-- read at the end, or the fuel is out.
unfoldable pub names_from : ℕ → ℕ → Port → Option (List ℕ)
unfolding end_iterator name_at
names_from zero i p = none
names_from (suc fuel) i p =
    let rest = names_from fuel (i + 1) p in
    if i == end_iterator p then some [] else (elim (name_at i p.port_map) [
      | none ↦ none
      | some n ↦ elim rest [ none ↦ none | some ns ↦ some (n ∷ ns) ]
    ])

-- `add_port< T >( name )`: the exception, if any, and the ports that are left.
unfoldable pub add_port : ℕ → ℕ → ℕ → Port → Option Failure × Port
unfolding insert_entry insert_name get_port_name
add_port ty n name p =
    let entry : PortEntry = record {
      my_name = n;
      type = ty;
      existing_buffer = none;
      nitems = 0;
      start_index = 0;
    } in
    let (inserted, entries) = insert_entry entry p.port_map in
    if inserted
    then (none, record p { port_map = entries; name_map = insert_name n name p.name_map })
    else (
      elim (get_port_name n p) [ inl e ↦ some e | inr _ ↦ some port_already_exists ],
      record p { port_map = entries },
    )

-- `addPort< T >( names... )`
unfoldable pub add_ports : ℕ → List (ℕ × ℕ) → Port → Option Failure × Port
unfolding add_port
add_ports ty [] p = (none, p)
add_ports ty (n ∷ names) p =
    let (e, q) = add_port ty n.0 n.1 p in
    elim e [ some x ↦ (some x, q) | none ↦ add_ports ty names q ]

-- The record of the port `index` of `n_ports` that share a buffer of elements of `size` bytes.
unfoldable pub slice : ℕ → ℕ → ℕ → ℕ → ℕ → ℕ → PortEntry
slice ty size inc adder n_ports index = record {
  my_name = index;
  type = ty;
  existing_buffer = some (index * inc * size);
  nitems = inc + (if index == n_ports - 1 then adder else 0);
  start_index = index * inc;
}

-- The loop, with `left` ports to go.
unfoldable pub add_slices : ℕ → ℕ → ℕ → ℕ → ℕ → ℕ → ℕ → Port → Port
unfolding slice insert_entry insert_name
add_slices ty size inc adder n_ports zero index p = p
add_slices ty size inc adder n_ports (suc left) index p =
    add_slices ty size inc adder n_ports left (index + 1) (record p {
      port_map = (insert_entry (slice ty size inc adder n_ports index) p.port_map).1;
      name_map = insert_name index index p.name_map;
    })

-- `addInPlacePorts< T >( n_ports )`; a division by zero is `none`.
unfoldable pub add_in_place_ports : ℕ → ℕ → ℕ → Port → Option Port
unfolding add_slices
add_in_place_ports ty size zero p = none
add_in_place_ports ty size (suc n) p =
    let n_ports = suc n in
    let all = p.alloc_ptr_length / size in
    some (add_slices ty size (all / n_ports) (all % n_ports) n_ports n_ports 0 p)

-- ===== src/Port/Lookup.antt =====
-- `add_port` of raftinc/port.hpp and the lookups of src/port.cpp.
use raft_lib.Prelude.{
  ℕ, ◌≡◌, ◌≢◌, inr, List, [], ◌∷◌, ◌++◌, none, some, Option, refl, arith, false, subst,
  if◌then◌else◌, ◌==◌, sym, true, ap, Bool, ◌∙◌,
}
use raft_lib.Topology.{port_already_exists}
use raft_lib.Port.{
  Port, PortEntry, find, find_name, insert_entry, insert_name, get_port_name, not_found,
  get_port_info_for, add_port,
}

find-append :
    (m : ℕ) (es : List PortEntry) (e : PortEntry)
    → find m (es ++ e ∷ [])
      ≡ elim (find m es) [ some x ↦ some x | none ↦ if e.my_name == m then some e else none ]
unfolding find
find-append m [] e = refl
find-append m (d ∷ es) e = ground (arith, find-append m es e)

find_name-append :
    (m : ℕ) (es : List (ℕ × ℕ)) (e : ℕ × ℕ)
    → find_name m (es ++ e ∷ [])
      ≡ elim (find_name m es) [ some x ↦ some x | none ↦ if e.0 == m then some e.1 else none ]
unfolding find_name
find_name-append m [] e = refl
find_name-append m (d ∷ es) e = ground (arith, find_name-append m es e)

abbrev pub is_some {ℓ} : {A : Type ℓ} → Option A → Bool
is_some none = false
is_some (some _) = true

-- A name has a port where it has a readable form.
pub record HasNames (p : Port) : Type 0 where
  pub same : (n : ℕ) → is_some (find_name n p.name_map) ≡ is_some (find n p.port_map)

abbrev pub new_entry : ℕ → ℕ → PortEntry
new_entry ty n = record {
  my_name = n;
  type = ty;
  existing_buffer = none;
  nitems = 0;
  start_index = 0;
}

-- The ports behind an `add_port` that went through.
abbrev added : ℕ → ℕ → ℕ → Port → Port
added ty n name p = record p {
  port_map = p.port_map ++ new_entry ty n ∷ [];
  name_map = p.name_map ++ (n, name) ∷ [];
}

add_port_new :
    (ty n name : ℕ) (p : Port)
    → HasNames p
    → find n p.port_map ≡ none
    → add_port ty n name p ≡ (none, added ty n name p)
unfolding add_port insert_entry insert_name
add_port_new ty n name p v h =
    let g : find_name n p.name_map ≡ none = ground (arith, h, v.same n) in ground (arith, g, h)

added-HasNames : (ty n name : ℕ) (p : Port) → HasNames p → HasNames (added ty n name p)
added-HasNames ty n name p v = record {
  same = λ m.
      ap is_some (find_name-append m p.name_map (n, name))
      ∙ ground (arith, v.same m)
      ∙ sym (ap is_some (find-append m p.port_map (new_entry ty n)));
}

added-get_port_name :
    (ty n name : ℕ) (p : Port)
    → HasNames p
    → find n p.port_map ≡ none
    → get_port_name n (added ty n name p) ≡ inr name
unfolding get_port_name
added-get_port_name ty n name p v h =
    let g : find_name n p.name_map ≡ none = ground (arith, h, v.same n) in
    ground (arith, g, find_name-append n p.name_map (n, name))

added_other :
    (ty n name : ℕ) (p : Port) (m : ℕ)
    → m ≢ n
    → get_port_info_for m (added ty n name p) ≡ get_port_info_for m p
unfolding get_port_info_for get_port_name not_found
added_other ty n name p m d =
    ground
      (arith, d, find-append m p.port_map (new_entry ty n), find_name-append m p.name_map (n, name))

-- Where no port has the name, `add_port` goes through: then the name leads to a port of the given type
-- and to its readable form, and the lookup of another name comes to what it came to before.
pub add_port-get_port_info_for :
    (ty n name : ℕ) (p : Port)
    → HasNames p
    → find n p.port_map ≡ none
    → let (e, q) = add_port ty n name p in
      (e ≡ none)
      × HasNames q
      × (get_port_info_for n q ≡ inr (new_entry ty n))
      × (get_port_name n q ≡ inr name)
      × ((m : ℕ) → m ≢ n → get_port_info_for m q ≡ get_port_info_for m p)
unfolding get_port_info_for
add_port-get_port_info_for ty n name p v h =
    subst
      (λ r.
        (r.0 ≡ none)
        × HasNames r.1
        × (get_port_info_for n r.1 ≡ inr (new_entry ty n))
        × (get_port_name n r.1 ≡ inr name)
        × ((m : ℕ) → m ≢ n → get_port_info_for m r.1 ≡ get_port_info_for m p))
      (sym (add_port_new ty n name p v h))
      (
        refl,
        added-HasNames ty n name p v,
        ground (arith, h, find-append n p.port_map (new_entry ty n)),
        added-get_port_name ty n name p v h,
        added_other ty n name p,
      )

-- Where a port has the name, `add_port` throws, and no port is added or changed.
pub add_port-twice :
    (ty n name : ℕ) (p : Port) (e : PortEntry)
    → HasNames p
    → find n p.port_map ≡ some e
    → add_port ty n name p ≡ (some port_already_exists, p)
unfolding add_port insert_entry get_port_name
add_port-twice ty n name p e v h =
    let g : is_some (find_name n p.name_map) ≡ true = ground (arith, h, v.same n) in
    ground (arith, g, h)

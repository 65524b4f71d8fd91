-- ===== src/Port/Slices.antt =====
-- `addInPlacePorts` of raftinc/port.hpp.
use raft_lib.Prelude.{
  ℕ, zero, suc, ◌+◌, ◌*◌, ◌/◌, ◌%◌, ◌≡◌, ◌<◌, List, [], ◌∷◌, ◌++◌, none, some, refl, arith, ◌∙◌,
  sym, ap, subst, length, length-append,
}
use raft_lib.Port.{Port, PortEntry, slice, add_slices, add_in_place_ports, insert_entry, find}

-- The entries lie one behind the other, without a gap, from element `first` to element `last`, each at
-- the byte of the kernel's buffer where its first element of `size` bytes stands.
abbrev pub AreConsecutive : ℕ → ℕ → List PortEntry → ℕ → Type 0
AreConsecutive size first [] last = first ≡ last
AreConsecutive size first (e ∷ es) last =
    (e.start_index ≡ first)
    × (e.existing_buffer ≡ some (first * size))
    × AreConsecutive size (first + e.nitems) es last

consecutive_append :
    (size : ℕ) (es : List PortEntry) (e : PortEntry) (first mid : ℕ)
    → AreConsecutive size first es mid
    → e.start_index ≡ mid
    → e.existing_buffer ≡ some (mid * size)
    → AreConsecutive size first (es ++ e ∷ []) (mid + e.nitems)
consecutive_append size [] e first mid h g b =
    (g ∙ sym h, b ∙ ap (λ m. some (m * size)) (sym h), ap (λ m. m + e.nitems) h)
consecutive_append size (d ∷ es) e first mid h g b =
    (h.0, h.1, consecutive_append size es e (first + d.nitems) mid h.2 g b)

-- No entry has name `i` or a greater one.
abbrev AreBelow : ℕ → List PortEntry → Type 0
AreBelow i [] = Unit
AreBelow i (e ∷ es) = (e.my_name < i) × AreBelow i es

find-none : (es : List PortEntry) (i : ℕ) → AreBelow i es → find i es ≡ none
unfolding find
find-none [] i h = refl
find-none (e ∷ es) i h = ground (arith, h.0, find-none es i h.1)

below_append :
    (es : List PortEntry) (e : PortEntry) (i : ℕ)
    → AreBelow i es
    → e.my_name ≡ i
    → AreBelow (i + 1) (es ++ e ∷ [])
below_append [] e i h g = (ground (arith, g), tt)
below_append (d ∷ es) e i h g = (ground (arith, h.0), below_append es e i h.1 g)

insert_below :
    (e : PortEntry) (es : List PortEntry)
    → AreBelow e.my_name es
    → (insert_entry e es).1 ≡ es ++ e ∷ []
unfolding insert_entry
insert_below e es h = ground (arith, find-none es e.my_name h)

-- The ports so far have names below `index` and lie in front of its slice.
record IsFilled (size inc index : ℕ) (es : List PortEntry) : Type 0 where
  below : AreBelow index es
  filled : AreConsecutive size 0 es (index * inc)
  many : length es ≡ index

module _ (ty size inc adder n : ℕ) where
  abbrev appended : ℕ → Port → List PortEntry
  appended index p = (insert_entry (slice ty size inc adder n index) p.port_map).1

  -- A slice that is not the last.
  appended-IsFilled :
      (index : ℕ) (p : Port)
      → suc index < n
      → IsFilled size inc index p.port_map
      → IsFilled size inc (index + 1) (appended index p)
  unfolding slice
  appended-IsFilled index p l f =
      let e = slice ty size inc adder n index in
      subst (IsFilled size inc (index + 1)) (sym (insert_below e p.port_map f.below)) (record {
        below = below_append p.port_map e index f.below refl;
        filled =
            subst (AreConsecutive size 0 (p.port_map ++ e ∷ [])) (grind (arith, l))
              (consecutive_append size p.port_map e 0 (index * inc) f.filled refl refl);
        many = length-append p.port_map (e ∷ []) ∙ ap (λ m. m + 1) f.many;
      })

  -- The last slice.
  appended_last :
      (index : ℕ) (p : Port)
      → suc index ≡ n
      → IsFilled size inc index p.port_map
      → AreConsecutive size 0 (appended index p) (n * inc + adder) × (length (appended index p) ≡ n)
  unfolding slice
  appended_last index p l f =
      let e = slice ty size inc adder n index in
      subst (λ es. AreConsecutive size 0 es (n * inc + adder) × (length es ≡ n))
        (sym (insert_below e p.port_map f.below))
        (
          subst (AreConsecutive size 0 (p.port_map ++ e ∷ []))
              (grind (arith, l, ap (λ m. m * inc) l))
              (consecutive_append size p.port_map e 0 (index * inc) f.filled refl refl),
          length-append p.port_map (e ∷ []) ∙ ap (λ m. m + 1) f.many ∙ ground (arith, l),
        )

  add_slices-AreConsecutive :
      (left index : ℕ) (p : Port)
      → suc left + index ≡ n
      → IsFilled size inc index p.port_map
      → let q = add_slices ty size inc adder n (suc left) index p in
        AreConsecutive size 0 q.port_map (n * inc + adder) × (length q.port_map ≡ n)
  unfolding add_slices
  add_slices-AreConsecutive zero index p h f = appended_last index p (ground (arith, h)) f
  add_slices-AreConsecutive (suc left) index p h f =
      add_slices-AreConsecutive left (index + 1) _ (ground (arith, h))
        (appended-IsFilled index p (ground (arith, h)) f)

-- For at least one port and a kernel without ports, `addInPlacePorts` adds that many ports, and their
-- slices of the kernel's buffer lie one behind the other, from the first element to the last that fits:
-- the index and the address of each are those of the element behind the slice before it.
pub add_in_place_ports-AreConsecutive :
    (ty size n : ℕ) (p : Port)
    → 0 < n
    → p.port_map ≡ []
    → (q : Port) × (add_in_place_ports ty size n p ≡ some q)
      × AreConsecutive size 0 q.port_map (p.alloc_ptr_length / size)
      × (length q.port_map ≡ n)
unfolding add_in_place_ports
add_in_place_ports-AreConsecutive ty size zero p l h = absurd (ground (arith, l))
add_in_place_ports-AreConsecutive ty size (suc n) p l h =
    let all = p.alloc_ptr_length / size in
    let f : IsFilled size (all / suc n) 0 p.port_map =
      subst (IsFilled size (all / suc n) 0) (sym h)
        (record { below = tt; filled = ground arith; many = refl }) in
    let (c, m) =
      add_slices-AreConsecutive ty size (all / suc n) (all % suc n) (suc n) n 0 p (ground arith)
        f in
    (_, refl, subst (AreConsecutive size 0 _) (ground arith) c, m)

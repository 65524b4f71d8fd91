-- ===== src/Port/Iterator.antt =====
-- A loop over the ports of a kernel by src/portiterator.cpp.
use raft_lib.Prelude.{
  ℕ, zero, suc, ◌<◌, ◌≡◌, List, [], ◌∷◌, ◌++◌, some, refl, arith, length, map, length-append, ap,
  ◌∙◌,
}
use raft_lib.Port.{Port, PortEntry, names_from, name_at, begin_iterator, end_iterator, count}

name_at-append :
    (pre : List PortEntry) (e : PortEntry) (es : List PortEntry) (i : ℕ)
    → i ≡ length pre
    → name_at i (pre ++ e ∷ es) ≡ some e.my_name
unfolding name_at
name_at-append [] e es zero h = refl
name_at-append [] e es (suc i) h = absurd (ground (arith, h))
name_at-append (d ∷ pre) e es zero h = absurd (ground (arith, h))
name_at-append (d ∷ pre) e es (suc i) h = name_at-append pre e es i (ground (arith, h))

append_one :
    (pre : List PortEntry) (e : PortEntry) (es : List PortEntry)
    → pre ++ e ∷ es ≡ (pre ++ e ∷ []) ++ es
append_one [] e es = refl
append_one (d ∷ pre) e es = ap (λ l. d ∷ l) (append_one pre e es)

names_from-append :
    (es pre : List PortEntry) (fuel : ℕ) (p : Port)
    → length es < fuel
    → p.port_map ≡ pre ++ es
    → names_from fuel (length pre) p ≡ some (map (λ e. e.my_name) es)
unfolding names_from end_iterator count
names_from-append es pre zero p l h = absurd (ground (arith, l))
names_from-append [] pre (suc fuel) p l h = ground (arith, ap length h, length-append pre [])
names_from-append (e ∷ es) pre (suc fuel) p l h = ground (
  arith,
  ap length h,
  length-append pre (e ∷ es),
  ap (name_at (length pre)) h,
  name_at-append pre e es (length pre) refl,
  ap (λ i. names_from fuel i p) (length-append pre (e ∷ [])),
  names_from-append es (pre ++ e ∷ []) fuel p (ground (arith, l)) (h ∙ append_one pre e es),
)

-- A loop from `begin` to `end` meets every port once, in the map's order, and never reads the iterator at
-- the end.
pub names_from-begin_iterator :
    (p : Port) (fuel : ℕ)
    → count p < fuel
    → names_from fuel (begin_iterator p) p ≡ some (map (λ e. e.my_name) p.port_map)
unfolding begin_iterator count
names_from-begin_iterator p fuel h = names_from-append p.port_map [] fuel p h refl

-- ===== src/Map/Sizes.antt =====
-- The groups of kernels that `inline_cont` of src/map.cpp makes.
use raft_lib.Prelude.{
  ℕ, zero, suc, ◌+◌, ◌≡◌, List, [], ◌∷◌, ◌++◌, length, map, refl, ap, ◌∙◌, arith, length-append,
  subst, sym,
}
use raft_lib.Map.{World, clone}
use raft_lib.Map.Returns.{Returns, Always, Always-bind, clone-Always, joink-then-Always}
use raft_lib.Map.Chain.{
  KPair, Groups, cont_kernel, cont_group, inline_cont, first_empty, to_first, to_last,
}

abbrev pub sizes : Groups → List ℕ
sizes groups = map length groups

abbrev bump_last : List ℕ → List ℕ
bump_last [] = []
bump_last (n ∷ []) = suc n ∷ []
bump_last (n ∷ m ∷ ns) = n ∷ bump_last (m ∷ ns)

to_last-sizes : (k : ℕ) (temp : Groups) → sizes (to_last k temp) ≡ bump_last (sizes temp)
unfolding to_last
to_last-sizes k [] = refl
to_last-sizes k (g ∷ []) = ap (λ n. n ∷ []) (grind (arith, length-append g (k ∷ [])))
to_last-sizes k (g ∷ h ∷ gs) = ap (λ ns. length g ∷ ns) (to_last-sizes k (h ∷ gs))

-- There is a group, and the first one is empty only where it is the only one.
abbrev IsOpen : Groups → Type 0
IsOpen [] = ⊥
IsOpen (g ∷ []) = Unit
IsOpen ([] ∷ h ∷ gs) = ⊥
IsOpen ((k ∷ g) ∷ h ∷ gs) = Unit

-- One kernel is put in the last group.
abbrev IsBumped : Groups → Groups × KPair → Type 0
IsBumped temp r = (sizes r.0 ≡ bump_last (sizes temp)) × IsOpen r.0

to_last-IsOpen : (k : ℕ) (temp : Groups) → IsOpen temp → IsOpen (to_last k temp)
unfolding to_last
to_last-IsOpen k [] o = absurd o
to_last-IsOpen k (g ∷ []) o = tt
to_last-IsOpen k ([] ∷ h ∷ gs) o = absurd o
to_last-IsOpen k ((j ∷ g) ∷ h ∷ []) o = tt
to_last-IsOpen k ((j ∷ g) ∷ h ∷ i ∷ gs) o = tt

cont_kernel-IsBumped :
    (kernel : ℕ) (temp : Groups) (next : KPair)
    → IsOpen temp
    → Always (IsBumped temp) (cont_kernel kernel temp next)
unfolding cont_kernel first_empty to_first
cont_kernel-IsBumped kernel [] next o = absurd o
cont_kernel-IsBumped kernel ([] ∷ []) next o =
    joink-then-Always (IsBumped ([] ∷ [])) next _ (refl, tt)
cont_kernel-IsBumped kernel ([] ∷ h ∷ gs) next o = absurd o
cont_kernel-IsBumped kernel ((k ∷ g) ∷ gs) next o =
    let temp : Groups = (k ∷ g) ∷ gs in
    Always-bind (λ _. Unit) (IsBumped temp) (clone next.dst) _ (clone-Always next.dst)
      (λ c _.
        let next' = record next { src = kernel; dst = c } in
        joink-then-Always (IsBumped temp) next' (to_last c temp, next')
          (to_last-sizes c temp, to_last-IsOpen c temp o))

abbrev bumps : ℕ → List ℕ → List ℕ
bumps zero ns = ns
bumps (suc n) ns = bumps n (bump_last ns)

cont_group-sizes :
    (group : List ℕ) (temp : Groups) (next : KPair)
    → IsOpen temp
    → Always
        (λ r. (sizes r.0 ≡ bumps (length group) (sizes temp)) × IsOpen r.0)
        (cont_group group temp next)
unfolding cont_group
cont_group-sizes [] temp next o = λ w. (refl, o)
cont_group-sizes (k ∷ group) temp next o =
    Always-bind (IsBumped temp) _ (cont_kernel k temp next) _ (cont_kernel-IsBumped k temp next o)
      (λ r b.
        subst
          (λ ns.
            Always (λ q. (sizes q.0 ≡ bumps (length group) ns) × IsOpen q.0)
              (cont_group group r.0 r.1))
          b.0 (cont_group-sizes group r.0 r.1 b.1))

bump_last-append : (ns : List ℕ) (n : ℕ) → bump_last (ns ++ n ∷ []) ≡ ns ++ suc n ∷ []
bump_last-append [] n = refl
bump_last-append (m ∷ []) n = refl
bump_last-append (m ∷ l ∷ ns) n = ap (λ k. m ∷ k) (bump_last-append (l ∷ ns) n)

bumps-append : (k : ℕ) (ns : List ℕ) (n : ℕ) → bumps k (ns ++ n ∷ []) ≡ ns ++ (k + n) ∷ []
bumps-append zero ns n = ap (λ m. ns ++ m ∷ []) (ground arith)
bumps-append (suc k) ns n =
    ap (bumps k) (bump_last-append ns n)
    ∙ bumps-append k ns (suc n)
    ∙ ap (λ m. ns ++ m ∷ []) (ground arith)

-- There is no group yet, or the first one has a kernel.
abbrev IsStarted : Groups → Type 0
IsStarted [] = Unit
IsStarted ([] ∷ gs) = ⊥
IsStarted ((k ∷ g) ∷ gs) = Unit

opened-IsOpen : (temp : Groups) → IsStarted temp → IsOpen (temp ++ [] ∷ [])
opened-IsOpen [] s = tt
opened-IsOpen ([] ∷ gs) s = absurd s
opened-IsOpen ((k ∷ g) ∷ []) s = tt
opened-IsOpen ((k ∷ g) ∷ h ∷ gs) s = tt

sizes-IsStarted :
    (temp groups : Groups) (n : ℕ)
    → IsStarted temp
    → sizes groups ≡ sizes temp ++ suc n ∷ []
    → IsStarted groups
sizes-IsStarted temp [] n s h = tt
sizes-IsStarted temp ((k ∷ g) ∷ gs) n s h = tt
sizes-IsStarted [] ([] ∷ gs) n s h = absurd (ground (arith, h))
sizes-IsStarted ([] ∷ hs) ([] ∷ gs) n s h = absurd s
sizes-IsStarted ((j ∷ f) ∷ hs) ([] ∷ gs) n s h = absurd (ground (arith, h))

sizes-append : (xs ys : Groups) → sizes (xs ++ ys) ≡ sizes xs ++ sizes ys
sizes-append [] ys = refl
sizes-append (x ∷ xs) ys = ap (λ ns. length x ∷ ns) (sizes-append xs ys)

append_sizes : (ns ms : List ℕ) (n : ℕ) → (ns ++ n ∷ []) ++ ms ≡ ns ++ n ∷ ms
append_sizes [] ms n = refl
append_sizes (m ∷ ns) ms n = ap (λ k. m ∷ k) (append_sizes ns ms n)

append_nil : (ns : List ℕ) → ns ++ [] ≡ ns
append_nil [] = refl
append_nil (m ∷ ns) = ap (λ k. m ∷ k) (append_nil ns)

-- Every group has a kernel.
abbrev pub AreFilled : Groups → Type 0
AreFilled [] = Unit
AreFilled ([] ∷ gs) = ⊥
AreFilled ((k ∷ g) ∷ gs) = AreFilled gs

inline_cont-append :
    (groups temp : Groups) (next : KPair)
    → AreFilled groups
    → IsStarted temp
    → Always (λ r. sizes r.0 ≡ sizes temp ++ sizes groups) (inline_cont groups temp next)
unfolding inline_cont
inline_cont-append [] temp next f s = λ w. sym (append_nil (sizes temp))
inline_cont-append ([] ∷ groups) temp next f s = absurd f
inline_cont-append ((k ∷ g) ∷ groups) temp next f s =
    Always-bind _ _ (cont_group (k ∷ g) (temp ++ [] ∷ []) next) _
      (cont_group-sizes (k ∷ g) (temp ++ [] ∷ []) next (opened-IsOpen temp s))
      (λ r b.
        let e : sizes r.0 ≡ sizes temp ++ suc (length g) ∷ [] =
          b.0
          ∙ ap (bumps (suc (length g))) (sizes-append temp ([] ∷ []))
          ∙ bumps-append (suc (length g)) (sizes temp) 0
          ∙ ap (λ n. sizes temp ++ n ∷ []) (ground arith) in
        subst (λ ns. Always (λ q. sizes q.0 ≡ ns) (inline_cont groups r.0 r.1))
          (ap (λ ns. ns ++ sizes groups) e
            ∙ append_sizes (sizes temp) (sizes groups) (suc (length g)))
          (inline_cont-append groups r.0 r.1 f (sizes-IsStarted temp r.0 (length g) s e)))

-- Where every group has a kernel, `inline_cont` throws or it makes, for each group, one with as many
-- kernels; no assertion fails in it.
pub inline_cont-sizes :
    (groups : Groups) (next : KPair) (w : World)
    → AreFilled groups
    → Returns (λ r. sizes r.0 ≡ sizes groups) (inline_cont groups [] next w)
inline_cont-sizes groups next w f = inline_cont-append groups [] next f tt w

-- ===== src/Map/Straight.antt =====
-- A chain that neither splits nor joins, through `operator +=` of src/map.cpp.
use raft_lib.Prelude.{ℕ, ◌≡◌, refl, List, [], ◌∷◌, some, subst, sym, arith, ap, true, ◌∙◌, ap₂}
use raft_lib.Map.{World, Result, Action, ◌>>=◌, ◌>>◌, ok, thrown, undefined}
use raft_lib.Map.Chain.{KPair, joink, inline_cont, cont_group, cont_kernel, first_empty, to_first}
use raft_lib.Map.Build.{
  cont, next_link_type, Loop, cont_round, round_as, rounds, begin, add_chain, next_round, flatten,
}

-- All pairs are made by `>>`.
abbrev pub IsStraight : List KPair → Type 0
IsStraight [] = Unit
IsStraight (p ∷ chain) = (next_link_type p ≡ some cont) × IsStraight chain

-- The pairs are linked one after another.
abbrev pub link_all : List KPair → Action (Unit {0})
link_all [] = λ w. ok tt w
link_all (p ∷ chain) = joink p >> link_all chain

abbrev pub last_dst : ℕ → List KPair → ℕ
last_dst k [] = k
last_dst k (p ∷ chain) = last_dst p.dst chain

-- The loop's variables where kernel `k` is the only one of the round, and behind the rounds.
abbrev at_kernel : ℕ → Loop → Loop
at_kernel k l = record l { groups = (k ∷ []) ∷ [] }

abbrev after : List KPair → ℕ → Loop → Loop
after [] k l = at_kernel k l
after (p ∷ chain) k l = after chain p.dst (next_round ((k ∷ []) ∷ []) ((p.dst ∷ []) ∷ []) p l)

-- The calls that a call is nested in come behind it.
nested_binds {ℓ} :
    {A B C D E : Type ℓ} (r : Result A) (f : A → Action B) (g : B → Action C) (h : C → Action D)
    (i : D → Action E) (w : World)
    → (((((λ _. r) >>= f) >>= g) >>= h) >>= i) w ≡ ((λ _. r) >>= λ x. ((f x >>= g) >>= h) >>= i) w
nested_binds (ok x w') f g h i w = refl
nested_binds (thrown e w') f g h i w = refl
nested_binds undefined f g h i w = refl

cont_round_link :
    (p : KPair) (k : ℕ) (l : Loop) (w : World)
    → cont_round p (at_kernel k l) w
      ≡ (joink p >>= λ _ w'. ok (next_round ((k ∷ []) ∷ []) ((p.dst ∷ []) ∷ []) p l) w') w
unfolding cont_round inline_cont cont_group cont_kernel first_empty to_first next_round
cont_round_link p k l w =
    nested_binds (joink p w) (λ _ w'. ok ((p.dst ∷ []) ∷ [], p) w') (λ r. cont_group [] r.0 r.1)
      (λ r. inline_cont [] r.0 r.1) (λ r w'. ok (next_round ((k ∷ []) ∷ []) r.0 r.1 l) w') w

bind_assoc {ℓ κ μ} :
    {R : Type ℓ} {S : Type κ} {T : Type μ} (r : Result R) (f : R → Action S) (g : S → Action T)
    (w : World)
    → (((λ _. r) >>= f) >>= g) w ≡ ((λ _. r) >>= λ x. f x >>= g) w
bind_assoc (ok x w') f g w = refl
bind_assoc (thrown e w') f g w = refl
bind_assoc undefined f g w = refl

-- Calls that come to the same go on in the same way.
bind_same {ℓ κ} :
    {R : Type ℓ} {S : Type κ} (r : Result R) (f g : R → Action S) (w : World)
    → ((x : R) (w' : World) → f x w' ≡ g x w')
    → ((λ _. r) >>= f) w ≡ ((λ _. r) >>= g) w
bind_same (ok x w') f g w h = h x w'
bind_same (thrown e w') f g w h = refl
bind_same undefined f g w h = refl

round_as_cont :
    (p : KPair) (k : ℕ) (l : Loop)
    → next_link_type p ≡ some cont
    → round_as (next_link_type p) p (at_kernel k l) ≡ cont_round p (at_kernel k l)
unfolding round_as
round_as_cont p k l h =
    subst (λ t. round_as t p (at_kernel k l) ≡ cont_round p (at_kernel k l)) (sym h) refl

rounds_link :
    (chain : List KPair) (k : ℕ) (l : Loop) (w : World)
    → IsStraight chain
    → rounds chain (at_kernel k l) w ≡ (link_all chain >>= λ _ w'. ok (after chain k l) w') w
unfolding rounds next_round
rounds_link [] k l w s = refl
rounds_link (p ∷ chain) k l w s =
    let next = next_round ((k ∷ []) ∷ []) ((p.dst ∷ []) ∷ []) p l in
    ap (λ r. ((λ _. r) >>= rounds chain) w)
      (ap (λ m. m w) (round_as_cont p k l s.0) ∙ cont_round_link p k l w)
    ∙ bind_assoc (joink p w) (λ _ w'. ok next w') (rounds chain) w
    ∙ bind_same (joink p w) (λ _. rounds chain next)
        (λ _. link_all chain >>= λ _ w'. ok (after chain p.dst next) w') w
        (λ x w'. rounds_link chain p.dst next w' s.1)
    ∙ sym (bind_assoc (joink p w) (λ _. link_all chain) (λ _ w'. ok (after chain p.dst next) w') w)

after-groups :
    (chain : List KPair) (k : ℕ) (l : Loop)
    → (after chain k l).groups ≡ (last_dst k chain ∷ []) ∷ []
after-groups [] k l = refl
after-groups (p ∷ chain) k l = after-groups chain p.dst _

after-source :
    (chain : List KPair) (k : ℕ) (l : Loop)
    → l.initialized ≡ true
    → (after chain k l).source ≡ l.source
unfolding next_round
after-source [] k l h = refl
after-source (p ∷ chain) k l h = after-source chain p.dst _ refl ∙ ground (arith, h)

-- A chain whose pairs were all made by `>>` is added by linking its pairs one after another, up to the
-- first link that throws; what is given back is the source of its first pair and the destination of
-- its last one.
pub add_chain-link_all :
    (head : KPair) (chain : List KPair) (w : World)
    → IsStraight (head ∷ chain)
    → add_chain head chain w
      ≡ (link_all (head ∷ chain) >>= λ _ w'. ok (head.src ∷ [], last_dst head.dst chain ∷ []) w') w
unfolding add_chain begin flatten next_round
add_chain-link_all head chain w s =
    ap (λ r. ((λ _. r) >>= λ l w'. ok (l.source, flatten l.groups) w') w)
      (rounds_link (head ∷ chain) head.src (begin head) w s)
    ∙ bind_assoc (link_all (head ∷ chain) w)
        (λ _ w'. ok (after (head ∷ chain) head.src (begin head)) w')
        (λ l w'. ok (l.source, flatten l.groups) w') w
    ∙ bind_same (link_all (head ∷ chain) w) _ _ w (λ _ w'.
      ap₂ (λ s' g. ok (s', flatten g) w') (after-source chain head.dst _ refl)
        (after-groups chain head.dst _))

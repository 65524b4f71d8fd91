-- ===== src/Split/Lost.antt =====
-- The items that `run` of raftinc/split.tcc sends.
use raft_lib.Prelude.{
  ℕ, zero, suc, ◌+◌, ◌-◌, ◌<◌, ◌≡◌, List, [], ◌∷◌, ◌++◌, Option, none, some, length, length-append,
  arith, ap, take, map, refl, ◌∙◌, subst,
}
use raft_lib.Split.{Channel, space_avail, send_range, split_run, shown_as}

module _ {ℓ} {A : Type ℓ} where
  abbrev pub total : List (Channel A) → ℕ
  total [] = 0
  total (c ∷ cs) = length c.items + total cs

  abbrev pub AreFull : List (Channel A) → Type 0
  AreFull [] = Unit
  AreFull (c ∷ cs) = (space_avail c ≡ 0) × AreFull cs

  -- The outputs behind a run that sends the window to `c`.
  abbrev pub sent :
      List (Channel A) → Channel A → List (Channel A) → List (A × ℕ) → List (Channel A)
  sent front c back range =
      front ++ record c { items = c.items ++ take (space_avail c) range } ∷ back

  abbrev pub items_of : List (A × ℕ) → List A
  items_of xs = map (λ x. x.0) xs

  send_range-sent :
      (front : List (Channel A)) (c : Channel A) (back : List (Channel A)) (range : List (A × ℕ))
      → AreFull front
      → 0 < space_avail c
      → send_range range (front ++ c ∷ back) ≡ some (sent front c back range)
  unfolding send_range
  send_range-sent [] c back range f l = ground (arith, l)
  send_range-sent (d ∷ front) c back range f l =
      ground (arith, f.0, send_range-sent front c back range f.1 l)

  length-take : (n : ℕ) (xs : List (A × ℕ)) → length (take n xs) + (length xs - n) ≡ length xs
  length-take zero xs = omega arith
  length-take (suc n) [] = omega arith
  length-take (suc n) (x ∷ xs) = omega (arith, length-take n xs)

  total-append : (xs ys : List (Channel A)) → total (xs ++ ys) ≡ total xs + total ys
  total-append [] ys = omega arith
  total-append (x ∷ xs) ys = omega (arith, total-append xs ys)

  length-shown_as :
      (signals : List ℕ) (input : List (A × ℕ))
      → length signals ≡ length input
      → length (shown_as signals input) ≡ length input
  unfolding shown_as
  length-shown_as signals [] e = refl
  length-shown_as [] (x ∷ input) e = absurd (omega (arith, e))
  length-shown_as (s ∷ signals) (x ∷ input) e =
      ap suc (length-shown_as signals input (omega (arith, e)))

  items_of-shown_as :
      (signals : List ℕ) (input : List (A × ℕ))
      → length signals ≡ length input
      → items_of (shown_as signals input) ≡ items_of input
  unfolding shown_as
  items_of-shown_as signals [] e = refl
  items_of-shown_as [] (x ∷ input) e = absurd (omega (arith, e))
  items_of-shown_as (s ∷ signals) (x ∷ input) e =
      ap (λ t. x.0 ∷ t) (items_of-shown_as signals input (omega (arith, e)))

  map-take : (n : ℕ) (xs : List (A × ℕ)) → items_of (take n xs) ≡ take n (items_of xs)
  map-take zero xs = refl
  map-take (suc n) [] = refl
  map-take (suc n) (x ∷ xs) = ap (λ t. x.0 ∷ t) (map-take n xs)

  total-sent :
      (front : List (Channel A)) (c : Channel A) (back : List (Channel A)) (range : List (A × ℕ))
      → total (sent front c back range) + (length range - space_avail c)
        ≡ total (front ++ c ∷ back) + length range
  total-sent front c back range = grind (
    arith,
    total-append front (record c { items = c.items ++ take (space_avail c) range } ∷ back),
    total-append front (c ∷ back),
    length-append c.items (take (space_avail c) range),
    length-take (space_avail c) range,
  )

  -- Where the outputs in front of `c` are full and `c` has space, and the window shows one signal with
  -- each item: a run of a split takes all items that are there from its input and appends the first of
  -- them, as many as there is space for, to `c`, in order, each with the signal that the window shows
  -- with it. The others are lost: what is missing from the outputs is the number of items that were
  -- there, less that space.
  pub split_run-total :
      (front : List (Channel A)) (c : Channel A) (back : List (Channel A)) (signals : List ℕ)
      (input : List (A × ℕ))
      → AreFull front
      → 0 < space_avail c
      → length signals ≡ length input
      → let range = shown_as signals input in
        (split_run signals input (front ++ c ∷ back) ≡ some ([], sent front c back range))
        × (items_of (take (space_avail c) range) ≡ take (space_avail c) (items_of input))
        × (total (sent front c back range) + (length input - space_avail c)
            ≡ total (front ++ c ∷ back) + length input)
  unfolding split_run
  split_run-total front c back signals input f l e = (
    ap
        (λ o. elim o as (λ _. Option (List (A × ℕ) × List (Channel A))) [
          | none ↦ none
          | some out ↦ some ([], out)
        ])
        (send_range-sent front c back (shown_as signals input) f l),
    map-take (space_avail c) (shown_as signals input)
        ∙ ap (λ t. take (space_avail c) t) (items_of-shown_as signals input e),
    subst
        (λ k.
          total (sent front c back (shown_as signals input)) + (k - space_avail c)
          ≡ total (front ++ c ∷ back) + k)
        (length-shown_as signals input e) (total-sent front c back (shown_as signals input)),
  )

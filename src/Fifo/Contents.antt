-- ===== src/Fifo/Contents.antt =====
-- What a heap queue holds, oldest first: the arrays of `Buffer::Data` read from the read pointer on.
use raft_lib.Prelude.{
  ℕ, zero, suc, ◌+◌, ◌-◌, ◌≤◌, ◌<◌, ◌≡◌, ◌≢◌, refl, sym, ap, ap₂, ◌∙◌, List, [], ◌∷◌, ◌++◌, arith,
  ltb, ◌==◌, if◌then◌else◌, length, drop, update, update_self, update_ne, map, get_elem?, some,
}
use raft_lib.Buffer.{Data}

-- The index `j` places after index `r`, in an array of `cap` cells used as a ring.
abbrev pub spot : ℕ → ℕ → ℕ → ℕ
spot cap r j = if ltb (r + j) cap then r + j else r + j - cap

module _ {ℓ} {A : Type ℓ} where
  -- The items and signals at the places `k` to `k + n` after index `r`.
  abbrev pub cells : (ℕ → A) → (ℕ → ℕ) → ℕ → ℕ → ℕ → ℕ → List (A × ℕ)
  cells st sg cap r k zero = []
  cells st sg cap r k (suc n) = (st (spot cap r k), sg (spot cap r k)) ∷ cells st sg cap r (suc k) n

  -- The number of items.
  abbrev pub used : Data A → ℕ
  used d =
      if d.write_pt.wrap_a == d.read_pt.wrap_a
      then d.write_pt.a - d.read_pt.a
      else d.max_cap + d.write_pt.a - d.read_pt.a

  abbrev pub contents : Data A → List (A × ℕ)
  contents d = cells d.store d.signal d.max_cap d.read_pt.a 0 (used d)

  pub length-cells : (st : ℕ → A) (sg : ℕ → ℕ) (cap r k n : ℕ) → length (cells st sg cap r k n) ≡ n
  length-cells st sg cap r k zero = refl
  length-cells st sg cap r k (suc n) = ap suc (length-cells st sg cap r (suc k) n)

  pub length-contents : (d : Data A) → length (contents d) ≡ used d
  length-contents d = length-cells d.store d.signal d.max_cap d.read_pt.a 0 (used d)

  -- Two ranges that agree place by place hold the same.
  pub cells-cong :
      (st st' : ℕ → A) (sg sg' : ℕ → ℕ) (cap cap' r r' k k' n : ℕ)
      → ((i j : ℕ)
          → i + k' ≡ j + k
          → k ≤ i
          → i < k + n
          → (st (spot cap r i) ≡ st' (spot cap' r' j)) × (sg (spot cap r i) ≡ sg' (spot cap' r' j)))
      → cells st sg cap r k n ≡ cells st' sg' cap' r' k' n
  cells-cong st st' sg sg' cap cap' r r' k k' zero same = refl
  cells-cong st st' sg sg' cap cap' r r' k k' (suc n) same =
      let (x, s) = same k k' (omega arith) (omega arith) (omega arith) in
      let rest =
        cells-cong st st' sg sg' cap cap' r r' (suc k) (suc k') n
          (λ i j e h l. same i j (omega arith) (omega arith) (omega arith)) in
      ap₂ ◌∷◌ (ap₂ (λ a b. (a, b)) x s) rest

  pub cells-snoc :
      (st : ℕ → A) (sg : ℕ → ℕ) (cap r k n m : ℕ)
      → m ≡ k + n
      → cells st sg cap r k (suc n)
        ≡ cells st sg cap r k n ++ (st (spot cap r m), sg (spot cap r m)) ∷ []
  cells-snoc st sg cap r k zero m e = let same : m ≡ k = omega arith in rw same
  cells-snoc st sg cap r k (suc n) m e =
      ap (λ l. (st (spot cap r k), sg (spot cap r k)) ∷ l)
        (cells-snoc st sg cap r (suc k) n m (omega arith))

  -- Writing the cell just behind a range extends it.
  pub cells-push :
      (st : ℕ → A) (sg : ℕ → ℕ) (cap r n i : ℕ) (x : A) (s : ℕ)
      → r < cap
      → n < cap
      → i ≡ spot cap r n
      → cells (update st i x) (update sg i s) cap r 0 (suc n) ≡ cells st sg cap r 0 n ++ (x, s) ∷ []
  cells-push st sg cap r n i x s hr hn e =
      cells-snoc (update st i x) (update sg i s) cap r 0 n n (omega arith)
      ∙ ap₂ (λ l y. l ++ y ∷ [])
          (cells-cong (update st i x) st (update sg i s) sg cap cap r r 0 0 n (λ a b q _ h.
            let ne : spot cap r a ≢ i = ground arith in
            let same : spot cap r a ≡ spot cap r b = ground arith in
            (
              update_ne st i x (spot cap r a) ne ∙ ap st same,
              update_ne sg i s (spot cap r a) ne ∙ ap sg same,
            )))
          (ap₂ (λ a b. (a, b)) (ap (update st i x) (sym e) ∙ update_self st i x)
            (ap (update sg i s) (sym e) ∙ update_self sg i s))

  pub drop-cells :
      (st : ℕ → A) (sg : ℕ → ℕ) (cap r k m n t p : ℕ)
      → t ≡ m + n
      → p ≡ k + m
      → drop m (cells st sg cap r k t) ≡ cells st sg cap r p n
  drop-cells st sg cap r k zero n t p e q =
      let e' : t ≡ n = omega arith in let q' : p ≡ k = omega arith in rw (e', q')
  drop-cells st sg cap r k (suc m) n zero p e q = absurd (omega arith)
  drop-cells st sg cap r k (suc m) n (suc t) p e q =
      drop-cells st sg cap r (suc k) m n t p (omega arith) (omega arith)

  -- Starting `m` places further on drops `m` items.
  pub cells-advance :
      (st : ℕ → A) (sg : ℕ → ℕ) (cap r r' m n t : ℕ)
      → r < cap
      → r' ≡ spot cap r m
      → t ≡ m + n
      → t ≤ cap
      → cells st sg cap r' 0 n ≡ drop m (cells st sg cap r 0 t)
  cells-advance st sg cap r r' m n t hr e q h =
      cells-cong st st sg sg cap cap r' r 0 m n (λ i j same _ l.
        let at : spot cap r' i ≡ spot cap r j = ground arith in (ap st at, ap sg at))
      ∙ sym (drop-cells st sg cap r 0 m n t m q (omega arith))

  -- The first item, and the rest from the next index on.
  pub cells-pop :
      (st : ℕ → A) (sg : ℕ → ℕ) (cap r r' n : ℕ)
      → r < cap
      → r' ≡ spot cap r 1
      → n < cap
      → cells st sg cap r 0 (suc n) ≡ (st r, sg r) ∷ cells st sg cap r' 0 n
  cells-pop st sg cap r r' n hr q h =
      let first : spot cap r 0 ≡ r = ground arith in
      ap₂ ◌∷◌ (ap (λ i. (st i, sg i)) first) (
        cells-cong st st sg sg cap cap r r' 1 0 n (λ i j same _ l.
          let at : spot cap r i ≡ spot cap r' j = ground arith in (ap st at, ap sg at)))

  -- The same items without their signals.
  pub cells-silent :
      (st : ℕ → A) (sg : ℕ → ℕ) (cap r k n : ℕ)
      → map (λ (x, s). (x, 0)) (cells st sg cap r k n) ≡ cells st (λ _. 0) cap r k n
  cells-silent st sg cap r k zero = refl
  cells-silent st sg cap r k (suc n) =
      ap (λ l. (st (spot cap r k), 0) ∷ l) (cells-silent st sg cap r (suc k) n)

  pub get_elem?-cells :
      (st : ℕ → A) (sg : ℕ → ℕ) (cap r k n i m : ℕ)
      → i < n
      → m ≡ k + i
      → get_elem? (cells st sg cap r k n) i ≡ some (st (spot cap r m), sg (spot cap r m))
  get_elem?-cells st sg cap r k zero i m h e = absurd (omega arith)
  get_elem?-cells st sg cap r k (suc n) zero m h e = let same : m ≡ k = omega arith in rw same
  get_elem?-cells st sg cap r k (suc n) (suc i) m h e =
      get_elem?-cells st sg cap r (suc k) n i m (omega arith) (omega arith)

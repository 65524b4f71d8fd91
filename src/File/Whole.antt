-- ===== src/File/Whole.antt =====
-- filereader of raftinc/fileio.tcc without an overlap, and its quotient of floats.
use native.Mathlib.Decide.{dec_lt}
use native.Mathlib.Nat.{
  div-add-mod, mod-lt, mul_comm, mul-add, mul_assoc, mul-le-mul_right, add-mul, pow-suc,
}
use raft_lib.File.{open_file, runs, ceil_div, nearest, rounded, to_float, float_div}
use raft_lib.File.Pieces.{reassemble, runs-reassemble}
use raft_lib.File.Position.{always, runs-open_file}
use raft_lib.Prelude.{
  ℕ, ◌+◌, ◌-◌, ◌*◌, ◌/◌, ◌%◌, ◌≤◌, ◌<◌, ◌≡◌, List, [], ◌∷◌, length, take, refl, arith, ap, ◌∙◌, ◌^◌,
  suc, zero, subst, sym,
}

take_all : (l : List ℕ) → take (length l) l ≡ l
take_all [] = refl
take_all (x ∷ l) = ap (λ t. x ∷ t) (take_all l)

ceil-le : (n d : ℕ) → 0 < d → n ≤ (n + (d - 1)) / d * d
ceil-le n d h =
    let q = (n + (d - 1)) / d in
    let split : d * q + (n + (d - 1)) % d ≡ n + (d - 1) = div-add-mod (n + (d - 1)) d in
    let rest : (n + (d - 1)) % d < d = mod-lt (n + (d - 1)) h in
    omega (arith, split, rest, mul_comm q d)

nearest-near : (n d : ℕ) → 0 < d → n + n ≤ nearest n d * d + nearest n d * d + d
unfolding nearest
nearest-near n d h =
    let split : d * (n / d) + n % d ≡ n = div-add-mod n d in
    let rest : n % d < d = mod-lt n h in grind (arith, split, rest, mul_comm (n / d) d)

unit_near :
    (unit n d : ℕ)
    → 0 < d * unit
    → 8388608 * (d * unit) ≤ n + 8388608 * d
    → 16777216 * n ≤ 16777216 * (nearest n (d * unit) * unit * d) + n + 8388608 * d
unit_near unit n d p h =
    let m = nearest n (d * unit) in
    let near : n + n ≤ m * (d * unit) + m * (d * unit) + d * unit = nearest-near n (d * unit) p in
    let same : m * unit * d ≡ m * (d * unit) =
      mul_assoc m unit d ∙ ap (λ k. m * k) (mul_comm unit d) in
    omega (arith, near, same, h)

double_pos : (unit d : ℕ) → 0 < d * unit → 0 < d * (unit + unit)
double_pos unit d p = omega (arith, mul-add d unit unit, p)

double_far :
    (unit n d : ℕ) → ¬ (n < 2 ^ 24 * (d * unit)) → 8388608 * (d * (unit + unit)) ≤ n + 8388608 * d
double_far unit n d g = omega (arith, mul-add d unit unit, g)

-- A quotient is rounded down by less than one part in 2 ^ 24, or by half a unit.
rounded-near :
    (fuel unit n d : ℕ)
    → 0 < d * unit
    → 8388608 * (d * unit) ≤ n + 8388608 * d
    → 16777216 * n ≤ 16777216 * (rounded fuel unit n d * d) + n + 8388608 * d
unfolding rounded
rounded-near zero unit n d p h = unit_near unit n d p h
rounded-near (suc fuel) unit n d p h = elim (dec_lt n (2 ^ 24 * (d * unit))) [
  | yes l ↦ ground (arith, l, unit_near unit n d p h)
  | no g ↦
      ground (
        arith,
        g,
        rounded-near fuel (unit + unit) n d (double_pos unit d p) (double_far unit n d g),
      )
]

rounded_now : (fuel n : ℕ) → n < 16777216 → rounded (suc fuel) 1 n 1 ≡ nearest n 1
unfolding rounded
rounded_now fuel n h = ground (arith, h)

nearest_one : (n : ℕ) → nearest n 1 ≡ n
unfolding nearest
nearest_one n = ground arith

to_float-exact : (n : ℕ) → n < 16777216 → to_float n ≡ n
unfolding to_float
to_float-exact n h = rounded_now 63 n h ∙ nearest_one n

far_enough :
    (n d q c : ℕ)
    → 16777216 * (n * 2 ^ 90) ≤ 16777216 * (q * d) + n * 2 ^ 90 + 8388608 * d
    → q ≤ c * 2 ^ 90
    → n < 16777216
    → d < 16777216
    → n ≤ c * d
far_enough n d q c h l s t = elim (dec_lt (c * d) n) [
  | yes e ↦ absurd (omega (arith, e, h, l, s, t, wide))
  | no e ↦ omega (arith, e)
]
  where
    wide : q * d ≤ c * d * 2 ^ 90
    wide = grind (arith, mul-le-mul_right d l)

quotient-le :
    (n d : ℕ)
    → n < 16777216
    → 0 < d
    → d < 16777216
    → n ≤ (float_div n d + (2 ^ 90 - 1)) / 2 ^ 90 * d
unfolding float_div
quotient-le n d h p g =
    let q = float_div n d in
    far_enough n d q ((q + (2 ^ 90 - 1)) / 2 ^ 90)
      (rounded-near 155 1 (n * 2 ^ 90) d (omega (arith, p)) (omega arith))
      (ceil-le q (2 ^ 90) (omega arith)) h g

-- The constructor counts enough chunks for a file below 2 ^ 24 bytes.
ceil_div-le : (n d : ℕ) → n < 16777216 → 0 < d → d < 16777216 → n ≤ ceil_div n d * d
unfolding ceil_div
ceil_div-le n d h p g =
    subst (λ a. n ≤ (float_div a (to_float d) + (2 ^ 90 - 1)) / 2 ^ 90 * d)
      (sym (to_float-exact n h))
      (subst (λ b. n ≤ (float_div n b + (2 ^ 90 - 1)) / 2 ^ 90 * d) (sym (to_float-exact d g))
        (quotient-le n d h p g))

-- Without an overlap, for a file below 2 ^ 24 bytes and chunks of at least two bytes and at most 2 ^ 24,
-- with one port, space in every run, and more runs than the constructor has counted: the chunks that were
-- sent, put together, are the whole file.
pub runs-whole :
    (size n : ℕ) (file : List ℕ)
    → length file < 2 ^ 24
    → 1 < size
    → size ≤ 2 ^ 24
    → (open_file size 0 file).iterations < n
    → reassemble (runs 1 (always n) (open_file size 0 file)).0 [] ≡ file
unfolding open_file
runs-whole size n file short h few l =
    let far =
      ceil_div-le (length file) (size - 1) short (omega (arith, h)) (omega (arith, h, few)) in
    let same : size - 1 - 0 ≡ size - 1 = omega arith in
    let way = ap (λ k. ceil_div (length file) (size - 1) * k) same in
    let at : (runs 1 (always n) (open_file size 0 file)).1.position ≡ length file =
      ground (arith, runs-open_file size 0 n file (omega (arith, h)) l, far, way) in
    runs-reassemble 1 size 0 file (always n) ∙ ap (λ k. take k file) at ∙ take_all file

double_power : (u k : ℕ) → u * 2 ^ suc k ≡ (u + u) * 2 ^ k
double_power u k =
    ap (λ p. u * p) (pow-suc 2 k) ∙ sym (mul_assoc u (2 ^ k) 2) ∙ omega (arith, add-mul u u (2 ^ k))

-- More fuel than drops the places of `n / d` to 24 bits changes nothing.
rounded-more :
    (fuel unit n d : ℕ)
    → n < 2 ^ 24 * (d * (unit * 2 ^ fuel))
    → rounded (suc fuel) unit n d ≡ rounded fuel unit n d
unfolding rounded
rounded-more zero unit n d h = ground (arith, h)
rounded-more (suc fuel) unit n d h = elim (dec_lt n (2 ^ 24 * (d * unit))) [
  | yes l ↦ ground (arith, l)
  | no g ↦ ground (
    arith,
    g,
    rounded-more fuel (unit + unit) n d
        (subst (λ k. n < 2 ^ 24 * (d * k)) (double_power unit fuel) h),
  )
]

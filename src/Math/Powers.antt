-- ===== src/Math/Powers.antt =====
-- The powers of two next to a number, against its binary logarithms.
use native.Mathlib.Nat.{pow-succ', pow-le-pow_right}
use beacon_kit.Prelude.{
  inl, inr, ◌⊎◌, ltb, ◌==◌, false, sub64, sub64_eq, add64_eq, ℕ, zero, suc, ◌+◌, ◌-◌, ◌*◌, ◌/◌, ◌%◌,
  ◌^◌, ◌≤◌, ◌<◌, ◌≡◌, arith, ap, ◌∙◌, u64_mod,
}
use beacon_kit.Exec.{ok}
use beacon_kit.Math.{
  smear, next_power_of_two, prev_power_of_two, bit_length, ilog2_ceil, ilog2_floor,
}
use beacon_kit.Math.Bits.{pow_pos, IsFilled, or_shifted-IsFilled, le_or_lt}

-- The shifts set every digit below the first one.
smear_fills : (k x : ℕ) → k ≤ 64 → IsFilled k 1 x → smear x + 1 ≡ 2 ^ k
unfolding smear
smear_fills k x l f =
    let g = or_shifted-IsFilled k 32 _ (
      or_shifted-IsFilled k 16 _ (
        or_shifted-IsFilled k 8 _
          (or_shifted-IsFilled k 4 _ (or_shifted-IsFilled k 2 _ (or_shifted-IsFilled k 1 x f))))) in
    let none : k - 64 ≡ 0 = omega arith in
    let ones : 2 ^ k ≤ smear x + 2 ^ (k - 64) = g.ones in
    let one : 2 ^ (k - 64) ≡ 1 = ap (λ j. 2 ^ j) none in
    let below : smear x < 2 ^ k = g.below in omega arith

-- `k` is the number of binary digits of `u`.
record HasDigits (k u : ℕ) : Type 0 where
  below : u < 2 ^ k
  above : 2 ^ k ≤ 2 * u + 1

HasDigits-suc : (k u : ℕ) → 1 ≤ u → HasDigits k (u / 2) → HasDigits (suc k) u
HasDigits-suc zero u l d = record { below = omega (arith, d.below); above = omega arith }
HasDigits-suc (suc k) u l d = record {
  below = omega (arith, d.below, pow-succ' 2 (suc k));
  above = omega (arith, d.above, pow-succ' 2 (suc k), pow-succ' 2 k);
}

zero_or_pos : (u : ℕ) → (u ≡ 0) ⊎ (1 ≤ u)
zero_or_pos u = ground arith

bit_length-HasDigits : (rounds u : ℕ) → u < 2 ^ rounds → HasDigits (bit_length rounds u) u
unfolding bit_length
bit_length-HasDigits zero u l = record { below = l; above = omega arith }
bit_length-HasDigits (suc rounds) u l = elim (zero_or_pos u) [
  | inl none ↦ rw none (record { below = omega arith; above = omega arith })
  | inr some ↦
      let test : (u == 0) ≡ false = ground arith in
      rw test (
        HasDigits-suc (bit_length rounds (u / 2)) u some
          (bit_length-HasDigits rounds (u / 2) (omega (arith, pow-succ' 2 rounds))))
]

bit_length-le : (rounds u : ℕ) → bit_length rounds u ≤ rounds
unfolding bit_length
bit_length-le zero u = omega arith
bit_length-le (suc rounds) u = ground (arith, bit_length-le rounds (u / 2))

HasDigits-IsFilled : (k u : ℕ) → HasDigits k u → IsFilled k 1 u
HasDigits-IsFilled zero u d = record { below = d.below; ones = omega arith }
HasDigits-IsFilled (suc k) u d =
    let e : suc k - 1 ≡ k = omega arith in
    record { below = d.below; ones = rw e (omega (arith, d.above, pow-succ' 2 k)) }

few_digits : (k v : ℕ) → v < 2 ^ 63 → HasDigits k v → k ≤ 63
few_digits k v l d = elim (le_or_lt k 63) [
  | inl h ↦ h
  | inr h ↦
      absurd (omega (arith, d.above, pow-le-pow_right {n = 2} (omega arith) {i = 64} {j = k} h))
]

-- For every number from 1 to 2^63: the next power of two is found, its exponent is the binary
-- logarithm rounded up, and it is the least power of two that is not below the number.
pub next_power_of_two_lem :
    (u : ℕ)
    → 1 ≤ u
    → u ≤ 2 ^ 63
    → (next_power_of_two u ≡ ok (2 ^ ilog2_ceil u))
      × (u ≤ 2 ^ ilog2_ceil u)
      × (2 ^ ilog2_ceil u < 2 * u)
unfolding next_power_of_two ilog2_ceil
next_power_of_two_lem u l h =
    let start : sub64 u 1 ≡ u - 1 = sub64_eq u 1 l (omega arith) in
    let some : (u == 0) ≡ false = ground arith in
    let fits : ltb (2 ^ 63) u ≡ false = ground arith in
    let d = bit_length-HasDigits 64 (u - 1) (omega arith) in
    let few = few_digits (bit_length 64 (u - 1)) (u - 1) (omega arith) d in
    let full =
      smear_fills (bit_length 64 (u - 1)) (u - 1) (omega arith)
        (HasDigits-IsFilled (bit_length 64 (u - 1)) (u - 1) d) in
    let small : 2 ^ bit_length 64 (u - 1) ≤ 2 ^ 63 = pow-le-pow_right (omega arith) few in
    let sum = add64_eq (smear (u - 1)) 1 (omega arith) in
    rw (some, fits, start) (ap ok (sum ∙ full), omega (arith, d.below), omega (arith, d.above))

floor_parts :
    (k u full : ℕ)
    → 1 ≤ u
    → k ≤ 64
    → HasDigits k u
    → full + 1 ≡ 2 ^ k
    → (sub64 full (full / 2) ≡ 2 ^ ((k + 255) % 256))
      × (2 ^ ((k + 255) % 256) ≤ u)
      × (u < 2 * 2 ^ ((k + 255) % 256))
floor_parts zero u full l few d e = absurd (omega (arith, d.below))
floor_parts (suc k) u full l few d e =
    let wrapped : (suc k + 255) % 256 ≡ k = omega arith in
    let bound : 2 ^ suc k ≤ 2 ^ 64 = pow-le-pow_right (omega arith) few in
    let half = pow-succ' 2 k in
    let difference = sub64_eq full (full / 2) (omega arith) (omega arith) in
    rw wrapped (omega (arith, difference), omega (arith, d.above), omega (arith, d.below))

-- For every uint64 but 0: the previous power of two is 2 to the binary logarithm rounded down, and
-- it is the greatest power of two that is not above the number.
pub prev_power_of_two_lem :
    (u : ℕ)
    → 1 ≤ u
    → u < u64_mod
    → (prev_power_of_two u ≡ 2 ^ ilog2_floor u)
      × (2 ^ ilog2_floor u ≤ u)
      × (u < 2 * 2 ^ ilog2_floor u)
unfolding prev_power_of_two ilog2_floor
prev_power_of_two_lem u l h =
    let some : (u == 0) ≡ false = ground arith in
    let d = bit_length-HasDigits 64 u h in
    let few = bit_length-le 64 u in
    let full = smear_fills (bit_length 64 u) u few (HasDigits-IsFilled (bit_length 64 u) u d) in
    rw some (floor_parts (bit_length 64 u) u (smear u) l few d full)

pow_between : (k j : ℕ) → 2 ^ k ≤ 2 ^ j → 2 ^ j < 2 * 2 ^ k → j ≡ k
pow_between k j a b = elim (le_or_lt k j) [
  | inl up ↦ elim (le_or_lt j k) [
    | inl down ↦ omega arith
    | inr more ↦ absurd (
        omega
          (arith, pow-succ' 2 k, pow-le-pow_right {n = 2} (omega arith) {i = suc k} {j = j} more))
  ]
  | inr less ↦ absurd (
      omega (
        arith,
        pow-succ' 2 j,
        pow_pos j,
        pow-le-pow_right {n = 2} (omega arith) {i = suc j} {j = k} less,
      ))
]

-- An exact power of two is its own next power of two, and its logarithm is exact.
pub ilog2_ceil_pow : (k : ℕ) → k ≤ 63 → ilog2_ceil (2 ^ k) ≡ k
ilog2_ceil_pow k l =
    let (found, above, below) =
      next_power_of_two_lem (2 ^ k) (pow_pos k) (pow-le-pow_right (omega arith) l) in
    pow_between k (ilog2_ceil (2 ^ k)) above below

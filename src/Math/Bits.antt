-- ===== src/Math/Bits.antt =====
-- Laws of `bit_or` at variables, and the bits that are set after a shift.
use Prim.Native.Nat.{bit_or, digits, bit_or-bitwise}
use native.Mathlib.Nat.{
  div-div-eq-div-mul, pow-succ', mul_left_comm, one-mul, mul_assoc, mul-add, lt-mul-div-succ,
  div-le_self, div-lt_iff_lt-mul, pow-le-pow_right, zero-add, suc-add, lt_of_mul-lt-mul_left,
  mul_comm, mul-one, mul-le-mul_right, add-mul,
}
use beacon_kit.Math.{or_shifted}
use beacon_kit.Prelude.{
  inl, inr, ◌⊎◌, ℕ, zero, suc, ◌+◌, ◌-◌, ◌*◌, ◌/◌, ◌%◌, ◌^◌, ◌≤◌, ◌<◌, max, ◌≡◌, refl, arith, ap,
  sym, ◌∙◌,
}

-- The law for the lowest digit, from the definition that the native operation stands for.
abbrev or_digits : ℕ → ℕ → ℕ → ℕ
or_digits n a b = digits (λ b. b) max n a b

or_digits_rounds : (n m a b : ℕ) → a ≤ n → a ≤ m → or_digits n a b ≡ or_digits m a b
or_digits_rounds zero zero a b p q = refl
or_digits_rounds zero (suc m) zero b p q = refl
or_digits_rounds zero (suc m) (suc a) b p q = absurd (omega arith)
or_digits_rounds (suc n) zero zero b p q = refl
or_digits_rounds (suc n) zero (suc a) b p q = absurd (omega arith)
or_digits_rounds (suc n) (suc m) zero b p q = refl
or_digits_rounds (suc n) (suc m) (suc a) b p q =
    omega (arith, or_digits_rounds n m (suc a / 2) (b / 2) (omega arith) (omega arith))

zero-bit_or : (b : ℕ) → bit_or 0 b ≡ b
zero-bit_or b = bit_or-bitwise 0 b

bit_or_step : (a b : ℕ) → bit_or a b ≡ bit_or (a / 2) (b / 2) * 2 + max (a % 2) (b % 2)
bit_or_step zero b = omega (arith, zero-bit_or b, zero-bit_or (b / 2))
bit_or_step (suc a) b = omega (
  arith,
  bit_or-bitwise (suc a) b,
  bit_or-bitwise (suc a / 2) (b / 2),
  or_digits_rounds a (suc a / 2) (suc a / 2) (b / 2) (omega arith) (omega arith),
)

pub bit_or-lt : (k a b : ℕ) → a < 2 ^ k → b < 2 ^ k → bit_or a b < 2 ^ k
bit_or-lt zero a b p q =
    let e : a ≡ 0 = omega arith in let f : b ≡ 0 = omega arith in rw (e, f) (omega arith)
bit_or-lt (suc k) a b p q =
    omega (arith, bit_or_step a b, bit_or-lt k (a / 2) (b / 2) (omega arith) (omega arith))

le-bit_or : (rounds a b : ℕ) → a ≤ rounds → a ≤ bit_or a b
le-bit_or rounds zero b p = omega arith
le-bit_or zero (suc a) b p = absurd (omega arith)
le-bit_or (suc rounds) (suc a) b p =
    omega (arith, bit_or_step (suc a) b, le-bit_or rounds (suc a / 2) (b / 2) (omega arith))

pub twice : (q p r : ℕ) → r ≡ 2 * p → q * r ≡ 2 * (q * p)
twice q p r e = ap (λ k. q * k) e ∙ mul_left_comm q 2 p

-- The low digits of the second number fill up what stands above them in the first.
pub bit_or_above : (m a b : ℕ) → b < 2 ^ m → a / 2 ^ m * 2 ^ m + b ≤ bit_or a b
bit_or_above zero a b p = omega (arith, le-bit_or a a b (omega arith))
bit_or_above (suc m) a b p =
    let halved : a / 2 ^ suc m ≡ a / 2 / 2 ^ m =
      ap (λ k. a / k) (pow-succ' 2 m) ∙ sym (div-div-eq-div-mul a 2 (2 ^ m)) in
    let doubled : a / 2 / 2 ^ m * 2 ^ suc m ≡ 2 * (a / 2 / 2 ^ m * 2 ^ m) =
      twice (a / 2 / 2 ^ m) (2 ^ m) (2 ^ suc m) (pow-succ' 2 m) in
    rw halved
      (omega (arith, doubled, bit_or_step a b, bit_or_above m (a / 2) (b / 2) (omega arith)))

pub pow_add : (a b : ℕ) → 2 ^ (a + b) ≡ 2 ^ a * 2 ^ b
pow_add zero b = ap (λ k. 2 ^ k) (zero-add b) ∙ sym (one-mul (2 ^ b))
pow_add (suc a) b =
    ap (λ k. 2 ^ k) (suc-add a b)
    ∙ pow-succ' 2 (a + b)
    ∙ ap (λ k. 2 * k) (pow_add a b)
    ∙ sym (mul_assoc 2 (2 ^ a) (2 ^ b))
    ∙ ap (λ k. k * 2 ^ b) (sym (pow-succ' 2 a))

pub pow_pos : (k : ℕ) → 0 < 2 ^ k
pow_pos zero = omega arith
pow_pos (suc k) = omega (arith, pow_pos k, pow-succ' 2 k)

-- A lower bound of a quotient.
quotient-ge : (p a b x : ℕ) → 0 < p → p * a ≤ x + p * b → a ≤ x / p + b
quotient-ge p a b x l h =
    let whole : x < p * (x / p + 1) = lt-mul-div-succ x l in
    let both : p * (x / p + 1 + b) ≡ p * (x / p + 1) + p * b = mul-add p (x / p + 1) b in
    let below : a < x / p + 1 + b = lt_of_mul-lt-mul_left p (omega (arith, both)) in omega arith

-- The number has at most `k` binary digits, the first `s` of which are ones.
pub record IsFilled (k s x : ℕ) : Type 0 where
  pub below : x < 2 ^ k
  pub ones : 2 ^ k ≤ x + 2 ^ (k - s)

-- The quotients that the ones are read from: `x` by 2 ^ m, and by 2 ^ s.
filled_quotients :
    (m s x : ℕ)
    → 2 ^ (s + m) ≤ x + 2 ^ m
    → (2 ^ (s + m) ≤ x / 2 ^ m * 2 ^ m + 2 ^ m) × (2 ^ m ≤ x / 2 ^ s + 2 ^ (m - s))
filled_quotients m s x h =
    let parts = pow_add s m in
    let high : 2 ^ s ≤ x / 2 ^ m + 1 =
      quotient-ge (2 ^ m) (2 ^ s) 1 x (pow_pos m)
        (omega (arith, parts, mul_comm (2 ^ s) (2 ^ m), mul-one (2 ^ m))) in
    let wide : 2 ^ m ≤ 2 ^ s * 2 ^ (m - s) =
      rw (← pow_add s (m - s)) (pow-le-pow_right (omega arith) (omega arith)) in
    (
      omega (
        arith,
        parts,
        mul-le-mul_right (2 ^ m) high,
        add-mul (x / 2 ^ m) 1 (2 ^ m),
        one-mul (2 ^ m),
      ),
      quotient-ge (2 ^ s) (2 ^ m) (2 ^ (m - s)) x (pow_pos s) (omega (arith, parts)),
    )

IsFilled-more :
    (m s k x : ℕ) → k ≡ s + m → IsFilled k s x → IsFilled k (s + s) (bit_or x (x / 2 ^ s))
IsFilled-more m s k x e f =
    let e1 : k - s ≡ m = omega arith in
    let e2 : k - (s + s) ≡ m - s = omega arith in
    let parts : 2 ^ k ≡ 2 ^ (s + m) = ap (λ j. 2 ^ j) e in
    let ones : 2 ^ k ≤ x + 2 ^ (k - s) = f.ones in
    let rest : 2 ^ (k - s) ≡ 2 ^ m = ap (λ j. 2 ^ j) e1 in
    let (high, low) = filled_quotients m s x (omega arith) in
    let shifted : x / 2 ^ s < 2 ^ m =
      (div-lt_iff_lt-mul (pow_pos s)).1
        (omega (arith, f.below, pow_add s m, mul_comm (2 ^ s) (2 ^ m))) in
    record {
      below = bit_or-lt k x (x / 2 ^ s) f.below (omega (arith, f.below, div-le_self x (2 ^ s)));
      ones = rw e2 (omega (arith, bit_or_above m x (x / 2 ^ s) shifted));
    }

pub le_or_lt : (k s : ℕ) → (k ≤ s) ⊎ (s < k)
le_or_lt k s = ground arith

pub or_shifted-IsFilled : (k s x : ℕ) → IsFilled k s x → IsFilled k (s + s) (or_shifted s x)
unfolding or_shifted
or_shifted-IsFilled k s x f = elim (le_or_lt k s) [
  | inl all ↦ record {
    below = bit_or-lt k x (x / 2 ^ s) f.below (omega (arith, f.below, div-le_self x (2 ^ s)));
    ones =
        let e1 : k - s ≡ 0 = omega arith in
        let e2 : k - (s + s) ≡ 0 = omega arith in
        rw e2 (omega (arith, le-bit_or x x (x / 2 ^ s) (omega arith), rw e1 at f.ones));
  }
  | inr some ↦ IsFilled-more (k - s) s k x (omega arith) f
]

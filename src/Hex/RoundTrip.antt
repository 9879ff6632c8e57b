-- ===== src/Hex/RoundTrip.antt =====
-- A uint64 is read back from its text.
use beacon_kit.Prelude.{
  ℕ, zero, suc, ◌/◌, ◌%◌, ◌^◌, ◌<◌, ◌≤◌, Bool, true, false, Bytes, [], ◌∷◌, ◌++◌, none, length,
  add64, mul64, u64_mod, ◌≡◌, arith, refl, inl, length-append, ◌⊎◌, ◌==◌, inr,
}
use beacon_kit.Hex.{
  digit, hex_digits, decode_nibble, decode_digits, has_leading_zero, marshal_text,
  unmarshal_uint64_text, validate_number, decode_number, format_and_validate_number,
}

decode_nibble-digit : (d : ℕ) → d < 16 → decode_nibble (digit d) ≡ d
unfolding decode_nibble digit
decode_nibble-digit d l = ground arith

-- Digits that are decoded to `m`, and one more.
decode_digits_snoc :
    (l : Bytes) (dec m d : ℕ)
    → d < 16
    → decode_digits dec l ≡ (m, none)
    → decode_digits dec (l ++ (digit d ∷ [])) ≡ (add64 (mul64 m 16) d, none)
unfolding decode_digits
decode_digits_snoc [] dec m d b h = ground (arith, decode_nibble-digit d b)
decode_digits_snoc (c ∷ l) dec m d b h =
    ground (arith, decode_digits_snoc l (add64 (mul64 dec 16) (decode_nibble c)) m d b)

pub below_or_not : (x : ℕ) → (x < 16) ⊎ (16 ≤ x)
below_or_not x = ground arith

pub one_digit : (n x : ℕ) → x < 16 → hex_digits (suc n) x ≡ digit x ∷ []
unfolding hex_digits
one_digit n x l = ground arith

pub last_digit :
    (n x : ℕ) → 16 ≤ x → hex_digits (suc n) x ≡ hex_digits n (x / 16) ++ (digit (x % 16) ∷ [])
unfolding hex_digits
last_digit n x l = ground arith

decode_digits-hex_digits :
    (n x : ℕ) → x < 16 ^ suc n → x < u64_mod → decode_digits 0 (hex_digits (suc n) x) ≡ (x, none)
unfolding decode_digits add64 mul64
decode_digits-hex_digits zero x l w = ground (arith, one_digit 0 x l, decode_nibble-digit x l)
decode_digits-hex_digits (suc n) x l w = elim (below_or_not x) [
  | inl s ↦ ground (arith, one_digit (suc n) x s, decode_nibble-digit x s)
  | inr b ↦ ground (
    arith,
    last_digit (suc n) x b,
    decode_digits_snoc (hex_digits (suc n) (x / 16)) 0 (x / 16) (x % 16) (omega arith)
        (decode_digits-hex_digits n (x / 16) (omega arith) (omega arith)),
  )
]

length-hex_digits : (n x : ℕ) → length (hex_digits n x) ≤ n
unfolding hex_digits
length-hex_digits zero x = omega arith
length-hex_digits (suc n) x = ground (
  arith,
  length-hex_digits n (x / 16),
  length-append (hex_digits n (x / 16)) (digit (x % 16) ∷ []),
)

-- Whether the text begins with the digit 0.
unfoldable starts_with_zero : Bytes → Bool
starts_with_zero [] = true
starts_with_zero (d ∷ l) = d == 48

starts_with_zero_append :
    (l r : Bytes) → starts_with_zero l ≡ false → starts_with_zero (l ++ r) ≡ false
unfolding starts_with_zero
starts_with_zero_append [] r h = ground arith
starts_with_zero_append (d ∷ l) r h = h

starts_with_zero-hex_digits :
    (n x : ℕ) → 1 ≤ x → x < 16 ^ n → starts_with_zero (hex_digits n x) ≡ false
unfolding starts_with_zero digit
starts_with_zero-hex_digits zero x p l = ground arith
starts_with_zero-hex_digits (suc n) x p l = elim (below_or_not x) [
  | inl s ↦ ground (arith, one_digit n x s)
  | inr b ↦ ground (
    arith,
    last_digit n x b,
    starts_with_zero_append (hex_digits n (x / 16)) (digit (x % 16) ∷ [])
        (starts_with_zero-hex_digits n (x / 16) (omega arith) (omega arith)),
  )
]

validate_nonzero : (l : Bytes) → starts_with_zero l ≡ false → validate_number l ≡ (l, none)
unfolding starts_with_zero validate_number has_leading_zero
validate_nonzero [] h = ground arith
validate_nonzero (d ∷ []) h = refl
validate_nonzero (d ∷ e ∷ l) h = ground arith

validate_number-hex_digits :
    (x : ℕ) → x < u64_mod → validate_number (hex_digits 16 x) ≡ (hex_digits 16 x, none)
unfolding hex_digits digit validate_number has_leading_zero
validate_number-hex_digits zero l = refl
validate_number-hex_digits (suc x) l =
    validate_nonzero (hex_digits 16 (suc x))
      (starts_with_zero-hex_digits 16 (suc x) (omega arith) (omega arith))

-- Every uint64 is read back from its text, without an error.
pub unmarshal_uint64_text-marshal_text :
    (b : ℕ) → b < u64_mod → unmarshal_uint64_text (marshal_text b) ≡ (b, none)
unfolding unmarshal_uint64_text marshal_text format_and_validate_number decode_number
unmarshal_uint64_text-marshal_text b l = ground (
  arith,
  validate_number-hex_digits b l,
  length-hex_digits 16 b,
  decode_digits-hex_digits 15 b l l,
)

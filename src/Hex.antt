-- ===== src/Hex.antt =====
-- mod/primitives/pkg/hex/u64.go, nibble.go and format.go: the text of a uint64 in hexadecimal. A text
-- is a list of bytes.
pub mod RoundTrip
use beacon_kit.Prelude.{
  ℕ, zero, suc, ◌-◌, ◌+◌, ◌/◌, ◌%◌, Bool, true, false, ◌&&◌, ◌||◌, leb, ltb, ◌==◌, Bytes, [], ◌∷◌,
  ◌++◌, Option, none, some, length, add64, mul64, u64_mod, if◌then◌else◌,
}

pub data HexError : Type 0 where
  empty_string missing_prefix empty_number leading_zero uint64_range invalid_string : HexError

abbrev pub bad_nibble : ℕ
bad_nibble = u64_mod - 1

unfoldable pub has_0x_prefix : Bytes → Bool
has_0x_prefix [] = false
has_0x_prefix (a ∷ []) = false
has_0x_prefix (a ∷ b ∷ s) = a == 48 && (b == 120 || b == 88)

-- A nibble, as a digit of strconv.AppendUint in base 16.
unfoldable pub digit : ℕ → ℕ
digit d = if ltb d 10 then 48 + d else 87 + d

-- strconv.AppendUint in base 16, with at most the given number of digits.
unfoldable pub hex_digits : ℕ → ℕ → Bytes
unfolding digit
hex_digits zero x = []
hex_digits (suc n) x =
    let front = hex_digits n (x / 16) in
    if ltb x 16 then digit x ∷ [] else front ++ (digit (x % 16) ∷ [])

-- MarshalText: 16 digits are enough for a uint64.
unfoldable pub marshal_text : ℕ → Bytes
unfolding hex_digits
marshal_text b = 48 ∷ 120 ∷ hex_digits 16 b

unfoldable pub decode_nibble : ℕ → ℕ
decode_nibble c =
    if leb 48 c && leb c 57
    then c - 48
    else if leb 65 c && leb c 70
    then c - 55
    else if leb 97 c && leb c 102
    then c - 87
    else bad_nibble

-- A number with more than one digit whose first is 0.
unfoldable pub has_leading_zero : Bytes → Bool
has_leading_zero [] = false
has_leading_zero (d ∷ []) = false
has_leading_zero (d ∷ e ∷ s) = d == 48

-- formatAndValidateNumber, after the prefix.
unfoldable pub validate_number : Bytes → Bytes × Option HexError
unfolding has_leading_zero
validate_number [] = ([], some empty_number)
validate_number (d ∷ s) =
    if has_leading_zero (d ∷ s) then ([], some leading_zero) else (d ∷ s, none)

unfoldable pub format_and_validate_number : Bytes → Bytes × Option HexError
unfolding has_0x_prefix validate_number
format_and_validate_number [] = ([], some empty_string)
format_and_validate_number (a ∷ []) = ([], some missing_prefix)
format_and_validate_number (a ∷ b ∷ s) =
    if has_0x_prefix (a ∷ b ∷ s) then validate_number s else ([], some missing_prefix)

-- The loop of UnmarshalUint64Text: what is decoded so far, and the error that ended it.
unfoldable pub decode_digits : ℕ → Bytes → ℕ × Option HexError
unfolding decode_nibble
decode_digits dec [] = (dec, none)
decode_digits dec (c ∷ raw) =
    let rest = decode_digits (add64 (mul64 dec 16) (decode_nibble c)) raw in
    if decode_nibble c == bad_nibble then (dec, some invalid_string) else rest

-- What UnmarshalUint64Text does with the validated number.
unfoldable pub decode_number : Bytes × Option HexError → ℕ × Option HexError
unfolding decode_digits
decode_number (raw, some e) = (0, some e)
decode_number (raw, none) =
    if ltb 16 (length raw) then (0, some uint64_range) else decode_digits 0 raw

unfoldable pub unmarshal_uint64_text : Bytes → ℕ × Option HexError
unfolding format_and_validate_number decode_number
unmarshal_uint64_text input = decode_number (format_and_validate_number input)

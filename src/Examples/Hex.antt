-- ===== src/Examples/Hex.antt =====
-- Texts of numbers in hexadecimal, and the theorem on them applied.
use beacon_kit.Prelude.{add64, mul64, ◌≡◌, ◌∷◌, [], ◌++◌, none, some, refl, arith, replicate}
use beacon_kit.Hex.{marshal_text, unmarshal_uint64_text, leading_zero, uint64_range, invalid_string}
use beacon_kit.Hex.RoundTrip.{unmarshal_uint64_text-marshal_text}

unmarshal_uint64_text-marshal_text_example :
    unmarshal_uint64_text (marshal_text 48879) ≡ (48879, none)
unmarshal_uint64_text-marshal_text_example = unmarshal_uint64_text-marshal_text 48879 (omega arith)

-- 0xbeef.
text_of_number : marshal_text 48879 ≡ 48 ∷ 120 ∷ 98 ∷ 101 ∷ 101 ∷ 102 ∷ []
unfolding marshal_text
text_of_number = refl

-- 0x01.
leading_zero_is_refused : unmarshal_uint64_text (48 ∷ 120 ∷ 48 ∷ 49 ∷ []) ≡ (0, some leading_zero)
unfolding unmarshal_uint64_text
leading_zero_is_refused = refl

-- 0x1g: the digits before the wrong one are returned with the error.
wrong_digit_is_refused : unmarshal_uint64_text (48 ∷ 120 ∷ 49 ∷ 103 ∷ []) ≡ (1, some invalid_string)
unfolding unmarshal_uint64_text add64 mul64
wrong_digit_is_refused = refl

-- 17 digits.
long_number_is_refused :
    unmarshal_uint64_text ((48 ∷ 120 ∷ []) ++ replicate 17 49) ≡ (0, some uint64_range)
unfolding unmarshal_uint64_text
long_number_is_refused = refl

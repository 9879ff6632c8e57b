-- ===== src/Math.antt =====
-- mod/primitives/pkg/math/u64.go: the powers of two and the logarithms of a uint64.
pub mod Bits
pub mod Powers
use Prim.Native.Nat.{bit_or}
use beacon_kit.Prelude.{
  ℕ, zero, suc, ◌+◌, ◌%◌, ◌/◌, ◌^◌, Bytes, ltb, ◌==◌, if◌then◌else◌, add64, sub64,
}
use beacon_kit.Exec.{Result, ok, err, panic}

-- u |= u >> s
unfoldable pub or_shifted : ℕ → ℕ → ℕ
or_shifted s u = bit_or u (u / 2 ^ s)

-- The six shifts of NextPowerOfTwo and PrevPowerOfTwo.
unfoldable pub smear : ℕ → ℕ
unfolding or_shifted
smear u =
    or_shifted 32 (or_shifted 16 (or_shifted 8 (or_shifted 4 (or_shifted 2 (or_shifted 1 u)))))

-- NextPowerOfTwo
unfoldable pub next_power_of_two : ℕ → Result ℕ
unfolding smear add64 sub64
next_power_of_two u =
    if u == 0 then ok 1 else if ltb (2 ^ 63) u then err panic else ok (add64 (smear (sub64 u 1)) 1)

-- PrevPowerOfTwo
unfoldable pub prev_power_of_two : ℕ → ℕ
unfolding smear sub64
prev_power_of_two u = if u == 0 then 1 else sub64 (smear u) (smear u / 2)

-- bits.Len64, over the bits that are left to look at: 64 are enough for a uint64.
unfoldable pub bit_length : ℕ → ℕ → ℕ
bit_length zero u = 0
bit_length (suc rounds) u = let rest = bit_length rounds (u / 2) in if u == 0 then 0 else suc rest

-- ILog2Ceil
unfoldable pub ilog2_ceil : ℕ → ℕ
unfolding sub64
ilog2_ceil u = if u == 0 then 0 else bit_length 64 (sub64 u 1)

-- ILog2Floor, as a uint8.
unfoldable pub ilog2_floor : ℕ → ℕ
ilog2_floor u = if u == 0 then 0 else (bit_length 64 u + 255) % 256

-- ===== src/Processor/Genesis/Versions.antt =====
-- The byte encoding of fork versions.
use beacon_kit.Prelude.{zero, suc, arith, ◌≡◌, ℕ, ◌<◌, ◌^◌, suc, ◌/◌}
use beacon_kit.Processor.Genesis.{from_little_endian, version_to_uint32}
use beacon_kit.Processor.Randao.{little_endian, version_from_uint32}

from_little_endian-little_endian :
    (n x : ℕ) → x < 256 ^ n → from_little_endian (little_endian n x) ≡ x
unfolding from_little_endian little_endian
from_little_endian-little_endian zero x l = omega arith
from_little_endian-little_endian (suc n) x l =
    ground (arith, from_little_endian-little_endian n (x / 256))

-- A version number survives its encoding as four bytes.
version_to_uint32-version_from_uint32 :
    (v : ℕ) → v < 2 ^ 32 → version_to_uint32 (version_from_uint32 v) ≡ v
unfolding version_to_uint32 version_from_uint32
version_to_uint32-version_from_uint32 v l = from_little_endian-little_endian 4 v l

-- ===== src/Uint/Bounds.antt =====
-- The hexadecimal readers of the classes: the range check and nothing else.
use godwoken_web.Common.{ℕ, ◌≡◌, ok}
use godwoken_web.Hex.{to_hex_number, assert_hex_number}
use godwoken_web.Hex.Numbers.{big_int-to_hex_number, validate_hex_number-to_hex_number}
use godwoken_web.Uint.Uint32
use godwoken_web.Uint.Uint32.{Uint32}
use godwoken_web.Uint.Uint64
use godwoken_web.Uint.Uint64.{Uint64}
use godwoken_web.Uint.Uint128
use godwoken_web.Uint.Uint128.{Uint128}
use godwoken_web.Uint.Uint256
use godwoken_web.Uint.Uint256.{Uint256}

assert_hex_number-to_hex_number : (n : ℕ) → assert_hex_number (to_hex_number n) ≡ ok tt
unfolding assert_hex_number
assert_hex_number-to_hex_number n = rw (validate_hex_number-to_hex_number n)

-- Reading the hexadecimal print of any number is the constructor's range check of that number, in
-- each of the four classes: the number itself if it is in range, `not_in_range` if it is not.
pub from_hex-to_hex_number :
    (n : ℕ)
    → (Uint32.from_hex (to_hex_number n) ≡ Uint32.make n)
      × (Uint64.from_hex (to_hex_number n) ≡ Uint64.make n)
      × (Uint128.from_hex (to_hex_number n) ≡ Uint128.make n)
      × (Uint256.from_hex (to_hex_number n) ≡ Uint256.make n)
unfolding Uint32.from_hex Uint64.from_hex Uint128.from_hex Uint256.from_hex
from_hex-to_hex_number n = (
  rw (assert_hex_number-to_hex_number n, big_int-to_hex_number n),
  rw (assert_hex_number-to_hex_number n, big_int-to_hex_number n),
  rw (assert_hex_number-to_hex_number n, big_int-to_hex_number n),
  rw (assert_hex_number-to_hex_number n, big_int-to_hex_number n),
)

-- ===== src/Uint/LittleEndian.antt =====
-- The little-endian writers and readers of the four classes.
use godwoken_web.Common.{ℕ, ◌≤◌, ◌≡◌, ok, ◌>>=◌}
use godwoken_web.Uint.Uint32
use godwoken_web.Uint.Uint64
use godwoken_web.Uint.Uint128
use godwoken_web.Uint.Uint256
use godwoken_web.Uint.RoundTrip.{uint32_le, uint64_le, uint128_le, uint256_le}

-- In each of the four classes, `fromLittleEndian` undoes `toLittleEndian` on every value in range.
pub from_little_endian-to_little_endian :
    (a b c d : ℕ)
    → a ≤ Uint32.max_value
    → b ≤ Uint64.max_value
    → c ≤ Uint128.max_value
    → d ≤ Uint256.max_value
    → ((Uint32.to_little_endian (record { value = a }) >>= Uint32.from_little_endian)
        ≡ ok (record { value = a }))
      × ((Uint64.to_little_endian (record { value = b }) >>= Uint64.from_little_endian)
          ≡ ok (record { value = b }))
      × ((Uint128.to_little_endian (record { value = c }) >>= Uint128.from_little_endian)
          ≡ ok (record { value = c }))
      × ((Uint256.to_little_endian (record { value = d }) >>= Uint256.from_little_endian)
          ≡ ok (record { value = d }))
from_little_endian-to_little_endian a b c d ha hb hc hd =
    (uint32_le a ha, uint64_le b hb, uint128_le c hc, uint256_le d hd)

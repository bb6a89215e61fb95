-- ===== src/Uint/Uint128.antt =====
-- The class `Uint128`.
use godwoken_web.Common.{
  ℕ, ◌+◌, ◌-◌, ◌*◌, ◌/◌, ◌%◌, ◌^◌, ◌++◌, ltb, ◌==◌, if◌then◌else◌, length, slice, Text, starts_with,
  ◌&&◌, guard, Result, ok, err, not_in_range, little_endian_format, ◌>>=◌, ◌>>◌,
}
use godwoken_web.Hex.{x_prefix, big_int, to_hex_number, assert_hex_number}
use godwoken_web.Buffer.{Bytes, write_uint_le, read_uint_le}
use godwoken_web.Buffer

pub record Uint128 : Type 0 where
  pub value : ℕ

abbrev pub max_value : ℕ
max_value = 2 ^ 128 - 1

-- The constructor.
unfoldable pub make : ℕ → Result Uint128
make value = if ltb max_value value then err not_in_range else ok (record { value = value })

unfoldable pub to_hex : Uint128 → Text
to_hex n = to_hex_number n.value

unfoldable pub from_hex : Text → Result Uint128
unfolding make
from_hex value = do assert_hex_number value; n ← big_int value; make n

-- The buffer of 16 bytes is filled by the two writes.
unfoldable pub to_little_endian : Uint128 → Result Text
to_little_endian n = do
  low ← write_uint_le 8 (n.value % 2 ^ 64)
  high ← write_uint_le 8 (n.value / 2 ^ 64)
  ok (x_prefix ++ Buffer.to_hex (low ++ high))

unfoldable pub from_little_endian : Text → Result Uint128
unfolding make starts_with
from_little_endian hex = do
  guard (length hex == 34 && starts_with x_prefix hex) little_endian_format
  let buf = Buffer.from_hex (slice 2 34 hex)
  high ← read_uint_le 8 8 buf
  low ← read_uint_le 8 0 buf
  make (high * 2 ^ 64 + low)

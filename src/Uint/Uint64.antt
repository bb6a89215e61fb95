-- ===== src/Uint/Uint64.antt =====
-- The class `Uint64`.
use godwoken_web.Common.{
  ℕ, ◌-◌, ◌^◌, ◌++◌, ltb, ◌==◌, if◌then◌else◌, length, drop, Text, starts_with, ◌&&◌, guard, Result,
  ok, err, not_in_range, little_endian_format, ◌>>=◌, ◌>>◌,
}
use godwoken_web.Hex.{x_prefix, big_int, to_hex_number, assert_hex_number}
use godwoken_web.Buffer.{Bytes, write_uint_le, read_uint_le}
use godwoken_web.Buffer

pub record Uint64 : Type 0 where
  pub value : ℕ

abbrev pub max_value : ℕ
max_value = 2 ^ 64 - 1

-- The constructor.
unfoldable pub make : ℕ → Result Uint64
make value = if ltb max_value value then err not_in_range else ok (record { value = value })

unfoldable pub to_hex : Uint64 → Text
to_hex n = to_hex_number n.value

unfoldable pub from_hex : Text → Result Uint64
unfolding make
from_hex value = do assert_hex_number value; n ← big_int value; make n

unfoldable pub to_little_endian : Uint64 → Result Text
to_little_endian n = do buf ← write_uint_le 8 n.value; ok (x_prefix ++ Buffer.to_hex buf)

unfoldable pub from_little_endian : Text → Result Uint64
unfolding make starts_with
from_little_endian hex = do
  assert_hex_number hex
  guard (length hex == 18 && starts_with x_prefix hex) little_endian_format
  num ← read_uint_le 8 0 (Buffer.from_hex (drop 2 hex))
  make num

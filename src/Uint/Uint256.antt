-- ===== src/Uint/Uint256.antt =====
-- The class `Uint256`.
use godwoken_web.Common.{
  ℕ, ◌+◌, ◌-◌, ◌*◌, ◌/◌, ◌%◌, ◌^◌, ◌++◌, ltb, ◌==◌, if◌then◌else◌, length, slice, Text, starts_with,
  ◌&&◌, guard, Result, ok, err, not_in_range, little_endian_format, ◌>>=◌, ◌>>◌,
}
use godwoken_web.Hex.{x_prefix, big_int, to_hex_number, assert_hex_number}
use godwoken_web.Buffer.{Bytes, write_uint_le, read_uint_le}
use godwoken_web.Buffer

pub record Uint256 : Type 0 where
  pub value : ℕ

abbrev pub max_value : ℕ
max_value = 2 ^ 256 - 1

-- The constructor.
unfoldable pub make : ℕ → Result Uint256
make value = if ltb max_value value then err not_in_range else ok (record { value = value })

unfoldable pub to_hex : Uint256 → Text
to_hex n = to_hex_number n.value

unfoldable pub from_hex : Text → Result Uint256
unfolding make
from_hex value = do assert_hex_number value; n ← big_int value; make n

-- The buffer of 32 bytes is filled by the four writes.
unfoldable pub to_little_endian : Uint256 → Result Text
to_little_endian n = do
  w0 ← write_uint_le 8 (n.value % 2 ^ 64)
  w1 ← write_uint_le 8 (n.value / 2 ^ 64 % 2 ^ 64)
  w2 ← write_uint_le 8 (n.value / 2 ^ 128 % 2 ^ 64)
  w3 ← write_uint_le 8 (n.value / 2 ^ 192 % 2 ^ 64)
  ok (x_prefix ++ Buffer.to_hex (w0 ++ (w1 ++ (w2 ++ w3))))

unfoldable pub from_little_endian : Text → Result Uint256
unfolding make starts_with
from_little_endian hex = do
  guard (length hex == 66 && starts_with x_prefix hex) little_endian_format
  let buf = Buffer.from_hex (slice 2 66 hex)
  w0 ← read_uint_le 8 0 buf
  w1 ← read_uint_le 8 8 buf
  w2 ← read_uint_le 8 16 buf
  w3 ← read_uint_le 8 24 buf
  make (w0 + w1 * 2 ^ 64 + w2 * 2 ^ 128 + w3 * 2 ^ 192)

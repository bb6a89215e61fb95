-- ===== src/Polyjuice.antt =====
-- Polyjuice arguments: the binary header in front of the call data of a Godwoken transaction.
-- `buildPolyjuiceArgs` and the assembly of `args` in `polyTxToGwTx` are of
-- packages/api-server/src/convert-tx.ts, `isPolyjuiceTransactionArgs` and `decodePolyjuiceArgs` of
-- packages/api-server/src/parse-tx.ts.
pub mod Layout
pub mod Header
pub mod RoundTrip
pub mod Assembly
pub mod Written
use godwoken_web.Common.{
  ℕ, ◌+◌, ◌*◌, ◌/◌, ◌%◌, ◌-◌, ◌^◌, Bool, true, false, not, Option, none, some, List, [], ◌∷◌, ◌++◌,
  ltb, leb, ◌==◌, get_elem?, if◌then◌else◌, length, drop, take, slice, replicate, Text, codes,
  text_eq, Result, ok, err, guard, header_not_matched, args_too_short, not_in_range, ◌>>=◌, ◌>>◌,
}
use godwoken_web.Hex.{x_prefix, to_hex_number}
use godwoken_web.Buffer.{Bytes, from_hex, to_hex, write_uint_le}
use godwoken_web.Uint.Uint32
use godwoken_web.Uint.Uint64
use godwoken_web.Uint.Uint128

-- `Buffer.from([0xff, 0xff, 0xff, "P", "O", "L", "Y"])`
abbrev pub args_header : Bytes
args_header = 0xff ∷ 0xff ∷ 0xff ∷ codes "POLY"

abbrev pub call_kind : Bool → ℕ
call_kind true = 3
call_kind false = 0

-- A number of 128 bits as its low word and its high word.
unfoldable pub u128_buf : ℕ → Result Bytes
u128_buf n = do
  low ← write_uint_le 8 (n % 2 ^ 64)
  high ← write_uint_le 8 (n / 2 ^ 64)
  ok (low ++ high)

-- The 20 bytes at the end of `argsBuf`, into which the address is copied.
abbrev pub address_field : Bytes → Bytes
address_field to = take 20 (to ++ replicate 20 0)

abbrev pub recipient_field : Option Text → Bytes
recipient_field none = []
recipient_field (some to) = address_field (from_hex (drop 2 to))

unfoldable pub build_polyjuice_args : Bool → ℕ → ℕ → ℕ → Text → Option Text → Result Text
unfolding u128_buf
build_polyjuice_args is_create gas gas_price value data_text to = do
  gas_limit_buf ← write_uint_le 8 gas
  gas_price_buf ← u128_buf gas_price
  value_buf ← u128_buf value
  let data_buf = from_hex (drop 2 data_text)
  data_size_buf ← write_uint_le 4 (length data_buf)
  ok (
      x_prefix
      ++ to_hex (
          (args_header ++ call_kind is_create ∷ [])
          ++ (gas_limit_buf
              ++ (gas_price_buf
                  ++ (value_buf ++ (data_size_buf ++ (data_buf ++ recipient_field to)))))))

pub record PolyjuiceArgs : Type 0 where
  pub is_create : Bool
  pub gas_limit : Text
  pub gas_price : Text
  pub value : Text
  pub input_size : Text
  pub input : Text
  pub to_address_when_native_transfer : Option Text

-- The local constant `args_0_7` of both functions.
abbrev pub args_0_7 : Text
args_0_7 = x_prefix ++ codes "ffffff504f4c59"

unfoldable pub is_polyjuice_transaction_args : Text → Bool
unfolding text_eq
is_polyjuice_transaction_args polyjuice_args = not (text_eq (slice 0 14 polyjuice_args) args_0_7)

-- `buf[7].toString(16) === "3"`, for a buffer that holds more than seven bytes.
abbrev pub is_three : Option ℕ → Bool
is_three none = false
is_three (some b) = b == 3

unfoldable pub decode_polyjuice_args : Text → Result PolyjuiceArgs
decode_polyjuice_args args = do
  guard (is_polyjuice_transaction_args args) header_not_matched
  let buf = from_hex (drop 2 args)
  guard (leb 52 (length buf)) args_too_short
  gas_limit ← Uint64.from_little_endian (x_prefix ++ to_hex (slice 8 16 buf))
  gas_price ← Uint128.from_little_endian (x_prefix ++ to_hex (slice 16 32 buf))
  value ← Uint128.from_little_endian (x_prefix ++ to_hex (slice 32 48 buf))
  input_size ← Uint32.from_little_endian (x_prefix ++ to_hex (slice 48 52 buf))
  let size = input_size.value
  let tail = slice (52 + size) (52 + size + 20) buf
  ok (record {
    is_create = is_three (get_elem? buf 7);
    gas_limit = Uint64.to_hex gas_limit;
    gas_price = Uint128.to_hex gas_price;
    value = Uint128.to_hex value;
    input_size = Uint32.to_hex input_size;
    input = x_prefix ++ to_hex (slice 52 (52 + size) buf);
    to_address_when_native_transfer =
        if length buf == 52 + size + 20 then some (x_prefix ++ to_hex tail) else none;
  })

-- `UInt32ToLeBytes`, `UInt64ToLeBytes` and `UInt128ToLeBytes`.
unfoldable pub uint32_to_le_bytes : ℕ → Result Text
uint32_to_le_bytes num = do buf ← write_uint_le 4 num; ok (x_prefix ++ to_hex buf)

unfoldable pub uint64_to_le_bytes : ℕ → Result Text
uint64_to_le_bytes num = do buf ← write_uint_le 8 num; ok (x_prefix ++ to_hex buf)

unfoldable pub uint128_to_le_bytes : ℕ → Result Text
unfolding u128_buf
uint128_to_le_bytes u128 =
    if ltb (2 ^ 128 - 1) u128
    then err not_in_range
    else do buf ← u128_buf u128; ok (x_prefix ++ to_hex buf)

abbrev pub appended : Option Text → Text
appended none = []
appended (some to) = drop 2 to

-- The part of `polyTxToGwTx` that assembles `args`; `deploy` is `to === DEPLOY_TO_ADDRESS`, and the
-- last argument is `rawTx.to` where the transaction is a native transfer.
unfoldable pub assemble_args : Bool → ℕ → ℕ → ℕ → Text → Option Text → Result Text
assemble_args deploy gas_limit gas_price value data_text to = do
  args_8_16 ← uint64_to_le_bytes gas_limit
  args_16_32 ← uint128_to_le_bytes gas_price
  args_32_48 ← uint128_to_le_bytes value
  args_48_52 ← uint32_to_le_bytes (length (from_hex (drop 2 data_text)))
  let args_7 = if deploy then codes "0x03" else codes "0x00"
  let args =
      x_prefix
      ++ (drop 2 args_0_7
          ++ (drop 2 args_7
              ++ (drop 2 args_8_16
                  ++ (drop 2 args_16_32
                      ++ (drop 2 args_32_48 ++ (drop 2 args_48_52 ++ drop 2 data_text))))))
  ok (args ++ appended to)

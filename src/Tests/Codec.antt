-- ===== src/Tests/Codec.antt =====
-- The numbers, the addresses and the polyjuice arguments at concrete inputs.
use godwoken_web.Common.{
  ◌+◌, ◌^◌, ◌-◌, ◌≡◌, refl, ◌⊎◌, arith, true, false, Option, none, some, [], ◌∷◌, ◌++◌, length,
  drop, Text, codes, ok, err, not_in_range, not_hex_number, little_endian_format, address_format,
  ◌>>=◌, replicate,
}
use godwoken_web.Hex.{x_prefix, to_hex_number, assert_hex_number, big_int, hex_value, hex_digit}
use godwoken_web.Buffer.{Bytes, from_hex, to_hex, le_bytes, write_uint_le, read_uint_le}
use godwoken_web.Uint.Uint32
use godwoken_web.Uint.Uint64
use godwoken_web.Uint.Uint128
use godwoken_web.Uint.Uint256
use godwoken_web.Uint.LittleEndian.{from_little_endian-to_little_endian}
use godwoken_web.Uint.Bounds.{from_hex-to_hex_number}
use godwoken_web.Address
use godwoken_web.Address.{to_lower_case, le_text}
use godwoken_web.Address.Deserialize.{deserialize_refuses}
use godwoken_web.Polyjuice.{
  build_polyjuice_args, decode_polyjuice_args, is_polyjuice_transaction_args, assemble_args,
  uint32_to_le_bytes, uint64_to_le_bytes, uint128_to_le_bytes,
}
use godwoken_web.Polyjuice.RoundTrip.{decode-build, address_text}
use godwoken_web.Polyjuice.Assembly.{assemble-build}
use godwoken_web.Polyjuice.Header.{header_accepts_any}

-- What the runs unfold.
program : Unit {0}
unfolding hex_value hex_digit to_hex_number assert_hex_number big_int from_hex to_hex write_uint_le
    read_uint_le le_bytes Uint32.make Uint32.to_hex Uint32.from_hex Uint32.to_little_endian
    Uint32.from_little_endian Uint64.to_hex Uint64.from_little_endian Uint64.to_little_endian
    Uint128.to_hex Uint128.from_little_endian Uint128.to_little_endian Uint256.to_little_endian
    Uint256.from_little_endian Address.make Address.serialize Address.deserialize
    build_polyjuice_args decode_polyjuice_args is_polyjuice_transaction_args assemble_args
    uint32_to_le_bytes uint64_to_le_bytes uint128_to_le_bytes
program = tt

uint_runs :
    (Uint32.to_little_endian (record { value = 258 }) ≡ ok (codes "0x02010000"))
    × (Uint32.from_hex (codes "0xffffffff") ≡ ok (record { value = 2 ^ 32 - 1 }))
    × (Uint32.from_hex (codes "0x100000000") ≡ err not_in_range)
    × (Uint32.from_hex (codes "0x") ≡ err not_hex_number)
    × (Uint128.to_little_endian (record { value = 2 ^ 64 + 3 })
        ≡ ok (codes "0x03000000000000000100000000000000"))
    × (Uint64.from_little_endian (codes "0x0102") ≡ err little_endian_format)
unfolding program
uint_runs = (refl, refl, refl, refl, refl, refl)

abbrev sample_address : Text
sample_address = codes "0xAb00000000000000000000000000000000000001"

address_runs :
    ((Address.make 2 sample_address >>= Address.serialize)
      ≡ ok (codes "0x0200000014000000ab00000000000000000000000000000000000001"))
    × (Address.deserialize 2 (codes "0x0200000014000000ab00000000000000000000000000000000000001")
        ≡ err not_hex_number)
    × (Address.make 2 (codes "0xab") ≡ err address_format)
unfolding program
address_runs = (refl, refl, refl)

abbrev recipient : Option Bytes
recipient = some (replicate 20 0xab)

args_runs :
    (build_polyjuice_args false 21000 1 5 (codes "0x0102") none
      ≡ ok (
          codes
            "0xffffff504f4c5900085200000000000001000000000000000000000000000000050000000000000000000000000000000200000001"
          ++ codes "02"))
    × (is_polyjuice_transaction_args (codes "0x00") ≡ true)
unfolding program
args_runs = (refl, refl)

from_little_endian-to_little_endian_example :
    ((Uint32.to_little_endian (record { value = 258 }) >>= Uint32.from_little_endian)
      ≡ ok (record { value = 258 }))
    × ((Uint64.to_little_endian (record { value = 258 }) >>= Uint64.from_little_endian)
        ≡ ok (record { value = 258 }))
    × ((Uint128.to_little_endian (record { value = 2 ^ 100 }) >>= Uint128.from_little_endian)
        ≡ ok (record { value = 2 ^ 100 }))
    × ((Uint256.to_little_endian (record { value = 2 ^ 200 }) >>= Uint256.from_little_endian)
        ≡ ok (record { value = 2 ^ 200 }))
from_little_endian-to_little_endian_example =
    from_little_endian-to_little_endian 258 258 (2 ^ 100) (2 ^ 200) (omega arith) (omega arith)
      (omega arith) (omega arith)

from_hex-to_hex_number_example :
    (Uint32.from_hex (to_hex_number 70000) ≡ Uint32.make 70000)
    × (Uint64.from_hex (to_hex_number 70000) ≡ Uint64.make 70000)
    × (Uint128.from_hex (to_hex_number 70000) ≡ Uint128.make 70000)
    × (Uint256.from_hex (to_hex_number 70000) ≡ Uint256.make 70000)
from_hex-to_hex_number_example = from_hex-to_hex_number 70000

deserialize_refuses_example :
    (Address.deserialize 2 (codes "0x0200000014000000ab00000000000000000000000000000000000001")
      ≡ err not_hex_number)
    ⊎ (Address.deserialize 2 (codes "0x0200000014000000ab00000000000000000000000000000000000001")
        ≡ err little_endian_format)
deserialize_refuses_example =
    deserialize_refuses 2 (codes "0x0200000014000000ab00000000000000000000000000000000000001")

header_accepts_any_example : is_polyjuice_transaction_args (codes "0x00000000000000") ≡ true
header_accepts_any_example = header_accepts_any (codes "0x00000000000000")

decode-build_example :
    (build_polyjuice_args false 21000 1 5 (codes "0x0102") (address_text recipient)
      >>= decode_polyjuice_args)
    ≡ ok (record {
      is_create = false;
      gas_limit = to_hex_number 21000;
      gas_price = to_hex_number 1;
      value = to_hex_number 5;
      input_size = to_hex_number (length (from_hex (drop 2 (codes "0x0102"))));
      input = x_prefix ++ to_hex (from_hex (drop 2 (codes "0x0102")));
      to_address_when_native_transfer = address_text recipient;
    })
decode-build_example =
    decode-build false 21000 1 5 (codes "0x0102") recipient (omega arith) (omega arith)
      (omega arith) (unfold from_hex hex_value in omega arith) (omega arith)

assemble-build_example :
    assemble_args true 21000 1 5 (x_prefix ++ to_hex (1 ∷ 2 ∷ [])) (address_text recipient)
    ≡ build_polyjuice_args true 21000 1 5 (x_prefix ++ to_hex (1 ∷ 2 ∷ [])) (address_text recipient)
assemble-build_example =
    assemble-build true 21000 1 5 (1 ∷ 2 ∷ []) recipient (omega arith) (omega arith) (omega arith)
      (omega arith) (omega arith) (omega arith)

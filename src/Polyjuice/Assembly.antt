-- ===== src/Polyjuice/Assembly.antt =====
-- The two ways in which the program writes polyjuice arguments: `buildPolyjuiceArgs` into a buffer,
-- and `polyTxToGwTx` by joining texts.
use godwoken_web.Common.{
  ℕ, ◌-◌, ◌^◌, ◌<◌, ◌≡◌, refl, arith, Bool, true, false, Option, none, some, [], ◌∷◌, ◌++◌,
  append_assoc, length, drop, codes, ok, ltb-false, if◌then◌else◌,
}
use godwoken_web.Hex.{x_prefix, hex_digit}
use godwoken_web.Buffer.{Bytes, IsBytes, le_bytes, to_hex}
use godwoken_web.Buffer.Codec.{from_hex-to_hex, to_hex-append}
use godwoken_web.Buffer.Words.{write_uint_le_fits}
use godwoken_web.Uint.RoundTrip.{u128_bytes}
use godwoken_web.Polyjuice.{
  args_header, call_kind, args_0_7, appended, assemble_args, build_polyjuice_args,
  uint32_to_le_bytes, uint64_to_le_bytes, uint128_to_le_bytes,
}
use godwoken_web.Polyjuice.Layout.{layout, build-layout, u128_buf_lem}
use godwoken_web.Polyjuice.RoundTrip.{
  IsAddress, address_text, bytes_of, recipient_field-address_text,
}

pub uint128_text :
    (n : ℕ) → n < 2 ^ 128 → uint128_to_le_bytes n ≡ ok (x_prefix ++ to_hex (u128_bytes n))
unfolding uint128_to_le_bytes
uint128_text n h = rw (ltb-false (2 ^ 128 - 1) n (omega arith)) (rw (u128_buf_lem n h))

pub uint64_text :
    (n : ℕ) → n < 2 ^ 64 → uint64_to_le_bytes n ≡ ok (x_prefix ++ to_hex (le_bytes 8 n))
unfolding uint64_to_le_bytes
uint64_text n h = rw (write_uint_le_fits 8 n (omega arith))

pub uint32_text :
    (n : ℕ) → n < 2 ^ 32 → uint32_to_le_bytes n ≡ ok (x_prefix ++ to_hex (le_bytes 4 n))
unfolding uint32_to_le_bytes
uint32_text n h = rw (write_uint_le_fits 4 n (omega arith))

-- The fixed part, printed.
kind_text :
    (deploy : Bool)
    → to_hex (args_header ++ call_kind deploy ∷ [])
      ≡ drop 2 args_0_7 ++ drop 2 (if deploy then codes "0x03" else codes "0x00")
unfolding to_hex hex_digit
kind_text true = refl
kind_text false = refl

appended-to_hex : (to : Option Bytes) → appended (address_text to) ≡ to_hex (bytes_of to)
unfolding to_hex
appended-to_hex none = refl
appended-to_hex (some a) = refl

layout_text :
    (deploy : Bool) (gas gas_price value : ℕ) (buf rest : Bytes)
    → to_hex (layout deploy gas gas_price value buf rest)
      ≡ drop 2 args_0_7
        ++ (drop 2 (if deploy then codes "0x03" else codes "0x00")
            ++ (to_hex (le_bytes 8 gas)
                ++ (to_hex (u128_bytes gas_price)
                    ++ (to_hex (u128_bytes value)
                        ++ (to_hex (le_bytes 4 (length buf)) ++ (to_hex buf ++ to_hex rest))))))
layout_text deploy gas gas_price value buf rest =
    let after_size = buf ++ rest in
    let after_value = le_bytes 4 (length buf) ++ after_size in
    let after_price = u128_bytes value ++ after_value in
    let after_gas = u128_bytes gas_price ++ after_price in
    rw (
      to_hex-append (args_header ++ call_kind deploy ∷ []) (le_bytes 8 gas ++ after_gas),
      kind_text deploy,
      to_hex-append (le_bytes 8 gas) after_gas,
      to_hex-append (u128_bytes gas_price) after_price,
      to_hex-append (u128_bytes value) after_value,
      to_hex-append (le_bytes 4 (length buf)) after_size,
      to_hex-append buf rest,
    )

-- `polyTxToGwTx` writes the same arguments as `buildPolyjuiceArgs`, where the numbers fit their
-- fields, the data is a printed buffer of less than 2 ^ 32 bytes, and the recipient of a native
-- transfer is a printed address of 20 bytes.
pub assemble-build :
    (deploy : Bool) (gas gas_price value : ℕ) (buf : Bytes) (to : Option Bytes)
    → gas < 2 ^ 64
    → gas_price < 2 ^ 128
    → value < 2 ^ 128
    → length buf < 2 ^ 32
    → IsBytes buf
    → IsAddress to
    → assemble_args deploy gas gas_price value (x_prefix ++ to_hex buf) (address_text to)
      ≡ build_polyjuice_args deploy gas gas_price value (x_prefix ++ to_hex buf) (address_text to)
unfolding assemble_args
assemble-build deploy gas gas_price value buf to hg hp hv hd hb ha =
    let written =
      build-layout deploy gas gas_price value (x_prefix ++ to_hex buf) (address_text to) hg hp hv
        (rw (from_hex-to_hex buf hb) hd) in
    rw
      (
        from_hex-to_hex buf hb,
        uint64_text gas hg,
        uint128_text gas_price hp,
        uint128_text value hv,
        uint32_text (length buf) hd,
      )
      (rw
        (
          written,
          recipient_field-address_text to ha,
          from_hex-to_hex buf hb,
          layout_text deploy gas gas_price value buf (bytes_of to),
          appended-to_hex to,
        )
        (simp append_assoc))

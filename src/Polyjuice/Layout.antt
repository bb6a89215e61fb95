-- ===== src/Polyjuice/Layout.antt =====
-- The bytes that `buildPolyjuiceArgs` writes.
use godwoken_web.Common.{
  ℕ, ◌+◌, ◌/◌, ◌%◌, ◌^◌, ◌<◌, ◌≡◌, arith, Bool, Option, [], ◌∷◌, ◌++◌, length, length-append, drop,
  All-append, Text, ok,
}
use godwoken_web.Hex.{x_prefix}
use godwoken_web.Buffer.{Bytes, IsBytes, le_bytes, from_hex, to_hex}
use godwoken_web.Buffer.Words.{le_bytes-IsBytes, length-le_bytes, write_uint_le_fits}
use godwoken_web.Uint.RoundTrip.{u128_bytes}
use godwoken_web.Polyjuice.{args_header, call_kind, u128_buf, recipient_field, build_polyjuice_args}

-- The header, the four numbers, the data and what follows it.
abbrev pub layout : Bool → ℕ → ℕ → ℕ → Bytes → Bytes → Bytes
layout is_create gas gas_price value buf rest =
    (args_header ++ call_kind is_create ∷ [])
    ++ (le_bytes 8 gas
        ++ (u128_bytes gas_price
            ++ (u128_bytes value ++ (le_bytes 4 (length buf) ++ (buf ++ rest)))))

pub u128_buf_lem : (n : ℕ) → n < 2 ^ 128 → u128_buf n ≡ ok (u128_bytes n)
unfolding u128_buf
u128_buf_lem n h = rw (
  write_uint_le_fits 8 (n % 2 ^ 64) (omega arith),
  write_uint_le_fits 8 (n / 2 ^ 64) (omega arith),
)

-- Numbers that fit their fields are written one behind the other, each with its lowest byte first.
pub build-layout :
    (is_create : Bool) (gas gas_price value : ℕ) (text : Text) (to : Option Text)
    → gas < 2 ^ 64
    → gas_price < 2 ^ 128
    → value < 2 ^ 128
    → length (from_hex (drop 2 text)) < 2 ^ 32
    → build_polyjuice_args is_create gas gas_price value text to
      ≡ ok (
          x_prefix
          ++ to_hex
              (layout is_create gas gas_price value (from_hex (drop 2 text)) (recipient_field to)))
unfolding build_polyjuice_args
build-layout is_create gas gas_price value text to hg hp hv hd = rw (
  write_uint_le_fits 8 gas (omega arith),
  u128_buf_lem gas_price hp,
  u128_buf_lem value hv,
  write_uint_le_fits 4 (length (from_hex (drop 2 text))) (omega arith),
)

pub u128_bytes-IsBytes : (n : ℕ) → IsBytes (u128_bytes n)
u128_bytes-IsBytes n =
    All-append (λ b. b < 256) _ _ (le_bytes-IsBytes 8 (n % 2 ^ 64))
      (le_bytes-IsBytes 8 (n / 2 ^ 64))

pub length-u128_bytes : (n : ℕ) → length (u128_bytes n) ≡ 16
length-u128_bytes n = omega (
  arith,
  length-append (le_bytes 8 (n % 2 ^ 64)) (le_bytes 8 (n / 2 ^ 64)),
  length-le_bytes 8 (n % 2 ^ 64),
  length-le_bytes 8 (n / 2 ^ 64),
)

module _ (is_create : Bool) (gas gas_price value : ℕ) (buf rest : Bytes) where
  kind-IsBytes : IsBytes (args_header ++ call_kind is_create ∷ [])
  kind-IsBytes = ground arith

  pub layout-IsBytes :
      IsBytes buf → IsBytes rest → IsBytes (layout is_create gas gas_price value buf rest)
  layout-IsBytes hb hr =
      let P = λ (b : ℕ). b < 256 in
      All-append P (args_header ++ call_kind is_create ∷ []) _ kind-IsBytes (
        All-append P (le_bytes 8 gas) _ (le_bytes-IsBytes 8 gas) (
          All-append P (u128_bytes gas_price) _ (u128_bytes-IsBytes gas_price) (
            All-append P (u128_bytes value) _ (u128_bytes-IsBytes value) (
              All-append P (le_bytes 4 (length buf)) _ (le_bytes-IsBytes 4 (length buf))
                (All-append P buf rest hb hr)))))

  pub length-layout :
      length (layout is_create gas gas_price value buf rest) ≡ 52 + length buf + length rest
  length-layout = omega (
    arith,
    length-append (args_header ++ call_kind is_create ∷ []) (
        le_bytes 8 gas
        ++ (u128_bytes gas_price
            ++ (u128_bytes value ++ (le_bytes 4 (length buf) ++ (buf ++ rest))))),
    length-append (le_bytes 8 gas)
        (u128_bytes gas_price ++ (u128_bytes value ++ (le_bytes 4 (length buf) ++ (buf ++ rest)))),
    length-append (u128_bytes gas_price)
        (u128_bytes value ++ (le_bytes 4 (length buf) ++ (buf ++ rest))),
    length-append (u128_bytes value) (le_bytes 4 (length buf) ++ (buf ++ rest)),
    length-append (le_bytes 4 (length buf)) (buf ++ rest),
    length-append buf rest,
    length-le_bytes 8 gas,
    length-le_bytes 4 (length buf),
    length-u128_bytes gas_price,
    length-u128_bytes value,
  )

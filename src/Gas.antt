-- ===== src/Gas.antt =====
-- `calcIntrinsicGas` and `calcFee` of packages/api-server/src/util.ts, with the constants of
-- src/methods/constant.ts there.
pub mod Intrinsic
use godwoken_web.Common.{
  ℕ, ◌+◌, ◌-◌, ◌*◌, ◌/◌, ◌%◌, Bool, true, false, Option, none, some, List, [], ◌∷◌, ◌==◌,
  if◌then◌else◌, length, drop, Text, codes, text_eq, Result, ok, err, range_error,
}
use godwoken_web.Hex.{x_prefix}
use godwoken_web.Buffer.{Bytes, from_hex}

abbrev pub tx_gas : ℕ
tx_gas = 21000

abbrev pub tx_gas_contract_creation : ℕ
tx_gas_contract_creation = 53000

abbrev pub tx_data_zero_gas : ℕ
tx_data_zero_gas = 4

abbrev pub tx_data_none_zero_gas : ℕ
tx_data_none_zero_gas = 16

-- The loop that counts the bytes that are not zero.
unfoldable pub non_zero_from : ℕ → Bytes → ℕ
non_zero_from non_zero_len [] = non_zero_len
non_zero_from non_zero_len (b ∷ bs) =
    non_zero_from (if b == 0 then non_zero_len else non_zero_len + 1) bs

unfoldable pub data_gas : Bytes → ℕ
unfolding non_zero_from
data_gas buf =
    let non_zero_len = non_zero_from 0 buf in
    let zero_len = length buf - non_zero_len in
    zero_len * tx_data_zero_gas + non_zero_len * tx_data_none_zero_gas

-- `to` is absent, or the text `0x`.
abbrev pub is_create : Option Text → Bool
is_create none = true
is_create (some to) = text_eq to x_prefix

unfoldable pub calc_intrinsic_gas : Option Text → Option Text → ℕ
unfolding text_eq data_gas
calc_intrinsic_gas to input =
    let gas = if is_create to then tx_gas_contract_creation else tx_gas in
    elim input [
      | none ↦ gas
      | some text ↦ if length text == 0 then gas else gas + data_gas (from_hex (drop 2 text))
    ]

-- A length that is odd is no integer when halved, which `BigInt` refuses.
unfoldable pub calc_fee : Text → ℕ → Result ℕ
calc_fee serialized_l2_tx fee_rate =
    if length (drop 2 serialized_l2_tx) % 2 == 0
    then ok (length (drop 2 serialized_l2_tx) / 2 * fee_rate)
    else err range_error

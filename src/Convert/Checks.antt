-- ===== src/Convert/Checks.antt =====
-- The checks of funds: `checkBalance`, `verifyEnoughBalance`, `verifyIntrinsicGas` and `verifyL2TxFee`
-- of packages/api-server/src/methods/validator.ts.
use godwoken_web.Common.{
  ℕ, ◌+◌, ◌*◌, not, Option, none, some, ltb, Text, Result, ok, err, guard, invalid_params,
  type_error, ◌>>=◌,
}
use godwoken_web.Hex.{big_int}
use godwoken_web.Gas.{calc_intrinsic_gas, calc_fee}
use godwoken_web.Json.{Value}
use godwoken_web.Validator.{
  Verdict, accepted, refused, thrown, ◌>>>◌, at_least, text_of, verify_hex_number,
  verify_hex_string,
}
use godwoken_web.Convert.{Env, to_rlp_number}
use godwoken_web.Convert.Account.{registry_address}

-- `if (err) throw err`
abbrev pub check : Verdict → Result (Unit {0})
check accepted = ok tt
check refused = err invalid_params
check thrown = err type_error

-- `n == null || n === "0x" ? 0n : BigInt(n)`
abbrev pub number_or_zero : Option Text → Result ℕ
number_or_zero none = ok 0
number_or_zero (some n) = to_rlp_number n

pub record Funds : Type 0 where
  pub required_balance : ℕ
  pub balance : ℕ

unfoldable pub verify_intrinsic_gas : Option Text → Option Text → Text → Verdict
verify_intrinsic_gas to input gas = at_least (calc_intrinsic_gas to input) (big_int gas)

abbrev pub fee_of : Result ℕ → Value → Verdict
fee_of (ok required_fee) fee = at_least required_fee (big_int (text_of fee))
fee_of (err e) fee = thrown

unfoldable pub verify_l2_tx_fee : Value → Value → ℕ → Verdict
verify_l2_tx_fee fee serialized_l2_tx min_fee_rate =
    verify_hex_number fee
    >>> verify_hex_string serialized_l2_tx
    >>> fee_of (calc_fee (text_of serialized_l2_tx) min_fee_rate) fee

module _ (env : Env) where
  -- The balance is of the token with the id `CKB_SUDT_ID`, 1.
  unfoldable pub check_balance : Text → Option Text → Option Text → Option Text → Result Funds
  check_balance from value gas gas_price = do
    address ← registry_address env from
    balance ← env.get_balance address 1
    tx_value ← number_or_zero value
    tx_gas ← number_or_zero gas
    tx_gas_price ← number_or_zero gas_price
    ok (record { required_balance = tx_gas * tx_gas_price + tx_value; balance = balance })

  -- The error is returned, and thrown where a call throws.
  unfoldable pub verify_enough_balance :
      Text → Option Text → Option Text → Option Text → Result (Unit {0})
  unfolding check_balance
  verify_enough_balance from value gas gas_price = do
    funds ← check_balance from value gas gas_price
    guard (not (ltb funds.balance funds.required_balance)) invalid_params

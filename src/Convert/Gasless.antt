-- ===== src/Convert/Gasless.antt =====
-- Gasless transactions: packages/api-server/src/gasless/payload.ts and utils.ts, and
-- `verifyGaslessTransaction` of packages/api-server/src/methods/validator.ts.
use godwoken_web.Common.{
  ℕ, ◌+◌, ◌*◌, Bool, true, false, not, ◌++◌, ltb, leb, ◌==◌, if◌then◌else◌, length, drop, slice,
  Text, codes, text_eq, Result, ok, err, guard, gasless_length, gasless_selector, ◌>>=◌, ◌>>◌,
}
use godwoken_web.Hex.{x_prefix, big_int, to_hex_number}
use godwoken_web.Json.{str}
use godwoken_web.Validator.{
  Verdict, thrown, ◌>>>◌, demand, verify_address, verify_gas_limit, verify_hex_string,
}
use godwoken_web.Convert.{Env}

pub record UserOperation : Type 0 where
  pub call_contract : Text
  pub call_data : Text
  pub call_gas_limit : Text
  pub verification_gas_limit : Text
  pub max_fee_per_gas : Text
  pub max_priority_fee_per_gas : Text
  pub paymaster_and_data : Text

-- The first four bytes of the hash of the signature of `handleOp`.
abbrev pub entrypoint_handle_op_selector : Text
entrypoint_handle_op_selector = codes "fb4350d8"

abbrev pub is_zero : Result ℕ → Result Bool
is_zero (ok n) = ok (n == 0)
is_zero (err e) = err e

abbrev pub is_ok {ℓ} : {A : Type ℓ} → Result A → Bool
is_ok (ok a) = true
is_ok (err e) = false

-- `BigInt(gasLimit) === BigInt(verificationGasLimit) * 3n + BigInt(callGasLimit)`
abbrev pub gas_adds_up : Result ℕ → Result ℕ → Result ℕ → Verdict
gas_adds_up (ok gas) (ok verification) (ok call) = demand (gas == verification * 3 + call)
gas_adds_up (ok gas) (ok verification) (err e) = thrown
gas_adds_up (ok gas) (err e) call = thrown
gas_adds_up (err e) verification call = thrown

-- The checks of the fields of a user operation. The check on `maxFeePerGas` behind them compares it
-- with itself, so it always passes.
unfoldable pub verify_user_operation : Text → UserOperation → Verdict
unfolding text_eq
verify_user_operation gas_limit op =
    verify_address (str op.call_contract)
    >>> verify_hex_string (str op.call_data)
    >>> verify_gas_limit (str op.call_gas_limit)
    >>> verify_gas_limit (str op.max_fee_per_gas)
    >>> verify_gas_limit (str op.max_priority_fee_per_gas)
    >>> verify_gas_limit (str op.verification_gas_limit)
    >>> verify_hex_string (str op.paymaster_and_data)
    >>> demand (not (ltb (length (drop 2 op.paymaster_and_data)) 40))
    >>> verify_address (str (slice 0 42 op.paymaster_and_data))
    >>> demand (text_eq op.max_fee_per_gas op.max_fee_per_gas)
    >>> gas_adds_up (big_int gas_limit) (big_int op.verification_gas_limit)
        (big_int op.call_gas_limit)

module _ (env : Env) where
  unfoldable pub decode_gasless_payload : Text → Result UserOperation
  unfolding text_eq
  decode_gasless_payload input_data = do
    guard (leb 10 (length input_data)) gasless_length
    guard (text_eq (slice 2 10 input_data) entrypoint_handle_op_selector) gasless_selector
    decoded ← env.abi_decode (x_prefix ++ drop 10 input_data)
    ok (record {
      call_contract = decoded.call_contract;
      call_data = decoded.call_data;
      call_gas_limit = to_hex_number decoded.call_gas_limit;
      verification_gas_limit = to_hex_number decoded.verification_gas_limit;
      max_fee_per_gas = to_hex_number decoded.max_fee_per_gas;
      max_priority_fee_per_gas = to_hex_number decoded.max_priority_fee_per_gas;
      paymaster_and_data = decoded.paymaster_and_data;
    })

  -- `BigInt` of the gas price may throw.
  unfoldable pub is_gasless_transaction : Text → Text → Text → Text → Result Bool
  unfolding text_eq decode_gasless_payload
  is_gasless_transaction to gas_price data_text entrypoint = do
    zero_price ← is_zero (big_int gas_price)
    ok (
        if not zero_price
        then false
        else if not (text_eq to entrypoint)
        then false
        else is_ok (decode_gasless_payload data_text))

  abbrev pub verify_decoded : Text → Result UserOperation → Verdict
  verify_decoded gas_limit (ok op) = verify_user_operation gas_limit op
  verify_decoded gas_limit (err e) = thrown

  -- With an entrypoint configured.
  unfoldable pub verify_gasless_transaction : Text → Text → Text → Text → Text → Verdict
  unfolding text_eq decode_gasless_payload verify_user_operation
  verify_gasless_transaction to input_data gas_price gas_limit entrypoint =
      demand (text_eq gas_price (codes "0x0"))
      >>> verify_address (str to)
      >>> verify_gas_limit (str gas_limit)
      >>> verify_hex_string (str input_data)
      >>> verify_decoded gas_limit (decode_gasless_payload input_data)
      >>> demand (text_eq to entrypoint)

-- ===== src/Convert/Verified.antt =====
-- What a verified gasless transaction keeps to.
use godwoken_web.Common.{
  ℕ, ◌+◌, ◌*◌, ◌≡◌, refl, arith, not, ltb, length, drop, slice, Text, codes, text_eq, text_eq_sound,
  Result, ok, err,
}
use godwoken_web.Hex.{big_int}
use godwoken_web.Json.{str}
use godwoken_web.Validator.{
  Verdict, accepted, ◌>>>◌, >>>_iff, demand, verify_address, verify_gas_limit, verify_hex_string,
}
use godwoken_web.Validator.Texts.{demand-true}
use godwoken_web.Convert.{Env}
use godwoken_web.Convert.Gasless.{
  UserOperation, gas_adds_up, verify_user_operation, decode_gasless_payload, verify_decoded,
  verify_gasless_transaction,
}

-- The gas limit that the payload accounts for.
abbrev pub GasAddsUp : Text → UserOperation → Type 0
GasAddsUp gas_limit op =
    (gas verification call : ℕ) × (big_int gas_limit ≡ ok gas)
    × (big_int op.verification_gas_limit ≡ ok verification)
    × (big_int op.call_gas_limit ≡ ok call)
    × (gas ≡ verification * 3 + call)

gas_adds_up_sound :
    (gas verification call : Result ℕ)
    → gas_adds_up gas verification call ≡ accepted
    → (g v c : ℕ) × (gas ≡ ok g) × (verification ≡ ok v) × (call ≡ ok c) × (g ≡ v * 3 + c)
gas_adds_up_sound (ok g) (ok v) (ok c) h = (g, v, c, refl, refl, refl, ground arith)
gas_adds_up_sound (ok g) (ok v) (err e) h = cc
gas_adds_up_sound (ok g) (err e) call h = cc
gas_adds_up_sound (err e) verification call h = cc

last_of : (v w : Verdict) → (v >>> w) ≡ accepted → w ≡ accepted
last_of v w h = ((>>>_iff v w).0 h).1

operation_gas :
    (gas_limit : Text) (op : UserOperation)
    → verify_user_operation gas_limit op ≡ accepted
    → GasAddsUp gas_limit op
unfolding verify_user_operation
operation_gas gas_limit op h =
    let h1 = last_of (verify_address (str op.call_contract)) _ h in
    let h2 = last_of (verify_hex_string (str op.call_data)) _ h1 in
    let h3 = last_of (verify_gas_limit (str op.call_gas_limit)) _ h2 in
    let h4 = last_of (verify_gas_limit (str op.max_fee_per_gas)) _ h3 in
    let h5 = last_of (verify_gas_limit (str op.max_priority_fee_per_gas)) _ h4 in
    let h6 = last_of (verify_gas_limit (str op.verification_gas_limit)) _ h5 in
    let h7 = last_of (verify_hex_string (str op.paymaster_and_data)) _ h6 in
    let h8 = last_of (demand (not (ltb (length (drop 2 op.paymaster_and_data)) 40))) _ h7 in
    let h9 = last_of (verify_address (str (slice 0 42 op.paymaster_and_data))) _ h8 in
    let h10 = last_of (demand (text_eq op.max_fee_per_gas op.max_fee_per_gas)) _ h9 in
    gas_adds_up_sound (big_int gas_limit) (big_int op.verification_gas_limit)
      (big_int op.call_gas_limit) h10

decoded_sound :
    (env : Env) (gas_limit : Text) (r : Result UserOperation)
    → verify_decoded env gas_limit r ≡ accepted
    → (op : UserOperation) × (r ≡ ok op) × GasAddsUp gas_limit op
decoded_sound env gas_limit (ok op) h = (op, refl, operation_gas gas_limit op h)
decoded_sound env gas_limit (err e) h = cc

-- A verified gasless transaction has the gas price `0x0`, goes to the entrypoint, and holds a payload
-- that decodes to a user operation, of which three times the gas for the verification and the gas of
-- the call add up to the gas limit.
pub gasless_verified :
    (env : Env) (to input_data gas_price gas_limit entrypoint : Text)
    → verify_gasless_transaction env to input_data gas_price gas_limit entrypoint ≡ accepted
    → (gas_price ≡ codes "0x0")
      × (to ≡ entrypoint)
      × ((op : UserOperation) × (decode_gasless_payload env input_data ≡ ok op)
          × GasAddsUp gas_limit op)
unfolding verify_gasless_transaction
gasless_verified env to input_data gas_price gas_limit entrypoint h =
    let (p, h1) = (>>>_iff (demand (text_eq gas_price (codes "0x0"))) _).0 h in
    let h2 = last_of (verify_address (str to)) _ h1 in
    let h3 = last_of (verify_gas_limit (str gas_limit)) _ h2 in
    let h4 = last_of (verify_hex_string (str input_data)) _ h3 in
    let payload = decode_gasless_payload env input_data in
    let (d, e) =
      (>>>_iff (verify_decoded env gas_limit payload) (demand (text_eq to entrypoint))).0 h4 in
    (
      text_eq_sound gas_price (codes "0x0") (demand-true (text_eq gas_price (codes "0x0")) p),
      text_eq_sound to entrypoint (demand-true (text_eq to entrypoint) e),
      decoded_sound env gas_limit payload d,
    )

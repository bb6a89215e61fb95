-- ===== src/Normalizer.antt =====
-- The class `EthNormalizer` of packages/api-server/src/methods/normalizer.ts: the defaults and the bounds of
-- the gas of a call and of an estimation, with `getMaxGasByBalance` and `min`.
pub mod Bounds
use godwoken_web.Common.{
  ℕ, ◌-◌, ◌*◌, ◌/◌, Bool, true, false, not, ◌||◌, Option, none, some, List, [], ◌∷◌, ◌++◌, ltb,
  ◌==◌, if◌then◌else◌, drop, Text, codes, text_eq, Result, ok, err, guard, default_from_missing,
  insufficient_balance, zero_gas_price, ◌>>=◌, ◌>>◌,
}
use godwoken_web.Hex.{x_prefix, big_int, to_hex_number}
use godwoken_web.Json.{str}
use godwoken_web.Gas.{calc_intrinsic_gas}
use godwoken_web.Validator.{verify_gas_limit}
use godwoken_web.Convert.{Env}
use godwoken_web.Convert.Account.{registry_address}
use godwoken_web.Convert.Checks.{check, verify_intrinsic_gas, verify_enough_balance}
use godwoken_web.Convert.Gasless.{is_gasless_transaction, verify_gasless_transaction}

pub record TransactionCallObject : Type 0 where
  pub from : Option Text
  pub to : Option Text
  pub gas : Option Text
  pub gas_price : Option Text
  pub value : Option Text
  pub data_text : Option Text

-- What the methods return: no field is left out.
pub record NormalizedCall : Type 0 where
  pub value : Text
  pub data_text : Text
  pub to : Text
  pub from : Text
  pub gas : Text
  pub gas_price : Text

-- `s || otherwise`
abbrev pub or_text : Option Text → Text → Text
or_text none otherwise = otherwise
or_text (some []) otherwise = otherwise
or_text (some (c ∷ s)) otherwise = c ∷ s

-- `POLY_MAX_BLOCK_GAS_LIMIT` in hexadecimal.
abbrev pub max_block_gas_limit : Text
max_block_gas_limit = to_hex_number 12500000

-- One step of the reduction.
abbrev pub smaller : Text → Result ℕ → Text → Result ℕ → Result Text
smaller previous (ok p) current (ok c) = ok (if ltb c p then current else previous)
smaller previous (ok p) current (err e) = err e
smaller previous (err e) current c = err e

unfoldable pub min : Text → List Text → Result Text
unfolding big_int
min previous [] = ok previous
min previous (current ∷ values) = do
  least ← smaller previous (big_int previous) current (big_int current)
  min least values

-- The gas, raised to the intrinsic gas.
unfoldable pub at_least_intrinsic : Text → ℕ → Result Text
at_least_intrinsic gas intrinsic_gas = do
  given ← big_int gas
  ok (if ltb given intrinsic_gas then to_hex_number intrinsic_gas else gas)

-- The gas, lowered to what the balance pays for, which must pay for the intrinsic gas.
unfoldable pub at_most_cap : Text → ℕ → Text → Result Text
at_most_cap gas intrinsic_gas gas_cap = do
  cap ← big_int gas_cap
  guard (not (ltb cap intrinsic_gas)) insufficient_balance
  given ← big_int gas
  ok (if ltb cap given then gas_cap else gas)

-- The arguments of the script of the account for calls that name no sender, as the node answers it, is an
-- argument.
module _ (env : Env) (default_from_args : Result (Option Text)) where
  abbrev pub address_of_args : Option Text → Result Text
  address_of_args none = err default_from_missing
  address_of_args (some args) = ok (x_prefix ++ drop 64 (drop 2 args))

  unfoldable pub get_default_from_address : Result Text
  get_default_from_address = do args ← default_from_args; address_of_args args

  -- `from || (await getDefaultFromAddress(rpc))`
  unfoldable pub from_address : Option Text → Result Text
  unfolding get_default_from_address
  from_address none = get_default_from_address
  from_address (some []) = get_default_from_address
  from_address (some (c ∷ s)) = ok (c ∷ s)

  -- The balance is of the token with the id 1.
  unfoldable pub get_max_gas_by_balance : Text → Text → Text → Result Text
  unfolding text_eq registry_address
  get_max_gas_by_balance from gas_price tx_value = do
    guard (not (text_eq gas_price x_prefix || text_eq gas_price (codes "0x0"))) zero_gas_price
    address ← registry_address env from
    balance ← env.get_balance address 1
    value ← big_int tx_value
    guard (not (ltb balance value)) insufficient_balance
    price ← big_int gas_price
    guard (not (price == 0)) zero_gas_price
    ok (to_hex_number ((balance - value) / price))

  abbrev pub gasless_by : Text → Text → Text → Option Text → Result Bool
  gasless_by to gas_price data_text none = ok false
  gasless_by to gas_price data_text (some entrypoint) =
      is_gasless_transaction env to gas_price data_text entrypoint

  abbrev pub verify_gasless : Text → Text → Text → Text → Option Text → Result (Unit {0})
  verify_gasless to data_text gas_price gas none = ok tt
  verify_gasless to data_text gas_price gas (some entrypoint) =
      check (verify_gasless_transaction env to data_text gas_price gas entrypoint)

  unfoldable pub check_gasless : Text → Text → Text → Text → Result (Unit {0})
  check_gasless to data_text gas_price gas = do
    gasless ← gasless_by to gas_price data_text env.entrypoint_contract
    if gasless then verify_gasless to data_text gas_price gas env.entrypoint_contract else ok tt

  -- `+gasPrice === 0`
  abbrev pub is_zero_price : Result ℕ → Bool
  is_zero_price (ok n) = n == 0
  is_zero_price (err e) = false

  unfoldable pub default_call_gas : Text → Text → Text → Result Text
  unfolding min get_max_gas_by_balance
  default_call_gas from gas_price value = do
    max_gas ← get_max_gas_by_balance from gas_price value
    min max_block_gas_limit (max_gas ∷ [])

  unfoldable pub call_gas : Option Text → Text → Text → Text → Result Text
  unfolding default_call_gas
  call_gas (some gas) from gas_price value = ok gas
  call_gas none from gas_price value =
      let by_balance = default_call_gas from gas_price value in
      if is_zero_price (big_int gas_price) then ok max_block_gas_limit else by_balance

  unfoldable pub check_call_balance : TransactionCallObject → NormalizedCall → Result (Unit {0})
  unfolding verify_enough_balance
  check_call_balance tx_call_obj call = elim tx_call_obj.gas_price [
    | none ↦ ok tt
    | some p ↦
        verify_enough_balance env call.from (some call.value) (some call.gas) (some call.gas_price)
  ]

  -- The checks of a call whose gas is known.
  unfoldable pub check_call : TransactionCallObject → NormalizedCall → Result NormalizedCall
  unfolding check_gasless check_call_balance
  check_call tx_call_obj call = do
    check (verify_gas_limit (str call.gas))
    check_gasless call.to call.data_text call.gas_price call.gas
    check (verify_intrinsic_gas (some call.to) (some call.data_text) call.gas)
    check_call_balance tx_call_obj call
    ok call

  -- The recipient of a call is required.
  unfoldable pub normalize_call_tx : Text → TransactionCallObject → Result NormalizedCall
  unfolding from_address call_gas check_call
  normalize_call_tx to tx_call_obj = do
    from ← from_address tx_call_obj.from
    let value = or_text tx_call_obj.value (codes "0x0")
    let gas_price = or_text tx_call_obj.gas_price (codes "0x0")
    gas ← call_gas tx_call_obj.gas from gas_price value
    let call : NormalizedCall = record {
      value = value;
      data_text = or_text tx_call_obj.data_text x_prefix;
      to = to;
      from = from;
      gas = gas;
      gas_price = gas_price;
    }
    check_call tx_call_obj call

  unfoldable pub cap_by_balance : Text → Text → Text → Text → ℕ → Result Text
  unfolding get_max_gas_by_balance at_most_cap
  cap_by_balance from gas_price value gas intrinsic_gas = do
    gas_cap ← get_max_gas_by_balance from gas_price value
    at_most_cap gas intrinsic_gas gas_cap

  -- The cap holds for a price above 0.
  unfoldable pub estimate_gas : Text → Text → Text → Text → ℕ → Result Text
  unfolding cap_by_balance
  estimate_gas from gas_price value gas intrinsic_gas = do
    price ← big_int gas_price
    let capped = cap_by_balance from gas_price value gas intrinsic_gas
    if ltb 0 price then capped else ok gas

  unfoldable pub normalize_estimate_gas_tx : TransactionCallObject → Result NormalizedCall
  unfolding from_address at_least_intrinsic check_gasless estimate_gas
  normalize_estimate_gas_tx obj = do
    let data_text = or_text obj.data_text x_prefix
    let to = or_text obj.to x_prefix
    from ← from_address obj.from
    let gas_price = or_text obj.gas_price (codes "0x0")
    let value = or_text obj.value (codes "0x0")
    let intrinsic_gas = calc_intrinsic_gas (some to) (some data_text)
    raised ← at_least_intrinsic (or_text obj.gas max_block_gas_limit) intrinsic_gas
    check_gasless to data_text gas_price raised
    gas ← estimate_gas from gas_price value raised intrinsic_gas
    ok (record {
      value = value;
      data_text = data_text;
      to = to;
      from = from;
      gas = gas;
      gas_price = gas_price;
    })

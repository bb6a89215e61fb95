-- ===== src/Eth/Calls.antt =====
-- The methods of the class `Eth` on accounts, and what eth_estimateGas answers for a run. The node is an
-- argument.
use godwoken_web.Common.{
  ℕ, ◌+◌, Bool, Option, none, some, List, ltb, if◌then◌else◌, Text, codes, text_eq, Result, ok,
  ◌>>=◌,
}
use godwoken_web.Hex.{x_prefix, to_hex_number}
use godwoken_web.Gas.{calc_intrinsic_gas}
use godwoken_web.Api.{hex32, hex256}
use godwoken_web.Convert.{Env}
use godwoken_web.Convert.Account.{registry_address, zero_eth_address, eth_address_to_account_id}
use godwoken_web.Normalizer.{NormalizedCall}
use godwoken_web.Eth.{BlockParameter, Query, parse_block_parameter}
use godwoken_web.Eth.Keys.{build_storage_key, polyjuice_build_contract_code_key}
use godwoken_web.Eth.GwLogs.{
  LogItem, GodwokenLog, sudt_operation, sudt_pay_fee, polyjuice_system, polyjuice_user,
  extract_polyjuice_system_log,
}

-- The calls of the node that take a block; a block of `none` is the pending one.
pub record Node : Type 0 where
  pub get_balance : Text → ℕ → Option ℕ → Result ℕ
  pub get_storage_at : ℕ → Text → Option ℕ → Result Text
  pub get_nonce : ℕ → Option ℕ → Result ℕ
  pub get_data : Text → Option ℕ → Result (Option Text)

-- `data || "0x"`
abbrev pub or_default : Option Text → Text
or_default none = x_prefix
or_default (some List.[]) = x_prefix
or_default (some (List.◌∷◌ c s)) = List.◌∷◌ c s

module _ (env : Env) (node : Node) (query : Query) (instant_finality_hack_mode : Bool) where
  unfoldable pub get_balance : Text → BlockParameter → Result Text
  unfolding parse_block_parameter registry_address
  get_balance address block_parameter = do
    block_number ← parse_block_parameter query instant_finality_hack_mode block_parameter
    serialized ← registry_address env address
    balance ← node.get_balance serialized 1 block_number
    hex256 balance

  abbrev pub storage_of : Text → Option ℕ → Option ℕ → Result Text
  unfolding build_storage_key
  storage_of storage_position block_number none =
      ok (codes "0x0000000000000000000000000000000000000000000000000000000000000000")
  storage_of storage_position block_number (some account_id) =
      node.get_storage_at account_id (build_storage_key storage_position) block_number

  unfoldable pub get_storage_at : Text → Text → BlockParameter → Result Text
  unfolding parse_block_parameter eth_address_to_account_id build_storage_key
  get_storage_at address storage_position block_parameter = do
    block_number ← parse_block_parameter query instant_finality_hack_mode block_parameter
    account_id ← eth_address_to_account_id env address
    storage_of storage_position block_number account_id

  abbrev pub count_of : Option ℕ → Option ℕ → Result Text
  count_of block_number none = ok (codes "0x0")
  count_of block_number (some account_id) = do
    nonce ← node.get_nonce account_id block_number
    hex32 nonce

  unfoldable pub get_transaction_count : Text → BlockParameter → Result Text
  unfolding parse_block_parameter eth_address_to_account_id
  get_transaction_count address block_parameter = do
    block_number ← parse_block_parameter query instant_finality_hack_mode block_parameter
    account_id ← eth_address_to_account_id env address
    count_of block_number account_id

  abbrev pub code_of : Option ℕ → Option ℕ → Result Text
  unfolding polyjuice_build_contract_code_key
  code_of block_number none = ok x_prefix
  code_of block_number (some account_id) = do
    data_hash ←
        node.get_storage_at account_id (polyjuice_build_contract_code_key account_id) block_number
    code ← node.get_data data_hash block_number
    ok (or_default code)

  unfoldable pub code_at : Text → BlockParameter → Result Text
  unfolding parse_block_parameter eth_address_to_account_id
  code_at address block_parameter = do
    block_number ← parse_block_parameter query instant_finality_hack_mode block_parameter
    account_id ← eth_address_to_account_id env address
    code_of block_number account_id

  unfoldable pub get_code : Text → BlockParameter → Result Text
  unfolding text_eq code_at
  get_code address block_parameter =
      let code = code_at address block_parameter in
      if text_eq address zero_eth_address then ok x_prefix else code

-- The gas that the log of a run names; the log has the flag of a system log.
abbrev pub gas_used_of : GodwokenLog → ℕ
gas_used_of (sudt_operation sudt_id from_id to_id amount) = 0
gas_used_of (sudt_pay_fee sudt_id from_id block_producer_id amount) = 0
gas_used_of (polyjuice_system gas_used cumulative created status) = gas_used
gas_used_of (polyjuice_user address log_data topics) = 0

-- The closure `executeCallResult` of `estimateGas` behind the run.
unfoldable pub estimated_gas : ℕ → NormalizedCall → List LogItem → Result Text
unfolding extract_polyjuice_system_log
estimated_gas extra_gas tx_call_obj logs = do
  log ← extract_polyjuice_system_log logs
  let gas_used = gas_used_of log + extra_gas
  let intrinsic_gas = calc_intrinsic_gas (some tx_call_obj.to) (some tx_call_obj.data_text)
  ok (to_hex_number (if ltb gas_used intrinsic_gas then intrinsic_gas else gas_used))

-- ===== src/Eth/Keys.antt =====
-- The keys of storage and of the caches in packages/api-server/src/methods/modules/eth.ts.
use godwoken_web.Common.{
  ℕ, Option, none, some, [], ◌∷◌, ◌++◌, ltb, if◌then◌else◌, length, take, slice, replicate, Text,
}
use godwoken_web.Hex.{x_prefix, to_hex_number, to_string_16, pad_start}
use godwoken_web.Buffer.{Bytes, from_hex, to_hex}
use godwoken_web.Normalizer.{TransactionCallObject, or_text}

abbrev pub polyjuice_system_prefix : ℕ
polyjuice_system_prefix = 255

abbrev pub polyjuice_contract_code : ℕ
polyjuice_contract_code = 1

-- `array.reverse()`
abbrev pub reverse_onto : Bytes → Bytes → Bytes
reverse_onto [] out = out
reverse_onto (b ∷ bs) out = reverse_onto bs (b ∷ out)

-- The pairs of digits of an even text, the last first.
unfoldable pub account_id_bytes : ℕ → Bytes
unfolding from_hex to_string_16 pad_start
account_id_bytes id = reverse_onto (from_hex (pad_start 8 (to_string_16 id))) []

-- The first four bytes are those of the id; 26 zeros follow the two others.
unfoldable pub polyjuice_build_system_key : ℕ → ℕ → Text
unfolding account_id_bytes
polyjuice_build_system_key account_id field_type =
    x_prefix
    ++ to_hex (
        take 4 (account_id_bytes account_id)
        ++ (polyjuice_system_prefix ∷ field_type ∷ replicate 26 0))

unfoldable pub polyjuice_build_contract_code_key : ℕ → Text
unfolding polyjuice_build_system_key
polyjuice_build_contract_code_key account_id =
    polyjuice_build_system_key account_id polyjuice_contract_code

-- A key of more than 64 digits is cut to its first 64.
unfoldable pub build_storage_key : Text → Text
unfolding pad_start
build_storage_key storage_position =
    let key = slice 2 (length storage_position) storage_position in
    x_prefix ++ pad_start 64 (if ltb 64 (length key) then take 64 key else key)

-- The number of the pending block, and that of block 0, leave the text 0x.
abbrev pub block_number_text : Option ℕ → Text
block_number_text none = x_prefix
block_number_text (some n) = if ltb 0 n then to_hex_number n else x_prefix

-- What is handed to `JSON.stringify`, a field after the other.
pub record CallParameters : Type 0 where
  pub from : Text
  pub to : Option Text
  pub gas : Text
  pub gas_price : Text
  pub data_text : Text
  pub value : Text
  pub block_number : Text

abbrev pub call_parameters : Option Text → TransactionCallObject → Option ℕ → CallParameters
call_parameters to obj block_number = record {
  from = or_text obj.from x_prefix;
  to = to;
  gas = or_text obj.gas x_prefix;
  gas_price = or_text obj.gas_price x_prefix;
  data_text = or_text obj.data_text x_prefix;
  value = or_text obj.value x_prefix;
  block_number = block_number_text block_number;
}

module _ (stringify : CallParameters → Text) (keccak256 : Text → Bytes) where
  unfoldable pub serialize_eth_call_parameters : TransactionCallObject → Option ℕ → Text
  serialize_eth_call_parameters eth_call_obj block_number =
      stringify (call_parameters eth_call_obj.to eth_call_obj block_number)

  unfoldable pub serialize_estimate_gas_parameters : TransactionCallObject → Option ℕ → Text
  serialize_estimate_gas_parameters estimate_gas_obj block_number =
      stringify (
        call_parameters (some (or_text estimate_gas_obj.to x_prefix)) estimate_gas_obj block_number)

  unfoldable pub get_eth_call_cache_key : Text → Text → Text → Text
  get_eth_call_cache_key serialize_eth_call_params tip_block_hash mem_pool_state_root =
      let hash = x_prefix ++ to_hex (keccak256 serialize_eth_call_params) in
      x_prefix ++ (slice 2 18 tip_block_hash ++ (slice 2 18 mem_pool_state_root ++ slice 2 18 hash))

  unfoldable pub get_estimate_gas_cache_key : Text → Text → Text → Text
  get_estimate_gas_cache_key serialize_estimate_gas_params tip_block_hash mem_pool_state_root =
      let hash = x_prefix ++ to_hex (keccak256 serialize_estimate_gas_params) in
      x_prefix ++ (slice 2 18 tip_block_hash ++ (slice 2 18 mem_pool_state_root ++ slice 2 18 hash))

-- ===== src/Convert/Account.antt =====
-- Accounts by address: the lookups of packages/api-server/src/base/address.ts and convert-tx.ts. The
-- insertion into the cache of script hashes is not modelled, its answers are a parameter.
use godwoken_web.Common.{
  ℕ, ◌==◌, Bool, true, false, Option, none, some, ◌++◌, drop, if◌then◌else◌, length, replicate,
  Text, text_eq, Result, ok, err, zero_address, ◌>>=◌,
}
use godwoken_web.Hex.{x_prefix, to_hex_number}
use godwoken_web.Address
use godwoken_web.Convert.{Env}

abbrev pub zero_eth_address : Text
zero_eth_address = x_prefix ++ replicate 40 b'0'

module _ (env : Env) where
  -- `new EthRegistryAddress(address).serialize()`
  unfoldable pub registry_address : Text → Result Text
  registry_address address = do a ← Address.make env.eth_addr_reg_id address; Address.serialize a

  unfoldable pub eth_address_to_script_hash : Text → Result (Option Text)
  unfolding registry_address
  eth_address_to_script_hash eth_address =
      let queried = registry_address eth_address >>= env.get_script_hash_by_registry_address in
      elim (env.cached_script_hash eth_address) [ some hash ↦ ok (some hash) | none ↦ queried ]

  abbrev pub account_of : Option Text → Result (Option ℕ)
  account_of none = ok none
  account_of (some script_hash) = env.get_account_id_by_script_hash script_hash

  unfoldable pub eth_address_to_account_id : Text → Result (Option ℕ)
  unfolding text_eq eth_address_to_script_hash
  eth_address_to_account_id eth_address =
      if text_eq eth_address x_prefix
      then ok (some env.polyjuice_creator_id)
      else if text_eq eth_address zero_eth_address
      then err zero_address
      else (eth_address_to_script_hash eth_address >>= account_of)

  abbrev pub hex_id : Option ℕ → Option Text
  hex_id none = none
  hex_id (some id) = some (to_hex_number id)

  unfoldable pub get_account_id_by_eth_address : Text → Result (Option Text)
  unfolding eth_address_to_account_id
  get_account_id_by_eth_address to = do id ← eth_address_to_account_id to; ok (hex_id id)

  -- `computeScriptHash` of the script of an externally owned account; the address stands for it.
  unfoldable pub is_eth_eoa : Text → ℕ → Result Bool
  unfolding text_eq
  is_eth_eoa eth_address account_id = do
    script_hash ← env.get_script_hash account_id
    ok (text_eq (env.compute_script_hash (drop 2 eth_address)) script_hash)

  abbrev pub absent_or_eoa : Text → Option ℕ → Result Bool
  absent_or_eoa to none = ok true
  absent_or_eoa to (some id) = is_eth_eoa to id

  unfoldable pub is_eth_native_transfer : Text → Result Bool
  unfolding is_eth_eoa eth_address_to_account_id
  is_eth_native_transfer to =
      if length to == 42 then (eth_address_to_account_id to >>= absent_or_eoa to) else ok false

-- ===== src/Convert/Pipeline.antt =====
-- `polyTxToGwTx` and its caller `ethRawTxToGwTx` behind the RLP decoder, with
-- `ethCallTxToGodwokenRawTx`, of packages/api-server/src/convert-tx.ts.
use godwoken_web.Common.{
  ℕ, Bool, false, not, ◌||◌, ◌&&◌, account_missing, Option, none, some, List, [], ◌∷◌, ◌++◌, ltb,
  leb, if◌then◌else◌, ◌==◌, length, drop, Text, codes, text_eq, Result, ok, err, guard,
  oversized_data, insufficient_balance, to_id_not_found, raw_transaction_format, ◌>>=◌, ◌>>◌,
}
use godwoken_web.Hex.{x_prefix, big_int, to_hex_number, pad_start}
use godwoken_web.Buffer.{Bytes, from_hex, to_hex}
use godwoken_web.Json.{str}
use godwoken_web.Validator.{verify_gas_limit, verify_gas_price}
use godwoken_web.Polyjuice.{assemble_args, build_polyjuice_args}
use godwoken_web.Convert.{
  Env, PolyjuiceTransaction, or_zero_hex, to_rlp_number, get_signature, calc_message,
  encode_polyjuice_transaction, recover_public_key, public_key_to_eth_address, calc_eth_tx_hash,
}
use godwoken_web.Convert.Account.{
  registry_address, eth_address_to_account_id, get_account_id_by_eth_address,
  is_eth_native_transfer,
}
use godwoken_web.Convert.Gasless.{is_gasless_transaction, verify_gasless_transaction}
use godwoken_web.Convert.Checks.{check, check_balance, verify_enough_balance, verify_intrinsic_gas}

pub record RawL2Transaction : Type 0 where
  pub chain_id : Text
  pub from_id : Text
  pub to_id : Text
  pub nonce : Text
  pub args : Text

pub record L2Transaction : Type 0 where
  pub raw : RawL2Transaction
  pub signature : Text

-- The entry of the cache for a sender without an account: the key, and the two fields of the value.
pub record AutoCreateAccount : Type 0 where
  pub key : Text
  pub tx : Text
  pub from_address : Text

abbrev pub max_transaction_size : ℕ
max_transaction_size = 131072

abbrev pub deploy_to_address : Text
deploy_to_address = x_prefix

-- The nine fields of a decoded transaction; `r` and `s` are padded to 32 bytes.
unfoldable pub eth_raw_tx_to_poly_tx : List Bytes → Result PolyjuiceTransaction
eth_raw_tx_to_poly_tx (nonce ∷ gas_price ∷ gas_limit ∷ to ∷ value ∷ data_buf ∷ v ∷ r ∷ s ∷ []) =
    ok (record {
      nonce = x_prefix ++ to_hex nonce;
      gas_price = x_prefix ++ to_hex gas_price;
      gas_limit = x_prefix ++ to_hex gas_limit;
      to = x_prefix ++ to_hex to;
      value = x_prefix ++ to_hex value;
      data_text = x_prefix ++ to_hex data_buf;
      v = x_prefix ++ to_hex v;
      r = x_prefix ++ pad_start 64 (to_hex r);
      s = x_prefix ++ pad_start 64 (to_hex s);
    })
eth_raw_tx_to_poly_tx result = err raw_transaction_format

-- The chain id 0 marks a transaction that is signed without one.
unfoldable pub chain_id_of : Env → Text → Text
unfolding text_eq
chain_id_of env v =
    if text_eq v (codes "0x1b") || text_eq v (codes "0x1c") then codes "0x0" else env.web3_chain_id

module _ (env : Env) (tx : PolyjuiceTransaction) where
  unfoldable pub check_price : Result (Unit {0})
  check_price = do
    min_gas_price ← env.min_gas_price
    check (verify_gas_price (str (or_zero_hex tx.gas_price)) min_gas_price)

  -- `isGaslessTransaction` is asked where an entrypoint is configured.
  abbrev pub gasless_by : Option Text → Result Bool
  gasless_by none = ok false
  gasless_by (some entrypoint) =
      is_gasless_transaction env tx.to (or_zero_hex tx.gas_price) tx.data_text entrypoint

  abbrev pub check_gasless : Option Text → Result (Unit {0})
  check_gasless none = ok tt
  check_gasless (some entrypoint) = check (
      verify_gasless_transaction env tx.to tx.data_text (or_zero_hex tx.gas_price)
        (or_zero_hex tx.gas_limit) entrypoint)

  unfoldable pub check_gasless_or_price : Result (Unit {0})
  unfolding check_price
  check_gasless_or_price = do
    gasless ← gasless_by env.entrypoint_contract
    if gasless then check_gasless env.entrypoint_contract else check_price

  unfoldable pub sender_address : Result Text
  sender_address = do
    message ← calc_message env tx
    public_key ← recover_public_key env (get_signature tx) message
    ok (public_key_to_eth_address env public_key)

  -- The id of the sender, or of the account that creates accounts with what is cached for it.
  abbrev pub sender_id : Text → Text → Text → Option Text → Result (Text × Option AutoCreateAccount)
  sender_id rlp_encoded eth_raw_tx from (some id) = ok (id, none)
  sender_id rlp_encoded eth_raw_tx from none = do
    funds ← check_balance env from (some tx.value) (some tx.gas_limit) (some tx.gas_price)
    guard (not (ltb funds.balance funds.required_balance)) insufficient_balance
    let account : AutoCreateAccount = record {
      key = codes "AutoCreateAccount:" ++ calc_eth_tx_hash env rlp_encoded;
      tx = eth_raw_tx;
      from_address = from;
    }
    ok (codes "0x0", some account)

  abbrev pub present : Option Text → Result Text
  present none = err to_id_not_found
  present (some id) = ok id

  unfoldable pub recipient_id : Bool → Result Text
  unfolding text_eq
  recipient_id native =
      if text_eq tx.to deploy_to_address || native
      then ok (to_hex_number env.polyjuice_creator_id)
      else (get_account_id_by_eth_address env tx.to >>= present)

  unfoldable pub base_args : Result Text
  unfolding text_eq
  base_args = do
    gas_limit ← big_int tx.gas_limit
    gas_price ← to_rlp_number tx.gas_price
    value ← to_rlp_number tx.value
    assemble_args (text_eq tx.to deploy_to_address) gas_limit gas_price value tx.data_text none

  abbrev pub l2_transaction : Text → Text → Text → Bool → L2Transaction
  l2_transaction from_id to_id base native =
      let raw : RawL2Transaction = record {
        chain_id = chain_id_of env tx.v;
        from_id = from_id;
        to_id = to_id;
        nonce = or_zero_hex tx.nonce;
        args = if native then base ++ drop 2 tx.to else base;
      } in
      record { raw = raw; signature = get_signature tx }

  -- The part behind the checks.
  unfoldable pub assemble_l2_transaction :
      Text × Option AutoCreateAccount → Result (L2Transaction × Option AutoCreateAccount)
  unfolding recipient_id base_args chain_id_of
  assemble_l2_transaction sender = do
    base ← base_args
    native ← is_eth_native_transfer env tx.to
    to_id ← recipient_id native
    ok (l2_transaction sender.0 to_id base native, sender.1)

  unfoldable pub poly_tx_to_gw_tx : Text → Result (L2Transaction × Option AutoCreateAccount)
  unfolding check_gasless_or_price sender_address assemble_l2_transaction
  poly_tx_to_gw_tx eth_raw_tx = do
    rlp_encoded ← encode_polyjuice_transaction env tx
    guard (leb (length (from_hex (drop 2 rlp_encoded))) max_transaction_size) oversized_data
    check (verify_gas_limit (str (or_zero_hex tx.gas_limit)))
    check_gasless_or_price
    from ← sender_address
    id ← get_account_id_by_eth_address env from
    sender ← sender_id rlp_encoded eth_raw_tx from id
    check (verify_intrinsic_gas (some tx.to) (some tx.data_text) (or_zero_hex tx.gas_limit))
    verify_enough_balance env from (some (or_zero_hex tx.value)) (some (or_zero_hex tx.gas_limit))
        (some (or_zero_hex tx.gas_price))
    assemble_l2_transaction sender

-- `isCreate` of a call to `to_id`, and the recipient handed to `buildPolyjuiceArgs`.
module _ (env : Env) where
  abbrev pub is_creator : Option ℕ → Bool
  is_creator none = false
  is_creator (some id) = id == env.polyjuice_creator_id

  abbrev pub account_or_missing : Option ℕ → Result ℕ
  account_or_missing none = err account_missing
  account_or_missing (some id) = ok id

  -- The sender of a call that is not signed, or the account 0 and the serialized address.
  abbrev pub caller_id : Text → Option ℕ → Result (ℕ × Option Text)
  caller_id from (some id) = ok (id, none)
  caller_id from none = do address ← registry_address env from; ok (0, some address)

  unfoldable pub eth_call_tx_to_godwoken_raw_tx :
      Text → Text → Text → Text → Text → Text → Result (RawL2Transaction × Option Text)
  eth_call_tx_to_godwoken_raw_tx from to gas gas_price value data_text = do
    found ← eth_address_to_account_id env from
    caller ← caller_id from found
    native ← is_eth_native_transfer env to
    to_id ←
        (if native then ok (some env.polyjuice_creator_id) else eth_address_to_account_id env to)
    gas_limit ← big_int gas
    price ← big_int gas_price
    amount ← big_int value
    args ←
        build_polyjuice_args (not native && is_creator to_id) gas_limit price amount data_text
          (if native then some to else none)
    id ← account_or_missing to_id
    let raw : RawL2Transaction = record {
      chain_id = env.web3_chain_id;
      from_id = to_hex_number caller.0;
      to_id = to_hex_number id;
      nonce = codes "0x0";
      args = args;
    }
    ok (raw, caller.1)

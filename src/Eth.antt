-- ===== src/Eth.antt =====
-- The class `Eth` of packages/api-server/src/methods/modules/eth.ts: block parameters, which become
-- numbers of blocks, and the requests of logs. The children have the other methods. A catch clause that
-- throws the message again under another class is left out, since the errors have no class here.
pub mod Requests
pub mod Bounds
pub mod Filters
pub mod Polling
pub mod Manager
pub mod Blocks
pub mod Keys
pub mod GwLogs
pub mod Calls
pub mod Estimate
use godwoken_web.Common.{
  ℕ, Bool, true, false, Option, none, some, List, [], ◌∷◌, ltb, if◌then◌else◌, Text, codes, text_eq,
  Result, ok, err, tip_missing, header_not_found, not_hex_number, block_hash_exclusive,
  block_hash_missing, ◌>>=◌, ◌>>◌, guard, not, map,
}
use godwoken_web.Hex.{big_int, to_hex_number}
use godwoken_web.Json.{str, bool}
use godwoken_web.Validator.{verify_block_hash, verify_boolean}
use godwoken_web.Validator.Middleware.{middleware}
use godwoken_web.LogFilter.{Log, FilterTopic, QueryAddress, universalize_address}
use godwoken_web.Uint.Uint64
use godwoken_web.Api.{
  Block, Transaction, EthTransaction, EthBlock, to_api_transaction, to_api_block,
}

-- A tag or a number, or an object with a hash or a number of a block; none is a field that is missing or null.
pub data BlockParameter : Type 0 where
  text : Text → BlockParameter
  specifier : (block_hash block_number : Option Text) → BlockParameter

pub record FilterParams : Type 0 where
  pub from_block : ℕ
  pub to_block : ℕ
  pub addresses : List Text
  pub topics : List FilterTopic
  pub block_hash : Option Text

-- What the methods of the class `Query` answer at one time.
pub record Query : Type 0 where
  pub get_tip_block_number : Result (Option ℕ)
  pub get_block_by_hash : Text → Result (Option Block)
  pub get_block_by_number : ℕ → Result (Option Block)
  pub get_transactions_by_block_hash : Text → Result (List Transaction)
  pub get_transactions_by_block_number : ℕ → Result (List Transaction)
  pub get_transaction_eth_hashes_by_block_hash : Text → Result (List Text)
  pub get_transaction_eth_hashes_by_block_number : ℕ → Result (List Text)
  pub get_block_transaction_count_by_hash : Text → Result ℕ
  pub get_block_transaction_count_by_number : ℕ → Result ℕ
  pub get_transaction_by_block_hash_and_index : Text → ℕ → Result (Option Transaction)
  pub get_transaction_by_block_number_and_index : ℕ → ℕ → Result (Option Transaction)
  pub get_tip_log : Result (Option Log)
  pub get_block_hashes_and_numbers_after_block_number : ℕ → Result (List (Text × ℕ))
  pub get_logs_by_filter : FilterParams → Option ℕ → Result (List Log)

unfoldable pub get_tip_number : Query → Result ℕ
get_tip_number query = do
  num ← query.get_tip_block_number
  elim num [ none ↦ err tip_missing | some n ↦ ok n ]

-- `txs.map((tx) => toApiTransaction(tx))`
unfoldable pub to_api_transactions : List Transaction → Result (List EthTransaction)
unfolding to_api_transaction
to_api_transactions [] = ok []
to_api_transactions (tx ∷ txs) = do
  api_tx ← to_api_transaction tx
  api_txs ← to_api_transactions txs
  ok (api_tx ∷ api_txs)

-- An entry of the transactions of a block: a transaction or its hash.
pub data Entry : Type 0 where
  whole : EthTransaction → Entry
  hash : Text → Entry

module _ (query : Query) where
  unfoldable pub entries_of_hash : Text → Bool → Result (List Entry)
  unfolding to_api_transactions
  entries_of_hash block_hash true = do
    txs ← query.get_transactions_by_block_hash block_hash
    api_txs ← to_api_transactions txs
    ok (map whole api_txs)
  entries_of_hash block_hash false = do
    hashes ← query.get_transaction_eth_hashes_by_block_hash block_hash
    ok (map hash hashes)

  unfoldable pub block_of_hash : Text → Bool → Option Block → Result (Option (EthBlock Entry))
  unfolding to_api_block entries_of_hash
  block_of_hash block_hash is_full_transaction none = ok none
  block_of_hash block_hash is_full_transaction (some block) = do
    entries ← entries_of_hash block_hash is_full_transaction
    api_block ← to_api_block block entries
    ok (some api_block)

  unfoldable pub get_block_by_hash : Text → Bool → Result (Option (EthBlock Entry))
  unfolding block_of_hash
  get_block_by_hash block_hash is_full_transaction = do
    block ← query.get_block_by_hash block_hash
    block_of_hash block_hash is_full_transaction block

  -- The method behind its validators, as the class calls it.
  unfoldable pub checked_block_by_hash : Text → Result (Option (EthBlock Entry))
  unfolding get_block_by_hash middleware
  checked_block_by_hash block_hash =
      middleware (λ params. get_block_by_hash block_hash false) 2
        (verify_block_hash ∷ verify_boolean ∷ []) (str block_hash ∷ bool false ∷ [])

  -- A number that is not above the tip.
  unfoldable pub parse_block_number : Text → Result (Option ℕ)
  unfolding get_tip_number
  parse_block_number block_hex_num = do
    tip_number ← get_tip_number query
    block_number ← Uint64.from_hex block_hex_num
    guard (not (ltb tip_number block_number.value)) header_not_found
    ok (some block_number.value)

  unfoldable pub number_of : Option (EthBlock Entry) → Result (Option ℕ)
  number_of none = err header_not_found
  number_of (some block) = do n ← big_int block.head.number; ok (some n)

  unfoldable pub latest_number : Result (Option ℕ)
  unfolding get_tip_number
  latest_number = do tip ← get_tip_number query; ok (some tip)

  unfoldable pub or_tip_number : Option ℕ → Result ℕ
  unfolding get_tip_number
  or_tip_number none = get_tip_number query
  or_tip_number (some n) = ok n

  module _ (instant_finality_hack_mode : Bool) where
    -- The number of `none` is that of the pending block. An object without hash and number is no text.
    unfoldable pub parse_block_parameter : BlockParameter → Result (Option ℕ)
    unfolding text_eq latest_number checked_block_by_hash parse_block_number number_of
    parse_block_parameter (text s) =
        if text_eq s (codes "latest")
        then if instant_finality_hack_mode then ok none else latest_number
        else if text_eq s (codes "earliest")
        then ok (some 0)
        else if text_eq s (codes "pending")
        then ok none
        else parse_block_number s
    parse_block_parameter (specifier (some block_hash) block_number) = do
      block ← checked_block_by_hash block_hash
      number_of block
    parse_block_parameter (specifier none (some block_number)) = parse_block_number block_number
    parse_block_parameter (specifier none none) = do
      tip_number ← get_tip_number query
      err not_hex_number

    unfoldable pub block_parameter_to_block_number : BlockParameter → Result ℕ
    unfolding parse_block_parameter or_tip_number
    block_parameter_to_block_number block_parameter = do
      block_number ← parse_block_parameter block_parameter
      or_tip_number block_number

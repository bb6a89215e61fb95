-- ===== src/Eth/Blocks.antt =====
-- The methods of the class `Eth` on blocks and their transactions.
use godwoken_web.Common.{
  ℕ, Bool, true, false, Option, none, some, List, [], Text, map, Result, ok, err, ◌>>=◌,
}
use godwoken_web.Hex.{big_int}
use godwoken_web.Api.{
  Block, Transaction, EthTransaction, EthBlock, to_api_transaction, to_api_block, hex32, hex64,
}
use godwoken_web.Eth.{
  BlockParameter, Query, Entry, whole, hash, to_api_transactions, block_parameter_to_block_number,
}

-- Not syncing, or three times the height of the tip.
pub data Syncing : Type 0 where
  not_syncing : Syncing
  heights : (starting_block current_block highest_block : Text) → Syncing

abbrev pub sync_status : Option ℕ → Result Syncing
sync_status none = ok not_syncing
sync_status (some tip) = do height ← hex64 tip; ok (heights height height height)

abbrev pub height_of : Option ℕ → Result (Option Text)
height_of none = ok none
height_of (some tip) = do height ← hex64 tip; ok (some height)

abbrev pub api_or_null : Option Transaction → Result (Option EthTransaction)
unfolding to_api_transaction
api_or_null none = ok none
api_or_null (some tx) = do api ← to_api_transaction tx; ok (some api)

module _ (query : Query) where
  unfoldable pub syncing : Result Syncing
  syncing = do tip ← query.get_tip_block_number; sync_status tip

  unfoldable pub block_number : Result (Option Text)
  block_number = do tip ← query.get_tip_block_number; height_of tip

  unfoldable pub get_block_transaction_count_by_hash : Text → Result Text
  get_block_transaction_count_by_hash block_hash = do
    tx_count ← query.get_block_transaction_count_by_hash block_hash
    hex32 tx_count

  unfoldable pub get_transaction_by_block_hash_and_index :
      Text → Text → Result (Option EthTransaction)
  unfolding to_api_transaction
  get_transaction_by_block_hash_and_index block_hash index = do
    i ← big_int index
    tx ← query.get_transaction_by_block_hash_and_index block_hash i
    api_or_null tx

  unfoldable pub entries_of_number : ℕ → Bool → Result (List Entry)
  unfolding to_api_transactions
  entries_of_number number true = do
    txs ← query.get_transactions_by_block_number number
    api_txs ← to_api_transactions txs
    ok (map whole api_txs)
  entries_of_number number false = do
    hashes ← query.get_transaction_eth_hashes_by_block_number number
    ok (map hash hashes)

  -- The block is turned into that of the API before its transactions are asked for.
  unfoldable pub block_of_number : ℕ → Bool → Option Block → Result (Option (EthBlock Entry))
  unfolding to_api_block entries_of_number
  block_of_number number is_full_transaction none = ok none
  block_of_number number is_full_transaction (some block) = do
    head ← to_api_block {A = Entry} block []
    entries ← entries_of_number number is_full_transaction
    ok (some (record { head = head.head; size = head.size; transactions = entries }))

  module _ (instant_finality_hack_mode : Bool) where
    -- A block parameter that is refused gives null.
    unfoldable pub block_of_parameter : Bool → Result ℕ → Result (Option (EthBlock Entry))
    unfolding block_of_number
    block_of_parameter is_full_transaction (err thrown) = ok none
    block_of_parameter is_full_transaction (ok number) = do
      block ← query.get_block_by_number number
      block_of_number number is_full_transaction block

    unfoldable pub get_block_by_number : BlockParameter → Bool → Result (Option (EthBlock Entry))
    unfolding block_of_parameter block_parameter_to_block_number
    get_block_by_number block_parameter is_full_transaction =
        block_of_parameter is_full_transaction
          (block_parameter_to_block_number query instant_finality_hack_mode block_parameter)

    unfoldable pub get_block_transaction_count_by_number : BlockParameter → Result Text
    unfolding block_parameter_to_block_number
    get_block_transaction_count_by_number block_parameter = do
      number ← block_parameter_to_block_number query instant_finality_hack_mode block_parameter
      tx_count ← query.get_block_transaction_count_by_number number
      hex32 tx_count

    unfoldable pub get_transaction_by_block_number_and_index :
        BlockParameter → Text → Result (Option EthTransaction)
    unfolding block_parameter_to_block_number to_api_transaction
    get_transaction_by_block_number_and_index block_parameter index = do
      i ← big_int index
      number ← block_parameter_to_block_number query instant_finality_hack_mode block_parameter
      tx ← query.get_transaction_by_block_number_and_index number i
      api_or_null tx

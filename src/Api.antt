-- ===== src/Api.antt =====
-- The records that the API answers with, made from the rows of the database: the functions `toApi…` of
-- packages/api-server/src/db/types.ts, with `getRealV` of db/helpers.ts and the types of
-- base/types/api.ts there. A time is in milliseconds.
use godwoken_web.Common.{
  ℕ, ◌+◌, ◌*◌, ◌/◌, ◌%◌, Bool, false, ◌||◌, Option, none, some, List, [], ◌∷◌, ◌++◌, ◌==◌,
  if◌then◌else◌, replicate, Text, codes, text_eq, Result, ok, err, guard, range_error, v_not_bit,
  ◌>>=◌, ◌>>◌,
}
use godwoken_web.Hex.{x_prefix, to_hex_number, big_int}
use godwoken_web.LogFilter.{Log}
use godwoken_web.Uint.Uint32
use godwoken_web.Uint.Uint64
use godwoken_web.Uint.Uint128
use godwoken_web.Uint.Uint256

pub record Block : Type 0 where
  pub number : ℕ
  pub hash : Text
  pub parent_hash : Text
  pub logs_bloom : Text
  pub gas_limit : ℕ
  pub gas_used : ℕ
  pub timestamp : ℕ
  pub miner : Text
  pub size : ℕ

pub record Transaction : Type 0 where
  pub hash : Text
  pub eth_tx_hash : Text
  pub block_number : ℕ
  pub block_hash : Text
  pub transaction_index : ℕ
  pub from_address : Text
  pub to_address : Option Text
  pub value : ℕ
  pub nonce : Option ℕ
  pub gas_limit : Option ℕ
  pub gas_price : Option ℕ
  pub input : Option Text
  pub v : ℕ
  pub r : Text
  pub s : Text
  pub cumulative_gas_used : Option ℕ
  pub gas_used : Option ℕ
  pub logs_bloom : Text
  pub contract_address : Option Text
  pub exit_code : ℕ
  pub chain_id : Option ℕ

pub record EthTransaction : Type 0 where
  pub hash : Text
  pub block_hash : Option Text
  pub block_number : Option Text
  pub transaction_index : Option Text
  pub from : Text
  pub to : Option Text
  pub gas : Text
  pub gas_price : Text
  pub input : Text
  pub nonce : Text
  pub value : Text
  pub v : Text
  pub r : Text
  pub s : Text

pub record EthLog : Type 0 where
  pub address : Text
  pub block_hash : Text
  pub block_number : Text
  pub transaction_index : Text
  pub transaction_hash : Text
  pub log_data : Text
  pub log_index : Text
  pub topics : List Text
  pub removed : Bool

pub record EthTransactionReceipt : Type 0 where
  pub transaction_hash : Text
  pub transaction_index : Text
  pub block_hash : Text
  pub block_number : Text
  pub from : Text
  pub to : Option Text
  pub gas_used : Text
  pub cumulative_gas_used : Text
  pub logs_bloom : Text
  pub logs : List EthLog
  pub contract_address : Option Text
  pub status : Text

-- The fields that do not depend on the block (`mixHash` and the like) are left out.
pub record EthNewHead : Type 0 where
  pub number : Text
  pub hash : Text
  pub parent_hash : Text
  pub gas_limit : Text
  pub gas_used : Text
  pub miner : Text
  pub logs_bloom : Text
  pub timestamp : Text

-- The entries of `transactions` are whole transactions or hashes.
pub record EthBlock (A : Type 0) : Type 0 where
  pub head : EthNewHead
  pub size : Text
  pub transactions : List A

-- `"00".repeat(n)`
abbrev pub zero_bytes : ℕ → Text
zero_bytes n = replicate (2 * n) b'0'

abbrev pub default_logs_bloom : Text
default_logs_bloom = x_prefix ++ zero_bytes 256

unfoldable pub transform_logs_bloom : Text → Text
unfolding text_eq
transform_logs_bloom [] = default_logs_bloom
transform_logs_bloom (c ∷ s) = if text_eq (c ∷ s) x_prefix then default_logs_bloom else c ∷ s

-- `new Uint64(n).toHex()` and its siblings.
abbrev pub hex32 : ℕ → Result Text
hex32 n = do u ← Uint32.make n; ok (Uint32.to_hex u)

abbrev pub hex64 : ℕ → Result Text
hex64 n = do u ← Uint64.make n; ok (Uint64.to_hex u)

abbrev pub hex128 : ℕ → Result Text
hex128 n = do u ← Uint128.make n; ok (Uint128.to_hex u)

abbrev pub hex256 : ℕ → Result Text
hex256 n = do u ← Uint256.make n; ok (Uint256.to_hex u)

abbrev pub poly_max_block_gas_limit : ℕ
poly_max_block_gas_limit = 12500000

-- `BigInt(ms / 1000)`, which throws where the quotient is no integer.
unfoldable pub seconds_of : ℕ → Result ℕ
seconds_of ms = if ms % 1000 == 0 then ok (ms / 1000) else err range_error

unfoldable pub to_api_new_head : Block → Result EthNewHead
unfolding transform_logs_bloom seconds_of
to_api_new_head b = do
  gas_limit ← hex64 (if b.gas_limit == 0 then poly_max_block_gas_limit else b.gas_limit)
  number ← hex64 b.number
  gas_used ← hex128 b.gas_used
  seconds ← seconds_of b.timestamp
  timestamp ← hex64 seconds
  ok (record {
    number = number;
    hash = b.hash;
    parent_hash = b.parent_hash;
    gas_limit = gas_limit;
    gas_used = gas_used;
    miner = b.miner;
    logs_bloom = transform_logs_bloom b.logs_bloom;
    timestamp = timestamp;
  })

unfoldable pub to_api_block : {A : Type 0} → Block → List A → Result (EthBlock A)
unfolding to_api_new_head
to_api_block b transactions = do
  head ← to_api_new_head b
  size ← hex64 b.size
  ok (record { head = head; size = size; transactions = transactions })

-- `n || 0n` and `s || "0x"`.
abbrev pub or_zero : Option ℕ → ℕ
or_zero none = 0
or_zero (some n) = n

abbrev pub or_empty : Option Text → Text
or_empty none = x_prefix
or_empty (some []) = x_prefix
or_empty (some (c ∷ s)) = c ∷ s

-- `s || null`
abbrev pub or_null : Option Text → Option Text
or_null none = none
or_null (some []) = none
or_null (some (c ∷ s)) = some (c ∷ s)

-- A chain id of 0 or none at all marks a transaction that is signed without one.
abbrev pub v_base : Option ℕ → ℕ
v_base none = 27
v_base (some chain_id) = if chain_id == 0 then 27 else chain_id * 2 + 35

unfoldable pub get_real_v : ℕ → Option ℕ → Result ℕ
get_real_v v chain_id = do guard (v == 0 || v == 1) v_not_bit; ok (v + v_base chain_id)

-- `"0x" + BigInt(s).toString(16)`
abbrev pub canonical : Text → Result Text
canonical s = do n ← big_int s; ok (to_hex_number n)

unfoldable pub to_api_transaction : Transaction → Result EthTransaction
unfolding get_real_v
to_api_transaction t = do
  block_number ← hex64 t.block_number
  transaction_index ← hex32 t.transaction_index
  gas ← hex64 (or_zero t.gas_limit)
  gas_price ← hex128 (or_zero t.gas_price)
  nonce ← hex64 (or_zero t.nonce)
  value ← hex256 t.value
  real_v ← get_real_v t.v t.chain_id
  v ← hex128 real_v
  r ← canonical t.r
  s ← canonical t.s
  ok (record {
    hash = t.eth_tx_hash;
    block_hash = some t.block_hash;
    block_number = some block_number;
    transaction_index = some transaction_index;
    from = t.from_address;
    to = or_null t.to_address;
    gas = gas;
    gas_price = gas_price;
    input = or_empty t.input;
    nonce = nonce;
    value = value;
    v = v;
    r = r;
    s = s;
  })

unfoldable pub to_api_log : Log → Text → Result EthLog
unfolding text_eq
to_api_log l eth_tx_hash = do
  block_number ← hex64 l.block_number
  transaction_index ← hex32 l.transaction_index
  log_index ← hex32 l.log_index
  ok (record {
    address = l.address;
    block_hash = l.block_hash;
    block_number = block_number;
    transaction_index = transaction_index;
    transaction_hash = eth_tx_hash;
    log_data = if text_eq l.log_data x_prefix then x_prefix ++ zero_bytes 32 else l.log_data;
    log_index = log_index;
    topics = l.topics;
    removed = false;
  })

unfoldable pub to_api_transaction_receipt : Transaction → List EthLog → Result EthTransactionReceipt
unfolding transform_logs_bloom
to_api_transaction_receipt t logs = do
  block_number ← hex64 t.block_number
  transaction_index ← hex32 t.transaction_index
  gas_used ← hex128 (or_zero t.gas_used)
  cumulative_gas_used ← hex128 (or_zero t.cumulative_gas_used)
  ok (record {
    transaction_hash = t.eth_tx_hash;
    transaction_index = transaction_index;
    block_hash = t.block_hash;
    block_number = block_number;
    from = t.from_address;
    to = or_null t.to_address;
    gas_used = gas_used;
    cumulative_gas_used = cumulative_gas_used;
    logs_bloom = transform_logs_bloom t.logs_bloom;
    logs = logs;
    contract_address = or_null t.contract_address;
    status = if t.exit_code == 0 then codes "0x1" else codes "0x0";
  })

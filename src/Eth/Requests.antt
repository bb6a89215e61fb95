-- ===== src/Eth/Requests.antt =====
-- The requests of logs of the class `Eth`: `_rpcFilterRequestToGetLogsParams`,
-- `_normalizeBlockParameterForFilterRequest` and `getLogs`, with the types of src/base/filter.ts.
use godwoken_web.Common.{
  ℕ, Bool, true, false, Option, none, some, List, [], ◌∷◌, Text, codes, Result, ok, err,
  block_hash_exclusive, block_hash_missing, ◌>>=◌, ◌>>◌, guard, not, ◌||◌,
}
use godwoken_web.Hex.{to_hex_number}
use godwoken_web.LogFilter.{Log, FilterTopic, QueryAddress, universalize_address}
use godwoken_web.Api.{Block, EthLog, to_api_log}
use godwoken_web.Eth.{
  BlockParameter, text, FilterParams, Query, get_tip_number, parse_block_parameter,
}

-- A field that is `undefined`, `null`, or a block parameter.
pub data BlockArgument : Type 0 where
  left_out : BlockArgument
  null_block : BlockArgument
  given : BlockParameter → BlockArgument

-- A hash of `none` is missing or null.
pub record RpcFilterRequest : Type 0 where
  pub from_block : BlockArgument
  pub to_block : BlockArgument
  pub address : QueryAddress
  pub topics : Option (List FilterTopic)
  pub block_hash : Option Text

-- `block !== undefined`
abbrev pub is_given : BlockArgument → Bool
is_given left_out = false
is_given null_block = true
is_given (given block_parameter) = true

-- `block ?? tag`
abbrev pub or_block : BlockArgument → Text → BlockParameter
or_block left_out tag = text tag
or_block null_block tag = text tag
or_block (given block_parameter) tag = block_parameter

-- `n ?? latest`
abbrev pub or_latest : Option ℕ → ℕ → ℕ
or_latest none latest = latest
or_latest (some n) latest = n

-- `filter.topics || []`
abbrev pub or_no_topics : Option (List FilterTopic) → List FilterTopic
or_no_topics none = []
or_no_topics (some topics) = topics

module _ (query : Query) (instant_finality_hack_mode : Bool) where
  unfoldable pub normalize_block_parameter_for_filter_request :
      BlockArgument → BlockArgument → Result (ℕ × ℕ)
  unfolding get_tip_number parse_block_parameter
  normalize_block_parameter_for_filter_request from_block to_block = do
    latest ← get_tip_number query
    from ←
        parse_block_parameter query instant_finality_hack_mode
          (or_block from_block (codes "earliest"))
    to ← parse_block_parameter query instant_finality_hack_mode (or_block to_block (codes "latest"))
    ok (or_latest from latest, or_latest to latest)

  -- What is made of a request, the blocks of which are looked up.
  unfoldable pub params_of : RpcFilterRequest → BlockArgument → BlockArgument → Result FilterParams
  unfolding normalize_block_parameter_for_filter_request universalize_address
  params_of filter from_block to_block = do
    blocks ← normalize_block_parameter_for_filter_request from_block to_block
    ok (record {
      from_block = blocks.0;
      to_block = blocks.1;
      addresses = universalize_address filter.address;
      topics = or_no_topics filter.topics;
      block_hash = filter.block_hash;
    })

  unfoldable pub params_of_block : RpcFilterRequest → Option Block → Result FilterParams
  unfolding params_of
  params_of_block filter none = err block_hash_missing
  params_of_block filter (some block) =
      let number = given (text (to_hex_number block.number)) in params_of filter number number

  unfoldable pub params_of_hash : RpcFilterRequest → Option Text → Result FilterParams
  unfolding params_of params_of_block
  params_of_hash filter none = params_of filter filter.from_block filter.to_block
  params_of_hash filter (some block_hash) = do
    guard (not (is_given filter.from_block || is_given filter.to_block)) block_hash_exclusive
    block ← query.get_block_by_hash block_hash
    params_of_block filter block

  unfoldable pub rpc_filter_request_to_get_logs_params : RpcFilterRequest → Result FilterParams
  unfolding params_of_hash
  rpc_filter_request_to_get_logs_params filter = params_of_hash filter filter.block_hash

-- `log.eth_tx_hash!`, which every row of the query has.
abbrev pub eth_tx_hash_of : Log → Text
eth_tx_hash_of log = elim log.eth_tx_hash [ none ↦ [] | some h ↦ h ]

-- `logs.map((log) => toApiLog(log, log.eth_tx_hash!))`
unfoldable pub to_api_logs : List Log → Result (List EthLog)
unfolding to_api_log
to_api_logs [] = ok []
to_api_logs (log ∷ logs) = do
  api_log ← to_api_log log (eth_tx_hash_of log)
  api_logs ← to_api_logs logs
  ok (api_log ∷ api_logs)

unfoldable pub get_logs : Query → Bool → RpcFilterRequest → Result (List EthLog)
unfolding rpc_filter_request_to_get_logs_params to_api_logs
get_logs query instant_finality_hack_mode filter = do
  params ← rpc_filter_request_to_get_logs_params query instant_finality_hack_mode filter
  logs ← query.get_logs_by_filter params none
  to_api_logs logs

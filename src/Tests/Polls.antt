-- ===== src/Tests/Polls.antt =====
-- Requests of blocks and polls of filters.
use godwoken_web.Common.{
  ℕ, ◌≤◌, ◌≡◌, refl, arith, true, false, none, some, List, [], ◌∷◌, ◌++◌, codes, Text, text_eq, ok,
  some_injective, ok_injective,
}
use godwoken_web.Hex.{to_hex_number, assert_hex_number, big_int}
use godwoken_web.LogFilter.{Log, absent, normalize_log_query_address}
use godwoken_web.Uint.Uint32
use godwoken_web.Uint.Uint64
use godwoken_web.Api.{Block, EthLog}
use godwoken_web.Eth.{text, FilterParams, Query, block_parameter_to_block_number}
use godwoken_web.Eth.Requests.{
  RpcFilterRequest, left_out, given, rpc_filter_request_to_get_logs_params, to_api_logs,
}
use godwoken_web.Eth.Bounds.{block_parameter_le, params_le}
use godwoken_web.Eth.Filters.{Filters, Laws, Filter, log_filter, api_logs}
use godwoken_web.Eth.Polling.{behind, Answers, Grows, Round, polls, polls-added}
use godwoken_web.Tests.Chain.{block, log}

-- A database with the tip 5, in which every hash is that of block 3, and with a table of logs.
abbrev database : List Log → Query
database table = record {
  get_tip_block_number = ok (some 5);
  get_block_by_hash = λ h. ok (some (block 3));
  get_block_by_number = λ n. ok none;
  get_transactions_by_block_hash = λ h. ok [];
  get_transactions_by_block_number = λ n. ok [];
  get_transaction_eth_hashes_by_block_hash = λ h. ok [];
  get_transaction_eth_hashes_by_block_number = λ n. ok [];
  get_block_transaction_count_by_hash = λ h. ok 0;
  get_block_transaction_count_by_number = λ n. ok 0;
  get_transaction_by_block_hash_and_index = λ h i. ok none;
  get_transaction_by_block_number_and_index = λ n i. ok none;
  get_tip_log = ok none;
  get_block_hashes_and_numbers_after_block_number = λ n. ok [];
  get_logs_by_filter =
      λ params last. elim last [ none ↦ ok table | some place ↦ ok (behind place table) ];
}

in_chain : (h : Text) (b : Block) → (database []).get_block_by_hash h ≡ ok (some b) → b.number ≤ 5
in_chain h b e = let same : block 3 ≡ b = some_injective (ok_injective e) in rw⁻¹ same (omega arith)

block_parameter_le_example : 4 ≤ 5
unfolding block_parameter_to_block_number Uint64.from_hex assert_hex_number big_int
block_parameter_le_example =
    block_parameter_le (database []) 5 refl in_chain false (text (codes "0x4")) 4 refl

-- The logs from block 2 to the tip.
abbrev request : RpcFilterRequest
request = record {
  from_block = given (text (codes "0x2"));
  to_block = left_out;
  address = absent;
  topics = none;
  block_hash = none;
}

abbrev params : FilterParams
params = record { from_block = 2; to_block = 5; addresses = []; topics = []; block_hash = none }

request_params :
    (table : List Log)
    → rpc_filter_request_to_get_logs_params (database table) false request ≡ ok params
unfolding rpc_filter_request_to_get_logs_params Uint64.from_hex assert_hex_number big_int
    normalize_log_query_address
request_params table = refl

params_le_example : (2 ≤ 5) × (5 ≤ 5)
params_le_example = params_le (database []) 5 refl in_chain false request params (request_params [])

-- A filter manager whose store is one filter and its place.
abbrev Place : Type 0
Place = Filter × ℕ

abbrev filters : Filters Place
filters = record {
  install = λ filter place id store. ok (filter, place);
  get = λ id store. ok (some store.0);
  uninstall = λ id store. ok (true, store);
  get_last_poll = λ id store. ok store.1;
  update_last_poll = λ id place store. ok (store.0, place);
}

abbrev filters_laws : Laws filters
filters_laws = record {
  Holds = λ id filter place store. store ≡ (filter, place);
  get_law = λ id filter place store h. rw h refl;
  get_last_poll_law = λ id filter place store h. rw h refl;
  update_law = λ id filter place next store h. ((filter, next), rw h refl, refl);
}

abbrev answer : ℕ → EthLog
answer n = record {
  address = codes "0xcc";
  block_hash = codes "0xaa";
  block_number = to_hex_number n;
  transaction_index = codes "0x0";
  transaction_hash = codes "0x02";
  log_data = to_hex_number n;
  log_index = codes "0x0";
  topics = [];
  removed = false;
}

-- Two logs before the filter; then one log, none, and two logs are added.
abbrev old : List Log
old = log 1 ∷ log 2 ∷ []

abbrev round : List Log → List Log → List EthLog → Round
round table added answered = record {
  query = database (table ++ added);
  added = added;
  answer = answered;
}

abbrev rounds : List Round
rounds =
    round old (log 3 ∷ []) (answer 3 ∷ [])
    ∷ round (old ++ (log 3 ∷ [])) [] []
    ∷ round (old ++ (log 3 ∷ [])) (log 4 ∷ log 5 ∷ []) (answer 4 ∷ answer 5 ∷ [])
    ∷ []

answered :
    (table added : List Log) (apis : List EthLog)
    → to_api_logs added ≡ ok apis
    → Answers false request (table ++ added) (round table added apis)
answered table added apis h = record {
  params = params;
  params_law = request_params (table ++ added);
  logs_law = λ place. refl;
  api_law = h;
}

grows : Grows false request 2 old rounds
unfolding to_api_logs Uint64.make Uint32.make to_hex_number Uint64.to_hex Uint32.to_hex text_eq
grows = (
  answered old (log 3 ∷ []) (answer 3 ∷ []) refl,
  (omega arith, tt),
  (
    answered (old ++ (log 3 ∷ [])) [] [] refl,
    tt,
    (
      answered (old ++ (log 3 ∷ [])) (log 4 ∷ log 5 ∷ []) (answer 4 ∷ answer 5 ∷ []) refl,
      (omega arith, (omega arith, tt)),
      tt,
    ),
  ),
)

polls-added_example :
    polls filters false (codes "0x1") rounds (log_filter request, 2)
    ≡ ok (api_logs (answer 3 ∷ []))
      ∷ ok (api_logs [])
      ∷ ok (api_logs (answer 4 ∷ answer 5 ∷ []))
      ∷ []
polls-added_example =
    polls-added filters filters_laws false (codes "0x1") request 2 old rounds
      (log_filter request, 2) refl (omega arith, (omega arith, tt)) grows

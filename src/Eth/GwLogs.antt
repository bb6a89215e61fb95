-- ===== src/Eth/GwLogs.antt =====
-- The logs of a run that eth_call and eth_estimateGas read: `extractPolyjuiceSystemLog` and the parsers
-- beside it in packages/api-server/src/methods/modules/eth.ts. They read other places than the
-- parser of packages/api-server/src/filter-web3-tx.ts, which follows the layout of the log.
use godwoken_web.Common.{
  ℕ, zero, suc, ◌+◌, ◌*◌, ◌==◌, List, [], ◌∷◌, ◌++◌, if◌then◌else◌, length, drop, slice, Text,
  codes, text_eq, Result, ok, err, guard, system_log_length, user_log_size, system_log_missing,
  sudt_log_length, log_flag, ◌>>=◌, ◌>>◌,
}
use godwoken_web.Hex.{x_prefix, big_int}
use godwoken_web.Buffer.{Bytes, from_hex, to_hex, read_uint_le}

pub record LogItem : Type 0 where
  pub account_id : Text
  pub service_flag : Text
  pub log_data : Text

-- The four kinds of `GodwokenLog`.
pub data GodwokenLog : Type 0 where
  sudt_operation : (sudt_id from_id to_id amount : ℕ) → GodwokenLog
  sudt_pay_fee : (sudt_id from_id block_producer_id amount : ℕ) → GodwokenLog
  polyjuice_system :
      (gas_used cumulative_gas_used : ℕ) (created_address : Text) (status_code : ℕ) → GodwokenLog
  polyjuice_user : (address log_data : Text) (topics : List Text) → GodwokenLog

abbrev pub bytes_of : LogItem → Bytes
unfolding from_hex
bytes_of log_item = from_hex (drop 2 log_item.log_data)

unfoldable pub parse_sudt_operation_log : LogItem → Result GodwokenLog
parse_sudt_operation_log log_item = do
  let buf = bytes_of log_item
  guard (length buf == 24) sudt_log_length
  from_id ← read_uint_le 4 0 buf
  to_id ← read_uint_le 4 4 buf
  amount ← read_uint_le 8 8 buf
  sudt_id ← big_int log_item.account_id
  ok (sudt_operation sudt_id from_id to_id amount)

unfoldable pub parse_sudt_pay_fee_log : LogItem → Result GodwokenLog
parse_sudt_pay_fee_log log_item = do
  let buf = bytes_of log_item
  guard (length buf == 24) sudt_log_length
  from_id ← read_uint_le 4 0 buf
  block_producer_id ← read_uint_le 4 4 buf
  amount ← read_uint_le 8 8 buf
  sudt_id ← big_int log_item.account_id
  ok (sudt_pay_fee sudt_id from_id block_producer_id amount)

unfoldable pub parse_system_log : LogItem → Result GodwokenLog
parse_system_log log_item = do
  let buf = bytes_of log_item
  guard (length buf == 40) system_log_length
  gas_used ← read_uint_le 8 0 buf
  cumulative_gas_used ← read_uint_le 8 8 buf
  let created_address = x_prefix ++ to_hex (slice 16 32 buf)
  status_code ← read_uint_le 4 32 buf
  ok (polyjuice_system gas_used cumulative_gas_used created_address status_code)

-- The loop over the topics, with the rounds left.
unfoldable pub read_topics : ℕ → ℕ → Bytes → List Text
read_topics zero offset buf = []
read_topics (suc rounds) offset buf =
    (x_prefix ++ to_hex (slice offset (offset + 32) buf)) ∷ read_topics rounds (offset + 32) buf

unfoldable pub parse_user_log : LogItem → Result GodwokenLog
unfolding read_topics
parse_user_log log_item = do
  let buf = bytes_of log_item
  data_size ← read_uint_le 4 20 buf
  let data_end = 24 + data_size
  topics_count ← read_uint_le 4 data_end buf
  guard (data_end + 4 + 32 * topics_count == length buf) user_log_size
  ok (
      polyjuice_user (x_prefix ++ to_hex (slice 0 20 buf))
        (x_prefix ++ to_hex (slice 24 data_end buf)) (read_topics topics_count (data_end + 4) buf))

unfoldable pub parse_log : LogItem → Result GodwokenLog
unfolding text_eq parse_sudt_operation_log parse_sudt_pay_fee_log parse_system_log parse_user_log
parse_log log_item =
    if text_eq log_item.service_flag (codes "0x0")
    then parse_sudt_operation_log log_item
    else if text_eq log_item.service_flag (codes "0x1")
    then parse_sudt_pay_fee_log log_item
    else if text_eq log_item.service_flag (codes "0x2")
    then parse_system_log log_item
    else if text_eq log_item.service_flag (codes "0x3")
    then parse_user_log log_item
    else err log_flag

unfoldable pub extract_polyjuice_system_log : List LogItem → Result GodwokenLog
unfolding parse_log
extract_polyjuice_system_log [] = err system_log_missing
extract_polyjuice_system_log (log_item ∷ log_items) =
    let rest = extract_polyjuice_system_log log_items in
    if text_eq log_item.service_flag (codes "0x2") then parse_log log_item else rest

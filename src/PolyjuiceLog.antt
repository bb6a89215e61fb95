-- ===== src/PolyjuiceLog.antt =====
-- The logs of a receipt: `parsePolyjuiceSystemLog`, `parsePolyjuiceUserLog` and `bumpHash` of
-- packages/api-server/src/filter-web3-tx.ts, with the types of src/base/types/gw-log.ts there.
pub mod System
pub mod User
pub mod Bump
use godwoken_web.Common.{
  ℕ, zero, suc, ◌+◌, ◌*◌, ◌-◌, List, [], ◌∷◌, ◌++◌, ◌==◌, length, drop, take, slice, Text, Result,
  ok, err, guard, system_log_length, user_log_size, ◌>>=◌, ◌>>◌,
}
use godwoken_web.Hex.{x_prefix, big_int, to_string_16, pad_start}
use godwoken_web.Uint.Uint32
use godwoken_web.Uint.Uint64

pub record PolyjuiceSystemLog : Type 0 where
  pub gas_used : Text
  pub cumulative_gas_used : Text
  pub created_address : Text
  pub status_code : Text

unfoldable pub parse_polyjuice_system_log : Text → Result PolyjuiceSystemLog
parse_polyjuice_system_log raw = do
  guard (length raw == 82) system_log_length
  let data_without_prefix = drop 2 raw
  gas_used ← Uint64.from_little_endian (x_prefix ++ slice 0 16 data_without_prefix)
  cumulative_gas_used ← Uint64.from_little_endian (x_prefix ++ slice 16 32 data_without_prefix)
  let created_address = x_prefix ++ slice 32 72 data_without_prefix
  status_code ← Uint32.from_little_endian (x_prefix ++ slice 72 80 data_without_prefix)
  ok (record {
    gas_used = Uint64.to_hex gas_used;
    cumulative_gas_used = Uint64.to_hex cumulative_gas_used;
    created_address = created_address;
    status_code = Uint32.to_hex status_code;
  })

pub record PolyjuiceUserLog : Type 0 where
  pub address : Text
  pub log_data : Text
  pub topics : List Text

-- `for (let i = 0; i < topicsCount; i++) …`, with the rounds left.
unfoldable pub topics_loop : ℕ → ℕ → Text → List Text
topics_loop zero offset text = []
topics_loop (suc rounds) offset text =
    (x_prefix ++ slice offset (offset + 64) text) ∷ topics_loop rounds (offset + 64) text

unfoldable pub parse_polyjuice_user_log : Text → Result PolyjuiceUserLog
unfolding topics_loop
parse_polyjuice_user_log raw = do
  let data_without_prefix = drop 2 raw
  let address = x_prefix ++ slice 0 40 data_without_prefix
  data_size ← Uint32.from_little_endian (x_prefix ++ slice 40 48 data_without_prefix)
  let data_end = 48 + data_size.value * 2
  let log_data = x_prefix ++ slice 48 data_end data_without_prefix
  topics_count ←
      Uint32.from_little_endian (x_prefix ++ slice data_end (data_end + 8) data_without_prefix)
  let topics = topics_loop topics_count.value (data_end + 8) data_without_prefix
  let offset = data_end + 8 + 64 * topics_count.value
  guard (offset == length data_without_prefix) user_log_size
  ok (record { address = address; log_data = log_data; topics = topics })

unfoldable pub bump_hash : Text → Result Text
bump_hash hash = do
  n ← big_int hash
  let hash_num = n + 1
  ok (x_prefix ++ pad_start 64 (to_string_16 hash_num))

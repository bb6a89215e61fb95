-- ===== src/LogFilter/Query.antt =====
-- Rows of the table of logs, and what the query methods of the SQL library promise about them.
-- A column of type bigint is the number that it spells; `formatLog` is of
-- packages/api-server/src/db/helpers.ts.
use godwoken_web.Common.{
  ℕ, suc, ◌+◌, Bool, false, ◌||◌, Option, none, some, List, [], ◌∷◌, ◌++◌, ◌≡◌, map, leb, length,
  get_elem?, all, Text, text_eq, if◌then◌else◌,
}
use godwoken_web.Hex.{x_prefix}
use godwoken_web.Buffer.{Bytes, to_hex}
use godwoken_web.LogFilter.{Log, Clause, topics_length_at_least, topic_is, topic_in}

pub record DbLog : Type 0 where
  pub id : ℕ
  pub transaction_id : ℕ
  pub transaction_hash : Bytes
  pub eth_tx_hash : Option Bytes
  pub transaction_index : ℕ
  pub block_number : ℕ
  pub block_hash : Bytes
  pub address : Bytes
  pub log_data : Bytes
  pub log_index : ℕ
  pub topics : List Bytes

abbrev pub buffer_to_hex : Bytes → Text
buffer_to_hex buf = x_prefix ++ to_hex buf

abbrev pub buffer_to_hex_opt : Option Bytes → Option Text
buffer_to_hex_opt none = none
buffer_to_hex_opt (some buf) = some (buffer_to_hex buf)

unfoldable pub format_log : DbLog → Log
format_log log = record {
  id = log.id;
  transaction_id = log.transaction_id;
  transaction_hash = buffer_to_hex log.transaction_hash;
  eth_tx_hash = buffer_to_hex_opt log.eth_tx_hash;
  transaction_index = log.transaction_index;
  block_number = log.block_number;
  block_hash = buffer_to_hex log.block_hash;
  address = buffer_to_hex log.address;
  log_data = buffer_to_hex log.log_data;
  log_index = log.log_index;
  topics = map buffer_to_hex log.topics;
}

-- Equality with an entry of an array, which is not true of an entry beyond its end.
abbrev pub entry_is : Bytes → Option Bytes → Bool
entry_is b none = false
entry_is b (some t) = text_eq t b

abbrev pub entry_in : List Bytes → Option Bytes → Bool
entry_in bs none = false
entry_in [] (some t) = false
entry_in (b ∷ bs) (some t) = text_eq b t || entry_in bs (some t)

-- What PostgreSQL and the query builder promise of the three clauses on topics; arrays count from 1. The
-- least length is above 0, since the length of an empty array is NULL.
pub record Sql : Type 0 where
  pub holds : Clause → DbLog → Bool
  pub length_law :
      (n : ℕ) (row : DbLog)
      → holds (topics_length_at_least (suc n)) row ≡ leb (suc n) (length row.topics)
  pub is_law :
      (i : ℕ) (b : Bytes) (row : DbLog)
      → holds (topic_is (i + 1) b) row ≡ entry_is b (get_elem? row.topics i)
  pub in_law :
      (i : ℕ) (bs : List Bytes) (row : DbLog)
      → holds (topic_in (i + 1) bs) row ≡ entry_in bs (get_elem? row.topics i)

-- A row is selected if all clauses hold of it.
abbrev pub selects : Sql → List Clause → DbLog → Bool
selects sql clauses row = all (λ c. sql.holds c row) clauses

-- The rows that a query with the clauses answers.
abbrev pub selected : Sql → List Clause → List DbLog → List DbLog
selected sql clauses [] = []
selected sql clauses (row ∷ rows) =
    let more = selected sql clauses rows in if selects sql clauses row then row ∷ more else more

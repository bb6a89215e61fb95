-- ===== src/LogFilter.antt =====
-- The log filters of packages/api-server/src/db/helpers.ts: `filterLogsByTopics` and
-- `filterLogsByAddress` over logs in memory, which the subscriptions use, and the `buildQueryLog…`
-- functions, which put the same filter into an SQL query. `FilterTopic` is of src/base/filter.ts.
pub mod Topics
pub mod Query
pub mod Agreement
use godwoken_web.Common.{
  ℕ, zero, suc, ◌+◌, Bool, true, false, not, ◌&&◌, ◌||◌, Option, none, some, List, [], ◌∷◌, ◌++◌,
  map, leb, ◌==◌, if◌then◌else◌, length, drop, get_elem?, all, Text, text_eq, Result, ok, err,
  type_error, ◌>>=◌,
}
use godwoken_web.Buffer.{Bytes, from_hex}
use godwoken_web.Address.{to_lower_case}

pub record Log : Type 0 where
  pub id : ℕ
  pub transaction_id : ℕ
  pub transaction_hash : Text
  pub eth_tx_hash : Option Text
  pub transaction_index : ℕ
  pub block_number : ℕ
  pub block_hash : Text
  pub address : Text
  pub log_data : Text
  pub log_index : ℕ
  pub topics : List Text

-- `null`, a text, or an array of texts, in which the validator of filters lets a null stand.
pub data FilterTopic : Type 0 where
  anything : FilterTopic
  one : Text → FilterTopic
  any_of : List (Option Text) → FilterTopic

-- `xs.includes(x)`
unfoldable pub includes : List Text → Text → Bool
unfolding text_eq
includes [] x = false
includes (y ∷ ys) x = text_eq y x || includes ys x

-- The same on an array of topics; a null is no topic.
unfoldable pub includes_topic : List (Option Text) → Text → Bool
unfolding text_eq
includes_topic [] x = false
includes_topic (none ∷ ys) x = includes_topic ys x
includes_topic (some y ∷ ys) x = text_eq y x || includes_topic ys x

abbrev pub is_null : FilterTopic → Bool
is_null anything = true
is_null (one s) = false
is_null (any_of ss) = false

-- Whether the two tests of a round leave `match` as it is. `filterTopics[i]` is undefined beyond the
-- end, and the empty text is falsy.
abbrev pub passes : Option FilterTopic → Text → Bool
passes none topic = true
passes (some anything) topic = true
passes (some (one [])) topic = true
passes (some (one (c ∷ s))) topic = text_eq topic (c ∷ s)
passes (some (any_of ss)) topic = includes_topic ss topic

-- The loop over the log's topics from index `i` on, `match` being true before the loop.
unfoldable pub topics_match : List FilterTopic → ℕ → List Text → Bool
unfolding includes_topic
topics_match filter_topics i [] = true
topics_match filter_topics i (topic ∷ topics) =
    let more = topics_match filter_topics (suc i) topics in
    if passes (get_elem? filter_topics i) topic then more else false

unfoldable pub keep_if : (Log → Bool) → List Log → List Log
keep_if p [] = []
keep_if p (log ∷ logs) = if p log then log ∷ keep_if p logs else keep_if p logs

unfoldable pub filter_logs_by_topics : List Log → List FilterTopic → List Log
unfolding topics_match keep_if
filter_logs_by_topics logs filter_topics =
    if length filter_topics == 0
    then logs
    else if all is_null filter_topics
    then keep_if (λ log. leb (length filter_topics) (length log.topics)) logs
    else keep_if
        (λ log.
          leb (length filter_topics) (length log.topics) && topics_match filter_topics 0 log.topics)
        logs

-- An address argument: absent, a text, or an array.
pub data QueryAddress : Type 0 where
  absent : QueryAddress
  single : Text → QueryAddress
  several : List Text → QueryAddress

unfoldable pub normalize_query_address : Text → Text
unfolding to_lower_case
normalize_query_address address = to_lower_case address

unfoldable pub normalize_log_query_address : QueryAddress → QueryAddress
unfolding normalize_query_address
normalize_log_query_address absent = absent
normalize_log_query_address (single a) = single (normalize_query_address a)
normalize_log_query_address (several as_list) = several (map normalize_query_address as_list)

unfoldable pub universalize_address : QueryAddress → List Text
universalize_address address = elim (normalize_log_query_address address) [
  | absent ↦ []
  | single a ↦ a ∷ []
  | several as_list ↦ as_list
]

-- `!address`
abbrev pub is_falsy : QueryAddress → Bool
is_falsy absent = true
is_falsy (single []) = true
is_falsy (single (c ∷ s)) = false
is_falsy (several as_list) = false

-- `log.address === address`; neither an absent address nor an array is equal to a text.
abbrev pub same_address : QueryAddress → Text → Bool
same_address absent a = false
same_address (single s) a = text_eq a s
same_address (several as_list) a = false

unfoldable pub filter_logs_by_address : List Log → QueryAddress → List Log
unfolding text_eq normalize_log_query_address keep_if
filter_logs_by_address logs raw_address =
    let address = normalize_log_query_address raw_address in
    if is_falsy address then logs else keep_if (λ log. same_address address log.address) logs

-- What the query builder is told: one entry for each call of a `where…` method.
pub data Clause : Type 0 where
  address_in : List Bytes → Clause
  topics_length_at_least : ℕ → Clause
  topic_is : ℕ → Bytes → Clause
  topic_in : ℕ → List Bytes → Clause
  block_hash_is : Bytes → Clause
  block_number_between : ℕ → ℕ → Clause
  id_above : ℕ → Clause

unfoldable pub hex_to_buffer : Text → Bytes
hex_to_buffer hex = from_hex (drop 2 hex)

unfoldable pub build_query_log_address : List Text → List Clause
unfolding hex_to_buffer
build_query_log_address [] = []
build_query_log_address (a ∷ rest) = address_in (map hex_to_buffer (a ∷ rest)) ∷ []

-- `topic.map((subtopic) => hexToBuffer(subtopic))`, which throws at a null.
unfoldable pub sub_buffers : List (Option Text) → Result (List Bytes)
unfolding hex_to_buffer
sub_buffers [] = ok []
sub_buffers (none ∷ topics) = err type_error
sub_buffers (some topic ∷ topics) = do
  buffers ← sub_buffers topics
  ok (hex_to_buffer topic ∷ buffers)

-- One round of `topics.forEach`; `index + 1` is the index that PostgreSQL counts by.
unfoldable pub topic_clause : ℕ → FilterTopic → Result (List Clause)
unfolding hex_to_buffer sub_buffers
topic_clause index anything = ok []
topic_clause index (one topic) = ok (topic_is (index + 1) (hex_to_buffer topic) ∷ [])
topic_clause index (any_of topics) = do
  buffers ← sub_buffers topics
  ok (topic_in (index + 1) buffers ∷ [])

unfoldable pub topic_clauses : ℕ → List FilterTopic → Result (List Clause)
unfolding topic_clause
topic_clauses index [] = ok []
topic_clauses index (topic ∷ topics) = do
  clauses ← topic_clause index topic
  more ← topic_clauses (suc index) topics
  ok (clauses ++ more)

unfoldable pub build_query_log_topics : List FilterTopic → Result (List Clause)
unfolding topic_clauses
build_query_log_topics [] = ok []
build_query_log_topics (topic ∷ topics) = do
  clauses ← topic_clauses 0 (topic ∷ topics)
  ok (topics_length_at_least (length (topic ∷ topics)) ∷ clauses)

unfoldable pub build_query_log_block : ℕ → ℕ → Option Text → List Clause
unfolding hex_to_buffer
build_query_log_block from_block to_block (some block_hash) =
    block_hash_is (hex_to_buffer block_hash) ∷ []
build_query_log_block from_block to_block none = block_number_between from_block to_block ∷ []

-- `none` is the default -1.
unfoldable pub build_query_log_id : Option ℕ → List Clause
build_query_log_id none = []
build_query_log_id (some last_poll_id) = id_above last_poll_id ∷ []

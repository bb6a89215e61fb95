-- ===== src/Subscriptions.antt =====
-- The subscriptions of a WebSocket connection: the state that `wrapper` of
-- packages/api-server/src/ws/methods.ts keeps for each connection, and what its listeners send. The
-- requests besides those of subscriptions are passed to the methods of the RPC and are left out.
pub mod Heads
pub mod Sessions
use godwoken_web.Common.{
  ℕ, Bool, true, false, not, ◌||◌, Option, none, some, List, [], ◌∷◌, ◌++◌, map, if◌then◌else◌,
  Text, codes, text_eq, Result, ok, err, ◌>>=◌,
}
use godwoken_web.LogFilter.{
  Log, FilterTopic, QueryAddress, absent, includes, filter_logs_by_address, filter_logs_by_topics,
}
use godwoken_web.Api.{EthNewHead, EthLog, to_api_log}
use godwoken_web.Emitter.{Event, heads_event, logs_event}

pub record LogQueryOption : Type 0 where
  pub address : QueryAddress
  pub topics : Option (List FilterTopic)

-- What is sent to a client, with the id of its subscription.
pub data Notification : Type 0 where
  new_head : Text → EthNewHead → Notification
  new_logs : Text → List EthLog → Notification

-- `listening` says whether the two listeners are registered with the emitter. The entries of the sets and
-- of the map are in the order in which they were added.
pub record Connection : Type 0 where
  pub listening : Bool
  pub new_heads_ids : List Text
  pub syncing_ids : List Text
  pub logs_query_maps : List (Text × LogQueryOption)
  pub sent : List Notification

abbrev pub new_connection : Connection
new_connection = record {
  listening = true;
  new_heads_ids = [];
  syncing_ids = [];
  logs_query_maps = [];
  sent = [];
}

-- `set.add(id)` and `set.delete(id)` of a set.
unfoldable pub set_add : Text → List Text → List Text
unfolding includes
set_add id ids = if includes ids id then ids else ids ++ (id ∷ [])

unfoldable pub set_delete : Text → List Text → List Text
unfolding text_eq
set_delete id [] = []
set_delete id (x ∷ ids) = if text_eq x id then set_delete id ids else x ∷ set_delete id ids

-- `map.set(id, query)` and `map.delete(id)` of a map; a key that is there keeps its place.
unfoldable pub map_set :
    Text → LogQueryOption → List (Text × LogQueryOption) → List (Text × LogQueryOption)
unfolding text_eq
map_set id query [] = (id, query) ∷ []
map_set id query (entry ∷ entries) =
    if text_eq entry.0 id then (id, query) ∷ entries else entry ∷ map_set id query entries

unfoldable pub map_delete : Text → List (Text × LogQueryOption) → List (Text × LogQueryOption)
unfolding text_eq
map_delete id [] = []
map_delete id (entry ∷ entries) =
    if text_eq entry.0 id then map_delete id entries else entry ∷ map_delete id entries

abbrev pub with_ids : List Text → List Text → List (Text × LogQueryOption) → Connection → Connection
with_ids heads syncing queries c = record {
  listening = c.listening;
  new_heads_ids = heads;
  syncing_ids = syncing;
  logs_query_maps = queries;
  sent = c.sent;
}

-- The second parameter of a subscription to logs: falsy, of a type other than object, or an object, of
-- which two fields are read.
pub data LogsParam : Type 0 where
  falsy not_object : LogsParam
  fields : LogQueryOption → LogsParam

-- What the callback is given.
pub data Reply : Type 0 where
  subscribed : Text → Reply
  unsubscribed : Bool → Reply
  invalid_params method_not_found : Reply

unfoldable pub parse_logs_sub_params : LogsParam → Option LogQueryOption
parse_logs_sub_params falsy = some (record { address = absent; topics = none })
parse_logs_sub_params not_object = none
parse_logs_sub_params (fields query) = some query

unfoldable pub subscribe_logs : Text → Option LogQueryOption → Connection → Connection × Reply
unfolding map_set
subscribe_logs id none c = (c, invalid_params)
subscribe_logs id (some query) c =
    (with_ids c.new_heads_ids c.syncing_ids (map_set id query c.logs_query_maps) c, subscribed id)

-- The id, which comes from a source of randomness, is an argument.
unfoldable pub eth_subscribe : Text → LogsParam → Text → Connection → Connection × Reply
unfolding text_eq set_add subscribe_logs parse_logs_sub_params
eth_subscribe name param id c =
    if text_eq name (codes "newHeads")
    then (with_ids (set_add id c.new_heads_ids) c.syncing_ids c.logs_query_maps c, subscribed id)
    else if text_eq name (codes "syncing")
    then (with_ids c.new_heads_ids (set_add id c.syncing_ids) c.logs_query_maps c, subscribed id)
    else if text_eq name (codes "logs")
    then subscribe_logs id (parse_logs_sub_params param) c
    else (c, method_not_found)

abbrev pub has_key : List (Text × LogQueryOption) → Text → Bool
has_key entries id = includes (map (λ entry. entry.0) entries) id

-- A deletion that succeeds ends the chain of `||`.
unfoldable pub eth_unsubscribe : Text → Connection → Connection × Reply
unfolding includes set_delete map_delete
eth_unsubscribe id c =
    if includes c.new_heads_ids id
    then (
      with_ids (set_delete id c.new_heads_ids) c.syncing_ids c.logs_query_maps c,
      unsubscribed true,
    )
    else if includes c.syncing_ids id
    then (
      with_ids c.new_heads_ids (set_delete id c.syncing_ids) c.logs_query_maps c,
      unsubscribed true,
    )
    else (
      with_ids c.new_heads_ids c.syncing_ids (map_delete id c.logs_query_maps) c,
      unsubscribed (has_key c.logs_query_maps id),
    )

-- The listeners are taken off the emitter when the connection closes.
unfoldable pub close : Connection → Connection
close c = record {
  listening = false;
  new_heads_ids = c.new_heads_ids;
  syncing_ids = c.syncing_ids;
  logs_query_maps = c.logs_query_maps;
  sent = c.sent;
}

abbrev pub send : List Notification → Connection → Connection
send notifications c = record {
  listening = c.listening;
  new_heads_ids = c.new_heads_ids;
  syncing_ids = c.syncing_ids;
  logs_query_maps = c.logs_query_maps;
  sent = c.sent ++ notifications;
}

-- `blocks.forEach((block) => newHeadsIds.forEach((id) => ws.send(…)))`
unfoldable pub head_notifications : List Text → List EthNewHead → List Notification
head_notifications ids [] = []
head_notifications ids (block ∷ blocks) =
    map (λ id. new_head id block) ids ++ head_notifications ids blocks

unfoldable pub block_listener : List EthNewHead → Connection → Connection
unfolding head_notifications
block_listener blocks c = send (head_notifications c.new_heads_ids blocks) c

abbrev pub or_no_topics : Option (List FilterTopic) → List FilterTopic
or_no_topics none = []
or_no_topics (some topics) = topics

-- What the listener needs: `JSON.parse` with the three numbers restored, and the hash that
-- `gwTxHashToEthTxHash` answers.
module _ (parse : Text → Log) (to_eth_tx_hash : Text → Text) where
  unfoldable pub api_logs : List Log → Result (List EthLog)
  unfolding to_api_log
  api_logs [] = ok []
  api_logs (log ∷ logs) = do
    api_log ← to_api_log log (to_eth_tx_hash log.transaction_hash)
    rest ← api_logs logs
    ok (api_log ∷ rest)

  -- An error is that of a promise that nobody waits for, so nothing is sent.
  abbrev pub log_notification : Text → Result (List EthLog) → List Notification
  log_notification id (ok logs) = new_logs id logs ∷ []
  log_notification id (err thrown) = []

  unfoldable pub notify_logs : Text → List Log → List Notification
  unfolding api_logs
  notify_logs id [] = []
  notify_logs id (log ∷ logs) = log_notification id (api_logs (log ∷ logs))

  unfoldable pub log_notifications : List (Text × LogQueryOption) → List Log → List Notification
  unfolding filter_logs_by_address filter_logs_by_topics notify_logs
  log_notifications [] logs = []
  log_notifications (entry ∷ entries) logs =
      let found =
        filter_logs_by_topics (filter_logs_by_address logs entry.1.address)
          (or_no_topics entry.1.topics) in
      notify_logs entry.0 found ++ log_notifications entries logs

  -- The answers for the subscriptions are taken to come in the order of the map.
  unfoldable pub logs_listener : List Text → Connection → Connection
  unfolding log_notifications
  logs_listener logs c = send (log_notifications c.logs_query_maps (map parse logs)) c

  unfoldable pub emit : Event → Connection → Connection
  unfolding block_listener logs_listener
  emit (heads_event blocks) c = if c.listening then block_listener blocks c else c
  emit (logs_event logs) c = if c.listening then logs_listener logs c else c

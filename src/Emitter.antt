-- ===== src/Emitter.antt =====
-- The class `BlockEmitter` of packages/api-server/src/block-emitter.ts: the main process polls the database
-- for new blocks and announces their heads and their logs to the processes of the cluster, where the
-- listeners of the subscriptions get them. What a call has done when a later one throws stays done.
pub mod Announce
pub mod Progress
pub mod Restart
use godwoken_web.Common.{
  ℕ, suc, ◌+◌, Bool, true, false, Option, none, some, List, [], ◌∷◌, ◌++◌, map, leb, if◌then◌else◌,
  Text, Result, ok, err, Error, type_error, ◌>>=◌,
}
use godwoken_web.LogFilter.{Log}
use godwoken_web.Api.{Block, EthNewHead, to_api_new_head}

-- The messages of `notify`, without the prefix of their type.
pub data Message : Type 0 where
  new_heads : List EthNewHead → Message
  logs : List Text → Message

-- What the class `Query` answers during one call; a lower bound of `none` is -1. `get_logs` is
-- `getLogsByFilter` without addresses and topics.
pub record Query : Type 0 where
  pub get_tip_block_number : Result (Option ℕ)
  pub get_blocks_by_numbers : Option ℕ → ℕ → Result (List Block)
  pub get_logs : ℕ → ℕ → Result (List Log)

-- A tip of `none` is -1; `sent` is what each process of the cluster is sent, in order, and `tip_hash` what
-- is kept in the cache.
pub record Emitter : Type 0 where
  pub is_running : Bool
  pub current_tip : Option ℕ
  pub timers : ℕ
  pub sent : List Message
  pub tip_hash : Option Text

abbrev pub new_emitter : Emitter
new_emitter = record {
  is_running = false;
  current_tip = none;
  timers = 0;
  sent = [];
  tip_hash = none;
}

unfoldable pub schedule_loop : Emitter → Emitter
schedule_loop e = record {
  is_running = e.is_running;
  current_tip = e.current_tip;
  timers = e.timers + 1;
  sent = e.sent;
  tip_hash = e.tip_hash;
}

abbrev pub or_tip : Option ℕ → Option ℕ → Option ℕ
or_tip none old = old
or_tip (some tip) old = some tip

abbrev pub running_with : Option ℕ → Emitter → Emitter
running_with tip e = record {
  is_running = true;
  current_tip = or_tip tip e.current_tip;
  timers = e.timers;
  sent = e.sent;
  tip_hash = e.tip_hash;
}

-- The state behind `start`, and whether it throws.
unfoldable pub start : Query → Emitter → Emitter × Result (Unit {0})
unfolding schedule_loop
start query e = elim query.get_tip_block_number [
  | err thrown ↦ (running_with none e, err thrown)
  | ok tip ↦ (schedule_loop (running_with tip e), ok tt)
]

-- The callback of the interval of `startForever`.
unfoldable pub check : Query → Emitter → Emitter
unfolding start
check query e = if e.is_running then e else (start query e).0

unfoldable pub stop : Emitter → Emitter
stop e = record {
  is_running = false;
  current_tip = e.current_tip;
  timers = e.timers;
  sent = e.sent;
  tip_hash = e.tip_hash;
}

unfoldable pub notify : Message → Emitter → Emitter
notify message e = record {
  is_running = e.is_running;
  current_tip = e.current_tip;
  timers = e.timers;
  sent = e.sent ++ (message ∷ []);
  tip_hash = e.tip_hash;
}

abbrev pub cache_tip_hash : Text → Emitter → Emitter
cache_tip_hash hash e = record {
  is_running = e.is_running;
  current_tip = e.current_tip;
  timers = e.timers;
  sent = e.sent;
  tip_hash = some hash;
}

abbrev pub set_tip : ℕ → Emitter → Emitter
set_tip tip e = record {
  is_running = e.is_running;
  current_tip = some tip;
  timers = e.timers;
  sent = e.sent;
  tip_hash = e.tip_hash;
}

-- `blocks.map((b) => toApiNewHead(b))`
unfoldable pub to_new_heads : List Block → Result (List EthNewHead)
unfolding to_api_new_head
to_new_heads [] = ok []
to_new_heads (b ∷ bs) = do head ← to_api_new_head b; heads ← to_new_heads bs; ok (head ∷ heads)

-- `newHeads[newHeads.length - 1]`
abbrev pub last_head : List EthNewHead → Option EthNewHead
last_head [] = none
last_head (h ∷ []) = some h
last_head (h ∷ (k ∷ hs)) = last_head (k ∷ hs)

-- `min + BigInt(1)`
abbrev pub next_of : Option ℕ → ℕ
next_of none = 0
next_of (some n) = suc n

-- `this.currentTip >= tip`
abbrev pub reached : Option ℕ → ℕ → Bool
reached none tip = false
reached (some n) tip = leb tip n

-- `if (logs.length > 0)`
unfoldable pub notify_logs : List Text → Emitter → Emitter
unfolding notify
notify_logs [] e = e
notify_logs (log ∷ new_logs) e = notify (logs (log ∷ new_logs)) e

-- The arguments besides the state: how a log is turned into JSON, and the database.
module _ (stringify : Log → Text) (query : Query) where
  unfoldable pub announce_logs : ℕ → Result (List Log) → Emitter → Emitter × Result ℕ
  unfolding notify_logs
  announce_logs tip (err thrown) e = (e, err thrown)
  announce_logs tip (ok found) e = (set_tip tip (notify_logs (map stringify found) e), ok 1000)

  -- Behind the call that announces the heads.
  unfoldable pub after_heads : Option ℕ → ℕ → Option EthNewHead → Emitter → Emitter × Result ℕ
  unfolding announce_logs
  after_heads min tip none e = (e, err type_error)
  after_heads min tip (some head) e =
      announce_logs tip (query.get_logs (next_of min) tip) (cache_tip_hash head.hash e)

  unfoldable pub announce_heads :
      Option ℕ → ℕ → Result (List EthNewHead) → Emitter → Emitter × Result ℕ
  unfolding after_heads notify
  announce_heads min tip (err thrown) e = (e, err thrown)
  announce_heads min tip (ok heads) e =
      after_heads min tip (last_head heads) (notify (new_heads heads) e)

  unfoldable pub execute_poll : ℕ → Emitter → Emitter × Result ℕ
  unfolding to_new_heads announce_heads
  execute_poll tip e =
      announce_heads e.current_tip tip
        (query.get_blocks_by_numbers e.current_tip tip >>= to_new_heads) e

  unfoldable pub poll_to : Option ℕ → Emitter → Emitter × Result ℕ
  unfolding execute_poll
  poll_to none e = (e, ok 1000)
  poll_to (some tip) e = if reached e.current_tip tip then (e, ok 1000) else execute_poll tip e

  -- The state behind a poll, and the time until the next one or what it throws.
  unfoldable pub poll : Emitter → Emitter × Result ℕ
  unfolding poll_to
  poll e = elim query.get_tip_block_number [ err thrown ↦ (e, err thrown) | ok tip ↦ poll_to tip e ]

  abbrev pub settle : Emitter × Result ℕ → Emitter
  settle (e, ok timeout) = schedule_loop e
  settle (e, err thrown) = stop e

  -- A timer that fires, with the poll that it begins up to its end.
  unfoldable pub loop : Emitter → Emitter
  unfolding poll schedule_loop stop
  loop e = if e.is_running then settle (poll e) else e

-- What the listeners in a process of the cluster are called with.
pub data Event : Type 0 where
  heads_event : List EthNewHead → Event
  logs_event : List Text → Event

unfoldable pub start_worker : Message → Event
start_worker (new_heads heads) = heads_event heads
start_worker (logs new_logs) = logs_event new_logs

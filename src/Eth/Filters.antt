-- ===== src/Eth/Filters.antt =====
-- The methods of the class `Eth` on filters. They use a filter manager, of which `FilterManager` is one,
-- and answer with the state of its store, since what is stored before a call throws stays stored.
use godwoken_web.Common.{
  ℕ, Bool, Option, none, some, List, [], ◌∷◌, map, Text, Result, ok, err, filter_missing, ◌>>=◌,
  ◌≡◌,
}
use godwoken_web.LogFilter.{Log}
use godwoken_web.Api.{EthLog}
use godwoken_web.Eth.{Query, get_tip_number}
use godwoken_web.Eth.Requests.{RpcFilterRequest, rpc_filter_request_to_get_logs_params, to_api_logs}

-- What is installed: one of the flags of `FilterFlag`, or a request of logs.
pub data Filter : Type 0 where
  block_filter pending_transaction : Filter
  log_filter : RpcFilterRequest → Filter

-- The operations of a filter manager on its store. The id of a new filter is an argument.
pub record Filters (Store : Type 0) : Type 0 where
  pub install : Filter → ℕ → Text → Store → Result Store
  pub get : Text → Store → Result (Option Filter)
  pub uninstall : Text → Store → Result (Bool × Store)
  pub get_last_poll : Text → Store → Result ℕ
  pub update_last_poll : Text → ℕ → Store → Result Store

-- Hashes of blocks, or logs.
pub data Changes : Type 0 where
  block_hashes : List Text → Changes
  api_logs : List EthLog → Changes

-- The number of the last block of a nonempty list, and the id of the last log.
abbrev pub last_number : Text × ℕ → List (Text × ℕ) → ℕ
last_number hn [] = hn.1
last_number hn (next ∷ hns) = last_number next hns

abbrev pub last_id : Log → List Log → ℕ
last_id log [] = log.id
last_id log (next ∷ logs) = last_id next logs

abbrev pub initial_log_id : Option Log → ℕ
initial_log_id none = 0
initial_log_id (some log) = log.id

module _ {Store : Type 0} (filters : Filters Store) where
  -- `if (….length !== 0) await this.filterManager.updateLastPoll(…)`
  unfoldable pub move_to_block : Text → List (Text × ℕ) → Store → Result Store
  move_to_block filter_id [] store = ok store
  move_to_block filter_id (hn ∷ hns) store =
      filters.update_last_poll filter_id (last_number hn hns) store

  unfoldable pub move_to_log : Text → List Log → Store → Result Store
  move_to_log filter_id [] store = ok store
  move_to_log filter_id (log ∷ logs) store =
      filters.update_last_poll filter_id (last_id log logs) store

module _ {Store : Type 0} (filters : Filters Store) (query : Query)
    (instant_finality_hack_mode : Bool) where
  unfoldable pub new_filter : RpcFilterRequest → Text → Store → Result Store
  new_filter filter filter_id store = do
    tip_log ← query.get_tip_log
    filters.install (log_filter filter) (initial_log_id tip_log) filter_id store

  unfoldable pub new_block_filter : Text → Store → Result Store
  unfolding get_tip_number
  new_block_filter filter_id store = do
    tip_block_num ← get_tip_number query
    filters.install block_filter tip_block_num filter_id store

  unfoldable pub new_pending_transaction_filter : Text → Store → Result Store
  unfolding get_tip_number
  new_pending_transaction_filter filter_id store = do
    tip_block_num ← get_tip_number query
    filters.install pending_transaction tip_block_num filter_id store

  unfoldable pub uninstall_filter : Text → Store → Result (Bool × Store)
  uninstall_filter filter_id store = filters.uninstall filter_id store

  -- The logs are turned into those of the API behind the update.
  abbrev pub api_changes : Result (List EthLog) → Result Changes
  api_changes (err thrown) = err thrown
  api_changes (ok logs) = ok (api_logs logs)

  unfoldable pub poll_filter : Text → Filter → Store → Result (Store × Result Changes)
  unfolding move_to_block move_to_log rpc_filter_request_to_get_logs_params to_api_logs
  poll_filter filter_id block_filter store = do
    last_poll_block_number ← filters.get_last_poll filter_id store
    found ← query.get_block_hashes_and_numbers_after_block_number last_poll_block_number
    moved ← move_to_block filters filter_id found store
    ok (moved, ok (block_hashes (map (λ hn. hn.0) found)))
  poll_filter filter_id pending_transaction store = ok (store, ok (block_hashes []))
  poll_filter filter_id (log_filter filter) store = do
    last_poll_log_id ← filters.get_last_poll filter_id store
    params ← rpc_filter_request_to_get_logs_params query instant_finality_hack_mode filter
    logs ← query.get_logs_by_filter params (some last_poll_log_id)
    moved ← move_to_log filters filter_id logs store
    ok (moved, api_changes (to_api_logs logs))

  -- What throws before the store is changed leaves it as it is.
  abbrev pub or_unchanged : Store → Result (Store × Result Changes) → Store × Result Changes
  or_unchanged store (ok answer) = answer
  or_unchanged store (err thrown) = (store, err thrown)

  unfoldable pub changes_of : Text → Store → Result (Option Filter) → Store × Result Changes
  unfolding poll_filter
  changes_of filter_id store (err thrown) = (store, err thrown)
  changes_of filter_id store (ok none) = (store, err filter_missing)
  changes_of filter_id store (ok (some filter)) =
      or_unchanged store (poll_filter filter_id filter store)

  unfoldable pub get_filter_changes : Text → Store → Store × Result Changes
  unfolding changes_of
  get_filter_changes filter_id store = changes_of filter_id store (filters.get filter_id store)

  unfoldable pub logs_of_filter : Text → Store → Result (Option Filter) → Store × Result Changes
  unfolding get_filter_changes
  logs_of_filter filter_id store (err thrown) = (store, err thrown)
  logs_of_filter filter_id store (ok none) = (store, err filter_missing)
  logs_of_filter filter_id store (ok (some block_filter)) = (store, ok (block_hashes []))
  logs_of_filter filter_id store (ok (some pending_transaction)) = (store, ok (block_hashes []))
  logs_of_filter filter_id store (ok (some (log_filter filter))) =
      get_filter_changes filter_id store

  unfoldable pub get_filter_logs : Text → Store → Store × Result Changes
  unfolding logs_of_filter
  get_filter_logs filter_id store = logs_of_filter filter_id store (filters.get filter_id store)

-- What the methods rely on: a state of the store in which an id has a filter that was polled up to a place.
pub record Laws {Store : Type 0} (filters : Filters Store) : Type 1 where
  pub Holds : Text → Filter → ℕ → Store → Type 0
  pub get_law :
      (id : Text) (filter : Filter) (place : ℕ) (store : Store)
      → Holds id filter place store
      → filters.get id store ≡ ok (some filter)
  pub get_last_poll_law :
      (id : Text) (filter : Filter) (place : ℕ) (store : Store)
      → Holds id filter place store
      → filters.get_last_poll id store ≡ ok place
  pub update_law :
      (id : Text) (filter : Filter) (place next : ℕ) (store : Store)
      → Holds id filter place store
      → (moved : Store) × (filters.update_last_poll id next store ≡ ok moved)
        × Holds id filter next moved

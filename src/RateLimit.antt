-- ===== src/RateLimit.antt =====
-- The class `AccessGuard` of packages/api-server/src/cache/guard.ts and its callers in
-- packages/api-server/src/rate-limit.ts. The calls of the store stand in their order, one request
-- behind the other.
pub mod Window
pub mod Isolation
use godwoken_web.Common.{
  ℕ, ◌/◌, ◌≡◌, Bool, true, false, ◌||◌, Option, none, some, List, [], ◌∷◌, ◌++◌, map, ltb, Text,
  codes, text_eq, if◌then◌else◌,
}
use godwoken_web.Cache.{
  Redis, Stored, count, text, Ttl, no_key, no_expiry, seconds, Store, insert, get, incr, ttl,
}

unfoldable pub get_id : Text → Text → Text
get_id rpc_method req_unique_id = codes "access." ++ (rpc_method ++ (codes "." ++ req_unique_id))

-- The configuration: the limit of each method that has one, and the length of the window, which is a
-- whole number of seconds.
pub record Limits : Type 0 where
  pub rpc_methods : Text → Option ℕ
  pub expired_time_milsecs : ℕ

abbrev pub is_stored : Option Stored → Bool
is_stored none = false
is_stored (some v) = true

-- `(+data) > max`; the text of no number is NaN.
abbrev pub exceeds : Option Stored → Option ℕ → Bool
exceeds none limit = false
exceeds (some v) none = false
exceeds (some (count n)) (some max) = ltb max n
exceeds (some (text s)) (some max) = false

-- `(await this.store.get(id)) || "0"`
abbrev pub or_zero : Option Stored → Stored
or_zero none = count 0
or_zero (some (text [])) = count 0
or_zero (some (text (c ∷ s))) = text (c ∷ s)
or_zero (some (count n)) = count n

module _ (redis : Redis) (limits : Limits) where
  unfoldable pub is_exist : Text → Text → Store redis → Bool
  is_exist rpc_method req_id store = is_stored (get redis (get_id rpc_method req_id) store)

  unfoldable pub add : Text → Text → Store redis → Store redis
  unfolding is_exist
  add rpc_method req_id store =
      if is_exist rpc_method req_id store
      then store
      else insert redis (get_id rpc_method req_id) (count 0) none store

  unfoldable pub update_count : Text → Text → Store redis → Store redis
  unfolding is_exist
  update_count rpc_method req_id store =
      if is_exist rpc_method req_id store
      then incr redis (get_id rpc_method req_id) store
      else store

  unfoldable pub is_over_rate : Text → Text → Store redis → Bool
  is_over_rate rpc_method req_id store =
      exceeds (get redis (get_id rpc_method req_id) store) (limits.rpc_methods rpc_method)

  abbrev pub reset_ttl : Ttl → Text → Store redis → Store redis
  reset_ttl no_expiry id store =
      insert redis id (or_zero (get redis id store)) (some (limits.expired_time_milsecs / 1000))
        store
  reset_ttl no_key id store = store
  reset_ttl (seconds n) id store = store

  -- The answer, and the store behind the call.
  unfoldable pub get_key_ttl : Text → Text → Store redis → Ttl × Store redis
  get_key_ttl rpc_method req_id store =
      let id = get_id rpc_method req_id in
      let reset = reset_ttl (ttl redis id store) id store in (ttl redis id reset, reset)

  -- Whether the request is refused, and the store behind it.
  unfoldable pub ws_rate_limit : Text → Text → Store redis → Bool × Store redis
  unfolding is_exist add is_over_rate get_key_ttl update_count
  ws_rate_limit rpc_method req_id store =
      let added = if is_exist rpc_method req_id store then store else add rpc_method req_id store in
      if is_over_rate rpc_method req_id added
      then (true, (get_key_ttl rpc_method req_id added).1)
      else (false, update_count rpc_method req_id added)

-- The methods of a request's body: one call, or a batch.
pub data Body : Type 0 where
  single : Text → Body
  batch : List Text → Body

unfoldable pub includes : List Text → Text → Bool
unfolding text_eq
includes [] name = false
includes (m ∷ ms) name = text_eq m name || includes ms name

unfoldable pub has_method : Body → Text → Bool
unfolding text_eq includes
has_method (single method) name = text_eq method name
has_method (batch methods) name = includes methods name

module _ (redis : Redis) (limits : Limits) where
  -- Its steps on the guard are those of `wsRateLimit`; the response is not modelled.
  unfoldable pub rate_limit : Body → Text → Option Text → Store redis → Bool × Store redis
  unfolding has_method ws_rate_limit
  rate_limit body rpc_method none store = (false, store)
  rate_limit body rpc_method (some req_id) store =
      if has_method body rpc_method
      then ws_rate_limit redis limits rpc_method req_id store
      else (false, store)

  -- The loop over the configured methods, up to the first that is refused. The answer says whether
  -- `next` is called.
  unfoldable pub apply_rate_limit_by_ip :
      List Text → Body → Option Text → Store redis → Bool × Store redis
  unfolding rate_limit
  apply_rate_limit_by_ip [] body ip store = (true, store)
  apply_rate_limit_by_ip (method ∷ methods) body ip store =
      let (is_ban, limited) = rate_limit body method ip store in
      let rest = apply_rate_limit_by_ip methods body ip limited in
      if is_ban then (false, limited) else rest

  unfoldable pub ws_apply_rate_limit_by_ip :
      List Text → Text → Option Text → Store redis → Bool × Store redis
  unfolding includes ws_rate_limit
  ws_apply_rate_limit_by_ip methods method none store = (false, store)
  ws_apply_rate_limit_by_ip methods method (some ip) store =
      if includes methods method then ws_rate_limit redis limits method ip store else (false, store)

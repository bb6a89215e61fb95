-- ===== src/Cache.antt =====
-- The class `Store` of packages/api-server/src/cache/store.ts, over a Redis client, and the class
-- `TxHashMapping` of tx-hash.ts there with the two lookups that fall back on the database.
pub mod Laws
pub mod Expiry
pub mod Mapping
use godwoken_web.Common.{
  ℕ, zero, suc, ◌*◌, ◌+◌, Bool, true, false, Option, none, some, List, [], ◌∷◌, ◌++◌, Text, codes,
  Result, ok,
}

-- What a key holds. The decimal text of a number, which is how Redis keeps one, stands as the number.
pub data Stored : Type 0 where
  count : ℕ → Stored
  text : Text → Stored

-- What the command TTL answers: -2, -1 or the seconds that are left.
pub data Ttl : Type 0 where
  no_key no_expiry : Ttl
  seconds : ℕ → Ttl

-- The commands of the Redis client that the store sends. `set` takes the option PX.
pub record Redis : Type 1 where
  pub Db : Type 0
  pub get : Db → Text → Option Stored
  pub set : Db → Text → Stored → Option ℕ → Db
  pub unlink : Db → Text → Db
  pub incr : Db → Text → Db
  pub ttl : Db → Text → Ttl

-- A store: the PX of its `setOptions`, an object that its calls share and change, and the database.
pub record Store (redis : Redis) : Type 0 where
  pub px : Option ℕ
  pub db : redis.Db

abbrev pub cache_expired_time_milsecs : ℕ
cache_expired_time_milsecs = 5 * 60 * 1000

-- `a || b`, for a number that may be undefined: 0 and undefined are falsy.
abbrev pub or_else : Option ℕ → Option ℕ → Option ℕ
or_else none b = b
or_else (some zero) b = b
or_else (some (suc n)) b = some (suc n)

module _ (redis : Redis) where
  -- The constructor.
  unfoldable pub new_store : Bool → Option ℕ → redis.Db → Store redis
  new_store true milsecs db = record {
    px = or_else milsecs (some cache_expired_time_milsecs);
    db = db;
  }
  new_store false milsecs db = record { px = none; db = db }

  unfoldable pub insert : Text → Stored → Option ℕ → Store redis → Store redis
  insert key value expired_time_milsecs store =
      let px = or_else (or_else expired_time_milsecs store.px) store.px in
      record { px = px; db = redis.set store.db key value px }

  unfoldable pub delete : Text → Store redis → Store redis
  delete key store = record { px = store.px; db = redis.unlink store.db key }

  unfoldable pub get : Text → Store redis → Option Stored
  get key store = redis.get store.db key

  unfoldable pub incr : Text → Store redis → Store redis
  incr key store = record { px = store.px; db = redis.incr store.db key }

  unfoldable pub ttl : Text → Store redis → Ttl
  ttl key store = redis.ttl store.db key

abbrev pub tx_hash_mapping_cache_expired_time_milsecs : ℕ
tx_hash_mapping_cache_expired_time_milsecs = 2 * 60 * 60 * 1000

unfoldable pub eth_tx_hash_cache_key : Text → Text
eth_tx_hash_cache_key eth_tx_hash = codes "TxHashMapping:eth:" ++ eth_tx_hash

unfoldable pub gw_tx_hash_cache_key : Text → Text
gw_tx_hash_cache_key gw_tx_hash = codes "TxHashMapping:gw:" ++ gw_tx_hash

abbrev pub text_stored : Option Stored → Option Text
text_stored none = none
text_stored (some (text s)) = some s
text_stored (some (count n)) = none

module _ (redis : Redis) where
  unfoldable pub save : Text → Text → Store redis → Store redis
  save eth_tx_hash gw_tx_hash store =
      let expiry = some tx_hash_mapping_cache_expired_time_milsecs in
      let saved = insert redis (eth_tx_hash_cache_key eth_tx_hash) (text gw_tx_hash) expiry store in
      insert redis (gw_tx_hash_cache_key gw_tx_hash) (text eth_tx_hash) expiry saved

  -- A hash is never the text of a decimal number, since it begins with 0x.
  unfoldable pub get_eth_tx_hash : Text → Store redis → Option Text
  get_eth_tx_hash gw_tx_hash store = text_stored (get redis (gw_tx_hash_cache_key gw_tx_hash) store)

  unfoldable pub get_gw_tx_hash : Text → Store redis → Option Text
  get_gw_tx_hash eth_tx_hash store =
      text_stored (get redis (eth_tx_hash_cache_key eth_tx_hash) store)

  -- `undefined` from the database and `null` from the cache are both `none`.
  abbrev pub or_query : Option Text → Result (Option Text) → Result (Option Text)
  or_query none queried = queried
  or_query (some hash) queried = ok (some hash)

  -- `query` is what the database would answer; it may throw, and is asked where the cache has nothing.
  unfoldable pub gw_tx_hash_to_eth_tx_hash :
      Text → (Text → Result (Option Text)) → Store redis → Result (Option Text)
  gw_tx_hash_to_eth_tx_hash gw_tx_hash query store =
      or_query (get_eth_tx_hash gw_tx_hash store) (query gw_tx_hash)

  unfoldable pub eth_tx_hash_to_gw_tx_hash :
      Text → (Text → Result (Option Text)) → Store redis → Result (Option Text)
  eth_tx_hash_to_gw_tx_hash eth_tx_hash query store =
      or_query (get_gw_tx_hash eth_tx_hash store) (query eth_tx_hash)

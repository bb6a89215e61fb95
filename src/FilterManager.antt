-- ===== src/FilterManager.antt =====
-- The class `FilterManager` of packages/api-server/src/cache/index.ts: filters that are installed in the
-- store under an id, with the place up to which they were polled. The id is an argument, since the
-- code takes it from a source of randomness, and `JSON.stringify` and `JSON.parse` are parameters.
pub mod Lifecycle
use godwoken_web.Common.{
  ℕ, Bool, true, false, ◌||◌, Option, none, some, List, [], ◌∷◌, leb, ◌==◌, if◌then◌else◌, length,
  Text, codes, Result, ok, err, guard, type_error, filter_flag, filter_limit, filter_missing,
  json_syntax, ◌>>=◌, ◌>>◌,
}
use godwoken_web.Hex.{big_int, to_hex_number}
use godwoken_web.Json.{Value, undefined, null, bool, num, str, arr, obj, items}
use godwoken_web.Validator.{Verdict, accepted, refused, thrown}
use godwoken_web.Validator.Objects.{field, verify_new_filter_obj}
use godwoken_web.Cache.{Redis, Stored, text, count, Store}
use godwoken_web.Cache

abbrev pub max_filter_topic_array_length : ℕ
max_filter_topic_array_length = 20

unfoldable pub verify_filter_flag : ℕ → Result (Unit {0})
verify_filter_flag target = guard (target == 1 || target == 2) filter_flag

-- The loop over the topics, of which those that are arrays are measured.
unfoldable pub limit_each : List Value → Result (Unit {0})
limit_each [] = ok tt
limit_each (arr vs ∷ topics) =
    guard (leb (length (items vs)) max_filter_topic_array_length) filter_limit >> limit_each topics
limit_each (undefined ∷ topics) = limit_each topics
limit_each (null ∷ topics) = limit_each topics
limit_each (bool b ∷ topics) = limit_each topics
limit_each (num n ∷ topics) = limit_each topics
limit_each (str s ∷ topics) = limit_each topics
limit_each (obj fs ∷ topics) = limit_each topics

-- A text has a length, and its characters are no arrays; the loop over a boolean, a number or an object
-- throws.
unfoldable pub verify_limit_size_for_topics : Value → Result (Unit {0})
unfolding limit_each
verify_limit_size_for_topics undefined = ok tt
verify_limit_size_for_topics null = ok tt
verify_limit_size_for_topics (arr vs) =
    guard (leb (length (items vs)) max_filter_topic_array_length) filter_limit
    >> limit_each (items vs)
verify_limit_size_for_topics (str s) =
    guard (leb (length s) max_filter_topic_array_length) filter_limit
verify_limit_size_for_topics (bool b) = err type_error
verify_limit_size_for_topics (num n) = err type_error
verify_limit_size_for_topics (obj fs) = err type_error

-- The error that the validator returns is dropped; only what it throws is passed on.
abbrev pub unless_thrown : Verdict → Result (Unit {0})
unless_thrown accepted = ok tt
unless_thrown refused = ok tt
unless_thrown thrown = err type_error

abbrev pub verify_filter_object : Value → Result (Unit {0})
verify_filter_object target = unless_thrown (verify_new_filter_obj target)

unfoldable pub verify_filter_type : Value → Result (Unit {0})
unfolding verify_filter_flag verify_limit_size_for_topics
verify_filter_type (num n) = verify_filter_flag n
verify_filter_type undefined = err type_error
verify_filter_type null = err type_error
verify_filter_type (bool b) = ok tt
verify_filter_type (str s) = ok tt
verify_filter_type (arr vs) = verify_filter_object (arr vs)
verify_filter_type (obj fs) =
    verify_filter_object (obj fs) >> verify_limit_size_for_topics (field (codes "topics") (obj fs))

pub record FilterCache : Type 0 where
  pub filter : Value
  pub last_poll : ℕ

-- What is kept as JSON.
pub record FilterCacheInDb : Type 0 where
  pub filter : Value
  pub last_poll : Text

-- `if (!filter)`
abbrev pub is_truthy : Value → Bool
is_truthy undefined = false
is_truthy null = false
is_truthy (bool b) = b
is_truthy (num ℕ.zero) = false
is_truthy (num (ℕ.suc n)) = true
is_truthy (str []) = false
is_truthy (str (c ∷ s)) = true
is_truthy (arr vs) = true
is_truthy (obj fs) = true

module _ (redis : Redis) (stringify : FilterCacheInDb → Text)
    (parse : Text → Result FilterCacheInDb) where
  unfoldable pub serialize_filter_cache : FilterCache → Text
  serialize_filter_cache data_to_keep =
      stringify
        (record { filter = data_to_keep.filter; last_poll = to_hex_number data_to_keep.last_poll })

  unfoldable pub deserialize_filter_cache : Text → Result FilterCache
  unfolding verify_filter_type
  deserialize_filter_cache kept = do
    in_db ← parse kept
    last_poll ← big_int in_db.last_poll
    verify_filter_type in_db.filter
    ok (record { filter = in_db.filter; last_poll = last_poll })

  unfoldable pub install : Value → ℕ → Text → Store redis → Result (Store redis)
  unfolding verify_filter_type serialize_filter_cache
  install filter initial_poll_idx id store = do
    verify_filter_type filter
    let filter_cache : FilterCache = record { filter = filter; last_poll = initial_poll_idx }
    ok (Cache.insert redis id (text (serialize_filter_cache filter_cache)) none store)

  -- A count is the text of a number, which is no filter.
  abbrev pub filter_in : Option Stored → Result (Option Value)
  filter_in none = ok none
  filter_in (some (text kept)) = do cache ← deserialize_filter_cache kept; ok (some cache.filter)
  filter_in (some (count n)) = err json_syntax

  unfoldable pub get : Text → Store redis → Result (Option Value)
  get id store = filter_in (Cache.get redis id store)

  abbrev pub uninstall_found : Text → Store redis → Option Value → Bool × Store redis
  uninstall_found id store none = (false, store)
  uninstall_found id store (some filter) =
      if is_truthy filter then (true, Cache.delete redis id store) else (false, store)

  unfoldable pub uninstall : Text → Store redis → Result (Bool × Store redis)
  unfolding get
  uninstall id store = do filter ← get id store; ok (uninstall_found id store filter)

  abbrev pub cache_in : Option Stored → Result FilterCache
  cache_in none = err filter_missing
  cache_in (some (text kept)) = deserialize_filter_cache kept
  cache_in (some (count n)) = err json_syntax

  unfoldable pub get_filter_cache : Text → Store redis → Result FilterCache
  get_filter_cache id store = cache_in (Cache.get redis id store)

  unfoldable pub update_last_poll : Text → ℕ → Store redis → Result (Store redis)
  unfolding get_filter_cache serialize_filter_cache
  update_last_poll id last_poll store = do
    filter_cache ← get_filter_cache id store
    let updated : FilterCache = record { filter = filter_cache.filter; last_poll = last_poll }
    ok (Cache.insert redis id (text (serialize_filter_cache updated)) none store)

  unfoldable pub get_last_poll : Text → Store redis → Result ℕ
  unfolding get_filter_cache
  get_last_poll id store = do filter_cache ← get_filter_cache id store; ok filter_cache.last_poll

-- ===== src/Validator/Objects.antt =====
-- The validators of objects: block parameters, call objects and filters.
use godwoken_web.Common.{Bool, true, false, not, ◌&&◌, ◌||◌, if◌then◌else◌, Text, codes, text_eq}
use godwoken_web.Json.{
  Value, undefined, null, bool, num, str, arr, obj, items, lookup, is_object, is_nullish,
  is_boolean,
}
use godwoken_web.Validator.{
  Verdict, accepted, refused, thrown, ◌>>>◌, demand, optional, text_of, is_text, verify_hex_number,
  verify_hex_string, verify_address, verify_block_hash, verify_filter_topic_string,
  verify_gas_limit, verify_each,
}

-- A property of a value that is an object and is not null; an array has none of those in use.
unfoldable pub field : Text → Value → Value
field key (obj fs) = lookup key fs
field key v = undefined

abbrev pub is_null : Value → Bool
is_null null = true
is_null undefined = false
is_null (bool b) = false
is_null (num n) = false
is_null (str s) = false
is_null (arr vs) = false
is_null (obj fs) = false

-- `typeof v !== "object"` is an error that is returned; null passes that test, and its first property
-- that is read throws.
abbrev pub demand_object : Value → Verdict
demand_object v = demand (is_object v) >>> (if is_null v then thrown else accepted)

unfoldable pub verify_block_specifier : Value → Verdict
verify_block_specifier v =
    let block_hash = field (codes "blockHash") v in
    let block_number = field (codes "blockNumber") v in
    let require_canonical = field (codes "requireCanonical") v in
    demand_object v
    >>> demand (not (is_nullish block_hash && is_nullish block_number))
    >>> demand (not (not (is_nullish block_hash) && not (is_nullish block_number)))
    >>> optional (λ c. demand (is_boolean c)) require_canonical
    >>> optional verify_hex_number block_number
    >>> optional verify_block_hash block_hash

abbrev pub is_tag : Value → Bool
is_tag v =
    is_text v
    && (text_eq (text_of v) (codes "latest")
        || (text_eq (text_of v) (codes "earliest") || text_eq (text_of v) (codes "pending")))

unfoldable pub verify_block_parameter : Value → Verdict
verify_block_parameter v =
    if is_tag v
    then accepted
    else if is_object v
    then verify_block_specifier v
    else verify_hex_number v

unfoldable pub verify_opt_eth_call_object : Value → Verdict
verify_opt_eth_call_object call_obj =
    demand_object call_obj
    >>> optional verify_address (field (codes "to") call_obj)
    >>> optional verify_address (field (codes "from") call_obj)
    >>> optional verify_hex_number (field (codes "gasPrice") call_obj)
    >>> optional verify_gas_limit (field (codes "gas") call_obj)
    >>> optional verify_hex_number (field (codes "value") call_obj)
    >>> optional verify_hex_string (field (codes "data") call_obj)

unfoldable pub verify_eth_call_object : Value → Verdict
verify_eth_call_object call_obj =
    verify_opt_eth_call_object call_obj >>> demand (not (is_nullish (field (codes "to") call_obj)))

unfoldable pub verify_estimate_gas_call_object : Value → Verdict
verify_estimate_gas_call_object call_obj = verify_opt_eth_call_object call_obj

unfoldable pub verify_filter_topic : Value → Verdict
verify_filter_topic (arr vs) = verify_each (optional verify_filter_topic_string) (items vs)
verify_filter_topic v = optional verify_filter_topic_string v

-- The `address` of a filter: one or an array.
unfoldable pub verify_filter_address : Value → Verdict
verify_filter_address (arr vs) = verify_each verify_address (items vs)
verify_filter_address v = verify_address v

unfoldable pub verify_filter_topics : Value → Verdict
verify_filter_topics (arr vs) = verify_each verify_filter_topic (items vs)
verify_filter_topics v = refused

unfoldable pub verify_new_filter_obj : Value → Verdict
verify_new_filter_obj filter_obj =
    demand_object filter_obj
    >>> optional verify_block_parameter (field (codes "fromBlock") filter_obj)
    >>> optional verify_block_parameter (field (codes "toBlock") filter_obj)
    >>> optional verify_filter_address (field (codes "address") filter_obj)
    >>> optional verify_filter_topics (field (codes "topics") filter_obj)

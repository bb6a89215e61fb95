-- ===== src/Tests/Filters.antt =====
-- The filter manager and the gas prices at concrete inputs, over a database in memory.
use godwoken_web.Common.{
  ℕ, ◌≡◌, refl, none, some, true, Text, codes, starts_with, text_eq, Result, ok,
}
use godwoken_web.Hex.{x_prefix}
use godwoken_web.Json.{Fields, obj, arr, str, prop, end, nil, lookup}
use godwoken_web.Validator.{refused, verify_each, verify_hex_string, verify_address}
use godwoken_web.Validator.Objects.{
  field, verify_new_filter_obj, verify_filter_topics, verify_filter_address,
}
use godwoken_web.Cache.{Store, text}
use godwoken_web.Cache
use godwoken_web.FilterManager.{
  FilterCacheInDb, verify_filter_type, verify_limit_size_for_topics, limit_each,
  serialize_filter_cache, install, get, get_last_poll, update_last_poll, uninstall,
}
use godwoken_web.FilterManager.Lifecycle.{install-lifecycle, install_unvalidated}
use godwoken_web.GasPrice.{Constants, save_gas_price}
use godwoken_web.Tests.Requests.{memory, memory_laws, empty}

abbrev topic_fields : Fields
topic_fields = prop (codes "topics") (arr nil) end

-- A stand-in for JSON that knows one filter.
abbrev stringify : FilterCacheInDb → Text
stringify kept = kept.last_poll

abbrev parse : Fields → Text → Result FilterCacheInDb
parse fs place = ok (record { filter = obj fs; last_poll = place })

topics_valid : verify_filter_type (obj topic_fields) ≡ ok tt
unfolding verify_filter_type verify_new_filter_obj field lookup verify_filter_topics verify_each
    verify_limit_size_for_topics limit_each text_eq
topics_valid = refl

install-lifecycle_example :
    (installed moved : Store memory) × (install memory stringify
        (parse topic_fields)
        (obj topic_fields)
        5
        (codes "0x01")
        empty
      ≡ ok installed)
    × (get memory stringify (parse topic_fields) (codes "0x01") installed
        ≡ ok (some (obj topic_fields)))
    × (get_last_poll memory stringify (parse topic_fields) (codes "0x01") installed ≡ ok 5)
    × (update_last_poll memory stringify (parse topic_fields) (codes "0x01") 9 installed ≡ ok moved)
    × (get memory stringify (parse topic_fields) (codes "0x01") moved
        ≡ ok (some (obj topic_fields)))
    × (get_last_poll memory stringify (parse topic_fields) (codes "0x01") moved ≡ ok 9)
    × (uninstall memory stringify (parse topic_fields) (codes "0x01") moved
        ≡ ok (true, Cache.delete memory (codes "0x01") moved))
    × (get memory stringify
          (parse topic_fields)
          (codes "0x01")
          (Cache.delete memory (codes "0x01") moved)
        ≡ ok none)
install-lifecycle_example =
    install-lifecycle memory stringify (parse topic_fields) memory_laws (obj topic_fields)
      (λ place. refl) topics_valid refl (codes "0x01") 5 9 empty

abbrev short_address : Fields
short_address = prop (codes "address") (str (codes "0x01")) end

short_refused : verify_new_filter_obj (obj short_address) ≡ refused
unfolding verify_new_filter_obj field lookup verify_filter_address verify_address verify_hex_string
    starts_with text_eq godwoken_web.Hex.validate_hex_string godwoken_web.Hex.hex_pairs
    godwoken_web.Hex.is_hex godwoken_web.Hex.hex_value
short_refused = refl

short_limited : verify_limit_size_for_topics (field (codes "topics") (obj short_address)) ≡ ok tt
unfolding verify_limit_size_for_topics field lookup text_eq
short_limited = refl

install_unvalidated_example :
    install memory stringify (parse short_address) (obj short_address) 5 (codes "0x01") empty
    ≡ ok (
        Cache.insert memory
          (codes "0x01")
          (text (
            serialize_filter_cache memory stringify
              (parse short_address)
              (record { filter = obj short_address; last_poll = 5 })))
          none
          empty)
install_unvalidated_example =
    install_unvalidated memory stringify (parse short_address) short_address (codes "0x01") 5 empty
      short_refused short_limited

abbrev constants : Constants
constants = record {
  gas_price_divider = 1000;
  min_gas_price_lower_limit = 10;
  min_gas_price_upper_limit = 40;
  block_congestion_gas_used = 500;
}

abbrev median : ℕ
median = 30

abbrev tip_gas : Result ℕ
tip_gas = ok 600

abbrev saved : Store memory
unfolding save_gas_price
saved = save_gas_price memory 1000 median empty

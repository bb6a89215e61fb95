-- ===== src/Tests/Requests.antt =====
-- The validators, the store and the rate limits at concrete inputs, over a database in memory.
use Prim.Native.Nat.{min}
use godwoken_web.Common.{
  range_error, err, ℕ, suc, ◌+◌, ◌≤◌, ◌≡◌, ◌≢◌, ◌↔◌, refl, ap, arith, false, Option, none, some,
  List, [], ◌∷◌, if◌then◌else◌, length, Text, codes, text_eq, text_eq_refl, text_eq_sound,
  Bool-cases, inl, inr, Result, ok,
}
use godwoken_web.Buffer.{Bytes}
use godwoken_web.Json.{Value, str, arr, obj, Fields, end, prop, nil, cons, lookup}
use godwoken_web.Validator.{
  accepted, thrown, verify_hex_string, verify_address, verify_block_hash, verify_tx_hash,
  verify_filter_topic_string, text_of,
}
use godwoken_web.Validator.Objects.{
  verify_new_filter_obj, verify_block_parameter, verify_eth_call_object, verify_opt_eth_call_object,
  field,
}
use godwoken_web.Validator.Texts.{IsHexText, texts_iff}
use godwoken_web.Validator.Accepts.{new_filter_iff, Optionally, IsFilterAddress, IsTopics, Passes}
use godwoken_web.Validator.Middleware.{middleware, AllAccept, middleware_iff}
use godwoken_web.Cache.{
  Redis, Stored, count, text, no_expiry, Store, insert, get, save, gw_tx_hash_to_eth_tx_hash,
  eth_tx_hash_to_gw_tx_hash,
}
use godwoken_web.Cache.Laws.{Laws}
use godwoken_web.Cache.Expiry.{insert_sticky}
use godwoken_web.Cache.Mapping.{lookup-save}
use godwoken_web.RateLimit.{Limits, get_id, single, apply_rate_limit_by_ip}
use godwoken_web.RateLimit.Window.{passed, passed_lem}
use godwoken_web.RateLimit.Isolation.{apply_rate_limit_by_ip_other}

abbrev call_text : Value
call_text = str (codes "0xAb")

texts_iff_example :
    ((verify_hex_string call_text ≡ accepted) ↔ ((buf : Bytes) × IsHexText buf call_text))
    × ((verify_address call_text ≡ accepted)
        ↔ ((buf : Bytes) × IsHexText buf call_text × (length buf ≡ 20)))
    × ((verify_block_hash call_text ≡ accepted)
        ↔ ((buf : Bytes) × IsHexText buf call_text × (length buf ≡ 32)))
    × ((verify_tx_hash call_text ≡ accepted)
        ↔ ((buf : Bytes) × IsHexText buf call_text × (length buf ≡ 32)))
    × ((verify_filter_topic_string call_text ≡ accepted)
        ↔ ((buf : Bytes) × IsHexText buf call_text × (length buf ≡ 32)))
texts_iff_example = texts_iff call_text

abbrev filter_fields : Fields
filter_fields = prop (codes "topics") (arr (cons (str (codes "0x01")) nil)) end

new_filter_iff_example : (verify_new_filter_obj (obj filter_fields) ≡ accepted) ↔ (
    Optionally (Passes verify_block_parameter) (lookup (codes "fromBlock") filter_fields)
    × Optionally (Passes verify_block_parameter) (lookup (codes "toBlock") filter_fields)
    × Optionally IsFilterAddress (lookup (codes "address") filter_fields)
    × Optionally IsTopics (lookup (codes "topics") filter_fields))
new_filter_iff_example = new_filter_iff filter_fields

abbrev first_param : List Value → Result Text
first_param [] = ok []
first_param (v ∷ vs) = ok (text_of v)

middleware_iff_example :
    (middleware first_param 1 (verify_hex_string ∷ []) (call_text ∷ []) ≡ ok (codes "0xAb")) ↔ (
      (1 ≤ length (call_text ∷ []))
      × AllAccept (verify_hex_string ∷ []) 0 (call_text ∷ [])
      × (first_param (call_text ∷ []) ≡ ok (codes "0xAb")))
middleware_iff_example =
    middleware_iff first_param 1 (verify_hex_string ∷ []) (call_text ∷ []) (codes "0xAb")

-- The null of JSON passes the test on the type, and a property of it is read.
null_runs :
    (verify_eth_call_object Value.null ≡ thrown) × (verify_new_filter_obj Value.null ≡ thrown)
unfolding verify_eth_call_object verify_new_filter_obj field verify_opt_eth_call_object
null_runs = (refl, refl)

abbrev bump : Option Stored → Option Stored
bump none = some (count 1)
bump (some (count n)) = some (count (n + 1))
bump (some (text s)) = some (text s)

-- A database in memory in which nothing ever expires.
abbrev pub memory : Redis
memory = record {
  Db = Text → Option Stored;
  get = λ db k. db k;
  set = λ db k v px. λ l. if text_eq k l then some v else db l;
  unlink = λ db k. λ l. if text_eq k l then none else db l;
  incr = λ db k. λ l. if text_eq k l then bump (db k) else db l;
  ttl = λ db k. no_expiry;
}

differ : (k l : Text) → k ≢ l → text_eq k l ≡ false
differ k l h = elim (Bool-cases (text_eq k l)) [
  | inl e ↦ absurd (h (text_eq_sound k l e))
  | inr e ↦ e
]

pub memory_laws : Laws memory
memory_laws = record {
  get_set_same = λ db k v px. rw (text_eq_refl k) refl;
  get_set_other = λ db k l v px h. rw (differ k l h) refl;
  get_unlink_same = λ db k. rw (text_eq_refl k) refl;
  get_incr_same = λ db k n h b. rw (text_eq_refl k, h) refl;
  get_incr_other = λ db k l h. rw (differ k l h) refl;
}

abbrev pub empty : Store memory
empty = record { px = some 60000; db = λ k. none }

abbrev limits : Limits
limits = record { rpc_methods = λ m. some 2; expired_time_milsecs = 60000 }

passed_lem_example :
    passed memory limits (codes "eth_call") (codes "10.0.0.1") 5 empty ≡ min 5 (2 + 1)
passed_lem_example =
    passed_lem memory limits (codes "eth_call") (codes "10.0.0.1") memory_laws 2 5 empty refl
      (omega arith) (unfold get in refl)

first_or_zero : Text → ℕ
first_or_zero [] = 0
first_or_zero (c ∷ s) = c

filter_apart : (m : Text) → get_id m (codes "10.0.0.1") ≢ codes "filter"
unfolding get_id first_or_zero
filter_apart m e = let h : b'a' ≡ b'f' = ap first_or_zero e in omega (arith, h)

apply_rate_limit_by_ip_other_example :
    get memory
      (codes "filter")
      (apply_rate_limit_by_ip memory limits
        (codes "eth_call" ∷ [])
        (single (codes "eth_call"))
        (some (codes "10.0.0.1"))
        empty).1
    ≡ get memory (codes "filter") empty
apply_rate_limit_by_ip_other_example =
    apply_rate_limit_by_ip_other memory limits memory_laws (codes "filter") (codes "eth_call" ∷ [])
      (single (codes "eth_call")) (codes "10.0.0.1") empty filter_apart

insert_sticky_example :
    (insert memory
      (codes "b")
      (count 2)
      none
      (insert memory (codes "a") (count 1) (some (suc 59)) empty)).db
    ≡ memory.set
        (memory.set empty.db (codes "a") (count 1) (some (suc 59)))
        (codes "b")
        (count 2)
        (some (suc 59))
insert_sticky_example = insert_sticky memory (codes "a") (codes "b") (count 1) (count 2) 59 empty

lookup-save_example :
    (gw_tx_hash_to_eth_tx_hash memory
        (codes "0x02")
        (λ h. err range_error)
        (save memory (codes "0x01") (codes "0x02") empty)
      ≡ ok (some (codes "0x01")))
    × (eth_tx_hash_to_gw_tx_hash memory
          (codes "0x01")
          (λ h. err range_error)
          (save memory (codes "0x01") (codes "0x02") empty)
        ≡ ok (some (codes "0x02")))
lookup-save_example =
    lookup-save memory (codes "0x01") (codes "0x02") (λ h. err range_error) empty memory_laws

-- ===== src/Tests/Calls.antt =====
-- Estimations of gas, and callers of the cache.
use godwoken_web.Common.{
  text_eq, ◌+◌, ◌⊎◌, [], ◌∷◌, ◌++◌, replicate, arith, ℕ, ◌≤◌, ◌≡◌, refl, none, some, codes, Text,
  ok,
}
use godwoken_web.Hex.{x_prefix, big_int, to_hex_number}
use godwoken_web.Address
use godwoken_web.Uint.Uint32
use godwoken_web.Buffer.{Bytes, of_le, to_hex, from_hex, write_uint_le}
use godwoken_web.Gas.{calc_intrinsic_gas}
use godwoken_web.Normalizer.{TransactionCallObject, NormalizedCall, normalize_estimate_gas_tx}
use godwoken_web.Eth.GwLogs.{LogItem, polyjuice_system, parse_system_log}
use godwoken_web.Eth.Calls.{estimated_gas}
use godwoken_web.Eth.Estimate.{system_item, parse-system_item, estimated_gas_lem}
use godwoken_web.Normalizer.Bounds.{Affordable, normalize_bounds}
use godwoken_web.DataCache.{
  System, looking, acquiring, executing, storing, publishing, releasing, subscribed, finished,
  value, Reach, begin, later, miss_first, miss, acquire, refuse, execute, store, publish_success,
  take_message, goto, set_lock, set_data, publish, success, initial,
}
use godwoken_web.DataCache.Exclusion.{critical_unique}
use godwoken_web.DataCache.Values.{returned_sound}
use godwoken_web.Tests.Transactions.{node, recipient}

-- The balance of 10 ^ 9 pays for the value of 10000 and for 99999 gas at the price of 10000.
abbrev estimation : TransactionCallObject
estimation = record {
  from = some recipient;
  to = some recipient;
  gas = none;
  gas_price = some (codes "0x2710");
  value = some (codes "0x2710");
  data_text = none;
}

abbrev call : NormalizedCall
call = record {
  value = codes "0x2710";
  data_text = x_prefix;
  to = recipient;
  from = recipient;
  gas = to_hex_number 99999;
  gas_price = codes "0x2710";
}

estimated : normalize_estimate_gas_tx node (ok none) estimation ≡ ok call
unfolding normalize_estimate_gas_tx big_int to_hex_number Address.make Address.serialize Uint32.make
    Uint32.to_little_endian write_uint_le calc_intrinsic_gas from_hex
estimated = refl

normalize_bounds_example :
    (n : ℕ) × (big_int call.gas ≡ ok n)
    × (calc_intrinsic_gas (some call.to) (some call.data_text) ≤ n)
    × Affordable node (ok none) call.from call.gas_price call.value n
normalize_bounds_example = normalize_bounds node (ok none) estimation call estimated

-- The caller 1 holds the lock, and the caller 2 waits.
abbrev Made : Text → Type 0
Made r = r ≡ codes "0x2a"

abbrev s1 : System
s1 = goto 1 acquiring (goto 1 looking initial)

abbrev s2 : System
s2 = goto 1 executing (set_lock (some 1) s1)

abbrev s3 : System
s3 = goto 2 subscribed (goto 2 acquiring (goto 2 looking s2))

waiting : Reach Made s3
waiting =
    later
      (later
        (later
          (later (later (later begin (miss_first 1 refl refl)) (miss 1 refl refl))
            (acquire 1 refl refl))
          (miss_first 2 refl refl))
        (miss 2 refl refl))
      (refuse 2 1 refl refl)

abbrev owner : ℕ
owner = 1

critical_unique_example : owner ≡ owner
critical_unique_example = critical_unique Made s3 waiting owner owner refl refl

-- The result reaches the caller 2 in a message.
abbrev s4 : System
s4 =
    goto 1 (publishing (codes "0x2a"))
      (set_data (some (codes "0x2a")) (goto 1 (storing (codes "0x2a")) s3))

abbrev s5 : System
s5 = goto 1 (releasing (value (codes "0x2a"))) (publish (success (codes "0x2a")) s4)

abbrev s6 : System
s6 = goto 2 (finished (value (codes "0x2a"))) s5

answered : Reach Made s6
unfolding publish
answered =
    later
      (later
        (later (later waiting (execute 1 (codes "0x2a") refl refl)) (store 1 (codes "0x2a") refl))
        (publish_success 1 (codes "0x2a") refl))
      (take_message 2 (success (codes "0x2a")) refl)

returned_sound_example : Made (codes "0x2a")
returned_sound_example = returned_sound Made s6 answered 2 (codes "0x2a") refl

-- A log of a transfer before the system log.
abbrev transfer_item : LogItem
transfer_item = record { account_id = codes "0x1"; service_flag = codes "0x0"; log_data = x_prefix }

abbrev front : Bytes
front = replicate 16 7

abbrev back : Bytes
back = replicate 4 7

abbrev system_log_item : LogItem
system_log_item = system_item (codes "0x4") 30000 50000 (front ++ back) 0

parse-system_item_example :
    parse_system_log system_log_item
    ≡ ok (polyjuice_system 30000 50000 (x_prefix ++ to_hex front) (of_le back))
parse-system_item_example =
    parse-system_item (codes "0x4") 30000 50000 front back 0 refl refl (ground arith) (omega arith)
      (omega arith)

estimated_gas_lem_example :
    (gas : ℕ) × (estimated_gas 100 call ((transfer_item ∷ []) ++ (system_log_item ∷ []))
      ≡ ok (to_hex_number gas))
    × (30000 + 100 ≤ gas)
    × (calc_intrinsic_gas (some call.to) (some call.data_text) ≤ gas)
    × ((gas ≡ 30000 + 100) ⊎ (gas ≡ calc_intrinsic_gas (some call.to) (some call.data_text)))
unfolding text_eq
estimated_gas_lem_example =
    estimated_gas_lem (codes "0x4") 30000 50000 front back 0 refl refl (ground arith) (omega arith)
      (omega arith) (transfer_item ∷ []) [] 100 call (refl, tt)

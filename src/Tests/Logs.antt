-- ===== src/Tests/Logs.antt =====
-- The logs of a receipt, the log filters and the gas at concrete inputs.
use godwoken_web.Common.{
  ℕ, ◌+◌, ◌-◌, ◌≡◌, ◌↔◌, refl, ap, arith, Bool, true, none, some, List, [], ◌∷◌, ◌++◌, map, leb,
  ◌==◌, if◌then◌else◌, length, get_elem?, replicate, codes, ok, err, user_log_size,
}
use godwoken_web.Hex.{x_prefix, hex_digit, to_hex_number}
use godwoken_web.Buffer.{Bytes, to_hex}
use godwoken_web.PolyjuiceLog.{parse_polyjuice_system_log, parse_polyjuice_user_log}
use godwoken_web.PolyjuiceLog.System.{system_log, parse-system_log}
use godwoken_web.PolyjuiceLog.User.{user_log, parse-user_log}
use godwoken_web.LogFilter.{
  Log, Clause, FilterTopic, topics_length_at_least, topic_is, topic_in, filter_logs_by_topics,
  keep_if, build_query_log_topics,
}
use godwoken_web.LogFilter.Topics.{Matches, matches, filter_by_topics_rule}
use godwoken_web.LogFilter.Query.{DbLog, Sql, format_log, entry_is, entry_in, selected}
use godwoken_web.LogFilter.Agreement.{BufferTopic, print, query-agrees}
use godwoken_web.Gas.{calc_intrinsic_gas, is_create}
use godwoken_web.Gas.Intrinsic.{data_cost, intrinsic_gas_sum}

abbrev created : Bytes
created = replicate 20 7

parse-system_log_example :
    parse_polyjuice_system_log (x_prefix ++ to_hex (system_log 21000 50000 created 1))
    ≡ ok (record {
      gas_used = to_hex_number 21000;
      cumulative_gas_used = to_hex_number 50000;
      created_address = x_prefix ++ to_hex created;
      status_code = to_hex_number 1;
    })
parse-system_log_example =
    parse-system_log 21000 50000 created 1 refl (omega arith) (omega arith) (omega arith)

-- A byte too many.
abbrev surplus : Bytes
surplus = 5 ∷ []

abbrev topic : Bytes
topic = replicate 32 9

parse-user_log_example :
    parse_polyjuice_user_log
      (x_prefix ++ to_hex (user_log created (1 ∷ 2 ∷ []) (topic ∷ []) ++ surplus))
    ≡ (if length surplus == 0
        then ok (record {
          address = x_prefix ++ to_hex created;
          log_data = x_prefix ++ to_hex (1 ∷ 2 ∷ []);
          topics = map (λ t. x_prefix ++ to_hex t) (topic ∷ []);
        })
        else err user_log_size)
parse-user_log_example =
    parse-user_log created (1 ∷ 2 ∷ []) (topic ∷ []) surplus refl (refl, tt) (omega arith)
      (omega arith)

abbrev row : DbLog
row = record {
  id = 1;
  transaction_id = 1;
  transaction_hash = [];
  eth_tx_hash = none;
  transaction_index = 0;
  block_number = 3;
  block_hash = [];
  address = created;
  log_data = [];
  log_index = 0;
  topics = (0xaa ∷ []) ∷ (0xbb ∷ []) ∷ [];
}

abbrev log : Log
log = format_log row

abbrev filter : List BufferTopic
filter = BufferTopic.anything ∷ BufferTopic.any_of ((0xcc ∷ []) ∷ (0xbb ∷ []) ∷ []) ∷ []

filter_runs :
    (filter_logs_by_topics (log ∷ []) (map print filter) ≡ log ∷ [])
    × (filter_logs_by_topics (log ∷ []) (FilterTopic.one (codes "0xbb") ∷ []) ≡ [])
unfolding filter_logs_by_topics format_log to_hex hex_digit
filter_runs = (refl, refl)

filter_by_topics_rule_example :
    (filter_logs_by_topics (log ∷ []) (map print filter)
      ≡ keep_if (λ l. matches (map print filter) l.topics) (log ∷ []))
    × ((l : Log)
        → (matches (map print filter) l.topics ≡ true) ↔ Matches (map print filter) l.topics)
filter_by_topics_rule_example = filter_by_topics_rule (log ∷ []) (map print filter)

-- A database that does what is documented.
evaluate : Clause → DbLog → Bool
evaluate (topics_length_at_least n) r = leb n (length r.topics)
evaluate (topic_is i b) r = entry_is b (get_elem? r.topics (i - 1))
evaluate (topic_in i bs) r = entry_in bs (get_elem? r.topics (i - 1))
evaluate c r = true

one_less : (i : ℕ) → i + 1 - 1 ≡ i
one_less i = omega arith

abbrev postgres : Sql
postgres = record {
  holds = evaluate;
  length_law = λ n r. unfold evaluate in refl;
  is_law = λ i b r. unfold evaluate in ap (λ j. entry_is b (get_elem? r.topics j)) (one_less i);
  in_law = λ i bs r. unfold evaluate in ap (λ j. entry_in bs (get_elem? r.topics j)) (one_less i);
}

query-agrees_example :
    (clauses : List Clause) × (build_query_log_topics (map print filter) ≡ ok clauses)
    × (map format_log (selected postgres clauses (row ∷ []))
        ≡ filter_logs_by_topics (map format_log (row ∷ [])) (map print filter))
query-agrees_example = query-agrees postgres (row ∷ []) filter (omega arith) (omega arith, tt)

intrinsic_gas_sum_example :
    calc_intrinsic_gas none (some (x_prefix ++ to_hex (0 ∷ 1 ∷ [])))
    ≡ (if is_create none then 53000 else 21000) + data_cost (0 ∷ 1 ∷ [])
intrinsic_gas_sum_example = intrinsic_gas_sum none (0 ∷ 1 ∷ []) (omega arith)

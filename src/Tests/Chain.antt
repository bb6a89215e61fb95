-- ===== src/Tests/Chain.antt =====
-- Runs of the worker, the emitter and the subscriptions.
use godwoken_web.Common.{
  Result, ltb, leb, le→leb, length, ap, if◌then◌else◌, ℕ, zero, suc, ◌-◌, ◌*◌, ◌≤◌, ◌≡◌, refl,
  arith, true, false, some, List, [], ◌∷◌, ◌++◌, codes, Text, ok, err, range_error, some_injective,
  ok_injective, ◌+◌, text_eq,
}
use godwoken_web.Hex.{to_hex_number}
use godwoken_web.LogFilter.{Log, includes}
use godwoken_web.Uint.Uint64
use godwoken_web.Uint.Uint128
use godwoken_web.Api.{Block, EthNewHead, to_api_new_head, default_logs_bloom}
use godwoken_web.Worker.{
  Worker, Step, Reach, start_forever, new_worker, loop, poll_rejected, with_timers, with_polls,
  started, later, fire, reject,
}
use godwoken_web.Worker.Loops.{IsLive, Reach-IsLive, Reach-recovers}
use godwoken_web.Emitter.{
  Message, new_heads, logs, Query, Emitter, Event, heads_event, start, next_of, reached,
}
use godwoken_web.Emitter
use godwoken_web.Emitter.Announce.{
  Shows, Few, Announced, loops, spread, heads_of, logs_of, heads_from, texts_from, loops-Announced,
}
use godwoken_web.Emitter.Progress.{loop-reaches}
use godwoken_web.Emitter.Restart.{start-stuck, restart-skips}
use godwoken_web.Subscriptions.{falsy, new_connection}
use godwoken_web.Subscriptions.Heads.{heads_to}
use godwoken_web.Subscriptions.Sessions.{
  Action, emitted, subscribe, unsubscribe, closed, run, due, run-due,
}

-- A worker whose first poll has failed.
abbrev begun : Worker
begun = loop (with_timers 0 (start_forever new_worker))

abbrev stopped : Worker
stopped = poll_rejected (with_polls 0 begun)

stopped-Reach : Reach stopped
unfolding start_forever loop poll_rejected
stopped-Reach = later (later started (fire 0 refl)) (reject 0 refl)

Reach-IsLive_example : IsLive stopped
Reach-IsLive_example = Reach-IsLive stopped stopped-Reach

stopped_is : stopped.is_running ≡ false
unfolding poll_rejected
stopped_is = refl

Reach-recovers_example :
    (u v : Worker) × Step stopped u
    × Step u v
    × (v.is_running ≡ true)
    × (v.timers ≡ 0)
    × (v.polls ≡ 1)
Reach-recovers_example = Reach-recovers stopped stopped-Reach stopped_is

-- A chain with one log in each block.
abbrev pub block : ℕ → Block
block n = record {
  number = n;
  hash = codes "0xaa";
  parent_hash = codes "0xbb";
  logs_bloom = codes "0x";
  gas_limit = 0;
  gas_used = 5;
  timestamp = n * 1000;
  miner = codes "0xcc";
  size = 1;
}

abbrev head : ℕ → EthNewHead
head n = record {
  number = to_hex_number n;
  hash = codes "0xaa";
  parent_hash = codes "0xbb";
  gas_limit = codes "0xbebc20";
  gas_used = codes "0x5";
  miner = codes "0xcc";
  logs_bloom = default_logs_bloom;
  timestamp = to_hex_number n;
}

abbrev pub log : ℕ → Log
log n = record {
  id = n;
  transaction_id = n;
  transaction_hash = codes "0x01";
  eth_tx_hash = some (codes "0x02");
  transaction_index = 0;
  block_number = n;
  block_hash = codes "0xaa";
  address = codes "0xcc";
  log_data = to_hex_number n;
  log_index = 0;
  topics = [];
}

abbrev logs_at : ℕ → List Log
logs_at n = log n ∷ []

abbrev stringify : Log → Text
stringify l = l.log_data

headed : (n : ℕ) → n ≤ 2 → to_api_new_head (block n) ≡ ok (head n)
unfolding to_api_new_head Uint64.make Uint128.make to_hex_number Uint64.to_hex Uint128.to_hex
headed zero h = refl
headed (suc zero) h = refl
headed (suc (suc zero)) h = refl
headed (suc (suc (suc n))) h = absurd (omega arith)

-- The database with that chain up to a tip, which returns at most three logs.
abbrev up_to : ℕ → ℕ → ℕ
up_to tip max = if ltb tip max then tip else max

abbrev at_most_three : List Log → Result (List Log)
at_most_three found = if leb (length found) 3 then ok found else err range_error

abbrev database : ℕ → Query
database tip = record {
  get_tip_block_number = ok (some tip);
  get_blocks_by_numbers =
      λ min max. ok (spread (λ n. block n ∷ []) (next_of min) (suc (up_to tip max) - next_of min));
  get_logs = λ from to. at_most_three (spread logs_at from (suc (up_to tip to) - from));
}

some_inj : (a b : ℕ) → ok (some a) ≡ ok (some b) → a ≡ b
some_inj a b h = some_injective (ok_injective h)

up_to_tip : (tip max : ℕ) → ok (some tip) ≡ ok (some max) → up_to tip max ≡ max
up_to_tip tip max h = let e = some_inj tip max h in ground (arith, e)

shows : (tip : ℕ) → tip ≤ 2 → Shows stringify block head logs_at 2 3 (database tip)
shows tip le = record {
  tip_law = λ t h. let e = some_inj tip t h in omega (arith, e, le);
  blocks_law = λ min max h. rw (up_to_tip tip max h) refl;
  logs_law = λ from to h few. rw (up_to_tip tip to h, le→leb _ _ few) refl;
}

length-spread : (a n : ℕ) → length (spread logs_at a n) ≡ n
length-spread a zero = refl
length-spread a (suc n) = ap suc (length-spread (suc a) n)

few : (tip : ℕ) → tip ≤ 2 → (e : Emitter) → Few stringify block head logs_at 2 3 (database tip) e
few tip le e t h =
    let k = some_inj tip t h in
    let n = next_of e.current_tip in omega (arith, k, le, length-spread n (suc t - n))

abbrev running : Emitter
running = (start (database 0) Emitter.new_emitter).0

loops-Announced_example :
    Announced stringify block head logs_at 2 running
      (loops stringify block head logs_at 2 (database 1 ∷ database 0 ∷ database 2 ∷ []) running)
loops-Announced_example =
    loops-Announced stringify block head logs_at 2 headed 3
      (database 1 ∷ database 0 ∷ database 2 ∷ [])
      (shows 1 (omega arith), (shows 0 (omega arith), (shows 2 (omega arith), tt))) running
      (
        few 1 (omega arith) running,
        (
          few 0 (omega arith) (Emitter.loop stringify (database 1) running),
          (
            few 2 (omega arith)
                (Emitter.loop stringify (database 0) (Emitter.loop stringify (database 1) running)),
            tt,
          ),
        ),
      )

running_is : running.is_running ≡ true
unfolding start
running_is = refl

loop-reaches_example :
    Announced stringify block head logs_at 2 running (Emitter.loop stringify (database 2) running)
    × (reached (Emitter.loop stringify (database 2) running).current_tip 2 ≡ true)
    × ((Emitter.loop stringify (database 2) running).is_running ≡ true)
    × ((Emitter.loop stringify (database 2) running).timers ≡ running.timers + 1)
loop-reaches_example =
    loop-reaches stringify block head logs_at 2 headed 3 (database 2) (shows 2 (omega arith)) 2 refl
      running (few 2 (omega arith) running) running_is

-- A database that does not answer.
abbrev broken : Query
broken = record {
  get_tip_block_number = err range_error;
  get_blocks_by_numbers = λ min max. err range_error;
  get_logs = λ from to. err range_error;
}

start-stuck_example :
    ((start broken Emitter.new_emitter).0.is_running ≡ true)
    × ((start broken Emitter.new_emitter).0.timers ≡ Emitter.new_emitter.timers)
    × ((later_query : Query)
        → Emitter.check later_query (start broken Emitter.new_emitter).0
          ≡ (start broken Emitter.new_emitter).0)
start-stuck_example = start-stuck broken range_error Emitter.new_emitter refl

abbrev halted : Emitter
halted = Emitter.stop running

halted_is : halted.is_running ≡ false
unfolding Emitter.stop
halted_is = refl

restart-skips_example :
    (let last =
        loops stringify block head logs_at 2
          (database 2 ∷ [])
          (Emitter.check (database 1) halted) in
      (2 ≤ next_of last.current_tip)
      × (heads_of last.sent
          ≡ heads_of halted.sent
            ++ heads_from stringify block head logs_at 2 2 (next_of last.current_tip - 2))
      × (logs_of last.sent
          ≡ logs_of halted.sent
            ++ texts_from stringify block head logs_at 2 2 (next_of last.current_tip - 2)))
restart-skips_example =
    restart-skips stringify block head logs_at 2 headed (database 1) 1 halted refl halted_is 3
      (database 2 ∷ []) (shows 2 (omega arith), tt)
      (few 2 (omega arith) (Emitter.check (database 1) halted), tt)

-- Two heads come while the id is subscribed, one before and one behind that.
abbrev life : List Action
life =
    emitted (heads_event (head 0 ∷ []))
    ∷ subscribe (codes "newHeads") falsy (codes "0x1")
    ∷ emitted (heads_event (head 1 ∷ head 2 ∷ []))
    ∷ unsubscribe (codes "0x1")
    ∷ emitted (heads_event (head 0 ∷ []))
    ∷ closed
    ∷ []

parse : Text → Log
parse t = log 0

run-due_example :
    heads_to (codes "0x1") (run parse (λ t. t) life new_connection).sent ≡ head 1 ∷ head 2 ∷ []
unfolding due heads_to includes text_eq
run-due_example = run-due parse (λ t. t) (codes "0x1") life new_connection tt

-- ===== src/Emitter/Progress.antt =====
-- How far a loop of the emitter gets.
use godwoken_web.Common.{
  ℕ, suc, ◌+◌, ◌-◌, ◌≤◌, true, false, Option, some, List, [], ◌∷◌, ◌≡◌, refl, map, arith, Text,
  Result, ok, err, if_intro, if_true, ◌∙◌, le→leb, length,
}
use godwoken_web.LogFilter.{Log}
use godwoken_web.Api.{Block, EthNewHead, to_api_new_head}
use godwoken_web.Emitter.{
  Query, Emitter, new_heads, notify, last_head, next_of, reached, notify_logs, announce_logs,
  after_heads, announce_heads, execute_poll, poll_to, poll, settle, loop, schedule_loop,
}
use godwoken_web.Emitter.Announce.{
  spread, Shows, Few, Announced, heads_from, count_lem, last_head-count, to_new_heads-spread,
  loop-Announced,
}

notify_logs_keeps :
    (ts : List Text) (e : Emitter)
    → ((notify_logs ts e).is_running ≡ e.is_running) × ((notify_logs ts e).timers ≡ e.timers)
unfolding notify_logs notify
notify_logs_keeps [] e = (refl, refl)
notify_logs_keeps (t ∷ ts) e = (refl, refl)

module _ (stringify : Log → Text) (block : ℕ → Block) (head : ℕ → EthNewHead)
    (logs_at : ℕ → List Log) (limit : ℕ) where
  -- A poll that resolves behind the tip.
  record Resolves (tip : ℕ) (e : Emitter) (p : Emitter × Result ℕ) : Type 0 where
    pub tip_reached : reached p.0.current_tip tip ≡ true
    pub running : p.0.is_running ≡ e.is_running
    pub timers : p.0.timers ≡ e.timers
    pub timeout : p.1 ≡ ok 1000

  module _ (headed : (n : ℕ) → n ≤ limit → to_api_new_head (block n) ≡ ok (head n))
      (max_query_number : ℕ) (query : Query)
      (shows : Shows stringify block head logs_at limit max_query_number query) where
    after_heads-Resolves :
        (min : Option ℕ) (tip : ℕ) (e : Emitter) (k : EthNewHead) (hs : List EthNewHead)
        → last_head hs ≡ some k
        → query.get_tip_block_number ≡ ok (some tip)
        → length (spread logs_at (next_of min) (suc tip - next_of min)) ≤ max_query_number
        → Resolves tip e
            (after_heads stringify query min tip (last_head hs) (notify (new_heads hs) e))
    unfolding after_heads announce_logs notify
    after_heads-Resolves min tip e k hs h t few =
        let n = next_of min in
        let le : tip ≤ tip = omega arith in
        let kept = notify_logs_keeps (map stringify (spread logs_at n (suc tip - n))) _ in
        rw (h, shows.logs_law n tip t few)
          (record {
            tip_reached = le→leb tip tip le;
            running = kept.0;
            timers = kept.1;
            timeout = refl;
          })

    execute-Resolves :
        (tip : ℕ) (e : Emitter)
        → tip ≤ limit
        → query.get_tip_block_number ≡ ok (some tip)
        → Few stringify block head logs_at limit max_query_number query e
        → reached e.current_tip tip ≡ false
        → Resolves tip e (execute_poll stringify query tip e)
    unfolding execute_poll announce_heads
    execute-Resolves tip e le t few h =
        let n = next_of e.current_tip in
        let c = count_lem e.current_tip tip h in
        let (k, last) = last_head-count head n (suc tip - n) (tip - n) c in
        rw
          (
            shows.blocks_law e.current_tip tip t,
            to_new_heads-spread stringify block head logs_at limit headed n (suc tip - n)
                (omega (arith, c)),
          )
          (after_heads-Resolves e.current_tip tip e k
            (heads_from stringify block head logs_at limit n (suc tip - n)) last t (few tip t))

    poll-Resolves :
        (tip : ℕ) (e : Emitter)
        → query.get_tip_block_number ≡ ok (some tip)
        → Few stringify block head logs_at limit max_query_number query e
        → Resolves tip e (poll stringify query e)
    unfolding poll poll_to
    poll-Resolves tip e t few = rw t (
        if_intro (Resolves tip e) (reached e.current_tip tip) (e, ok 1000)
          (execute_poll stringify query tip e)
          (λ h. record { tip_reached = h; running = refl; timers = refl; timeout = refl })
          (execute-Resolves tip e (shows.tip_law tip t) t few))

    Reaches : ℕ → Emitter → Emitter → Type 0
    Reaches tip e f =
        (reached f.current_tip tip ≡ true)
        × (f.is_running ≡ e.is_running)
        × (f.timers ≡ e.timers + 1)

    settle-Reaches :
        (tip : ℕ) (e f : Emitter) (r : Result ℕ)
        → r ≡ ok 1000
        → Resolves tip e (f, r)
        → Reaches tip e (settle stringify query (f, r))
    unfolding schedule_loop Reaches
    settle-Reaches tip e f (ok n) h p = (p.tip_reached, p.running, omega (arith, p.timers))
    settle-Reaches tip e f (err t) h p = cc

    -- For a chain whose blocks up to a limit have heads, and a database that shows it up to its tip, with
    -- no more logs behind the emitter's tip than a query may return: a loop of an emitter that runs announces the heads and logs that are missing up to the tip of the database, has reached it
    -- behind that, and has set the next timer.
    pub loop-reaches :
        (tip : ℕ)
        → query.get_tip_block_number ≡ ok (some tip)
        → (e : Emitter) → Few stringify block head logs_at limit max_query_number query e
        → e.is_running ≡ true
        → Announced stringify block head logs_at limit e (loop stringify query e)
          × (reached (loop stringify query e).current_tip tip ≡ true)
          × ((loop stringify query e).is_running ≡ true)
          × ((loop stringify query e).timers ≡ e.timers + 1)
    unfolding loop Reaches
    loop-reaches tip t e few running =
        let p = poll-Resolves tip e t few in
        let (a, b, c) =
          settle-Reaches tip e (poll stringify query e).0 (poll stringify query e).1 p.timeout p in
        let begun : loop stringify query e ≡ settle stringify query (poll stringify query e) =
          if_true e.is_running _ e running in
        (
          loop-Announced stringify block head logs_at limit headed max_query_number query shows e
              few,
          rw begun a,
          rw begun (b ∙ running),
          rw begun c,
        )

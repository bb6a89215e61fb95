-- ===== src/Emitter/Restart.antt =====
-- What is lost when the emitter stops and is started again.
use godwoken_web.Common.{
  ℕ, suc, if_intro, ◌-◌, ◌≤◌, true, false, some, List, ◌++◌, ◌≡◌, refl, Text, ok, err, Error, All,
}
use godwoken_web.LogFilter.{Log}
use godwoken_web.Api.{Block, EthNewHead, to_api_new_head}
use godwoken_web.Emitter.{Query, Emitter, start, next_of, check, schedule_loop, running_with}
use godwoken_web.Emitter.Announce.{
  Shows, AllFew, loops, loops-Announced, heads_of, logs_of, heads_from, texts_from,
}

-- When `start` cannot ask for the tip, the emitter says that it runs, but no timer is set, and no tick of
-- the interval starts it again.
pub start-stuck :
    (query : Query) (thrown : Error) (e : Emitter)
    → query.get_tip_block_number ≡ err thrown
    → ((start query e).0.is_running ≡ true)
      × ((start query e).0.timers ≡ e.timers)
      × ((later : Query) → check later (start query e).0 ≡ (start query e).0)
unfolding start check
start-stuck query thrown e h = rw h (refl, refl, λ later. refl)

check_lem :
    (query : Query) (tip : ℕ) (e : Emitter)
    → query.get_tip_block_number ≡ ok (some tip)
    → e.is_running ≡ false
    → check query e ≡ schedule_loop (running_with (some tip) e)
unfolding check start
check_lem query tip e t h =
    if_intro (λ x. x ≡ schedule_loop (running_with (some tip) e)) e.is_running e (start query e).0
      (λ k. absurd cc) (λ k. rw t refl)

-- For a chain whose blocks up to a limit have heads, and databases that show it up to their tips, where no
-- poll meets more logs than a query may return: an emitter that has stopped and that a tick starts at the tip
-- `tip` of its database announces from then on the heads and the logs behind that tip, and those
-- between its old tip and that one never.
pub restart-skips :
    (stringify : Log → Text) (block : ℕ → Block) (head : ℕ → EthNewHead) (logs_at : ℕ → List Log)
    (limit : ℕ)
    → ((n : ℕ) → n ≤ limit → to_api_new_head (block n) ≡ ok (head n))
    → (query : Query) (tip : ℕ) (e : Emitter) → query.get_tip_block_number ≡ ok (some tip)
    → e.is_running ≡ false
    → (max_query_number : ℕ) (queries : List Query)
    → All (Shows stringify block head logs_at limit max_query_number) queries
    → AllFew stringify block head logs_at limit max_query_number queries (check query e)
    → (let last = loops stringify block head logs_at limit queries (check query e) in
        (suc tip ≤ next_of last.current_tip)
        × (heads_of last.sent
            ≡ heads_of e.sent
              ++ heads_from stringify block head logs_at limit
                  (suc tip)
                  (next_of last.current_tip - suc tip))
        × (logs_of last.sent
            ≡ logs_of e.sent
              ++ texts_from stringify block head logs_at limit
                  (suc tip)
                  (next_of last.current_tip - suc tip)))
unfolding schedule_loop
restart-skips stringify block head logs_at limit headed query tip e t h most queries shows few =
    let started = schedule_loop (running_with (some tip) e) in
    let checked : check query e ≡ started = check_lem query tip e t h in
    let a =
      loops-Announced stringify block head logs_at limit headed most queries shows started
        (rw checked at few) in
    rw checked (a.forward, a.heads, a.texts)

-- ===== src/Eth/Polling.antt =====
-- What a client of a log filter gets from one poll after the other.
use godwoken_web.Common.{
  ℕ, ◌≤◌, ◌<◌, ltb, ◌≡◌, refl, ◌∙◌, ap, arith, Bool, true, false, some, List, [], ◌∷◌, ◌++◌, map,
  Text, Result, ok, All, All-append, lt→ltb, ltb-false,
}
use godwoken_web.LogFilter.{Log, keep_if}
use godwoken_web.Api.{EthLog}
use godwoken_web.Eth.{Query, FilterParams}
use godwoken_web.Eth.Requests.{RpcFilterRequest, rpc_filter_request_to_get_logs_params, to_api_logs}
use godwoken_web.Eth.Filters.{
  Filters, Laws, log_filter, Changes, api_logs, last_id, move_to_log, poll_filter, changes_of,
  get_filter_changes,
}

-- The logs of a table behind an id.
abbrev pub behind : ℕ → List Log → List Log
unfolding keep_if
behind place table = keep_if (λ log. ltb place log.id) table

-- The place of a filter that was given these logs.
abbrev pub moved_to : ℕ → List Log → ℕ
moved_to place [] = place
moved_to place (log ∷ logs) = last_id log logs

-- Logs with ids that are above a place and ascend.
abbrev pub Ascending : ℕ → List Log → Type 0
Ascending place [] = Unit
Ascending place (log ∷ logs) = (place < log.id) × Ascending log.id logs

behind_all :
    (place low : ℕ) (logs : List Log) → place ≤ low → Ascending low logs → behind place logs ≡ logs
unfolding keep_if
behind_all place low [] le h = refl
behind_all place low (log ∷ logs) le (above, h) =
    let t : ltb place log.id ≡ true = lt→ltb place log.id (omega arith) in
    rw t (ap (λ r. log ∷ r) (behind_all place log.id logs (omega arith) h))

behind_none :
    (place : ℕ) (table logs : List Log)
    → All (λ log. log.id ≤ place) table
    → behind place (table ++ logs) ≡ behind place logs
unfolding keep_if
behind_none place [] logs h = refl
behind_none place (log ∷ table) logs (le, h) =
    let t : ltb place log.id ≡ false = ltb-false place log.id le in
    rw t (behind_none place table logs h)

last_id_above : (log : Log) (logs : List Log) → Ascending log.id logs → log.id ≤ last_id log logs
last_id_above log [] h = omega arith
last_id_above log (next ∷ logs) (above, h) = omega (arith, last_id_above next logs h)

last_id-All :
    (log : Log) (logs : List Log)
    → Ascending log.id logs
    → All (λ l. l.id ≤ last_id log logs) (log ∷ logs)
last_id-All log [] h = (omega arith, tt)
last_id-All log (next ∷ logs) (above, h) =
    (omega (arith, last_id_above next logs h), last_id-All next logs h)

All-weaken :
    (low high : ℕ) (logs : List Log)
    → low ≤ high
    → All (λ l. l.id ≤ low) logs
    → All (λ l. l.id ≤ high) logs
All-weaken low high [] le h = tt
All-weaken low high (log ∷ logs) le (p, h) = (omega (arith, p, le), All-weaken low high logs le h)

-- Behind a poll, no log of the table is above the place of the filter.
moved_to-All :
    (place : ℕ) (table logs : List Log)
    → All (λ l. l.id ≤ place) table
    → Ascending place logs
    → All (λ l. l.id ≤ moved_to place logs) (table ++ logs)
moved_to-All place table [] h a = All-append _ table [] h tt
moved_to-All place table (log ∷ logs) h (above, a) =
    All-append (λ l. l.id ≤ last_id log logs) table (log ∷ logs)
      (All-weaken place (last_id log logs) table (omega (arith, last_id_above log logs a)) h)
      (last_id-All log logs a)

-- A poll: the database at its time, the logs that were added since the last one, and what the API
-- makes of them.
pub record Round : Type 0 where
  pub query : Query
  pub added : List Log
  pub answer : List EthLog

module _ (hack : Bool) (request : RpcFilterRequest) where
  -- With the database of the round, the request selects the logs behind an id from a table, and those
  -- that were added can be answered.
  pub record Answers (table : List Log) (round : Round) : Type 0 where
    pub params : FilterParams
    pub params_law : rpc_filter_request_to_get_logs_params round.query hack request ≡ ok params
    pub logs_law :
        (place : ℕ) → round.query.get_logs_by_filter params (some place) ≡ ok (behind place table)
    pub api_law : to_api_logs round.added ≡ ok round.answer

  -- The table grows by logs with ids above all that there were.
  abbrev pub Grows : ℕ → List Log → List Round → Type 0
  Grows place table [] = Unit
  Grows place table (round ∷ rounds) =
      Answers (table ++ round.added) round
      × Ascending place round.added
      × Grows (moved_to place round.added) (table ++ round.added) rounds

module _ {Store : Type 0} (filters : Filters Store) (hack : Bool) (id : Text) where
  abbrev pub polls : List Round → Store → List (Result Changes)
  polls [] store = []
  polls (round ∷ rounds) store =
      let polled = get_filter_changes filters round.query hack id store in
      polled.1 ∷ polls rounds polled.0

module _ {Store : Type 0} (filters : Filters Store) (laws : Laws filters) (hack : Bool) (id : Text)
    (request : RpcFilterRequest) where
  move_to_log-Holds :
      (place : ℕ) (logs : List Log) (store : Store)
      → laws.Holds id (log_filter request) place store
      → (moved : Store) × (move_to_log filters id logs store ≡ ok moved)
        × laws.Holds id (log_filter request) (moved_to place logs) moved
  unfolding move_to_log
  move_to_log-Holds place [] store h = (store, refl, h)
  move_to_log-Holds place (log ∷ logs) store h =
      laws.update_law id (log_filter request) place (last_id log logs) store h

  polled :
      (place : ℕ) (table : List Log) (round : Round) (store : Store)
      → laws.Holds id (log_filter request) place store
      → All (λ l. l.id ≤ place) table
      → Ascending place round.added
      → Answers hack request (table ++ round.added) round
      → (moved : Store) × (get_filter_changes filters round.query hack id store
          ≡ (moved, ok (api_logs round.answer)))
        × laws.Holds id (log_filter request) (moved_to place round.added) moved
  unfolding get_filter_changes changes_of poll_filter
  polled place table round store h low ascending answers =
      let new : behind place (table ++ round.added) ≡ round.added =
        behind_none place table round.added low
        ∙ behind_all place place round.added (omega arith) ascending in
      let (moved, at_moved, held) = move_to_log-Holds place round.added store h in
      (
        moved,
        rw
            (
              laws.get_law id _ place store h,
              laws.get_last_poll_law id _ place store h,
              answers.params_law,
              answers.logs_law place,
              new,
              at_moved,
              answers.api_law,
            )
            refl,
        held,
      )

  -- For a filter manager that keeps its laws, and a table that grows by logs with ids above all before:
  -- from a state in which the filter has been given the logs of the table, each poll
  -- answers exactly the logs that were added since the one before it, in order.
  pub polls-added :
      (place : ℕ) (table : List Log) (rounds : List Round) (store : Store)
      → laws.Holds id (log_filter request) place store
      → All (λ l. l.id ≤ place) table
      → Grows hack request place table rounds
      → polls filters hack id rounds store ≡ map (λ round. ok (api_logs round.answer)) rounds
  polls-added place table [] store h low grows = refl
  polls-added place table (round ∷ rounds) store h low (answers, ascending, grows) =
      let (moved, at, held) = polled place table round store h low ascending answers in
      rw at (
        ap (λ r. ok (api_logs round.answer) ∷ r)
          (polls-added (moved_to place round.added) (table ++ round.added) rounds moved held
            (moved_to-All place table round.added low ascending) grows))

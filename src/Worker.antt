-- ===== src/Worker.antt =====
-- The class `BaseWorker` of packages/api-server/src/base/worker.ts: a loop of timers and polls, and an
-- interval that starts the loop again when it has stopped. The times between the events are left out.
pub mod Loops
use godwoken_web.Common.{ℕ, suc, ◌+◌, Bool, true, false, if◌then◌else◌, ◌≡◌}

-- `timers` are the timeouts of the loop that have not fired, `polls` the promises of a poll that have not
-- settled, and `interval` says whether the interval of the liveness check is set.
pub record Worker : Type 0 where
  pub is_running : Bool
  pub timers : ℕ
  pub polls : ℕ
  pub interval : Bool

abbrev pub new_worker : Worker
new_worker = record { is_running = false; timers = 0; polls = 0; interval = false }

abbrev pub schedule_loop : Worker → Worker
schedule_loop w = record {
  is_running = w.is_running;
  timers = w.timers + 1;
  polls = w.polls;
  interval = w.interval;
}

unfoldable pub start : Worker → Worker
start w =
    schedule_loop
      (record { is_running = true; timers = w.timers; polls = w.polls; interval = w.interval })

unfoldable pub stop : Worker → Worker
stop w = record { is_running = false; timers = w.timers; polls = w.polls; interval = w.interval }

unfoldable pub start_forever : Worker → Worker
unfolding start
start_forever w =
    let started : Worker = start w in
    record {
      is_running = started.is_running;
      timers = started.timers;
      polls = started.polls;
      interval = true;
    }

unfoldable pub stop_forever : Worker → Worker
unfolding stop
stop_forever w =
    let stopped : Worker = stop w in
    record {
      is_running = stopped.is_running;
      timers = stopped.timers;
      polls = stopped.polls;
      interval = false;
    }

-- The callback of the interval.
unfoldable pub check : Worker → Worker
unfolding start
check w = if w.is_running then w else start w

-- The callback of a timer, which is no longer pending: a loop that runs begins a poll.
unfoldable pub loop : Worker → Worker
loop w =
    if w.is_running
    then record {
      is_running = w.is_running;
      timers = w.timers;
      polls = w.polls + 1;
      interval = w.interval;
    }
    else w

-- What the poll resolves to is the time until the next one.
unfoldable pub poll_resolved : Worker → Worker
poll_resolved w = schedule_loop w

unfoldable pub poll_rejected : Worker → Worker
unfolding stop
poll_rejected w = stop w

abbrev pub with_timers : ℕ → Worker → Worker
with_timers n w = record {
  is_running = w.is_running;
  timers = n;
  polls = w.polls;
  interval = w.interval;
}

abbrev pub with_polls : ℕ → Worker → Worker
with_polls n w = record {
  is_running = w.is_running;
  timers = w.timers;
  polls = n;
  interval = w.interval;
}

-- What the runtime does to a worker: the interval ticks, one of the timers fires, one of the polls settles.
pub data Step (w : Worker) : Worker → Type 0 where
  tick : w.interval ≡ true → Step w (check w)
  fire : (n : ℕ) → w.timers ≡ suc n → Step w (loop (with_timers n w))
  resolve : (n : ℕ) → w.polls ≡ suc n → Step w (poll_resolved (with_polls n w))
  reject : (n : ℕ) → w.polls ≡ suc n → Step w (poll_rejected (with_polls n w))

-- The states behind `startForever` of a new worker.
pub data Reach : Worker → Type 0 where
  started : Reach (start_forever new_worker)
  later : {w u : Worker} → Reach w → Step w u → Reach u

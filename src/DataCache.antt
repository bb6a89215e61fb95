-- ===== src/DataCache.antt =====
-- The class `RedisDataCache` of packages/api-server/src/cache/data.ts: callers, in any number of processes,
-- that share a value in Redis and a lock for the one that computes it. A caller is known by the value that
-- it writes into the lock; each step is one command of Redis or one settled promise of one caller.
pub mod Exclusion
pub mod Values
use godwoken_web.Common.{ℕ, Option, none, some, ◌==◌, if◌then◌else◌, ◌≡◌, ◌≢◌, Text}

-- What is published on the channel.
pub data Message : Type 0 where
  success : Text → Message
  failure : Message

-- How a computation ends: the value that is returned, or an error that is thrown.
pub data Outcome : Type 0 where
  value : Text → Outcome
  error : Outcome

-- Where a caller stands in `get`: before the first look at the value, at the top of the loop, before the
-- lock, in the call, before the write of its result, before the message, before the look at the lock and
-- before its deletion; or waiting for a message, holding one, asleep between two rounds; or at the end.
pub data Pc : Type 0 where
  entered looking acquiring executing : Pc
  storing publishing : Text → Pc
  failing : Pc
  releasing deleting : Outcome → Pc
  subscribed : Pc
  received : Message → Pc
  timed_out : Pc
  finished : Outcome → Pc

pub record System : Type 0 where
  pub data_key : Option Text
  pub lock : Option ℕ
  pub pc : ℕ → Pc

-- The caller `i` stands at `p`.
abbrev pub update : (ℕ → Pc) → ℕ → Pc → ℕ → Pc
update pc i p j = if j == i then p else pc j

abbrev pub goto : ℕ → Pc → System → System
goto i p s = record { data_key = s.data_key; lock = s.lock; pc = update s.pc i p }

abbrev pub set_lock : Option ℕ → System → System
set_lock lock s = record { data_key = s.data_key; lock = lock; pc = s.pc }

abbrev pub set_data : Option Text → System → System
set_data data_key s = record { data_key = data_key; lock = s.lock; pc = s.pc }

-- Every caller that is subscribed gets a message that is published.
abbrev pub receive : Message → Pc → Pc
receive message entered = entered
receive message looking = looking
receive message acquiring = acquiring
receive message executing = executing
receive message (storing r) = storing r
receive message (publishing r) = publishing r
receive message failing = failing
receive message (releasing o) = releasing o
receive message (deleting o) = deleting o
receive message subscribed = received message
receive message (received m) = received m
receive message timed_out = timed_out
receive message (finished o) = finished o

unfoldable pub publish : Message → System → System
publish message s = record {
  data_key = s.data_key;
  lock = s.lock;
  pc = λ j. receive message (s.pc j);
}

-- The outcome of `parseExecuteResult`.
abbrev pub outcome_of : Message → Outcome
outcome_of (success r) = value r
outcome_of failure = error

-- The steps of `get` with a lock that does not expire while it is held. `Made` are the texts that the call
-- may result in. The value may expire at any time.
pub data Step (Made : Text → Type 0) (s : System) : System → Type 0 where
  hit_first :
      (i : ℕ) (v : Text)
      → s.pc i ≡ entered
      → s.data_key ≡ some v
      → Step Made s (goto i (finished (value v)) s)
  miss_first : (i : ℕ) → s.pc i ≡ entered → s.data_key ≡ none → Step Made s (goto i looking s)
  hit :
      (i : ℕ) (v : Text)
      → s.pc i ≡ looking
      → s.data_key ≡ some v
      → Step Made s (goto i (finished (value v)) s)
  miss : (i : ℕ) → s.pc i ≡ looking → s.data_key ≡ none → Step Made s (goto i acquiring s)
  acquire :
      (i : ℕ)
      → s.pc i ≡ acquiring
      → s.lock ≡ none
      → Step Made s (goto i executing (set_lock (some i) s))
  refuse : (i j : ℕ) → s.pc i ≡ acquiring → s.lock ≡ some j → Step Made s (goto i subscribed s)
  execute : (i : ℕ) (r : Text) → s.pc i ≡ executing → Made r → Step Made s (goto i (storing r) s)
  fail : (i : ℕ) → s.pc i ≡ executing → Step Made s (goto i failing s)
  store :
      (i : ℕ) (r : Text)
      → s.pc i ≡ storing r
      → Step Made s (goto i (publishing r) (set_data (some r) s))
  publish_success :
      (i : ℕ) (r : Text)
      → s.pc i ≡ publishing r
      → Step Made s (goto i (releasing (value r)) (publish (success r) s))
  publish_failure :
      (i : ℕ) → s.pc i ≡ failing → Step Made s (goto i (releasing error) (publish failure s))
  -- An error of the connection to the node is not published.
  skip_failure : (i : ℕ) → s.pc i ≡ failing → Step Made s (goto i (releasing error) s)
  own :
      (i : ℕ) (o : Outcome)
      → s.pc i ≡ releasing o
      → s.lock ≡ some i
      → Step Made s (goto i (deleting o) s)
  not_own :
      (i : ℕ) (o : Outcome)
      → s.pc i ≡ releasing o
      → s.lock ≢ some i
      → Step Made s (goto i (finished o) s)
  delete_lock :
      (i : ℕ) (o : Outcome)
      → s.pc i ≡ deleting o
      → Step Made s (goto i (finished o) (set_lock none s))
  take_message :
      (i : ℕ) (m : Message) → s.pc i ≡ received m → Step Made s (goto i (finished (outcome_of m)) s)
  time_out : (i : ℕ) → s.pc i ≡ subscribed → Step Made s (goto i timed_out s)
  again : (i : ℕ) → s.pc i ≡ timed_out → Step Made s (goto i looking s)
  give_up : (i : ℕ) → s.pc i ≡ timed_out → Step Made s (goto i (finished error) s)
  expire_data : Step Made s (set_data none s)

-- The states behind one in which no caller has begun, no value is kept and no lock is held.
abbrev pub initial : System
initial = record { data_key = none; lock = none; pc = λ i. entered }

pub data Reach (Made : Text → Type 0) : System → Type 0 where
  begin : Reach Made initial
  later : {s t : System} → Reach Made s → Step Made s t → Reach Made t

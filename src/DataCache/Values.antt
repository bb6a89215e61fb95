-- ===== src/DataCache/Values.antt =====
-- What the callers of the cache return.
use godwoken_web.Common.{ℕ, Option, none, some, some_injective, ◌==◌, if_intro, ◌≡◌, Text}
use godwoken_web.DataCache.{
  Message, success, failure, Outcome, value, error, Pc, entered, looking, acquiring, executing,
  storing, publishing, failing, releasing, deleting, subscribed, received, timed_out, finished,
  System, goto, set_lock, set_data, receive, publish, outcome_of, Step, hit_first, miss_first, hit,
  miss, acquire, refuse, execute, fail, store, publish_success, publish_failure, skip_failure, own,
  not_own, delete_lock, take_message, time_out, again, give_up, expire_data, Reach, begin, later,
}

module _ (Made : Text → Type 0) where
  abbrev GoodOutcome : Outcome → Type 0
  GoodOutcome (value v) = Made v
  GoodOutcome error = Unit

  -- The values that a caller holds were made by a call.
  abbrev Good : Pc → Type 0
  Good entered = Unit
  Good looking = Unit
  Good acquiring = Unit
  Good executing = Unit
  Good (storing r) = Made r
  Good (publishing r) = Made r
  Good failing = Unit
  Good (releasing o) = GoodOutcome o
  Good (deleting o) = GoodOutcome o
  Good subscribed = Unit
  Good (received m) = GoodOutcome (outcome_of m)
  Good timed_out = Unit
  Good (finished o) = GoodOutcome o

  record Sourced (s : System) : Type 0 where
    pub kept_value : (v : Text) → s.data_key ≡ some v → Made v
    pub held_value : (i : ℕ) → Good (s.pc i)

  moved : (s : System) (i : ℕ) (p : Pc) → Good p → Sourced s → Sourced (goto i p s)
  moved s i p good h = record {
    kept_value = h.kept_value;
    held_value = λ j. if_intro Good (j == i) p (s.pc j) (λ _. good) (λ _. h.held_value j);
  }

  relocked : (l : Option ℕ) (s : System) → Sourced s → Sourced (set_lock l s)
  relocked l s h = record { kept_value = h.kept_value; held_value = h.held_value }

  stored : (r : Text) (s : System) → Made r → Sourced s → Sourced (set_data (some r) s)
  stored r s made h = record {
    kept_value = λ v e. let same : r ≡ v = some_injective e in rw⁻¹ same made;
    held_value = h.held_value;
  }

  receive-Good : (m : Message) → GoodOutcome (outcome_of m) → (p : Pc) → Good p → Good (receive m p)
  receive-Good m made entered good = tt
  receive-Good m made looking good = tt
  receive-Good m made acquiring good = tt
  receive-Good m made executing good = tt
  receive-Good m made (storing r) good = good
  receive-Good m made (publishing r) good = good
  receive-Good m made failing good = tt
  receive-Good m made (releasing o) good = good
  receive-Good m made (deleting o) good = good
  receive-Good m made subscribed good = made
  receive-Good m made (received n) good = good
  receive-Good m made timed_out good = tt
  receive-Good m made (finished o) good = good

  published :
      (m : Message) (s : System) → GoodOutcome (outcome_of m) → Sourced s → Sourced (publish m s)
  unfolding publish
  published m s made h = record {
    kept_value = h.kept_value;
    held_value = λ j. receive-Good m made (s.pc j) (h.held_value j);
  }

  -- What a caller at a known place holds.
  here : (s : System) (i : ℕ) (p : Pc) → s.pc i ≡ p → Sourced s → Good p
  here s i p e h = rw⁻¹ e (h.held_value i)

  Step-Sourced : (s t : System) → Sourced s → Step Made s t → Sourced t
  Step-Sourced s _ h (hit_first i v p d) = moved s i (finished (value v)) (h.kept_value v d) h
  Step-Sourced s _ h (miss_first i p d) = moved s i looking tt h
  Step-Sourced s _ h (hit i v p d) = moved s i (finished (value v)) (h.kept_value v d) h
  Step-Sourced s _ h (miss i p d) = moved s i acquiring tt h
  Step-Sourced s _ h (acquire i p l) =
      moved (set_lock (some i) s) i executing tt (relocked (some i) s h)
  Step-Sourced s _ h (refuse i j p l) = moved s i subscribed tt h
  Step-Sourced s _ h (execute i r p made) = moved s i (storing r) made h
  Step-Sourced s _ h (fail i p) = moved s i failing tt h
  Step-Sourced s _ h (store i r p) =
      let made = here s i (storing r) p h in
      moved (set_data (some r) s) i (publishing r) made (stored r s made h)
  Step-Sourced s _ h (publish_success i r p) =
      let made = here s i (publishing r) p h in
      moved (publish (success r) s) i (releasing (value r)) made (published (success r) s made h)
  Step-Sourced s _ h (publish_failure i p) =
      moved (publish failure s) i (releasing error) tt (published failure s tt h)
  Step-Sourced s _ h (skip_failure i p) = moved s i (releasing error) tt h
  Step-Sourced s _ h (own i o p l) = moved s i (deleting o) (here s i (releasing o) p h) h
  Step-Sourced s _ h (not_own i o p l) = moved s i (finished o) (here s i (releasing o) p h) h
  Step-Sourced s _ h (delete_lock i o p) =
      moved (set_lock none s) i (finished o) (here s i (deleting o) p h) (relocked none s h)
  Step-Sourced s _ h (take_message i m p) =
      moved s i (finished (outcome_of m)) (here s i (received m) p h) h
  Step-Sourced s _ h (time_out i p) = moved s i timed_out tt h
  Step-Sourced s _ h (again i p) = moved s i looking tt h
  Step-Sourced s _ h (give_up i p) = moved s i (finished error) tt h
  Step-Sourced s _ h expire_data = record {
    kept_value = λ v e. absurd cc;
    held_value = h.held_value;
  }

  Reach-Sourced : (s : System) → Reach Made s → Sourced s
  Reach-Sourced s begin = record { kept_value = λ v e. absurd cc; held_value = λ i. tt }
  Reach-Sourced t (later {s} r step) = Step-Sourced s t (Reach-Sourced s r) step

  -- In every reachable state, a value that a caller has returned is one that a call resulted in, whether
  -- it came from the call, from Redis or from a message.
  pub returned_sound :
      (s : System) → Reach Made s → (i : ℕ) (v : Text) → s.pc i ≡ finished (value v) → Made v
  returned_sound s r i v e = here s i (finished (value v)) e (Reach-Sourced s r)

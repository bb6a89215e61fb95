-- ===== src/DataCache/Exclusion.antt =====
-- One caller computes at a time, and what callers return was computed.
use godwoken_web.Common.{
  ℕ, Bool, true, false, Bool-cases, none, some, some_injective, ◌==◌, ==_iff, ◌≡◌, refl, sym, ◌∙◌,
  inl, inr, Text,
}
use godwoken_web.DataCache.{
  Message, success, failure, Outcome, value, error, Pc, entered, looking, acquiring, executing,
  storing, publishing, failing, releasing, deleting, subscribed, received, timed_out, finished,
  System, goto, set_lock, set_data, receive, publish, outcome_of, Step, hit_first, miss_first, hit,
  miss, acquire, refuse, execute, fail, store, publish_success, publish_failure, skip_failure, own,
  not_own, delete_lock, take_message, time_out, again, give_up, expire_data, Reach, begin, later,
}

-- A caller between its acquisition of the lock and its release.
abbrev pub critical : Pc → Bool
critical entered = false
critical looking = false
critical acquiring = false
critical executing = true
critical (storing r) = true
critical (publishing r) = true
critical failing = true
critical (releasing o) = true
critical (deleting o) = true
critical subscribed = false
critical (received m) = false
critical timed_out = false
critical (finished o) = false

-- Who is critical holds the lock.
abbrev pub Held : System → Type 0
Held s = (i : ℕ) → critical (s.pc i) ≡ true → s.lock ≡ some i

-- A caller that was critical moves on, or one moves to where it is not critical.
kept :
    (s : System) (i : ℕ) (p : Pc)
    → (critical p ≡ true → s.lock ≡ some i)
    → Held s
    → Held (goto i p s)
kept s i p h held j c = elim (Bool-cases (j == i)) [
  | inl e ↦
      let same : j ≡ i = (==_iff j i).0 e in
      let there : critical p ≡ true = rw e at c in rw same (h there)
  | inr e ↦ held j (rw e at c)
]

receive-critical : (m : Message) (p : Pc) → critical (receive m p) ≡ critical p
receive-critical m entered = refl
receive-critical m looking = refl
receive-critical m acquiring = refl
receive-critical m executing = refl
receive-critical m (storing r) = refl
receive-critical m (publishing r) = refl
receive-critical m failing = refl
receive-critical m (releasing o) = refl
receive-critical m (deleting o) = refl
receive-critical m subscribed = refl
receive-critical m (received n) = refl
receive-critical m timed_out = refl
receive-critical m (finished o) = refl

-- A caller whose step begins and ends in the critical part holds the lock.
still : (s : System) (i : ℕ) (q : Pc) → s.pc i ≡ q → critical q ≡ true → Held s → s.lock ≡ some i
still s i q e c held = held i (rw e c)

published : (m : Message) (s : System) → Held s → Held (publish m s)
unfolding publish
published m s held i c = held i (sym (receive-critical m (s.pc i)) ∙ c)

-- A free lock is held by nobody, so nobody is critical.
acquired :
    (s : System) (i : ℕ) (p : Pc) → s.lock ≡ none → Held s → Held (goto i p (set_lock (some i) s))
acquired s i p free held j c = elim (Bool-cases (j == i)) [
  | inl e ↦ let same : j ≡ i = (==_iff j i).0 e in rw same refl
  | inr e ↦ let taken : s.lock ≡ some j = held j (rw e at c) in absurd cc
]

released :
    (s : System) (i : ℕ) (o : Outcome)
    → s.lock ≡ some i
    → Held s
    → Held (goto i (finished o) (set_lock none s))
released s i o mine held j c = elim (Bool-cases (j == i)) [
  | inl e ↦ absurd (let gone : false ≡ true = rw e at c in cc)
  | inr e ↦
      let theirs : s.lock ≡ some j = held j (rw e at c) in
      let same : j ≡ i = some_injective (sym theirs ∙ mine) in
      let yes : (j == i) ≡ true = (==_iff j i).1 same in absurd cc
]

Step-Held : (Made : Text → Type 0) (s t : System) → Held s → Step Made s t → Held t
unfolding publish
Step-Held Made s _ held (hit_first i v p d) = kept s i (finished (value v)) (λ c. absurd cc) held
Step-Held Made s _ held (miss_first i p d) = kept s i looking (λ c. absurd cc) held
Step-Held Made s _ held (hit i v p d) = kept s i (finished (value v)) (λ c. absurd cc) held
Step-Held Made s _ held (miss i p d) = kept s i acquiring (λ c. absurd cc) held
Step-Held Made s _ held (acquire i p l) = acquired s i executing l held
Step-Held Made s _ held (refuse i j p l) = kept s i subscribed (λ c. absurd cc) held
Step-Held Made s _ held (execute i r p m) =
    kept s i (storing r) (λ c. still s i executing p refl held) held
Step-Held Made s _ held (fail i p) = kept s i failing (λ c. still s i executing p refl held) held
Step-Held Made s _ held (store i r p) =
    kept (set_data (some r) s) i (publishing r) (λ c. still s i (storing r) p refl held) held
Step-Held Made s _ held (publish_success i r p) =
    kept (publish (success r) s) i (releasing (value r)) (λ c. still s i (publishing r) p refl held)
      (published (success r) s held)
Step-Held Made s _ held (publish_failure i p) =
    kept (publish failure s) i (releasing error) (λ c. still s i failing p refl held)
      (published failure s held)
Step-Held Made s _ held (skip_failure i p) =
    kept s i (releasing error) (λ c. still s i failing p refl held) held
Step-Held Made s _ held (own i o p l) = kept s i (deleting o) (λ c. l) held
Step-Held Made s _ held (not_own i o p l) = kept s i (finished o) (λ c. absurd cc) held
Step-Held Made s _ held (delete_lock i o p) =
    released s i o (still s i (deleting o) p refl held) held
Step-Held Made s _ held (take_message i m p) =
    kept s i (finished (outcome_of m)) (λ c. absurd cc) held
Step-Held Made s _ held (time_out i p) = kept s i timed_out (λ c. absurd cc) held
Step-Held Made s _ held (again i p) = kept s i looking (λ c. absurd cc) held
Step-Held Made s _ held (give_up i p) = kept s i (finished error) (λ c. absurd cc) held
Step-Held Made s _ held expire_data = held

Reach-Held : (Made : Text → Type 0) (s : System) → Reach Made s → Held s
Reach-Held Made s begin = λ i c. absurd cc
Reach-Held Made t (later {s} r step) = Step-Held Made s t (Reach-Held Made s r) step

-- As long as the lock does not expire while it is held: of two callers between the acquisition of the lock
-- and its release, in any reachable state, one is the other.
pub critical_unique :
    (Made : Text → Type 0) (s : System)
    → Reach Made s
    → (i j : ℕ) → critical (s.pc i) ≡ true
    → critical (s.pc j) ≡ true
    → i ≡ j
critical_unique Made s r i j ci cj =
    let held = Reach-Held Made s r in some_injective (sym (held i ci) ∙ held j cj)

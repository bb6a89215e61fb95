-- ===== src/Emitter/Announce.antt =====
-- What the polls of the emitter announce of a chain of blocks.
use godwoken_web.Common.{
  ℕ, zero, suc, ◌+◌, ◌-◌, ◌≤◌, ◌<◌, if_intro, false, Option, none, some, List, [], ◌∷◌, ◌++◌, ◌≡◌,
  refl, sym, ap, ◌∙◌, map, append_assoc, append-nil, arith, Text, Result, ok, err, leb-false→lt,
  All, length,
}
use godwoken_web.LogFilter.{Log}
use godwoken_web.Api.{Block, EthNewHead, to_api_new_head}
use godwoken_web.Emitter.{
  Message, new_heads, logs, Query, Emitter, notify, to_new_heads, last_head, next_of, reached,
  notify_logs, announce_logs, after_heads, announce_heads, execute_poll, poll_to, poll, settle,
  loop, schedule_loop, stop,
}

-- What `f` gives for `n` numbers from `a` on.
abbrev pub spread {ℓ} : {A : Type ℓ} → (ℕ → List A) → ℕ → ℕ → List A
spread f a zero = []
spread f a (suc n) = f a ++ spread f (suc a) n

spread_add {ℓ} :
    {A : Type ℓ} (f : ℕ → List A) (a m n : ℕ)
    → spread f a (m + n) ≡ spread f a m ++ spread f (a + m) n
spread_add f a zero n =
    let e : 0 + n ≡ n = omega arith in let z : a + 0 ≡ a = omega arith in rw (e, z) refl
spread_add f a (suc m) n =
    let s : suc m + n ≡ suc (m + n) = omega arith in
    let t : a + suc m ≡ suc a + m = omega arith in
    rw (s, t, spread_add f (suc a) m n) (sym (append_assoc (f a) _ _))

-- The heads and the texts of the logs in messages.
abbrev pub heads_of : List Message → List EthNewHead
heads_of [] = []
heads_of (new_heads hs ∷ ms) = hs ++ heads_of ms
heads_of (logs ts ∷ ms) = heads_of ms

abbrev pub logs_of : List Message → List Text
logs_of [] = []
logs_of (new_heads hs ∷ ms) = logs_of ms
logs_of (logs ts ∷ ms) = ts ++ logs_of ms

heads_of-append : (ms ns : List Message) → heads_of (ms ++ ns) ≡ heads_of ms ++ heads_of ns
heads_of-append [] ns = refl
heads_of-append (new_heads hs ∷ ms) ns = rw (heads_of-append ms ns) (sym (append_assoc hs _ _))
heads_of-append (logs ts ∷ ms) ns = heads_of-append ms ns

logs_of-append : (ms ns : List Message) → logs_of (ms ++ ns) ≡ logs_of ms ++ logs_of ns
logs_of-append [] ns = refl
logs_of-append (new_heads hs ∷ ms) ns = logs_of-append ms ns
logs_of-append (logs ts ∷ ms) ns = rw (logs_of-append ms ns) (sym (append_assoc ts _ _))

map-append {ℓ κ} :
    {A : Type ℓ} {B : Type κ} (f : A → B) (xs ys : List A) → map f (xs ++ ys) ≡ map f xs ++ map f ys
map-append f [] ys = refl
map-append f (x ∷ xs) ys = ap (λ r. f x ∷ r) (map-append f xs ys)

map-spread {ℓ κ} :
    {A : Type ℓ} {B : Type κ} (g : A → B) (f : ℕ → List A) (a n : ℕ)
    → map g (spread f a n) ≡ spread (λ i. map g (f i)) a n
map-spread g f a zero = refl
map-spread g f a (suc n) =
    map-append g (f a) _ ∙ ap (λ r. map g (f a) ++ r) (map-spread g f (suc a) n)

last_head-cons :
    (h : EthNewHead) (hs : List EthNewHead) → (k : EthNewHead) × (last_head (h ∷ hs) ≡ some k)
last_head-cons h [] = (h, refl)
last_head-cons h (k ∷ hs) = last_head-cons k hs

notified_heads : (ts : List Text) (e : Emitter) → heads_of (notify_logs ts e).sent ≡ heads_of e.sent
unfolding notify_logs notify
notified_heads [] e = refl
notified_heads (t ∷ ts) e = heads_of-append e.sent _ ∙ append-nil _

notified_logs :
    (ts : List Text) (e : Emitter) → logs_of (notify_logs ts e).sent ≡ logs_of e.sent ++ ts
unfolding notify_logs notify
notified_logs [] e = sym (append-nil _)
notified_logs (t ∷ ts) e =
    logs_of-append e.sent _ ∙ ap (λ r. logs_of e.sent ++ r) (append-nil (t ∷ ts))

-- A tip that is not reached is at least one block away.
pub count_lem :
    (cur : Option ℕ) (tip : ℕ)
    → reached cur tip ≡ false
    → suc tip - next_of cur ≡ suc (tip - next_of cur)
count_lem none tip h = omega arith
count_lem (some n) tip h = let k : n < tip = leb-false→lt tip n h in omega (arith, k)

pub last_head-count :
    (f : ℕ → EthNewHead) (a n m : ℕ)
    → n ≡ suc m
    → (k : EthNewHead) × (last_head (spread (λ i. f i ∷ []) a n) ≡ some k)
last_head-count f a n m e = rw e (last_head-cons (f a) (spread (λ i. f i ∷ []) (suc a) m))

-- The chain: the block of a number up to a limit, its head, and its logs.
module _ (stringify : Log → Text) (block : ℕ → Block) (head : ℕ → EthNewHead)
    (logs_at : ℕ → List Log) (limit : ℕ) where
  -- What a database with that chain answers during a poll, at its tip: the blocks above a number, and
  -- the logs from a block on, unless they are more than `max_query_number`. The tip is any up to the
  -- limit, and to ask for it may fail.
  pub record Shows (max_query_number : ℕ) (query : Query) : Type 0 where
    pub tip_law : (tip : ℕ) → query.get_tip_block_number ≡ ok (some tip) → tip ≤ limit
    pub blocks_law :
        (min : Option ℕ) (tip : ℕ)
        → query.get_tip_block_number ≡ ok (some tip)
        → query.get_blocks_by_numbers min tip
          ≡ ok (spread (λ n. block n ∷ []) (next_of min) (suc tip - next_of min))
    pub logs_law :
        (from tip : ℕ)
        → query.get_tip_block_number ≡ ok (some tip)
        → length (spread logs_at from (suc tip - from)) ≤ max_query_number
        → query.get_logs from tip ≡ ok (spread logs_at from (suc tip - from))

  -- The logs behind the tip of the emitter are not more than `max_query_number`.
  abbrev pub Few : ℕ → Query → Emitter → Type 0
  Few max_query_number query e =
      (tip : ℕ)
      → query.get_tip_block_number ≡ ok (some tip)
      → length (spread logs_at (next_of e.current_tip) (suc tip - next_of e.current_tip))
        ≤ max_query_number

  abbrev pub heads_from : ℕ → ℕ → List EthNewHead
  heads_from = spread (λ n. head n ∷ [])

  abbrev pub texts_from : ℕ → ℕ → List Text
  texts_from = spread (λ n. map stringify (logs_at n))

  -- The heads and logs of the blocks from one place to another are announced between two states.
  pub record Announced (e f : Emitter) : Type 0 where
    pub forward : next_of e.current_tip ≤ next_of f.current_tip
    pub heads :
        heads_of f.sent
        ≡ heads_of e.sent
          ++ heads_from (next_of e.current_tip) (next_of f.current_tip - next_of e.current_tip)
    pub texts :
        logs_of f.sent
        ≡ logs_of e.sent
          ++ texts_from (next_of e.current_tip) (next_of f.current_tip - next_of e.current_tip)

  spread_zero {ℓ} :
      {A : Type ℓ} (f : ℕ → List A) (a : ℕ) (xs : List A) → xs ≡ xs ++ spread f a (a - a)
  spread_zero f a xs = let z : a - a ≡ 0 = omega arith in rw z (sym (append-nil xs))

  unmoved : (e : Emitter) → Announced e e
  unmoved e = record {
    forward = omega arith;
    heads = spread_zero (λ n. head n ∷ []) (next_of e.current_tip) (heads_of e.sent);
    texts = spread_zero (λ n. map stringify (logs_at n)) (next_of e.current_tip) (logs_of e.sent);
  }

  spread_join {ℓ} :
      {A : Type ℓ} (f : ℕ → List A) (a b c : ℕ) (xs ys zs : List A)
      → a ≤ b
      → b ≤ c
      → ys ≡ xs ++ spread f a (b - a)
      → zs ≡ ys ++ spread f b (c - b)
      → zs ≡ xs ++ spread f a (c - a)
  spread_join f a b c xs ys zs h k p q =
      let n : c - a ≡ (b - a) + (c - b) = omega arith in
      let m : a + (b - a) ≡ b = omega arith in
      rw (q, p, n, spread_add f a (b - a) (c - b), m) (append_assoc xs _ _)

  joined : (e f g : Emitter) → Announced e f → Announced f g → Announced e g
  joined e f g p q = record {
    forward = omega (arith, p.forward, q.forward);
    heads = spread_join (λ n. head n ∷ []) _ _ _ _ _ _ p.forward q.forward p.heads q.heads;
    texts =
        spread_join (λ n. map stringify (logs_at n)) _ _ _ _ _ _ p.forward q.forward p.texts
          q.texts;
  }

  module _ (headed : (n : ℕ) → n ≤ limit → to_api_new_head (block n) ≡ ok (head n)) where
    pub to_new_heads-spread :
        (a n : ℕ)
        → a + n ≤ suc limit
        → to_new_heads (spread (λ i. block i ∷ []) a n) ≡ ok (spread (λ i. head i ∷ []) a n)
    unfolding to_new_heads
    to_new_heads-spread a zero h = refl
    to_new_heads-spread a (suc n) h =
        rw (headed a (omega arith), to_new_heads-spread (suc a) n (omega arith)) refl

    module _ (max_query_number : ℕ) (query : Query) (shows : Shows max_query_number query) where
      after-Announced :
          (tip : ℕ) (e : Emitter) (k : EthNewHead) (hs : List EthNewHead)
          → hs ≡ heads_from (next_of e.current_tip) (suc tip - next_of e.current_tip)
          → last_head hs ≡ some k
          → next_of e.current_tip ≤ suc tip
          → query.get_tip_block_number ≡ ok (some tip)
          → Few max_query_number query e
          → Announced e
              (after_heads stringify query e.current_tip tip
                (last_head hs)
                (notify (new_heads hs) e)).0
      unfolding after_heads announce_logs notify
      after-Announced tip e k hs new h le t few =
          let n = next_of e.current_tip in
          let c = suc tip - n in
          let ts = map stringify (spread logs_at n c) in
          rw (h, shows.logs_law n tip t (few tip t))
            (record {
              forward = le;
              heads =
                  notified_heads ts _
                  ∙ heads_of-append e.sent _
                  ∙ ap (λ r. heads_of e.sent ++ r) (append-nil hs ∙ new);
              texts =
                  notified_logs ts _
                  ∙ ap (λ r. r ++ ts) (logs_of-append e.sent _ ∙ append-nil _)
                  ∙ ap (λ r. logs_of e.sent ++ r) (map-spread stringify logs_at n c);
            })

      execute-Announced :
          (tip : ℕ) (e : Emitter)
          → tip ≤ limit
          → query.get_tip_block_number ≡ ok (some tip)
          → Few max_query_number query e
          → reached e.current_tip tip ≡ false
          → Announced e (execute_poll stringify query tip e).0
      unfolding execute_poll announce_heads
      execute-Announced tip e le t few h =
          let n = next_of e.current_tip in
          let c = count_lem e.current_tip tip h in
          let (k, last) = last_head-count head n (suc tip - n) (tip - n) c in
          rw
            (
              shows.blocks_law e.current_tip tip t,
              to_new_heads-spread n (suc tip - n) (omega (arith, c)),
            )
            (after-Announced tip e k (heads_from n (suc tip - n)) refl last (omega (arith, c)) t
              few)

      poll_to-Announced :
          (tip : Option ℕ) (e : Emitter)
          → query.get_tip_block_number ≡ ok tip
          → Few max_query_number query e
          → Announced e (poll_to stringify query tip e).0
      unfolding poll_to
      poll_to-Announced none e t few = unmoved e
      poll_to-Announced (some tip) e t few =
          if_intro (λ p. Announced e p.0) (reached e.current_tip tip) (e, ok 1000)
            (execute_poll stringify query tip e) (λ _. unmoved e)
            (execute-Announced tip e (shows.tip_law tip t) t few)

      poll-Announced :
          (e : Emitter) → Few max_query_number query e → Announced e (poll stringify query e).0
      unfolding poll
      poll-Announced e few = answered query.get_tip_block_number refl
        where
          answered :
              (t : Result (Option ℕ))
              → query.get_tip_block_number ≡ t
              → Announced e (poll stringify query e).0
          answered (err thrown) h = rw h (unmoved e)
          answered (ok tip) h = rw h (poll_to-Announced tip e h few)

      settle-Announced :
          (e : Emitter) (p : Emitter × Result ℕ)
          → Announced e p.0
          → Announced e (settle stringify query p)
      unfolding schedule_loop stop
      settle-Announced e (f, ok timeout) a = record {
        forward = a.forward;
        heads = a.heads;
        texts = a.texts;
      }
      settle-Announced e (f, err thrown) a = record {
        forward = a.forward;
        heads = a.heads;
        texts = a.texts;
      }

      pub loop-Announced :
          (e : Emitter) → Few max_query_number query e → Announced e (loop stringify query e)
      unfolding loop
      loop-Announced e few =
          if_intro (Announced e) e.is_running (settle stringify query (poll stringify query e)) e
            (λ _. settle-Announced e (poll stringify query e) (poll-Announced e few))
            (λ _. unmoved e)

  -- The loops that begin with a list of timers, each with the database at its time.
  abbrev pub loops : List Query → Emitter → Emitter
  loops [] e = e
  loops (query ∷ queries) e = loops queries (loop stringify query e)

  -- No poll of the loops meets more than `max_query_number` logs.
  abbrev pub AllFew : ℕ → List Query → Emitter → Type 0
  AllFew max_query_number [] e = Unit
  AllFew max_query_number (query ∷ queries) e =
      Few max_query_number query e × AllFew max_query_number queries (loop stringify query e)

  -- For a chain whose blocks up to a limit have heads, and databases that answer the queries for its
  -- blocks and logs up to their tips, whatever these are up to the limit and whether or not they can be
  -- asked for, where no poll meets more logs than a query may return: the loops announce the heads and
  -- the logs of all blocks from behind the tip that the first of them begins with up to the tip that the
  -- last of them ends with, in order, each of them once.
  pub loops-Announced :
      ((n : ℕ) → n ≤ limit → to_api_new_head (block n) ≡ ok (head n))
      → (max_query_number : ℕ) (queries : List Query) → All (Shows max_query_number) queries
      → (e : Emitter) → AllFew max_query_number queries e
      → Announced e (loops queries e)
  loops-Announced headed most [] shows e few = unmoved e
  loops-Announced headed most (query ∷ queries) (s, shows) e (first, few) =
      joined e _ _ (loop-Announced headed most query s e first)
        (loops-Announced headed most queries shows (loop stringify query e) few)

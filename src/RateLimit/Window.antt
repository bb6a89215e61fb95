-- ===== src/RateLimit/Window.antt =====
-- How many requests of one client pass in a window in which nothing expires.
use Prim.Native.Nat.{min}
use godwoken_web.Common.{
  ℕ, zero, suc, ◌+◌, ◌-◌, ◌<◌, ◌≤◌, ◌^◌, ◌≡◌, refl, arith, true, false, none, some, Text, leb→le,
  leb-false→lt, leb, Bool-cases, ◌⊎◌, inl, inr, if◌then◌else◌,
}
use godwoken_web.Cache.{
  Redis, or_else, count, Ttl, no_key, no_expiry, seconds, Store, insert, get, incr, ttl,
}
use godwoken_web.Cache.Laws.{Laws}
use godwoken_web.RateLimit.{
  Limits, get_id, is_exist, add, update_count, is_over_rate, reset_ttl, get_key_ttl, ws_rate_limit,
}

le_or_lt : (a b : ℕ) → (a ≤ b) ⊎ (b < a)
le_or_lt a b = elim (Bool-cases (leb a b)) [
  | inl h ↦ inl (leb→le a b h)
  | inr h ↦ inr (leb-false→lt a b h)
]

module _ (redis : Redis) (limits : Limits) (rpc_method req_id : Text) where
  abbrev key : Text
  key = get_id rpc_method req_id

  -- The number of requests that pass, of so many in a row.
  unfoldable pub passed : ℕ → Store redis → ℕ
  passed zero store = 0
  passed (suc n) store =
      let (banned, next) = ws_rate_limit redis limits rpc_method req_id store in
      let rest = passed n next in if banned then rest else suc rest

  module _ (laws : Laws redis) (max : ℕ) (limit : limits.rpc_methods rpc_method ≡ some max) where
    reset_keeps :
        (t : Ttl) (store : Store redis) (c : ℕ)
        → get redis key store ≡ some (count c)
        → get redis key (reset_ttl redis limits t key store) ≡ some (count c)
    unfolding get insert
    reset_keeps no_key store c h = h
    reset_keeps (seconds n) store c h = h
    reset_keeps no_expiry store c h = rw (h, laws.get_set_same) refl

    counted_passes :
        (store : Store redis) (c : ℕ)
        → get redis key store ≡ some (count c)
        → c ≤ max
        → max + 2 < 2 ^ 63
        → (next : Store redis) × (ws_rate_limit redis limits rpc_method req_id store
            ≡ (false, next))
          × (get redis key next ≡ some (count (c + 1)))
    unfolding ws_rate_limit is_exist is_over_rate update_count get incr
    counted_passes store c h l b = (
      incr redis key store,
      rw (h, limit) (ground arith),
      laws.get_incr_same store.db key c h (omega arith),
    )

    counted_bans :
        (store : Store redis) (c : ℕ)
        → get redis key store ≡ some (count c)
        → max < c
        → (next : Store redis) × (ws_rate_limit redis limits rpc_method req_id store ≡ (true, next))
          × (get redis key next ≡ some (count c))
    unfolding ws_rate_limit is_exist is_over_rate get_key_ttl
    counted_bans store c h l = (
      reset_ttl redis limits (ttl redis key store) key store,
      rw (h, limit) (ground arith),
      reset_keeps (ttl redis key store) store c h,
    )

    counted :
        (n : ℕ) (store : Store redis) (c : ℕ)
        → get redis key store ≡ some (count c)
        → c ≤ max + 1
        → max + 2 < 2 ^ 63
        → passed n store ≡ min n (max + 1 - c)
    unfolding passed
    counted zero store c h l b = omega arith
    counted (suc n) store c h l b = elim (le_or_lt c max) [
      | inl q ↦
          let (next, e, g) = counted_passes store c h q b in
          rw e (omega (arith, counted n next (c + 1) g (omega arith) b))
      | inr q ↦
          let (next, e, g) = counted_bans store c h q in
          rw e (omega (arith, counted n next c g l b))
    ]

    zero_count :
        (store : Store redis)
        → get redis key (insert redis key (count 0) none store) ≡ some (count 0)
    unfolding get insert
    zero_count store = laws.get_set_same store.db key (count 0) (or_else store.px store.px)

    -- The first request behaves like one that finds the count 0.
    first :
        (store : Store redis)
        → get redis key store ≡ none
        → ws_rate_limit redis limits rpc_method req_id store
          ≡ ws_rate_limit redis limits rpc_method req_id (insert redis key (count 0) none store)
    unfolding ws_rate_limit is_exist add is_over_rate get_key_ttl update_count
    first store h = rw (h, zero_count store, zero_count store) refl

  -- For a Redis that keeps its documented laws and a method with a limit `max` that Redis can
  -- count to: of the requests of a client whose count is not stored, the first `max + 1` pass and
  -- all behind them are refused, whatever the answers to TTL, until the count expires.
  pub passed_lem :
      Laws redis
      → (max n : ℕ) (store : Store redis) → limits.rpc_methods rpc_method ≡ some max
      → max + 2 < 2 ^ 63
      → get redis key store ≡ none
      → passed n store ≡ min n (max + 1)
  unfolding passed
  passed_lem laws max zero store limit b h = omega arith
  passed_lem laws max (suc n) store limit b h =
      let start = insert redis key (count 0) none store in
      let run =
        counted laws max limit (suc n) start 0 (zero_count laws max limit store) (omega arith) b in
      let same : max + 1 - 0 ≡ max + 1 = omega arith in
      rw (first laws max limit store h) (rw same at run)

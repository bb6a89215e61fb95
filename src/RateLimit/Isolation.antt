-- ===== src/RateLimit/Isolation.antt =====
-- What a request does to the keys of other clients and methods.
use godwoken_web.Common.{
  ◌≡◌, ◌≢◌, refl, Bool, true, false, Option, some, Text, List, [], ◌∷◌, if◌then◌else◌, Bool-cases,
  inl, inr, ◌∙◌,
}
use godwoken_web.Cache.{
  Redis, Stored, Ttl, no_key, no_expiry, seconds, Store, insert, get, incr, ttl,
}
use godwoken_web.Cache.Laws.{Laws}
use godwoken_web.RateLimit.{
  Limits, get_id, is_exist, add, update_count, is_over_rate, reset_ttl, get_key_ttl, ws_rate_limit,
  rate_limit, Body, apply_rate_limit_by_ip, has_method,
}

either :
    (redis : Redis) (l : Text) (b : Bool) (p q : Bool × Store redis) (v : Option Stored)
    → get redis l p.1 ≡ v
    → get redis l q.1 ≡ v
    → get redis l (if◌then◌else◌ {A = Bool × Store redis} b p q).1 ≡ v
either redis l true p q v h k = h
either redis l false p q v h k = k

either_store :
    (redis : Redis) (l : Text) (b : Bool) (p q : Store redis) (v : Option Stored)
    → get redis l p ≡ v
    → get redis l q ≡ v
    → get redis l (if b then p else q) ≡ v
either_store redis l true p q v h k = h
either_store redis l false p q v h k = k

module _ (redis : Redis) (limits : Limits) (laws : Laws redis) (l : Text) where
  module _ (rpc_method req_id : Text) (other : get_id rpc_method req_id ≢ l) where
    add_other :
        (store : Store redis)
        → get redis l (add redis limits rpc_method req_id store) ≡ get redis l store
    unfolding add get insert
    add_other store = elim (Bool-cases (is_exist redis limits rpc_method req_id store)) [
      | inl e ↦ rw e refl
      | inr e ↦ rw e (laws.get_set_other store.db _ l _ _ other)
    ]

    update_other :
        (store : Store redis)
        → get redis l (update_count redis limits rpc_method req_id store) ≡ get redis l store
    unfolding update_count get incr
    update_other store = elim (Bool-cases (is_exist redis limits rpc_method req_id store)) [
      | inl e ↦ rw e (laws.get_incr_other store.db _ l other)
      | inr e ↦ rw e refl
    ]

    reset_other :
        (t : Ttl) (store : Store redis)
        → get redis l (reset_ttl redis limits t (get_id rpc_method req_id) store)
          ≡ get redis l store
    unfolding get insert
    reset_other no_key store = refl
    reset_other (seconds n) store = refl
    reset_other no_expiry store = laws.get_set_other store.db _ l _ _ other

    limit_other :
        (store : Store redis)
        → get redis l (ws_rate_limit redis limits rpc_method req_id store).1 ≡ get redis l store
    unfolding ws_rate_limit get_key_ttl
    limit_other store =
        let exists = is_exist redis limits rpc_method req_id store in
        let added = add redis limits rpc_method req_id store in
        checked (if exists then store else added)
        ∙ either_store redis l exists store added (get redis l store) refl (add_other store)
      where
        checked :
            (added : Store redis)
            → get redis l
                (if◌then◌else◌ {A = Bool × Store redis}
                  (is_over_rate redis limits rpc_method req_id added)
                  (true, (get_key_ttl redis limits rpc_method req_id added).1)
                  (false, update_count redis limits rpc_method req_id added)).1
              ≡ get redis l added
        checked added =
            either redis l (is_over_rate redis limits rpc_method req_id added) _ _
              (get redis l added) (reset_other (ttl redis (get_id rpc_method req_id) added) added)
              (update_other added)

  -- For a Redis that keeps its documented laws: a request, whatever its methods and however far
  -- the loop over the limits goes, does not change what a key holds that is not the key of its
  -- client and some method.
  pub apply_rate_limit_by_ip_other :
      (methods : List Text) (body : Body) (ip : Text) (store : Store redis)
      → ((rpc_method : Text) → get_id rpc_method ip ≢ l)
      → get redis l (apply_rate_limit_by_ip redis limits methods body (some ip) store).1
        ≡ get redis l store
  unfolding apply_rate_limit_by_ip rate_limit
  apply_rate_limit_by_ip_other [] body ip store others = refl
  apply_rate_limit_by_ip_other (m ∷ ms) body ip store others =
      elim (Bool-cases (has_method body m)) [
        | inr e ↦ rw e (apply_rate_limit_by_ip_other ms body ip store others)
        | inl e ↦
            let limited = ws_rate_limit redis limits m ip store in
            let kept = limit_other m ip (others m) store in
            rw e (
              either redis l limited.0 (false, limited.1)
                (apply_rate_limit_by_ip redis limits ms body (some ip) limited.1)
                (get redis l store) kept
                (apply_rate_limit_by_ip_other ms body ip limited.1 others ∙ kept))
      ]

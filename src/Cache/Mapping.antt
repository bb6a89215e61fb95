-- ===== src/Cache/Mapping.antt =====
-- The two directions of the mapping of transaction hashes.
use godwoken_web.Common.{
  ℕ, ◌≡◌, ◌≢◌, refl, ap, arith, Option, none, some, Text, get_elem?, Result, ok,
}
use godwoken_web.Cache.{
  Redis, Store, insert, get, save, get_eth_tx_hash, get_gw_tx_hash, gw_tx_hash_to_eth_tx_hash,
  eth_tx_hash_to_gw_tx_hash, eth_tx_hash_cache_key, gw_tx_hash_cache_key,
}
use godwoken_web.Cache.Laws.{Laws}

abbrev char_or_zero : Option ℕ → ℕ
char_or_zero none = 0
char_or_zero (some c) = c

-- The two kinds of keys differ in the character behind the common prefix.
keys_differ : (a b : Text) → gw_tx_hash_cache_key b ≢ eth_tx_hash_cache_key a
unfolding gw_tx_hash_cache_key eth_tx_hash_cache_key
keys_differ a b e =
    let h : b'g' ≡ b'e' = ap (λ (t : Text). char_or_zero (get_elem? t 14)) e in omega (arith, h)

-- For a Redis that keeps its documented laws: until it expires, a pair of hashes that is saved is
-- found from both sides, whatever the database would answer, also where it would throw.
pub lookup-save :
    (redis : Redis) (eth gw : Text) (query : Text → Result (Option Text)) (store : Store redis)
    → Laws redis
    → (gw_tx_hash_to_eth_tx_hash redis gw query (save redis eth gw store) ≡ ok (some eth))
      × (eth_tx_hash_to_gw_tx_hash redis eth query (save redis eth gw store) ≡ ok (some gw))
unfolding gw_tx_hash_to_eth_tx_hash eth_tx_hash_to_gw_tx_hash get_eth_tx_hash get_gw_tx_hash save
    insert get
lookup-save redis eth gw query store laws =
    let k = eth_tx_hash_cache_key eth in
    let l = gw_tx_hash_cache_key gw in
    (
      rw (laws.get_set_same) refl,
      rw (laws.get_set_other _ l k _ _ (keys_differ eth gw), laws.get_set_same) refl,
    )

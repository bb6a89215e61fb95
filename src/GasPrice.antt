-- ===== src/GasPrice.antt =====
-- Gas prices: the class `Price` of packages/api-server/src/base/gas-price.ts, and `minGasPrice`,
-- `minFeeRate` and `gasPrice` of the oracle in packages/api-server/src/price-oracle.ts. The prices of
-- the token are integers already, enlarged by the decimal library; the constants, which the environment
-- may set, are a record; the token price in the cache and the answers of the database are arguments, and
-- the cached gas price is kept in a store.
pub mod Bounds
use godwoken_web.Common.{
  ℕ, ◌*◌, ◌/◌, Bool, true, false, Option, none, some, ltb, ◌==◌, if◌then◌else◌, Result, ok, err,
  range_error, ◌>>=◌, Text, codes,
}
use godwoken_web.Hex.{big_int, to_hex_number}
use godwoken_web.Cache.{Redis, Store, text, text_stored, insert, get}

pub record Constants : Type 0 where
  pub gas_price_divider : ℕ
  pub min_gas_price_lower_limit : ℕ
  pub min_gas_price_upper_limit : ℕ
  pub block_congestion_gas_used : ℕ

abbrev pub fee_rate_multiplier : ℕ
fee_rate_multiplier = 100

module _ (constants : Constants) where
  -- A division of BigInts by zero throws.
  unfoldable pub to_gas_price : ℕ → Result ℕ
  to_gas_price ckb_price =
      if ckb_price == 0 then err range_error else ok (constants.gas_price_divider / ckb_price)

  abbrev pub clamp : ℕ → ℕ
  clamp p =
      if ltb constants.min_gas_price_upper_limit p
      then constants.min_gas_price_upper_limit
      else if ltb p constants.min_gas_price_lower_limit
      then constants.min_gas_price_lower_limit
      else p

  unfoldable pub to_min_gas_price : ℕ → Result ℕ
  unfolding to_gas_price
  to_min_gas_price ckb_price = do p ← to_gas_price ckb_price; ok (clamp p)

  unfoldable pub to_fee_rate : ℕ → Result ℕ
  unfolding to_gas_price
  to_fee_rate ckb_price = do p ← to_gas_price ckb_price; ok (fee_rate_multiplier * p)

  unfoldable pub to_min_fee_rate : ℕ → Result ℕ
  unfolding to_min_gas_price
  to_min_fee_rate ckb_price = do p ← to_min_gas_price ckb_price; ok (fee_rate_multiplier * p)

  -- The argument is the price in the cache.
  unfoldable pub min_gas_price : Option ℕ → Result ℕ
  unfolding to_min_gas_price
  min_gas_price none = ok constants.min_gas_price_lower_limit
  min_gas_price (some ckb_price) = to_min_gas_price ckb_price

  unfoldable pub min_fee_rate : Option ℕ → Result ℕ
  unfolding to_min_fee_rate
  min_fee_rate none = ok (constants.min_gas_price_lower_limit * fee_rate_multiplier)
  min_fee_rate (some ckb_price) = to_min_fee_rate ckb_price

  -- The gas that the tip block used is asked only where the median reaches the minimum.
  abbrev pub choose : ℕ → ℕ → Result ℕ → Result ℕ
  choose median_gas_price minimum last_block_gas_used =
      let by_usage = last_block_gas_used >>= (λ used.
        ok (if ltb used constants.block_congestion_gas_used then minimum else median_gas_price)) in
      if ltb median_gas_price minimum then ok minimum else by_usage

  -- `gasPrice` between its cache and the saving: the token price in the cache, the median of the latest
  -- transactions, and the gas that the tip block used.
  unfoldable pub fresh_gas_price : Option ℕ → ℕ → Result ℕ → Result ℕ
  unfolding min_gas_price
  fresh_gas_price ckb_price median_gas_price last_block_gas_used = do
    minimum ← min_gas_price ckb_price
    choose median_gas_price minimum last_block_gas_used

-- The key of the cached gas price, and the calls of the store; `milsecs` is `gasPriceCacheMilSec`.
abbrev pub gas_price_cache_key : Text
gas_price_cache_key = codes "priceOracle:gasPrice"

module _ (redis : Redis) (milsecs : ℕ) where
  -- The first branch is taken only where a cache is configured.
  unfoldable pub cached_gas_price : Store redis → Option Text
  cached_gas_price store =
      if ltb 0 milsecs then text_stored (get redis gas_price_cache_key store) else none

  unfoldable pub save_gas_price : ℕ → Store redis → Store redis
  save_gas_price price store =
      if ltb 0 milsecs
      then insert redis gas_price_cache_key (text (to_hex_number price)) (some milsecs) store
      else store

  abbrev pub saved_gas_price : Result ℕ → Store redis → Result ℕ × Store redis
  unfolding save_gas_price
  saved_gas_price (err thrown) store = (err thrown, store)
  saved_gas_price (ok price) store = (ok price, save_gas_price price store)

  -- `gasPrice`, with the store behind it.
  unfoldable pub gas_price :
      Constants → Option ℕ → ℕ → Result ℕ → Store redis → Result ℕ × Store redis
  unfolding fresh_gas_price cached_gas_price save_gas_price big_int
  gas_price constants ckb_price median_gas_price last_block_gas_used store =
      elim (cached_gas_price store) [
        | none ↦
            saved_gas_price
              (fresh_gas_price constants ckb_price median_gas_price last_block_gas_used) store
        | some cached ↦ (big_int cached, store)
      ]

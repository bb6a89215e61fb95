-- ===== src/GasPrice/Bounds.antt =====
-- The limits that the gas prices keep.
use godwoken_web.Common.{
  ℕ, zero, suc, ◌<◌, ◌/◌, ◌≤◌, ◌≡◌, arith, Option, some, Result, ok, ◌⊎◌, Text,
}
use native.Mathlib.Nat.{le-div_iff_mul-le, div-mul-le_self, le_trans, mul-le-mul_left}
use godwoken_web.Hex.{big_int}
use godwoken_web.Cache.{Redis, Store, text_stored, get}
use godwoken_web.GasPrice.{
  Constants, to_gas_price, to_min_gas_price, min_gas_price, gas_price_cache_key,
}

module _ (constants : Constants)
    (limits : constants.min_gas_price_lower_limit ≤ constants.min_gas_price_upper_limit) where
  -- A price that is not taken from the cache.
  pub record IsFresh (ckb_price : Option ℕ) (median : ℕ) (used : Result ℕ) (p : ℕ) : Type 0 where
    pub minimum : ℕ
    pub minimum_is : min_gas_price constants ckb_price ≡ ok minimum
    pub above_lower : constants.min_gas_price_lower_limit ≤ minimum
    pub below_upper : minimum ≤ constants.min_gas_price_upper_limit
    pub least : minimum ≤ p
    pub which :
        (p ≡ minimum)
        ⊎ ((p ≡ median)
            × ((gas : ℕ) × (used ≡ ok gas) × (constants.block_congestion_gas_used ≤ gas)))

  module _ (redis : Redis) (milsecs : ℕ) (store after : Store redis) where
    -- The price is the one that the cache holds, and nothing is saved.
    abbrev pub FromCache : ℕ → Type 0
    FromCache p =
        (cached : Text) × (0 < milsecs)
        × (text_stored (get redis gas_price_cache_key store) ≡ some cached)
        × (big_int cached ≡ ok p)

division_antitone : (d a b : ℕ) → 0 < a → a ≤ b → d / b ≤ d / a
division_antitone d a b h l =
    (le-div_iff_mul-le {x = d / b} {y = d} h).1
      (le_trans (mul-le-mul_left (d / b) l) (div-mul-le_self d b))

-- A dearer token never makes the minimal gas price higher.
min_gas_price_antitone :
    (constants : Constants) (low high p q : ℕ)
    → low ≤ high
    → to_min_gas_price constants low ≡ ok p
    → to_min_gas_price constants high ≡ ok q
    → constants.min_gas_price_lower_limit ≤ constants.min_gas_price_upper_limit
    → q ≤ p
unfolding to_min_gas_price to_gas_price
min_gas_price_antitone constants zero high p q l h k limits = cc
min_gas_price_antitone constants (suc low) zero p q l h k limits = absurd (omega arith)
min_gas_price_antitone constants (suc low) (suc high) p q l h k limits =
    let d = division_antitone constants.gas_price_divider (suc low) (suc high) (omega arith) l in
    ground (arith, d)

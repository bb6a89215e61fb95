-- ===== src/Convert/Sound.antt =====
-- What a transaction that is converted has passed.
use godwoken_web.Common.{
  ℕ, ◌≤◌, ◌≡◌, ◌⊎◌, inl, inr, refl, arith, Bool, true, false, not, Option, none, some, ltb, leb,
  leb→le, if◌then◌else◌, length, drop, Text, Result, ok, err, guard, bind-eq-ok, then-eq-ok,
  invalid_params, oversized_data,
}
use godwoken_web.Hex.{big_int}
use godwoken_web.Buffer.{from_hex}
use godwoken_web.Gas.{calc_intrinsic_gas}
use godwoken_web.Json.{str}
use godwoken_web.Validator.{
  Verdict, accepted, refused, thrown, ◌>>>◌, >>>_iff, at_most, at_least, verify_hex_number,
  verify_gas_limit, verify_gas_price,
}
use godwoken_web.Convert.{Env, PolyjuiceTransaction, or_zero_hex, encode_polyjuice_transaction}
use godwoken_web.Convert.Account.{get_account_id_by_eth_address}
use godwoken_web.Convert.Gasless.{verify_gasless_transaction}
use godwoken_web.Convert.Checks.{
  check, Funds, check_balance, verify_enough_balance, verify_intrinsic_gas,
}
use godwoken_web.Convert.Made.{guard-ok, IsSender, sender_id-IsSender, IsMade, assemble_sound}
use godwoken_web.Convert.Pipeline.{
  max_transaction_size, L2Transaction, AutoCreateAccount, check_price, gasless_by, check_gasless,
  check_gasless_or_price, sender_address, sender_id, poly_tx_to_gw_tx,
}

check-ok : (v : Verdict) (u : Unit {0}) → check v ≡ ok u → v ≡ accepted
check-ok accepted u h = refl
check-ok refused u h = cc
check-ok thrown u h = cc

at_least-accepted :
    (limit : ℕ) (r : Result ℕ) → at_least limit r ≡ accepted → (n : ℕ) × (r ≡ ok n) × (limit ≤ n)
at_least-accepted limit (err e) h = cc
at_least-accepted limit (ok n) h = (n, refl, ground arith)

at_most-accepted :
    (limit : ℕ) (r : Result ℕ) → at_most limit r ≡ accepted → (n : ℕ) × (r ≡ ok n) × (n ≤ limit)
at_most-accepted limit (err e) h = cc
at_most-accepted limit (ok n) h = (n, refl, ground arith)

module _ (env : Env) (tx : PolyjuiceTransaction) where
  -- The gas limit is read as a number, is within the limit of the server and pays the intrinsic gas.
  abbrev pub HasGas : Type 0
  HasGas =
      (gas : ℕ) × (big_int (or_zero_hex tx.gas_limit) ≡ ok gas)
      × (gas ≤ 50000000)
      × (calc_intrinsic_gas (some tx.to) (some tx.data_text) ≤ gas)

  -- The gas price is read as a number of at least the minimum that the oracle answers.
  abbrev pub HasPrice : Type 0
  HasPrice =
      (minimum price : ℕ) × (env.min_gas_price ≡ ok minimum)
      × (big_int (or_zero_hex tx.gas_price) ≡ ok price)
      × (minimum ≤ price)

  -- An entrypoint is configured, and the transaction is found and verified to be gasless.
  abbrev pub IsGasless : Type 0
  IsGasless =
      (entrypoint : Text) × (env.entrypoint_contract ≡ some entrypoint)
      × (verify_gasless_transaction env tx.to tx.data_text (or_zero_hex tx.gas_price)
            (or_zero_hex tx.gas_limit) entrypoint
          ≡ accepted)

  price_sound : (u : Unit {0}) → check_price env tx ≡ ok u → HasPrice
  unfolding check_price
  price_sound u h =
      let (minimum, e, c) = bind-eq-ok _ env.min_gas_price h in
      let v = check-ok (verify_gas_price (str (or_zero_hex tx.gas_price)) minimum) u c in
      let parts =
        (>>>_iff (verify_hex_number (str (or_zero_hex tx.gas_price)))
            (at_least minimum (big_int (or_zero_hex tx.gas_price)))).0
          (unfold verify_gas_price in v) in
      let (price, p, l) = at_least-accepted minimum (big_int (or_zero_hex tx.gas_price)) parts.1 in
      (minimum, price, e, p, l)

  gas_sound :
      (u w : Unit {0})
      → check (verify_gas_limit (str (or_zero_hex tx.gas_limit))) ≡ ok u
      → check (verify_intrinsic_gas (some tx.to) (some tx.data_text) (or_zero_hex tx.gas_limit))
        ≡ ok w
      → HasGas
  gas_sound u w h k =
      let limit = or_zero_hex tx.gas_limit in
      let cost = calc_intrinsic_gas (some tx.to) (some tx.data_text) in
      let v : (verify_hex_number (str limit) >>> at_most 50000000 (big_int limit)) ≡ accepted =
        unfold verify_gas_limit in check-ok (verify_gas_limit (str limit)) u h in
      let i : at_least cost (big_int limit) ≡ accepted =
        unfold verify_intrinsic_gas in
        check-ok (verify_intrinsic_gas (some tx.to) (some tx.data_text) limit) w k in
      let (gas, g, most) =
        at_most-accepted 50000000 (big_int limit)
          ((>>>_iff (verify_hex_number (str limit)) (at_most 50000000 (big_int limit))).0 v).1 in
      let (gas', g', least) = at_least-accepted cost (big_int limit) i in
      let same : gas ≡ gas' = cc in (gas, g, most, omega (arith, same, least))

  gasless_sound :
      (o : Option Text) (b : Bool) (u : Unit {0})
      → env.entrypoint_contract ≡ o
      → gasless_by env tx o ≡ ok b
      → (if b then check_gasless env tx o else check_price env tx) ≡ ok u
      → IsGasless ⊎ HasPrice
  gasless_sound o false u e g h = inr (price_sound u h)
  gasless_sound none true u e g h = cc
  gasless_sound (some entrypoint) true u e g h = inl (
    entrypoint,
    e,
    check-ok
        (verify_gasless_transaction env tx.to tx.data_text (or_zero_hex tx.gas_price)
          (or_zero_hex tx.gas_limit) entrypoint)
        u h,
  )

  kind_sound : (u : Unit {0}) → check_gasless_or_price env tx ≡ ok u → IsGasless ⊎ HasPrice
  unfolding check_gasless_or_price
  kind_sound u h =
      let (b, g, c) = bind-eq-ok _ (gasless_by env tx env.entrypoint_contract) h in
      gasless_sound env.entrypoint_contract b u refl g c

  -- The recovered sender can pay for the value and for all of the gas at the gas price.
  abbrev pub HasFunds : Text → Type 0
  HasFunds from =
      (funds : Funds) × (check_balance env from (some (or_zero_hex tx.value))
          (some (or_zero_hex tx.gas_limit)) (some (or_zero_hex tx.gas_price))
        ≡ ok funds)
      × (funds.required_balance ≤ funds.balance)

  funds_sound :
      (from : Text) (u : Unit {0})
      → verify_enough_balance env from
          (some (or_zero_hex tx.value))
          (some (or_zero_hex tx.gas_limit))
          (some (or_zero_hex tx.gas_price))
        ≡ ok u
      → HasFunds from
  unfolding verify_enough_balance
  funds_sound from u h =
      let (funds, e, c) =
        bind-eq-ok _
          (check_balance env from (some (or_zero_hex tx.value)) (some (or_zero_hex tx.gas_limit))
            (some (or_zero_hex tx.gas_price)))
          h in
      let b = guard-ok (not (ltb funds.balance funds.required_balance)) invalid_params u c in
      (funds, e, ground (arith, b))

  -- What a conversion with this result has passed.
  pub record Passed (eth_raw_tx : Text) (l2_tx : L2Transaction) (cache : Option AutoCreateAccount)
      : Type 0 where
    pub rlp_encoded : Text
    pub encoded : encode_polyjuice_transaction env tx ≡ ok rlp_encoded
    pub in_size : length (from_hex (drop 2 rlp_encoded)) ≤ 131072
    pub has_gas : HasGas
    pub has_price : IsGasless ⊎ HasPrice
    pub from : Text
    pub signed_by : sender_address env tx ≡ ok from
    pub has_funds : HasFunds from
    pub id : Option Text
    pub account : get_account_id_by_eth_address env from ≡ ok id
    pub sender : Text × Option AutoCreateAccount
    pub from_account : IsSender env tx rlp_encoded eth_raw_tx from id sender
    pub is_made : IsMade env tx sender l2_tx cache

  -- A transaction that is converted has at most 131072 bytes, has a gas limit of at most fifty
  -- million that pays its intrinsic gas, has the minimum gas price or is a verified gasless
  -- transaction of the configured entrypoint, and its recovered sender can pay for it. The result has
  -- the sender's account, or the account 0 if it has none and can pay; the creator's account for a
  -- native transfer and for a creation, and the recipient's for others; the chain id 0 for a `v` of 27
  -- or 28, and the configured one for others; the nonce and the signature; and arguments of the
  -- documented layout, with the numbers of the transaction, which fit their fields, its data, and the
  -- recipient behind them exactly for a native transfer.
  pub converted_sound :
      (eth_raw_tx : Text) (l2_tx : L2Transaction) (cache : Option AutoCreateAccount)
      → poly_tx_to_gw_tx env tx eth_raw_tx ≡ ok (l2_tx, cache)
      → Passed eth_raw_tx l2_tx cache
  unfolding poly_tx_to_gw_tx
  converted_sound eth_raw_tx l2_tx cache h =
      let (rlp, h1, k1) = bind-eq-ok _ (encode_polyjuice_transaction env tx) h in
      let (u2, h2, k2) =
        then-eq-ok _
          (guard (leb (length (from_hex (drop 2 rlp))) max_transaction_size) oversized_data) k1 in
      let (u3, h3, k3) =
        then-eq-ok _ (check (verify_gas_limit (str (or_zero_hex tx.gas_limit)))) k2 in
      let (u4, h4, k4) = then-eq-ok _ (check_gasless_or_price env tx) k3 in
      let (from, h5, k5) = bind-eq-ok _ (sender_address env tx) k4 in
      let (id, h6, k6) = bind-eq-ok _ (get_account_id_by_eth_address env from) k5 in
      let (sender, h7, k7) = bind-eq-ok _ (sender_id env tx rlp eth_raw_tx from id) k6 in
      let (u8, h8, k8) =
        then-eq-ok _
          (check (verify_intrinsic_gas (some tx.to) (some tx.data_text) (or_zero_hex tx.gas_limit)))
          k7 in
      let (u9, h9, k9) =
        then-eq-ok _
          (verify_enough_balance env from (some (or_zero_hex tx.value))
            (some (or_zero_hex tx.gas_limit)) (some (or_zero_hex tx.gas_price)))
          k8 in
      record {
        rlp_encoded = rlp;
        encoded = h1;
        in_size = leb→le (length (from_hex (drop 2 rlp))) max_transaction_size (
            guard-ok (leb (length (from_hex (drop 2 rlp))) max_transaction_size) oversized_data u2
              h2);
        has_gas = gas_sound u3 u8 h3 h8;
        has_price = kind_sound u4 h4;
        from = from;
        signed_by = h5;
        has_funds = funds_sound from u9 h9;
        id = id;
        account = h6;
        sender = sender;
        from_account = sender_id-IsSender env tx rlp eth_raw_tx from id sender h7;
        is_made = assemble_sound env tx sender l2_tx cache k9;
      }

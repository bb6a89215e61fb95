-- ===== src/Normalizer/Bounds.antt =====
-- The gas of an estimation lies between what it costs and what its sender can pay for.
use godwoken_web.Common.{
  ℕ, ◌+◌, ◌-◌, ◌*◌, ◌/◌, ◌≤◌, ◌≡◌, ◌⊎◌, inl, inr, refl, sym, ap, ◌∙◌, arith, Error, Bool, true,
  false, not, ◌||◌, Option, some, ltb, ◌==◌, if◌then◌else◌, ltb-false→le, Text, codes, text_eq,
  Result, ok, guard, bind-eq-ok, then-eq-ok, ok_injective, zero_gas_price, insufficient_balance,
}
use native.Mathlib.Nat.{div-mul-le_self, mul-le-mul_right}
use godwoken_web.Hex.{x_prefix, big_int, to_hex_number}
use godwoken_web.Hex.Numbers.{big_int-to_hex_number}
use godwoken_web.Gas.{calc_intrinsic_gas}
use godwoken_web.Convert.{Env}
use godwoken_web.Convert.Account.{registry_address}
use godwoken_web.Normalizer.{
  TransactionCallObject, NormalizedCall, or_text, max_block_gas_limit, from_address,
  get_max_gas_by_balance, check_gasless, at_least_intrinsic, at_most_cap, cap_by_balance,
  estimate_gas, normalize_estimate_gas_tx,
}

passed : (b : Bool) (e : Error) (u : Unit {0}) → guard (not b) e ≡ ok u → b ≡ false
passed true e u h = cc
passed false e u h = refl

-- The text is a number that is at least the intrinsic gas.
abbrev AtLeast : ℕ → Text → Type 0
AtLeast low gas = (n : ℕ) × (big_int gas ≡ ok n) × (low ≤ n)

printed : (n : ℕ) (t : Text) → ok (to_hex_number n) ≡ ok t → big_int t ≡ ok n
printed n t h =
    let same : to_hex_number n ≡ t = ok_injective h in rw⁻¹ same (big_int-to_hex_number n)

raised_cases :
    (b : Bool) (given low : ℕ) (gas raised : Text)
    → ltb given low ≡ b
    → big_int gas ≡ ok given
    → ok (if b then to_hex_number low else gas) ≡ ok raised
    → AtLeast low raised
raised_cases true given low gas raised e at h = (low, printed low raised h, omega arith)
raised_cases false given low gas raised e at h =
    let same : gas ≡ raised = ok_injective h in
    (given, ap big_int (sym same) ∙ at, ltb-false→le given low e)

raised_lem :
    (gas raised : Text) (low : ℕ) → at_least_intrinsic gas low ≡ ok raised → AtLeast low raised
unfolding at_least_intrinsic
raised_lem gas raised low h =
    let (given, at, h1) = bind-eq-ok _ (big_int gas) h in
    raised_cases (ltb given low) given low gas raised refl at h1

module _ (env : Env) where
  -- The balance of an address pays for the gas at a price and for a value.
  abbrev pub Pays : Text → Text → ℕ → ℕ → Type 0
  Pays from value gas price =
      (address : Text) × (balance sent : ℕ) × (registry_address env from ≡ ok address)
      × (env.get_balance address 1 ≡ ok balance)
      × (big_int value ≡ ok sent)
      × (gas * price + sent ≤ balance)

  module _ (default_args : Result (Option Text)) where
    max_gas_lem :
        (from gas_price value gas_cap : Text)
        → get_max_gas_by_balance env default_args from gas_price value ≡ ok gas_cap
        → (most price : ℕ) × (big_int gas_cap ≡ ok most)
          × (big_int gas_price ≡ ok price)
          × Pays from value most price
    unfolding get_max_gas_by_balance
    max_gas_lem from gas_price value gas_cap h =
        let (_, _, h1) =
          then-eq-ok _
            (guard (not (text_eq gas_price x_prefix || text_eq gas_price (codes "0x0")))
              zero_gas_price)
            h in
        let (address, at_address, h2) = bind-eq-ok _ (registry_address env from) h1 in
        let (balance, at_balance, h3) = bind-eq-ok _ (env.get_balance address 1) h2 in
        let (sent, at_sent, h4) = bind-eq-ok _ (big_int value) h3 in
        let (u, at_u, h5) = then-eq-ok _ (guard (not (ltb balance sent)) insufficient_balance) h4 in
        let (price, at_price, h6) = bind-eq-ok _ (big_int gas_price) h5 in
        let (_, _, h7) = then-eq-ok _ (guard (not (price == 0)) zero_gas_price) h6 in
        let enough : sent ≤ balance =
          ltb-false→le balance sent (passed (ltb balance sent) insufficient_balance u at_u) in
        let pays : (balance - sent) / price * price ≤ balance - sent =
          div-mul-le_self (balance - sent) price in
        (
          (balance - sent) / price,
          price,
          printed ((balance - sent) / price) gas_cap h7,
          at_price,
          (address, balance, sent, at_address, at_balance, at_sent, omega (arith, enough, pays)),
        )

    Pays-less :
        (from value : Text) (n most price : ℕ)
        → n ≤ most
        → Pays from value most price
        → Pays from value n price
    Pays-less from value n most price le (address, balance, sent, a, b, c, enough) =
        let less : n * price ≤ most * price = mul-le-mul_right price le in
        (address, balance, sent, a, b, c, omega (arith, less, enough))

    -- What the branches of the cap answer.
    capped_cases :
        (b : Bool) (from value raised gas_cap gas : Text) (low given most price : ℕ)
        → ltb most given ≡ b
        → big_int raised ≡ ok given
        → low ≤ given
        → big_int gas_cap ≡ ok most
        → low ≤ most
        → Pays from value most price
        → ok (if b then gas_cap else raised) ≡ ok gas
        → (n : ℕ) × (big_int gas ≡ ok n) × (low ≤ n) × Pays from value n price
    capped_cases true from value raised gas_cap gas low given most price e at le at_cap le_cap pays
          h =
        let same : gas_cap ≡ gas = ok_injective h in
        (most, ap big_int (sym same) ∙ at_cap, le_cap, pays)
    capped_cases false from value raised gas_cap gas low given most price e at le at_cap le_cap pays
          h =
        let same : raised ≡ gas = ok_injective h in
        (
          given,
          ap big_int (sym same) ∙ at,
          le,
          Pays-less from value given most price (ltb-false→le most given e) pays,
        )

    at_most_cap_lem :
        (from value raised gas_cap gas : Text) (low most price : ℕ)
        → AtLeast low raised
        → big_int gas_cap ≡ ok most
        → Pays from value most price
        → at_most_cap raised low gas_cap ≡ ok gas
        → (n : ℕ) × (big_int gas ≡ ok n) × (low ≤ n) × Pays from value n price
    unfolding at_most_cap
    at_most_cap_lem from value raised gas_cap gas low most price (given, at, le) at_cap pays h =
        let (c, at_c, h2) = bind-eq-ok _ (big_int gas_cap) h in
        let (u, at_u, h3) = then-eq-ok _ (guard (not (ltb c low)) insufficient_balance) h2 in
        let (g, at_g, h4) = bind-eq-ok _ (big_int raised) h3 in
        let same_cap : most ≡ c = ok_injective (sym at_cap ∙ at_c) in
        let same_given : given ≡ g = ok_injective (sym at ∙ at_g) in
        let enough : low ≤ c =
          ltb-false→le c low (passed (ltb c low) insufficient_balance u at_u) in
        capped_cases (ltb c g) from value raised gas_cap gas low g c price refl at_g
          (omega (arith, le, same_given)) at_c enough
          (Pays-less from value c most price (omega (arith, same_cap)) pays) h4

    -- The gas is affordable, or the price is 0.
    abbrev pub Affordable : Text → Text → Text → ℕ → Type 0
    Affordable from gas_price value n =
        (price : ℕ) × (big_int gas_price ≡ ok price) × ((price ≡ 0) ⊎ Pays from value n price)

    estimate_cases :
        (b : Bool) (from gas_price value raised gas : Text) (low price : ℕ)
        → ltb 0 price ≡ b
        → big_int gas_price ≡ ok price
        → AtLeast low raised
        → (if b then cap_by_balance env default_args from gas_price value raised low else ok raised)
          ≡ ok gas
        → (n : ℕ) × (big_int gas ≡ ok n) × (low ≤ n) × Affordable from gas_price value n
    unfolding cap_by_balance
    estimate_cases true from gas_price value raised gas low price e at_price at_least h =
        let (gas_cap, at_cap, h1) =
          bind-eq-ok _ (get_max_gas_by_balance env default_args from gas_price value) h in
        let (most, p, at_most, at_p, pays) = max_gas_lem from gas_price value gas_cap at_cap in
        let (n, at_n, le, paid) =
          at_most_cap_lem from value raised gas_cap gas low most p at_least at_most pays h1 in
        (n, at_n, le, (p, at_p, inr paid))
    estimate_cases false from gas_price value raised gas low price e at_price (given, at, le) h =
        let same : raised ≡ gas = ok_injective h in
        let zero_price : price ≤ 0 = ltb-false→le 0 price e in
        (given, ap big_int (sym same) ∙ at, le, (price, at_price, inl (omega (arith, zero_price))))

    estimate_lem :
        (from gas_price value raised gas : Text) (low : ℕ)
        → AtLeast low raised
        → estimate_gas env default_args from gas_price value raised low ≡ ok gas
        → (n : ℕ) × (big_int gas ≡ ok n) × (low ≤ n) × Affordable from gas_price value n
    unfolding estimate_gas
    estimate_lem from gas_price value raised gas low at_least h =
        let (price, at_price, h1) = bind-eq-ok _ (big_int gas_price) h in
        estimate_cases (ltb 0 price) from gas_price value raised gas low price refl at_price
          at_least h1

    made :
        {call made_call : NormalizedCall}
        → made_call ≡ call
        → (n : ℕ) × (big_int made_call.gas ≡ ok n)
          × (calc_intrinsic_gas (some made_call.to) (some made_call.data_text) ≤ n)
          × Affordable made_call.from made_call.gas_price made_call.value n
        → (n : ℕ) × (big_int call.gas ≡ ok n)
          × (calc_intrinsic_gas (some call.to) (some call.data_text) ≤ n)
          × Affordable call.from call.gas_price call.value n
    made e p = rw⁻¹ e p

    -- The gas of a normalized estimation is a number that is at least the intrinsic gas of the call, and
    -- unless the price is 0 the balance of the sender pays for it and for the value.
    pub normalize_bounds :
        (obj : TransactionCallObject) (call : NormalizedCall)
        → normalize_estimate_gas_tx env default_args obj ≡ ok call
        → (n : ℕ) × (big_int call.gas ≡ ok n)
          × (calc_intrinsic_gas (some call.to) (some call.data_text) ≤ n)
          × Affordable call.from call.gas_price call.value n
    unfolding normalize_estimate_gas_tx
    normalize_bounds obj call h =
        let data_text = or_text obj.data_text x_prefix in
        let to = or_text obj.to x_prefix in
        let gas_price = or_text obj.gas_price (codes "0x0") in
        let value = or_text obj.value (codes "0x0") in
        let low = calc_intrinsic_gas (some to) (some data_text) in
        let (from, _, h1) = bind-eq-ok _ (from_address env default_args obj.from) h in
        let (raised, at_raised, h2) =
          bind-eq-ok _ (at_least_intrinsic (or_text obj.gas max_block_gas_limit) low) h1 in
        let (_, _, h3) =
          then-eq-ok _ (check_gasless env default_args to data_text gas_price raised) h2 in
        let (gas, at_gas, h4) =
          bind-eq-ok _ (estimate_gas env default_args from gas_price value raised low) h3 in
        made (ok_injective h4) (
          estimate_lem from gas_price value raised gas low (raised_lem _ raised low at_raised)
            at_gas)

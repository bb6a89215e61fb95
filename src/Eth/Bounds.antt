-- ===== src/Eth/Bounds.antt =====
-- The numbers of blocks that the methods ask the database for.
use godwoken_web.Common.{
  ℕ, ◌≤◌, ◌≡◌, refl, ◌∙◌, sym, ap, arith, Bool, false, not, Bool-cases, inl, inr, Option, none,
  some, some_injective, List, [], ◌∷◌, Text, codes, Result, ok, err, bind-eq-ok, then-eq-ok, guard,
  ltb, ◌==◌, ok_injective, if_intro, ltb-false→le, ◌>>=◌, ◌>>◌, header_not_found, not_hex_number,
  block_hash_exclusive, ◌||◌, if◌then◌else◌,
}
use godwoken_web.Hex.{to_hex_number, big_int}
use godwoken_web.Hex.Numbers.{big_int-to_hex_number}
use godwoken_web.Uint.Uint64
use godwoken_web.Validator.{verify_block_hash, verify_boolean}
use godwoken_web.Json.{str, bool}
use godwoken_web.Validator.Middleware.{middleware_iff}
use godwoken_web.Uint.Uint64.{Uint64}
use godwoken_web.Api.{
  Block, EthBlock, EthNewHead, to_api_block, to_api_new_head, hex64, hex128, seconds_of,
  poly_max_block_gas_limit,
}
use godwoken_web.Eth.{
  BlockParameter, text, specifier, FilterParams, Query, get_tip_number, get_block_by_hash,
  block_of_hash, entries_of_hash, checked_block_by_hash, parse_block_number, number_of,
  latest_number, or_tip_number, parse_block_parameter, block_parameter_to_block_number, Entry,
}
use godwoken_web.Eth.Requests.{
  BlockArgument, given, RpcFilterRequest, is_given, or_block, or_latest,
  normalize_block_parameter_for_filter_request, params_of, params_of_block, params_of_hash,
  rpc_filter_request_to_get_logs_params,
}

hex64-value : (n : ℕ) (t : Text) → hex64 n ≡ ok t → big_int t ≡ ok n
unfolding Uint64.make Uint64.to_hex
hex64-value n t h = elim (Bool-cases (ltb Uint64.max_value n)) [
  | inl e ↦ absurd (let h' = rw e at h in cc)
  | inr e ↦
      let printed : ok (to_hex_number n) ≡ ok t = rw e at h in
      rw (sym (ok_injective printed)) (big_int-to_hex_number n)
]

to_api_new_head-number :
    (b : Block) (head : EthNewHead)
    → to_api_new_head b ≡ ok head
    → big_int head.number ≡ ok b.number
unfolding to_api_new_head
to_api_new_head-number b head h =
    let (gas_limit, _, h1) =
      bind-eq-ok _ (hex64 (if b.gas_limit == 0 then poly_max_block_gas_limit else b.gas_limit)) h in
    let (number, at_number, h2) = bind-eq-ok _ (hex64 b.number) h1 in
    let (gas_used, _, h3) = bind-eq-ok _ (hex128 b.gas_used) h2 in
    let (seconds, _, h4) = bind-eq-ok _ (seconds_of b.timestamp) h3 in
    let (timestamp, _, h5) = bind-eq-ok _ (hex64 seconds) h4 in
    let same : head.number ≡ number = sym (ap EthNewHead.number (ok_injective h5)) in
    rw same (hex64-value b.number number at_number)

below : (t v n : ℕ) → (guard (not (ltb t v)) header_not_found >> ok (some v)) ≡ ok (some n) → n ≤ t
below t v n h = elim (Bool-cases (ltb t v)) [
  | inl e ↦ absurd (let h' = rw e at h in cc)
  | inr e ↦
      let kept : ok (some v) ≡ ok (some n) = rw e at h in
      let same : v ≡ n = cc in rw (sym same) (ltb-false→le t v e)
]

if_cases {ℓ κ} :
    {A : Type ℓ} (P : Result A → Type κ) (b : Bool) (x y : Result A)
    → P x
    → P y
    → P (if b then x else y)
if_cases P b x y p q = if_intro P b x y (λ _. p) (λ _. q)

to_api_block-head :
    (b : Block) (es : List Entry) (api : EthBlock Entry)
    → to_api_block b es ≡ ok api
    → to_api_new_head b ≡ ok api.head
unfolding to_api_block
to_api_block-head b es api h =
    let (head, at_head, h3) = bind-eq-ok _ (to_api_new_head b) h in
    let (size, _, h4) = bind-eq-ok _ (hex64 b.size) h3 in
    at_head ∙ ap (λ (a : EthBlock Entry). ok a.head) (ok_injective h4)

block_of_hash-number :
    (query : Query) (s : Text) (f : Bool) (b : Block) (api : EthBlock Entry)
    → block_of_hash query s f (some b) ≡ ok (some api)
    → big_int api.head.number ≡ ok b.number
unfolding block_of_hash
block_of_hash-number query s f b api h =
    let (es, _, h1) = bind-eq-ok _ (entries_of_hash query s f) h in
    let (made_block, made, h2) = bind-eq-ok _ (to_api_block b es) h1 in
    let same : made_block ≡ api = some_injective (ok_injective h2) in
    to_api_new_head-number b api.head (to_api_block-head b es api (made ∙ ap ok same))

module _ (query : Query) (tip : ℕ) (at_tip : query.get_tip_block_number ≡ ok (some tip))
    (in_chain : (h : Text) (b : Block)
      → query.get_block_by_hash h ≡ ok (some b)
      → b.number ≤ tip) where
  tip_number : get_tip_number query ≡ ok tip
  unfolding get_tip_number
  tip_number = rw at_tip refl

  -- A number that is answered is not above the tip.
  abbrev AtMostTip : Result (Option ℕ) → Type 0
  AtMostTip r = (n : ℕ) → r ≡ ok (some n) → n ≤ tip

  parse_block_number-AtMostTip : (s : Text) → AtMostTip (parse_block_number query s)
  unfolding parse_block_number
  parse_block_number-AtMostTip s n h =
      let (t, at, h1) = bind-eq-ok _ (get_tip_number query) h in
      let (u, _, h2) = bind-eq-ok _ (Uint64.from_hex s) h1 in
      let same : t ≡ tip = ok_injective (sym at ∙ tip_number) in
      rw (sym same) (below t u.value n h2)

  abbrev HasNumber : EthBlock Entry → Type 0
  HasNumber api = (n : ℕ) × (big_int api.head.number ≡ ok n) × (n ≤ tip)

  block_of_hash-HasNumber :
      (s : Text) (api : EthBlock Entry) (found : Option Block)
      → query.get_block_by_hash s ≡ ok found
      → block_of_hash query s false found ≡ ok (some api)
      → HasNumber api
  block_of_hash-HasNumber s api none at h = absurd (unfold block_of_hash in cc)
  block_of_hash-HasNumber s api (some b) at h =
      (b.number, block_of_hash-number query s false b api h, in_chain s b at)

  get_block_by_hash-HasNumber :
      (s : Text) (api : EthBlock Entry)
      → get_block_by_hash query s false ≡ ok (some api)
      → HasNumber api
  unfolding get_block_by_hash
  get_block_by_hash-HasNumber s api h =
      let (found, at, h1) = bind-eq-ok _ (query.get_block_by_hash s) h in
      block_of_hash-HasNumber s api found at h1

  number_of-AtMost :
      (s : Text) (n : ℕ) (found : Option (EthBlock Entry))
      → get_block_by_hash query s false ≡ ok found
      → number_of query found ≡ ok (some n)
      → n ≤ tip
  unfolding number_of
  number_of-AtMost s n none at h = absurd cc
  number_of-AtMost s n (some api) at h =
      let (m, at_m, le) = get_block_by_hash-HasNumber s api at in
      let (k, at_k, h1) = bind-eq-ok _ (big_int api.head.number) h in
      let m_k : m ≡ k = ok_injective (sym at_m ∙ at_k) in
      let k_n : k ≡ n = some_injective (ok_injective h1) in omega (arith, le, m_k, k_n)

  number_of-AtMostTip : (s : Text) → AtMostTip (checked_block_by_hash query s >>= number_of query)
  unfolding checked_block_by_hash
  number_of-AtMostTip s n h =
      let (found, at, h1) = bind-eq-ok (number_of query) (checked_block_by_hash query s) h in
      let checked =
        middleware_iff (λ params. get_block_by_hash query s false) 2
          (verify_block_hash ∷ verify_boolean ∷ []) (str s ∷ bool false ∷ []) found in
      number_of-AtMost s n found (checked.0 at).2 h1

  latest-AtMostTip : AtMostTip (latest_number query)
  unfolding latest_number
  latest-AtMostTip n h =
      let t : ok (some tip) ≡ ok (some n) = rw tip_number at h in
      let same : tip ≡ n = cc in omega (arith, same)

  pending-AtMostTip : AtMostTip (ok none)
  pending-AtMostTip n h = absurd (let e = ok_injective h in cc)

  earliest-AtMostTip : AtMostTip (ok (some 0))
  earliest-AtMostTip n h = let z : 0 ≡ n = some_injective (ok_injective h) in omega (arith, z)

  never-AtMostTip : AtMostTip (get_tip_number query >>= λ tip_number. err not_hex_number)
  never-AtMostTip n h =
      let (t, _, h1) = bind-eq-ok (λ tip_number. err not_hex_number) (get_tip_number query) h in
      absurd cc

  parse-AtMostTip :
      (hack : Bool) (p : BlockParameter) → AtMostTip (parse_block_parameter query hack p)
  unfolding parse_block_parameter
  parse-AtMostTip hack (text s) =
      if_cases AtMostTip _ _ _ (if_cases AtMostTip _ _ _ pending-AtMostTip latest-AtMostTip) (
        if_cases AtMostTip _ _ _ earliest-AtMostTip
          (if_cases AtMostTip _ _ _ pending-AtMostTip (parse_block_number-AtMostTip s)))
  parse-AtMostTip hack (specifier (some s) q) = number_of-AtMostTip s
  parse-AtMostTip hack (specifier none (some q)) = parse_block_number-AtMostTip q
  parse-AtMostTip hack (specifier none none) = never-AtMostTip

  or_tip_number-le :
      (o : Option ℕ) (n : ℕ)
      → ((m : ℕ) → o ≡ some m → m ≤ tip)
      → or_tip_number query o ≡ ok n
      → n ≤ tip
  unfolding or_tip_number
  or_tip_number-le none n below_tip h =
      let same : tip ≡ n = ok_injective (sym tip_number ∙ h) in omega (arith, same)
  or_tip_number-le (some m) n below_tip h =
      let same : m ≡ n = ok_injective h in let le = below_tip m refl in omega (arith, same, le)

  -- For a database whose blocks are not above its tip: the number of the block that the methods for a
  -- block parameter ask for is not above the tip.
  pub block_parameter_le :
      (hack : Bool) (p : BlockParameter) (n : ℕ)
      → block_parameter_to_block_number query hack p ≡ ok n
      → n ≤ tip
  unfolding block_parameter_to_block_number
  block_parameter_le hack p n h =
      let (o, at, h1) = bind-eq-ok _ (parse_block_parameter query hack p) h in
      or_tip_number-le o n (λ m e. parse-AtMostTip hack p m (at ∙ ap ok e)) h1

  or_latest-le :
      (o : Option ℕ) (t : ℕ) → t ≤ tip → ((m : ℕ) → o ≡ some m → m ≤ tip) → or_latest o t ≤ tip
  or_latest-le none t le below_tip = le
  or_latest-le (some m) t le below_tip = below_tip m refl

  range-le :
      (hack : Bool) (from to : BlockArgument) (range : ℕ × ℕ)
      → normalize_block_parameter_for_filter_request query hack from to ≡ ok range
      → (range.0 ≤ tip) × (range.1 ≤ tip)
  unfolding normalize_block_parameter_for_filter_request
  range-le hack from to range h =
      let (t, at, h1) = bind-eq-ok _ (get_tip_number query) h in
      let (a, at_a, h2) =
        bind-eq-ok _ (parse_block_parameter query hack (or_block from (codes "earliest"))) h1 in
      let (b, at_b, h3) =
        bind-eq-ok _ (parse_block_parameter query hack (or_block to (codes "latest"))) h2 in
      let same : tip ≡ t = ok_injective (sym tip_number ∙ at) in
      let top : t ≤ tip = omega (arith, same) in
      let made : (or_latest a t, or_latest b t) ≡ range = ok_injective h3 in
      rw⁻¹ made (
        or_latest-le a t top
            (λ m e. parse-AtMostTip hack (or_block from (codes "earliest")) m (at_a ∙ ap ok e)),
        or_latest-le b t top
            (λ m e. parse-AtMostTip hack (or_block to (codes "latest")) m (at_b ∙ ap ok e)),
      )

  params_of-le :
      (hack : Bool) (filter : RpcFilterRequest) (from to : BlockArgument) (params : FilterParams)
      → params_of query hack filter from to ≡ ok params
      → (params.from_block ≤ tip) × (params.to_block ≤ tip)
  unfolding params_of
  params_of-le hack filter from to params h =
      let (range, at, h1) =
        bind-eq-ok _ (normalize_block_parameter_for_filter_request query hack from to) h in
      let made = ok_injective h1 in rw⁻¹ made (range-le hack from to range at)

  params_of_block-le :
      (hack : Bool) (filter : RpcFilterRequest) (b : Option Block) (params : FilterParams)
      → params_of_block query hack filter b ≡ ok params
      → (params.from_block ≤ tip) × (params.to_block ≤ tip)
  unfolding params_of_block
  params_of_block-le hack filter none params h = absurd cc
  params_of_block-le hack filter (some b) params h =
      let number = given (text (to_hex_number b.number)) in
      params_of-le hack filter number number params h

  params_of_hash-le :
      (hack : Bool) (filter : RpcFilterRequest) (o : Option Text) (params : FilterParams)
      → params_of_hash query hack filter o ≡ ok params
      → (params.from_block ≤ tip) × (params.to_block ≤ tip)
  unfolding params_of_hash
  params_of_hash-le hack filter none params h =
      params_of-le hack filter filter.from_block filter.to_block params h
  params_of_hash-le hack filter (some s) params h =
      let (_, _, h1) =
        then-eq-ok _
          (guard (not (is_given filter.from_block || is_given filter.to_block))
            block_hash_exclusive)
          h in
      let (b, _, h2) = bind-eq-ok _ (query.get_block_by_hash s) h1 in
      params_of_block-le hack filter b params h2

  -- For a database whose blocks are not above its tip: neither end of the range of blocks that a request
  -- of logs is turned into is above the tip.
  pub params_le :
      (hack : Bool) (filter : RpcFilterRequest) (params : FilterParams)
      → rpc_filter_request_to_get_logs_params query hack filter ≡ ok params
      → (params.from_block ≤ tip) × (params.to_block ≤ tip)
  unfolding rpc_filter_request_to_get_logs_params
  params_le hack filter params h = params_of_hash-le hack filter filter.block_hash params h

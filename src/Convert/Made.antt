-- ===== src/Convert/Made.antt =====
-- What a converted transaction is made of.
use mathlib.Core.Path.{subst}
use godwoken_web.Common.{
  ℕ, ◌≤◌, ◌<◌, ◌^◌, ◌≡◌, ◌≢◌, ◌⊎◌, inl, inr, refl, sym, ap, ◌∙◌, arith, Bool, true, false, not,
  Option, none, some, [], ◌++◌, append-nil, ltb, if◌then◌else◌, drop, Text, codes, text_eq,
  text_eq_refl, text_eq_sound, Bool-cases, ok, Error, guard, bind-eq-ok, then-eq-ok, ok_injective,
  insufficient_balance, ◌>>=◌,
}
use godwoken_web.Hex.{x_prefix, big_int, to_hex_number}
use godwoken_web.Polyjuice.Written.{written, assemble-written}
use godwoken_web.Convert.{
  Env, PolyjuiceTransaction, or_zero_hex, to_rlp_number, get_signature, calc_eth_tx_hash,
}
use godwoken_web.Convert.Account.{get_account_id_by_eth_address, is_eth_native_transfer}
use godwoken_web.Convert.Checks.{Funds, check_balance}
use godwoken_web.Convert.Pipeline.{
  L2Transaction, AutoCreateAccount, chain_id_of, sender_id, recipient_id, present, base_args,
  assemble_l2_transaction, l2_transaction,
}

pub guard-ok : (b : Bool) (e : Error) (u : Unit {0}) → guard b e ≡ ok u → b ≡ true
guard-ok true e u h = refl
guard-ok false e u h = cc

text_ne : (s t : Text) → text_eq s t ≡ false → s ≢ t
text_ne s t h e = let r : text_eq t t ≡ false = rw e at h in absurd (let k = text_eq_refl t in cc)

module _ (env : Env) (tx : PolyjuiceTransaction) where
  -- The sender is its account, or the account 0 with what is cached for it if it can pay.
  abbrev pub IsSender : Text → Text → Text → Option Text → Text × Option AutoCreateAccount → Type 0
  IsSender rlp_encoded eth_raw_tx from id sender =
      ((account : Text) × (id ≡ some account) × (sender.0 ≡ account) × (sender.1 ≡ none))
      ⊎ ((id ≡ none)
          × ((funds : Funds) × (check_balance env from (some tx.value) (some tx.gas_limit)
                  (some tx.gas_price)
                ≡ ok funds)
              × (funds.required_balance ≤ funds.balance))
          × (sender.0 ≡ codes "0x0")
          × (sender.1
              ≡ some (record {
                key = codes "AutoCreateAccount:" ++ calc_eth_tx_hash env rlp_encoded;
                tx = eth_raw_tx;
                from_address = from;
              })))

  -- The creator's account for a native transfer and for a creation, the recipient's for others.
  abbrev pub IsRecipient : Bool → Text → Type 0
  IsRecipient native to_id =
      (((tx.to ≡ x_prefix) ⊎ (native ≡ true)) × (to_id ≡ to_hex_number env.polyjuice_creator_id))
      ⊎ ((tx.to ≢ x_prefix)
          × (native ≡ false)
          × (get_account_id_by_eth_address env tx.to ≡ ok (some to_id)))

  -- The chain id 0 for a `v` of 27 or 28, and the configured one for others.
  abbrev pub IsChainId : Text → Type 0
  IsChainId chain_id =
      (((tx.v ≡ codes "0x1b") ⊎ (tx.v ≡ codes "0x1c")) × (chain_id ≡ codes "0x0"))
      ⊎ ((tx.v ≢ codes "0x1b") × (tx.v ≢ codes "0x1c") × (chain_id ≡ env.web3_chain_id))

  pub sender_id-IsSender :
      (rlp_encoded eth_raw_tx from : Text) (id : Option Text)
      (sender : Text × Option AutoCreateAccount)
      → sender_id env tx rlp_encoded eth_raw_tx from id ≡ ok sender
      → IsSender rlp_encoded eth_raw_tx from id sender
  sender_id-IsSender rlp_encoded eth_raw_tx from (some account) sender h =
      let e = ok_injective h in inl (account, refl, sym (ap (λ r. r.0) e), sym (ap (λ r. r.1) e))
  sender_id-IsSender rlp_encoded eth_raw_tx from none sender h =
      let (funds, f, k) =
        bind-eq-ok _
          (check_balance env from (some tx.value) (some tx.gas_limit) (some tx.gas_price)) h in
      let (u, g, r) =
        then-eq-ok _ (guard (not (ltb funds.balance funds.required_balance)) insufficient_balance)
          k in
      let b = guard-ok (not (ltb funds.balance funds.required_balance)) insufficient_balance u g in
      let e = ok_injective r in
      inr (refl, (funds, f, ground (arith, b)), sym (ap (λ r. r.0) e), sym (ap (λ r. r.1) e))

  chain_id_of-IsChainId : IsChainId (chain_id_of env tx.v)
  unfolding chain_id_of
  chain_id_of-IsChainId = elim (Bool-cases (text_eq tx.v (codes "0x1b"))) [
    | inl b ↦ inl (inl (text_eq_sound tx.v (codes "0x1b") b), rw b refl)
    | inr b ↦ elim (Bool-cases (text_eq tx.v (codes "0x1c"))) [
      | inl c ↦ inl (inr (text_eq_sound tx.v (codes "0x1c") c), rw (b, c) refl)
      | inr c ↦ inr (text_ne tx.v (codes "0x1b") b, text_ne tx.v (codes "0x1c") c, rw (b, c) refl)
    ]
  ]

  present-ok : (id : Option Text) (to_id : Text) → present env tx id ≡ ok to_id → id ≡ some to_id
  present-ok none to_id h = cc
  present-ok (some id) to_id h = ap some (ok_injective h)

  looked_up :
      (to_id : Text)
      → (get_account_id_by_eth_address env tx.to >>= present env tx) ≡ ok to_id
      → get_account_id_by_eth_address env tx.to ≡ ok (some to_id)
  looked_up to_id h =
      let (id, e, k) = bind-eq-ok (present env tx) (get_account_id_by_eth_address env tx.to) h in
      e ∙ ap ok (present-ok id to_id k)

  recipient_id-IsRecipient :
      (native : Bool) (to_id : Text)
      → recipient_id env tx native ≡ ok to_id
      → IsRecipient native to_id
  unfolding recipient_id
  recipient_id-IsRecipient native to_id h = elim (Bool-cases (text_eq tx.to x_prefix)) [
    | inl b ↦
        inl (inl (text_eq_sound tx.to x_prefix b), sym (ok_injective (rw (b, recipient_id) at h)))
    | inr b ↦ elim (Bool-cases native) [
      | inl c ↦ inl (inr c, sym (ok_injective (rw (b, c, recipient_id) at h)))
      | inr c ↦ inr (text_ne tx.to x_prefix b, c, looked_up to_id (rw (b, c, recipient_id) at h))
    ]
  ]

  -- What the result is made of, for this sender.
  pub record IsMade (sender : Text × Option AutoCreateAccount) (l2_tx : L2Transaction)
      (cache : Option AutoCreateAccount) : Type 0 where
    pub native : Bool
    pub transfer : is_eth_native_transfer env tx.to ≡ ok native
    pub recipient : IsRecipient native l2_tx.raw.to_id
    pub from_id : l2_tx.raw.from_id ≡ sender.0
    pub chain_id : IsChainId l2_tx.raw.chain_id
    pub nonce : l2_tx.raw.nonce ≡ or_zero_hex tx.nonce
    pub gas_limit : ℕ
    pub gas_limit_is : (big_int tx.gas_limit ≡ ok gas_limit) × (gas_limit < 2 ^ 64)
    pub gas_price : ℕ
    pub gas_price_is : (to_rlp_number tx.gas_price ≡ ok gas_price) × (gas_price < 2 ^ 128)
    pub value : ℕ
    pub value_is : (to_rlp_number tx.value ≡ ok value) × (value < 2 ^ 128)
    pub args :
        l2_tx.raw.args
        ≡ written (text_eq tx.to x_prefix) gas_limit gas_price value tx.data_text
          ++ (if native then drop 2 tx.to else [])
    pub signature : l2_tx.signature ≡ get_signature tx
    pub cached : cache ≡ sender.1

  args_sound :
      (native : Bool) (base : Text)
      → (if native then base ++ drop 2 tx.to else base)
        ≡ base ++ (if native then drop 2 tx.to else [])
  args_sound true base = refl
  args_sound false base = sym (append-nil base)

  made :
      (sender : Text × Option AutoCreateAccount) (native : Bool) (to_id base : Text)
      → is_eth_native_transfer env tx.to ≡ ok native
      → recipient_id env tx native ≡ ok to_id
      → base_args env tx ≡ ok base
      → IsMade sender (l2_transaction env tx sender.0 to_id base native) sender.1
  unfolding base_args
  made sender native to_id base t r h =
      let (gas_limit, g, k1) = bind-eq-ok _ (big_int tx.gas_limit) h in
      let (gas_price, p, k2) = bind-eq-ok _ (to_rlp_number tx.gas_price) k1 in
      let (value, v, k3) = bind-eq-ok _ (to_rlp_number tx.value) k2 in
      let (gas_fits, price_fits, value_fits, layout) =
        assemble-written (text_eq tx.to x_prefix) gas_limit gas_price value tx.data_text base k3 in
      record {
        native = native;
        transfer = t;
        recipient = recipient_id-IsRecipient native to_id r;
        from_id = refl;
        chain_id = chain_id_of-IsChainId;
        nonce = refl;
        gas_limit = gas_limit;
        gas_limit_is = (g, gas_fits);
        gas_price = gas_price;
        gas_price_is = (p, price_fits);
        value = value;
        value_is = (v, value_fits);
        args =
            args_sound native base
            ∙ ap (λ (b : Text). b ++ (if native then drop 2 tx.to else [])) layout;
        signature = refl;
        cached = refl;
      }

  pub assemble_sound :
      (sender : Text × Option AutoCreateAccount) (l2_tx : L2Transaction)
      (cache : Option AutoCreateAccount)
      → assemble_l2_transaction env tx sender ≡ ok (l2_tx, cache)
      → IsMade sender l2_tx cache
  unfolding assemble_l2_transaction
  assemble_sound sender l2_tx cache h =
      let (base, h1, k1) = bind-eq-ok _ (base_args env tx) h in
      let (native, h2, k2) = bind-eq-ok _ (is_eth_native_transfer env tx.to) k1 in
      let (to_id, h3, k3) = bind-eq-ok _ (recipient_id env tx native) k2 in
      let e = ok_injective k3 in
      subst (λ (r : L2Transaction × Option AutoCreateAccount). IsMade sender r.0 r.1) e
        (made sender native to_id base h2 h3 h1)

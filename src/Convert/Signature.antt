-- ===== src/Convert/Signature.antt =====
-- The signature of a transaction: the recovery id, and the chain id that the signed message holds.
use godwoken_web.Common.{
  Option, none, some, List, ℕ, ◌+◌, ◌-◌, ◌*◌, ◌%◌, ◌^◌, ◌<◌, ◌≡◌, arith, [], ◌∷◌, ◌++◌, ◌==◌,
  if◌then◌else◌, drop, Text, codes, ok, refl, ◌>>=◌,
}
use godwoken_web.Hex.{x_prefix, big_int}
use godwoken_web.Buffer.{to_hex}
use godwoken_web.Convert.{
  Env, hex, to_rlp_number, calc_message, RlpItem, PolyjuiceTransaction, number, is_even_number,
  get_signature, eip155_items,
}

-- The byte of the parity, printed.
abbrev pub parity_text : ℕ → Text
parity_text parity = if parity == 0 then codes "00" else codes "01"

items_for_chain :
    (chain parity : ℕ)
    → parity < 2
    → eip155_items (35 + 2 * chain + parity) ≡ number chain ∷ number 0 ∷ number 0 ∷ []
unfolding eip155_items
items_for_chain chain parity p = ground arith

signature_parity :
    (tx : PolyjuiceTransaction) (v parity : ℕ)
    → big_int tx.v ≡ ok v
    → v < 2 ^ 53
    → parity < 2
    → v % 2 ≡ 1 - parity
    → get_signature tx ≡ x_prefix ++ (drop 2 tx.r ++ (drop 2 tx.s ++ parity_text parity))
unfolding get_signature is_even_number
signature_parity tx v parity e b p m = rw e (ground arith)

items_without_chain : (parity : ℕ) → parity < 2 → eip155_items (27 + parity) ≡ []
unfolding eip155_items
items_without_chain parity p = ground arith

-- The `v` of a signature for a chain, or for none, with a parity.
abbrev pub v_for : Option ℕ → ℕ → ℕ
v_for none parity = 27 + parity
v_for (some chain) parity = 35 + 2 * chain + parity

-- What the message holds behind the six fields.
abbrev pub items_for : Option ℕ → List RlpItem
items_for none = []
items_for (some chain) = number chain ∷ number 0 ∷ number 0 ∷ []

items_lem :
    (chain : Option ℕ) (parity : ℕ)
    → parity < 2
    → eip155_items (v_for chain parity) ≡ items_for chain
items_lem none parity p = items_without_chain parity p
items_lem (some chain) parity p = items_for_chain chain parity p

v_parity : (chain : Option ℕ) (parity : ℕ) → parity < 2 → v_for chain parity % 2 ≡ 1 - parity
v_parity none parity p = omega arith
v_parity (some chain) parity p = omega arith

-- The six fields of a transaction.
abbrev pub fields : PolyjuiceTransaction → ℕ → ℕ → ℕ → ℕ → List RlpItem
fields tx nonce gas_price gas_limit value =
    number nonce
    ∷ number gas_price
    ∷ number gas_limit
    ∷ hex tx.to
    ∷ number value
    ∷ hex tx.data_text
    ∷ []

-- For a transaction whose numbers are read, and whose `v` is `35 + 2 * chain + parity`, or `27 + parity`
-- without a chain, and below 2 ^ 53: the message is the hash of the encoding of the six fields with the
-- chain id and two zeros behind them, or with nothing behind them without a chain, and the signature
-- ends with the byte of the parity.
pub signed_for :
    (env : Env) (tx : PolyjuiceTransaction) (nonce gas_price gas_limit value : ℕ) (chain : Option ℕ)
    (parity : ℕ)
    → to_rlp_number tx.nonce ≡ ok nonce
    → to_rlp_number tx.gas_price ≡ ok gas_price
    → to_rlp_number tx.gas_limit ≡ ok gas_limit
    → to_rlp_number tx.value ≡ ok value
    → parity < 2
    → v_for chain parity < 2 ^ 53
    → big_int tx.v ≡ ok (v_for chain parity)
    → (calc_message env tx ≡ (
        env.rlp_encode (fields tx nonce gas_price gas_limit value ++ items_for chain)
        >>= (λ encoded. ok (x_prefix ++ to_hex (env.keccak256 encoded)))))
      × (get_signature tx ≡ x_prefix ++ (drop 2 tx.r ++ (drop 2 tx.s ++ parity_text parity)))
unfolding calc_message
signed_for env tx nonce gas_price gas_limit value chain parity hn hp hl hv p b e = (
  rw (e, hn, hp, hl, hv, items_lem chain parity p) refl,
  signature_parity tx (v_for chain parity) parity e b p (v_parity chain parity p),
)

-- ===== src/Convert.antt =====
-- The conversion of a signed Ethereum transaction, packages/api-server/src/convert-tx.ts: the data,
-- the code that it calls, and the signature. The RLP and ABI codecs, keccak256, secp256k1, the script
-- hash of lumos, the Godwoken node, the price oracle and the cache's answers are parameters.
pub mod Account
pub mod Gasless
pub mod Verified
pub mod Checks
pub mod Pipeline
pub mod Signature
pub mod Made
pub mod Sound
use godwoken_web.Common.{
  ℕ, ◌+◌, ◌-◌, ◌*◌, ◌/◌, ◌%◌, ◌^◌, Bool, true, false, ◌||◌, Option, none, some, List, [], ◌∷◌, ◌++◌,
  ltb, ◌==◌, if◌then◌else◌, get_elem?, length, take, drop, Text, codes, text_eq, Result, ok, err,
  ◌>>=◌,
}
use godwoken_web.Hex.{x_prefix, big_int, to_hex_number}
use godwoken_web.Buffer.{Bytes, from_hex, to_hex}

pub record PolyjuiceTransaction : Type 0 where
  pub nonce : Text
  pub gas_price : Text
  pub gas_limit : Text
  pub to : Text
  pub value : Text
  pub data_text : Text
  pub v : Text
  pub r : Text
  pub s : Text

-- What is handed to `rlp.encode`: numbers, of which one may be negative, and hexadecimal texts.
pub data RlpItem : Type 0 where
  number : ℕ → RlpItem
  negative : ℕ → RlpItem
  hex : Text → RlpItem

-- What `abiCoder.decodeParameter` answers for a user operation.
pub record Decoded : Type 0 where
  pub call_contract : Text
  pub call_data : Text
  pub call_gas_limit : ℕ
  pub verification_gas_limit : ℕ
  pub max_fee_per_gas : ℕ
  pub max_priority_fee_per_gas : ℕ
  pub paymaster_and_data : Text

-- The code outside the repository, what the node, the oracle and the cache answer, and the
-- configuration `gwConfig`.
pub record Env : Type 0 where
  pub rlp_encode : List RlpItem → Result Bytes
  pub keccak256 : Bytes → Bytes
  pub ecdsa_recover : Bytes → Option ℕ → Bytes → Result Bytes
  pub abi_decode : Text → Result Decoded
  pub compute_script_hash : Text → Text
  pub get_script_hash_by_registry_address : Text → Result (Option Text)
  pub get_account_id_by_script_hash : Text → Result (Option ℕ)
  pub get_script_hash : ℕ → Result Text
  pub get_balance : Text → ℕ → Result ℕ
  pub cached_script_hash : Text → Option Text
  pub min_gas_price : Result ℕ
  pub eth_addr_reg_id : ℕ
  pub polyjuice_creator_id : ℕ
  pub web3_chain_id : Text
  pub entrypoint_contract : Option Text

-- `num === "0x" ? "0x0" : num`
unfoldable pub or_zero_hex : Text → Text
unfolding text_eq
or_zero_hex num = if text_eq num x_prefix then codes "0x0" else num

unfoldable pub to_rlp_number : Text → Result ℕ
unfolding text_eq
to_rlp_number num = if text_eq num x_prefix then ok 0 else big_int num

-- `x % 2 === 0` of the number that `+text` makes of `n`: it is exact below 2 ^ 53, is rounded to an
-- even number from there on, and is Infinity from 2 ^ 1024 - 2 ^ 970 on.
unfoldable pub is_even_number : ℕ → Bool
is_even_number n = if ltb n (2 ^ 53) then n % 2 == 0 else ltb n (2 ^ 1024 - 2 ^ 970)

-- `+v % 2 === 0`; a text of no number is NaN.
abbrev pub is_even_text : Result ℕ → Bool
is_even_text (ok n) = is_even_number n
is_even_text (err e) = false

unfoldable pub get_signature : PolyjuiceTransaction → Text
unfolding is_even_number
get_signature tx =
    let real_v_without_prefix = if is_even_text (big_int tx.v) then codes "01" else codes "00" in
    x_prefix ++ (drop 2 tx.r ++ (drop 2 tx.s ++ real_v_without_prefix))

-- `(v - base) / 2n`, which rounds towards zero.
abbrev pub half_from : ℕ → ℕ → RlpItem
half_from base v =
    if ltb v base
    then (if (base - v) / 2 == 0 then number 0 else negative ((base - v) / 2))
    else number ((v - base) / 2)

-- What is pushed behind the six fields: the chain id, 0 and 0, unless `v` is 27 or 28.
unfoldable pub eip155_items : ℕ → List RlpItem
eip155_items v =
    if v == 27 || v == 28
    then []
    else (if v % 2 == 0 then half_from 36 v else half_from 35 v) ∷ number 0 ∷ number 0 ∷ []

module _ (env : Env) where
  unfoldable pub calc_message : PolyjuiceTransaction → Result Text
  unfolding to_rlp_number eip155_items
  calc_message tx = do
    v ← big_int tx.v
    nonce ← to_rlp_number tx.nonce
    gas_price ← to_rlp_number tx.gas_price
    gas_limit ← to_rlp_number tx.gas_limit
    value ← to_rlp_number tx.value
    encoded ← env.rlp_encode (
        (number nonce
          ∷ number gas_price
          ∷ number gas_limit
          ∷ hex tx.to
          ∷ number value
          ∷ hex tx.data_text
          ∷ [])
        ++ eip155_items v)
    ok (x_prefix ++ to_hex (env.keccak256 encoded))

  unfoldable pub encode_polyjuice_transaction : PolyjuiceTransaction → Result Text
  unfolding to_rlp_number
  encode_polyjuice_transaction tx = do
    nonce ← to_rlp_number tx.nonce
    gas_price ← to_rlp_number tx.gas_price
    gas_limit ← to_rlp_number tx.gas_limit
    value ← to_rlp_number tx.value
    v ← to_rlp_number tx.v
    r ← to_rlp_number tx.r
    s ← to_rlp_number tx.s
    result ← env.rlp_encode (
        number nonce
        ∷ number gas_price
        ∷ number gas_limit
        ∷ hex tx.to
        ∷ number value
        ∷ hex tx.data_text
        ∷ number v
        ∷ number r
        ∷ number s
        ∷ [])
    ok (x_prefix ++ to_hex result)

  unfoldable pub recover_public_key : Text → Text → Result Text
  recover_public_key signature message = do
    let sig_buffer = from_hex (drop 2 signature)
    let msg_buffer = from_hex (drop 2 message)
    public_key ←
        env.ecdsa_recover (take (length sig_buffer - 1) sig_buffer) (get_elem? sig_buffer 64)
          msg_buffer
    ok (x_prefix ++ to_hex public_key)

  unfoldable pub public_key_to_eth_address : Text → Text
  public_key_to_eth_address public_key =
      x_prefix ++ to_hex (drop 12 (env.keccak256 (from_hex (drop 4 public_key))))

  unfoldable pub calc_eth_tx_hash : Text → Text
  calc_eth_tx_hash encoded_signed_tx =
      x_prefix ++ to_hex (env.keccak256 (from_hex (drop 2 encoded_signed_tx)))

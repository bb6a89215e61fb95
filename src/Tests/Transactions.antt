-- ===== src/Tests/Transactions.antt =====
-- The conversion of transactions at concrete inputs, with stand-ins for the codecs and the node.
use godwoken_web.Common.{
  ◌>>=◌, ◌+◌, ◌*◌, ◌≡◌, refl, arith, none, some, [], ◌∷◌, ◌++◌, replicate, drop, Text, codes,
  text_eq, starts_with, Result, ok, err, abi_error,
}
use godwoken_web.Hex.{x_prefix, big_int, hex_value, hex_digit, validate_hex_number, to_hex_number}
use godwoken_web.Buffer.{from_hex, to_hex, write_uint_le, le_bytes}
use godwoken_web.Address
use godwoken_web.Uint.Uint32
use godwoken_web.Validator.{
  accepted, verify_gas_limit, verify_hex_number, verify_gas_price, verify_address,
  verify_hex_string,
}
use godwoken_web.Convert.{or_zero_hex, is_even_number, to_rlp_number}
use godwoken_web.Convert.Account.{
  get_account_id_by_eth_address, eth_address_to_account_id, eth_address_to_script_hash, is_eth_eoa,
  is_eth_native_transfer, registry_address,
}
use godwoken_web.Convert.Checks.{check_balance, verify_enough_balance, verify_intrinsic_gas}
use godwoken_web.Convert.Pipeline.{
  assemble_l2_transaction, base_args, chain_id_of, check_gasless_or_price, check_price,
  recipient_id, sender_address,
}
use godwoken_web.Gas.{calc_intrinsic_gas, data_gas, non_zero_from}
use godwoken_web.Hex.{
  big_int_digits, digits_from, hex_pairs, is_hex, scan, to_string_16, validate_hex_string,
}
use godwoken_web.Polyjuice.{
  assemble_args, u128_buf, uint128_to_le_bytes, uint32_to_le_bytes, uint64_to_le_bytes,
}
use godwoken_web.Convert.{
  Env, Decoded, PolyjuiceTransaction, number, get_signature, calc_message, eip155_items,
  encode_polyjuice_transaction, recover_public_key, public_key_to_eth_address, calc_eth_tx_hash,
}
use godwoken_web.Convert.Pipeline.{L2Transaction, poly_tx_to_gw_tx}
use godwoken_web.Convert.Signature.{fields, parity_text, signed_for}
use godwoken_web.Convert.Gasless.{
  UserOperation, decode_gasless_payload, verify_user_operation, verify_gasless_transaction,
}
use godwoken_web.Convert.Verified.{GasAddsUp, gasless_verified}
use godwoken_web.Convert.Sound.{Passed, converted_sound}

-- A node that knows every sender under the account 7 and holds a balance of 10 ^ 9 for each.
abbrev node_with : (Text → Result Decoded) → Env
node_with abi_decode = record {
  rlp_encode = λ items. ok (0xc0 ∷ []);
  keccak256 = λ buf. replicate 32 0x11;
  ecdsa_recover = λ sig id msg. ok (replicate 65 4);
  abi_decode = abi_decode;
  compute_script_hash = λ address. codes "0x22";
  get_script_hash_by_registry_address = λ address. ok (some (codes "0x22"));
  get_account_id_by_script_hash = λ hash. ok (some 7);
  get_script_hash = λ id. ok (codes "0x22");
  get_balance = λ address id. ok 1000000000;
  cached_script_hash = λ address. none;
  min_gas_price = ok 1;
  eth_addr_reg_id = 2;
  polyjuice_creator_id = 4;
  web3_chain_id = codes "0x116e8";
  entrypoint_contract = none;
}

abbrev pub node : Env
node = node_with (λ s. err abi_error)

abbrev pub recipient : Text
recipient = codes "0x1111111111111111111111111111111111111112"

abbrev payment : PolyjuiceTransaction
payment = record {
  nonce = x_prefix;
  gas_price = codes "0x01";
  gas_limit = codes "0x5208";
  to = recipient;
  value = codes "0x05";
  data_text = x_prefix;
  v = codes "0x022df4";
  r = x_prefix ++ replicate 64 b'1';
  s = x_prefix ++ replicate 64 b'2';
}

v_number : big_int payment.v ≡ ok (35 + 2 * 71400 + 1)
unfolding big_int
v_number = refl

payment_numbers :
    (to_rlp_number payment.nonce ≡ ok 0)
    × (to_rlp_number payment.gas_price ≡ ok 1)
    × (to_rlp_number payment.gas_limit ≡ ok 21000)
    × (to_rlp_number payment.value ≡ ok 5)
unfolding to_rlp_number big_int text_eq
payment_numbers = (refl, refl, refl, refl)

signed_for_example :
    (calc_message node payment ≡ (
      node.rlp_encode (fields payment 0 1 21000 5 ++ (number 71400 ∷ number 0 ∷ number 0 ∷ []))
      >>= (λ encoded. ok (x_prefix ++ to_hex (node.keccak256 encoded)))))
    × (get_signature payment
        ≡ x_prefix ++ (drop 2 payment.r ++ (drop 2 payment.s ++ parity_text 1)))
signed_for_example =
    signed_for node payment 0 1 21000 5 (some 71400) 1 payment_numbers.0 payment_numbers.1
      payment_numbers.2 payment_numbers.3 (omega arith) (omega arith) v_number

abbrev payment_l2 : L2Transaction
payment_l2 = record {
  raw = record {
    chain_id = codes "0x116e8";
    from_id = codes "0x7";
    to_id = codes "0x4";
    nonce = codes "0x0";
    args =
        codes
          "0xffffff504f4c59000852000000000000010000000000000000000000000000000500000000000000000000000000000000000000"
        ++ drop 2 recipient;
  };
  signature = x_prefix ++ (replicate 64 b'1' ++ (replicate 64 b'2' ++ codes "01"));
}

payment_run : poly_tx_to_gw_tx node payment (codes "0xc0") ≡ ok (payment_l2, none)
unfolding poly_tx_to_gw_tx encode_polyjuice_transaction big_int from_hex to_hex hex_digit hex_value
    validate_hex_number calc_message recover_public_key public_key_to_eth_address Address.make
    Address.serialize Address.le_text Address.lower Address.to_lower_case Uint32.make
    Uint32.to_little_endian le_bytes write_uint_le starts_with text_eq calc_eth_tx_hash eip155_items
    get_signature to_hex_number verify_gas_limit verify_hex_number verify_gas_price verify_address
    verify_hex_string or_zero_hex is_even_number to_rlp_number get_account_id_by_eth_address
    eth_address_to_account_id eth_address_to_script_hash is_eth_eoa is_eth_native_transfer
    registry_address check_balance verify_enough_balance verify_intrinsic_gas
    assemble_l2_transaction base_args chain_id_of check_gasless_or_price check_price recipient_id
    sender_address calc_intrinsic_gas data_gas non_zero_from big_int_digits digits_from hex_pairs
    is_hex scan to_string_16 validate_hex_string assemble_args u128_buf uint128_to_le_bytes
    uint32_to_le_bytes uint64_to_le_bytes
payment_run = refl

converted_sound_example : Passed node payment (codes "0xc0") payment_l2 none
converted_sound_example = converted_sound node payment (codes "0xc0") payment_l2 none payment_run

-- A node whose decoder answers one user operation.
abbrev gasless_node : Env
gasless_node = node_with (λ s. ok (record {
  call_contract = recipient;
  call_data = x_prefix;
  call_gas_limit = 50;
  verification_gas_limit = 100;
  max_fee_per_gas = 0;
  max_priority_fee_per_gas = 0;
  paymaster_and_data = recipient;
}))

gasless_run :
    verify_gasless_transaction gasless_node recipient
      (codes "0xfb4350d8")
      (codes "0x0")
      (codes "0x15e")
      recipient
    ≡ accepted
unfolding verify_gasless_transaction decode_gasless_payload verify_user_operation verify_address
    verify_gas_limit verify_hex_string verify_hex_number big_int big_int_digits scan hex_value
    hex_digit to_hex_number to_string_16 digits_from hex_pairs is_hex validate_hex_string
    validate_hex_number text_eq starts_with
gasless_run = refl

gasless_verified_example :
    (codes "0x0" ≡ codes "0x0")
    × (recipient ≡ recipient)
    × ((op : UserOperation) × (decode_gasless_payload gasless_node (codes "0xfb4350d8") ≡ ok op)
        × GasAddsUp (codes "0x15e") op)
gasless_verified_example =
    gasless_verified gasless_node recipient (codes "0xfb4350d8") (codes "0x0") (codes "0x15e")
      recipient gasless_run

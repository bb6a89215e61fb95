-- ===== src/GwError/Reported.antt =====
-- The error of a failed run whose last log is a system log of the layout of PolyjuiceLog/System.
use godwoken_web.Common.{
  ℕ, ◌-◌, ◌^◌, ◌<◌, ◌≡◌, refl, arith, Bool, true, false, not, all, none, some, List, [], ◌∷◌, ◌++◌,
  if◌then◌else◌, le→leb, length, Text, Result, ok,
}
use godwoken_web.Hex.{x_prefix, to_hex_number}
use godwoken_web.Buffer.{Bytes, to_hex}
use godwoken_web.PolyjuiceLog.System.{system_log, parse-system_log}
use godwoken_web.ExitCode.{
  ℤ, pos, negsuc, ExitCode, same, hex, match_exit_code, exit_code_number_to_hex, with_code,
  first_of,
}
use godwoken_web.ExitCode.Evmc.{evmc_exit_code_mapping, polyjuice_exit_code_mapping, revert}
use godwoken_web.ExitCode.Matching.{
  IsSignedByte, IsCode, all-get_elem, match_exit_code_iff, number-hex,
}
use godwoken_web.GwError.{
  ErrorTxReceipt, handle_error_tx_receipt, returned, data_or_empty, parse_revert_reason, evmc,
}

-- The number of eight bits that stands for a signed byte.
abbrev pub byte_of : ℤ → ℕ
byte_of (pos n) = n
byte_of (negsuc k) = 255 - k

hex-byte : (z : ℤ) → IsSignedByte z → exit_code_number_to_hex z ≡ to_hex_number (byte_of z)
unfolding exit_code_number_to_hex
hex-byte (pos n) h = refl
hex-byte (negsuc k) h = rw (le→leb k 255 (omega arith)) refl

byte_of-lt : (z : ℤ) → IsSignedByte z → byte_of z < 2 ^ 32
byte_of-lt (pos n) h = omega arith
byte_of-lt (negsuc k) h = omega arith

-- No entry has the code.
abbrev free : ℤ → List ExitCode → Bool
free z mapping = all (λ d. not (same d.code z)) mapping

not_found :
    (z : ℤ) (mapping : List ExitCode)
    → free z mapping ≡ true
    → first_of (with_code z mapping) ≡ none
not_found z [] h = refl
not_found z (d ∷ mapping) h =
    let b : same d.code z ≡ false = ground arith in rw b (not_found z mapping (ground arith))

-- No code of the EVM is one of polyjuice.
disjoint : all (λ e. free e.code polyjuice_exit_code_mapping) evmc_exit_code_mapping ≡ true
disjoint = refl

not_polyjuice :
    (z : ℤ) (e : ExitCode)
    → IsSignedByte z
    → IsCode evmc_exit_code_mapping e z
    → match_exit_code (hex (exit_code_number_to_hex z)) polyjuice_exit_code_mapping ≡ none
unfolding match_exit_code
not_polyjuice z e h (i, k, q) = rw (number-hex z h) (
    not_found z polyjuice_exit_code_mapping (
      rw q at (
        all-get_elem (λ d. free d.code polyjuice_exit_code_mapping) evmc_exit_code_mapping i e
          disjoint k)))

module _ (decode_string : Text → Result Text) (decode_uint256 : Text → Result ℕ)
    (gas_used cumulative : ℕ) (created : Bytes) (z : ℤ) (return_data exit_code : Text) where
  -- The receipt of a run with the status `z`.
  abbrev pub receipt_of : ErrorTxReceipt
  receipt_of = record {
    return_data = return_data;
    last_log = some (x_prefix ++ to_hex (system_log gas_used cumulative created (byte_of z)));
    exit_code = exit_code;
  }

  -- For a run whose last log is a system log of the documented layout, and whose status is a signed
  -- byte that is a code of the EVM: the error that is thrown names the status, as the EVM's, with the
  -- message of the code, and its own message is that one or, for a revert, the reason that the data
  -- name.
  pub evmc_reported :
      (e : ExitCode)
      → gas_used < 2 ^ 64
      → cumulative < 2 ^ 64
      → length created ≡ 20
      → IsSignedByte z
      → IsCode evmc_exit_code_mapping e z
      → handle_error_tx_receipt decode_string decode_uint256 receipt_of
        ≡ ok (record {
          message =
              if same e.code revert.code
              then parse_revert_reason decode_string decode_uint256 (
                  data_or_empty decode_string decode_uint256
                    (returned decode_string decode_uint256 return_data))
              else e.message;
          return_data = returned decode_string decode_uint256 return_data;
          extra = record {
            exit_code = to_hex_number (byte_of z);
            message = e.message;
            stack = evmc;
          };
        })
  unfolding handle_error_tx_receipt
  evmc_reported e hg hc h20 hz found =
      let (at_evmc, at_poly, at_gw) = match_exit_code_iff z e hz in
      let (sound, complete) = at_evmc in
      let in_evmc = rw (hex-byte z hz) at (complete found) in
      let in_poly = rw (hex-byte z hz) at (not_polyjuice z e hz found) in
      rw
        (
          parse-system_log gas_used cumulative created (byte_of z) h20 hg hc (byte_of-lt z hz),
          in_evmc,
          in_poly,
        )
        refl

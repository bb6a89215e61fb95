-- ===== src/Tests/Errors.antt =====
-- Exit codes, and the error of a run.
use godwoken_web.Common.{
  ℕ, ◌≡◌, ◌↔◌, refl, some, arith, replicate, Text, Result, ok, err, if◌then◌else◌, syntax_error,
}
use godwoken_web.Buffer.{Bytes}
use godwoken_web.Hex.{x_prefix, to_hex_number}
use godwoken_web.ExitCode.{pos, same, hex, match_exit_code, exit_code_number_to_hex}
use godwoken_web.ExitCode.Evmc.{evmc_exit_code_mapping, polyjuice_exit_code_mapping, revert}
use godwoken_web.ExitCode.Godwoken.{godwoken_exit_code_mapping}
use godwoken_web.GwError.{
  handle_error_tx_receipt, parse_revert_reason, data_or_empty, returned, evmc,
}
use godwoken_web.GwError.Reported.{receipt_of, evmc_reported}
use godwoken_web.ExitCode.Matching.{IsCode, match_exit_code_iff}

-- A coder that decodes nothing.
abbrev no_string : Text → Result Text
no_string data_text = err syntax_error

abbrev no_number : Text → Result ℕ
no_number data_text = err syntax_error

abbrev created : Bytes
created = replicate 20 7

match_exit_code_iff_example :
    ((match_exit_code (hex (exit_code_number_to_hex (pos 2))) evmc_exit_code_mapping ≡ some revert)
      ↔ IsCode evmc_exit_code_mapping revert (pos 2))
    × ((match_exit_code (hex (exit_code_number_to_hex (pos 2))) polyjuice_exit_code_mapping
          ≡ some revert)
        ↔ IsCode polyjuice_exit_code_mapping revert (pos 2))
    × ((match_exit_code (hex (exit_code_number_to_hex (pos 2))) godwoken_exit_code_mapping
          ≡ some revert)
        ↔ IsCode godwoken_exit_code_mapping revert (pos 2))
match_exit_code_iff_example = match_exit_code_iff (pos 2) revert (omega arith)

evmc_reported_example :
    handle_error_tx_receipt no_string no_number
      (receipt_of no_string no_number 21000 50000 created (pos 2) x_prefix x_prefix)
    ≡ ok (record {
      message =
          if same revert.code revert.code
          then parse_revert_reason no_string no_number
              (data_or_empty no_string no_number (returned no_string no_number x_prefix))
          else revert.message;
      return_data = returned no_string no_number x_prefix;
      extra = record { exit_code = to_hex_number 2; message = revert.message; stack = evmc };
    })
evmc_reported_example =
    evmc_reported no_string no_number 21000 50000 created (pos 2) x_prefix x_prefix revert
      (omega arith) (omega arith) refl (omega arith) (2, refl, refl)

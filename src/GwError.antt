-- ===== src/GwError.antt =====
-- The errors of a run in packages/api-server/src/methods/gw-error.ts: `handleErrorTxReceipt`,
-- `parseGwExitCodeForErrorMessage` and the reasons of a revert. The ABI coder is an argument.
pub mod Reported
use godwoken_web.Common.{
  ℕ, ◌==◌, not, Option, none, some, List, [], ◌∷◌, ◌++◌, if◌then◌else◌, length, take, drop, Text,
  codes, text_eq, Result, ok, err,
}
use godwoken_web.Hex.{x_prefix, to_hex_number}
use godwoken_web.PolyjuiceLog.{PolyjuiceSystemLog, parse_polyjuice_system_log}
use godwoken_web.ExitCode.{ExitCode, match_exit_code, hex, same}
use godwoken_web.ExitCode.Evmc.{evmc_exit_code_mapping, polyjuice_exit_code_mapping, revert}
use godwoken_web.ExitCode.Godwoken.{godwoken_exit_code_mapping, vm_reached_max_cycles}

pub data ExtraStack : Type 0 where
  evmc : ExtraStack
  poly : ExtraStack
  gw : ExtraStack
  unknown : ExtraStack

pub record Extra : Type 0 where
  pub exit_code : Text
  pub message : Text
  pub stack : ExtraStack

pub record TransactionExecutionError : Type 0 where
  pub message : Text
  pub return_data : Option Text
  pub extra : Extra

-- The fields that are read; of the last log only its data are.
pub record ErrorTxReceipt : Type 0 where
  pub return_data : Text
  pub last_log : Option Text
  pub exit_code : Text

abbrev pub execution_reverted : Text
execution_reverted = codes "execution reverted"

abbrev pub revert_selector : Text
revert_selector = codes "0x08c379a0"

abbrev pub panic_selector : Text
panic_selector = codes "0x4e487b71"

-- `gwCode === GODWOKEN_EXIT_CODE_MAPPING.vmReachedMaxCycles`: the same entry, since no code stands twice.
abbrev pub gw_message : ExitCode → Text
gw_message gw_code =
    if same gw_code.code vm_reached_max_cycles.code
    then codes "out of gas(" ++ (gw_code.message ++ codes ")")
    else gw_code.message

-- The message, and the extra message.
unfoldable pub parse_gw_exit_code_for_error_message : Text → Text × Text
unfolding match_exit_code
parse_gw_exit_code_for_error_message exit_code =
    elim (match_exit_code (hex exit_code) godwoken_exit_code_mapping) [
      | none ↦ (codes "unknown error", codes "unknown error")
      | some gw_code ↦ (gw_message gw_code, gw_code.message)
    ]

abbrev pub panic_reasons : List (Text × Text)
panic_reasons =
    (codes "0x1", codes "Assertion error")
    ∷ (
      codes "0x11",
      codes "Arithmetic operation underflowed or overflowed outside of an unchecked block",
    )
    ∷ (codes "0x12", codes "Division or modulo division by zero")
    ∷ (
      codes "0x21",
      codes "Tried to convert a value into an enum, but the value was too big or negative",
    )
    ∷ (codes "0x22", codes "Incorrectly encoded storage byte array")
    ∷ (codes "0x31", codes ".pop() was called on an empty array")
    ∷ (codes "0x32", codes "Array accessed at an out-of-bounds or negative index")
    ∷ (
      codes "0x41",
      codes "Too much memory was allocated, or an array was created that is too large",
    )
    ∷ (codes "0x51", codes "Called a zero-initialized variable of internal function type")
    ∷ []

abbrev pub reason_of : Text → List (Text × Text) → Option Text
unfolding text_eq
reason_of code [] = none
reason_of code ((key, reason) ∷ reasons) =
    let rest = reason_of code reasons in if text_eq key code then some reason else rest

abbrev pub panicked : Text → Text
panicked code = elim (reason_of code panic_reasons) [
  | none ↦ codes "execution reverted: panic code " ++ code
  | some reason ↦
      codes "execution reverted: panic code " ++ (code ++ (codes " (" ++ (reason ++ codes ")")))
]

-- What decodes a string and a uint256; `err` is a throw.
module _ (decode_string : Text → Result Text) (decode_uint256 : Text → Result ℕ) where
  abbrev pub reverted : Result Text → Text
  reverted (err thrown) = execution_reverted
  reverted (ok reason) = codes "execution reverted: " ++ reason

  unfoldable pub unpack_revert : Text → Text
  unfolding text_eq
  unpack_revert return_data =
      if not (text_eq (take 10 return_data) revert_selector)
      then execution_reverted
      else if length return_data == 10
      then codes "execution reverted: "
      else reverted (decode_string (drop 10 return_data))

  abbrev pub panicked_with : Result ℕ → Text
  panicked_with (err thrown) = execution_reverted
  panicked_with (ok n) = panicked (to_hex_number n)

  unfoldable pub unpack_panic : Text → Text
  unfolding text_eq
  unpack_panic return_data =
      if not (text_eq (take 10 return_data) panic_selector)
      then execution_reverted
      else panicked_with (decode_uint256 (drop 10 return_data))

  unfoldable pub parse_revert_reason : Text → Text
  unfolding text_eq unpack_revert unpack_panic
  parse_revert_reason return_data =
      if text_eq (take 10 return_data) revert_selector
      then unpack_revert return_data
      else if text_eq (take 10 return_data) panic_selector
      then unpack_panic return_data
      else execution_reverted

  -- `returnData || "0x"`
  abbrev pub data_or_empty : Option Text → Text
  data_or_empty none = x_prefix
  data_or_empty (some return_data) = return_data

  abbrev pub failure : Text → Option Text → Text → Text → ExtraStack → TransactionExecutionError
  failure message return_data exit_code extra_message stack = record {
    message = message;
    return_data = return_data;
    extra = record { exit_code = exit_code; message = extra_message; stack = stack };
  }

  abbrev pub failure_of_gw : Text → Option Text → TransactionExecutionError
  unfolding parse_gw_exit_code_for_error_message
  failure_of_gw exit_code return_data =
      let (message, extra_message) = parse_gw_exit_code_for_error_message exit_code in
      failure message return_data exit_code extra_message gw

  -- The code of the EVM, over which that of polyjuice goes; without either, the code of the node.
  abbrev pub failure_of_status :
      Text → Text → Option Text → Option ExitCode → Option ExitCode → TransactionExecutionError
  unfolding parse_revert_reason
  failure_of_status exit_code status_code return_data evmc_code (some poly_code) =
      failure poly_code.message return_data status_code poly_code.message poly
  failure_of_status exit_code status_code return_data (some evmc_code) none =
      failure
        (if same evmc_code.code revert.code
          then parse_revert_reason (data_or_empty return_data)
          else evmc_code.message)
        return_data status_code evmc_code.message evmc
  failure_of_status exit_code status_code return_data none none =
      failure_of_gw exit_code return_data

  abbrev pub failure_of_log :
      Text → Option Text → Result PolyjuiceSystemLog → Result TransactionExecutionError
  unfolding match_exit_code parse_revert_reason
  failure_of_log exit_code return_data (err thrown) = err thrown
  failure_of_log exit_code return_data (ok log) = ok (
      failure_of_status exit_code log.status_code return_data
        (match_exit_code (hex log.status_code) evmc_exit_code_mapping)
        (match_exit_code (hex log.status_code) polyjuice_exit_code_mapping))

  abbrev pub returned : Text → Option Text
  returned return_data = if length (drop 2 return_data) == 0 then none else some return_data

  -- The error that is thrown, or `err` where the last log cannot be parsed.
  unfoldable pub handle_error_tx_receipt : ErrorTxReceipt → Result TransactionExecutionError
  unfolding parse_polyjuice_system_log match_exit_code parse_revert_reason
  handle_error_tx_receipt receipt =
      let return_data = returned receipt.return_data in
      elim receipt.last_log [
        | none ↦ ok (failure_of_gw receipt.exit_code return_data)
        | some data_text ↦
            failure_of_log receipt.exit_code return_data (parse_polyjuice_system_log data_text)
      ]

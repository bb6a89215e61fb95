-- ===== src/ExitCode/Godwoken.antt =====
-- `GODWOKEN_EXIT_CODE_MAPPING` of packages/api-server/src/methods/exit-code.ts.
use godwoken_web.Common.{List, [], ◌∷◌, codes}
use godwoken_web.ExitCode.{pos, negsuc, ExitCode, entry}

abbrev pub vm_reached_max_cycles : ExitCode
vm_reached_max_cycles =
    entry (negsuc 0) (codes "VM_REACHED_MAX_CYCLES") (codes "vm reached max cycles")

abbrev pub godwoken_exit_code_mapping : List ExitCode
godwoken_exit_code_mapping =
    vm_reached_max_cycles
    ∷ entry (pos 50) (codes "GW_FATAL_BUFFER_OVERFLOW") (codes "gw fatal buffer overflow")
    ∷ entry (pos 51) (codes "GW_FATAL_INVALID_CONTEXT") (codes "gw fatal invalid context")
    ∷ entry (pos 52) (codes "GW_FATAL_INVALID_DATA") (codes "gw fatal invalid data")
    ∷ entry (pos 53) (codes "GW_FATAL_MISMATCH_RETURN_DATA") (codes "gw fatal mismatch return data")
    ∷ entry (pos 54) (codes "GW_FATAL_UNKNOWN_ARGS") (codes "gw fatal unknown args")
    ∷ entry (pos 55) (codes "GW_FATAL_INVALID_SUDT_SCRIPT") (codes "gw fatal invalid sudt script")
    ∷ entry (pos 56) (codes "GW_FATAL_INVALID_CHECK_POINT") (codes "gw fatal invalid check point")
    ∷ entry (pos 60) (codes "GW_FATAL_DATA_CELL_NOT_FOUND") (codes "gw fatal data cell not found")
    ∷ entry (pos 61) (codes "GW_FATAL_STATE_KEY_NOT_FOUND") (codes "gw fatal state key not found")
    ∷ entry (pos 62) (codes "GW_FATAL_SIGNATURE_CELL_NOT_FOUND")
        (codes "gw fatal signature cell not found")
    ∷ entry (pos 63) (codes "GW_FATAL_SCRIPT_NOT_FOUND") (codes "gw fatal script not found")
    ∷ entry (pos 70) (codes "GW_FATAL_SMT_VERIFY") (codes "gw fatal smt verify")
    ∷ entry (pos 71) (codes "GW_FATAL_SMT_FETCH") (codes "gw fatal smt fetch")
    ∷ entry (pos 72) (codes "GW_FATAL_SMT_STORE") (codes "gw fatal smt store")
    ∷ entry (pos 73) (codes "GW_FATAL_SMT_CALCULATE_ROOT") (codes "gw fatal smt calculate root")
    ∷ entry (pos 80) (codes "GW_ERROR_DUPLICATED_SCRIPT_HASH")
        (codes "gw error duplicated script hash")
    ∷ entry (pos 81) (codes "GW_ERROR_UNKNOWN_SCRIPT_CODE_HASH")
        (codes "gw error unknown script code hash")
    ∷ entry (pos 82) (codes "GW_ERROR_INVALID_ACCOUNT_SCRIPT")
        (codes "gw error invalid account script")
    ∷ entry (pos 83) (codes "GW_ERROR_NOT_FOUND") (codes "gw error not found")
    ∷ entry (pos 84) (codes "GW_ERROR_RECOVER") (codes "gw error recover")
    ∷ entry (pos 85) (codes "GW_ERROR_ACCOUNT_NOT_EXISTS") (codes "gw error account not exists")
    ∷ entry (pos 86) (codes "GW_UNIMPLEMENTED") (codes "gw unimplemented")
    ∷ entry (pos 92) (codes "GW_SUDT_ERROR_INSUFFICIENT_BALANCE")
        (codes "gw sudt error insufficient balance")
    ∷ entry (pos 93) (codes "GW_SUDT_ERROR_AMOUNT_OVERFLOW") (codes "gw sudt error amount overflow")
    ∷ entry (pos 94) (codes "GW_SUDT_ERROR_TO_ADDR") (codes "gw sudt error to addr")
    ∷ entry (pos 95) (codes "GW_SUDT_ERROR_ACCOUNT_NOT_EXISTS")
        (codes "gw sudt error account not exists")
    ∷ entry (pos 101) (codes "GW_REGISTRY_ERROR_DUPLICATE_MAPPING")
        (codes "gw registry error duplicate mapping")
    ∷ []

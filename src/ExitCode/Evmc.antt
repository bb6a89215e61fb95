-- ===== src/ExitCode/Evmc.antt =====
-- `EVMC_EXIT_CODE_MAPPING` and `POLYJUICE_EXIT_CODE_MAPPING` of packages/api-server/src/methods/exit-code.ts.
use godwoken_web.Common.{List, [], ◌∷◌, codes}
use godwoken_web.ExitCode.{pos, negsuc, ExitCode, entry}

abbrev pub revert : ExitCode
revert = entry (pos 2) (codes "REVERT") (codes "revert")

abbrev pub evmc_exit_code_mapping : List ExitCode
evmc_exit_code_mapping =
    entry (pos 0) (codes "SUCCESS") (codes "success")
    ∷ entry (pos 1) (codes "FAILURE") (codes "failure")
    ∷ revert
    ∷ entry (pos 3) (codes "OUT_OF_GAS") (codes "out of gas")
    ∷ entry (pos 4) (codes "INVALID_INSTRUCTION") (codes "invalid instruction")
    ∷ entry (pos 5) (codes "UNDEFINED_INSTRUCTION") (codes "undefined instruction")
    ∷ entry (pos 6) (codes "STACK_OVERFLOW") (codes "stack overflow")
    ∷ entry (pos 7) (codes "STACK_UNDERFLOW") (codes "stack underflow")
    ∷ entry (pos 8) (codes "BAD_JUMP_DESTINATION") (codes "bad jump destination")
    ∷ entry (pos 9) (codes "INVALID_MEMORY_ACCESS") (codes "invalid memory access")
    ∷ entry (pos 10) (codes "CALL_DEPTH_EXCEEDED") (codes "call depth exceeded")
    ∷ entry (pos 11) (codes "STATIC_MODE_VIOLATION") (codes "static mode violation")
    ∷ entry (pos 12) (codes "PRECOMPILE_FAILURE") (codes "precompile failure")
    ∷ entry (pos 13) (codes "CONTRACT_VALIDATION_FAILURE") (codes "contract validation failure")
    ∷ entry (pos 14) (codes "ARGUMENT_OUT_OF_RANGE") (codes "argument out of range")
    ∷ entry (pos 15) (codes "WASM_UNREACHABLE_INSTRUCTION") (codes "wasm unreachable instruction")
    ∷ entry (pos 16) (codes "WASM_TRAP") (codes "wasm trap")
    ∷ entry (pos 17) (codes "INSUFFICIENT_BALANCE") (codes "insufficient balance")
    ∷ entry (negsuc 0) (codes "INTERNAL_ERROR") (codes "internal error")
    ∷ entry (negsuc 1) (codes "REJECTED") (codes "rejected")
    ∷ entry (negsuc 2) (codes "OUT_OF_MEMORY") (codes "out of memory")
    ∷ []

abbrev pub polyjuice_exit_code_mapping : List ExitCode
polyjuice_exit_code_mapping =
    entry (negsuc 49) (codes "FATAL_POLYJUICE") (codes "fatal polyjuice")
    ∷ entry (negsuc 50) (codes "FATAL_PRECOMPILED_CONTRACTS") (codes "fatal precompiled contracts")
    ∷ entry (negsuc 79) (codes "ERROR_MOD_EXP") (codes "error mod exp")
    ∷ entry (negsuc 80) (codes "ERROR_BLAKE2F_INVALID_INPUT_LENGTH")
        (codes "error blake2f invalid input length")
    ∷ entry (negsuc 81) (codes "ERROR_BLAKE2F_INVALID_FINAL_FLAG")
        (codes "error blake2f invalid final flag")
    ∷ entry (negsuc 82) (codes "ERROR_BN256_ADD") (codes "error bn256 add")
    ∷ entry (negsuc 83) (codes "ERROR_BN256_SCALAR_MUL") (codes "error bn256 scalar mul")
    ∷ entry (negsuc 84) (codes "ERROR_BN256_PAIRING") (codes "error bn256 pairing")
    ∷ entry (negsuc 85) (codes "ERROR_BN256_INVALID_POINT") (codes "error bn256 invalid point")
    ∷ entry (negsuc 86) (codes "ERROR_BALANCE_OF_ANY_SUDT") (codes "error balance of any sudt")
    ∷ entry (negsuc 87) (codes "ERROR_TRANSFER_TO_ANY_SUDT") (codes "error transfer to any sudt")
    ∷ entry (negsuc 88) (codes "ERROR_RECOVER_ACCOUNT") (codes "error recover account")
    ∷ entry (negsuc 90) (codes "ERROR_TOTAL_SUPPLY_OF_ANY_SUDT")
        (codes "error total supply of any sudt")
    ∷ entry (negsuc 91) (codes "ERROR_CONTRACT_ADDRESS_COLLISION")
        (codes "error contract address collision")
    ∷ entry (negsuc 92) (codes "ERROR_INSUFFICIENT_GAS_LIMIT")
        (codes "error insufficient gas limit")
    ∷ entry (negsuc 93) (codes "ERROR_NATIVE_TOKEN_TRANSFER") (codes "error native token transfer")
    ∷ []

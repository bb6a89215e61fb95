-- ===== src/ExitCode.antt =====
-- The exit codes of packages/api-server/src/methods/exit-code.ts: `matchExitCode`, and a signed byte as
-- hexadecimal text.
pub mod Evmc
pub mod Godwoken
pub mod Matching
use godwoken_web.Common.{
  ℕ, zero, suc, ◌+◌, ◌-◌, ◌*◌, ◌==◌, Bool, true, false, ◌||◌, Option, none, some, List, [], ◌∷◌,
  ◌++◌, ltb, leb, if◌then◌else◌, drop, Text, codes, starts_with,
}
use godwoken_web.Hex.{x_prefix, hex_value, to_hex_number, to_string_16}

-- `negsuc k` is -(k + 1).
pub data ℤ : Type 0 where
  pos : ℕ → ℤ
  negsuc : ℕ → ℤ

abbrev pub same : ℤ → ℤ → Bool
same (pos n) (pos m) = n == m
same (pos n) (negsuc k) = false
same (negsuc k) (pos n) = false
same (negsuc k) (negsuc j) = k == j

pub record ExitCode : Type 0 where
  pub code : ℤ
  pub type_text : Text
  pub message : Text

abbrev pub entry : ℤ → Text → Text → ExitCode
entry code type_text message = record { code = code; type_text = type_text; message = message }

-- The number that the digits spell, up to the first character that is none.
unfoldable pub scan_digits : ℕ → Text → ℕ
unfolding hex_value
scan_digits acc [] = acc
scan_digits acc (c ∷ s) = elim (hex_value c) [ none ↦ acc | some d ↦ scan_digits (acc * 16 + d) s ]

unfoldable pub parse_digits : Text → Option ℕ
unfolding scan_digits hex_value
parse_digits [] = none
parse_digits (c ∷ s) = elim (hex_value c) [ none ↦ none | some d ↦ some (scan_digits d s) ]

-- `parseInt(s, 16)` of a text without white space or a sign before its digits; NaN is `none`.
unfoldable pub parse_int : Text → Option ℕ
unfolding parse_digits starts_with
parse_int s =
    parse_digits (if starts_with x_prefix s || starts_with (codes "0X") s then drop 2 s else s)

-- A number above 127 is lessened by 256.
abbrev pub to_signed : ℕ → ℤ
to_signed n = if ltb 127 n then (if ltb n 256 then negsuc (255 - n) else pos (n - 256)) else pos n

unfoldable pub exit_code_hex_to_number : Text → Option ℤ
unfolding parse_int
exit_code_hex_to_number hex = elim (parse_int hex) [ none ↦ none | some n ↦ some (to_signed n) ]

-- A number below -256 stays negative.
unfoldable pub exit_code_number_to_hex : ℤ → Text
unfolding to_hex_number to_string_16
exit_code_number_to_hex (pos n) = to_hex_number n
exit_code_number_to_hex (negsuc k) =
    if leb k 255 then to_hex_number (255 - k) else codes "0x-" ++ to_string_16 (k - 255)

-- `HexNumber | number`
pub data ExitCodeText : Type 0 where
  hex : Text → ExitCodeText
  number : ℤ → ExitCodeText

abbrev pub with_code : ℤ → List ExitCode → List ExitCode
with_code code [] = []
with_code code (e ∷ mapping) =
    let rest = with_code code mapping in if same e.code code then e ∷ rest else rest

abbrev pub first_of : List ExitCode → Option ExitCode
first_of [] = none
first_of (e ∷ exit_codes) = some e

-- No entry has the code NaN.
abbrev pub match_number : Option ℤ → List ExitCode → Option ExitCode
match_number none mapping = none
match_number (some code) mapping = first_of (with_code code mapping)

unfoldable pub match_exit_code : ExitCodeText → List ExitCode → Option ExitCode
unfolding exit_code_hex_to_number
match_exit_code (number code) mapping = match_number (some code) mapping
match_exit_code (hex text) mapping = match_number (exit_code_hex_to_number text) mapping

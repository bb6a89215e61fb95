-- ===== src/Hex.antt =====
-- Hexadecimal text: `toHexNumber` and `assertHexNumber` of
-- packages/api-server/src/base/types/uint.ts, `validateHexNumber` and `validateHexString` of
-- packages/api-server/src/util.ts, and what they use of JavaScript: `n.toString(16)`, `BigInt(s)`
-- and `Number(s)` on a text with the prefix 0x, and `padStart`.
pub mod Numbers
pub mod Validation
use godwoken_web.Common.{
  ℕ, zero, suc, ◌+◌, ◌-◌, ◌*◌, ◌/◌, ◌%◌, Bool, true, false, not, ◌&&◌, Option, none, some, List, [],
  ◌∷◌, ◌++◌, ltb, leb, if◌then◌else◌, all, length, drop, replicate, Text, codes, starts_with,
  Result, ok, err, Error, syntax_error, guard, not_hex_number,
}

-- The value of a hexadecimal digit, of either case.
unfoldable pub hex_value : ℕ → Option ℕ
hex_value c =
    if leb b'0' c && leb c b'9'
    then some (c - b'0')
    else if leb b'a' c && leb c b'f'
    then some (c - b'a' + 10)
    else if leb b'A' c && leb c b'F'
    then some (c - b'A' + 10)
    else none

-- The digit that `toString(16)` prints.
unfoldable pub hex_digit : ℕ → ℕ
hex_digit d = if ltb d 10 then b'0' + d else b'a' + d - 10

abbrev pub is_some {ℓ} : {A : Type ℓ} → Option A → Bool
is_some none = false
is_some (some a) = true

unfoldable pub is_hex : ℕ → Bool
unfolding hex_value
is_hex c = is_some (hex_value c)

abbrev pub x_prefix : Text
x_prefix = codes "0x"

-- The number that digits spell behind `acc`, or `none` at a character that is no digit.
unfoldable pub scan : ℕ → Text → Option ℕ
scan acc [] = some acc
scan acc (c ∷ s) = elim (hex_value c) [ none ↦ none | some d ↦ scan (acc * 16 + d) s ]

abbrev pub of_scan : Option ℕ → Result ℕ
of_scan none = err syntax_error
of_scan (some n) = ok n

-- The digits behind the prefix; there must be one.
unfoldable pub big_int_digits : Text → Result ℕ
big_int_digits [] = err syntax_error
big_int_digits (c ∷ s) = of_scan (scan 0 (c ∷ s))

-- `BigInt(s)`, and `+s` below 2 ^ 53, of a text that begins with 0x.
unfoldable pub big_int : Text → Result ℕ
unfolding big_int_digits scan hex_value starts_with
big_int s = if starts_with x_prefix s then big_int_digits (drop 2 s) else err syntax_error

-- The digits of `n` before `out`. The fuel `n` is enough, since each round divides by 16.
unfoldable pub digits_from : ℕ → ℕ → Text → Text
digits_from zero n out = hex_digit n ∷ out
digits_from (suc fuel) n out =
    let more = digits_from fuel (n / 16) (hex_digit (n % 16) ∷ out) in
    if ltb n 16 then hex_digit n ∷ out else more

-- `n.toString(16)`
unfoldable pub to_string_16 : ℕ → Text
unfolding digits_from hex_digit
to_string_16 n = digits_from n n []

unfoldable pub to_hex_number : ℕ → Text
unfolding to_string_16
to_hex_number num = x_prefix ++ to_string_16 num

-- `s.padStart(width, "0")`
unfoldable pub pad_start : ℕ → Text → Text
pad_start width s = replicate (width - length s) b'0' ++ s

abbrev nonempty {ℓ} : {A : Type ℓ} → List A → Bool
nonempty [] = false
nonempty (x ∷ xs) = true

-- /^0x(0|[0-9a-fA-F]+)$/
unfoldable pub validate_hex_number : Text → Bool
unfolding is_hex starts_with
validate_hex_number hex =
    starts_with x_prefix hex && (nonempty (drop 2 hex) && all is_hex (drop 2 hex))

-- ([0-9a-fA-F][0-9a-fA-F])*
unfoldable pub hex_pairs : Text → Bool
hex_pairs [] = true
hex_pairs (c ∷ []) = false
hex_pairs (c ∷ d ∷ s) = is_hex c && is_hex d && hex_pairs s

-- /^0x([0-9a-fA-F][0-9a-fA-F])*$/
unfoldable pub validate_hex_string : Text → Bool
unfolding hex_pairs is_hex starts_with
validate_hex_string hex = starts_with x_prefix hex && hex_pairs (drop 2 hex)

unfoldable pub assert_hex_number : Text → Result (Unit {0})
unfolding validate_hex_number
assert_hex_number str = guard (validate_hex_number str) not_hex_number

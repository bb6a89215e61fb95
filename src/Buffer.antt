-- ===== src/Buffer.antt =====
-- Node's Buffer as a list of bytes: `Buffer.from(s, "hex")`, `buf.toString("hex")`, and the
-- little-endian reads and writes, with the RangeError of each.
pub mod Codec
pub mod Words
use godwoken_web.Common.{
  ℕ, zero, suc, ◌+◌, ◌*◌, ◌/◌, ◌%◌, ◌^◌, Option, none, some, List, [], ◌∷◌, ltb, leb, if◌then◌else◌,
  length, slice, Text, Result, ok, err, range_error, All, ◌<◌,
}
use godwoken_web.Hex.{hex_value, hex_digit}

abbrev pub Bytes : Type 0
Bytes = List ℕ

abbrev pub IsBytes : Bytes → Type 0
IsBytes = All (λ b. b < 256)

abbrev pub byte_of : Option ℕ → Option ℕ → Option ℕ
byte_of (some hi) (some lo) = some (hi * 16 + lo)
byte_of none lo = none
byte_of (some hi) none = none

-- `Buffer.from(s, "hex")` stops at the first pair that is not two digits.
unfoldable pub from_hex : Text → Bytes
from_hex [] = []
from_hex (c ∷ []) = []
from_hex (c ∷ d ∷ s) = elim (byte_of (hex_value c) (hex_value d)) [
  | none ↦ []
  | some b ↦ b ∷ from_hex s
]

-- `buf.toString("hex")`
unfoldable pub to_hex : Bytes → Text
to_hex [] = []
to_hex (b ∷ bs) = hex_digit (b / 16) ∷ hex_digit (b % 16) ∷ to_hex bs

-- The `k` low bytes of `n`, the lowest first.
unfoldable pub le_bytes : ℕ → ℕ → Bytes
le_bytes zero n = []
le_bytes (suc k) n = (n % 256) ∷ le_bytes k (n / 256)

unfoldable pub of_le : Bytes → ℕ
of_le [] = 0
of_le (b ∷ bs) = b + 256 * of_le bs

-- `writeUInt32LE` at 4 bytes, `writeBigUInt64LE` at 8.
unfoldable pub write_uint_le : ℕ → ℕ → Result Bytes
write_uint_le k n = if ltb n (256 ^ k) then ok (le_bytes k n) else err range_error

-- `readUInt32LE` at 4 bytes, `readBigUInt64LE` at 8.
unfoldable pub read_uint_le : ℕ → ℕ → Bytes → Result ℕ
read_uint_le k offset buf =
    if leb (offset + k) (length buf)
    then ok (of_le (slice offset (offset + k) buf))
    else err range_error

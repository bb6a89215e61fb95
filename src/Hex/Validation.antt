-- ===== src/Hex/Validation.antt =====
-- What the pattern of hexadecimal strings accepts.
use godwoken_web.Common.{ℕ, ◌+◌, ◌<◌, ◌≡◌, arith, true, ◌&&◌, some, leb, if◌then◌else◌}
use godwoken_web.Hex.{hex_value, hex_digit, is_hex}

-- A digit that is read is printed in lower case.
pub hex_digit-hex_value :
    (c d : ℕ)
    → hex_value c ≡ some d
    → hex_digit d ≡ (if leb b'A' c && leb c b'Z' then c + 32 else c)
unfolding hex_value hex_digit
hex_digit-hex_value c d h = ground arith

pub is_hex-some : (c : ℕ) → is_hex c ≡ true → (d : ℕ) × (hex_value c ≡ some d) × (d < 16)
unfolding is_hex
is_hex-some c h = ground arith

pub is_hex-lower : (c : ℕ) → is_hex (if leb b'A' c && leb c b'Z' then c + 32 else c) ≡ is_hex c
unfolding is_hex
is_hex-lower c = ground arith

-- ===== src/Address/Deserialize.antt =====
-- What `Deserialize` does with any text.
use godwoken_web.Common.{
  ℕ, ◌≤◌, ◌≡◌, ◌⊎◌, inl, inr, arith, false, length, drop, slice, length-take, Text, err, Bool-cases,
  ◌==◌, not_hex_number, little_endian_format, little_endian_format,
}
use godwoken_web.Hex.{validate_hex_number, assert_hex_number}
use godwoken_web.Uint.Uint32
use godwoken_web.Address.{deserialize}

-- A text of eight characters at most is refused by `Uint32.fromLittleEndian`, which wants ten.
uint32_from_short :
    (s : Text)
    → length s ≤ 8
    → (Uint32.from_little_endian s ≡ err not_hex_number)
      ⊎ (Uint32.from_little_endian s ≡ err little_endian_format)
unfolding Uint32.from_little_endian assert_hex_number
uint32_from_short s h = elim (Bool-cases (validate_hex_number s)) [
  | inl e ↦ inr (let short : (length s == 10) ≡ false = ground arith in rw e (rw short))
  | inr e ↦ inl (rw e)
]

-- `Deserialize` refuses every text: it reads the size from eight characters without the prefix 0x.
pub deserialize_refuses :
    (registry_id : ℕ) (hex : Text)
    → (deserialize registry_id hex ≡ err not_hex_number)
      ⊎ (deserialize registry_id hex ≡ err little_endian_format)
unfolding deserialize
deserialize_refuses registry_id hex =
    elim (uint32_from_short (slice 8 16 (drop 2 hex))
      (omega (arith, length-take 8 (drop 8 (drop 2 hex))))) [
        | inl e ↦ inl (rw e)
        | inr e ↦ inr (rw e)
      ]

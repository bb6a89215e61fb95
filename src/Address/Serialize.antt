-- ===== src/Address/Serialize.antt =====
-- What `serialize` writes.
use godwoken_web.Common.{
  ◌&&◌, ◌>>=◌, Bool-cases, inl, inr, if◌then◌else◌, ◌==◌, starts_with, err, address_format, suc,
  zero, [], ℕ, ◌≤◌, ◌≡◌, refl, ap, ◌++◌, arith, length, drop, Text, codes, ok, ltb-false, ◌∙◌, ◌∷◌,
}
use godwoken_web.Hex.{x_prefix, hex_digit}
use godwoken_web.Buffer
use godwoken_web.Buffer.{le_bytes}
use godwoken_web.Buffer.Words.{write_uint_le_fits}
use godwoken_web.Uint.Uint32
use godwoken_web.Address.{EthRegistryAddress, make, serialize, le_text, to_lower_case}

pub le_text_lem : (n : ℕ) → n ≤ Uint32.max_value → le_text n ≡ ok (Buffer.to_hex (le_bytes 4 n))
unfolding le_text Uint32.make Uint32.to_little_endian
le_text_lem n h = rw (ltb-false Uint32.max_value n h) (rw (write_uint_le_fits 4 n (omega arith)))

-- The four bytes of the registry's id, the four bytes of the number 20, and the address.
pub serialize_lem :
    (a : EthRegistryAddress)
    → a.registry_id ≤ Uint32.max_value
    → a.address_byte_size ≡ 20
    → serialize a
      ≡ ok (
          x_prefix
          ++ (Buffer.to_hex (le_bytes 4 a.registry_id) ++ (codes "14000000" ++ drop 2 a.address)))
unfolding serialize
serialize_lem a h e =
    rw (le_text_lem a.registry_id h)
      (rw (e, le_text_lem 20 (omega arith)) (unfold Buffer.to_hex le_bytes hex_digit in refl))

to_lower_case-drop : (n : ℕ) (s : Text) → drop n (to_lower_case s) ≡ to_lower_case (drop n s)
unfolding to_lower_case
to_lower_case-drop zero s = refl
to_lower_case-drop (suc n) [] = refl
to_lower_case-drop (suc n) (c ∷ s) = to_lower_case-drop n s

-- For every text and every registry id of 32 bits: a text with the prefix 0x and of 42 characters
-- is serialized as the id and the size 20, four bytes each and the lowest first, and the address in
-- lower case; any other text is refused with the address format error.
serialize-make :
    (id : ℕ) (text : Text)
    → id ≤ Uint32.max_value
    → (make id text >>= serialize) ≡ (
        if starts_with x_prefix text && length text == 42
        then ok (
            x_prefix
            ++ (Buffer.to_hex (le_bytes 4 id) ++ (codes "14000000" ++ to_lower_case (drop 2 text))))
        else err address_format)
unfolding make
serialize-make id text h = elim (Bool-cases (starts_with x_prefix text && length text == 42)) [
  | inl e ↦ rw e (
      serialize_lem
        (record { registry_id = id; address_byte_size = 20; address = to_lower_case text }) h refl
      ∙ ap
          (λ (r : Text).
            ok (x_prefix ++ (Buffer.to_hex (le_bytes 4 id) ++ (codes "14000000" ++ r))))
          (to_lower_case-drop 2 text))
  | inr e ↦ rw e
]

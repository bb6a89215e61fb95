-- ===== src/Buffer/Codec.antt =====
-- The hexadecimal codec: a buffer is read back from its print.
use godwoken_web.Common.{
  Text, none, Option-cases, inl, inr, ℕ, ◌*◌, ◌/◌, ◌%◌, ◌<◌, ◌≡◌, refl, true, [], ◌∷◌, ◌++◌, arith,
  some, ap, length, all, ok,
}
use godwoken_web.Hex.{hex_value, hex_digit, is_hex, hex_pairs, assert_hex_number, x_prefix}
use godwoken_web.Hex.Numbers.{hex_value-hex_digit, is_hex-hex_digit}
use godwoken_web.Buffer.{Bytes, IsBytes, byte_of, from_hex, to_hex}

byte_of_digits :
    (b : ℕ)
    → b < 256
    → byte_of (hex_value (hex_digit (b / 16))) (hex_value (hex_digit (b % 16))) ≡ some b
byte_of_digits b h =
    rw (hex_value-hex_digit (b / 16) (omega arith), hex_value-hex_digit (b % 16) (omega arith))
      (ap some (omega arith))

pub from_hex-to_hex : (bs : Bytes) → IsBytes bs → from_hex (to_hex bs) ≡ bs
unfolding from_hex to_hex
from_hex-to_hex [] h = refl
from_hex-to_hex (b ∷ bs) (hb, h) =
    rw (byte_of_digits b hb, from_hex) (ap (λ r. b ∷ r) (from_hex-to_hex bs h))

pub length-to_hex : (bs : Bytes) → length (to_hex bs) ≡ 2 * length bs
unfolding to_hex
length-to_hex [] = refl
length-to_hex (b ∷ bs) = omega (arith, length-to_hex bs)

pub to_hex-append : (xs bs : Bytes) → to_hex (xs ++ bs) ≡ to_hex xs ++ to_hex bs
unfolding to_hex
to_hex-append [] bs = refl
to_hex-append (a ∷ xs) bs =
    ap (λ r. hex_digit (a / 16) ∷ hex_digit (a % 16) ∷ r) (to_hex-append xs bs)

pub hex_pairs-to_hex : (bs : Bytes) → IsBytes bs → hex_pairs (to_hex bs) ≡ true
unfolding to_hex hex_pairs
hex_pairs-to_hex [] h = refl
hex_pairs-to_hex (b ∷ bs) (hb, h) =
    rw (is_hex-hex_digit (b / 16) (omega arith), is_hex-hex_digit (b % 16) (omega arith))
      (hex_pairs-to_hex bs h)

pub all-to_hex : (bs : Bytes) → IsBytes bs → all is_hex (to_hex bs) ≡ true
unfolding to_hex
all-to_hex [] h = refl
all-to_hex (b ∷ bs) (hb, h) =
    rw (is_hex-hex_digit (b / 16) (omega arith), is_hex-hex_digit (b % 16) (omega arith))
      (all-to_hex bs h)

-- The print of a buffer that is not empty is a hex number.
pub assert_hex_number-to_hex :
    (bs : Bytes) → IsBytes bs → 0 < length bs → assert_hex_number (x_prefix ++ to_hex bs) ≡ ok tt
unfolding assert_hex_number to_hex
assert_hex_number-to_hex [] h k = absurd (omega arith)
assert_hex_number-to_hex (b ∷ bs) (hb, h) k = rw (
  is_hex-hex_digit (b / 16) (omega arith),
  is_hex-hex_digit (b % 16) (omega arith),
  all-to_hex bs h,
)

none_not_some {ℓ} : {A : Type ℓ} {a : A} → none ≡ some a → ⊥
none_not_some h = cc

hex_value-lt : (c : ℕ) {d : ℕ} → hex_value c ≡ some d → d < 16
unfolding hex_value
hex_value-lt c h = ground arith

byte_of-lt : (c d : ℕ) {b : ℕ} → byte_of (hex_value c) (hex_value d) ≡ some b → b < 256
byte_of-lt c d h = elim (Option-cases (hex_value c)) [
  | inl e ↦ absurd (none_not_some (rw e at h))
  | inr (x, e) ↦ elim (Option-cases (hex_value d)) [
    | inl e' ↦ absurd (none_not_some (rw (e, e') at h))
    | inr (y, e') ↦ ground (arith, hex_value-lt c e, hex_value-lt d e')
  ]
]

pub from_hex-IsBytes : (s : Text) → IsBytes (from_hex s)
unfolding from_hex
from_hex-IsBytes [] = tt
from_hex-IsBytes (c ∷ []) = tt
from_hex-IsBytes (c ∷ d ∷ s) = elim (Option-cases (byte_of (hex_value c) (hex_value d))) [
  | inl e ↦ rw (e, from_hex) tt
  | inr (b, e) ↦ rw (e, from_hex) (byte_of-lt c d e, from_hex-IsBytes s)
]

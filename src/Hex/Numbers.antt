-- ===== src/Hex/Numbers.antt =====
-- Printing a number in base 16 and reading it back.
use godwoken_web.Common.{
  ℕ, zero, suc, ◌+◌, ◌*◌, ◌/◌, ◌%◌, ◌≤◌, ◌<◌, ◌^◌, ◌≡◌, refl, inl, inr, Bool-cases, ltb, length, [],
  ◌∷◌, some, true, ok, arith, all, Text,
}
use native.Mathlib.Nat.{pow-suc}
use godwoken_web.Hex.{
  hex_value, hex_digit, is_hex, scan, of_scan, big_int_digits, big_int, digits_from, to_string_16,
  to_hex_number, validate_hex_number,
}

-- A digit is read as the value that it was printed from.
pub hex_value-hex_digit : (d : ℕ) → d < 16 → hex_value (hex_digit d) ≡ some d
unfolding hex_value hex_digit
hex_value-hex_digit d h = ground arith

pub is_hex-hex_digit : (d : ℕ) → d < 16 → is_hex (hex_digit d) ≡ true
unfolding is_hex hex_digit
is_hex-hex_digit d h = ground arith

scan-digit : (acc d : ℕ) (s : Text) → d < 16 → scan acc (hex_digit d ∷ s) ≡ scan (acc * 16 + d) s
unfolding scan
scan-digit acc d s h = ground (arith, hex_value-hex_digit d h)

-- With fuel that is at least the number, what was printed is read back before the rest.
pub scan-digits_from :
    (fuel n : ℕ) (out : Text) → n ≤ fuel → scan 0 (digits_from fuel n out) ≡ scan n out
unfolding digits_from
scan-digits_from zero n out h = ground (arith, scan-digit 0 n out)
scan-digits_from (suc fuel) n out h = ground (
  arith,
  scan-digits_from fuel (n / 16) (hex_digit (n % 16) ∷ out),
  scan-digit (n / 16) (n % 16) out,
  scan-digit 0 n out,
)

pub scan-to_string_16 : (n : ℕ) → scan 0 (to_string_16 n) ≡ some n
unfolding to_string_16
scan-to_string_16 n = unfold scan in scan-digits_from n n [] (omega arith)

pub digits_from-nonempty :
    (fuel n : ℕ) (out : Text) → (c : ℕ) × (s : Text) × (digits_from fuel n out ≡ c ∷ s)
unfolding digits_from
digits_from-nonempty zero n out = (hex_digit n, out, refl)
digits_from-nonempty (suc fuel) n out = elim (Bool-cases (ltb n 16)) [
  | inl e ↦ (hex_digit n, out, rw e)
  | inr e ↦
      let (c, s, p) = digits_from-nonempty fuel (n / 16) (hex_digit (n % 16) ∷ out) in
      (c, s, rw e p)
]

big_int_digits-scan :
    (s : Text) {c : ℕ} {t : Text} → s ≡ c ∷ t → big_int_digits s ≡ of_scan (scan 0 s)
unfolding big_int_digits
big_int_digits-scan [] h = cc
big_int_digits-scan (c ∷ s) h = refl

pub big_int_digits-to_string_16 : (n : ℕ) → big_int_digits (to_string_16 n) ≡ ok n
big_int_digits-to_string_16 n =
    let (c, s, p) = digits_from-nonempty n n [] in
    rw (big_int_digits-scan (to_string_16 n) {c = c} {t = s} (unfold to_string_16 in p))
      (rw (scan-to_string_16 n))

-- Every number is read back from its hexadecimal print.
pub big_int-to_hex_number : (n : ℕ) → big_int (to_hex_number n) ≡ ok n
unfolding big_int to_hex_number
big_int-to_hex_number n = big_int_digits-to_string_16 n

digits_from-all :
    (fuel n : ℕ) (out : Text)
    → n ≤ fuel
    → all is_hex out ≡ true
    → all is_hex (digits_from fuel n out) ≡ true
unfolding digits_from
digits_from-all zero n out h k = ground (arith, is_hex-hex_digit n)
digits_from-all (suc fuel) n out h k = ground (
  arith,
  is_hex-hex_digit n,
  is_hex-hex_digit (n % 16),
  digits_from-all fuel (n / 16) (hex_digit (n % 16) ∷ out),
)

-- What is printed passes the check that every reader makes first.
pub validate_hex_number-to_hex_number : (n : ℕ) → validate_hex_number (to_hex_number n) ≡ true
unfolding validate_hex_number to_hex_number to_string_16
validate_hex_number-to_hex_number n =
    let (c, s, p) = digits_from-nonempty n n [] in
    let q = digits_from-all n n [] (omega arith) refl in rw p (rw p at q)

length-digits_from :
    (k fuel n : ℕ) (out : Text)
    → n ≤ fuel
    → n < 16 ^ suc k
    → length (digits_from fuel n out) ≤ suc k + length out
unfolding digits_from
length-digits_from k zero n out h b = omega arith
length-digits_from zero (suc fuel) n out h b = elim (Bool-cases (ltb n 16)) [
  | inl e ↦ rw e (omega arith)
  | inr e ↦ absurd (ground arith)
]
length-digits_from (suc k) (suc fuel) n out h b = elim (Bool-cases (ltb n 16)) [
  | inl e ↦ rw e (omega arith)
  | inr e ↦ rw e (
      omega (
        arith,
        length-digits_from k fuel (n / 16) (hex_digit (n % 16) ∷ out) (ground arith)
            (omega (arith, pow-suc 16 (suc k))),
      ))
]

-- A number below 16 ^ k takes at most k digits.
pub length-to_string_16 : (k n : ℕ) → n < 16 ^ suc k → length (to_string_16 n) ≤ suc k
unfolding to_string_16
length-to_string_16 k n h = omega (arith, length-digits_from k n n [] (omega arith) h)

-- ===== src/ExitCode/Matching.antt =====
-- Which entry `matchExitCode` finds.
use godwoken_web.Common.{
  get_elem?, some_injective, &&-parts, zero, suc, ◌↔◌, ℕ, ◌+◌, ◌-◌, ◌*◌, ◌<◌, ◌≡◌, refl, arith,
  some, List, [], ◌∷◌, Text, Option-cases, inl, inr, Bool, true, false, not, ◌&&◌, all, le→leb, sym,
  Bool-cases, ap, ◌∙◌,
}
use godwoken_web.Hex.{hex_value, scan, to_string_16, to_hex_number}
use godwoken_web.Hex.Numbers.{scan-to_string_16, digits_from-nonempty}
use godwoken_web.ExitCode.Evmc.{evmc_exit_code_mapping, polyjuice_exit_code_mapping}
use godwoken_web.ExitCode.Godwoken.{godwoken_exit_code_mapping}
use godwoken_web.ExitCode.{
  ℤ, pos, negsuc, ExitCode, scan_digits, parse_digits, parse_int, exit_code_hex_to_number,
  exit_code_number_to_hex, match_exit_code, hex, with_code, first_of, same,
}

-- Where all characters are digits, nothing is left out.
scan_digits-scan : (acc : ℕ) (s : Text) {n : ℕ} → scan acc s ≡ some n → scan_digits acc s ≡ n
unfolding scan scan_digits
scan_digits-scan acc [] h = cc
scan_digits-scan acc (c ∷ s) {n = n} h = elim (Option-cases (hex_value c)) [
  | inl e ↦ cc
  | inr (d, e) ↦ rw (e, scan_digits) (scan_digits-scan (acc * 16 + d) s (rw (e, scan) at h))
]

parse_digits-scan :
    (s : Text) {c : ℕ} {t : Text} {n : ℕ} → s ≡ c ∷ t → scan 0 s ≡ some n → parse_digits s ≡ some n
unfolding scan parse_digits
parse_digits-scan [] p h = cc
parse_digits-scan (c ∷ s) {n = n} p h = elim (Option-cases (hex_value c)) [
  | inl e ↦ cc
  | inr (d, e) ↦
      rw (e, parse_digits)
        (ap some (
          scan_digits-scan d s
            (ap (λ (k : ℕ). scan k s) {y = 0 * 16 + d} (omega arith) ∙ (rw (e, scan) at h))))
]

parse_int-to_hex_number : (n : ℕ) → parse_int (to_hex_number n) ≡ some n
unfolding parse_int to_hex_number
parse_int-to_hex_number n =
    let (c, s, p) = digits_from-nonempty n n [] in
    parse_digits-scan (to_string_16 n) {c = c} {t = s} (unfold to_string_16 in p)
      (scan-to_string_16 n)

abbrev pub IsSignedByte : ℤ → Type 0
IsSignedByte (pos n) = n < 128
IsSignedByte (negsuc k) = k < 128

pub number-hex :
    (z : ℤ) → IsSignedByte z → exit_code_hex_to_number (exit_code_number_to_hex z) ≡ some z
unfolding exit_code_hex_to_number exit_code_number_to_hex
number-hex (pos n) h = rw (exit_code_hex_to_number, parse_int-to_hex_number n) (ground arith)
number-hex (negsuc k) h =
    rw (le→leb k 255 (omega arith), exit_code_hex_to_number, parse_int-to_hex_number (255 - k))
      (ground arith)

same_refl : (z : ℤ) → same z z ≡ true
same_refl (pos n) = ground arith
same_refl (negsuc k) = ground arith

same_sound : (y z : ℤ) → same y z ≡ true → y ≡ z
same_sound (pos n) (pos m) h = ap pos (ground arith)
same_sound (pos n) (negsuc k) h = cc
same_sound (negsuc k) (pos n) h = cc
same_sound (negsuc k) (negsuc j) h = ap negsuc (ground arith)

-- No code stands twice.
abbrev pub apart : List ExitCode → Bool
apart [] = true
apart (e ∷ mapping) = all (λ d. not (same e.code d.code)) mapping && apart mapping

pub all-get_elem :
    (p : ExitCode → Bool) (mapping : List ExitCode) (i : ℕ) (e : ExitCode)
    → all p mapping ≡ true
    → get_elem? mapping i ≡ some e
    → p e ≡ true
all-get_elem p [] i e h k = cc
all-get_elem p (d ∷ mapping) zero e h k =
    let (passes, rest) = &&-parts (p d) (all p mapping) h in
    let q : d ≡ e = some_injective k in rw q at passes
all-get_elem p (d ∷ mapping) (suc i) e h k = all-get_elem p mapping i e (ground arith) k

found_sound :
    (z : ℤ) (mapping : List ExitCode) (e : ExitCode)
    → first_of (with_code z mapping) ≡ some e
    → (i : ℕ) × (get_elem? mapping i ≡ some e) × (e.code ≡ z)
found_sound z [] e h = cc
found_sound z (d ∷ mapping) e h = elim (Bool-cases (same d.code z)) [
  | inl b ↦
      let q : d ≡ e = some_injective (rw b at h) in
      (0, ap some q, ap (λ (c : ExitCode). c.code) (sym q) ∙ same_sound d.code z b)
  | inr b ↦ let (i, k, q) = found_sound z mapping e (rw b at h) in (suc i, k, q)
]

found_complete :
    (mapping : List ExitCode) (e : ExitCode) (i : ℕ)
    → apart mapping ≡ true
    → get_elem? mapping i ≡ some e
    → first_of (with_code e.code mapping) ≡ some e
found_complete [] e i h k = cc
found_complete (d ∷ mapping) e zero h k =
    let q : d ≡ e = some_injective k in rw q (rw (same_refl e.code) refl)
found_complete (d ∷ mapping) e (suc i) h k =
    let b : not (same d.code e.code) ≡ true =
      all-get_elem (λ c. not (same d.code c.code)) mapping i e (ground arith) k in
    let c : same d.code e.code ≡ false = ground (arith, b) in
    rw c (found_complete mapping e i (ground arith) k)

-- For a number of a signed byte and a table in which no code stands twice, the entry that is found for
-- the hexadecimal print of the number is the one of the table that has it as its code.
match_iff :
    (z : ℤ) (mapping : List ExitCode) (e : ExitCode)
    → IsSignedByte z
    → apart mapping ≡ true
    → (match_exit_code (hex (exit_code_number_to_hex z)) mapping ≡ some e)
      ↔ ((i : ℕ) × (get_elem? mapping i ≡ some e) × (e.code ≡ z))
unfolding match_exit_code
match_iff z mapping e h a =
    rw (number-hex z h)
      (found_sound z mapping e, λ (i, k, q). rw (sym q) (found_complete mapping e i a k))

evmc_apart : apart evmc_exit_code_mapping ≡ true
evmc_apart = refl

polyjuice_apart : apart polyjuice_exit_code_mapping ≡ true
polyjuice_apart = refl

godwoken_apart : apart godwoken_exit_code_mapping ≡ true
godwoken_apart = refl

-- The entry of a table.
abbrev pub IsCode : List ExitCode → ExitCode → ℤ → Type 0
IsCode mapping e z = (i : ℕ) × (get_elem? mapping i ≡ some e) × (e.code ≡ z)

-- For a number of a signed byte: in each of the three tables, the entry that is found for the
-- hexadecimal print of the number is the only one that has it as its code.
pub match_exit_code_iff :
    (z : ℤ) (e : ExitCode)
    → IsSignedByte z
    → ((match_exit_code (hex (exit_code_number_to_hex z)) evmc_exit_code_mapping ≡ some e)
        ↔ IsCode evmc_exit_code_mapping e z)
      × ((match_exit_code (hex (exit_code_number_to_hex z)) polyjuice_exit_code_mapping ≡ some e)
          ↔ IsCode polyjuice_exit_code_mapping e z)
      × ((match_exit_code (hex (exit_code_number_to_hex z)) godwoken_exit_code_mapping ≡ some e)
          ↔ IsCode godwoken_exit_code_mapping e z)
match_exit_code_iff z e h = (
  match_iff z evmc_exit_code_mapping e h evmc_apart,
  match_iff z polyjuice_exit_code_mapping e h polyjuice_apart,
  match_iff z godwoken_exit_code_mapping e h godwoken_apart,
)

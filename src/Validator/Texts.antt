-- ===== src/Validator/Texts.antt =====
-- What the validators of texts accept, said by the bytes that the text stands for.
use godwoken_web.Common.{
  suc, ℕ, ◌+◌, ◌*◌, ◌/◌, ◌%◌, ◌≡◌, ◌↔◌, refl, sym, ap, ◌∙◌, arith, Bool, true, false, [], ◌∷◌, ◌++◌,
  ◌==◌, length, length-map, drop, Text, text_eq_sound, starts_with, &&-parts,
}
use godwoken_web.Hex.{x_prefix, is_hex, hex_pairs, validate_hex_string}
use godwoken_web.Hex.Validation.{hex_digit-hex_value, is_hex-some, is_hex-lower}
use godwoken_web.Buffer.{Bytes, IsBytes, from_hex, to_hex}
use godwoken_web.Buffer.Codec.{from_hex-IsBytes, length-to_hex, hex_pairs-to_hex}
use godwoken_web.Address.{lower, to_lower_case}
use godwoken_web.Json.{Value, undefined, null, bool, num, str, arr, obj}
use godwoken_web.Validator.{
  accepted, ◌>>>◌, >>>_iff, demand, text_of, verify_hex_string, verify_address, verify_block_hash,
  verify_tx_hash, verify_filter_topic_string,
}

-- A text of digit pairs, put in lower case, is the print of the bytes that are read from it.
pairs-to_hex : (t : Text) → hex_pairs t ≡ true → to_lower_case t ≡ to_hex (from_hex t)
unfolding hex_pairs from_hex to_hex to_lower_case
pairs-to_hex [] h = refl
pairs-to_hex (c ∷ []) h = cc
pairs-to_hex (c ∷ d ∷ t) h =
    let hc : is_hex c ≡ true = ground arith in
    let hd : is_hex d ≡ true = ground arith in
    let ht : hex_pairs t ≡ true = ground arith in
    let (x, ex, lx) = is_hex-some c hc in
    let (y, ey, ly) = is_hex-some d hd in
    let high : (x * 16 + y) / 16 ≡ x = omega arith in
    let low : (x * 16 + y) % 16 ≡ y = omega arith in
    rw (ex, ey, from_hex)
      (rw (high, low)
        (rw (hex_digit-hex_value c x ex, hex_digit-hex_value d y ey)
          (unfold lower in ap (λ (r : Text). lower c ∷ lower d ∷ r) (pairs-to_hex t ht))))

hex_pairs-lower : (t : Text) → hex_pairs (to_lower_case t) ≡ hex_pairs t
unfolding hex_pairs to_lower_case
hex_pairs-lower [] = refl
hex_pairs-lower (c ∷ []) = refl
hex_pairs-lower (c ∷ d ∷ t) = unfold lower in rw (is_hex-lower c, is_hex-lower d, hex_pairs-lower t)

-- A text that spells a number of bytes behind the prefix 0x, in digits of either case.
pub record IsHexText (buf : Bytes) (v : Value) : Type 0 where
  pub digits : Text
  pub is_str : v ≡ str (x_prefix ++ digits)
  pub is_bytes : IsBytes buf
  pub spelt : to_lower_case digits ≡ to_hex buf

starts-prefix : (s : Text) → starts_with x_prefix s ≡ true → s ≡ x_prefix ++ drop 2 s
unfolding starts_with
starts-prefix [] h = cc
starts-prefix (c ∷ []) h = absurd (omega (arith, ap length (text_eq_sound (c ∷ []) x_prefix h)))
starts-prefix (c ∷ d ∷ s) h = ap (λ (r : Text). r ++ s) (text_eq_sound (c ∷ d ∷ []) x_prefix h)

pub demand-true : (b : Bool) → demand b ≡ accepted → b ≡ true
demand-true true h = refl
demand-true false h = cc

accepted_str :
    (s : Text) → verify_hex_string (str s) ≡ accepted → IsHexText (from_hex (drop 2 s)) (str s)
unfolding verify_hex_string
accepted_str s h =
    let even = demand (length s % 2 == 0) in
    let valid = demand (validate_hex_string s) in
    let (h1, h2) = (>>>_iff (demand (starts_with x_prefix s)) (even >>> valid)).0 h in
    let starts = demand-true (starts_with x_prefix s) h1 in
    let all_pairs = demand-true (validate_hex_string s) ((>>>_iff even valid).0 h2).1 in
    let pairs : hex_pairs (drop 2 s) ≡ true =
      unfold validate_hex_string in
      (&&-parts (starts_with x_prefix s) (hex_pairs (drop 2 s)) all_pairs).1 in
    record {
      digits = drop 2 s;
      is_str = ap str (starts-prefix s starts);
      is_bytes = from_hex-IsBytes (drop 2 s);
      spelt = pairs-to_hex (drop 2 s) pairs;
    }

verify_hex_string_sound :
    (v : Value) → verify_hex_string v ≡ accepted → (buf : Bytes) × IsHexText buf v
verify_hex_string_sound (str s) h = (from_hex (drop 2 s), accepted_str s h)
verify_hex_string_sound undefined h = unfold verify_hex_string in cc
verify_hex_string_sound null h = unfold verify_hex_string in cc
verify_hex_string_sound (bool b) h = unfold verify_hex_string in cc
verify_hex_string_sound (num n) h = unfold verify_hex_string in cc
verify_hex_string_sound (arr vs) h = unfold verify_hex_string in cc
verify_hex_string_sound (obj fs) h = unfold verify_hex_string in cc

length-digits :
    (buf : Bytes) (digits : Text)
    → to_lower_case digits ≡ to_hex buf
    → length digits ≡ 2 * length buf
length-digits buf digits e =
    sym (length-map lower digits) ∙ unfold to_lower_case in (ap length e ∙ length-to_hex buf)

verify_hex_string_complete :
    (v : Value) (buf : Bytes) → IsHexText buf v → verify_hex_string v ≡ accepted
unfolding verify_hex_string validate_hex_string starts_with
verify_hex_string_complete v buf t =
    let even : (suc (suc (length t.digits)) % 2 == 0) ≡ true =
      ground (arith, length-digits buf t.digits t.spelt) in
    let pairs : hex_pairs t.digits ≡ true =
      sym (hex_pairs-lower t.digits) ∙ ap hex_pairs t.spelt ∙ hex_pairs-to_hex buf t.is_bytes in
    rw t.is_str (rw (even, pairs))

-- The check that the text spells a given number of bytes.
sized_iff :
    (n : ℕ) (v : Value)
    → ((verify_hex_string v >>> demand (length (drop 2 (text_of v)) == 2 * n)) ≡ accepted)
      ↔ ((buf : Bytes) × IsHexText buf v × (length buf ≡ n))
sized_iff n v = (to, from)
  where
    to :
        (verify_hex_string v >>> demand (length (drop 2 (text_of v)) == 2 * n)) ≡ accepted
        → (buf : Bytes) × IsHexText buf v × (length buf ≡ n)
    to h =
        let (h1, h2) =
          (>>>_iff (verify_hex_string v) (demand (length (drop 2 (text_of v)) == 2 * n))).0 h in
        let (buf, t) = verify_hex_string_sound v h1 in
        let l = length-digits buf t.digits t.spelt in
        let k : length (drop 2 (text_of v)) ≡ length t.digits =
          ap (λ w. length (drop 2 (text_of w))) t.is_str in
        (buf, t, ground (arith, l, k, h2))

    from :
        (buf : Bytes) × IsHexText buf v × (length buf ≡ n)
        → (verify_hex_string v >>> demand (length (drop 2 (text_of v)) == 2 * n)) ≡ accepted
    from (buf, t, e) =
        let l = length-digits buf t.digits t.spelt in
        let k : length (drop 2 (text_of v)) ≡ length t.digits =
          ap (λ w. length (drop 2 (text_of w))) t.is_str in
        let good : (length (drop 2 (text_of v)) == 2 * n) ≡ true = ground (arith, l, k, e) in
        rw (verify_hex_string_complete v buf t, good)

-- The validators of texts accept exactly the texts that spell bytes, in digits of either case behind
-- the prefix 0x: 20 bytes for an address, 32 for a block hash, a transaction hash or a topic, and any
-- number for a hex string.
pub texts_iff :
    (v : Value)
    → ((verify_hex_string v ≡ accepted) ↔ ((buf : Bytes) × IsHexText buf v))
      × ((verify_address v ≡ accepted) ↔ ((buf : Bytes) × IsHexText buf v × (length buf ≡ 20)))
      × ((verify_block_hash v ≡ accepted) ↔ ((buf : Bytes) × IsHexText buf v × (length buf ≡ 32)))
      × ((verify_tx_hash v ≡ accepted) ↔ ((buf : Bytes) × IsHexText buf v × (length buf ≡ 32)))
      × ((verify_filter_topic_string v ≡ accepted)
          ↔ ((buf : Bytes) × IsHexText buf v × (length buf ≡ 32)))
unfolding verify_address verify_block_hash verify_tx_hash verify_filter_topic_string
texts_iff v = (
  (verify_hex_string_sound v, λ p. verify_hex_string_complete v p.0 p.1),
  sized_iff 20 v,
  sized_iff 32 v,
  sized_iff 32 v,
  sized_iff 32 v,
)

-- ===== src/Polyjuice/RoundTrip.antt =====
-- What `decodePolyjuiceArgs` reads from the bytes that `buildPolyjuiceArgs` writes.
use godwoken_web.Common.{
  ℕ, ◌+◌, ◌^◌, ◌<◌, ◌≤◌, ◌≡◌, refl, ap, ◌∙◌, arith, Bool, true, false, Option, none, some, [], ◌∷◌,
  ◌++◌, length, length-append, append_assoc, append-nil, drop, slice, slice_at, slice_skip, Text,
  ok, ◌>>=◌, get_elem?, le→leb, take-append, replicate, ◌==◌, if◌then◌else◌,
}
use godwoken_web.Hex.{x_prefix, to_hex_number}
use godwoken_web.Buffer.{Bytes, IsBytes, le_bytes, from_hex, to_hex}
use godwoken_web.Buffer.Codec.{from_hex-to_hex, from_hex-IsBytes}
use godwoken_web.Buffer.Words.{length-le_bytes}
use godwoken_web.Uint.Uint32
use godwoken_web.Uint.Uint64
use godwoken_web.Uint.Uint128
use godwoken_web.Uint.RoundTrip.{u128_bytes, uint32_of_bytes, uint64_of_bytes, uint128_of_bytes}
use godwoken_web.Polyjuice.{
  args_header, call_kind, recipient_field, build_polyjuice_args, decode_polyjuice_args, is_three,
}
use godwoken_web.Polyjuice.Header.{header_accepts_any}
use godwoken_web.Polyjuice.Layout.{
  layout, build-layout, layout-IsBytes, length-layout, length-u128_bytes,
}

abbrev pub IsAddress : Option Bytes → Type 0
IsAddress none = Unit
IsAddress (some a) = IsBytes a × (length a ≡ 20)

abbrev pub bytes_of : Option Bytes → Bytes
bytes_of none = []
bytes_of (some a) = a

-- An address of 20 bytes as text.
abbrev pub address_text : Option Bytes → Option Text
address_text none = none
address_text (some a) = some (x_prefix ++ to_hex a)

-- Decoding a buffer whose fields are known.
module _ (args : Text) (w : Bytes) (gas gas_price value n : ℕ) (from : from_hex (drop 2 args) ≡ w)
    (at_gas : slice 8 16 w ≡ le_bytes 8 gas) (at_gas_price : slice 16 32 w ≡ u128_bytes gas_price)
    (at_value : slice 32 48 w ≡ u128_bytes value) (at_size : slice 48 52 w ≡ le_bytes 4 n) where
  decode_fields :
      gas < 2 ^ 64
      → gas_price < 2 ^ 128
      → value < 2 ^ 128
      → n < 2 ^ 32
      → 52 ≤ length w
      → decode_polyjuice_args args
        ≡ ok (record {
          is_create = is_three (get_elem? w 7);
          gas_limit = to_hex_number gas;
          gas_price = to_hex_number gas_price;
          value = to_hex_number value;
          input_size = to_hex_number n;
          input = x_prefix ++ to_hex (slice 52 (52 + n) w);
          to_address_when_native_transfer =
              if length w == 52 + n + 20
              then some (x_prefix ++ to_hex (slice (52 + n) (52 + n + 20) w))
              else none;
        })
  unfolding decode_polyjuice_args Uint32.to_hex Uint64.to_hex Uint128.to_hex
  decode_fields hg hp hv hn hw = rw (header_accepts_any args) (
      rw from (
        rw (le→leb 52 (length w) hw) (
          rw (at_gas, uint64_of_bytes gas (omega arith))
            (rw (at_gas_price, uint128_of_bytes gas_price (omega arith))
              (rw (at_value, uint128_of_bytes value (omega arith))
                (rw (at_size, uint32_of_bytes n (omega arith)) refl))))))

module _ (is_create : Bool) (gas gas_price value : ℕ) (buf rest : Bytes) where
  abbrev whole : Bytes
  whole = layout is_create gas gas_price value buf rest

  -- The 52 bytes before the data.
  abbrev front : Bytes
  front =
      (args_header ++ call_kind is_create ∷ [])
      ++ (le_bytes 8 gas ++ (u128_bytes gas_price ++ (u128_bytes value ++ le_bytes 4 (length buf))))

  length-front : length front ≡ 52
  length-front = simp (length-append, length-le_bytes)

  whole-front : whole ≡ front ++ (buf ++ rest)
  whole-front = simp append_assoc

  -- What stands from the data, the size, the value and the gas price on.
  abbrev from_data : Bytes
  from_data = buf ++ rest

  abbrev from_size : Bytes
  from_size = le_bytes 4 (length buf) ++ from_data

  abbrev from_value : Bytes
  from_value = u128_bytes value ++ from_size

  abbrev from_gas_price : Bytes
  from_gas_price = u128_bytes gas_price ++ from_value

  abbrev kind_bytes : Bytes
  kind_bytes = args_header ++ call_kind is_create ∷ []

  slice_gas : slice 8 16 whole ≡ le_bytes 8 gas
  slice_gas = slice_at kind_bytes (le_bytes 8 gas) from_gas_price 8 8 refl (length-le_bytes 8 gas)

  slice_gas_price : slice 16 32 whole ≡ u128_bytes gas_price
  slice_gas_price =
      slice_skip kind_bytes (le_bytes 8 gas ++ from_gas_price) 8 8 24 refl
      ∙ slice_at (le_bytes 8 gas) (u128_bytes gas_price) from_value 8 16 (length-le_bytes 8 gas)
          (length-u128_bytes gas_price)

  slice_value : slice 32 48 whole ≡ u128_bytes value
  slice_value =
      slice_skip kind_bytes (le_bytes 8 gas ++ from_gas_price) 8 24 40 refl
      ∙ slice_skip (le_bytes 8 gas) from_gas_price 8 16 32 (length-le_bytes 8 gas)
      ∙ slice_at (u128_bytes gas_price) (u128_bytes value) from_size 16 16
          (length-u128_bytes gas_price) (length-u128_bytes value)

  slice_size : slice 48 52 whole ≡ le_bytes 4 (length buf)
  slice_size =
      slice_skip kind_bytes (le_bytes 8 gas ++ from_gas_price) 8 40 44 refl
      ∙ slice_skip (le_bytes 8 gas) from_gas_price 8 32 36 (length-le_bytes 8 gas)
      ∙ slice_skip (u128_bytes gas_price) from_value 16 16 20 (length-u128_bytes gas_price)
      ∙ slice_at (u128_bytes value) (le_bytes 4 (length buf)) from_data 16 4
          (length-u128_bytes value) (length-le_bytes 4 (length buf))

  slice_input : slice 52 (52 + length buf) whole ≡ buf
  slice_input = rw whole-front (slice_at front buf rest 52 (length buf) length-front refl)

  slice_recipient :
      (n : ℕ) → length rest ≡ n → slice (52 + length buf) (52 + length buf + n) whole ≡ rest
  slice_recipient n e =
      let p =
        slice_at (front ++ buf) rest [] (52 + length buf) n
          (omega (arith, length-append front buf, length-front)) e in
      let q : whole ≡ (front ++ buf) ++ (rest ++ []) = simp (append_assoc, append-nil) in rw q p

  -- What the decoder makes of a layout: the recipient is there when the rest has 20 bytes.
  decode-layout :
      IsBytes buf
      → IsBytes rest
      → gas < 2 ^ 64
      → gas_price < 2 ^ 128
      → value < 2 ^ 128
      → length buf < 2 ^ 32
      → decode_polyjuice_args (x_prefix ++ to_hex whole)
        ≡ ok (record {
          is_create = is_three (some (call_kind is_create));
          gas_limit = to_hex_number gas;
          gas_price = to_hex_number gas_price;
          value = to_hex_number value;
          input_size = to_hex_number (length buf);
          input = x_prefix ++ to_hex (slice 52 (52 + length buf) whole);
          to_address_when_native_transfer =
              if length whole == 52 + length buf + 20
              then some (x_prefix ++ to_hex (slice (52 + length buf) (52 + length buf + 20) whole))
              else none;
        })
  decode-layout hb hr hg hp hv hd =
      decode_fields (x_prefix ++ to_hex whole) whole gas gas_price value (length buf)
        (from_hex-to_hex whole (layout-IsBytes is_create gas gas_price value buf rest hb hr))
        slice_gas slice_gas_price slice_value slice_size hg hp hv hd
        (omega (arith, length-layout is_create gas gas_price value buf rest))

is_three-call_kind : (b : Bool) → is_three (some (call_kind b)) ≡ b
is_three-call_kind true = refl
is_three-call_kind false = refl

recipient-IsBytes : (to : Option Bytes) → IsAddress to → IsBytes (bytes_of to)
recipient-IsBytes none h = tt
recipient-IsBytes (some a) h = h.0

pub recipient_field-address_text :
    (to : Option Bytes) → IsAddress to → recipient_field (address_text to) ≡ bytes_of to
recipient_field-address_text none h = refl
recipient_field-address_text (some a) (h, e) =
    rw (from_hex-to_hex a h) (take-append a (replicate 20 0) 20 e)

module _ (is_create : Bool) (gas gas_price value : ℕ) (buf : Bytes) where
  recipient_lem :
      (to : Option Bytes)
      → IsAddress to
      → (if length (layout is_create gas gas_price value buf (bytes_of to)) == 52 + length buf + 20
          then some (
              x_prefix
              ++ to_hex (
                  slice
                    (52 + length buf)
                    (52 + length buf + 20)
                    (layout is_create gas gas_price value buf (bytes_of to))))
          else none)
        ≡ address_text to
  recipient_lem none h =
      let e : (length (layout is_create gas gas_price value buf []) == 52 + length buf + 20)
          ≡ false =
        ground (arith, length-layout is_create gas gas_price value buf []) in
      rw e
  recipient_lem (some a) (h, k) =
      let e : (length (layout is_create gas gas_price value buf a) == 52 + length buf + 20) ≡ true =
        ground (arith, length-layout is_create gas gas_price value buf a) in
      rw e (
        ap (λ (r : Bytes). some (x_prefix ++ to_hex r))
          (slice_recipient is_create gas gas_price value buf a 20 k))

-- Decoding what was built gives back every field: for numbers that fit their fields, data of less
-- than 2 ^ 32 bytes and, for a native transfer, a recipient of 20 bytes.
pub decode-build :
    (is_create : Bool) (gas gas_price value : ℕ) (text : Text) (to : Option Bytes)
    → gas < 2 ^ 64
    → gas_price < 2 ^ 128
    → value < 2 ^ 128
    → length (from_hex (drop 2 text)) < 2 ^ 32
    → IsAddress to
    → (build_polyjuice_args is_create gas gas_price value text (address_text to)
        >>= decode_polyjuice_args)
      ≡ ok (record {
        is_create = is_create;
        gas_limit = to_hex_number gas;
        gas_price = to_hex_number gas_price;
        value = to_hex_number value;
        input_size = to_hex_number (length (from_hex (drop 2 text)));
        input = x_prefix ++ to_hex (from_hex (drop 2 text));
        to_address_when_native_transfer = address_text to;
      })
decode-build is_create gas gas_price value text to hg hp hv hd ha =
    let buf = from_hex (drop 2 text) in
    rw (build-layout is_create gas gas_price value text (address_text to) hg hp hv hd) (
      rw (recipient_field-address_text to ha) (
        decode-layout is_create gas gas_price value buf (bytes_of to)
          (from_hex-IsBytes (drop 2 text)) (recipient-IsBytes to ha) hg hp hv hd
        ∙ (λ i. ok (record {
          is_create = is_three-call_kind is_create i;
          gas_limit = to_hex_number gas;
          gas_price = to_hex_number gas_price;
          value = to_hex_number value;
          input_size = to_hex_number (length buf);
          input =
              x_prefix ++ to_hex (slice_input is_create gas gas_price value buf (bytes_of to) i);
          to_address_when_native_transfer = recipient_lem is_create gas gas_price value buf to ha i;
        }))))

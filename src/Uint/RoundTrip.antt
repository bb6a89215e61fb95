-- ===== src/Uint/RoundTrip.antt =====
-- Writing a number in little-endian hexadecimal and reading it back.
use godwoken_web.Common.{
  ℕ, ◌+◌, ◌*◌, ◌/◌, ◌%◌, ◌^◌, ◌≤◌, ◌<◌, ◌≡◌, refl, [], ◌++◌, arith, length, ltb-false, ok, take_all,
  length-append, append-nil, All-append, ◌>>=◌, take,
}
use godwoken_web.Hex.{x_prefix}
use godwoken_web.Buffer
use godwoken_web.Buffer.{Bytes, IsBytes, le_bytes, read_uint_le}
use godwoken_web.Buffer.Codec.{from_hex-to_hex, length-to_hex, assert_hex_number-to_hex}
use godwoken_web.Buffer.Words.{
  le_bytes-IsBytes, length-le_bytes, write_uint_le_fits, read_uint_le-le_bytes, read_uint_le_skip,
}
use godwoken_web.Uint.Uint32
use godwoken_web.Uint.Uint32.{Uint32}
use godwoken_web.Uint.Uint64
use godwoken_web.Uint.Uint64.{Uint64}
use godwoken_web.Uint.Uint128
use godwoken_web.Uint.Uint128.{Uint128}
use godwoken_web.Uint.Uint256
use godwoken_web.Uint.Uint256.{Uint256}

-- A word that is a whole buffer, and one at its end.
read_last :
    (k n : ℕ) (before : Bytes) (offset : ℕ)
    → n < 256 ^ k
    → length before ≡ offset
    → read_uint_le k offset (before ++ le_bytes k n) ≡ ok n
read_last k n before offset h e =
    rw (append-nil (le_bytes k n)) at (read_uint_le-le_bytes k n before [] offset h e)

uint32_from_le :
    (buf : Bytes)
    → IsBytes buf
    → length buf ≡ 4
    → Uint32.from_little_endian (x_prefix ++ Buffer.to_hex buf)
      ≡ (read_uint_le 4 0 buf >>= Uint32.make)
unfolding Uint32.from_little_endian
uint32_from_le buf h e =
    rw (assert_hex_number-to_hex buf h (omega arith))
      (rw (length-to_hex buf, e) (rw (from_hex-to_hex buf h)))

uint64_from_le :
    (buf : Bytes)
    → IsBytes buf
    → length buf ≡ 8
    → Uint64.from_little_endian (x_prefix ++ Buffer.to_hex buf)
      ≡ (read_uint_le 8 0 buf >>= Uint64.make)
unfolding Uint64.from_little_endian
uint64_from_le buf h e =
    rw (assert_hex_number-to_hex buf h (omega arith))
      (rw (length-to_hex buf, e) (rw (from_hex-to_hex buf h)))

-- The text behind the prefix, cut at the length of the buffer.
take-to_hex :
    (buf : Bytes) (n : ℕ) → 2 * length buf ≡ n → take n (Buffer.to_hex buf) ≡ Buffer.to_hex buf
take-to_hex buf n e = take_all (Buffer.to_hex buf) n (omega (arith, length-to_hex buf))

uint128_from_le :
    (buf : Bytes)
    → IsBytes buf
    → length buf ≡ 16
    → Uint128.from_little_endian (x_prefix ++ Buffer.to_hex buf) ≡ (
        read_uint_le 8 8 buf >>= λ high.
        read_uint_le 8 0 buf >>= λ low. Uint128.make (high * 2 ^ 64 + low))
unfolding Uint128.from_little_endian
uint128_from_le buf h e =
    rw (length-to_hex buf, e) (rw (take-to_hex buf 32 (omega arith)) (rw (from_hex-to_hex buf h)))

uint256_from_le :
    (buf : Bytes)
    → IsBytes buf
    → length buf ≡ 32
    → Uint256.from_little_endian (x_prefix ++ Buffer.to_hex buf) ≡ (
        read_uint_le 8 0 buf >>= λ w0. read_uint_le 8 8 buf >>= λ w1.
        read_uint_le 8 16 buf >>= λ w2. read_uint_le 8 24 buf >>= λ w3.
        Uint256.make (w0 + w1 * 2 ^ 64 + w2 * 2 ^ 128 + w3 * 2 ^ 192))
unfolding Uint256.from_little_endian
uint256_from_le buf h e =
    rw (length-to_hex buf, e) (rw (take-to_hex buf 64 (omega arith)) (rw (from_hex-to_hex buf h)))

pub uint32_of_bytes :
    (n : ℕ)
    → n ≤ Uint32.max_value
    → Uint32.from_little_endian (x_prefix ++ Buffer.to_hex (le_bytes 4 n))
      ≡ ok (record { value = n })
uint32_of_bytes n h =
    rw
      (
        uint32_from_le _ (le_bytes-IsBytes 4 n) (length-le_bytes 4 n),
        read_last 4 n [] 0 (omega arith) refl,
      )
      (unfold Uint32.make in rw (ltb-false Uint32.max_value n h))

-- `Uint32.fromLittleEndian` undoes `toLittleEndian`.
pub uint32_le :
    (n : ℕ)
    → n ≤ Uint32.max_value
    → (Uint32.to_little_endian (record { value = n }) >>= Uint32.from_little_endian)
      ≡ ok (record { value = n })
unfolding Uint32.to_little_endian
uint32_le n h = rw (write_uint_le_fits 4 n (omega arith)) (uint32_of_bytes n h)

pub uint64_of_bytes :
    (n : ℕ)
    → n ≤ Uint64.max_value
    → Uint64.from_little_endian (x_prefix ++ Buffer.to_hex (le_bytes 8 n))
      ≡ ok (record { value = n })
uint64_of_bytes n h =
    rw
      (
        uint64_from_le _ (le_bytes-IsBytes 8 n) (length-le_bytes 8 n),
        read_last 8 n [] 0 (omega arith) refl,
      )
      (unfold Uint64.make in rw (ltb-false Uint64.max_value n h))

-- `Uint64.fromLittleEndian` undoes `toLittleEndian`.
pub uint64_le :
    (n : ℕ)
    → n ≤ Uint64.max_value
    → (Uint64.to_little_endian (record { value = n }) >>= Uint64.from_little_endian)
      ≡ ok (record { value = n })
unfolding Uint64.to_little_endian
uint64_le n h = rw (write_uint_le_fits 8 n (omega arith)) (uint64_of_bytes n h)

module _ (a b : ℕ) (ha : a < 2 ^ 64) (hb : b < 2 ^ 64) where
  abbrev two_words : Bytes
  two_words = le_bytes 8 a ++ le_bytes 8 b

  two_words-IsBytes : IsBytes two_words
  two_words-IsBytes = All-append (λ c. c < 256) _ _ (le_bytes-IsBytes 8 a) (le_bytes-IsBytes 8 b)

  length-two_words : length two_words ≡ 16
  length-two_words =
      omega (
        arith,
        length-append (le_bytes 8 a) (le_bytes 8 b),
        length-le_bytes 8 a,
        length-le_bytes 8 b,
      )

  uint128_of_words :
      Uint128.from_little_endian (x_prefix ++ Buffer.to_hex two_words)
      ≡ Uint128.make (b * 2 ^ 64 + a)
  uint128_of_words = rw (
    uint128_from_le two_words two_words-IsBytes length-two_words,
    read_last 8 b (le_bytes 8 a) 8 hb (length-le_bytes 8 a),
    read_uint_le-le_bytes 8 a [] (le_bytes 8 b) 0 ha refl,
  )

-- The two words of a number of 128 bits.
abbrev pub u128_bytes : ℕ → Bytes
u128_bytes n = le_bytes 8 (n % 2 ^ 64) ++ le_bytes 8 (n / 2 ^ 64)

pub uint128_of_bytes :
    (n : ℕ)
    → n ≤ Uint128.max_value
    → Uint128.from_little_endian (x_prefix ++ Buffer.to_hex (u128_bytes n))
      ≡ ok (record { value = n })
uint128_of_bytes n h = rw (uint128_of_words (n % 2 ^ 64) (n / 2 ^ 64) (omega arith) (omega arith)) (
    unfold Uint128.make in
    let e : n / 2 ^ 64 * 2 ^ 64 + n % 2 ^ 64 ≡ n = omega arith in
    rw e (rw (ltb-false Uint128.max_value n h)))

-- `Uint128.fromLittleEndian` undoes `toLittleEndian`.
pub uint128_le :
    (n : ℕ)
    → n ≤ Uint128.max_value
    → (Uint128.to_little_endian (record { value = n }) >>= Uint128.from_little_endian)
      ≡ ok (record { value = n })
unfolding Uint128.to_little_endian
uint128_le n h =
    rw
      (
        write_uint_le_fits 8 (n % 2 ^ 64) (omega arith),
        write_uint_le_fits 8 (n / 2 ^ 64) (omega arith),
      )
      (uint128_of_bytes n h)

module _ (a b c d : ℕ) (ha : a < 2 ^ 64) (hb : b < 2 ^ 64) (hc : c < 2 ^ 64) (hd : d < 2 ^ 64) where
  abbrev four_words : Bytes
  four_words = le_bytes 8 a ++ (le_bytes 8 b ++ (le_bytes 8 c ++ le_bytes 8 d))

  four_words-IsBytes : IsBytes four_words
  four_words-IsBytes =
      All-append (λ x. x < 256) _ _ (le_bytes-IsBytes 8 a)
        (All-append (λ x. x < 256) _ _ (le_bytes-IsBytes 8 b)
          (All-append (λ x. x < 256) _ _ (le_bytes-IsBytes 8 c) (le_bytes-IsBytes 8 d)))

  length-four_words : length four_words ≡ 32
  length-four_words = simp (length-append, length-le_bytes)

  uint256_of_words :
      Uint256.from_little_endian (x_prefix ++ Buffer.to_hex four_words)
      ≡ Uint256.make (a + b * 2 ^ 64 + c * 2 ^ 128 + d * 2 ^ 192)
  uint256_of_words = rw (
    uint256_from_le four_words four_words-IsBytes length-four_words,
    read_uint_le-le_bytes 8 a [] _ 0 ha refl,
    read_uint_le_skip 8 0 (le_bytes 8 a) _ 8 (length-le_bytes 8 a),
    read_uint_le-le_bytes 8 b [] _ 0 hb refl,
    read_uint_le_skip 8 8 (le_bytes 8 a) _ 8 (length-le_bytes 8 a),
    read_uint_le_skip 8 0 (le_bytes 8 b) _ 8 (length-le_bytes 8 b),
    read_uint_le-le_bytes 8 c [] _ 0 hc refl,
    read_uint_le_skip 8 16 (le_bytes 8 a) _ 8 (length-le_bytes 8 a),
    read_uint_le_skip 8 8 (le_bytes 8 b) _ 8 (length-le_bytes 8 b),
    read_last 8 d (le_bytes 8 c) 8 hd (length-le_bytes 8 c),
  )

-- `Uint256.fromLittleEndian` undoes `toLittleEndian`.
pub uint256_le :
    (n : ℕ)
    → n ≤ Uint256.max_value
    → (Uint256.to_little_endian (record { value = n }) >>= Uint256.from_little_endian)
      ≡ ok (record { value = n })
unfolding Uint256.to_little_endian
uint256_le n h =
    rw
      (
        write_uint_le_fits 8 (n % 2 ^ 64) (omega arith),
        write_uint_le_fits 8 (n / 2 ^ 64 % 2 ^ 64) (omega arith),
        write_uint_le_fits 8 (n / 2 ^ 128 % 2 ^ 64) (omega arith),
        write_uint_le_fits 8 (n / 2 ^ 192 % 2 ^ 64) (omega arith),
      )
      (rw
        (uint256_of_words (n % 2 ^ 64) (n / 2 ^ 64 % 2 ^ 64) (n / 2 ^ 128 % 2 ^ 64)
          (n / 2 ^ 192 % 2 ^ 64) (omega arith) (omega arith) (omega arith) (omega arith))
        (unfold Uint256.make in
          let e : n % 2 ^ 64
                + n / 2 ^ 64 % 2 ^ 64 * 2 ^ 64
                + n / 2 ^ 128 % 2 ^ 64 * 2 ^ 128
                + n / 2 ^ 192 % 2 ^ 64 * 2 ^ 192
              ≡ n =
            omega arith in
          rw e (rw (ltb-false Uint256.max_value n h))))

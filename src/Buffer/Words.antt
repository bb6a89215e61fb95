-- ===== src/Buffer/Words.antt =====
-- Little-endian words: what is written is read back.
use native.Mathlib.Nat.{pow-suc}
use godwoken_web.Common.{
  ℕ, zero, suc, ◌/◌, ◌+◌, ◌-◌, ◌^◌, ◌<◌, ◌≡◌, refl, [], ◌∷◌, ◌++◌, arith, ap, length, take, drop,
  ok, lt→ltb, le→leb, length-append, take-append, drop-append, drop-append_add, Bool-cases, inl,
  inr, leb, leb→le, leb-false, leb-false→lt,
}
use godwoken_web.Buffer.{Bytes, IsBytes, le_bytes, of_le, write_uint_le, read_uint_le}

pub le_bytes-IsBytes : (k n : ℕ) → IsBytes (le_bytes k n)
unfolding le_bytes
le_bytes-IsBytes zero n = tt
le_bytes-IsBytes (suc k) n = (omega arith, le_bytes-IsBytes k (n / 256))

pub length-le_bytes : (k n : ℕ) → length (le_bytes k n) ≡ k
unfolding le_bytes
length-le_bytes zero n = refl
length-le_bytes (suc k) n = ap suc (length-le_bytes k (n / 256))

pub of_le-le_bytes : (k n : ℕ) → n < 256 ^ k → of_le (le_bytes k n) ≡ n
unfolding le_bytes of_le
of_le-le_bytes zero n h = omega arith
of_le-le_bytes (suc k) n h =
    omega (arith, of_le-le_bytes k (n / 256) (omega (arith, pow-suc 256 k)))

pub of_le-lt : (bs : Bytes) → IsBytes bs → of_le bs < 256 ^ length bs
unfolding of_le
of_le-lt [] h = omega arith
of_le-lt (b ∷ bs) (hb, h) = omega (arith, of_le-lt bs h, pow-suc 256 (length bs))

pub write_uint_le_fits : (k n : ℕ) → n < 256 ^ k → write_uint_le k n ≡ ok (le_bytes k n)
unfolding write_uint_le
write_uint_le_fits k n h = rw (lt→ltb n (256 ^ k) h)

-- A word is read from between the bytes before it and those behind it.
pub read_uint_le-le_bytes :
    (k n : ℕ) (before after : Bytes) (offset : ℕ)
    → n < 256 ^ k
    → length before ≡ offset
    → read_uint_le k offset (before ++ (le_bytes k n ++ after)) ≡ ok n
unfolding read_uint_le
read_uint_le-le_bytes k n before after offset h e =
    rw
      (le→leb (offset + k) (length (before ++ (le_bytes k n ++ after))) (
        omega (
          arith,
          length-append before (le_bytes k n ++ after),
          length-append (le_bytes k n) after,
          length-le_bytes k n,
        )))
      (rw (drop-append before (le_bytes k n ++ after) offset e) (
        rw
          (take-append (le_bytes k n) after (offset + k - offset)
            (omega (arith, length-le_bytes k n)))
          (ap ok (of_le-le_bytes k n h))))

-- Bytes in front of a buffer shift its offsets.
pub read_uint_le_skip :
    (k m : ℕ) (before rest : Bytes) (n : ℕ)
    → length before ≡ n
    → read_uint_le k (n + m) (before ++ rest) ≡ read_uint_le k m rest
unfolding read_uint_le
read_uint_le_skip k m before rest n e =
    rw (drop-append_add before rest n m e) (elim (Bool-cases (leb (m + k) (length rest))) [
      | inl h ↦
          rw
            (
              h,
              le→leb (n + m + k) (length (before ++ rest))
                  (omega (arith, length-append before rest, leb→le (m + k) (length rest) h)),
            )
            (ap (λ (j : ℕ). ok (of_le (take j (drop m rest)))) (omega arith))
      | inr h ↦ rw (
        h,
        leb-false (n + m + k) (length (before ++ rest))
            (omega (arith, length-append before rest, leb-false→lt (m + k) (length rest) h)),
      )
    ])

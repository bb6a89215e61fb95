-- ===== src/PolyjuiceLog/Bump.antt =====
-- The hash of the pending block: the number that the hash spells, plus one.
use godwoken_web.Common.{
  ℕ, zero, suc, ◌+◌, ◌-◌, ◌^◌, ◌<◌, ◌≡◌, refl, arith, ◌++◌, length, length-append, length-replicate,
  replicate, Text, ok,
}
use godwoken_web.Hex.{x_prefix, hex_value, scan, big_int, big_int_digits, to_string_16, pad_start}
use godwoken_web.Hex.Numbers.{scan-to_string_16, length-to_string_16, big_int_digits-to_string_16}
use godwoken_web.PolyjuiceLog.{bump_hash}

-- Zeros in front do not change the number.
scan-zeros : (n : ℕ) (s : Text) → scan 0 (replicate n b'0' ++ s) ≡ scan 0 s
unfolding scan hex_value
scan-zeros zero s = refl
scan-zeros (suc n) s = scan-zeros n s

big_int_digits-zeros : (n m : ℕ) → big_int_digits (replicate n b'0' ++ to_string_16 m) ≡ ok m
big_int_digits-zeros zero m = big_int_digits-to_string_16 m
big_int_digits-zeros (suc n) m =
    unfold big_int_digits in rw (scan-zeros (suc n) (to_string_16 m), scan-to_string_16 m)

-- A hash that spells a number is bumped to a text that spells the next one; the text has the 66
-- characters of a hash if that number has 256 bits at most.
bump_hash_lem :
    (hash : Text) (n : ℕ)
    → big_int hash ≡ ok n
    → (bumped : Text) × (bump_hash hash ≡ ok bumped)
      × (big_int bumped ≡ ok (n + 1))
      × (n + 1 < 2 ^ 256 → length bumped ≡ 66)
unfolding bump_hash
bump_hash_lem hash n h = (
  x_prefix ++ pad_start 64 (to_string_16 (n + 1)),
  rw h,
  unfold big_int pad_start in big_int_digits-zeros (64 - length (to_string_16 (n + 1))) (n + 1),
  λ small.
      unfold pad_start in
      omega (
        arith,
        length-append (replicate (64 - length (to_string_16 (n + 1))) b'0') (to_string_16 (n + 1)),
        length-replicate {A = ℕ} (64 - length (to_string_16 (n + 1))) b'0',
        length-to_string_16 63 (n + 1) small,
      ),
)
